-- ===== src/Baby/Manager.antt =====
-- pkg/baby/state_manager.go: the states by UID, and the subscribers with their bounded queues.
-- What a method does under one lock is one step; a method that takes two locks in turn is composed of
-- its steps, between which other goroutines may run. A Go map is an association list, and an
-- iteration over it goes through the list in order.
pub mod Queue
pub mod Updates
pub mod Views
use nanit_onvif.Prelude.{
  ℕ, suc, ◌+◌, ◌%◌, ◌^◌, ℤ, to_int32, Bool, true, false, ◌&&◌, not, Option, none, some, String,
  List, [], ◌∷◌, ◌++◌, map, length, ltb, eqb, if◌then◌else◌, lookup, insert, String_eq,
}
use nanit_onvif.Baby.State.{State, new_state, merge, set_motion_timestamp, set_sound_timestamp}

-- `stateEvent`: the baby's UID and the state.
abbrev pub StateEvent : Type 0
StateEvent = String × State

-- `subscriberWorker`: the channel `queue` of capacity 64, the counter `dropped` (uint64), and
-- whether the channel `done` is closed. The callback is what consumes the events of `work`.
pub record SubscriberWorker : Type 0 where
  pub id : ℕ
  pub queue : List StateEvent
  pub dropped : ℕ
  pub done : Bool

pub record StateManager : Type 0 where
  pub babies_by_uid : List (String × State)
  pub subscribers : List SubscriberWorker

abbrev pub queue_cap : ℕ
queue_cap = 64

abbrev pub new_state_manager : StateManager
new_state_manager = record { babies_by_uid = []; subscribers = [] }

-- The `select` of `enqueue`: where both the send and `done` are ready, the runtime picks one, and
-- `quit` says whether it picks `done`.
unfoldable pub enqueue : Bool → SubscriberWorker → StateEvent → SubscriberWorker
enqueue quit w evt =
    if ltb (length w.queue) queue_cap
    then (if w.done && quit then w else record w { queue = w.queue ++ (evt ∷ []) })
    else (if w.done then w else record w { dropped = (w.dropped + 1) % 2 ^ 64 })

-- One round of the subscriber's goroutine: the event handed to the callback, and the rest.
-- `none` stands for a goroutine that blocks or returns.
unfoldable pub work : Bool → SubscriberWorker → Option (StateEvent × SubscriberWorker)
work quit w =
    if w.done && quit
    then none
    else (elim w.queue [ [] ↦ none | evt ∷ rest ↦ some (evt, record w { queue = rest }) ])

-- `notifySubscribers`. The workers registered have an open `done`, so the choice is not met.
unfoldable pub notify_subscribers : StateManager → String → State → StateManager
notify_subscribers m uid s = record m {
  subscribers = map (λ w. enqueue false w (uid, s)) m.subscribers;
}

-- `Update` under `stateMutex`: the new states, and whether it goes on to the subscribers. It uses
-- `NewState().Merge(&stateUpdate)` for a baby that is not known yet, and returns early where an update
-- leaves a known baby's state as it is.
unfoldable pub store : StateManager → String → State → StateManager × Bool
store m uid u = elim (lookup uid m.babies_by_uid) [
  | some s ↦
      let (s', changed) = merge s u in
      if changed
      then (record m { babies_by_uid = insert uid s' m.babies_by_uid }, true)
      else (m, false)
  | none ↦ (record m { babies_by_uid = insert uid (merge new_state u).0 m.babies_by_uid }, true)
]

-- `Update`: its two parts, each under its own lock.
unfoldable pub update : StateManager → String → State → StateManager
update m uid u =
    let stored : StateManager × Bool = store m uid u in
    if stored.1 then notify_subscribers stored.0 uid u else stored.0

-- The state of an unknown baby is the zero value of `State`.
unfoldable pub get_baby_state : StateManager → String → State
get_baby_state m uid = elim (lookup uid m.babies_by_uid) [ some s ↦ s | none ↦ new_state ]

-- Primes a worker with the current state of each baby.
unfoldable pub prime : SubscriberWorker → List (String × State) → SubscriberWorker
prime w [] = w
prime w (evt ∷ r) = prime (enqueue false w evt) r

-- `Subscribe` under `subscribersMutex`: the id stands for the address of the new worker.
unfoldable pub register : ℕ → StateManager → StateManager
register id m = record m {
  subscribers = m.subscribers ++ (record { id = id; queue = []; dropped = 0; done = false }) ∷ [];
}

unfoldable pub prime_worker :
    ℕ → List (String × State) → List SubscriberWorker → List SubscriberWorker
unfolding prime
prime_worker id babies [] = []
prime_worker id babies (w ∷ ws) =
    let rest = prime_worker id babies ws in (if eqb w.id id then prime w babies else w) ∷ rest

-- `Subscribe`: the worker is registered, then primed, under `stateMutex`.
unfoldable pub subscribe : StateManager → ℕ → StateManager
unfolding register prime_worker
subscribe m id =
    let m' : StateManager = register id m in
    record m' { subscribers = prime_worker id m'.babies_by_uid m'.subscribers }

unfoldable pub remove_worker : ℕ → List SubscriberWorker → List SubscriberWorker
remove_worker id [] = []
remove_worker id (w ∷ ws) = let rest = remove_worker id ws in if eqb w.id id then rest else w ∷ rest

-- The function that `Subscribe` returns. The worker's `done` is closed as it leaves the map.
unfoldable pub unsubscribe : StateManager → ℕ → StateManager
unsubscribe m id = record m { subscribers = remove_worker id m.subscribers }

-- `seconds` is `time.Unix()`.
unfoldable pub notify_motion_subscribers : StateManager → String → ℤ → StateManager
notify_motion_subscribers m uid seconds =
    notify_subscribers m uid (set_motion_timestamp (to_int32 seconds) new_state)

unfoldable pub notify_sound_subscribers : StateManager → String → ℤ → StateManager
notify_sound_subscribers m uid seconds =
    notify_subscribers m uid (set_sound_timestamp (to_int32 seconds) new_state)
