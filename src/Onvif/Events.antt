-- ===== src/Onvif/Events.antt =====
-- pkg/onvif/events.go: the event manager between baby states and PullPoint subscribers.
-- An instant is a number of nanoseconds, `now` a reading of the clock. A running timer has an id, for
-- the address that `clears` keeps. A method with one lock is one step, `drain` and the callback of a
-- timer come in two parts, and `handle_state` is composed of the steps that it takes.
pub mod Emission
pub mod Clears
pub mod Pulse
pub mod Draining
use Prim.Native.String.{◌++◌ as ◌⧺◌}
use nanit_onvif.Prelude.{
  ℕ, suc, ◌+◌, ℤ, pos, negsuc, ltb_ℤ, Bool, true, false, not, Option, none, some, String, List, [],
  ◌∷◌, ◌++◌, map, length, take, drop, ltb, eqb, if◌then◌else◌, lookup, insert, delete, String_eq,
}
use nanit_onvif.Baby.State.{State}

abbrev pub topic_motion : String
topic_motion = "tns1:RuleEngine/CellMotionDetector/Motion"

abbrev pub topic_sound : String
topic_sound = "tns1:AudioAnalytics/Audio/DetectedSound"

abbrev pub data_key_motion : String
data_key_motion = "IsMotion"

abbrev pub data_key_sound : String
data_key_sound = "IsSoundDetected"

pub record Notification : Type 0 where
  pub time : ℕ
  pub topic : String
  pub source : String
  pub key : String
  pub value : Bool

-- A waiter is the channel of one `drain` that blocks.
pub record Subscription : Type 0 where
  pub id : String
  pub terminate_at : ℕ
  pub queue : List Notification
  pub waiters : List ℕ

-- A running `time.AfterFunc`, with the variables that its callback holds.
pub record Timer : Type 0 where
  pub timer_id : ℕ
  pub deadline : ℕ
  pub clear_key : String
  pub baby_uid : String
  pub topic : String
  pub key : String

pub record EventManager : Type 0 where
  pub hold_duration : ℕ
  pub subs : List (String × Subscription)
  pub clears : List (String × ℕ)
  pub last_motion : List (String × ℤ)
  pub last_sound : List (String × ℤ)
  pub timers : List Timer
  pub next_timer : ℕ

abbrev pub default_hold : ℕ
default_hold = 30_000_000_000

abbrev pub hold_or_default : ℤ → ℕ
hold_or_default (pos n) = if eqb n 0 then default_hold else n
hold_or_default (negsuc n) = default_hold

unfoldable pub new_event_manager : ℤ → EventManager
new_event_manager hold = record {
  hold_duration = hold_or_default hold;
  subs = [];
  clears = [];
  last_motion = [];
  last_sound = [];
  timers = [];
  next_timer = 0;
}

-- `enqueue`: the message is appended, and every waiter's channel is closed.
unfoldable pub enqueue : Notification → Subscription → Subscription
enqueue msg s = record s { queue = s.queue ++ (msg ∷ []); waiters = [] }

unfoldable pub map_values {ℓ} : {V : Type ℓ} → (V → V) → List (String × V) → List (String × V)
map_values f [] = []
map_values f ((k, v) ∷ m) = (k, f v) ∷ map_values f m

unfoldable pub emit : ℕ → String → String → String → Bool → EventManager → EventManager
unfolding map_values enqueue
emit now uid topic key value em =
    let msg : Notification = record {
      time = now;
      topic = topic;
      source = uid;
      key = key;
      value = value;
    } in
    record em { subs = map_values (enqueue msg) em.subs }

abbrev pub clear_key_of : String → String → String
clear_key_of uid topic = ◌⧺◌ uid (◌⧺◌ ":" topic)

-- `Stop` of a timer: it runs no more, if it still did.
unfoldable pub stop : ℕ → List Timer → List Timer
stop id [] = []
stop id (t ∷ ts) = let rest = stop id ts in if eqb t.timer_id id then rest else t ∷ rest

abbrev pub stop_existing : Option ℕ → List Timer → List Timer
stop_existing none ts = ts
stop_existing (some id) ts = stop id ts

abbrev pub new_timer : ℕ → String → String → String → EventManager → Timer
new_timer now uid topic key em = record {
  timer_id = em.next_timer;
  deadline = now + em.hold_duration;
  clear_key = clear_key_of uid topic;
  baby_uid = uid;
  topic = topic;
  key = key;
}

unfoldable pub schedule_clear : ℕ → String → String → String → EventManager → EventManager
unfolding stop
schedule_clear now uid topic key em =
    let k = clear_key_of uid topic in
    record em {
      timers = new_timer now uid topic key em ∷ stop_existing (lookup k em.clears) em.timers;
      clears = insert k em.next_timer em.clears;
      next_timer = suc em.next_timer;
    }

unfoldable pub cancel_clear : String → String → EventManager → EventManager
cancel_clear uid topic em =
    let k = clear_key_of uid topic in
    elim (lookup k em.clears) [
      | none ↦ em
      | some id ↦ record em { timers = stop id em.timers; clears = delete k em.clears }
    ]

-- The callback of a timer: first the event, then, under the lock taken again, the entry goes.
unfoldable pub fire_begin : ℕ → Timer → EventManager → EventManager
unfolding stop
fire_begin now t em =
    emit now t.baby_uid t.topic t.key false (record em { timers = stop t.timer_id em.timers })

unfoldable pub fire_end : Timer → EventManager → EventManager
fire_end t em = record em { clears = delete t.clear_key em.clears }

-- `advanceTS`: the new contents of the map, and whether `ts` is a real advance.
unfoldable pub advance_ts : List (String × ℤ) → String → ℤ → List (String × ℤ) × Bool
advance_ts m uid ts =
    (insert uid ts m, elim (lookup uid m) [ none ↦ false | some prev ↦ ltb_ℤ prev ts ])

-- The parts of `handleState`: an alert flag, and a timestamp where there is no flag, with the readings
-- of the clock for the emission, `now`, and for the timer, `start`.
unfoldable pub on_motion_flag : ℕ → String → Option Bool → EventManager → EventManager
on_motion_flag now uid none em = em
on_motion_flag now uid (some v) em =
    cancel_clear uid topic_motion (emit now uid topic_motion data_key_motion v em)

unfoldable pub on_sound_flag : ℕ → String → Option Bool → EventManager → EventManager
on_sound_flag now uid none em = em
on_sound_flag now uid (some v) em =
    cancel_clear uid topic_sound (emit now uid topic_sound data_key_sound v em)

unfoldable pub on_motion_time :
    ℕ → ℕ → String → Option ℤ → Option Bool → EventManager → EventManager
on_motion_time now start uid (some ts) none em =
    let (m, advanced) = advance_ts em.last_motion uid ts in
    let em' = record em { last_motion = m } in
    if advanced
    then schedule_clear start uid topic_motion data_key_motion
        (emit now uid topic_motion data_key_motion true em')
    else em'
on_motion_time now start uid _ _ em = em

unfoldable pub on_sound_time : ℕ → ℕ → String → Option ℤ → Option Bool → EventManager → EventManager
on_sound_time now start uid (some ts) none em =
    let (m, advanced) = advance_ts em.last_sound uid ts in
    let em' = record em { last_sound = m } in
    if advanced
    then schedule_clear start uid topic_sound data_key_sound
        (emit now uid topic_sound data_key_sound true em')
    else em'
on_sound_time now start uid _ _ em = em

-- `handleState`; `now` gives the readings of the clock, one for each emission and each timer. The parts
-- take their locks one by one; only one goroutine calls it.
unfoldable pub handle_state : (ℕ → ℕ) → String → State → EventManager → EventManager
handle_state now uid s em = on_sound_time (now 4) (now 5) uid s.sound_timestamp s.sound_detected (
    on_motion_time (now 2) (now 3) uid s.motion_timestamp s.motion_detected (
      on_sound_flag (now 1) uid s.sound_detected (on_motion_flag (now 0) uid s.motion_detected em)))

-- One tick of `janitor`.
unfoldable pub evict : ℕ → List (String × Subscription) → List (String × Subscription)
evict now [] = []
evict now ((id, s) ∷ m) =
    let rest = evict now m in if ltb s.terminate_at now then rest else (id, s) ∷ rest

unfoldable pub janitor_tick : ℕ → EventManager → EventManager
unfolding evict
janitor_tick now em = record em { subs = evict now em.subs }

-- `Stop`: the timers that `clears` knows are stopped.
unfoldable pub stop_all : List (String × ℕ) → List Timer → List Timer
stop_all [] ts = ts
stop_all ((k, id) ∷ m) ts = stop_all m (stop id ts)

unfoldable pub stop_manager : EventManager → EventManager
unfolding stop_all stop
stop_manager em = record em { timers = stop_all em.clears em.timers; clears = [] }

-- `drain` up to its wait: with an empty queue and a timeout it blocks on a new channel.
unfoldable pub drain_begin : ℕ → ℕ → Subscription → Subscription × Bool
drain_begin wait timeout s =
    if eqb (length s.queue) 0
    then (if ltb 0 timeout
        then (record s { waiters = s.waiters ++ (wait ∷ []) }, true)
        else (s, false))
    else (s, false)

-- How many messages a pull takes: a limit of 0 or less takes them all.
abbrev pub drain_count : ℤ → ℕ → ℕ
drain_count (pos l) n = if ltb 0 l then (if ltb l n then l else n) else n
drain_count (negsuc l) n = n

-- `drain` after its wait: the messages taken, and the subscription with the rest.
unfoldable pub drain_end : ℤ → Subscription → List Notification × Subscription
drain_end limit s =
    let n = drain_count limit (length s.queue) in
    (take n s.queue, record s { queue = drop n s.queue })
