-- ===== src/Baby/Manager/Views.antt =====
-- A subscriber that overlays each event on what it has seen knows the manager's states. `Update` stores
-- under one lock and notifies under another, so that the updates of goroutines interleave.
use nanit_onvif.Prelude.{
  ℕ, suc, zero, ◌<◌, ◌≡◌, refl, sym, ap, ◌∙◌, inl, inr, Bool, true, false, ◌||◌, none, some, List,
  [], ◌∷◌, ◌++◌, String, arith, length, if◌then◌else◌, get_elem?, String_eq, ◌==◌, Bool-cases,
  Option-cases,
}
use nanit_onvif.Baby.State.{State}
use nanit_onvif.Baby.State.Overlay.{overlay}
use nanit_onvif.Baby.Manager.{
  StateEvent, SubscriberWorker, StateManager, enqueue, work, store, get_baby_state, queue_cap,
}
use nanit_onvif.Baby.Manager.Updates.{get_baby_state-store, store_quiet}

-- What a subscriber makes of a baby `j`, from a first view and the events in order.
abbrev pub apply_event : String → State → StateEvent → State
apply_event j v (uid, s) = if uid == j then overlay v s else v

unfoldable pub apply_events : String → State → List StateEvent → State
apply_events j v [] = v
apply_events j v (e ∷ r) = apply_events j (apply_event j v e) r

-- The manager and one subscriber: what the callback has made of the events so far, and the events that
-- calls of `Update` have stored and not yet sent to this subscriber.
pub record Watch : Type 0 where
  pub manager : StateManager
  pub worker : SubscriberWorker
  pub view : String → State
  pub pending : List StateEvent

-- `Update` under `stateMutex`.
abbrev pub stored : StateManager × Bool → StateEvent → Watch → Watch
stored (m, told) e w = record w {
  manager = m;
  pending = if told then w.pending ++ e ∷ [] else w.pending;
}

abbrev pub remove_at : ℕ → List StateEvent → List StateEvent
remove_at n [] = []
remove_at zero (e ∷ es) = es
remove_at (suc n) (e ∷ es) = e ∷ remove_at n es

-- The call of `enqueue` for this subscriber, in the `notifySubscribers` of any of those calls.
unfoldable pub told_next : ℕ → Watch → Watch
told_next n w = elim (get_elem? w.pending n) [
  | none ↦ w
  | some e ↦ record w { worker = enqueue false w.worker e; pending = remove_at n w.pending }
]

-- A round of the subscriber's goroutine.
unfoldable pub taken : Watch → Watch
taken w = elim (work false w.worker) [
  | none ↦ w
  | some (e, rest) ↦ record w { worker = rest; view = λ j. apply_event j (w.view j) e }
]

pub data Step : Type 0 where
  stores : String → State → Step
  tells : ℕ → Step
  takes : Step

unfoldable pub step : Step → Watch → Watch
unfolding told_next taken
step (stores uid u) w = stored (store w.manager uid u) (uid, u) w
step (tells n) w = told_next n w
step takes w = taken w

unfoldable pub run : List Step → Watch → Watch
unfolding step
run [] w = w
run (s ∷ ss) w = run ss (step s w)

-- Whether an event would pass an earlier one of the same baby.
abbrev pub overtakes : ℕ → List StateEvent → Bool
overtakes zero es = false
overtakes (suc n) [] = false
overtakes (suc n) (x ∷ es) =
    elim (get_elem? es n) [ none ↦ false | some e ↦ e.0 == x.0 ] || overtakes n es

-- The events are sent while the queue has room, those of one baby in the order of their storing.
abbrev pub InTurn : List Step → Watch → Type 0
InTurn [] w = Unit
InTurn (stores uid u ∷ ss) w = InTurn ss (step (stores uid u) w)
InTurn (tells n ∷ ss) w =
    (length w.worker.queue < queue_cap)
    × (overtakes n w.pending ≡ false)
    × InTurn ss (step (tells n) w)
InTurn (takes ∷ ss) w = InTurn ss (step takes w)

-- What the callback has seen, with what waits in the queue and what is still to be sent, is what the
-- manager holds.
abbrev pub IsCurrent : Watch → Type 0
IsCurrent w =
    (j : String)
    → apply_events j (w.view j) (w.worker.queue ++ w.pending) ≡ get_baby_state w.manager j

apply_events-append :
    (j : String) (v : State) (es fs : List StateEvent)
    → apply_events j v (es ++ fs) ≡ apply_events j (apply_events j v es) fs
unfolding apply_events
apply_events-append j v [] fs = refl
apply_events-append j v (e ∷ es) fs = apply_events-append j (apply_event j v e) es fs

swap :
    (j : String) (v : State) (x e : StateEvent)
    → (e.0 == x.0) ≡ false
    → apply_event j (apply_event j v x) e ≡ apply_event j (apply_event j v e) x
swap j v x e apart =
    ground
      (arith, apart, String_eq.beq_iff e.0 x.0, String_eq.beq_iff e.0 j, String_eq.beq_iff x.0 j)

sent_early :
    (j : String) (n : ℕ) (v : State) (es : List StateEvent) (e : StateEvent)
    → get_elem? es n ≡ some e
    → overtakes n es ≡ false
    → apply_events j (apply_event j v e) (remove_at n es) ≡ apply_events j v es
unfolding apply_events
sent_early j n v [] e g h = cc
sent_early j zero v (x ∷ es) e g h = let same : x ≡ e = cc in rw same refl
sent_early j (suc n) v (x ∷ es) e g h =
    let (apart, rest) = both_false (e.0 == x.0) (overtakes n es) (rw g at h) in
    ap (λ s. apply_events j s (remove_at n es)) (sym (swap j v x e apart))
    ∙ sent_early j n (apply_event j v x) es e g rest
  where
    both_false : (a b : Bool) → a || b ≡ false → (a ≡ false) × (b ≡ false)
    both_false false b h = (refl, h)
    both_false true b h = cc

stored-IsCurrent :
    (w : Watch) (uid : String) (u : State)
    → IsCurrent w
    → IsCurrent (stored (store w.manager uid u) (uid, u) w)
unfolding apply_events
stored-IsCurrent w uid u h j = elim (Bool-cases (store w.manager uid u).1) [
  | inl told ↦ rw told (
      joined
      ∙ ap (λ s. apply_event j s (uid, u)) (h j)
      ∙ (delta ∙ sym (get_baby_state-store w.manager uid u j)))
  | inr quiet ↦ rw quiet (h j ∙ quiet_same quiet)
]
  where
    joined :
        apply_events j (w.view j) (w.worker.queue ++ (w.pending ++ (uid, u) ∷ []))
        ≡ apply_event j (apply_events j (w.view j) (w.worker.queue ++ w.pending)) (uid, u)
    joined =
        apply_events-append j (w.view j) w.worker.queue (w.pending ++ (uid, u) ∷ [])
        ∙ apply_events-append j (apply_events j (w.view j) w.worker.queue) w.pending ((uid, u) ∷ [])
        ∙ ap (λ s. apply_event j s (uid, u))
            (sym (apply_events-append j (w.view j) w.worker.queue w.pending))

    delta : apply_event j (get_baby_state w.manager j) (uid, u) ≡ (
        if uid == j then overlay (get_baby_state w.manager uid) u else get_baby_state w.manager j)
    delta = ground (arith, String_eq.beq_iff uid j)

    quiet_same :
        (store w.manager uid u).1 ≡ false
        → get_baby_state w.manager j ≡ get_baby_state (store w.manager uid u).0 j
    quiet_same quiet = ap (λ m. get_baby_state m j) (sym (store_quiet w.manager uid u quiet))

enqueue_appends :
    (w : SubscriberWorker) (e : StateEvent)
    → w.done ≡ false
    → length w.queue < queue_cap
    → enqueue false w e ≡ record w { queue = w.queue ++ (e ∷ []) }
unfolding enqueue
enqueue_appends w e d h = ground arith

told_next-IsCurrent :
    (n : ℕ) (w : Watch)
    → w.worker.done ≡ false
    → length w.worker.queue < queue_cap
    → overtakes n w.pending ≡ false
    → IsCurrent w
    → IsCurrent (told_next n w) × ((told_next n w).worker.done ≡ false)
unfolding told_next apply_events
told_next-IsCurrent n w open_yet room turn h = elim (Option-cases (get_elem? w.pending n)) [
  | inl missing ↦ rw (told_next, missing) (h, open_yet)
  | inr (e, found) ↦
      rw (told_next, found, enqueue_appends w.worker e open_yet room)
        (
          λ j.
              let q = w.worker.queue in
              let v = apply_events j (w.view j) q in
              apply_events-append j (w.view j) (q ++ e ∷ []) (remove_at n w.pending)
              ∙ (ap (λ s. apply_events j s (remove_at n w.pending))
                    (apply_events-append j (w.view j) q (e ∷ []))
                  ∙ (sent_early j n v w.pending e found turn
                      ∙ (sym (apply_events-append j (w.view j) q w.pending) ∙ h j))),
          open_yet,
        )
]

work_front :
    (w : SubscriberWorker) (e : StateEvent) (rest : SubscriberWorker)
    → w.done ≡ false
    → work false w ≡ some (e, rest)
    → (w.queue ≡ e ∷ rest.queue) × (rest.done ≡ false)
unfolding work
work_front w e rest open_yet h = at_front w.queue refl
  where
    at_front :
        (q : List StateEvent) → w.queue ≡ q → (w.queue ≡ e ∷ rest.queue) × (rest.done ≡ false)
    at_front [] q = cc (rw (work, open_yet, q) at h)
    at_front (x ∷ xs) q =
        let k : some (x, record w { queue = xs }) ≡ some (e, rest) = rw (work, open_yet, q) at h in
        let k0 : x ≡ e = cc k in
        let k1 : record w { queue = xs } ≡ rest = cc k in
        (q ∙ rw (k0, ← k1) refl, ap (λ r. r.done) (sym k1) ∙ open_yet)

taken-IsCurrent :
    (w : Watch)
    → w.worker.done ≡ false
    → IsCurrent w
    → IsCurrent (taken w) × ((taken w).worker.done ≡ false)
unfolding taken apply_events
taken-IsCurrent w open_yet h = elim (Option-cases (work false w.worker)) [
  | inl blocked ↦ rw (taken, blocked) (h, open_yet)
  | inr ((e, rest), goes) ↦
      let (front, still) = work_front w.worker e rest open_yet goes in
      rw (taken, goes)
        (λ j. ap (λ q. apply_events j (w.view j) (q ++ w.pending)) (sym front) ∙ h j, still)
]

-- Where a registered subscriber knows the states, and goroutines then update them, send it the updates
-- and hand them to its callback, in any order in which its queue has room and no update passes an
-- earlier one of the same baby between the two locks of `Update`: it knows the new states, as soon as it
-- has got the events that wait and those still to be sent.
pub run-IsCurrent :
    (ss : List Step) (w : Watch)
    → w.worker.done ≡ false
    → InTurn ss w
    → IsCurrent w
    → IsCurrent (run ss w)
unfolding run step
run-IsCurrent [] w open_yet turns h = h
run-IsCurrent (stores uid u ∷ ss) w open_yet turns h =
    run-IsCurrent ss (stored (store w.manager uid u) (uid, u) w) open_yet turns
      (stored-IsCurrent w uid u h)
run-IsCurrent (tells n ∷ ss) w open_yet (room, turn, turns) h =
    let (now, still) = told_next-IsCurrent n w open_yet room turn h in
    run-IsCurrent ss (told_next n w) still turns now
run-IsCurrent (takes ∷ ss) w open_yet turns h =
    let (now, still) = taken-IsCurrent w open_yet h in run-IsCurrent ss (taken w) still turns now
