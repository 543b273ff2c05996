-- ===== src/Onvif/Events/Clears.antt =====
-- The automatic clears: the running timers, and the map that finds them again.
use Prim.Native.String.{◌++◌ as ◌⧺◌}
use text.Mathlib.TextEquality.{eq_iff}
use text.Mathlib.TextLemmas.{append_cancel_left}
use nanit_onvif.Prelude.{
  ℕ, suc, ◌≤◌, ◌<◌, ◌≡◌, refl, ap, ◌∙◌, ◌≢◌, inl, inr, ℤ, Bool, true, false, Option, none, some,
  String, List, [], ◌∷◌, eqb, lookup, insert, delete, lookup-insert, lookup-delete, String_eq,
  arith, Bool-cases, Option-cases, All,
}
use nanit_onvif.Baby.State.{State}
use nanit_onvif.Onvif.Events.{
  topic_motion, topic_sound, data_key_motion, data_key_sound, Timer, EventManager, emit,
  schedule_clear, cancel_clear, clear_key_of, stop, stop_existing, advance_ts, on_motion_flag,
  on_sound_flag, on_motion_time, on_sound_time, handle_state,
}

-- Every running timer is the one that `clears` has under its key.
abbrev pub IsTracked : List (String × ℕ) → ℕ → List Timer → Type 0
IsTracked clears next ts =
    All (λ t. (lookup t.clear_key clears ≡ some t.timer_id) × (t.timer_id < next)) ts

abbrev pub IsOrderly : EventManager → Type 0
IsOrderly em = IsTracked em.clears em.next_timer em.timers

-- No running timer has the key.
abbrev pub NoneUnder : String → List Timer → Type 0
NoneUnder k ts = All (λ t. t.clear_key ≢ k) ts

-- Stopping the timer under a key leaves none there, and the others tracked if the entry changes.
IsTracked-stop :
    (k : String) (id n n' : ℕ) (m m' : List (String × ℕ)) (ts : List Timer)
    → n ≤ n'
    → lookup k m ≡ some id
    → ((j : String) → j ≢ k → lookup j m' ≡ lookup j m)
    → IsTracked m n ts
    → IsTracked m' n' (stop id ts) × NoneUnder k (stop id ts)
unfolding stop
IsTracked-stop k id n n' m m' [] le here same h = (tt, tt)
IsTracked-stop k id n n' m m' (t ∷ ts) le here same ((found, small), h) =
    let (rest, clear) = IsTracked-stop k id n n' m m' ts le here same h in
    elim (Bool-cases (eqb t.timer_id id)) [
      | inl gone ↦ rw gone (rest, clear)
      | inr stays ↦
          let other : t.clear_key ≢ k = other_key t stays found in
          rw stays (((same t.clear_key other ∙ found, omega arith), rest), (other, clear))
    ]
  where
    other_key :
        (t : Timer)
        → eqb t.timer_id id ≡ false
        → lookup t.clear_key m ≡ some t.timer_id
        → t.clear_key ≢ k
    other_key t stays found q = ground (arith, ap (λ j. lookup j m) q, here)

-- With no entry under a key no timer runs under it.
IsTracked-none :
    (k : String) (n n' : ℕ) (m m' : List (String × ℕ)) (ts : List Timer)
    → n ≤ n'
    → lookup k m ≡ none
    → ((j : String) → j ≢ k → lookup j m' ≡ lookup j m)
    → IsTracked m n ts
    → IsTracked m' n' ts × NoneUnder k ts
IsTracked-none k n n' m m' [] le here same h = (tt, tt)
IsTracked-none k n n' m m' (t ∷ ts) le here same ((found, small), h) =
    let (rest, clear) = IsTracked-none k n n' m m' ts le here same h in
    let other : t.clear_key ≢ k = other_key t found in
    (((same t.clear_key other ∙ found, omega arith), rest), (other, clear))
  where
    other_key : (t : Timer) → lookup t.clear_key m ≡ some t.timer_id → t.clear_key ≢ k
    other_key t found q = cc (ap (λ j. lookup j m) q, here, found)

insert_frame :
    (k : String) (v : ℕ) (m : List (String × ℕ)) (j : String)
    → j ≢ k
    → lookup j (insert k v m) ≡ lookup j m
insert_frame k v m j h = ground (arith, lookup-insert k j v m, String_eq.beq_iff k j)

delete_frame :
    (k : String) (m : List (String × ℕ)) (j : String) → j ≢ k → lookup j (delete k m) ≡ lookup j m
delete_frame k m j h = ground (arith, lookup-delete k j m, String_eq.beq_iff k j)

pub lookup-insert_self :
    (k : String) (v : ℕ) (m : List (String × ℕ)) → lookup k (insert k v m) ≡ some v
lookup-insert_self k v m = ground (arith, lookup-insert k k v m, String_eq.beq_iff k k)

stop_existing-IsTracked :
    (k : String) (n n' : ℕ) (m m' : List (String × ℕ)) (ts : List Timer)
    → n ≤ n'
    → ((j : String) → j ≢ k → lookup j m' ≡ lookup j m)
    → IsTracked m n ts
    → IsTracked m' n' (stop_existing (lookup k m) ts) × NoneUnder k (stop_existing (lookup k m) ts)
stop_existing-IsTracked k n n' m m' ts le same h = elim (Option-cases (lookup k m)) [
  | inl fresh ↦ rw fresh (IsTracked-none k n n' m m' ts le fresh same h)
  | inr (id, old) ↦ rw old (IsTracked-stop k id n n' m m' ts le old same h)
]

-- Where the timers are tracked, stopping the one of a key leaves none under it.
pub stopped_none :
    (k : String) (em : EventManager)
    → IsOrderly em
    → NoneUnder k (stop_existing (lookup k em.clears) em.timers)
stopped_none k em h =
    (stop_existing-IsTracked k em.next_timer em.next_timer em.clears em.clears em.timers
      (omega arith) (λ j _. refl) h).1

schedule_clear-IsOrderly :
    (now : ℕ) (uid topic key : String) (em : EventManager)
    → IsOrderly em
    → IsOrderly (schedule_clear now uid topic key em)
unfolding schedule_clear
schedule_clear-IsOrderly now uid topic key em h =
    let k = clear_key_of uid topic in
    (
      (lookup-insert_self k em.next_timer em.clears, omega arith),
      (stop_existing-IsTracked k em.next_timer (suc em.next_timer) em.clears
          (insert k em.next_timer em.clears) em.timers (omega arith)
          (insert_frame k em.next_timer em.clears) h).0,
    )

-- What `cancelClear` comes to: an entry that is not there changes nothing.
pub cancel_clear_fields :
    (uid topic : String) (em : EventManager)
    → ((cancel_clear uid topic em).timers
        ≡ stop_existing (lookup (clear_key_of uid topic) em.clears) em.timers)
      × ((cancel_clear uid topic em).next_timer ≡ em.next_timer)
      × ((j : String)
          → j ≢ clear_key_of uid topic
          → lookup j (cancel_clear uid topic em).clears ≡ lookup j em.clears)
unfolding cancel_clear
cancel_clear_fields uid topic em = elim (Option-cases (lookup (clear_key_of uid topic) em.clears)) [
  | inl fresh ↦ rw (fresh, cancel_clear) (refl, refl, λ j _. refl)
  | inr (id, old) ↦
      rw (old, cancel_clear) (refl, refl, delete_frame (clear_key_of uid topic) em.clears)
]

-- `cancelClear` leaves no timer running under its key.
pub cancel_clear-IsOrderly :
    (uid topic : String) (em : EventManager)
    → IsOrderly em
    → IsOrderly (cancel_clear uid topic em)
      × NoneUnder (clear_key_of uid topic) (cancel_clear uid topic em).timers
cancel_clear-IsOrderly uid topic em h =
    let (timers, next, same) = cancel_clear_fields uid topic em in
    simp (timers, next)
      (stop_existing-IsTracked (clear_key_of uid topic) em.next_timer em.next_timer em.clears
        (cancel_clear uid topic em).clears em.timers (omega arith) same h)

NoneUnder-stop : (k : String) (id : ℕ) (ts : List Timer) → NoneUnder k ts → NoneUnder k (stop id ts)
unfolding stop
NoneUnder-stop k id [] h = tt
NoneUnder-stop k id (t ∷ ts) (other, h) = elim (Bool-cases (eqb t.timer_id id)) [
  | inl gone ↦ rw gone (NoneUnder-stop k id ts h)
  | inr stays ↦ rw stays (other, NoneUnder-stop k id ts h)
]

pub NoneUnder-stop_existing :
    (k : String) (o : Option ℕ) (ts : List Timer)
    → NoneUnder k ts
    → NoneUnder k (stop_existing o ts)
NoneUnder-stop_existing k none ts h = h
NoneUnder-stop_existing k (some id) ts h = NoneUnder-stop k id ts h

-- The keys of the two topics of a baby differ.
pub keys_differ : (uid : String) → clear_key_of uid topic_motion ≢ clear_key_of uid topic_sound
keys_differ uid e =
    let rest = append_cancel_left uid (◌⧺◌ ":" topic_motion) (◌⧺◌ ":" topic_sound) e in
    ground (arith, eq_iff (◌⧺◌ ":" topic_motion) (◌⧺◌ ":" topic_sound), rest)

emit_frame :
    (now : ℕ) (uid topic key : String) (v : Bool) (em : EventManager)
    → ((emit now uid topic key v em).timers ≡ em.timers)
      × ((emit now uid topic key v em).clears ≡ em.clears)
      × ((emit now uid topic key v em).next_timer ≡ em.next_timer)
unfolding emit
emit_frame now uid topic key v em = (refl, refl, refl)

pub on_motion_flag-IsOrderly :
    (now : ℕ) (uid : String) (v : Option Bool) (em : EventManager)
    → IsOrderly em
    → IsOrderly (on_motion_flag now uid v em)
unfolding on_motion_flag emit
on_motion_flag-IsOrderly now uid none em h = h
on_motion_flag-IsOrderly now uid (some v) em h =
    (cancel_clear-IsOrderly uid topic_motion (emit now uid topic_motion data_key_motion v em) h).0

pub on_sound_flag-IsOrderly :
    (now : ℕ) (uid : String) (v : Option Bool) (em : EventManager)
    → IsOrderly em
    → IsOrderly (on_sound_flag now uid v em)
unfolding on_sound_flag emit
on_sound_flag-IsOrderly now uid none em h = h
on_sound_flag-IsOrderly now uid (some v) em h =
    (cancel_clear-IsOrderly uid topic_sound (emit now uid topic_sound data_key_sound v em) h).0

pub on_motion_time-IsOrderly :
    (now start : ℕ) (uid : String) (ts : Option ℤ) (flag : Option Bool) (em : EventManager)
    → IsOrderly em
    → IsOrderly (on_motion_time now start uid ts flag em)
unfolding on_motion_time emit
on_motion_time-IsOrderly now start uid none none em h = h
on_motion_time-IsOrderly now start uid none (some v) em h = h
on_motion_time-IsOrderly now start uid (some ts) (some v) em h = h
on_motion_time-IsOrderly now start uid (some ts) none em h =
    elim (Bool-cases (advance_ts em.last_motion uid ts).1) [
      | inl later ↦
          rw (later, on_motion_time)
            (schedule_clear-IsOrderly start uid topic_motion data_key_motion
              (emit now uid topic_motion data_key_motion true
                (record em { last_motion = (advance_ts em.last_motion uid ts).0 }))
              h)
      | inr stale ↦ rw (stale, on_motion_time) h
    ]

on_sound_time-IsOrderly :
    (now start : ℕ) (uid : String) (ts : Option ℤ) (flag : Option Bool) (em : EventManager)
    → IsOrderly em
    → IsOrderly (on_sound_time now start uid ts flag em)
unfolding on_sound_time emit
on_sound_time-IsOrderly now start uid none none em h = h
on_sound_time-IsOrderly now start uid none (some v) em h = h
on_sound_time-IsOrderly now start uid (some ts) (some v) em h = h
on_sound_time-IsOrderly now start uid (some ts) none em h =
    elim (Bool-cases (advance_ts em.last_sound uid ts).1) [
      | inl later ↦
          rw (later, on_sound_time)
            (schedule_clear-IsOrderly start uid topic_sound data_key_sound
              (emit now uid topic_sound data_key_sound true
                (record em { last_sound = (advance_ts em.last_sound uid ts).0 }))
              h)
      | inr stale ↦ rw (stale, on_sound_time) h
    ]

-- Handling a state keeps every running timer under its key in `clears`, so that the next trigger
-- or flag finds it.
pub handle_state-IsOrderly :
    (now : ℕ → ℕ) (uid : String) (s : State) (em : EventManager)
    → IsOrderly em
    → IsOrderly (handle_state now uid s em)
unfolding handle_state
handle_state-IsOrderly now uid s em h = on_sound_time-IsOrderly (now 4) (now 5) uid _ _ _ (
    on_motion_time-IsOrderly (now 2) (now 3) uid _ _ _
      (on_sound_flag-IsOrderly (now 1) uid _ _ (on_motion_flag-IsOrderly (now 0) uid _ em h)))
