-- ===== src/Onvif/Events/Pulse.antt =====
-- The life of an event: a trigger by time is followed by its clear, a flag ends a pending clear.
use nanit_onvif.Prelude.{
  ℕ, suc, ◌+◌, ◌≡◌, refl, sym, subst, ◌≢◌, inl, inr, ℤ, ltb_ℤ, Bool, true, false, Option, none,
  some, String, List, [], ◌∷◌, lookup, insert, delete, lookup-delete, String_eq, arith, Bool-cases,
  eqb, eqb_iff,
}
use nanit_onvif.Baby.State.{State}
use nanit_onvif.Onvif.Events.{
  topic_motion, topic_sound, data_key_motion, data_key_sound, Timer, EventManager, map_values, emit,
  new_timer, schedule_clear, cancel_clear, clear_key_of, fire_begin, fire_end, advance_ts,
  on_motion_flag, on_sound_flag, on_motion_time, on_sound_time, handle_state, stop, stop_existing,
}
use nanit_onvif.Onvif.Events.Emission.{receive, motion_note, time_with_flag, map_values-receive}
use nanit_onvif.Onvif.Events.Clears.{
  IsOrderly, NoneUnder, NoneUnder-stop_existing, cancel_clear-IsOrderly, cancel_clear_fields,
  keys_differ, on_motion_flag-IsOrderly, lookup-insert_self, stopped_none,
}

-- The other parts of `handleState` start no timer under the motion key.
on_sound_flag-NoneUnder :
    (now : ℕ) (uid k : String) (v : Option Bool) (em : EventManager)
    → NoneUnder k em.timers
    → NoneUnder k (on_sound_flag now uid v em).timers
unfolding on_sound_flag emit
on_sound_flag-NoneUnder now uid k none em h = h
on_sound_flag-NoneUnder now uid k (some v) em h =
    simp ((cancel_clear_fields uid topic_sound (emit now uid topic_sound data_key_sound v em)).0)
      (NoneUnder-stop_existing k (lookup (clear_key_of uid topic_sound) em.clears) em.timers h)

on_sound_time-NoneUnder :
    (now start : ℕ) (uid k : String) (ts : Option ℤ) (flag : Option Bool) (em : EventManager)
    → clear_key_of uid topic_sound ≢ k
    → NoneUnder k em.timers
    → NoneUnder k (on_sound_time now start uid ts flag em).timers
unfolding on_sound_time schedule_clear emit
on_sound_time-NoneUnder now start uid k none none em other h = h
on_sound_time-NoneUnder now start uid k none (some v) em other h = h
on_sound_time-NoneUnder now start uid k (some ts) (some v) em other h = h
on_sound_time-NoneUnder now start uid k (some ts) none em other h =
    elim (Bool-cases (advance_ts em.last_sound uid ts).1) [
      | inl later ↦
          rw (later, on_sound_time)
            (
              other,
              NoneUnder-stop_existing k (lookup (clear_key_of uid topic_sound) em.clears) em.timers
                  h,
            )
      | inr stale ↦ rw (stale, on_sound_time) h
    ]

on_motion_time-NoneUnder :
    (now start : ℕ) (uid k : String) (ts : Option ℤ) (flag : Option Bool) (em : EventManager)
    → clear_key_of uid topic_motion ≢ k
    → NoneUnder k em.timers
    → NoneUnder k (on_motion_time now start uid ts flag em).timers
unfolding on_motion_time schedule_clear emit
on_motion_time-NoneUnder now start uid k none none em other h = h
on_motion_time-NoneUnder now start uid k none (some v) em other h = h
on_motion_time-NoneUnder now start uid k (some ts) (some v) em other h = h
on_motion_time-NoneUnder now start uid k (some ts) none em other h =
    elim (Bool-cases (advance_ts em.last_motion uid ts).1) [
      | inl later ↦
          rw (later, on_motion_time)
            (
              other,
              NoneUnder-stop_existing k (lookup (clear_key_of uid topic_motion) em.clears) em.timers
                  h,
            )
      | inr stale ↦ rw (stale, on_motion_time) h
    ]

some-ne-none {ℓ} : {A : Type ℓ} {a : A} → some a ≡ none → ⊥
some-ne-none e = cc

module _ (now : ℕ → ℕ) (uid : String) where
  -- Where a motion flag is set, nothing is left under the motion key.
  motion_no_clear :
      (flag sflag : Option Bool) (ts sts : Option ℤ) (em : EventManager)
      → IsOrderly em
      → flag ≢ none
      → NoneUnder
          (clear_key_of uid topic_motion)
          (on_sound_time (now 4) (now 5) uid sts sflag (
            on_motion_time
              (now 2)
              (now 3)
              uid
              ts
              flag
              (on_sound_flag (now 1) uid sflag (on_motion_flag (now 0) uid flag em)))).timers
  unfolding on_motion_flag emit
  motion_no_clear none sflag ts sts em h ne = absurd (ne refl)
  motion_no_clear (some v) sflag ts sts em h ne =
      let k = clear_key_of uid topic_motion in
      let a = on_motion_flag (now 0) uid (some v) em in
      let b = on_sound_flag (now 1) uid sflag a in
      on_sound_time-NoneUnder (now 4) (now 5) uid k sts sflag
        (on_motion_time (now 2) (now 3) uid ts (some v) b) (λ e. keys_differ uid (sym e))
        (subst (λ c. NoneUnder k c.timers)
          (sym (time_with_flag (now 2) (now 3) uid ts (some v) b (λ e. absurd (some-ne-none e))).0)
          (on_sound_flag-NoneUnder (now 1) uid k sflag a
            (cancel_clear-IsOrderly uid topic_motion
              (emit (now 0) uid topic_motion data_key_motion v em) h).1))

  sound_no_clear :
      (flag : Option Bool) (sts : Option ℤ) (ts : Option ℤ) (mflag : Option Bool)
      (em : EventManager)
      → IsOrderly em
      → flag ≢ none
      → NoneUnder
          (clear_key_of uid topic_sound)
          (on_sound_time (now 4) (now 5) uid sts flag (
            on_motion_time
              (now 2)
              (now 3)
              uid
              ts
              mflag
              (on_sound_flag (now 1) uid flag (on_motion_flag (now 0) uid mflag em)))).timers
  unfolding on_sound_flag emit
  sound_no_clear none sts ts mflag em h ne = absurd (ne refl)
  sound_no_clear (some v) sts ts mflag em h ne =
      let k = clear_key_of uid topic_sound in
      let a = on_motion_flag (now 0) uid mflag em in
      let b = on_sound_flag (now 1) uid (some v) a in
      let c = on_motion_time (now 2) (now 3) uid ts mflag b in
      subst (λ c. NoneUnder k c.timers)
        (sym (time_with_flag (now 4) (now 5) uid sts (some v) c (λ e. absurd (some-ne-none e))).1)
        (on_motion_time-NoneUnder (now 2) (now 3) uid k ts mflag b (keys_differ uid)
          (cancel_clear-IsOrderly uid topic_sound (emit (now 1) uid topic_sound data_key_sound v a)
            (on_motion_flag-IsOrderly (now 0) uid mflag em h)).1)

lookup-delete_self : (k : String) (m : List (String × ℕ)) → lookup k (delete k m) ≡ none
lookup-delete_self k m = ground (arith, lookup-delete k k m, String_eq.beq_iff k k)

-- A live flag is authoritative: once a state with a flag for motion was handled, no automatic clear
-- of that baby's motion is running any more, so that none can contradict the flag.
pub handle_state-no_motion_clear :
    (now : ℕ → ℕ) (uid : String) (s : State) (em : EventManager)
    → IsOrderly em
    → s.motion_detected ≢ none
    → NoneUnder (clear_key_of uid topic_motion) (handle_state now uid s em).timers
unfolding handle_state
handle_state-no_motion_clear now uid s em h =
    motion_no_clear now uid s.motion_detected s.sound_detected s.motion_timestamp s.sound_timestamp
      em h

-- Once a state with a flag for sound was handled, no automatic clear of that baby's sound is running
-- any more.
pub handle_state-no_sound_clear :
    (now : ℕ → ℕ) (uid : String) (s : State) (em : EventManager)
    → IsOrderly em
    → s.sound_detected ≢ none
    → NoneUnder (clear_key_of uid topic_sound) (handle_state now uid s em).timers
unfolding handle_state
handle_state-no_sound_clear now uid s em h =
    sound_no_clear now uid s.sound_detected s.sound_timestamp s.motion_timestamp s.motion_detected
      em h

triggers :
    (now start : ℕ) (uid : String) (ts prev : ℤ) (em : EventManager)
    → lookup uid em.last_motion ≡ some prev
    → ltb_ℤ prev ts ≡ true
    → on_motion_time now start uid (some ts) none em
      ≡ schedule_clear start uid topic_motion data_key_motion (
          emit now uid topic_motion data_key_motion true
            (record em { last_motion = insert uid ts em.last_motion }))
unfolding on_motion_time advance_ts
triggers now start uid ts prev em seen newer =
    let later : (advance_ts em.last_motion uid ts).1 ≡ true = rw (advance_ts, seen) newer in
    rw (later, on_motion_time) refl

-- A trigger by time, alone: it is sent as a true event, and one timer is started, for the time at
-- which the hold ends; it runs, is the one under its key, and no other runs under the key. When it
-- fires, a false event is sent, and nothing is left under the key, neither a timer nor an entry.
pub on_motion_time-pulse :
    (now start later : ℕ) (uid : String) (ts prev : ℤ) (em : EventManager)
    → IsOrderly em
    → lookup uid em.last_motion ≡ some prev
    → ltb_ℤ prev ts ≡ true
    → let a = on_motion_time now start uid (some ts) none em in
      let k = clear_key_of uid topic_motion in
      (t : Timer) × ((rest : List Timer) × (a.timers ≡ t ∷ rest) × NoneUnder k rest)
      × (t.clear_key ≡ k)
      × (t.deadline ≡ start + em.hold_duration)
      × (lookup k a.clears ≡ some t.timer_id)
      × ((fire_end t (fire_begin later t a)).subs
          ≡ map_values
              (receive (motion_note now uid true ∷ motion_note later uid false ∷ []))
              em.subs)
      × NoneUnder k (fire_end t (fire_begin later t a)).timers
      × (lookup k (fire_end t (fire_begin later t a)).clears ≡ none)
unfolding schedule_clear emit fire_begin fire_end receive stop
on_motion_time-pulse now start later uid ts prev em orderly seen newer =
    let k = clear_key_of uid topic_motion in
    let rest = stop_existing (lookup k em.clears) em.timers in
    let alone : NoneUnder k rest = stopped_none k em orderly in
    let same : eqb em.next_timer em.next_timer ≡ true =
      (eqb_iff em.next_timer em.next_timer).1 refl in
    rw (triggers now start uid ts prev em seen newer) (
      new_timer start uid topic_motion data_key_motion em,
      (rest, refl, alone),
      refl,
      refl,
      lookup-insert_self k em.next_timer em.clears,
      map_values-receive (motion_note now uid true ∷ []) (motion_note later uid false ∷ []) em.subs,
      rw same (NoneUnder-stop_existing k (some em.next_timer) rest alone),
      lookup-delete_self k (insert k em.next_timer em.clears),
    )

-- Between the two parts of a clear's callback the same event may be triggered again. Then the end
-- of the old callback takes away the entry of the new clear: `cancelClear` changes nothing, and the
-- new clear goes on running.
pub fire_end-loses_timer :
    (now now' now'' : ℕ) (uid topic key : String) (em : EventManager)
    → let t = new_timer now uid topic key em in
      let b = fire_begin now' t (schedule_clear now uid topic key em) in
      let d = fire_end t (schedule_clear now'' uid topic key b) in
      (cancel_clear uid topic d ≡ d)
      × ((rest : List Timer) × (d.timers ≡ new_timer now'' uid topic key b ∷ rest))
unfolding fire_end fire_begin schedule_clear cancel_clear emit
fire_end-loses_timer now now' now'' uid topic key em =
    let k = clear_key_of uid topic in
    (
      rw
          (
            lookup-delete_self k (insert k (suc em.next_timer) (insert k em.next_timer em.clears)),
            cancel_clear,
          )
          refl,
      (_, refl),
    )
