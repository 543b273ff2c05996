-- ===== src/Onvif/Events/Emission.antt =====
-- Which notifications a baby's state brings to the subscriptions.
use nanit_onvif.Prelude.{
  ℕ, ◌≡◌, refl, ap, ap₂, ◌∙◌, sym, ℤ, ltb_ℤ, Bool, true, Option, none, some, String, List, [], ◌∷◌,
  ◌++◌, append-nil, append_assoc, if◌then◌else◌, lookup, String_eq, arith,
}
use nanit_onvif.Baby.State.{State, new_state}
use nanit_onvif.App.Sensors.{SensorData, ok, sensor_update}
use nanit_onvif.App.Sensors.Readings.{HasFlags, sensor_update-HasFlags}
use nanit_onvif.Onvif.Events.{
  topic_motion, topic_sound, data_key_motion, data_key_sound, Notification, Subscription,
  EventManager, enqueue, map_values, emit, schedule_clear, cancel_clear, advance_ts, on_motion_flag,
  on_sound_flag, on_motion_time, on_sound_time, handle_state,
}

-- A subscription that gets notifications one after the other.
unfoldable pub receive : List Notification → Subscription → Subscription
receive [] s = s
receive (n ∷ ns) s = receive ns (enqueue n s)

pub queue-receive :
    (ns : List Notification) (s : Subscription) → (receive ns s).queue ≡ s.queue ++ ns
unfolding receive enqueue
queue-receive [] s = sym (append-nil s.queue)
queue-receive (n ∷ ns) s = queue-receive ns (enqueue n s) ∙ append_assoc s.queue (n ∷ []) ns

receive-append :
    (xs ys : List Notification) (s : Subscription)
    → receive (xs ++ ys) s ≡ receive ys (receive xs s)
unfolding receive
receive-append [] ys s = refl
receive-append (x ∷ xs) ys s = receive-append xs ys (enqueue x s)

map_values-receive_nil : (m : List (String × Subscription)) → map_values (receive []) m ≡ m
unfolding map_values receive
map_values-receive_nil [] = refl
map_values-receive_nil ((k, s) ∷ m) = ap (λ r. (k, s) ∷ r) (map_values-receive_nil m)

pub map_values-receive :
    (xs ys : List Notification) (m : List (String × Subscription))
    → map_values (receive ys) (map_values (receive xs) m) ≡ map_values (receive (xs ++ ys)) m
unfolding map_values
map_values-receive xs ys [] = refl
map_values-receive xs ys ((k, s) ∷ m) =
    ap₂ (λ s r. (k, s) ∷ r) (sym (receive-append xs ys s)) (map_values-receive xs ys m)

abbrev of_flag : (Bool → Notification) → Option Bool → List Notification
of_flag note none = []
of_flag note (some v) = note v ∷ []

-- A time counts where there is no flag, and it is later than the one seen before.
abbrev of_time : (Bool → Notification) → Option ℤ → Option Bool → Option ℤ → List Notification
of_time note none flag prev = []
of_time note (some ts) (some v) prev = []
of_time note (some ts) none none = []
of_time note (some ts) none (some prev) = if ltb_ℤ prev ts then note true ∷ [] else []

module _ (now : ℕ) (uid : String) where
  abbrev pub motion_note : Bool → Notification
  motion_note v = record {
    time = now;
    topic = topic_motion;
    source = uid;
    key = data_key_motion;
    value = v;
  }

  abbrev pub sound_note : Bool → Notification
  sound_note v = record {
    time = now;
    topic = topic_sound;
    source = uid;
    key = data_key_sound;
    value = v;
  }

  -- What a part of `handleState` does to the subscriptions.
  subs-emit :
      (topic key : String) (v : Bool) (em : EventManager)
      → (emit now uid topic key v em).subs
        ≡ map_values
            (receive
              (record { time = now; topic = topic; source = uid; key = key; value = v } ∷ []))
            em.subs
  unfolding emit receive
  subs-emit topic key v em = refl

  cancel_clear_frame :
      (topic : String) (em : EventManager)
      → ((cancel_clear uid topic em).subs ≡ em.subs)
        × ((cancel_clear uid topic em).last_motion ≡ em.last_motion)
        × ((cancel_clear uid topic em).last_sound ≡ em.last_sound)
  unfolding cancel_clear
  cancel_clear_frame topic em = ground arith

  on_motion_flag_frame :
      (v : Option Bool) (em : EventManager)
      → ((on_motion_flag now uid v em).subs ≡ map_values (receive (of_flag motion_note v)) em.subs)
        × ((on_motion_flag now uid v em).last_motion ≡ em.last_motion)
        × ((on_motion_flag now uid v em).last_sound ≡ em.last_sound)
  unfolding on_motion_flag emit receive
  on_motion_flag_frame none em = (sym (map_values-receive_nil em.subs), refl, refl)
  on_motion_flag_frame (some v) em =
      cancel_clear_frame topic_motion (emit now uid topic_motion data_key_motion v em)

  on_sound_flag_frame :
      (v : Option Bool) (em : EventManager)
      → ((on_sound_flag now uid v em).subs ≡ map_values (receive (of_flag sound_note v)) em.subs)
        × ((on_sound_flag now uid v em).last_motion ≡ em.last_motion)
        × ((on_sound_flag now uid v em).last_sound ≡ em.last_sound)
  unfolding on_sound_flag emit receive
  on_sound_flag_frame none em = (sym (map_values-receive_nil em.subs), refl, refl)
  on_sound_flag_frame (some v) em =
      cancel_clear_frame topic_sound (emit now uid topic_sound data_key_sound v em)

  on_motion_time_frame :
      (start : ℕ) (ts : Option ℤ) (flag : Option Bool) (em : EventManager)
      → ((on_motion_time now start uid ts flag em).subs
          ≡ map_values (receive (of_time motion_note ts flag (lookup uid em.last_motion))) em.subs)
        × ((on_motion_time now start uid ts flag em).last_sound ≡ em.last_sound)
  unfolding on_motion_time advance_ts schedule_clear emit receive
  on_motion_time_frame start none none em = (sym (map_values-receive_nil em.subs), refl)
  on_motion_time_frame start none (some v) em = (sym (map_values-receive_nil em.subs), refl)
  on_motion_time_frame start (some ts) (some v) em = (sym (map_values-receive_nil em.subs), refl)
  on_motion_time_frame start (some ts) none em = ground (arith, map_values-receive_nil em.subs)

  on_sound_time_frame :
      (start : ℕ) (ts : Option ℤ) (flag : Option Bool) (em : EventManager)
      → ((on_sound_time now start uid ts flag em).subs
          ≡ map_values (receive (of_time sound_note ts flag (lookup uid em.last_sound))) em.subs)
        × ((on_sound_time now start uid ts flag em).last_motion ≡ em.last_motion)
  unfolding on_sound_time advance_ts schedule_clear emit receive
  on_sound_time_frame start none none em = (sym (map_values-receive_nil em.subs), refl)
  on_sound_time_frame start none (some v) em = (sym (map_values-receive_nil em.subs), refl)
  on_sound_time_frame start (some ts) (some v) em = (sym (map_values-receive_nil em.subs), refl)
  on_sound_time_frame start (some ts) none em = ground (arith, map_values-receive_nil em.subs)

-- The notifications of a state, with the flags before the times.
abbrev pub emitted : (ℕ → ℕ) → String → State → EventManager → List Notification
emitted now uid s em =
    of_flag (motion_note (now 0) uid) s.motion_detected
    ++ (of_flag (sound_note (now 1) uid) s.sound_detected
        ++ (of_time (motion_note (now 2) uid) s.motion_timestamp s.motion_detected
              (lookup uid em.last_motion)
            ++ of_time (sound_note (now 4) uid) s.sound_timestamp s.sound_detected
                (lookup uid em.last_sound)))

-- After `handleState` every subscription has received, in this order, the motion flag and the sound
-- flag where they are set, and then motion and sound for a time that has no flag beside it and is
-- later than the last one seen for the baby; for a first time nothing is sent.
pub subs-handle_state :
    (now : ℕ → ℕ) (uid : String) (s : State) (em : EventManager)
    → (handle_state now uid s em).subs ≡ map_values (receive (emitted now uid s em)) em.subs
unfolding handle_state
subs-handle_state now uid s em =
    let a = on_motion_flag (now 0) uid s.motion_detected em in
    let b = on_sound_flag (now 1) uid s.sound_detected a in
    let c = on_motion_time (now 2) (now 3) uid s.motion_timestamp s.motion_detected b in
    let (a-subs, a-motion, a-sound) = on_motion_flag_frame (now 0) uid s.motion_detected em in
    let (b-subs, b-motion, b-sound) = on_sound_flag_frame (now 1) uid s.sound_detected a in
    let (c-subs, c-sound) =
      on_motion_time_frame (now 2) uid (now 3) s.motion_timestamp s.motion_detected b in
    let (d-subs, _) =
      on_sound_time_frame (now 4) uid (now 5) s.sound_timestamp s.sound_detected c in
    simp (
      d-subs, c-subs, b-subs, a-subs, c-sound, b-sound, a-sound, b-motion, a-motion,
      map_values-receive, append_assoc,
    )

pub time_with_flag :
    (now start : ℕ) (uid : String) (ts : Option ℤ) (flag : Option Bool) (em : EventManager)
    → (flag ≡ none → ts ≡ none)
    → (on_motion_time now start uid ts flag em ≡ em) × (on_sound_time now start uid ts flag em ≡ em)
unfolding on_motion_time on_sound_time
time_with_flag now start uid none none em h = (refl, refl)
time_with_flag now start uid none (some v) em h = (refl, refl)
time_with_flag now start uid (some ts) none em h = absurd (some-ne-none (h refl))
  where
    some-ne-none : some ts ≡ none → ⊥
    some-ne-none e = cc
time_with_flag now start uid (some ts) (some v) em h = (refl, refl)

-- A state that gives a time only beside its flag, as every update from sensor data does, is handled
-- by its flags alone: no time is recorded, and no automatic clear is scheduled.
pub handle_state-HasFlags :
    (now : ℕ → ℕ) (uid : String) (s : State) (em : EventManager)
    → HasFlags s
    → handle_state now uid s em
      ≡ on_sound_flag (now 1) uid s.sound_detected (on_motion_flag (now 0) uid s.motion_detected em)
unfolding handle_state
handle_state-HasFlags now uid s em (m, d) =
    (time_with_flag (now 4) (now 5) uid s.sound_timestamp s.sound_detected _ d).1
    ∙ (time_with_flag (now 2) (now 3) uid s.motion_timestamp s.motion_detected _ m).0

-- Reading a message of the camera that succeeds makes an update which the event manager handles by
-- its flags alone.
pub handle_state-sensor_update :
    (now : ℕ → ℕ) (uid : String) (ds : List SensorData) (u : State) (em : EventManager)
    → sensor_update ds new_state ≡ ok u
    → handle_state now uid u em
      ≡ on_sound_flag (now 1) uid u.sound_detected (on_motion_flag (now 0) uid u.motion_detected em)
handle_state-sensor_update now uid ds u em h =
    handle_state-HasFlags now uid u em
      (sensor_update-HasFlags ds new_state u h (λ _. refl, λ _. refl))
