-- ===== src/App/Sensors/Readings.antt =====
-- What a list of sensor readings comes to: when it is read to the end, and which value wins.
use nanit_onvif.Prelude.{
  ℤ, pos, ◌≡◌, refl, ap, ◌∙◌, ◌⊎◌, inl, inr, Bool, true, false, Option, none, some, List, [], ◌∷◌,
  eqb_ℤ, if◌then◌else◌, arith,
}
use nanit_onvif.Baby.State.{State}
use nanit_onvif.Baby.State.Overlay.{or_else, or_else_assoc}
use nanit_onvif.App.Sensors.{
  SensorType, SensorData, sound, motion, temperature, humidity, light, night, ok, nil_pointer,
  apply_sensor, sensor_round, sensor_update,
}

-- A motion or sound reading with a time and no alert flag.
abbrev faulty_at : Option SensorType → Option Bool → Option ℤ → Bool
faulty_at (some motion) none (some t) = true
faulty_at (some sound) none (some t) = true
faulty_at _ _ _ = false

abbrev pub is_faulty : SensorData → Bool
is_faulty d = faulty_at d.sensor_type d.is_alert d.timestamp

abbrev pub any_faulty : List SensorData → Bool
any_faulty [] = false
any_faulty (d ∷ ds) = if is_faulty d then true else any_faulty ds

sensor_round_faulty :
    (d : SensorData) (s : State)
    → (sensor_round d s ≡ nil_pointer) × (is_faulty d ≡ true)
      ⊎ ((s' : State) × (sensor_round d s ≡ ok s')) × (is_faulty d ≡ false)
unfolding sensor_round apply_sensor
sensor_round_faulty d s = ground arith

-- Reading a list of sensor data dereferences a nil pointer exactly when it holds a motion or sound
-- reading that has a timestamp and no alert flag; otherwise it is read to the end.
pub sensor_update_faulty :
    (ds : List SensorData) (s : State)
    → (sensor_update ds s ≡ nil_pointer) × (any_faulty ds ≡ true)
      ⊎ ((s' : State) × (sensor_update ds s ≡ ok s')) × (any_faulty ds ≡ false)
unfolding sensor_update
sensor_update_faulty [] s = inr ((s, refl), refl)
sensor_update_faulty (d ∷ ds) s = elim (sensor_round_faulty d s) [
  | inl (fault, f) ↦ inl (rw (fault, sensor_update), rw f)
  | inr ((s', read), f) ↦ rw (read, f, sensor_update) (sensor_update_faulty ds s')
]

abbrev pub eqb_sensor : SensorType → SensorType → Bool
eqb_sensor sound sound = true
eqb_sensor motion motion = true
eqb_sensor temperature temperature = true
eqb_sensor humidity humidity = true
eqb_sensor light light = true
eqb_sensor night night = true
eqb_sensor _ _ = false

-- What a reading says, if it is of the given type.
abbrev pub of_type {ℓ} : {A : Type ℓ} → SensorType → (SensorData → Option A) → SensorData → Option A
of_type t f d = elim d.sensor_type [ none ↦ none | some k ↦ if eqb_sensor k t then f d else none ]

-- What the last reading that says something says.
abbrev pub latest {ℓ} : {A : Type ℓ} → (SensorData → Option A) → List SensorData → Option A
latest f [] = none
latest f (d ∷ ds) = or_else (latest f ds) (f d)

abbrev pub is_one : SensorData → Option Bool
is_one d = elim d.value [ none ↦ none | some v ↦ some (eqb_ℤ v (pos 1)) ]

-- The fields of `u` come from `s` by taking the given values, where there are any.
pub record Takes (s u : State) (temp hum lux : Option ℤ) (dark moved heard : Option Bool)
    : Type 0 where
  pub temperature_taken : u.temperature_milli ≡ or_else temp s.temperature_milli
  pub humidity_taken : u.humidity_milli ≡ or_else hum s.humidity_milli
  pub light_taken : u.light_level ≡ or_else lux s.light_level
  pub night_taken : u.is_night ≡ or_else dark s.is_night
  pub motion_taken : u.motion_detected ≡ or_else moved s.motion_detected
  pub sound_taken : u.sound_detected ≡ or_else heard s.sound_detected

sensor_round-Takes :
    (d : SensorData) (s : State) {s' : State}
    → sensor_round d s ≡ ok s'
    → Takes s s'
        (of_type temperature (λ r. r.value_milli) d)
        (of_type humidity (λ r. r.value_milli) d)
        (of_type light (λ r. r.value) d)
        (of_type night is_one d)
        (of_type motion (λ r. r.is_alert) d)
        (of_type sound (λ r. r.is_alert) d)
unfolding sensor_round apply_sensor
sensor_round-Takes d s h = ground arith

module _ {s t u : State} {a b c a' b' c' : Option ℤ} {d e f d' e' f' : Option Bool} where
  Takes-then :
      Takes s t a b c d e f
      → Takes t u a' b' c' d' e' f'
      → Takes s u
          (or_else a' a)
          (or_else b' b)
          (or_else c' c)
          (or_else d' d)
          (or_else e' e)
          (or_else f' f)
  Takes-then p q = record {
    temperature_taken =
        rw or_else_assoc (q.temperature_taken ∙ ap (or_else a') p.temperature_taken);
    humidity_taken = rw or_else_assoc (q.humidity_taken ∙ ap (or_else b') p.humidity_taken);
    light_taken = rw or_else_assoc (q.light_taken ∙ ap (or_else c') p.light_taken);
    night_taken = rw or_else_assoc (q.night_taken ∙ ap (or_else d') p.night_taken);
    motion_taken = rw or_else_assoc (q.motion_taken ∙ ap (or_else e') p.motion_taken);
    sound_taken = rw or_else_assoc (q.sound_taken ∙ ap (or_else f') p.sound_taken);
  }

nil-ne-ok : {s : State} → nil_pointer ≡ ok s → ⊥
nil-ne-ok h = cc

-- Each quantity that the list speaks of has the value of the last reading that gives it one, and
-- the others keep theirs. The flags of motion and sound are read so too.
pub sensor_update-Takes :
    (ds : List SensorData) (s u : State)
    → sensor_update ds s ≡ ok u
    → Takes s u
        (latest (of_type temperature (λ r. r.value_milli)) ds)
        (latest (of_type humidity (λ r. r.value_milli)) ds)
        (latest (of_type light (λ r. r.value)) ds)
        (latest (of_type night is_one) ds)
        (latest (of_type motion (λ r. r.is_alert)) ds)
        (latest (of_type sound (λ r. r.is_alert)) ds)
unfolding sensor_update
sensor_update-Takes [] s u h = ground arith
sensor_update-Takes (d ∷ ds) s u h = elim (sensor_round_faulty d s) [
  | inl (fault, _) ↦ absurd (nil-ne-ok (rw (fault, sensor_update) at h))
  | inr ((s', read), _) ↦
      Takes-then (sensor_round-Takes d s read)
        (sensor_update-Takes ds s' u (rw (read, sensor_update) at h))
]

-- A time of motion or sound is only ever set together with its flag.
abbrev pub HasFlags : State → Type 0
HasFlags s =
    (s.motion_detected ≡ none → s.motion_timestamp ≡ none)
    × (s.sound_detected ≡ none → s.sound_timestamp ≡ none)

sensor_round-HasFlags :
    (d : SensorData) (s : State) {s' : State} → sensor_round d s ≡ ok s' → HasFlags s → HasFlags s'
unfolding sensor_round apply_sensor
sensor_round-HasFlags d s h f = ground arith

-- From a state where this holds, reading sensor data keeps it: where the update gives a time of
-- motion, or of sound, it also says whether there is motion, or sound.
pub sensor_update-HasFlags :
    (ds : List SensorData) (s u : State) → sensor_update ds s ≡ ok u → HasFlags s → HasFlags u
unfolding sensor_update
sensor_update-HasFlags [] s u h f = ground arith
sensor_update-HasFlags (d ∷ ds) s u h f = elim (sensor_round_faulty d s) [
  | inl (fault, _) ↦ absurd (nil-ne-ok (rw (fault, sensor_update) at h))
  | inr ((s', read), _) ↦
      sensor_update-HasFlags ds s' u (rw (read, sensor_update) at h)
        (sensor_round-HasFlags d s read f)
]
