-- ===== src/Baby/State/Merge.antt =====
-- pkg/baby/state.go, Merge: what it returns, and when it returns the old pointer.
use nanit_onvif.Prelude.{
  ◌≡◌, refl, ap, ◌∙◌, sym, ◌↔◌, Bool, false, Option, none, some, arith, Eq, Bool_eq, ℤ_eq,
  String_eq, Bool-cases, inl, inr,
}
use nanit_onvif.Baby.State.{State, StreamState_eq, StreamRequestState_eq, merge_field, merge}
use nanit_onvif.Baby.State.Overlay.{or_else, overlay, overlay_assoc, overlay_idem}

module _ {ℓ} {A : Type ℓ} ⦃e : Eq A⦄ where
  merge_field-value : (d v : Option A) (c : Bool) → (merge_field d v c).0 ≡ or_else v d
  unfolding merge_field
  merge_field-value d none c = refl
  merge_field-value none (some v) c = refl
  merge_field-value (some d) (some v) c = ground (arith, e.beq_iff d v)

  -- The flag stays down only if it was down and the field keeps its value.
  merge_field-unchanged :
      (d v : Option A) (c : Bool)
      → ((merge_field d v c).1 ≡ false) ↔ ((c ≡ false) × (or_else v d ≡ d))
  unfolding merge_field
  merge_field-unchanged d none c = ground arith
  merge_field-unchanged none (some v) c = ground arith
  merge_field-unchanged (some d) (some v) c = ground (arith, e.beq_iff d v)

-- The flag after the last field.
abbrev changed : State → State → Bool
changed s u =
    (merge_field s.is_connected_to_server u.is_connected_to_server
      (merge_field s.hardware_version u.hardware_version
        (merge_field s.firmware_version u.firmware_version
          (merge_field s.mounting_mode u.mounting_mode
            (merge_field s.volume u.volume
              (merge_field s.mic_mute_on u.mic_mute_on
                (merge_field s.status_light_on u.status_light_on
                  (merge_field s.sleep_mode u.sleep_mode
                    (merge_field s.night_vision u.night_vision
                      (merge_field s.night_light_timeout_sec u.night_light_timeout_sec
                        (merge_field s.night_light_on u.night_light_on
                          (merge_field s.light_level u.light_level
                            (merge_field s.humidity_milli u.humidity_milli
                              (merge_field s.temperature_milli u.temperature_milli
                                (merge_field s.is_night u.is_night
                                  (merge_field s.temperature u.temperature
                                    (merge_field s.sound_detected u.sound_detected
                                      (merge_field s.motion_detected u.motion_detected
                                        (merge_field s.sound_timestamp u.sound_timestamp
                                          (merge_field s.motion_timestamp u.motion_timestamp
                                            (merge_field s.is_websocket_alive u.is_websocket_alive
                                              (merge_field s.stream_request_state
                                                u.stream_request_state
                                                (merge_field s.stream_state u.stream_state false).1
                                                  ).1).1).1).1).1).1).1).1).1).1).1).1).1).1).1).1
                                                  ).1).1).1).1).1).1

unchanged_overlay : (s u : State) → changed s u ≡ false → overlay s u ≡ s
unfolding overlay
unchanged_overlay s u h23 =
    let (h22, e23) =
      (merge_field-unchanged s.is_connected_to_server u.is_connected_to_server _).0 h23 in
    let (h21, e22) = (merge_field-unchanged s.hardware_version u.hardware_version _).0 h22 in
    let (h20, e21) = (merge_field-unchanged s.firmware_version u.firmware_version _).0 h21 in
    let (h19, e20) = (merge_field-unchanged s.mounting_mode u.mounting_mode _).0 h20 in
    let (h18, e19) = (merge_field-unchanged s.volume u.volume _).0 h19 in
    let (h17, e18) = (merge_field-unchanged s.mic_mute_on u.mic_mute_on _).0 h18 in
    let (h16, e17) = (merge_field-unchanged s.status_light_on u.status_light_on _).0 h17 in
    let (h15, e16) = (merge_field-unchanged s.sleep_mode u.sleep_mode _).0 h16 in
    let (h14, e15) = (merge_field-unchanged s.night_vision u.night_vision _).0 h15 in
    let (h13, e14) =
      (merge_field-unchanged s.night_light_timeout_sec u.night_light_timeout_sec _).0 h14 in
    let (h12, e13) = (merge_field-unchanged s.night_light_on u.night_light_on _).0 h13 in
    let (h11, e12) = (merge_field-unchanged s.light_level u.light_level _).0 h12 in
    let (h10, e11) = (merge_field-unchanged s.humidity_milli u.humidity_milli _).0 h11 in
    let (h9, e10) = (merge_field-unchanged s.temperature_milli u.temperature_milli _).0 h10 in
    let (h8, e9) = (merge_field-unchanged s.is_night u.is_night _).0 h9 in
    let (h7, e8) = (merge_field-unchanged s.temperature u.temperature _).0 h8 in
    let (h6, e7) = (merge_field-unchanged s.sound_detected u.sound_detected _).0 h7 in
    let (h5, e6) = (merge_field-unchanged s.motion_detected u.motion_detected _).0 h6 in
    let (h4, e5) = (merge_field-unchanged s.sound_timestamp u.sound_timestamp _).0 h5 in
    let (h3, e4) = (merge_field-unchanged s.motion_timestamp u.motion_timestamp _).0 h4 in
    let (h2, e3) = (merge_field-unchanged s.is_websocket_alive u.is_websocket_alive _).0 h3 in
    let (h1, e2) = (merge_field-unchanged s.stream_request_state u.stream_request_state _).0 h2 in
    let (h0, e1) = (merge_field-unchanged s.stream_state u.stream_state _).0 h1 in
    λ i. record {
      stream_state = e1 i;
      stream_request_state = e2 i;
      is_websocket_alive = e3 i;
      motion_timestamp = e4 i;
      sound_timestamp = e5 i;
      motion_detected = e6 i;
      sound_detected = e7 i;
      temperature = e8 i;
      is_night = e9 i;
      temperature_milli = e10 i;
      humidity_milli = e11 i;
      light_level = e12 i;
      night_light_on = e13 i;
      night_light_timeout_sec = e14 i;
      night_vision = e15 i;
      sleep_mode = e16 i;
      status_light_on = e17 i;
      mic_mute_on = e18 i;
      volume = e19 i;
      mounting_mode = e20 i;
      firmware_version = e21 i;
      hardware_version = e22 i;
      is_connected_to_server = e23 i;
    }

changed-overlay : (s u : State) → overlay s u ≡ s → changed s u ≡ false
unfolding overlay
changed-overlay s u h =
    let h1 =
      (merge_field-unchanged s.stream_state u.stream_state _).1
        (refl, ap (λ (t : State). t.stream_state) h) in
    let h2 =
      (merge_field-unchanged s.stream_request_state u.stream_request_state _).1
        (h1, ap (λ (t : State). t.stream_request_state) h) in
    let h3 =
      (merge_field-unchanged s.is_websocket_alive u.is_websocket_alive _).1
        (h2, ap (λ (t : State). t.is_websocket_alive) h) in
    let h4 =
      (merge_field-unchanged s.motion_timestamp u.motion_timestamp _).1
        (h3, ap (λ (t : State). t.motion_timestamp) h) in
    let h5 =
      (merge_field-unchanged s.sound_timestamp u.sound_timestamp _).1
        (h4, ap (λ (t : State). t.sound_timestamp) h) in
    let h6 =
      (merge_field-unchanged s.motion_detected u.motion_detected _).1
        (h5, ap (λ (t : State). t.motion_detected) h) in
    let h7 =
      (merge_field-unchanged s.sound_detected u.sound_detected _).1
        (h6, ap (λ (t : State). t.sound_detected) h) in
    let h8 =
      (merge_field-unchanged s.temperature u.temperature _).1
        (h7, ap (λ (t : State). t.temperature) h) in
    let h9 =
      (merge_field-unchanged s.is_night u.is_night _).1 (h8, ap (λ (t : State). t.is_night) h) in
    let h10 =
      (merge_field-unchanged s.temperature_milli u.temperature_milli _).1
        (h9, ap (λ (t : State). t.temperature_milli) h) in
    let h11 =
      (merge_field-unchanged s.humidity_milli u.humidity_milli _).1
        (h10, ap (λ (t : State). t.humidity_milli) h) in
    let h12 =
      (merge_field-unchanged s.light_level u.light_level _).1
        (h11, ap (λ (t : State). t.light_level) h) in
    let h13 =
      (merge_field-unchanged s.night_light_on u.night_light_on _).1
        (h12, ap (λ (t : State). t.night_light_on) h) in
    let h14 =
      (merge_field-unchanged s.night_light_timeout_sec u.night_light_timeout_sec _).1
        (h13, ap (λ (t : State). t.night_light_timeout_sec) h) in
    let h15 =
      (merge_field-unchanged s.night_vision u.night_vision _).1
        (h14, ap (λ (t : State). t.night_vision) h) in
    let h16 =
      (merge_field-unchanged s.sleep_mode u.sleep_mode _).1
        (h15, ap (λ (t : State). t.sleep_mode) h) in
    let h17 =
      (merge_field-unchanged s.status_light_on u.status_light_on _).1
        (h16, ap (λ (t : State). t.status_light_on) h) in
    let h18 =
      (merge_field-unchanged s.mic_mute_on u.mic_mute_on _).1
        (h17, ap (λ (t : State). t.mic_mute_on) h) in
    let h19 = (merge_field-unchanged s.volume u.volume _).1 (h18, ap (λ (t : State). t.volume) h) in
    let h20 =
      (merge_field-unchanged s.mounting_mode u.mounting_mode _).1
        (h19, ap (λ (t : State). t.mounting_mode) h) in
    let h21 =
      (merge_field-unchanged s.firmware_version u.firmware_version _).1
        (h20, ap (λ (t : State). t.firmware_version) h) in
    let h22 =
      (merge_field-unchanged s.hardware_version u.hardware_version _).1
        (h21, ap (λ (t : State). t.hardware_version) h) in
    let h23 =
      (merge_field-unchanged s.is_connected_to_server u.is_connected_to_server _).1
        (h22, ap (λ (t : State). t.is_connected_to_server) h) in
    h23

-- `Merge` returns the overlay, whether or not it allocates.
pub merge-eq-overlay : (s u : State) → (merge s u).0 ≡ overlay s u
unfolding merge overlay
merge-eq-overlay s u = elim (Bool-cases (changed s u)) [
  | inl new ↦ rw new (simp merge_field-value)
  | inr old ↦ rw old (sym (unfold overlay in unchanged_overlay s u old))
]

-- `Merge` returns the pointer of the old state exactly when no field changes.
pub merge-same_iff : (s u : State) → ((merge s u).1 ≡ false) ↔ (overlay s u ≡ s)
unfolding merge
merge-same_iff s u = elim (Bool-cases (changed s u)) [
  | inl new ↦ (λ h. cc (rw new at h), λ e. cc (new, changed-overlay s u e))
  | inr old ↦ (λ _. unchanged_overlay s u old, λ _. rw old)
]

-- Merging two updates one after the other gives the state of merging their merge, and merging an
-- update again changes nothing and returns the same pointer.
pub merge_twice :
    (s u v : State)
    → ((merge (merge s u).0 v).0 ≡ (merge s (merge u v).0).0)
      × (merge (merge s u).0 u ≡ ((merge s u).0, false))
merge_twice s u v =
    let t : State = (merge s u).0 in
    let again : overlay t u ≡ t =
      rw (merge-eq-overlay s u) (overlay_assoc s u u ∙ ap (overlay s) (overlay_idem u)) in
    (
      simp merge-eq-overlay (overlay_assoc s u v),
      λ i. ((merge-eq-overlay t u ∙ again) i, (merge-same_iff t u).1 again i),
    )
