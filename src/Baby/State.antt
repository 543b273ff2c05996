-- ===== src/Baby/State.antt =====
-- pkg/baby/state.go: the state of one baby, its constructor, accessors and merge.
-- A pointer field is an option. An int32 is an integer; the milli readings stay exact.
pub mod Overlay
pub mod Merge
pub mod Fields
use nanit_onvif.Prelude.{
  ℤ, pos, negsuc, ◌≡◌, ◌↔◌, refl, Bool, true, false, Option, none, some, String, List, [], ◌∷◌,
  arith, Eq, ◌==◌, Bool_eq, ℤ_eq, String_eq, if◌then◌else◌,
}

pub data StreamRequestState : Type 0 where
  not_requested requested request_failed : StreamRequestState

pub data StreamState : Type 0 where
  unknown unhealthy alive : StreamState

abbrev pub eqb_request : StreamRequestState → StreamRequestState → Bool
eqb_request not_requested not_requested = true
eqb_request requested requested = true
eqb_request request_failed request_failed = true
eqb_request _ _ = false

abbrev pub eqb_stream : StreamState → StreamState → Bool
eqb_stream unknown unknown = true
eqb_stream unhealthy unhealthy = true
eqb_stream alive alive = true
eqb_stream _ _ = false

pub eqb_request_iff : (a b : StreamRequestState) → (eqb_request a b ≡ true) ↔ (a ≡ b)
eqb_request_iff a b = ground arith

pub eqb_stream_iff : (a b : StreamState) → (eqb_stream a b ≡ true) ↔ (a ≡ b)
eqb_stream_iff a b = ground arith

instance abbrev pub StreamRequestState_eq : Eq StreamRequestState
StreamRequestState_eq = record { beq = eqb_request; beq_iff = eqb_request_iff }

instance abbrev pub StreamState_eq : Eq StreamState
StreamState_eq = record { beq = eqb_stream; beq_iff = eqb_stream_iff }

pub record State : Type 0 where
  pub stream_state : Option StreamState
  pub stream_request_state : Option StreamRequestState
  pub is_websocket_alive : Option Bool
  pub motion_timestamp : Option ℤ
  pub sound_timestamp : Option ℤ
  pub motion_detected : Option Bool
  pub sound_detected : Option Bool
  pub temperature : Option Bool
  pub is_night : Option Bool
  pub temperature_milli : Option ℤ
  pub humidity_milli : Option ℤ
  pub light_level : Option ℤ
  pub night_light_on : Option Bool
  pub night_light_timeout_sec : Option ℤ
  pub night_vision : Option Bool
  pub sleep_mode : Option Bool
  pub status_light_on : Option Bool
  pub mic_mute_on : Option Bool
  pub volume : Option ℤ
  pub mounting_mode : Option ℤ
  pub firmware_version : Option String
  pub hardware_version : Option String
  pub is_connected_to_server : Option Bool

abbrev pub new_state : State
new_state = record {
  stream_state = none;
  stream_request_state = none;
  is_websocket_alive = none;
  motion_timestamp = none;
  sound_timestamp = none;
  motion_detected = none;
  sound_detected = none;
  temperature = none;
  is_night = none;
  temperature_milli = none;
  humidity_milli = none;
  light_level = none;
  night_light_on = none;
  night_light_timeout_sec = none;
  night_vision = none;
  sleep_mode = none;
  status_light_on = none;
  mic_mute_on = none;
  volume = none;
  mounting_mode = none;
  firmware_version = none;
  hardware_version = none;
  is_connected_to_server = none;
}

-- `mergeBool`, `mergeString`, `mergeInt32`, `mergeStreamState` and `mergeStreamRequestState` are
-- one function at five types: the new value of `*dst`, and of `*changed`.
unfoldable pub merge_field {ℓ} :
    {A : Type ℓ} ⦃e : Eq A⦄ → Option A → Option A → Bool → Option A × Bool
merge_field dst none changed = (dst, changed)
merge_field none (some v) changed = (some v, true)
merge_field (some d) (some v) changed = if d == v then (some d, changed) else (some v, true)

-- The merged state, and whether the pointer returned is a new one (`changed`): an unchanged state
-- is returned as the old pointer.
unfoldable pub merge : State → State → State × Bool
merge s u =
    let (f1, c1) = merge_field s.stream_state u.stream_state false in
    let (f2, c2) = merge_field s.stream_request_state u.stream_request_state c1 in
    let (f3, c3) = merge_field s.is_websocket_alive u.is_websocket_alive c2 in
    let (f4, c4) = merge_field s.motion_timestamp u.motion_timestamp c3 in
    let (f5, c5) = merge_field s.sound_timestamp u.sound_timestamp c4 in
    let (f6, c6) = merge_field s.motion_detected u.motion_detected c5 in
    let (f7, c7) = merge_field s.sound_detected u.sound_detected c6 in
    let (f8, c8) = merge_field s.temperature u.temperature c7 in
    let (f9, c9) = merge_field s.is_night u.is_night c8 in
    let (f10, c10) = merge_field s.temperature_milli u.temperature_milli c9 in
    let (f11, c11) = merge_field s.humidity_milli u.humidity_milli c10 in
    let (f12, c12) = merge_field s.light_level u.light_level c11 in
    let (f13, c13) = merge_field s.night_light_on u.night_light_on c12 in
    let (f14, c14) = merge_field s.night_light_timeout_sec u.night_light_timeout_sec c13 in
    let (f15, c15) = merge_field s.night_vision u.night_vision c14 in
    let (f16, c16) = merge_field s.sleep_mode u.sleep_mode c15 in
    let (f17, c17) = merge_field s.status_light_on u.status_light_on c16 in
    let (f18, c18) = merge_field s.mic_mute_on u.mic_mute_on c17 in
    let (f19, c19) = merge_field s.volume u.volume c18 in
    let (f20, c20) = merge_field s.mounting_mode u.mounting_mode c19 in
    let (f21, c21) = merge_field s.firmware_version u.firmware_version c20 in
    let (f22, c22) = merge_field s.hardware_version u.hardware_version c21 in
    let (f23, c23) = merge_field s.is_connected_to_server u.is_connected_to_server c22 in
    if c23
    then (
      record {
        stream_state = f1;
        stream_request_state = f2;
        is_websocket_alive = f3;
        motion_timestamp = f4;
        sound_timestamp = f5;
        motion_detected = f6;
        sound_detected = f7;
        temperature = f8;
        is_night = f9;
        temperature_milli = f10;
        humidity_milli = f11;
        light_level = f12;
        night_light_on = f13;
        night_light_timeout_sec = f14;
        night_vision = f15;
        sleep_mode = f16;
        status_light_on = f17;
        mic_mute_on = f18;
        volume = f19;
        mounting_mode = f20;
        firmware_version = f21;
        hardware_version = f22;
        is_connected_to_server = f23;
      },
      true,
    )
    else (s, false)

abbrev pub set_stream_state : StreamState → State → State
set_stream_state value s = record s { stream_state = some value }

abbrev pub set_stream_request_state : StreamRequestState → State → State
set_stream_request_state value s = record s { stream_request_state = some value }

abbrev pub set_websocket_alive : Bool → State → State
set_websocket_alive value s = record s { is_websocket_alive = some value }

abbrev pub set_motion_timestamp : ℤ → State → State
set_motion_timestamp value s = record s { motion_timestamp = some value }

abbrev pub set_sound_timestamp : ℤ → State → State
set_sound_timestamp value s = record s { sound_timestamp = some value }

abbrev pub set_motion_detected : Bool → State → State
set_motion_detected value s = record s { motion_detected = some value }

abbrev pub set_sound_detected : Bool → State → State
set_sound_detected value s = record s { sound_detected = some value }

abbrev pub set_temperature : Bool → State → State
set_temperature value s = record s { temperature = some value }

abbrev pub set_is_night : Bool → State → State
set_is_night value s = record s { is_night = some value }

abbrev pub set_temperature_milli : ℤ → State → State
set_temperature_milli value s = record s { temperature_milli = some value }

abbrev pub set_humidity_milli : ℤ → State → State
set_humidity_milli value s = record s { humidity_milli = some value }

abbrev pub set_light_level : ℤ → State → State
set_light_level value s = record s { light_level = some value }

abbrev pub set_night_light_on : Bool → State → State
set_night_light_on value s = record s { night_light_on = some value }

abbrev pub set_night_light_timeout_sec : ℤ → State → State
set_night_light_timeout_sec value s = record s { night_light_timeout_sec = some value }

abbrev pub set_night_vision : Bool → State → State
set_night_vision value s = record s { night_vision = some value }

abbrev pub set_sleep_mode : Bool → State → State
set_sleep_mode value s = record s { sleep_mode = some value }

abbrev pub set_status_light_on : Bool → State → State
set_status_light_on value s = record s { status_light_on = some value }

abbrev pub set_mic_mute_on : Bool → State → State
set_mic_mute_on value s = record s { mic_mute_on = some value }

abbrev pub set_volume : ℤ → State → State
set_volume value s = record s { volume = some value }

abbrev pub set_mounting_mode : ℤ → State → State
set_mounting_mode value s = record s { mounting_mode = some value }

abbrev pub set_firmware_version : String → State → State
set_firmware_version value s = record s { firmware_version = some value }

abbrev pub set_hardware_version : String → State → State
set_hardware_version value s = record s { hardware_version = some value }

abbrev pub set_is_connected_to_server : Bool → State → State
set_is_connected_to_server value s = record s { is_connected_to_server = some value }

abbrev pub get_stream_request_state : State → StreamRequestState
get_stream_request_state s = elim s.stream_request_state [ some v ↦ v | none ↦ not_requested ]

abbrev pub get_stream_state : State → StreamState
get_stream_state s = elim s.stream_state [ some v ↦ v | none ↦ unknown ]

abbrev pub get_is_websocket_alive : State → Bool
get_is_websocket_alive s = elim s.is_websocket_alive [ some v ↦ v | none ↦ false ]
