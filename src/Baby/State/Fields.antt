-- ===== src/Baby/State/Fields.antt =====
-- pkg/baby/state.go, AsMap: the key/value view of a state that MQTT publishes and logs show.
-- A float64 reading of x / 1000 is kept as the number of thousandths.
use mathlib.Core.Option
use nanit_onvif.Prelude.{
  ℤ, pos, Bool, Option, none, some, String, List, [], ◌∷◌, if◌then◌else◌, insert, String_eq,
}
use nanit_onvif.Baby.State.{
  State, StreamState, StreamRequestState, unknown, unhealthy, alive, not_requested, requested,
  request_failed,
}

pub data Value : Type 0 where
  int : ℤ → Value
  bool : Bool → Value
  milli : ℤ → Value
  text : String → Value

-- `int64` of an enumeration constant.
abbrev stream_code : StreamState → Value
stream_code unknown = int (pos 0)
stream_code unhealthy = int (pos 1)
stream_code alive = int (pos 2)

abbrev request_code : StreamRequestState → Value
request_code not_requested = int (pos 0)
request_code requested = int (pos 1)
request_code request_failed = int (pos 2)

-- One `if field != nil { m[key] = value }`.
abbrev pub Assignment : Type 0
Assignment = String × Option Value

abbrev pub internal_entries : State → List Assignment
internal_entries s =
    ("stream_state", Option.map stream_code s.stream_state)
    ∷ ("stream_request_state", Option.map request_code s.stream_request_state)
    ∷ ("is_websocket_alive", Option.map bool s.is_websocket_alive)
    ∷ []

-- The assignments in the order of the code. The key `temperature` is assigned twice.
abbrev pub entries : State → List Assignment
entries s =
    ("motion_timestamp", Option.map int s.motion_timestamp)
    ∷ ("sound_timestamp", Option.map int s.sound_timestamp)
    ∷ ("motion_detected", Option.map bool s.motion_detected)
    ∷ ("sound_detected", Option.map bool s.sound_detected)
    ∷ ("temperature", Option.map bool s.temperature)
    ∷ ("is_night", Option.map bool s.is_night)
    ∷ ("temperature", Option.map milli s.temperature_milli)
    ∷ ("humidity", Option.map milli s.humidity_milli)
    ∷ ("light_level", Option.map int s.light_level)
    ∷ ("night_light_on", Option.map bool s.night_light_on)
    ∷ ("night_light_timeout", Option.map int s.night_light_timeout_sec)
    ∷ ("night_vision", Option.map bool s.night_vision)
    ∷ ("sleep_mode", Option.map bool s.sleep_mode)
    ∷ ("status_light_on", Option.map bool s.status_light_on)
    ∷ ("mic_mute_on", Option.map bool s.mic_mute_on)
    ∷ ("volume", Option.map int s.volume)
    ∷ ("mounting_mode", Option.map int s.mounting_mode)
    ∷ ("firmware_version", Option.map text s.firmware_version)
    ∷ ("hardware_version", Option.map text s.hardware_version)
    ∷ ("is_connected_to_server", Option.map bool s.is_connected_to_server)
    ∷ []

unfoldable pub assign : List Assignment → List (String × Value) → List (String × Value)
assign [] m = m
assign ((k, none) ∷ r) m = assign r m
assign ((k, some v) ∷ r) m = assign r (insert k v m)

unfoldable pub as_map : State → Bool → List (String × Value)
as_map s include_internal =
    assign (entries s) (if include_internal then assign (internal_entries s) [] else [])
