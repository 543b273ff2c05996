-- ===== src/App/Sensors.antt =====
-- pkg/app/websocket_handlers.go: sensor data, control, settings and status messages become updates
-- of the baby's state. The types stand for those generated from pkg/client/websocket.proto.
pub mod Readings
use nanit_onvif.Prelude.{
  ℤ, pos, negsuc, Bool, true, false, Option, none, some, String, List, [], ◌∷◌, eqb_ℤ,
  if◌then◌else◌,
}
use nanit_onvif.Baby.State.{
  State, new_state, set_temperature_milli, set_humidity_milli, set_is_night, set_light_level,
  set_motion_detected, set_motion_timestamp, set_sound_detected, set_sound_timestamp,
  set_night_light_on, set_night_light_timeout_sec, set_night_vision, set_sleep_mode,
  set_status_light_on, set_mic_mute_on, set_volume, set_mounting_mode, set_firmware_version,
  set_hardware_version, set_is_connected_to_server,
}
use nanit_onvif.Baby.Manager.{StateManager, update}

pub data SensorType : Type 0 where
  sound motion temperature humidity light night : SensorType

-- A field that the message leaves out is `none`.
pub record SensorData : Type 0 where
  pub sensor_type : Option SensorType
  pub is_alert : Option Bool
  pub timestamp : Option ℤ
  pub value_milli : Option ℤ
  pub value : Option ℤ

-- A call that may dereference a nil pointer.
pub data Outcome {ℓ} (A : Type ℓ) : Type ℓ where
  ok : A → Outcome A
  nil_pointer : Outcome A

-- `if p != nil { state.SetX(*p) }`
unfoldable pub set_if {ℓ} : {A : Type ℓ} → (A → State → State) → Option A → State → State
set_if f none s = s
set_if f (some v) s = f v s

-- `if s.Timestamp != nil && *s.IsAlert { state.SetX(*s.Timestamp) }`: the alert is read only where
-- there is a timestamp, and it need not be there.
unfoldable pub set_alert_time : (ℤ → State → State) → Option ℤ → Option Bool → State → Outcome State
set_alert_time f none alert s = ok s
set_alert_time f (some t) none s = nil_pointer
set_alert_time f (some t) (some alert) s = ok (if alert then f t s else s)

-- One round of the loop of `processSensorData`, at a known type of sensor.
unfoldable pub apply_sensor : SensorType → SensorData → State → Outcome State
unfolding set_if set_alert_time
apply_sensor temperature d s = ok (set_if set_temperature_milli d.value_milli s)
apply_sensor humidity d s = ok (set_if set_humidity_milli d.value_milli s)
apply_sensor night d s = ok (set_if (λ v. set_is_night (eqb_ℤ v (pos 1))) d.value s)
apply_sensor light d s = ok (set_if set_light_level d.value s)
apply_sensor motion d s =
    set_alert_time set_motion_timestamp d.timestamp d.is_alert
      (set_if set_motion_detected d.is_alert s)
apply_sensor sound d s =
    set_alert_time set_sound_timestamp d.timestamp d.is_alert
      (set_if set_sound_detected d.is_alert s)

-- The `continue` at a missing type, and the rest of the round.
unfoldable pub sensor_round : SensorData → State → Outcome State
sensor_round d s = elim d.sensor_type [ none ↦ ok s | some t ↦ apply_sensor t d s ]

unfoldable pub sensor_update : List SensorData → State → Outcome State
sensor_update [] s = ok s
sensor_update (d ∷ ds) s = elim (sensor_round d s) [
  | ok s' ↦ sensor_update ds s'
  | nil_pointer ↦ nil_pointer
]

unfoldable pub process_sensor_data : String → List SensorData → StateManager → Outcome StateManager
unfolding sensor_update sensor_round apply_sensor
process_sensor_data uid ds m = elim (sensor_update ds new_state) [
  | ok u ↦ ok (update m uid u)
  | nil_pointer ↦ nil_pointer
]

pub data NightLight : Type 0 where
  light_off light_on : NightLight

pub record Control : Type 0 where
  pub night_light : Option NightLight
  pub night_light_timeout : Option ℤ

abbrev pub is_light_on : NightLight → Bool
is_light_on light_on = true
is_light_on light_off = false

unfoldable pub control_update : Control → State
unfolding set_if
control_update c =
    set_if set_night_light_timeout_sec c.night_light_timeout
      (set_if (λ v. set_night_light_on (is_light_on v)) c.night_light new_state)

unfoldable pub process_control : String → Option Control → StateManager → StateManager
unfolding control_update
process_control uid none m = m
process_control uid (some c) m = update m uid (control_update c)

pub record Settings : Type 0 where
  pub night_vision : Option Bool
  pub sleep_mode : Option Bool
  pub status_light_on : Option Bool
  pub mic_mute_on : Option Bool
  pub volume : Option ℤ
  pub mounting_mode : Option ℤ

unfoldable pub settings_update : Settings → State
unfolding set_if
settings_update s = set_if set_mounting_mode s.mounting_mode (
    set_if set_volume s.volume (
      set_if set_mic_mute_on s.mic_mute_on (
        set_if set_status_light_on s.status_light_on
          (set_if set_sleep_mode s.sleep_mode (set_if set_night_vision s.night_vision new_state)))))

unfoldable pub process_settings : String → Option Settings → StateManager → StateManager
unfolding settings_update
process_settings uid none m = m
process_settings uid (some s) m = update m uid (settings_update s)

pub data ConnectionToServer : Type 0 where
  disconnected connected : ConnectionToServer

abbrev pub is_connected : ConnectionToServer → Bool
is_connected connected = true
is_connected disconnected = false

-- `mode` is the number of the `MountingMode` constant.
pub record Status : Type 0 where
  pub current_version : Option String
  pub hardware_version : Option String
  pub connection_to_server : Option ConnectionToServer
  pub mode : Option ℤ

unfoldable pub status_update : Status → State
unfolding set_if
status_update s = set_if set_mounting_mode s.mode (
    set_if (λ v. set_is_connected_to_server (is_connected v)) s.connection_to_server
      (set_if set_hardware_version s.hardware_version
        (set_if set_firmware_version s.current_version new_state)))

unfoldable pub process_status : String → Option Status → StateManager → StateManager
unfolding status_update
process_status uid none m = m
process_status uid (some s) m = update m uid (status_update s)
