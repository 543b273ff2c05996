-- ===== src/App/Commander.antt =====
-- pkg/app/commander.go: commands from MQTT become requests on the baby's websocket.
-- `lower_trim` is ToLower after TrimSpace, and `parse_int32` is ParseInt at 32 bits after TrimSpace.
pub mod Routing
use nanit_onvif.Prelude.{
  ℕ, ℤ, Bool, true, false, ◌||◌, Option, none, some, String, List, [], ◌∷◌, if◌then◌else◌, lookup,
  insert, String_eq, ◌==◌,
}
use nanit_onvif.App.Sensors.{NightLight, light_off, light_on}

-- `parseBool`: the truth value, and `none` for a payload that is neither.
unfoldable pub parse_bool : (String → String) → String → Option Bool
parse_bool lower_trim payload =
    let p = lower_trim payload in
    if p == "true" || (p == "on" || (p == "1" || p == "yes"))
    then some true
    else (if p == "false" || (p == "off" || (p == "0" || p == "no")) then some false else none)

-- The requests that a command may send, with the one field that each sets.
pub data Request : Type 0 where
  put_night_light : NightLight → Request
  put_night_light_timeout put_volume : ℤ → Request
  put_mic_mute_on put_sleep_mode put_status_light_on put_night_vision : Bool → Request

-- A `babyCommander` holds the current connection, by its number, or nil.
pub record BabyCommander : Type 0 where
  pub conn : Option ℕ

abbrev pub Commanders : Type 0
Commanders = List (String × BabyCommander)

unfoldable pub set_conn : Option ℕ → BabyCommander → BabyCommander
set_conn conn c = record c { conn = conn }

-- What becomes of a command; a request on a connection is awaited, with an error that is logged.
pub data Routed : Type 0 where
  unknown_baby unsupported_field ignored not_connected : Routed
  sent : ℕ → Request → Routed

unfoldable pub send : BabyCommander → Request → Routed
send c req = elim c.conn [ none ↦ not_connected | some conn ↦ sent conn req ]

-- The commander of a baby, made where there is none yet.
unfoldable pub ensure_commander : Commanders → String → Commanders × BabyCommander
ensure_commander m uid = elim (lookup uid m) [
  | some c ↦ (m, c)
  | none ↦ let c : BabyCommander = record { conn = none } in (insert uid c m, c)
]

-- A branch of the `switch`: the request for the value parsed, if it could be.
unfoldable pub send_if {ℓ} : {A : Type ℓ} → BabyCommander → (A → Request) → Option A → Routed
unfolding send
send_if c req none = ignored
send_if c req (some v) = send c (req v)

abbrev pub night_light_of : Bool → NightLight
night_light_of on = if on then light_on else light_off

module _ (lower_trim : String → String) (parse_int32 : String → Option ℤ) where
  unfoldable pub dispatch : BabyCommander → String → String → Routed
  unfolding send_if parse_bool
  dispatch c field payload =
      if field == "night_light_on"
      then send_if c (λ on. put_night_light (night_light_of on)) (parse_bool lower_trim payload)
      else if field == "night_light_timeout"
      then send_if c put_night_light_timeout (parse_int32 payload)
      else if field == "volume"
      then send_if c put_volume (parse_int32 payload)
      else if field == "mic_mute_on"
      then send_if c put_mic_mute_on (parse_bool lower_trim payload)
      else if field == "sleep_mode"
      then send_if c put_sleep_mode (parse_bool lower_trim payload)
      else if field == "status_light_on"
      then send_if c put_status_light_on (parse_bool lower_trim payload)
      else if field == "night_vision"
      then send_if c put_night_vision (parse_bool lower_trim payload)
      else unsupported_field

  unfoldable pub handle_mqtt_command : Commanders → String → String → String → Routed
  unfolding dispatch
  handle_mqtt_command m uid field payload = elim (lookup uid m) [
    | none ↦ unknown_baby
    | some c ↦ dispatch c field payload
  ]
