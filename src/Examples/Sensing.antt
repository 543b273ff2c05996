-- ===== src/Examples/Sensing.antt =====
-- Runs of pkg/app and pkg/mqtt: sensor readings, commands, and the entities announced.
use nanit_onvif.Prelude.{
  codes, ℤ, pos, ◌≡◌, ◌⊎◌, refl, true, false, some, none, List, [], ◌∷◌, All, String_eq,
}
use nanit_onvif.Baby.State.{State, new_state}
use nanit_onvif.App.Sensors.{SensorData, ok, nil_pointer, sensor_update, temperature, motion}
use nanit_onvif.App.Sensors.Readings.{any_faulty, sensor_update_faulty}
use nanit_onvif.Mqtt.Topics.{command_topic, parse_command}
use nanit_onvif.Mqtt.Topics.RoundTrip.{parse_command-command_topic}
use nanit_onvif.Mqtt.Discovery.{discovery_configs}
use nanit_onvif.Mqtt.Discovery.Commands.{IsRouted, discovery_configs-IsRouted}

abbrev degrees : ℤ → SensorData
degrees v = record {
  sensor_type = some temperature;
  is_alert = none;
  timestamp = none;
  value_milli = some v;
  value = none;
}

abbrev timed_motion : SensorData
timed_motion = record {
  sensor_type = some motion;
  is_alert = none;
  timestamp = some (pos 7);
  value_milli = none;
  value = none;
}

sensor_update_faulty_example :
    (sensor_update (degrees (pos 20) ∷ timed_motion ∷ []) new_state ≡ nil_pointer)
      × (any_faulty (degrees (pos 20) ∷ timed_motion ∷ []) ≡ true)
    ⊎ ((s : State) × (sensor_update (degrees (pos 20) ∷ timed_motion ∷ []) new_state ≡ ok s))
      × (any_faulty (degrees (pos 20) ∷ timed_motion ∷ []) ≡ false)
sensor_update_faulty_example = sensor_update_faulty (degrees (pos 20) ∷ timed_motion ∷ []) new_state

abbrev readings : List SensorData
readings = degrees (pos 20) ∷ record timed_motion { is_alert = some true } ∷ degrees (pos 21) ∷ []

parse_command-command_topic_example :
    parse_command (codes (command_topic "home/nanit" "cot" "volume"))
    ≡ some (codes "cot", codes "volume")
parse_command-command_topic_example =
    parse_command-command_topic "home/nanit" "cot" "volume" refl refl

discovery_configs-IsRouted_example :
    All (IsRouted "nanit" "cot") (discovery_configs "nanit" "cot" "Ann" "n1" true)
discovery_configs-IsRouted_example = discovery_configs-IsRouted "nanit" "cot" "Ann" "n1" refl
