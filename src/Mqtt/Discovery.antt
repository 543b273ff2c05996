-- ===== src/Mqtt/Discovery.antt =====
-- pkg/mqtt/discovery.go: the entities announced to Home Assistant for one baby. The payload is the
-- JSON of an entity, made by a library; the model keeps the entity. A number that the JSON leaves
-- out at zero is `none` where it is not set.
pub mod Commands
use Prim.Native.String.{◌++◌ as ◌⧺◌}
use nanit_onvif.Prelude.{
  ℕ, Bool, true, false, Option, none, some, String, List, [], ◌∷◌, if◌then◌else◌,
}
use nanit_onvif.Mqtt.Topics.{state_topic, command_topic}

pub record HaDevice : Type 0 where
  pub identifier : String
  pub mac : String
  pub device_name : String
  pub manufacturer : String
  pub model : String

pub record HaAvailability : Type 0 where
  pub topic : String
  pub payload_available : String
  pub payload_not_available : String

pub record HaEntityBase : Type 0 where
  pub name : String
  pub unique_id : String
  pub state_topic : String
  pub availability : HaAvailability
  pub device : HaDevice
  pub device_class : String
  pub state_class : String
  pub unit_of_measurement : String
  pub icon : String
  pub entity_category : String
  pub payload_on : String
  pub payload_off : String
  pub command_topic : String
  pub min : ℕ
  pub max : ℕ
  pub step : ℕ

-- `entry`: the component, the object id and the entity.
pub record Entry : Type 0 where
  pub component : String
  pub object_id : String
  pub entity : HaEntityBase

-- The parameters of `discoveryConfigs`, and the MAC that `SyntheticMAC` gives for the baby.
module _ (topic_prefix uid baby_name mac : String) (commands : Bool) where
  abbrev device : HaDevice
  device = record {
    identifier = ◌⧺◌ topic_prefix (◌⧺◌ "_" uid);
    mac = mac;
    device_name = ◌⧺◌ "Nanit " baby_name;
    manufacturer = "Nanit";
    model = "Baby Monitor";
  }

  abbrev availability : HaAvailability
  availability = record {
    topic = state_topic topic_prefix uid "is_websocket_alive";
    payload_available = "true";
    payload_not_available = "false";
  }

  abbrev pub uid_of : String → String
  uid_of key = ◌⧺◌ topic_prefix (◌⧺◌ "_" (◌⧺◌ uid (◌⧺◌ "_" key)))

  -- The fields that every entity has, with the others empty.
  abbrev base : String → String → HaEntityBase
  base name key = record {
    name = name;
    unique_id = uid_of key;
    state_topic = state_topic topic_prefix uid key;
    availability = availability;
    device = device;
    device_class = "";
    state_class = "";
    unit_of_measurement = "";
    icon = "";
    entity_category = "";
    payload_on = "";
    payload_off = "";
    command_topic = "";
    min = 0;
    max = 0;
    step = 0;
  }

  abbrev measurement : String → String → String → String → Entry
  measurement name key class unit = record {
    component = "sensor";
    object_id = key;
    entity =
        let e = base name key in
        record e { device_class = class; state_class = "measurement"; unit_of_measurement = unit };
  }

  abbrev binary : String → String → String → String → String → Entry
  binary name key class icon category = record {
    component = "binary_sensor";
    object_id = key;
    entity =
        let e = base name key in
        record e {
          device_class = class;
          icon = icon;
          entity_category = category;
          payload_on = "true";
          payload_off = "false";
        };
  }

  abbrev diagnostic : String → String → String → Entry
  diagnostic name key icon = record {
    component = "sensor";
    object_id = key;
    entity = let e = base name key in record e { icon = icon; entity_category = "diagnostic" };
  }

  unfoldable pub writable_switch : String → String → String → String → Entry
  writable_switch key name icon category =
      let e = base name key in
      let b : HaEntityBase = record e {
        payload_on = "true";
        payload_off = "false";
        icon = icon;
        entity_category = category;
      } in
      if commands
      then record {
        component = "switch";
        object_id = key;
        entity = record b { command_topic = command_topic topic_prefix uid key };
      }
      else record { component = "binary_sensor"; object_id = key; entity = b }

  unfoldable pub writable_number : String → String → String → String → String → ℕ → ℕ → ℕ → Entry
  writable_number key name unit icon category min max step =
      let e = base name key in
      let b : HaEntityBase = record e {
        unit_of_measurement = unit;
        icon = icon;
        entity_category = category;
      } in
      if commands
      then record {
        component = "number";
        object_id = key;
        entity = record b {
          command_topic = command_topic topic_prefix uid key;
          min = min;
          max = max;
          step = step;
        };
      }
      else record { component = "sensor"; object_id = key; entity = b }

  unfoldable pub discovery_configs : List Entry
  unfolding writable_switch writable_number
  discovery_configs =
      measurement "Temperature" "temperature" "temperature" "°C"
      ∷ measurement "Humidity" "humidity" "humidity" "%"
      ∷ measurement "Light level" "light_level" "illuminance" "lx"
      ∷ binary "Motion" "motion_detected" "motion" "" ""
      ∷ binary "Sound" "sound_detected" "sound" "" ""
      ∷ binary "Night mode" "is_night" "" "mdi:weather-night" ""
      ∷ writable_switch "night_light_on" "Night light" "mdi:lightbulb" ""
      ∷ writable_switch "night_vision" "Night vision" "mdi:weather-night" "diagnostic"
      ∷ writable_switch "sleep_mode" "Sleep mode" "mdi:sleep" "diagnostic"
      ∷ writable_switch "status_light_on" "Status light" "mdi:led-on" "diagnostic"
      ∷ writable_switch "mic_mute_on" "Microphone muted" "mdi:microphone-off" "diagnostic"
      ∷ binary "Stream" "is_stream_alive" "connectivity" "" "diagnostic"
      ∷ writable_number "volume" "Volume" "%" "mdi:volume-high" "" 0 100 1
      ∷ writable_number "night_light_timeout" "Night light timeout" "s" "mdi:timer" "diagnostic" 0
          3600 60
      ∷ diagnostic "Firmware" "firmware_version" "mdi:chip"
      ∷ diagnostic "Hardware" "hardware_version" "mdi:chip"
      ∷ diagnostic "Mounting mode" "mounting_mode" "mdi:camera-metering-center"
      ∷ []
