-- ===== src/Baby/State/Overlay.antt =====
-- The overlay of one state on another, as the specification of merging, and its laws.
use nanit_onvif.Prelude.{◌≡◌, refl, sym, Option, none, some, Bool_eq, ℤ_eq, String_eq}
use nanit_onvif.Baby.State.{State, new_state}

-- The later value where there is one.
abbrev pub or_else {ℓ} : {A : Type ℓ} → Option A → Option A → Option A
or_else none d = d
or_else (some v) d = some v

-- The fields of `u` that are set, and those of `s` for the rest.
unfoldable pub overlay : State → State → State
overlay s u = record {
  stream_state = or_else u.stream_state s.stream_state;
  stream_request_state = or_else u.stream_request_state s.stream_request_state;
  is_websocket_alive = or_else u.is_websocket_alive s.is_websocket_alive;
  motion_timestamp = or_else u.motion_timestamp s.motion_timestamp;
  sound_timestamp = or_else u.sound_timestamp s.sound_timestamp;
  motion_detected = or_else u.motion_detected s.motion_detected;
  sound_detected = or_else u.sound_detected s.sound_detected;
  temperature = or_else u.temperature s.temperature;
  is_night = or_else u.is_night s.is_night;
  temperature_milli = or_else u.temperature_milli s.temperature_milli;
  humidity_milli = or_else u.humidity_milli s.humidity_milli;
  light_level = or_else u.light_level s.light_level;
  night_light_on = or_else u.night_light_on s.night_light_on;
  night_light_timeout_sec = or_else u.night_light_timeout_sec s.night_light_timeout_sec;
  night_vision = or_else u.night_vision s.night_vision;
  sleep_mode = or_else u.sleep_mode s.sleep_mode;
  status_light_on = or_else u.status_light_on s.status_light_on;
  mic_mute_on = or_else u.mic_mute_on s.mic_mute_on;
  volume = or_else u.volume s.volume;
  mounting_mode = or_else u.mounting_mode s.mounting_mode;
  firmware_version = or_else u.firmware_version s.firmware_version;
  hardware_version = or_else u.hardware_version s.hardware_version;
  is_connected_to_server = or_else u.is_connected_to_server s.is_connected_to_server;
}

or_else-none {ℓ} : {A : Type ℓ} (o : Option A) → or_else o none ≡ o
or_else-none none = refl
or_else-none (some v) = refl

pub or_else_assoc {ℓ} :
    {A : Type ℓ} (a b c : Option A) → or_else (or_else a b) c ≡ or_else a (or_else b c)
or_else_assoc none b c = refl
or_else_assoc (some v) b c = refl

-- The empty state is the identity of overlaying, on both sides.
pub overlay-new_state : (s : State) → (overlay new_state s ≡ s) × (overlay s new_state ≡ s)
unfolding overlay
overlay-new_state s = (
  λ i. record {
    stream_state = or_else-none s.stream_state i;
    stream_request_state = or_else-none s.stream_request_state i;
    is_websocket_alive = or_else-none s.is_websocket_alive i;
    motion_timestamp = or_else-none s.motion_timestamp i;
    sound_timestamp = or_else-none s.sound_timestamp i;
    motion_detected = or_else-none s.motion_detected i;
    sound_detected = or_else-none s.sound_detected i;
    temperature = or_else-none s.temperature i;
    is_night = or_else-none s.is_night i;
    temperature_milli = or_else-none s.temperature_milli i;
    humidity_milli = or_else-none s.humidity_milli i;
    light_level = or_else-none s.light_level i;
    night_light_on = or_else-none s.night_light_on i;
    night_light_timeout_sec = or_else-none s.night_light_timeout_sec i;
    night_vision = or_else-none s.night_vision i;
    sleep_mode = or_else-none s.sleep_mode i;
    status_light_on = or_else-none s.status_light_on i;
    mic_mute_on = or_else-none s.mic_mute_on i;
    volume = or_else-none s.volume i;
    mounting_mode = or_else-none s.mounting_mode i;
    firmware_version = or_else-none s.firmware_version i;
    hardware_version = or_else-none s.hardware_version i;
    is_connected_to_server = or_else-none s.is_connected_to_server i;
  },
  refl,
)

pub overlay_assoc : (s u v : State) → overlay (overlay s u) v ≡ overlay s (overlay u v)
unfolding overlay
overlay_assoc s u v = λ i. record {
  stream_state = sym (or_else_assoc v.stream_state u.stream_state s.stream_state) i;
  stream_request_state =
      sym (or_else_assoc v.stream_request_state u.stream_request_state s.stream_request_state) i;
  is_websocket_alive =
      sym (or_else_assoc v.is_websocket_alive u.is_websocket_alive s.is_websocket_alive) i;
  motion_timestamp = sym (or_else_assoc v.motion_timestamp u.motion_timestamp s.motion_timestamp) i;
  sound_timestamp = sym (or_else_assoc v.sound_timestamp u.sound_timestamp s.sound_timestamp) i;
  motion_detected = sym (or_else_assoc v.motion_detected u.motion_detected s.motion_detected) i;
  sound_detected = sym (or_else_assoc v.sound_detected u.sound_detected s.sound_detected) i;
  temperature = sym (or_else_assoc v.temperature u.temperature s.temperature) i;
  is_night = sym (or_else_assoc v.is_night u.is_night s.is_night) i;
  temperature_milli =
      sym (or_else_assoc v.temperature_milli u.temperature_milli s.temperature_milli) i;
  humidity_milli = sym (or_else_assoc v.humidity_milli u.humidity_milli s.humidity_milli) i;
  light_level = sym (or_else_assoc v.light_level u.light_level s.light_level) i;
  night_light_on = sym (or_else_assoc v.night_light_on u.night_light_on s.night_light_on) i;
  night_light_timeout_sec =
      sym
        (or_else_assoc v.night_light_timeout_sec u.night_light_timeout_sec
          s.night_light_timeout_sec)
        i;
  night_vision = sym (or_else_assoc v.night_vision u.night_vision s.night_vision) i;
  sleep_mode = sym (or_else_assoc v.sleep_mode u.sleep_mode s.sleep_mode) i;
  status_light_on = sym (or_else_assoc v.status_light_on u.status_light_on s.status_light_on) i;
  mic_mute_on = sym (or_else_assoc v.mic_mute_on u.mic_mute_on s.mic_mute_on) i;
  volume = sym (or_else_assoc v.volume u.volume s.volume) i;
  mounting_mode = sym (or_else_assoc v.mounting_mode u.mounting_mode s.mounting_mode) i;
  firmware_version = sym (or_else_assoc v.firmware_version u.firmware_version s.firmware_version) i;
  hardware_version = sym (or_else_assoc v.hardware_version u.hardware_version s.hardware_version) i;
  is_connected_to_server =
      sym (or_else_assoc v.is_connected_to_server u.is_connected_to_server s.is_connected_to_server)
        i;
}

or_else_idem {ℓ} : {A : Type ℓ} (o : Option A) → or_else o o ≡ o
or_else_idem none = refl
or_else_idem (some v) = refl

pub overlay_idem : (u : State) → overlay u u ≡ u
unfolding overlay
overlay_idem u = λ i. record {
  stream_state = or_else_idem u.stream_state i;
  stream_request_state = or_else_idem u.stream_request_state i;
  is_websocket_alive = or_else_idem u.is_websocket_alive i;
  motion_timestamp = or_else_idem u.motion_timestamp i;
  sound_timestamp = or_else_idem u.sound_timestamp i;
  motion_detected = or_else_idem u.motion_detected i;
  sound_detected = or_else_idem u.sound_detected i;
  temperature = or_else_idem u.temperature i;
  is_night = or_else_idem u.is_night i;
  temperature_milli = or_else_idem u.temperature_milli i;
  humidity_milli = or_else_idem u.humidity_milli i;
  light_level = or_else_idem u.light_level i;
  night_light_on = or_else_idem u.night_light_on i;
  night_light_timeout_sec = or_else_idem u.night_light_timeout_sec i;
  night_vision = or_else_idem u.night_vision i;
  sleep_mode = or_else_idem u.sleep_mode i;
  status_light_on = or_else_idem u.status_light_on i;
  mic_mute_on = or_else_idem u.mic_mute_on i;
  volume = or_else_idem u.volume i;
  mounting_mode = or_else_idem u.mounting_mode i;
  firmware_version = or_else_idem u.firmware_version i;
  hardware_version = or_else_idem u.hardware_version i;
  is_connected_to_server = or_else_idem u.is_connected_to_server i;
}
