-- ===== src/App/Messages.antt =====
-- pkg/app/app.go: the handler of the camera's messages that runWebsocket registers.
pub mod Sources
use nanit_onvif.Prelude.{ℕ, Option, none, some, String, List, [], ◌∷◌}
use nanit_onvif.Baby.Manager.{StateManager}
use nanit_onvif.App.Sensors.{
  SensorData, Control, Settings, Status, Outcome, ok, nil_pointer, process_sensor_data,
  process_control, process_settings, process_status,
}

-- The types of requests that the handler tells apart; any other by its number.
pub data RequestType : Type 0 where
  get_sensor_data put_sensor_data get_settings put_settings get_status put_status : RequestType
  put_control : RequestType
  other_type : ℕ → RequestType

-- What a request and a response carry; the type of a response is the one that its getter gives.
pub record Contents : Type 0 where
  pub request_type : RequestType
  pub sensor_data : List SensorData
  pub control : Option Control
  pub settings : Option Settings
  pub status : Option Status

pub data Message : Type 0 where
  keepalive : Message
  request : Option Contents → Message
  response : Option Contents → Message

-- `if len(...) > 0 { processSensorData(...) }`
unfoldable pub sensors_if_any : String → List SensorData → StateManager → Outcome StateManager
unfolding process_sensor_data
sensors_if_any uid [] m = ok m
sensors_if_any uid (d ∷ ds) m = process_sensor_data uid (d ∷ ds) m

unfoldable pub on_response : String → RequestType → Contents → StateManager → Outcome StateManager
unfolding sensors_if_any process_settings process_status
on_response uid get_sensor_data c m = sensors_if_any uid c.sensor_data m
on_response uid get_settings c m = ok (process_settings uid c.settings m)
on_response uid put_settings c m = ok (process_settings uid c.settings m)
on_response uid get_status c m = ok (process_status uid c.status m)
on_response uid put_status c m = ok (process_status uid c.status m)
on_response uid _ c m = ok m

unfoldable pub on_request : String → RequestType → Contents → StateManager → Outcome StateManager
unfolding sensors_if_any process_control process_settings process_status
on_request uid put_sensor_data c m = sensors_if_any uid c.sensor_data m
on_request uid put_control c m = ok (process_control uid c.control m)
on_request uid put_settings c m = ok (process_settings uid c.settings m)
on_request uid put_status c m = ok (process_status uid c.status m)
on_request uid _ c m = ok m

unfoldable pub on_message : String → Message → StateManager → Outcome StateManager
unfolding on_response on_request
on_message uid keepalive m = ok m
on_message uid (request none) m = ok m
on_message uid (request (some c)) m = on_request uid c.request_type c m
on_message uid (response none) m = ok m
on_message uid (response (some c)) m = on_response uid c.request_type c m

unfoldable pub on_messages : String → List Message → StateManager → Outcome StateManager
unfolding on_message
on_messages uid [] m = ok m
on_messages uid (x ∷ xs) m = elim (on_message uid x m) [
  | ok m' ↦ on_messages uid xs m'
  | nil_pointer ↦ nil_pointer
]
