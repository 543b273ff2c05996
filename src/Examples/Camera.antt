-- ===== src/Examples/Camera.antt =====
-- Runs of pkg/app, pkg/client and pkg/mqtt: a camera's messages, its stream, its connection.
use nanit_onvif.Prelude.{
  ◌≡◌, true, refl, Option, some, none, List, [], ◌∷◌, length, pos, suc, ◌++◌, false, ◌+◌, ◌⊎◌, ◌≤◌,
}
use nanit_onvif.Baby.State.{new_state, set_volume}
use nanit_onvif.Baby.Manager.{new_state_manager, get_baby_state}
use nanit_onvif.Client.Session.{Baby}
use nanit_onvif.Client.Manager.{
  ReadyState, WebsocketConnectionManager, new_websocket_connection_manager, on_connected, Step,
  registers, notifies, announces, disconnects, run, fails, has,
}
use nanit_onvif.Client.Manager.Handlers.{times, called, run-called}
use nanit_onvif.Client.Manager.Marking.{flag, run-stale_alive}
use nanit_onvif.App.Sensors.{Settings}
use nanit_onvif.App.Messages.{Contents, Message, request, response, put_settings, on_messages}
use nanit_onvif.App.Messages.Sources.{Laid, overlay_all, on_messages-Laid}
use nanit_onvif.App.Streaming.{Round, accepted, too_many, request_local_streaming}
use nanit_onvif.App.Streaming.Requests.{any_final, Settled, request_local_streaming-Settles}
use nanit_onvif.Mqtt.Publisher.{Opts, Event, publish_all}
use nanit_onvif.Mqtt.Publisher.Discovery.{configs_of}
use nanit_onvif.Mqtt.Publisher.Once.{first_name, due, publish_all-announces}

abbrev nothing : Contents
nothing = record {
  request_type = put_settings;
  sensor_data = [];
  control = none;
  settings = none;
  status = none;
}

abbrev louder : Settings
louder = record {
  night_vision = none;
  sleep_mode = none;
  status_light_on = none;
  mic_mute_on = none;
  volume = some (pos 7);
  mounting_mode = none;
}

abbrev messages : List Message
messages = request (some (record nothing { settings = some louder })) ∷ response none ∷ []

on_messages-Laid_example :
    Laid "b1"
      (on_messages "b1" messages new_state_manager)
      (overlay_all messages (get_baby_state new_state_manager "b1"))
      new_state_manager
on_messages-Laid_example = on_messages-Laid "b1" messages new_state_manager

abbrev rounds : List Round
rounds =
    (record { meanwhile = λ m. m; answer = too_many })
    ∷ (record { meanwhile = λ m. m; answer = accepted })
    ∷ []

request_local_streaming-Settles_example :
    ((request_local_streaming "b1" rounds new_state_manager).2 ≡ true)
    × ((before : List Round) × (r : Round) × (after : List Round) × (rounds ≡ before ++ r ∷ after)
        × ((request_local_streaming "b1" rounds new_state_manager).1 ≡ suc (length before))
        × (any_final before ≡ false)
        × Settled "b1" r.answer (request_local_streaming "b1" rounds new_state_manager).0)
request_local_streaming-Settles_example =
    request_local_streaming-Settles "b1" rounds new_state_manager refl

abbrev ready : ReadyState
ready = record { attempt = 1; connection = 5 }

abbrev manager : WebsocketConnectionManager
manager = new_websocket_connection_manager "b1" 0 new_state_manager

-- A handler is registered while the first one is still to be notified.
abbrev steps : List Step
steps = registers 9 ∷ notifies 1 ∷ announces ∷ disconnects ∷ []

-- The handler is registered while the first one is still to be notified, then the connection is lost.
abbrev connected : WebsocketConnectionManager
connected = run ready steps (on_connected ready manager)

run-called_example :
    (called ready 9 connected.calls ≤ times 9 connected.ready_subscribers)
    × (((has 1 connected.canceled ≡ false)
          × (called ready 9 connected.calls + called ready 9 connected.pending
              ≡ times 9 connected.ready_subscribers))
        ⊎ ((has 1 connected.canceled ≡ true)
            × (called ready 9 (run ready (fails ∷ notifies 0 ∷ []) connected).calls
                ≡ called ready 9 connected.calls)))
unfolding called new_websocket_connection_manager
run-called_example = run-called ready 9 steps (fails ∷ notifies 0 ∷ []) manager refl refl

abbrev late_mark : List Step
late_mark = disconnects ∷ announces ∷ []

run-stale_alive_example :
    (has 1 (run ready late_mark (on_connected ready manager)).disconnected ≡ true)
    × (flag (run ready late_mark (on_connected ready manager)) ≡ true)
unfolding new_websocket_connection_manager
run-stale_alive_example = run-stale_alive ready late_mark manager refl

abbrev opts : Opts
opts = record {
  topic_prefix = "nanit";
  commands = true;
  ha_discovery = true;
  ha_discovery_prefix = "";
}

abbrev named : Option (List Baby)
named = some ((record { uid = "b1"; name = "Ada"; camera_uid = "c1" }) ∷ [])

abbrev events : List Event
events =
    (record { baby_uid = "b1"; state = new_state; babies = none })
    ∷ (record { baby_uid = "b1"; state = set_volume (pos 3) new_state; babies = named })
    ∷ (record { baby_uid = "b1"; state = new_state; babies = named })
    ∷ []

publish_all-announces_example :
    configs_of "b1" (publish_all opts (λ u. "02:00:00:00:00:01") events [])
    ≡ due opts (λ u. "02:00:00:00:00:01") "b1" true (first_name "b1" events)
publish_all-announces_example = publish_all-announces opts (λ u. "02:00:00:00:00:01") "b1" events
