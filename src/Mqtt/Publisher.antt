-- ===== src/Mqtt/Publisher.antt =====
-- pkg/mqtt/mqtt.go: what runMqtt publishes for the updates of babies, in order. All messages are
-- retained; connecting, tokens and the encoding of values are the paho library's and fmt's.
pub mod Discovery
pub mod Once
use Prim.Native.String.{◌++◌ as ◌⧺◌}
use nanit_onvif.Prelude.{
  Bool, true, false, not, ◌&&◌, Option, none, some, String, List, [], ◌∷◌, ◌++◌, map, if◌then◌else◌,
  ◌==◌, String_eq,
}
use nanit_onvif.Baby.State.{State, StreamState, unknown, unhealthy, alive, eqb_stream}
use nanit_onvif.Baby.State.Fields.{Value, as_map}
use nanit_onvif.Client.Session.{Baby}
use nanit_onvif.Mqtt.Topics.{state_topic}
use nanit_onvif.Mqtt.Discovery.{Entry, discovery_configs}

pub record Opts : Type 0 where
  pub topic_prefix : String
  pub commands : Bool
  pub ha_discovery : Bool
  pub ha_discovery_prefix : String

pub data Payload : Type 0 where
  config : Entry → Payload
  value : Value → Payload
  flag : Bool → Payload

pub record Publication : Type 0 where
  pub topic : String
  pub baby_uid : String
  pub payload : Payload

abbrev pub name_or_uid : Baby → String
name_or_uid b = if b.name == "" then b.uid else b.name

-- `babyName`, where `GetBabies` may be nil.
unfoldable pub find_name : List Baby → String → Option String
find_name [] uid = none
find_name (b ∷ bs) uid =
    let rest = find_name bs uid in if b.uid == uid then some (name_or_uid b) else rest

unfoldable pub baby_name : Option (List Baby) → String → Option String
unfolding find_name
baby_name none uid = none
baby_name (some babies) uid = find_name babies uid

unfoldable pub contains : List String → String → Bool
contains [] uid = false
contains (u ∷ us) uid = if u == uid then true else contains us uid

abbrev pub discovery_prefix : Opts → String
discovery_prefix o = if o.ha_discovery_prefix == "" then "homeassistant" else o.ha_discovery_prefix

abbrev pub config_topic : Opts → String → Entry → String
config_topic o uid e = ◌⧺◌ (discovery_prefix o) (
    ◌⧺◌ "/" (
      ◌⧺◌ e.component
        (◌⧺◌ "/" (◌⧺◌ o.topic_prefix (◌⧺◌ "_" (◌⧺◌ uid (◌⧺◌ "/" (◌⧺◌ e.object_id "/config"))))))))

unfoldable pub configs : Opts → (String → String) → String → String → List Publication
configs o mac uid name =
    map (λ e. record { topic = config_topic o uid e; baby_uid = uid; payload = config e })
      (discovery_configs o.topic_prefix uid name (mac uid) o.commands)

-- `maybePublishDiscovery`: the babies that are discovered, and what is published; `mac` is
-- `SyntheticMAC`.
unfoldable pub maybe_publish_discovery :
    Opts
    → (String → String)
    → Option (List Baby)
    → String
    → List String
    → List String × List Publication
unfolding contains baby_name configs
maybe_publish_discovery o mac babies uid discovered =
    if o.ha_discovery && not (contains discovered uid)
    then (elim (baby_name babies uid) [
      | none ↦ (discovered, [])
      | some name ↦ (uid ∷ discovered, configs o mac uid name)
    ])
    else (discovered, [])

abbrev pub values : Opts → String → List (String × Value) → List Publication
values o uid [] = []
values o uid ((key, v) ∷ m) =
    (record { topic = state_topic o.topic_prefix uid key; baby_uid = uid; payload = value v })
    ∷ values o uid m

abbrev pub stream_flag : Opts → String → Option StreamState → List Publication
stream_flag o uid none = []
stream_flag o uid (some unknown) = []
stream_flag o uid (some s) =
    (record {
      topic = state_topic o.topic_prefix uid "is_stream_alive";
      baby_uid = uid;
      payload = flag (eqb_stream s alive);
    })
    ∷ []

abbrev pub availability : Opts → String → Option Bool → List Publication
availability o uid none = []
availability o uid (some b) =
    (record {
      topic = state_topic o.topic_prefix uid "is_websocket_alive";
      baby_uid = uid;
      payload = flag b;
    })
    ∷ []

-- What the subscriber publishes of an update itself.
unfoldable pub state_publications : Opts → String → State → List Publication
unfolding as_map
state_publications o uid s =
    values o uid (as_map s false)
    ++ (stream_flag o uid s.stream_state ++ availability o uid s.is_websocket_alive)

-- An update of a baby, with the babies that `GetBabies` gives at the time.
pub record Event : Type 0 where
  pub baby_uid : String
  pub state : State
  pub babies : Option (List Baby)

unfoldable pub on_state :
    Opts → (String → String) → Event → List String → List String × List Publication
unfolding maybe_publish_discovery state_publications
on_state o mac e discovered =
    let d : List String × List Publication =
      maybe_publish_discovery o mac e.babies e.baby_uid discovered in
    (d.0, d.1 ++ state_publications o e.baby_uid e.state)

unfoldable pub publish_all : Opts → (String → String) → List Event → List String → List Publication
unfolding on_state
publish_all o mac [] discovered = []
publish_all o mac (e ∷ es) discovered =
    (on_state o mac e discovered).1 ++ publish_all o mac es (on_state o mac e discovered).0
