-- ===== src/Onvif/Handler.antt =====
-- pkg/onvif/handler.go: the HTTP handler. `http.ServeMux` picks the route; a reply names what its XML
-- is made of. A baby is its UID.
pub mod Guard
pub mod Addresses
use nanit_onvif.Prelude.{
  ℕ, Bool, true, false, not, ◌&&◌, ◌||◌, Option, none, some, List, [], ◌∷◌, ◌++◌, leb, eqb,
  if◌then◌else◌, Text, codes, eqb_text,
}
use mathlib.Core.List.{reverse}
use nanit_onvif.Onvif.Events.{EventManager}
use nanit_onvif.Onvif.Soap.{behind, find_tag_value, get_request_action}
use nanit_onvif.Onvif.Security.{Codecs, is_empty, validate_ws_security_auth, validate_basic_auth}
use nanit_onvif.Onvif.Subscriptions.{World, Response, handle_events_service, handle_subscription}

-- `GetSnapshot` gives the picture of a baby or an error, and is not there where snapshots are off.
pub record ServerConfig : Type 0 where
  pub rtsp_port : Text
  pub babies : List Text
  pub username : Text
  pub password : Text
  pub get_snapshot : Option (Text → Option Text)
  pub codecs : Codecs

pub data Reply : Type 0 where
  bad_request : Reply
  auth_fault : Reply
  unauthorized : Reply
  not_found : Reply
  snapshot_unavailable : Reply
  jpeg : Text → Reply
  capabilities : Text → Reply
  services : Text → Reply
  device_information : Text → Reply
  network_interfaces : Option Text → Reply
  profiles : List Text → Reply
  profile : Text → Reply
  video_sources : List Text → Reply
  source_configurations : List Text → Reply
  source_configuration : Text → Reply
  stream_uri : Text → Reply
  snapshot_uri : Text → Reply
  static_response : Text → Reply
  event_reply : Response → Reply

-- `authRequired`
abbrev pub auth_required : ServerConfig → Bool
auth_required c = not (is_empty c.username) && not (is_empty c.password)

-- The loop of `stripPort` from the last character: what is left of a colon behind digits.
unfoldable pub before_port : Text → Option Text
before_port [] = none
before_port (c ∷ cs) =
    let rest = before_port cs in
    if eqb c b':' then some cs else (if leb b'0' c && leb c b'9' then rest else none)

unfoldable pub strip_port : Text → Text
unfolding before_port
strip_port host = elim (before_port (reverse host)) [ none ↦ host | some cs ↦ reverse cs ]

abbrev pub first_or : List Text → Text → Text
first_or [] d = d
first_or (b ∷ bs) d = b

-- The token of a request, or the first baby.
unfoldable pub token_of : ServerConfig → Text → Text → Text
token_of c body tag =
    let token : Text = find_tag_value body tag in
    if is_empty token then first_or c.babies token else token

abbrev pub colon : Text
colon = b':' ∷ []

unfoldable pub rtsp_uri : Text → Text → Text → Text
rtsp_uri host port token =
    codes "rtsp://" ++ (host ++ (colon ++ (port ++ (codes "/local/" ++ token))))

abbrev pub snapshot_path_prefix : Text
snapshot_path_prefix = codes "/onvif/snapshot/"

unfoldable pub snapshot_address : Text → Text → Text
snapshot_address host token =
    codes "http://" ++ (host ++ (snapshot_path_prefix ++ (token ++ codes ".jpg")))

abbrev pub some_first : List Text → Option Text
some_first [] = none
some_first (b ∷ bs) = some b

-- The reply to an action of the device or media service; `uuid` is a random one.
unfoldable pub on_action : ServerConfig → Text → Text → Text → Text → Reply
unfolding strip_port rtsp_uri snapshot_address token_of
on_action c uuid host body action =
    if eqb_text action (codes "GetCapabilities")
    then capabilities host
    else (if eqb_text action (codes "GetServices")
        then services host
        else (if eqb_text action (codes "GetDeviceInformation")
            then device_information (first_or c.babies uuid)
            else (if eqb_text action (codes "GetNetworkInterfaces")
                then network_interfaces (some_first c.babies)
                else (if eqb_text action (codes "GetProfiles")
                    then profiles c.babies
                    else (if eqb_text action (codes "GetProfile")
                        then profile (token_of c body (codes "ProfileToken"))
                        else (if eqb_text action (codes "GetVideoSources")
                            then video_sources c.babies
                            else (if eqb_text action (codes "GetVideoSourceConfigurations")
                                then source_configurations c.babies
                                else (if eqb_text action (codes "GetVideoSourceConfiguration")
                                    then source_configuration
                                        (token_of c body (codes "ConfigurationToken"))
                                    else (if eqb_text action (codes "GetStreamUri")
                                        then stream_uri (
                                            rtsp_uri (strip_port host) c.rtsp_port
                                              (token_of c body (codes "ProfileToken")))
                                        else (if eqb_text action (codes "GetSnapshotUri")
                                            then (elim c.get_snapshot [
                                              | none ↦ snapshot_uri []
                                              | some get ↦ snapshot_uri (
                                                  snapshot_address host
                                                    (token_of c body (codes "ProfileToken")))
                                            ])
                                            else static_response action))))))))))

abbrev pub date_and_time : Text
date_and_time = codes "GetSystemDateAndTime"

abbrev pub is_authorized : ServerConfig → Text → Bool
is_authorized c body =
    if auth_required c then validate_ws_security_auth c.codecs body c.username c.password else true

-- `handle`
unfoldable pub handle : ServerConfig → Text → Text → Text → Reply
unfolding on_action
handle c uuid host body =
    let action : Text = get_request_action body in
    if is_empty action
    then bad_request
    else (if eqb_text action date_and_time || is_authorized c body
        then on_action c uuid host body action
        else auth_fault)

-- `strings.TrimSuffix(name, ".jpg")`
unfoldable pub trim_jpg : Text → Text
unfolding behind
trim_jpg name = elim (behind (reverse (codes ".jpg")) (reverse name)) [
  | none ↦ name
  | some t ↦ reverse t
]

-- `strings.TrimPrefix`
abbrev pub trim_prefix : Text → Text → Text
trim_prefix p t = elim (behind p t) [ none ↦ t | some rest ↦ rest ]

-- `handleSnapshot`, with the name and password of the request's header.
unfoldable pub handle_snapshot :
    ServerConfig → (Text → Option Text) → Option (Text × Text) → Text → Reply
unfolding trim_jpg behind
handle_snapshot c get basic path =
    if not (auth_required c) || validate_basic_auth basic c.username c.password
    then (let name : Text = trim_jpg (trim_prefix snapshot_path_prefix path) in
        if is_empty name
        then not_found
        else elim (get name) [ none ↦ snapshot_unavailable | some picture ↦ jpeg picture ])
    else unauthorized

pub data Route : Type 0 where
  service : Route
  events_service : Route
  subscription : Route
  snapshot : Route
  elsewhere : Route

pub record Request : Type 0 where
  pub host : Text
  pub path : Text
  pub body : Text
  pub basic : Option (Text × Text)

-- `NewHandler`: the handlers of its routes. `em` is the event manager, where events are on; `uuid`,
-- `w` and `wait` are what a handler may draw or meet.
unfoldable pub serve :
    ServerConfig
    → Text
    → World
    → ℕ
    → Route
    → Request
    → Option EventManager
    → Option EventManager × Reply
unfolding handle handle_snapshot
serve c uuid w wait service r em = (em, handle c uuid r.host r.body)
serve c uuid w wait events_service r none = (none, handle c uuid r.host r.body)
serve c uuid w wait events_service r (some em) =
    if is_authorized c r.body
    then (let done : EventManager × Response = handle_events_service w r.body em in
        (some done.0, event_reply done.1))
    else (some em, auth_fault)
serve c uuid w wait subscription r none = (none, handle c uuid r.host r.body)
serve c uuid w wait subscription r (some em) =
    if is_authorized c r.body
    then (let done : EventManager × Response = handle_subscription w wait r.path r.body em in
        (some done.0, event_reply done.1))
    else (some em, auth_fault)
serve c uuid w wait snapshot r em = elim c.get_snapshot [
  | none ↦ (em, handle c uuid r.host r.body)
  | some get ↦ (em, handle_snapshot c get r.basic r.path)
]
serve c uuid w wait elsewhere r em = (em, not_found)
