-- ===== src/Examples/Clients.antt =====
-- Runs of pkg/onvif: a client of the SOAP services.
use nanit_onvif.Baby.Uids.{valid_uid}
use nanit_onvif.Prelude.{
  ◌+◌, ◌*◌, ◌%◌, ◌≡◌, true, false, refl, some, none, [], ◌∷◌, ◌++◌, lookup, String_eq, arith, Text,
  codes, if◌then◌else◌, eqb_text, pos, ◌-◌, ◌/◌, ap, ap₂, insert, length,
}
use nanit_onvif.Onvif.Events.{
  EventManager, Subscription, Notification, new_event_manager, emit, drain_end,
}
use nanit_onvif.Onvif.Soap.{get_request_action, find_tag_value}
use nanit_onvif.Onvif.Security.{
  Codecs, is_empty, validate_ws_security_auth, validate_basic_auth, new_envelope_with_user,
}
use nanit_onvif.Onvif.Security.Digest.{IsBase64, validate-new_envelope_with_user}
use nanit_onvif.Onvif.Soap.Tags.{IsPlain}
use nanit_onvif.Onvif.Durations.{parse_iso_duration, digits, value_from, value, second, u64}
use nanit_onvif.Onvif.Durations.RoundTrip.{
  iso_text, number, float_of, parse_iso_duration-iso_text, parse_iso_duration-overflow, IsDigits,
}
use nanit_onvif.Onvif.Subscriptions.{
  World, handle_events_service, pull_end, message_limit, scan_positive,
}
use nanit_onvif.Onvif.Subscriptions.Requests.{pull_end-Takes, lesser, limit_in}
use nanit_onvif.Onvif.Subscriptions.Lifetimes.{create_subscription-Receives}
use nanit_onvif.Onvif.Handler.{
  ServerConfig, stream_uri, events_service, Request, serve, handle, colon, rtsp_uri, token_of,
}
use nanit_onvif.Onvif.Handler.Guard.{IsPublic, serve-IsPublic}
use nanit_onvif.Onvif.Handler.Addresses.{uri_path, stream_uri-Serves}
use nanit_onvif.Rtsp.Paths.{extract_baby_uid}

-- In place of base64 an encoding that raises each number, so that no `<` is left.
shift : Text → Text
shift [] = []
shift (c ∷ cs) = (c + 100) ∷ shift cs

unshift : Text → Text
unshift [] = []
unshift (c ∷ cs) = (c - 100) ∷ unshift cs

abbrev codecs : Codecs
codecs = record { sha1 = λ t. 0 ∷ t; encode = shift; decode = λ t. some (unshift t) }

unshift-shift : (t : Text) → unshift (shift t) ≡ t
unfolding unshift shift
unshift-shift [] = refl
unshift-shift (c ∷ cs) =
    let e : c + 100 - 100 ≡ c = omega arith in ap₂ (λ x l. x ∷ l) e (unshift-shift cs)

shift-IsPlain : (t : Text) → IsPlain (shift t)
unfolding shift
shift-IsPlain [] = tt
shift-IsPlain (c ∷ cs) = (ground arith, shift-IsPlain cs)

shift-empties : (t : Text) → is_empty (shift t) ≡ is_empty t
unfolding shift
shift-empties [] = refl
shift-empties (c ∷ cs) = refl

codecs-IsBase64 : IsBase64 codecs
codecs-IsBase64 = record {
  decodes = λ t. ap some (unshift-shift t);
  plain = shift-IsPlain;
  empties = shift-empties;
}

abbrev created : Text
created = codes "2024-05-01"

abbrev header : Text
header = new_envelope_with_user codecs (codes "admin") (codes "secret") (1 ∷ 2 ∷ []) created

validate-new_envelope_with_user_example :
    validate_ws_security_auth codecs (header ++ codes "<Reboot/>") (codes "admin") (codes "guess")
    ≡ (if eqb_text (codes "admin") (codes "admin")
        then eqb_text
            (shift (0 ∷ ((1 ∷ 2 ∷ []) ++ (created ++ codes "secret"))))
            (shift (0 ∷ ((1 ∷ 2 ∷ []) ++ (created ++ codes "guess"))))
        else false)
validate-new_envelope_with_user_example =
    validate-new_envelope_with_user codecs (codes "admin") (codes "secret") (1 ∷ 2 ∷ []) created
      (codes "<Reboot/>") (codes "admin") (codes "guess") codecs-IsBase64 refl
      ((refl, (refl, (refl, (refl, (refl, tt))))), refl)
      ((refl, (refl, (refl, (refl, (refl, (refl, (refl, (refl, (refl, (refl, tt)))))))))), refl)
      refl

abbrev world : World
world = record { now = 1000; random_id = "0a1b"; float = value; whole_seconds = λ d. d / second }

abbrev managed : EventManager
managed = new_event_manager (pos 5)

abbrev create_body : Text
create_body = codes "<s:Body><CreatePullPointSubscription/></s:Body>"

create_asks : get_request_action create_body ≡ codes "CreatePullPointSubscription"
unfolding get_request_action
create_asks = refl

create_subscription-Receives_example :
    (em' : EventManager) × (pull_end
        (message_limit [])
        "0a1b"
        (emit 7 "b1" "motion" "IsMotion" true (handle_events_service world create_body managed).0)
      ≡ some (
        (record { time = 7; topic = "motion"; source = "b1"; key = "IsMotion"; value = true }) ∷ [],
        em',
      ))
create_subscription-Receives_example =
    create_subscription-Receives world create_body [] 7 "b1" "motion" "IsMotion" true managed
      create_asks

abbrev message : Notification
message = record { time = 7; topic = "motion"; source = "b1"; key = "IsMotion"; value = true }

abbrev queued : Subscription
queued = record { id = "0a1b"; terminate_at = 9000; queue = message ∷ message ∷ []; waiters = [] }

abbrev one_sub : EventManager
one_sub = record managed { subs = ("0a1b", queued) ∷ [] }

abbrev no_sub_left : EventManager
no_sub_left = record managed { subs = ("0a1b", record queued { queue = message ∷ [] }) ∷ [] }

abbrev pull_body : Text
pull_body = codes "<PullMessages><MessageLimit>1</MessageLimit></PullMessages>"

pull_runs : pull_end (message_limit pull_body) "0a1b" one_sub ≡ some (message ∷ [], no_sub_left)
unfolding pull_end message_limit value_from digits new_event_manager find_tag_value scan_positive
    lookup drain_end insert
pull_runs = refl

pull_end-Takes_example :
    (s s' : Subscription) × (lookup "0a1b" one_sub.subs ≡ some s)
    × (lookup "0a1b" no_sub_left.subs ≡ some s')
    × (length (message ∷ []) ≡ lesser (limit_in pull_body) (length s.queue))
    × ((message ∷ []) ++ s'.queue ≡ s.queue)
    × (s'.terminate_at ≡ s.terminate_at)
pull_end-Takes_example =
    pull_end-Takes pull_body "0a1b" one_sub no_sub_left (message ∷ []) pull_runs

abbrev renew_body : Text
renew_body = codes "<s:Body><Renew/></s:Body>"

abbrev config : ServerConfig
config = record {
  rtsp_port = codes "8554";
  babies = codes "b1" ∷ [];
  username = codes "admin";
  password = codes "secret";
  get_snapshot = none;
  codecs = codecs;
}

abbrev anonymous : Request
anonymous = record {
  host = codes "cam";
  path = codes "/onvif/events_service";
  body = create_body;
  basic = none;
}

no_header : validate_ws_security_auth codecs create_body (codes "admin") (codes "secret") ≡ false
unfolding validate_ws_security_auth
no_header = refl

serve-IsPublic_example :
    ((serve config [] world 3 events_service anonymous (some managed)).0 ≡ some managed)
    × IsPublic (serve config [] world 3 events_service anonymous (some managed)).1
unfolding validate_basic_auth
serve-IsPublic_example =
    serve-IsPublic config [] world 3 events_service anonymous (some managed) refl no_header refl

abbrev open_config : ServerConfig
open_config = record config { username = [] }

abbrev stream_body : Text
stream_body = codes "<s:Body><GetStreamUri/></s:Body>"

stream_asks : get_request_action stream_body ≡ codes "GetStreamUri"
unfolding get_request_action
stream_asks = refl

first_is_valid : valid_uid (token_of open_config stream_body (codes "ProfileToken")) ≡ true
unfolding valid_uid token_of find_tag_value
first_is_valid = refl

stream_uri-Serves_example :
    (uri : Text) × (handle open_config [] (codes "cam" ++ (colon ++ codes "80")) stream_body
      ≡ stream_uri uri)
    × (uri
        ≡ rtsp_uri
            (codes "cam")
            (codes "8554")
            (token_of open_config stream_body (codes "ProfileToken")))
    × (extract_baby_uid (uri_path uri) ≡ token_of open_config stream_body (codes "ProfileToken"))
stream_uri-Serves_example =
    stream_uri-Serves open_config [] (codes "cam") (codes "80") stream_body stream_asks refl
      (refl, (refl, tt)) (refl, (refl, (refl, tt))) (refl, (refl, (refl, (refl, tt))))
      first_is_valid

abbrev one_hour : Text
one_hour = codes "1"

abbrev half : Text
half = codes "30"

parse_iso_duration-iso_text_example :
    parse_iso_duration value (iso_text (some one_hour) (some half) none)
    ≡ some (
        (number (some one_hour) * (3600 * second)
          + number (some half) * (60 * second)
          + float_of value none)
        % u64)
unfolding value_from
parse_iso_duration-iso_text_example =
    parse_iso_duration-iso_text value (some one_hour) (some half) none (refl, tt) (refl, (refl, tt))
      tt (omega arith) (omega arith)

abbrev huge : Text
huge = codes "99999999999999999999"

huge-IsDigits : IsDigits huge
huge-IsDigits = (
  refl,
  (
    refl,
    (
      refl,
      (
        refl,
        (
          refl,
          (
            refl,
            (
              refl,
              (
                refl,
                (
                  refl,
                  (
                    refl,
                    (
                      refl,
                      (refl, (refl, (refl, (refl, (refl, (refl, (refl, (refl, (refl, tt))))))))),
                    ),
                  ),
                ),
              ),
            ),
          ),
        ),
      ),
    ),
  ),
)

parse_iso_duration-overflow_example :
    parse_iso_duration value (iso_text (some one_hour) (some huge) none)
    ≡ some ((value one_hour * (3600 * second) + value one_hour * (60 * second)) % u64)
unfolding value_from
parse_iso_duration-overflow_example =
    parse_iso_duration-overflow value one_hour huge (refl, tt) huge-IsDigits (omega arith)
      (omega arith)
