-- ===== src/Examples/Cloud.antt =====
-- Runs of pkg/client and pkg/session against a small server.

use nanit_onvif.Prelude.{
  true, ℕ, ◌+◌, ◌≡◌, ◌≢◌, ◌<◌, inr, refl, false, Option, some, none, String, List, [], ◌∷◌, All,
  if◌then◌else◌, String_eq, ◌==◌,
}
use nanit_onvif.Client.Connection.{
  Response, new_websocket_connection, Event, send, message, delivers, give_up, run,
}
use nanit_onvif.Client.Connection.Matching.{IsUnique, IsMatched, run-IsMatched}
use nanit_onvif.Client.Session.{Session, empty_session, Store, update, init_session_store}
use nanit_onvif.Client.Session.Reload.{init_session_store-update}
use nanit_onvif.Client.Rest.{
  Reply, status, AuthResponse, ok, seed, renewed, fetch_authorized, Message, new_messages, Refresh,
}
use nanit_onvif.Client.Rest.Fetching.{fetch_authorized-renews}
use nanit_onvif.Client.Rest.Messages.{new_messages-once}

abbrev tokens : AuthResponse
tokens = record { access_token = "new"; refresh_token = "next" }

-- The world counts the requests.
abbrev refresh : Refresh ℕ
refresh w token = ((status 200 (some tokens), 50), w + 1)

abbrev fetch : ℕ → String → Reply ℕ × ℕ
fetch w token =
    if ◌==◌ {A = String} token "new" then (status 200 (some 7), w + 1) else (status 401 none, w + 1)

abbrev expired : Session
expired = record empty_session { revision = 3; auth_token = "old" }

named-ne : (s : String) → (s == "" ≡ false) → s ≢ ""
named-ne s named empty = let t = (String_eq.beq_iff s "").1 empty in cc

fetch_authorized-renews_example :
    fetch_authorized refresh fetch "cli" expired 0
    ≡ ((ok 7, renewed tokens 50 (seed "cli" expired)), 3)
unfolding seed
fetch_authorized-renews_example =
    fetch_authorized-renews refresh fetch "cli" expired 0 1 2 3 tokens 50 none 7
      (named-ne "cli" refl) (inr (named-ne "old" refl, refl)) refl (named-ne "new" refl) refl

abbrev at_time : ℕ → Message
at_time t = record { id = t; baby_uid = "cot"; user_id = 1; type = "MOTION"; time = t }

abbrev first_fetch : List Message
first_fetch = at_time 90 ∷ at_time 97 ∷ at_time 95 ∷ []

abbrev second_fetch : List Message
second_fetch = at_time 97 ∷ at_time 99 ∷ []

new_messages-once_example :
    All
      (λ m. All (λ x. x.time < m.time) first_fetch)
      (new_messages 105 8 second_fetch (new_messages 100 8 first_fetch expired).1).0
new_messages-once_example = new_messages-once 100 105 8 8 first_fetch second_fetch expired

-- A file that holds the session as it is.
abbrev encode : Session → Option Session
encode s = some s

abbrev decode : Session → Option Session
decode s = some s

abbrev write_file : Option Session → Option Session → Option Session
write_file old contents = contents

abbrev absolute : String → String
absolute name = name

abbrev store : Store Session
store = record { filename = "session.json"; session = expired; file = none }

abbrev seen_at : Session → Session
seen_at s = record s { last_seen_message_time = 97 }

init_session_store-update_example :
    (init_session_store decode absolute "session.json"
      (update encode write_file seen_at store).file).session
    ≡ (update encode write_file seen_at store).session
init_session_store-update_example =
    init_session_store-update encode write_file decode absolute store seen_at "session.json"
      (seen_at expired) (named-ne "session.json" refl) (named-ne "session.json" refl) refl refl refl
      refl

abbrev answer : ℕ → Response
answer id = record {
  request_id = id;
  request_type = 4;
  status_code = some 200;
  status_message = "";
}

abbrev traffic : List Event
traffic =
    send 4
    ∷ send 6
    ∷ message true (some (answer 1))
    ∷ give_up 1
    ∷ delivers
    ∷ message true (some (answer 1))
    ∷ message true (some (answer 2))
    ∷ delivers
    ∷ give_up 2
    ∷ []

run-IsMatched_example :
    All IsMatched (run new_websocket_connection traffic).0
    × IsUnique (run new_websocket_connection traffic).0
run-IsMatched_example = run-IsMatched traffic
