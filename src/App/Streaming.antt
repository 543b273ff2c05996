-- ===== src/App/Streaming.antt =====
-- pkg/app/websocket_handlers.go: requestLocalStreaming, and pkg/app/app.go: when runWebsocket calls it.
-- Other goroutines change the states while a request is awaited: each round has its own manager.
pub mod Requests
use Prim.Native.String.{◌++◌ as ◌⧺◌}
use nanit_onvif.Prelude.{
  ℕ, Bool, true, false, not, ◌&&◌, ◌||◌, Option, none, some, String, List, [], ◌∷◌, ◌++◌,
  if◌then◌else◌, ◌==◌, String_eq, Text, codes, suc,
}
use nanit_onvif.Baby.State.{
  State, StreamRequestState, not_requested, requested, request_failed, StreamState, unknown,
  unhealthy, alive, eqb_request, eqb_stream, StreamState_eq, StreamRequestState_eq, new_state,
  set_stream_request_state, get_stream_state, get_stream_request_state, get_is_websocket_alive,
}
use nanit_onvif.Baby.Manager.{StateManager, update, get_baby_state}

-- How the await of a streaming request ends: accepted, refused since there are too many
-- connections, refused for another reason, or not at all within 30 seconds.
pub data Answer : Type 0 where
  accepted too_many refused timed_out : Answer

-- What one round does: an update of the baby, and whether there is another round.
unfoldable pub mark : String → StreamRequestState → StateManager → StateManager
unfolding update
mark uid r m = update m uid (set_stream_request_state r new_state)

unfoldable pub streaming_round : String → Answer → StateManager → StateManager × Bool
unfolding mark get_baby_state
streaming_round uid accepted m = (mark uid requested m, false)
streaming_round uid too_many m = (mark uid request_failed m, true)
streaming_round uid refused m =
    if eqb_stream (get_stream_state (get_baby_state m uid)) alive
    then (m, false)
    else (mark uid request_failed m, false)
streaming_round uid timed_out m = (m, get_is_websocket_alive (get_baby_state m uid))

-- What a round meets: what others have made of the manager, and the answer.
pub record Round : Type 0 where
  pub meanwhile : StateManager → StateManager
  pub answer : Answer

-- `requestLocalStreaming` over the rounds: the manager, how many requests were sent, and whether it
-- has returned.
unfoldable pub request_local_streaming :
    String → List Round → StateManager → StateManager × ℕ × Bool
unfolding streaming_round
request_local_streaming uid [] m = (m, 0, false)
request_local_streaming uid (r ∷ rs) m =
    let done : StateManager × Bool = streaming_round uid r.answer (r.meanwhile m) in
    elim done.1 [
      | false ↦ (done.0, 1, true)
      | true ↦ let rest = request_local_streaming uid rs done.0 in (rest.0, suc rest.1, rest.2)
    ]

-- The subscriber of runWebsocket: whether an update makes it ask for the stream again.
unfoldable pub asks_again : String → String → State → StateManager → Bool
unfolding get_baby_state
asks_again uid updated u m =
    (updated == uid && (elim u.stream_state [ none ↦ false | some s ↦ eqb_stream s unhealthy ]))
    && not (eqb_request (get_stream_request_state (get_baby_state m uid)) request_failed)

-- Whether runWebsocket asks for the stream when a connection is made.
unfoldable pub asks_at_start : String → StateManager → Bool
unfolding get_baby_state
asks_at_start uid m =
    let s : State = get_baby_state m uid in
    not (eqb_stream (get_stream_state s) alive)
    && (not (eqb_request (get_stream_request_state s) requested)
        || eqb_stream (get_stream_state s) unhealthy)

-- Whether the cleanup of a connection asks the camera to stop.
unfoldable pub asks_to_stop : String → StateManager → Bool
unfolding get_baby_state
asks_to_stop uid m =
    let s : State = get_baby_state m uid in
    get_is_websocket_alive s && eqb_stream (get_stream_state s) alive

pub record RtmpOpts : Type 0 where
  pub public_addr : Text
  pub path : Text
  pub key : Text

abbrev pub or_uid : Text → Text → Text
or_uid [] uid = uid
or_uid (c ∷ cs) uid = c ∷ cs

-- `getLocalStreamURL`, the empty text where RTMP is off. The replacer puts the three in place at once.
unfoldable pub get_local_stream_url : Option RtmpOpts → Text → Text
get_local_stream_url none uid = []
get_local_stream_url (some o) uid =
    codes "rtmp://" ++ (o.public_addr ++ (o.path ++ (codes "/" ++ or_uid o.key uid)))
