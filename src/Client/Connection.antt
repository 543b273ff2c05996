-- ===== src/Client/Connection.antt =====
-- pkg/client/websocket_conn.go: requests to the camera, and the responses that their awaiters get.
-- A request id is an int32, here as its 32 bits; requests are numbered in the order of sending.
pub mod Matching
use nanit_onvif.Prelude.{
  ℕ, suc, ◌+◌, ◌%◌, ◌^◌, Bool, true, false, Option, none, some, String, List, [], ◌∷◌, ◌++◌,
  if◌then◌else◌, eqb, String_eq, ◌==◌, lookup, insert, delete, ℕ_eq,
}

-- The fields of a response that the connection reads.
pub record Response : Type 0 where
  pub request_id : ℕ
  pub request_type : ℕ
  pub status_code : Option ℕ
  pub status_message : String

-- `unhandledRequest`: its callback sends to the channel of the request with a number.
pub record UnhandledRequest : Type 0 where
  pub request : ℕ
  pub type : ℕ

-- A response, and the handler that it is given to.
abbrev pub Delivery : Type 0
Delivery = UnhandledRequest × Response

-- `matched` is the delivery that the goroutine which reads has between the two locks of
-- `handleResponse`.
pub record WebsocketConnection : Type 0 where
  pub msg_handlers : List ℕ
  pub res_handlers : List (ℕ × UnhandledRequest)
  pub last_request_id : ℕ
  pub requests : ℕ
  pub matched : Option Delivery

unfoldable pub new_websocket_connection : WebsocketConnection
new_websocket_connection = record {
  msg_handlers = [];
  res_handlers = [];
  last_request_id = 0;
  requests = 0;
  matched = none;
}

unfoldable pub register_message_handler : ℕ → WebsocketConnection → WebsocketConnection
register_message_handler handler c = record c { msg_handlers = c.msg_handlers ++ handler ∷ [] }

-- The id of the new request, and the connection with its handler.
unfoldable pub send_request : ℕ → WebsocketConnection → ℕ × WebsocketConnection
send_request type c =
    let id = (c.last_request_id + 1) % 2 ^ 32 in
    (
      id,
      record c {
        last_request_id = id;
        res_handlers = insert id (record { request = c.requests; type = type }) c.res_handlers;
        requests = suc c.requests;
      },
    )

-- `handleResponse` under its first lock: a handler of the response's type is noted.
unfoldable pub handle_response : Response → WebsocketConnection → WebsocketConnection
handle_response r c = elim (lookup r.request_id c.res_handlers) [
  | none ↦ c
  | some h ↦ if eqb r.request_type h.type then record c { matched = some (h, r) } else c
]

-- `handleResponse` from its second lock: the entry under the id is deleted, whichever it is by now, and
-- the handler that was noted is called.
unfoldable pub deliver_matched : WebsocketConnection → Option Delivery × WebsocketConnection
deliver_matched c = elim c.matched [
  | none ↦ (none, c)
  | some (h, r) ↦
      (some (h, r), record c { res_handlers = delete r.request_id c.res_handlers; matched = none })
]

-- `handleMessage` up to the second lock: its response, where its type is that of a response; and from
-- there, with the message handlers that are called. One goroutine reads all messages, so that a message
-- waits until the one before is handled.
unfoldable pub handle_message : Bool → Option Response → WebsocketConnection → WebsocketConnection
unfolding handle_response
handle_message is_response none c = c
handle_message is_response (some r) c = if is_response then handle_response r c else c

unfoldable pub message_end : WebsocketConnection → (Option Delivery × List ℕ) × WebsocketConnection
unfolding deliver_matched
message_end c =
    let d : Option Delivery × WebsocketConnection = deliver_matched c in
    ((d.0, c.msg_handlers), d.1)

-- What an awaiter does when it has a response or has timed out.
unfoldable pub finish : ℕ → WebsocketConnection → WebsocketConnection
finish id c = record c { res_handlers = delete id c.res_handlers }

-- What an awaiter returns: `none` for the response of a timeout.
pub data Awaited : Type 0 where
  request_timeout : Awaited
  no_status_code : Response → Awaited
  status_error : Response → String → Awaited
  unexpected_status_code : Response → ℕ → Awaited
  succeeded : Response → Awaited

unfoldable pub await : Option Response → Awaited
await none = request_timeout
await (some r) = elim r.status_code [
  | none ↦ no_status_code r
  | some code ↦
      if eqb code 200
      then succeeded r
      else if r.status_message == ""
      then unexpected_status_code r code
      else status_error r r.status_message
]

-- What happens to a connection: a request, a message up to the second lock, the rest of it, and an
-- awaiter that is done.
pub data Event : Type 0 where
  send : ℕ → Event
  message : Bool → Option Response → Event
  delivers : Event
  give_up : ℕ → Event

-- A message does not begin while the one before is between the locks.
unfoldable pub message_begin : Bool → Option Response → WebsocketConnection → WebsocketConnection
unfolding handle_message
message_begin b r c = elim c.matched [ none ↦ handle_message b r c | some d ↦ c ]

-- The deliveries of some events, in order, and the connection after them.
unfoldable pub run : WebsocketConnection → List Event → List Delivery × WebsocketConnection
unfolding send_request message_begin message_end finish
run c [] = ([], c)
run c (send type ∷ es) = run (send_request type c).1 es
run c (give_up id ∷ es) = run (finish id c) es
run c (message b r ∷ es) = run (message_begin b r c) es
run c (delivers ∷ es) =
    let m = message_end c in
    let rest = run m.1 es in (elim m.0.0 [ none ↦ rest.0 | some d ↦ d ∷ rest.0 ], rest.1)
