-- ===== src/Client/Rest.antt =====
-- pkg/client/rest.go and pkg/message/message.go: requests to Nanit's API, with its session. `S` is
-- the state of the world outside, whose replies are `refresh` and `fetch`; the session's file is in
-- Client/Session.antt.
pub mod Fetching
pub mod Messages
use nanit_onvif.Prelude.{
  ℕ, zero, suc, ◌+◌, ◌-◌, Bool, ◌||◌, Option, none, some, String, List, [], ◌∷◌, if◌then◌else◌, ltb,
  eqb, String_eq, ◌==◌,
}
use nanit_onvif.Client.Session.{Baby, Session}

-- The replies: no response, or a status with the body, if it decodes.
pub data Reply (A : Type 0) : Type 0 where
  request_failed : Reply A
  status : ℕ → Option A → Reply A

pub record AuthResponse : Type 0 where
  pub access_token : String
  pub refresh_token : String

pub data RestError : Type 0 where
  expired_refresh_token no_auth_token refresh_request decode_refresh : RestError
  http_request_failed decode_response failed_authorization : RestError
  refresh_status unexpected_status : ℕ → RestError

-- What an operation returns: an error, or nil and a value.
pub data Result (A : Type 0) : Type 0 where
  err : RestError → Result A
  ok : A → Result A

unfoldable pub seed : String → Session → Session
seed cli s = if s.refresh_token == "" then record s { refresh_token = cli } else s

unfoldable pub renewed : AuthResponse → ℕ → Session → Session
renewed r now s = record s {
  auth_token = r.access_token;
  refresh_token = r.refresh_token;
  auth_time = now;
}

-- `AuthTokenTimelife`, in nanoseconds.
abbrev pub auth_token_timelife : ℕ
auth_token_timelife = 3600000000000

-- The reply to the refresh request, and the time when it has come.
abbrev pub Refresh : Type 0 → Type 0
Refresh S = S → String → (Reply AuthResponse × ℕ) × S

-- The code after the refresh request, with the time of its reply.
unfoldable pub renew_from : Session → Reply AuthResponse → ℕ → Result Unit × Session
unfolding renewed
renew_from s request_failed t = (err refresh_request, s)
renew_from s (status code body) t =
    if eqb code 404
    then (err expired_refresh_token, s)
    else if ltb 299 code || ltb code 200
    then (err (refresh_status code), s)
    else elim body [ none ↦ (err decode_refresh, s) | some r ↦ (ok tt, renewed r t s) ]

-- `continue` after an authorization that returned nil, where `again` is the rest of the loop.
unfoldable pub retry :
    {S D : Type 0}
    → (Result Unit × Session) × S
    → (Session → S → (Result D × Session) × S)
    → (Result D × Session) × S
retry ((err e, s), w) again = ((err e, s), w)
retry ((ok u, s), w) again = again s w

module _ {S : Type 0} (refresh : Refresh S) where
  unfoldable pub renew_session : Session → S → (Result Unit × Session) × S
  unfolding renew_from
  renew_session s w = let r = refresh w s.refresh_token in (renew_from s r.0.0 r.0.1, r.1)

  -- `cli` is the refresh token of the client, from the command line.
  unfoldable pub authorize : String → Session → S → (Result Unit × Session) × S
  unfolding seed renew_session
  authorize cli s w =
      let s' = seed cli s in
      if s'.refresh_token == "" then ((err no_auth_token, s'), w) else renew_session s' w

  unfoldable pub maybe_authorize : String → Bool → ℕ → Session → S → (Result Unit × Session) × S
  unfolding authorize
  maybe_authorize cli force now s w =
      if force || (s.auth_token == "" || ltb (s.auth_time + auth_token_timelife) now)
      then authorize cli s w
      else ((ok tt, s), w)

  -- The request with a token, which a 401 makes the client renew.
  module _ {D : Type 0} (fetch : S → String → Reply D × S) where
    -- The code after a request, where `again` is the rest of the loop.
    unfoldable pub fetched :
        String
        → Session
        → (Session → S → (Result D × Session) × S)
        → Reply D × S
        → (Result D × Session) × S
    unfolding retry authorize
    fetched cli s again (request_failed, w) = ((err http_request_failed, s), w)
    fetched cli s again (status code body, w) =
        if eqb code 401
        then retry (authorize cli s w) again
        else if eqb code 200
        then elim body [ none ↦ ((err decode_response, s), w) | some d ↦ ((ok d, s), w) ]
        else ((err (unexpected_status code), s), w)

    -- The loop, with the attempts that are left.
    unfoldable pub fetch_attempts : ℕ → String → Session → S → (Result D × Session) × S
    unfolding authorize retry fetched
    fetch_attempts zero cli s w = ((err failed_authorization, s), w)
    fetch_attempts (suc n) cli s w =
        let again : Session → S → (Result D × Session) × S = fetch_attempts n cli in
        if s.auth_token == ""
        then retry (authorize cli s w) again
        else fetched cli s again (fetch w s.auth_token)

    unfoldable pub fetch_authorized : String → Session → S → (Result D × Session) × S
    unfolding fetch_attempts
    fetch_authorized = fetch_attempts 2

-- `FetchBabies` keeps what it has fetched in the session; `EnsureBabies` fetches where it has none.
module _ {S : Type 0} (refresh : Refresh S) (fetch : S → String → Reply (List Baby) × S) where
  unfoldable pub fetch_babies : String → Session → S → (Result (List Baby) × Session) × S
  fetch_babies cli s w =
      let r = fetch_authorized refresh fetch cli s w in
      elim r.0.0 [ err e ↦ r | ok babies ↦ ((ok babies, record r.0.1 { babies = babies }), r.1) ]

  unfoldable pub ensure_babies : String → Session → S → (Result (List Baby) × Session) × S
  unfolding fetch_babies
  ensure_babies cli s w = elim s.babies [
    | [] ↦ fetch_babies cli s w
    | b ∷ bs ↦ ((ok s.babies, s), w)
  ]

-- A message, of which the text fields are those that the program never reads.
pub record Message : Type 0 where
  pub id : ℕ
  pub baby_uid : String
  pub user_id : ℕ
  pub type : String
  pub time : ℕ

unfoldable pub filter_messages : List Message → (Message → Bool) → List Message
filter_messages [] cond = []
filter_messages (m ∷ ms) cond =
    let rest = filter_messages ms cond in if cond m then m ∷ rest else rest

-- The sort, most recent first; of messages at one time it keeps the order.
unfoldable pub insert_newest : Message → List Message → List Message
insert_newest m [] = m ∷ []
insert_newest m (x ∷ xs) =
    let rest = insert_newest m xs in if ltb m.time x.time then x ∷ rest else m ∷ x ∷ xs

unfoldable pub sort_newest : List Message → List Message
unfolding insert_newest
sort_newest [] = []
sort_newest (m ∷ ms) = insert_newest m (sort_newest ms)

-- What `FetchNewMessages` makes of the messages fetched: the new ones, and the session. The time of
-- the cut is no earlier than the zero time.
unfoldable pub new_messages : ℕ → ℕ → List Message → Session → List Message × Session
unfolding filter_messages sort_newest
new_messages now timeout fetched s = elim (sort_newest fetched) [
  | [] ↦ ([], s)
  | m ∷ ms ↦
      let last = s.last_seen_message_time in
      let cut = if eqb last 0 then now - timeout else last in
      let s' = if ltb last m.time then record s { last_seen_message_time = m.time } else s in
      (filter_messages (m ∷ ms) (λ x. ltb cut x.time), s')
]

-- `fetch` asks for the ten newest messages, and `now` is the time when they have come.
module _ {S : Type 0} (refresh : Refresh S) (fetch : S → String → Reply (List Message) × S)
    (now : S → ℕ) where
  unfoldable pub fetch_new_messages :
      String → ℕ → Session → S → (Result (List Message) × Session) × S
  unfolding new_messages
  fetch_new_messages cli timeout s w =
      let r = fetch_authorized refresh fetch cli s w in
      elim r.0.0 [
        | err e ↦ r
        | ok fetched ↦ let n = new_messages (now r.1) timeout fetched r.0.1 in ((ok n.0, n.1), r.1)
      ]
