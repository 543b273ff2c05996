-- ===== src/App/Streaming/Requests.antt =====
-- When the camera is asked for the local stream, and where it then publishes.
use nanit_onvif.Prelude.{
  Bool, true, false, ◌&&◌, ◌||◌, some, String, List, [], ◌∷◌, ◌++◌, String_eq, Text, codes, ◌≡◌,
  ◌⊎◌, refl, inl, inr, length, beq_refl, Bool-cases, suc, ap,
}
use nanit_onvif.Baby.State.{
  State, request_failed, alive, eqb_stream, StreamState_eq, StreamRequestState_eq, new_state,
  set_stream_request_state, get_stream_state, StreamRequestState, requested,
  get_stream_request_state, get_is_websocket_alive,
}
use nanit_onvif.Baby.State.Overlay.{overlay}
use nanit_onvif.Baby.Manager.{StateManager, get_baby_state}
use nanit_onvif.Baby.Manager.Updates.{get_baby_state-update}
use nanit_onvif.Baby.Uids.{valid_uid}
use nanit_onvif.Rtsp.Paths.{rtmp_uid, local_prefix}
use nanit_onvif.Rtsp.Paths.RoundTrip.{rtmp_uid_iff}
use nanit_onvif.App.Streaming.{
  Answer, accepted, too_many, refused, timed_out, mark, streaming_round, Round,
  request_local_streaming, asks_again, RtmpOpts, or_uid, get_local_stream_url,
}

abbrev pub is_final : Answer → Bool
is_final accepted = true
is_final refused = true
is_final _ = false

abbrev pub any_final : List Round → Bool
any_final [] = false
any_final (r ∷ rs) = is_final r.answer || any_final rs

-- What the round that ended a request has left of the baby; no round with too many connections ends
-- it.
abbrev pub Settled : String → Answer → StateManager → Type 0
Settled uid accepted m = get_stream_request_state (get_baby_state m uid) ≡ requested
Settled uid too_many m = ⊥
Settled uid refused m =
    (get_stream_state (get_baby_state m uid) ≡ alive)
    ⊎ (get_stream_request_state (get_baby_state m uid) ≡ request_failed)
Settled uid timed_out m = get_is_websocket_alive (get_baby_state m uid) ≡ false

and_false : (b : Bool) → b && false ≡ false
and_false true = refl
and_false false = refl

round_ends :
    (uid : String) (a : Answer) (m : StateManager)
    → is_final a ≡ true
    → (streaming_round uid a m).1 ≡ false
unfolding streaming_round
round_ends uid accepted m h = refl
round_ends uid refused m h =
    elim (Bool-cases (eqb_stream (get_stream_state (get_baby_state m uid)) alive)) [
      | inl lives ↦ rw (streaming_round, lives) refl
      | inr dead ↦ rw (streaming_round, dead) refl
    ]
round_ends uid too_many m h = cc
round_ends uid timed_out m h = cc

marked_as :
    (uid : String) (r : StreamRequestState) (m : StateManager)
    → get_stream_request_state (get_baby_state (mark uid r m) uid) ≡ r
unfolding mark overlay
marked_as uid r m =
    rw (get_baby_state-update m uid (set_stream_request_state r new_state) uid, beq_refl uid) refl

round-Settled :
    (uid : String) (a : Answer) (m : StateManager)
    → (streaming_round uid a m).1 ≡ false
    → Settled uid a (streaming_round uid a m).0
unfolding streaming_round
round-Settled uid accepted m h = marked_as uid requested m
round-Settled uid too_many m h = cc
round-Settled uid refused m h =
    elim (Bool-cases (eqb_stream (get_stream_state (get_baby_state m uid)) alive)) [
      | inl lives ↦ inl (
          rw (streaming_round, lives)
            ((StreamState_eq.beq_iff (get_stream_state (get_baby_state m uid)) alive).0 lives))
      | inr dead ↦ inr (rw (streaming_round, dead) (marked_as uid request_failed m))
    ]
round-Settled uid timed_out m h = h

-- A request for the stream comes to an end, whatever others do meanwhile, once the camera accepts it
-- or refuses it for another reason than the number of connections. It ends in the round of the last
-- request that was sent, none before it accepted or so refused; and then the baby's stream is noted as
-- requested where that was accepted, is alive or noted as failed where it was refused, and the
-- websocket is down where there was no answer.
pub request_local_streaming-Settles :
    (uid : String) (rs : List Round) (m : StateManager)
    → any_final rs ≡ true
    → let result = request_local_streaming uid rs m in
      (result.2 ≡ true)
      × ((before : List Round) × (r : Round) × (after : List Round) × (rs ≡ before ++ r ∷ after)
          × (result.1 ≡ suc (length before))
          × (any_final before ≡ false)
          × Settled uid r.answer result.0)
unfolding request_local_streaming
request_local_streaming-Settles uid [] m h = cc
request_local_streaming-Settles uid (r ∷ rs) m h =
    elim (Bool-cases (streaming_round uid r.answer (r.meanwhile m)).1) [
      | inr stops ↦
          rw (request_local_streaming, stops)
            (refl, ([], r, rs, refl, refl, refl, round-Settled uid r.answer (r.meanwhile m) stops))
      | inl again ↦ elim (Bool-cases (is_final r.answer)) [
        | inl final ↦ cc (again, round_ends uid r.answer (r.meanwhile m) final)
        | inr open_end ↦
            let (returns, (before, last, after, split, sent, none_before, settled)) =
              request_local_streaming-Settles uid rs
                (streaming_round uid r.answer (r.meanwhile m)).0 (rw open_end at h) in
            rw (request_local_streaming, again)
              (
                returns,
                (
                  r ∷ before,
                  last,
                  after,
                  ap (λ l. r ∷ l) split,
                  ap suc sent,
                  rw open_end none_before,
                  settled,
                ),
              )
      ]
    ]

marked :
    (uid v : String) (u : State) (m : StateManager)
    → asks_again uid v u (mark uid request_failed m) ≡ false
unfolding asks_again mark overlay
marked uid v u m =
    rw
      (
        get_baby_state-update m uid (set_stream_request_state request_failed new_state) uid,
        beq_refl uid,
      )
      (and_false _)

-- A refused request leaves the baby alone where its stream is alive. Else it is noted as failed, and
-- then no update of the baby makes the connection ask again.
pub streaming_round-refused :
    (uid : String) (m : StateManager)
    → (streaming_round uid refused m ≡ (m, false))
        × (get_stream_state (get_baby_state m uid) ≡ alive)
      ⊎ ((u : State) (v : String) → asks_again uid v u (streaming_round uid refused m).0 ≡ false)
unfolding streaming_round
streaming_round-refused uid m =
    elim (Bool-cases (eqb_stream (get_stream_state (get_baby_state m uid)) alive)) [
      | inl lives ↦ inl (
        rw (streaming_round, lives) refl,
        (StreamState_eq.beq_iff (get_stream_state (get_baby_state m uid)) alive).0 lives,
      )
      | inr dead ↦ inr (λ u v. rw (streaming_round, dead) (marked uid v u m))
    ]

-- A camera that publishes to the URL that it is told, with the path `/local` and no key set, is taken
-- for its own baby by the RTMP server.
pub get_local_stream_url-Publishes :
    (o : RtmpOpts) (uid : Text)
    → o.path ≡ codes "/local"
    → o.key ≡ []
    → valid_uid uid ≡ true
    → (path : Text) × (get_local_stream_url (some o) uid
        ≡ codes "rtmp://" ++ (o.public_addr ++ path))
      × (rtmp_uid path ≡ some uid)
unfolding get_local_stream_url
get_local_stream_url-Publishes o uid at_local no_key valid = (
  o.path ++ (codes "/" ++ or_uid o.key uid),
  refl,
  rw (at_local, no_key) ((rtmp_uid_iff (local_prefix ++ uid) uid).1 (refl, valid)),
)
