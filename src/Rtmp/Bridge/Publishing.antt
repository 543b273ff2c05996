-- ===== src/Rtmp/Bridge/Publishing.antt =====
-- The publisher that subscribers find, while publishers of one baby come and go.
use nanit_onvif.Prelude.{
  ℕ, ◌<◌, false, none, some, String, ◌≡◌, refl, if◌then◌else◌, eqb, eqb_iff, length, lookup,
  lookup-insert, lookup-delete, String_eq, beq_refl, arith, Bool-cases, inl, inr,
}
use nanit_onvif.Rtmp.Bridge.{
  RtmpHandler, close_subscribers_of, get_new_publisher, get_new_subscriber, close_publisher,
}

close_publisher-lookup :
    (h : RtmpHandler) (uid : String) (b current : ℕ)
    → lookup uid h.broadcasters_by_uid ≡ some current
    → lookup uid (close_publisher uid b h).broadcasters_by_uid
      ≡ (if eqb current b then none else some current)
unfolding close_publisher close_subscribers_of
close_publisher-lookup h uid b current known = elim (Bool-cases (eqb current b)) [
  | inl same ↦
      rw (close_publisher, known, same, lookup-delete uid uid h.broadcasters_by_uid, beq_refl uid)
        refl
  | inr other ↦ rw (close_publisher, known, other) known
]

get_new_publisher-lookup :
    (h : RtmpHandler) (uid : String)
    → lookup uid (get_new_publisher uid h).1.broadcasters_by_uid ≡ some (length h.broadcasters)
unfolding get_new_publisher
get_new_publisher-lookup h uid =
    rw (lookup-insert uid uid (length h.broadcasters) h.broadcasters_by_uid, beq_refl uid) refl

-- A publisher that ends after another of the same baby has come does not take that one away: a
-- subscriber then joins the newer publisher.
pub close_publisher-older :
    (h : RtmpHandler) (uid : String) (b : ℕ)
    → b < length h.broadcasters
    → (get_new_subscriber uid (close_publisher uid b (get_new_publisher uid h).1)).0
      ≡ some (h.subscribers_made, (get_new_publisher uid h).0.0)
unfolding get_new_publisher get_new_subscriber close_publisher close_subscribers_of
close_publisher-older h uid b old =
    let h' = (get_new_publisher uid h).1 in
    let kept =
      close_publisher-lookup h' uid b (length h.broadcasters) (get_new_publisher-lookup h uid) in
    let newer : eqb (length h.broadcasters) b ≡ false = ground (arith, old) in
    rw (get_new_subscriber, kept, newer) refl

-- When the publisher that came last ends, a subscriber finds none.
pub close_publisher-last :
    (h : RtmpHandler) (uid : String)
    → (get_new_subscriber uid
        (close_publisher uid (get_new_publisher uid h).0.0 (get_new_publisher uid h).1)).0
      ≡ none
unfolding get_new_publisher get_new_subscriber close_publisher close_subscribers_of
close_publisher-last h uid =
    let h' = (get_new_publisher uid h).1 in
    let b = length h.broadcasters in
    let gone = close_publisher-lookup h' uid b b (get_new_publisher-lookup h uid) in
    let same = (eqb_iff b b).1 refl in rw (get_new_subscriber, gone, same) refl
