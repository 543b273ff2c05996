-- ===== src/Rtmp/Broadcaster/Delivery.antt =====
-- What a subscriber has been sent and is still to be sent, and that the parts of a step keep it.
use nanit_onvif.Prelude.{
  ◌+◌, ◌%◌, ◌^◌, arith, ℕ, suc, true, false, Option, none, some, List, [], ◌∷◌, ◌++◌, ◌≡◌, refl,
  sym, ap, ◌∙◌, ◌⊎◌, inl, inr, append_assoc, append-nil, Bool-cases,
}
use nanit_onvif.Rtmp.Broadcaster.{
  Packet, Subscriber, Position, outside, at_headers, at_packet, Link, Choice, deliver, has_room,
  put, position_of, enter, passed_on, dropped_packet, written_packet,
}

-- `Thins xs ps n`: `xs` is `ps` with `n` of its elements left out.
pub data Thins : List Packet → List Packet → ℕ → Type 0 where
  both_empty : Thins [] [] 0
  kept :
      {xs ps : List Packet} {n : ℕ} (p : Packet)
      → Thins xs ps n
      → Thins (xs ++ p ∷ []) (ps ++ p ∷ []) n
  left_out :
      {xs ps : List Packet} {n : ℕ} (p : Packet) → Thins xs ps n → Thins xs (ps ++ p ∷ []) (suc n)

-- As many are left out as a uint64 counter says, modulo its range.
abbrev pub Counted : List Packet → List Packet → ℕ → Type 0
Counted xs ps dropped = (n : ℕ) × Thins xs ps n × (dropped ≡ n % 2 ^ 64)

pub kept-Counted :
    {xs ps : List Packet} {dropped : ℕ} (p : Packet)
    → Counted xs ps dropped
    → Counted (xs ++ p ∷ []) (ps ++ p ∷ []) dropped
kept-Counted p (n, thins, count) = (n, kept p thins, count)

left_out-Counted :
    {xs ps : List Packet} {dropped : ℕ} (p : Packet)
    → Counted xs ps dropped
    → Counted xs (ps ++ p ∷ []) ((dropped + 1) % 2 ^ 64)
left_out-Counted p (n, thins, count) = (suc n, left_out p thins, omega (arith, count))

-- What was offered to a subscriber: nothing, or packets after the headers of the first delivery.
pub data Offered : Type 0 where
  nothing : Offered
  packets : List Packet → List Packet → Offered

abbrev pub offer : Choice → Offered → Offered
offer (deliver pkt hs) nothing = packets hs (pkt ∷ [])
offer (deliver pkt hs) (packets headers ps) = packets headers (ps ++ pkt ∷ [])
offer _ o = o

abbrev pub offers : List Choice → Offered → Offered
offers [] o = o
offers (c ∷ cs) o = offers cs (offer c o)

abbrev pub headers_of : Offered → List Packet
headers_of nothing = []
headers_of (packets headers ps) = headers

abbrev pub packets_of : Offered → List Packet
packets_of nothing = []
packets_of (packets headers ps) = ps

-- What the subscriber has been sent, read or not.
abbrev pub sent_to : Subscriber → List Packet
sent_to s = s.written ++ s.pkt_c

-- What the publisher still has to pass on.
abbrev pub awaited : Position → List Packet
awaited outside = []
awaited (at_headers hs pkt) = hs ++ pkt ∷ []
awaited (at_packet pkt) = pkt ∷ []

unfoldable pub Inv : Offered → Subscriber → Position → Type 0
Inv nothing s outside = (s.initialized ≡ false) × (sent_to s ≡ []) × (s.dropped ≡ 0)
Inv nothing s _ = ⊥
Inv (packets headers ps) s outside =
    (s.initialized ≡ true)
    × ((xs : List Packet) × (sent_to s ≡ headers ++ xs) × Counted xs ps s.dropped)
Inv (packets headers ps) s (at_headers hs pkt) =
    (s.initialized ≡ true) × (sent_to s ++ hs ≡ headers) × (ps ≡ pkt ∷ []) × (s.dropped ≡ 0)
Inv (packets headers ps) s (at_packet pkt) =
    (s.initialized ≡ true)
    × ((xs : List Packet) × (qs : List Packet) × (sent_to s ≡ headers ++ xs)
        × (ps ≡ qs ++ pkt ∷ [])
        × Counted xs qs s.dropped)

-- Unless the subscriber is closed.
unfoldable pub Kept : Offered → Link → Type 0
Kept o l = (l.sub.closed ≡ true) ⊎ Inv o l.sub l.position

unfoldable pub IfSome : (Link → Type 0) → Option Link → Type 0
IfSome P none = Unit
IfSome P (some l) = P l

sent_to-put : (s : Subscriber) (p : Packet) → sent_to (put p s) ≡ sent_to s ++ p ∷ []
unfolding put
sent_to-put s p = sym (append_assoc s.written s.pkt_c (p ∷ []))

reach :
    (headers ps hs : List Packet) (s : Subscriber) (pkt : Packet)
    → s.initialized ≡ true
    → sent_to s ++ hs ≡ headers
    → ps ≡ pkt ∷ []
    → s.dropped ≡ 0
    → Inv (packets headers ps) s (position_of hs pkt)
unfolding Inv position_of
reach headers ps [] s pkt started sent only undropped =
    let a = append-nil (sent_to s) in
    let b = append-nil headers in (started, ([], [], cc, only, (0, both_empty, undropped)))
reach headers ps (h ∷ hs) s pkt started sent only undropped = (started, sent, only, undropped)

pub enter-Kept :
    (o : Offered) (s : Subscriber) (pkt : Packet) (hs : List Packet)
    → Inv o s outside
    → Inv (offer (deliver pkt hs) o) (enter pkt hs s).sub (enter pkt hs s).position
unfolding Inv enter
enter-Kept nothing s pkt hs (fresh, empty, undropped) =
    rw (enter, fresh)
      (reach hs (pkt ∷ []) hs (record s { initialized = true }) pkt refl (rw (empty) refl) refl
        undropped)
enter-Kept (packets headers ps) s pkt hs (started, (xs, sent, thins)) =
    rw (enter, started) (refl, (xs, ps, sent, refl, thins))

pub passed_on-Kept :
    (o : Offered) (s : Subscriber) (p : Position)
    → Inv o s p
    → IfSome (λ l. Inv o l.sub l.position) (passed_on s p)
unfolding Inv IfSome passed_on put
passed_on-Kept nothing s outside h = tt
passed_on-Kept nothing s (at_headers hs pkt) h = absurd h
passed_on-Kept nothing s (at_packet pkt) h = absurd h
passed_on-Kept (packets headers ps) s outside h = tt
passed_on-Kept (packets headers ps) s (at_headers [] pkt) h = tt
passed_on-Kept (packets headers ps) s (at_headers (x ∷ hs) pkt) (started, sent, only, undropped) =
    elim (Bool-cases (has_room s)) [
      | inr full ↦ rw (passed_on, full) tt
      | inl room ↦
          let more = sent_to-put s x in
          let split = append_assoc (sent_to s) (x ∷ []) hs in
          rw (passed_on, room)
            (reach headers ps hs (put x s) pkt started (ap (λ l. l ++ hs) more ∙ split ∙ sent) only
              undropped)
    ]
passed_on-Kept (packets headers ps) s (at_packet pkt) (started, (xs, qs, sent, last, thins)) =
    elim (Bool-cases (has_room s)) [
      | inr full ↦ rw (passed_on, full) tt
      | inl room ↦
          let more = sent_to-put s pkt in
          let split = append_assoc headers xs (pkt ∷ []) in
          rw (passed_on, room)
            (
              started,
              (
                xs ++ pkt ∷ [],
                more ∙ ap (λ l. l ++ pkt ∷ []) sent ∙ split,
                rw (last) (kept-Counted pkt thins),
              ),
            )
    ]

pub dropped_packet-Kept :
    (o : Offered) (s : Subscriber) (p : Position)
    → Inv o s p
    → IfSome (λ l. Inv o l.sub l.position) (dropped_packet s p)
unfolding Inv IfSome dropped_packet
dropped_packet-Kept o s outside h = tt
dropped_packet-Kept o s (at_headers hs pkt) h = tt
dropped_packet-Kept nothing s (at_packet pkt) h = absurd h
dropped_packet-Kept (packets headers ps) s (at_packet pkt) (started, (xs, qs, sent, last, thins)) =
    elim (Bool-cases (has_room s)) [
      | inl room ↦ rw (dropped_packet, room) tt
      | inr full ↦ elim (Bool-cases s.closed) [
        | inl closed ↦ rw (dropped_packet, full, closed) tt
        | inr unclosed ↦
            rw (dropped_packet, full, unclosed)
              (started, (xs, sent, rw (last) (left_out-Counted pkt thins)))
      ]
    ]

-- The invariant reads of the subscriber only these fields.
Inv-same :
    (o : Offered) (s t : Subscriber) (p : Position)
    → t.initialized ≡ s.initialized
    → sent_to t ≡ sent_to s
    → t.dropped ≡ s.dropped
    → Inv o s p
    → Inv o t p
unfolding Inv
Inv-same nothing s t outside i e d (fresh, empty, undropped) = (i ∙ fresh, e ∙ empty, d ∙ undropped)
Inv-same nothing s t (at_headers hs pkt) i e d h = absurd h
Inv-same nothing s t (at_packet pkt) i e d h = absurd h
Inv-same (packets headers ps) s t outside i e d (started, (xs, sent, thins)) =
    (i ∙ started, (xs, e ∙ sent, rw (d) thins))
Inv-same (packets headers ps) s t (at_headers hs pkt) i e d (started, sent, only, undropped) =
    (i ∙ started, ap (λ l. l ++ hs) e ∙ sent, only, d ∙ undropped)
Inv-same (packets headers ps) s t (at_packet pkt) i e d (started, (xs, qs, sent, last, thins)) =
    (i ∙ started, (xs, qs, e ∙ sent, last, rw (d) thins))

pub written_packet-Kept :
    (o : Offered) (s : Subscriber) (p : Position) (l : List Packet)
    → s.pkt_c ≡ l
    → Inv o s p
    → IfSome (λ l. Inv o l.sub l.position) (written_packet s p l)
unfolding IfSome written_packet
written_packet-Kept o s p [] queued h = tt
written_packet-Kept o s p (x ∷ rest) queued h =
    Inv-same o s (record s { pkt_c = rest; written = s.written ++ x ∷ [] }) p refl
      (append_assoc s.written (x ∷ []) rest ∙ ap (λ l. s.written ++ l) (sym queued)) refl h
