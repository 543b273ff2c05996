-- ===== src/Rtmp/Broadcaster/Received.antt =====
-- What a subscriber receives, whatever the schedule: the headers, then the packets but the dropped.
use nanit_onvif.Prelude.{
  true, false, Option, none, some, List, [], ◌∷◌, ◌++◌, ◌≡◌, refl, sym, ap, ◌∙◌, inl, inr,
  append_assoc, append-nil, Bool-cases, Option-cases, arith,
}
use nanit_onvif.Rtmp.Broadcaster.{
  Packet, Subscriber, Position, outside, at_headers, at_packet, Link, fresh_link, Choice, deliver,
  pass_on, find_done, drop_packet, write_packet, signal_close, has_room, put, enter, passed_on,
  dropped_packet, written_packet, step, run,
}
use nanit_onvif.Rtmp.Broadcaster.Delivery.{
  Counted, kept-Counted, both_empty, Offered, nothing, packets, offer, offers, headers_of,
  packets_of, sent_to, awaited, Inv, Kept, IfSome, enter-Kept, passed_on-Kept, dropped_packet-Kept,
  written_packet-Kept,
}

IfSome-mono :
    (P Q : Link → Type 0) (o : Option Link) → ((l : Link) → P l → Q l) → IfSome P o → IfSome Q o
unfolding IfSome
IfSome-mono P Q none f h = tt
IfSome-mono P Q (some l) f h = f l h

written_packet-closed :
    (s : Subscriber) (p : Position) (l : List Packet)
    → s.closed ≡ true
    → IfSome (λ l. l.sub.closed ≡ true) (written_packet s p l)
unfolding IfSome written_packet
written_packet-closed s p [] h = tt
written_packet-closed s p (x ∷ rest) h = h

step-closed :
    (c : Choice) (s : Subscriber) (p : Position)
    → s.closed ≡ true
    → IfSome (λ l. l.sub.closed ≡ true) (step c (record { sub = s; position = p }))
unfolding IfSome step passed_on dropped_packet put enter written_packet
step-closed (deliver pkt hs) s outside h = ground arith
step-closed (deliver pkt hs) s (at_headers _ _) h = tt
step-closed (deliver pkt hs) s (at_packet _) h = tt
step-closed pass_on s outside h = tt
step-closed pass_on s (at_headers [] _) h = tt
step-closed pass_on s (at_headers (x ∷ xs) _) h = elim (Bool-cases (has_room s)) [
  | inl room ↦ rw (room) h
  | inr full ↦ rw (full) tt
]
step-closed pass_on s (at_packet _) h = elim (Bool-cases (has_room s)) [
  | inl room ↦ rw (room) h
  | inr full ↦ rw (full) tt
]
step-closed find_done s outside h = tt
step-closed find_done s (at_headers _ _) h = rw (step, h) refl
step-closed find_done s (at_packet _) h = rw (step, h) refl
step-closed drop_packet s outside h = tt
step-closed drop_packet s (at_headers _ _) h = tt
step-closed drop_packet s (at_packet _) h = elim (Bool-cases (has_room s)) [
  | inl room ↦ rw (room) tt
  | inr full ↦ rw (dropped_packet, full, h) tt
]
step-closed write_packet s p h = written_packet-closed s p s.pkt_c h
step-closed signal_close s p h = refl

step-Inv :
    (c : Choice) (o : Offered) (s : Subscriber) (p : Position)
    → Inv o s p
    → IfSome (Kept (offer c o)) (step c (record { sub = s; position = p }))
unfolding step Kept IfSome
step-Inv (deliver pkt hs) o s outside h = inr (enter-Kept o s pkt hs h)
step-Inv (deliver pkt hs) o s (at_headers _ _) h = tt
step-Inv (deliver pkt hs) o s (at_packet _) h = tt
step-Inv pass_on o s p h = IfSome-mono _ _ (passed_on s p) (λ l. inr) (passed_on-Kept o s p h)
step-Inv find_done o s outside h = tt
step-Inv find_done o s (at_headers hs pkt) h = elim (Bool-cases s.closed) [
  | inl closed ↦ rw (step, closed) (inl refl)
  | inr unclosed ↦ rw (step, unclosed) tt
]
step-Inv find_done o s (at_packet pkt) h = elim (Bool-cases s.closed) [
  | inl closed ↦ rw (step, closed) (inl refl)
  | inr unclosed ↦ rw (step, unclosed) tt
]
step-Inv drop_packet o s p h =
    IfSome-mono _ _ (dropped_packet s p) (λ l. inr) (dropped_packet-Kept o s p h)
step-Inv write_packet o s p h =
    IfSome-mono _ _ (written_packet s p s.pkt_c) (λ l. inr)
      (written_packet-Kept o s p s.pkt_c refl h)
step-Inv signal_close o s p h = inl refl

step-Kept : (c : Choice) (o : Offered) (l : Link) → Kept o l → IfSome (Kept (offer c o)) (step c l)
unfolding Kept
step-Kept c o l h = elim h [
  | inl closed ↦ IfSome-mono _ _ (step c l) (λ l' e. inl e) (step-closed c l.sub l.position closed)
  | inr inv ↦ step-Inv c o l.sub l.position inv
]

Inv-received :
    (o : Offered) (s : Subscriber) (p : Position)
    → Inv o s p
    → (xs : List Packet) × (sent_to s ++ awaited p ≡ headers_of o ++ xs)
      × Counted xs (packets_of o) s.dropped
unfolding Inv
Inv-received nothing s outside (fresh, empty, undropped) =
    ([], append-nil (sent_to s) ∙ empty, (0, both_empty, undropped))
Inv-received nothing s (at_headers _ _) h = absurd h
Inv-received nothing s (at_packet _) h = absurd h
Inv-received (packets headers ps) s outside (started, (xs, sent, thins)) =
    (xs, append-nil (sent_to s) ∙ sent, thins)
Inv-received (packets headers ps) s (at_headers hs pkt) (started, sent, only, undropped) = (
  pkt ∷ [],
  sym (append_assoc (sent_to s) hs (pkt ∷ [])) ∙ ap (λ l. l ++ pkt ∷ []) sent,
  rw (only) (kept-Counted {xs = []} {ps = []} pkt (0, both_empty, undropped)),
)
Inv-received (packets headers ps) s (at_packet pkt) (started, (xs, qs, sent, last, thins)) = (
  xs ++ pkt ∷ [],
  ap (λ l. l ++ pkt ∷ []) sent ∙ append_assoc headers xs (pkt ∷ []),
  rw (last) (kept-Counted pkt thins),
)

run-Kept :
    (cs : List Choice) (o : Offered) (l : Link) → Kept o l → IfSome (Kept (offers cs o)) (run cs l)
unfolding run IfSome
run-Kept [] o l h = h
run-Kept (c ∷ cs) o l h = elim (Option-cases (step c l)) [
  | inl stuck ↦ rw (run, stuck) tt
  | inr (l', goes) ↦ rw (run, goes) (run-Kept cs (offer c o) l' (rw goes at (step-Kept c o l h)))
]

-- Whatever the schedule, a subscriber that is not closed has been sent, with what the publisher is
-- just passing on, all header packets of the first delivery, in order and before any other packet,
-- and then the packets offered to it, in order, but for as many as the counter of dropped ones
-- says, modulo 2^64.
pub run-received :
    (cs : List Choice) (l : Link)
    → run cs fresh_link ≡ some l
    → l.sub.closed ≡ false
    → (xs : List Packet) × (sent_to l.sub ++ awaited l.position
        ≡ headers_of (offers cs nothing) ++ xs)
      × Counted xs (packets_of (offers cs nothing)) l.sub.dropped
unfolding Kept IfSome Inv
run-received cs l h unclosed =
    elim (rw h at (run-Kept cs nothing fresh_link (inr (refl, refl, refl)))) [
      | inl closed ↦ absurd (cc)
      | inr inv ↦ Inv-received (offers cs nothing) l.sub l.position inv
    ]
