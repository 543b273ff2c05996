-- ===== src/Client/Connection/Matching.antt =====
-- Which responses reach which requests.
use nanit_onvif.Prelude.{
  ℕ, ◌+◌, ◌%◌, ◌^◌, ◌<◌, ◌≡◌, ◌≢◌, refl, sym, ◌⊎◌, inl, inr, Bool, true, false, Option, none, some,
  List, [], ◌∷◌, eqb, eqb_iff, arith, All, lookup, delete, lookup-insert, lookup-delete, ℕ_eq,
  Bool-cases, Option-cases, subst, ap,
}
use nanit_onvif.Client.Connection.{
  Response, UnhandledRequest, WebsocketConnection, new_websocket_connection, send_request, Delivery,
  handle_response, handle_message, finish, Event, send, message, give_up, run, delivers,
  message_begin, message_end, deliver_matched,
}

-- The id of the request with a number.
abbrev pub id_of : ℕ → ℕ
id_of n = (n + 1) % 2 ^ 32

-- The response has the id of the request, and the type that the request was sent with.
abbrev pub IsMatched : Delivery → Type 0
IsMatched d = (d.1.request_id ≡ id_of d.0.request) × (d.1.request_type ≡ d.0.type)

-- A delivery that is noted is right, and its request was sent.
Noted : ℕ → Option Delivery → Type 0
Noted sent o = (d : Delivery) → o ≡ some d → IsMatched d × (d.0.request < sent)

-- A handler stands under the id of its request, and the request was sent.
Tracked : ℕ → List (ℕ × UnhandledRequest) → Type 0
Tracked sent m =
    (id : ℕ) (h : UnhandledRequest)
    → lookup id m ≡ some h
    → (id ≡ id_of h.request) × (h.request < sent)

record IsSound (c : WebsocketConnection) : Type 0 where
  counted : c.last_request_id ≡ c.requests % 2 ^ 32
  tracked : Tracked c.requests c.res_handlers
  noted : Noted c.requests c.matched

delete-Tracked :
    (sent id : ℕ) (m : List (ℕ × UnhandledRequest)) → Tracked sent m → Tracked sent (delete id m)
unfolding Tracked
delete-Tracked sent id m t j h found =
    let same = lookup-delete id j m in
    elim (Bool-cases (eqb id j)) [ inl gone ↦ absurd (cc) | inr other ↦ t j h (cc) ]

send_request-IsSound :
    (type : ℕ) (c : WebsocketConnection) → IsSound c → IsSound (send_request type c).1
unfolding send_request Tracked Noted
send_request-IsSound type c s = record {
  counted = omega (arith, s.counted);
  tracked = λ j h found.
      let id = (c.last_request_id + 1) % 2 ^ 32 in
      let same = lookup-insert id j (record { request = c.requests; type = type }) c.res_handlers in
      elim (Bool-cases (eqb id j)) [
        | inl new ↦ ground (arith, same, found, new, s.counted)
        | inr other ↦ let (a, b) = s.tracked j h (cc) in (a, omega (arith, b))
      ];
  noted = λ d e. let (a, b) = s.noted d e in (a, omega (arith, b));
}

finish-IsSound : (id : ℕ) (c : WebsocketConnection) → IsSound c → IsSound (finish id c)
unfolding finish
finish-IsSound id c s = record {
  counted = s.counted;
  tracked = delete-Tracked c.requests id c.res_handlers s.tracked;
  noted = s.noted;
}

-- The beginning of a message changes nothing, or notes its response for the handler under the
-- response's id, of the same type.
handle_message_cases :
    (b : Bool) (r : Option Response) (c : WebsocketConnection)
    → (handle_message b r c ≡ c)
      ⊎ ((h : UnhandledRequest) × (q : Response) × (lookup q.request_id c.res_handlers ≡ some h)
          × (q.request_type ≡ h.type)
          × (handle_message b r c ≡ record c { matched = some (h, q) }))
unfolding handle_message handle_response
handle_message_cases b none c = inl refl
handle_message_cases false (some q) c = inl refl
handle_message_cases true (some q) c = elim (Option-cases (lookup q.request_id c.res_handlers)) [
  | inl unknown ↦ inl (rw (handle_message, handle_response, unknown) refl)
  | inr (h, known) ↦ elim (Bool-cases (eqb q.request_type h.type)) [
    | inl same ↦ inr (
      h,
      q,
      known,
      (eqb_iff q.request_type h.type).0 same,
      rw (handle_message, handle_response, known, same) refl,
    )
    | inr other ↦ inl (rw (handle_message, handle_response, known, other) refl)
  ]
]

message_begin_cases :
    (b : Bool) (r : Option Response) (c : WebsocketConnection)
    → (message_begin b r c ≡ c)
      ⊎ ((h : UnhandledRequest) × (q : Response) × (lookup q.request_id c.res_handlers ≡ some h)
          × (q.request_type ≡ h.type)
          × (message_begin b r c ≡ record c { matched = some (h, q) }))
unfolding message_begin
message_begin_cases b r c = elim (Option-cases c.matched) [
  | inl free ↦ subst Begins (sym (begins_free free)) (handle_message_cases b r c)
  | inr (d, busy) ↦ inl (begins_busy d busy)
]
  where
    Begins : WebsocketConnection → Type 0
    Begins c' =
        (c' ≡ c)
        ⊎ ((h : UnhandledRequest) × (q : Response) × (lookup q.request_id c.res_handlers ≡ some h)
            × (q.request_type ≡ h.type)
            × (c' ≡ record c { matched = some (h, q) }))

    begins_free : c.matched ≡ none → message_begin b r c ≡ handle_message b r c
    begins_free free =
        ap (λ (o : Option Delivery). elim o [ none ↦ handle_message b r c | some d ↦ c ]) free

    begins_busy : (d : Delivery) → c.matched ≡ some d → message_begin b r c ≡ c
    begins_busy d busy =
        ap (λ (o : Option Delivery). elim o [ none ↦ handle_message b r c | some d ↦ c ]) busy

message_begin-IsSound :
    (b : Bool) (r : Option Response) (c : WebsocketConnection)
    → IsSound c
    → IsSound (message_begin b r c)
unfolding Noted Tracked
message_begin-IsSound b r c s = elim (message_begin_cases b r c) [
  | inl same ↦ subst IsSound (sym same) s
  | inr (h, q, known, typed, now) ↦
      let (id, sent) = s.tracked q.request_id h known in
      subst IsSound (sym now) (record {
        counted = s.counted;
        tracked = s.tracked;
        noted = λ d e. let same : (h, q) ≡ d = cc in rw (← same) ((id, typed), sent);
      })
]

-- The end of a message: nothing was noted, or that is delivered.
message_end_cases :
    (c : WebsocketConnection)
    → (((message_end c).0.0 ≡ none) × ((message_end c).1 ≡ c))
      ⊎ ((d : Delivery) × (c.matched ≡ some d)
          × ((message_end c).0.0 ≡ some d)
          × ((message_end c).1 ≡ record (finish d.1.request_id c) { matched = none }))
unfolding message_end deliver_matched finish
message_end_cases c = elim (Option-cases c.matched) [
  | inl free ↦ inl (rw (deliver_matched, free) refl, ap (λ x. x.1) (idle free))
  | inr ((h, q), noted) ↦
      inr ((h, q), noted, rw (deliver_matched, noted) refl, rw (deliver_matched, noted) refl)
]
  where
    idle : c.matched ≡ none → deliver_matched c ≡ (none, c)
    idle free =
        ap
          (λ (o : Option Delivery). elim o as (λ _. Option Delivery × WebsocketConnection) [
            | none ↦ (none, c)
            | some (h, r) ↦ (
              some (h, r),
              record c { res_handlers = delete r.request_id c.res_handlers; matched = none },
            )
          ])
          free

-- The connection without what was noted.
abbrev settled : ℕ → WebsocketConnection → WebsocketConnection
settled id c = record (finish id c) { matched = none }

settled-IsSound : (id : ℕ) (c : WebsocketConnection) → IsSound c → IsSound (settled id c)
unfolding finish Noted
settled-IsSound id c s = record {
  counted = s.counted;
  tracked = delete-Tracked c.requests id c.res_handlers s.tracked;
  noted = λ d e. absurd (cc);
}

-- No handler is of the request with a number, neither in the table nor noted.
record Unused (n : ℕ) (c : WebsocketConnection) : Type 0 where
  none_in : (id : ℕ) (h : UnhandledRequest) → lookup id c.res_handlers ≡ some h → h.request ≢ n
  not_noted : (d : Delivery) → c.matched ≡ some d → d.0.request ≢ n

delete_unused :
    (n id : ℕ) (m : List (ℕ × UnhandledRequest))
    → ((j : ℕ) (h : UnhandledRequest) → lookup j m ≡ some h → h.request ≢ n)
    → (j : ℕ) (h : UnhandledRequest) → lookup j (delete id m) ≡ some h
    → h.request ≢ n
delete_unused n id m u j h found =
    let same = lookup-delete id j m in
    elim (Bool-cases (eqb id j)) [ inl gone ↦ absurd (cc) | inr other ↦ u j h (cc) ]

finish-Unused : (n id : ℕ) (c : WebsocketConnection) → Unused n c → Unused n (finish id c)
unfolding finish
finish-Unused n id c u = record {
  none_in = delete_unused n id c.res_handlers u.none_in;
  not_noted = u.not_noted;
}

send_request-Unused :
    (n type : ℕ) (c : WebsocketConnection)
    → n < c.requests
    → Unused n c
    → Unused n (send_request type c).1
unfolding send_request
send_request-Unused n type c older u = record {
  none_in = λ j h found.
      let id = (c.last_request_id + 1) % 2 ^ 32 in
      let same = lookup-insert id j (record { request = c.requests; type = type }) c.res_handlers in
      elim (Bool-cases (eqb id j)) [
        | inl new ↦ ground (arith, same, found, new, older)
        | inr other ↦ u.none_in j h (cc)
      ];
  not_noted = u.not_noted;
}

message_begin-Unused :
    (n : ℕ) (b : Bool) (r : Option Response) (c : WebsocketConnection)
    → Unused n c
    → Unused n (message_begin b r c)
message_begin-Unused n b r c u = elim (message_begin_cases b r c) [
  | inl same ↦ subst (Unused n) (sym same) u
  | inr (h, q, known, typed, now) ↦ subst (Unused n) (sym now) (record {
    none_in = u.none_in;
    not_noted = λ d e. let same : (h, q) ≡ d = cc in rw (← same) (u.none_in q.request_id h known);
  })
]

settled-Unused : (n id : ℕ) (c : WebsocketConnection) → Unused n c → Unused n (settled id c)
unfolding finish
settled-Unused n id c u = record {
  none_in = delete_unused n id c.res_handlers u.none_in;
  not_noted = λ d e. absurd (cc);
}

-- The handler that was noted is of the only request with this id, so that once the entry is gone that
-- request has none.
settled-leaves_none :
    (c : WebsocketConnection) (d : Delivery)
    → IsSound c
    → c.matched ≡ some d
    → Unused d.0.request (settled d.1.request_id c)
unfolding finish Tracked Noted
settled-leaves_none c d s noted = record {
  none_in = λ j k found e.
      let same = lookup-delete d.1.request_id j c.res_handlers in
      elim (Bool-cases (eqb d.1.request_id j)) [
        | inl gone ↦ absurd (cc)
        | inr other ↦
            let here = (s.noted d noted).0.0 in
            let there = (s.tracked j k (cc)).0 in absurd (ground (arith, here, there, e, other))
      ];
  not_noted = λ x e. absurd (cc);
}

settled_count : (id : ℕ) (c : WebsocketConnection) → (settled id c).requests ≡ c.requests
unfolding finish
settled_count id c = refl

message_begin_count :
    (b : Bool) (r : Option Response) (c : WebsocketConnection)
    → (message_begin b r c).requests ≡ c.requests
message_begin_count b r c = elim (message_begin_cases b r c) [
  | inl same ↦ ap (λ x. x.requests) same
  | inr (h, q, known, typed, now) ↦ ap (λ x. x.requests) now
]

run-Unused :
    (es : List Event) (n : ℕ) (c : WebsocketConnection)
    → n < c.requests
    → Unused n c
    → All (λ d. d.0.request ≢ n) (run c es).0
unfolding run send_request
run-Unused [] n c older u = tt
run-Unused (send type ∷ es) n c older u =
    run-Unused es n (send_request type c).1 (omega arith) (send_request-Unused n type c older u)
run-Unused (give_up id ∷ es) n c older u =
    run-Unused es n (finish id c) (unfold finish in older) (finish-Unused n id c u)
run-Unused (message b r ∷ es) n c older u =
    run-Unused es n (message_begin b r c) (omega (arith, message_begin_count b r c))
      (message_begin-Unused n b r c u)
run-Unused (delivers ∷ es) n c older u = elim (message_end_cases c) [
  | inl (nothing, same) ↦ rw (run, nothing, same) (run-Unused es n c older u)
  | inr (d, noted, given, gone) ↦
      rw (run, given, gone)
        (
          u.not_noted d noted,
          run-Unused es n (settled d.1.request_id c) (omega (arith, settled_count d.1.request_id c))
              (settled-Unused n d.1.request_id c u),
        )
]

-- No two deliveries are to one request.
abbrev pub IsUnique : List Delivery → Type 0
IsUnique [] = Unit
IsUnique (d ∷ ds) = All (λ x. x.0.request ≢ d.0.request) ds × IsUnique ds

run-IsMatched_from :
    (es : List Event) (c : WebsocketConnection)
    → IsSound c
    → All IsMatched (run c es).0 × IsUnique (run c es).0
unfolding run Tracked Noted
run-IsMatched_from [] c s = (tt, tt)
run-IsMatched_from (send type ∷ es) c s =
    run-IsMatched_from es (send_request type c).1 (send_request-IsSound type c s)
run-IsMatched_from (give_up id ∷ es) c s =
    run-IsMatched_from es (finish id c) (finish-IsSound id c s)
run-IsMatched_from (message b r ∷ es) c s =
    run-IsMatched_from es (message_begin b r c) (message_begin-IsSound b r c s)
run-IsMatched_from (delivers ∷ es) c s = elim (message_end_cases c) [
  | inl (nothing, same) ↦ rw (run, nothing, same) (run-IsMatched_from es c s)
  | inr (d, noted, given, gone) ↦
      let later = settled d.1.request_id c in
      let (right, sent) = s.noted d noted in
      let (matched, unique) = run-IsMatched_from es later (settled-IsSound d.1.request_id c s) in
      rw (run, given, gone)
        (
          (right, matched),
          (
            run-Unused es d.0.request later (omega (arith, sent, settled_count d.1.request_id c))
                (settled-leaves_none c d s noted),
            unique,
          ),
        )
]

new-IsSound : IsSound new_websocket_connection
unfolding new_websocket_connection Tracked Noted lookup
new-IsSound = record {
  counted = refl;
  tracked = λ id h found. absurd (cc);
  noted = λ d e. absurd (cc);
}

-- Whatever requests are sent, messages received and requests given up on a new connection, a
-- response that is delivered has the id and the type of the request whose awaiter gets it, and no
-- request is delivered two responses.
pub run-IsMatched :
    (es : List Event)
    → All IsMatched (run new_websocket_connection es).0
      × IsUnique (run new_websocket_connection es).0
run-IsMatched es = run-IsMatched_from es new_websocket_connection new-IsSound
