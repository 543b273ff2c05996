-- ===== src/Client/Manager/Handlers.antt =====
-- pkg/client/websocket.go: which handlers hear of a connection.
use nanit_onvif.Prelude.{
  ℕ, suc, zero, ◌+◌, ◌≤◌, ◌≡◌, ◌⊎◌, Bool, true, false, ◌&&◌, some, List, [], ◌∷◌, ◌++◌, map,
  get_elem?, eqb, eqb_iff, refl, ap, ◌∙◌, inl, inr, Bool-cases, Option-cases, arith,
}
use nanit_onvif.Client.Manager.{
  ReadyState, WebsocketConnectionManager, with_ready_connection, on_connected, mark_alive, has,
  notify_ready_handler, remove_at, notify_next, on_disconnected, fail_attempt, Step, registers,
  notifies, announces, disconnects, fails, step, run,
}

abbrev one_if : Bool → ℕ
one_if true = 1
one_if false = 0

-- How often a handler stands in a list, and how often with a connection.
unfoldable pub times : ℕ → List ℕ → ℕ
times h [] = 0
times h (x ∷ xs) = one_if (eqb x h) + times h xs

abbrev pub is_of : ReadyState → ℕ → ReadyState × ℕ → Bool
is_of r h (s, x) = eqb s.attempt r.attempt && (eqb s.connection r.connection && eqb x h)

unfoldable pub called : ReadyState → ℕ → List (ReadyState × ℕ) → ℕ
called r h [] = 0
called r h (c ∷ l) = one_if (is_of r h c) + called r h l

times-snoc : (h x : ℕ) (xs : List ℕ) → times h (xs ++ x ∷ []) ≡ times h xs + one_if (eqb x h)
unfolding times
times-snoc h x [] = omega arith
times-snoc h x (y ∷ xs) = omega (arith, times-snoc h x xs)

called-append :
    (r : ReadyState) (h : ℕ) (xs ys : List (ReadyState × ℕ))
    → called r h (xs ++ ys) ≡ called r h xs + called r h ys
unfolding called
called-append r h [] ys = omega arith
called-append r h (x ∷ xs) ys = omega (arith, called-append r h xs ys)

is_of_self : (r : ReadyState) (h x : ℕ) → is_of r h (r, x) ≡ eqb x h
is_of_self r h x =
    rw ((eqb_iff r.attempt r.attempt).1 refl, (eqb_iff r.connection r.connection).1 refl) refl

called-one : (r : ReadyState) (h x : ℕ) → called r h ((r, x) ∷ []) ≡ one_if (eqb x h)
unfolding called
called-one r h x = omega (arith, ap one_if (is_of_self r h x))

called-map : (r : ReadyState) (h : ℕ) (xs : List ℕ) → called r h (map (λ x. (r, x)) xs) ≡ times h xs
unfolding called times
called-map r h [] = refl
called-map r h (x ∷ xs) = omega (arith, ap one_if (is_of_self r h x), called-map r h xs)

called-remove_at :
    (r : ReadyState) (h n : ℕ) (c : ReadyState × ℕ) (l : List (ReadyState × ℕ))
    → get_elem? l n ≡ some c
    → called r h l ≡ one_if (is_of r h c) + called r h (remove_at n l)
unfolding called
called-remove_at r h n c [] g = cc
called-remove_at r h zero c (x ∷ l) g = let e : x ≡ c = cc in rw e refl
called-remove_at r h (suc n) c (x ∷ l) g = omega (arith, called-remove_at r h n c l g)

is_of_attempt : (r s : ReadyState) (h x : ℕ) → is_of r h (s, x) ≡ true → s.attempt ≡ r.attempt
is_of_attempt r s h x e = elim (Bool-cases (eqb s.attempt r.attempt)) [
  | inl same ↦ (eqb_iff s.attempt r.attempt).0 same
  | inr other ↦ cc (rw other at e)
]

has_first : (a : ℕ) (l : List ℕ) → has a (a ∷ l) ≡ true
has_first a l = rw ((eqb_iff a a).1 refl) refl

has_later : (a b : ℕ) (l : List ℕ) → has a l ≡ true → has a (b ∷ l) ≡ true
has_later a b l h = elim (Bool-cases (eqb a b)) [ inl same ↦ rw same refl | inr other ↦ rw other h ]

module _ (r : ReadyState) (h : ℕ) where
  -- The notifications of a handler of a connection, made or still to be made.
  abbrev notices : WebsocketConnectionManager → ℕ
  notices m = called r h m.calls + called r h m.pending

  abbrev is_canceled : WebsocketConnectionManager → Bool
  is_canceled m = has r.attempt m.canceled

  -- They are as many as the handler is registered, or, once the attempt is cancelled, at most as many.
  abbrev Balanced : WebsocketConnectionManager → Type 0
  Balanced m =
      (m.ready_state ≡ some r)
      × (notices m ≤ times h m.ready_subscribers)
      × ((is_canceled m ≡ true) ⊎ (notices m ≡ times h m.ready_subscribers))

  -- A notification of a cancelled attempt starts no handler, any other starts its own.
  notified :
      (n : ℕ) (m : WebsocketConnectionManager)
      → let m' = notify_next n m in
        (m'.ready_state ≡ m.ready_state)
        × (m'.ready_subscribers ≡ m.ready_subscribers)
        × (m'.canceled ≡ m.canceled)
        × (((notices m' ≡ notices m) × (is_canceled m ≡ false))
            ⊎ ((notices m' ≤ notices m)
                × (called r h m'.calls ≡ called r h m.calls)
                × ((is_canceled m ≡ true) ⊎ (notices m' ≡ notices m))))
  unfolding notify_next notify_ready_handler called
  notified n m = elim (Option-cases (get_elem? m.pending n)) [
    | inl missing ↦ rw (notify_next, missing) (refl, refl, refl, inr (omega arith, refl, inr refl))
    | inr ((s, x), found) ↦
        let removed = called-remove_at r h n (s, x) m.pending found in
        elim (Bool-cases (has s.attempt m.canceled)) [
          | inl dead ↦
              rw (notify_next, found, notify_ready_handler, dead)
                (
                  refl,
                  refl,
                  refl,
                  inr (
                    omega (arith, removed),
                    refl,
                    elim (Bool-cases (is_of r h (s, x))) [
                      | inl same ↦ inl (rw (is_of_attempt r s h x same) at dead)
                      | inr other ↦ inr (omega (arith, removed, ap one_if other))
                    ],
                  ),
                )
          | inr lives ↦
              rw (notify_next, found, notify_ready_handler, lives)
                (
                  refl,
                  refl,
                  refl,
                  elim (Bool-cases (is_of r h (s, x))) [
                    | inl same ↦
                        inl (omega (arith, removed), rw (is_of_attempt r s h x same) at lives)
                    | inr other ↦ inr (
                      omega (arith, removed),
                      omega (arith, ap one_if other),
                      inr (omega (arith, removed)),
                    )
                  ],
                )
        ]
  ]

  step-Balanced : (s : Step) (m : WebsocketConnectionManager) → Balanced m → Balanced (step r s m)
  unfolding step with_ready_connection mark_alive fail_attempt
  step-Balanced (registers x) m (ready, most, sum) =
      let more = times-snoc h x m.ready_subscribers in
      let one = called-one r h x in
      let all = called-append r h m.pending ((r, x) ∷ []) in
      rw ready (
        refl,
        omega (arith, most, more, one, all),
        elim sum [ inl dead ↦ inl dead | inr e ↦ inr (omega (arith, e, more, one, all)) ],
      )
  step-Balanced (notifies n) m (ready, most, sum) =
      let (e0, e1, e2, counts) = notified n m in
      let subs = ap (times h) e1 in
      (
        e0 ∙ ready,
        elim counts [
          | inl (same, lives) ↦ omega (arith, same, most, subs)
          | inr (fewer, calls, rest) ↦ omega (arith, fewer, most, subs)
        ],
        elim sum [
          | inl dead ↦ inl (ap (has r.attempt) e2 ∙ dead)
          | inr e ↦ elim counts [
            | inl (same, lives) ↦ inr (omega (arith, same, e, subs))
            | inr (fewer, calls, rest) ↦ elim rest [
              | inl dead ↦ inl (ap (has r.attempt) e2 ∙ dead)
              | inr same ↦ inr (omega (arith, same, e, subs))
            ]
          ]
        ],
      )
  step-Balanced announces m b = b
  step-Balanced disconnects m b = elim (Bool-cases (has r.attempt m.disconnected)) [
    | inl again ↦ rw (on_disconnected, again) b
    | inr first ↦ rw (on_disconnected, first) b
  ]
  step-Balanced fails m (ready, most, sum) = (ready, most, inl (has_first r.attempt m.canceled))

  run-Balanced :
      (ss : List Step) (m : WebsocketConnectionManager) → Balanced m → Balanced (run r ss m)
  unfolding run
  run-Balanced [] m b = b
  run-Balanced (s ∷ ss) m b = run-Balanced ss (step r s m) (step-Balanced s m b)

  step_silent :
      (s : Step) (m : WebsocketConnectionManager)
      → is_canceled m ≡ true
      → (is_canceled (step r s m) ≡ true) × (called r h (step r s m).calls ≡ called r h m.calls)
  unfolding step with_ready_connection mark_alive fail_attempt
  step_silent (registers x) m dead = (dead, refl)
  step_silent (notifies n) m dead =
      let (e0, e1, e2, counts) = notified n m in
      (
        ap (has r.attempt) e2 ∙ dead,
        elim counts [ inl (same, lives) ↦ cc (dead, lives) | inr (fewer, calls, rest) ↦ calls ],
      )
  step_silent announces m dead = (dead, refl)
  step_silent disconnects m dead = elim (Bool-cases (has r.attempt m.disconnected)) [
    | inl again ↦ rw (on_disconnected, again) (dead, refl)
    | inr first ↦ rw (on_disconnected, first) (dead, refl)
  ]
  step_silent fails m dead = (has_later r.attempt r.attempt m.canceled dead, refl)

  run_silent :
      (ss : List Step) (m : WebsocketConnectionManager)
      → is_canceled m ≡ true
      → called r h (run r ss m).calls ≡ called r h m.calls
  unfolding run
  run_silent [] m dead = refl
  run_silent (s ∷ ss) m dead =
      let (still, same) = step_silent s m dead in run_silent ss (step r s m) still ∙ same

-- In whatever order registrations, notifications, the loss of the connection and the cancellation of
-- its attempt go on after a connection is made: a handler hears of it at most once for each time that it
-- is registered. While the attempt is not cancelled, it has been started, or a goroutine is still to
-- notify it, exactly as often, whether it was registered before the connection was made or later. Once
-- the attempt is cancelled, it is started no more.
pub run-called :
    (r : ReadyState) (h : ℕ) (ss ts : List Step) (m : WebsocketConnectionManager)
    → called r h m.calls ≡ 0
    → called r h m.pending ≡ 0
    → let m' = run r ss (on_connected r m) in
      (called r h m'.calls ≤ times h m'.ready_subscribers)
      × (((has r.attempt m'.canceled ≡ false)
            × (called r h m'.calls + called r h m'.pending ≡ times h m'.ready_subscribers))
          ⊎ ((has r.attempt m'.canceled ≡ true)
              × (called r h (run r ts m').calls ≡ called r h m'.calls)))
unfolding on_connected
run-called r h ss ts m fresh none_left =
    let start : called r h m.calls + called r h (on_connected r m).pending
        ≡ times h m.ready_subscribers =
      omega (
        arith,
        fresh,
        none_left,
        called-append r h m.pending (map (λ x. (r, x)) m.ready_subscribers),
        called-map r h m.ready_subscribers,
      ) in
    let (ready, most, sum) =
      run-Balanced r h ss (on_connected r m) (refl, omega (arith, start), inr start) in
    (
      omega (arith, most),
      elim (Bool-cases (has r.attempt (run r ss (on_connected r m)).canceled)) [
        | inl dead ↦ inr (dead, run_silent r h ts (run r ss (on_connected r m)) dead)
        | inr lives ↦ inl (lives, elim sum [ inl dead ↦ cc (dead, lives) | inr e ↦ e ])
      ],
    )
