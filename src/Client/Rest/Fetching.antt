-- ===== src/Client/Rest/Fetching.antt =====
-- Renewing the session, and the request that is tried again.
use nanit_onvif.Prelude.{
  ℕ, Option, some, String, ◌≡◌, refl, ◌≢◌, ◌⊎◌, inl, inr, String_eq, ◌==◌, ltb, ◌||◌, zero, suc,
  eqb, eqb_iff, beq-eq-false, Bool-cases, Option-cases, ◌∙◌,
}
use nanit_onvif.Client.Session.{Session}
use nanit_onvif.Client.Rest.{
  Reply, request_failed, status, AuthResponse, Result, err, ok, no_auth_token, Refresh, seed,
  renewed, renew_from, renew_session, authorize, retry, fetched, fetch_attempts, fetch_authorized,
  RestError,
}

module _ {S : Type 0} (refresh : Refresh S) where
  -- What a renewal leaves: on an error the session as it was, else the tokens of a response.
  abbrev pub Renews : Session → (Result Unit × Session) × S → Type 0
  Renews s r =
      ((e : RestError) × (r.0.0 ≡ err e) × (r.0.1 ≡ s))
      ⊎ ((a : AuthResponse) × (t : ℕ) × (r.0.0 ≡ ok tt) × (r.0.1 ≡ renewed a t s))

  renew_from-Renews :
      (s : Session) (r : Reply AuthResponse) (t : ℕ) (w : S) → Renews s (renew_from s r t, w)
  unfolding renew_from
  renew_from-Renews s request_failed t w = inl (_, refl, refl)
  renew_from-Renews s (status code body) t w = elim (Bool-cases (eqb code 404)) [
    | inl gone ↦ rw (gone) (inl (_, refl, refl))
    | inr found ↦ elim (Bool-cases (ltb 299 code || ltb code 200)) [
      | inl bad ↦ rw (found, bad) (inl (_, refl, refl))
      | inr good ↦ elim (Option-cases body) [
        | inl undecoded ↦ rw (found, good, undecoded) (inl (_, refl, refl))
        | inr (a, decoded) ↦ rw (found, good, decoded) (inr (a, t, refl, refl))
      ]
    ]
  ]

  -- An authorization that fails changes nothing of the session but a refresh token that was empty,
  -- and one that succeeds replaces both tokens and their time by those of one response.
  pub authorize-Renews :
      (cli : String) (s : Session) (w : S) → Renews (seed cli s) (authorize refresh cli s w)
  unfolding authorize renew_session
  authorize-Renews cli s w =
      let s' = seed cli s in
      elim (Bool-cases (s'.refresh_token == "")) [
        | inl empty ↦ rw (empty) (inl (no_auth_token, refl, refl))
        | inr given ↦ rw (given) (
            renew_from-Renews s' (refresh w s'.refresh_token).0.0 (refresh w s'.refresh_token).0.1
              (refresh w s'.refresh_token).1)
      ]

  module _ {D : Type 0} (fetch : S → String → Reply D × S) where
    -- What is returned is the body of a 200 reply to a request with the session's token.
    Sound : (Result D × Session) × S → Type 0
    Sound r =
        (d : D)
        → r.0.0 ≡ ok d
        → (r.0.1.auth_token ≢ "") × ((w : S) × ((fetch w r.0.1.auth_token).0 ≡ status 200 (some d)))

    retry-Sound :
        (a : (Result Unit × Session) × S) (again : Session → S → (Result D × Session) × S)
        → ((s : Session) (w : S) → Sound (again s w))
        → Sound (retry a again)
    unfolding retry Sound
    retry-Sound ((err e, s), w) again h d returns = cc
    retry-Sound ((ok u, s), w) again h d returns = h s w d returns

    fetched-Sound :
        (cli : String) (s : Session) (again : Session → S → (Result D × Session) × S) (w : S)
        (r : Reply D × S)
        → ((s : Session) (w : S) → Sound (again s w))
        → s.auth_token ≢ ""
        → fetch w s.auth_token ≡ r
        → Sound (fetched refresh fetch cli s again r)
    unfolding fetched Sound
    fetched-Sound cli s again w (request_failed, w') h given replied = λ d returns. cc
    fetched-Sound cli s again w (status code body, w') h given replied =
        elim (Bool-cases (eqb code 401)) [
          | inl expired ↦ rw (fetched, expired) (retry-Sound (authorize refresh cli s w') again h)
          | inr accepted ↦ elim (Bool-cases (eqb code 200)) [
            | inr other ↦ rw (fetched, accepted, other) (λ d returns. cc)
            | inl fine ↦ elim (Option-cases body) [
              | inl undecoded ↦ rw (fetched, accepted, fine, undecoded) (λ d returns. cc)
              | inr (b, decoded) ↦
                  rw (fetched, accepted, fine, decoded)
                    (λ d returns. (given, (w, (let c = (eqb_iff code 200).0 fine in cc))))
            ]
          ]
        ]

    fetch_attempts-Sound :
        (n : ℕ) (cli : String) (s : Session) (w : S)
        → Sound (fetch_attempts refresh fetch n cli s w)
    unfolding fetch_attempts Sound
    fetch_attempts-Sound zero cli s w = λ d returns. cc
    fetch_attempts-Sound (suc n) cli s w = elim (Bool-cases (s.auth_token == "")) [
      | inl empty ↦
          rw (fetch_attempts, empty)
            (retry-Sound (authorize refresh cli s w) _ (fetch_attempts-Sound n cli))
      | inr given ↦
          rw (fetch_attempts, given)
            (fetched-Sound cli s _ w (fetch w s.auth_token) (fetch_attempts-Sound n cli)
              (λ e. let t = (String_eq.beq_iff s.auth_token "").1 e in cc) refl)
    ]

    -- What is returned without an error is the body of a 200 reply to a request with the token,
    -- not empty, of the session that is left.
    pub fetch_authorized-ok :
        (cli : String) (s : Session) (w : S) (d : D)
        → (fetch_authorized refresh fetch cli s w).0.0 ≡ ok d
        → ((fetch_authorized refresh fetch cli s w).0.1.auth_token ≢ "")
          × ((w' : S) × ((fetch w' (fetch_authorized refresh fetch cli s w).0.1.auth_token).0
                ≡ status 200 (some d)))
    unfolding fetch_authorized Sound
    fetch_authorized-ok cli s w = fetch_attempts-Sound 2 cli s w

    attempts-empty :
        (n : ℕ) (cli : String) (s s' : Session) (w w' : S)
        → s.auth_token ≡ ""
        → authorize refresh cli s w ≡ ((ok tt, s'), w')
        → fetch_attempts refresh fetch (suc n) cli s w ≡ fetch_attempts refresh fetch n cli s' w'
    unfolding fetch_attempts retry
    attempts-empty n cli s s' w w' empty renewal =
        let b = (String_eq.beq_iff s.auth_token "").1 empty in rw (fetch_attempts, b, renewal)

    attempts-refused :
        (n : ℕ) (cli : String) (s s' : Session) (w w₁ w' : S) (body : Option D)
        → s.auth_token ≢ ""
        → fetch w s.auth_token ≡ (status 401 body, w₁)
        → authorize refresh cli s w₁ ≡ ((ok tt, s'), w')
        → fetch_attempts refresh fetch (suc n) cli s w ≡ fetch_attempts refresh fetch n cli s' w'
    unfolding fetch_attempts fetched retry
    attempts-refused n cli s s' w w₁ w' body given refused renewal =
        rw (fetch_attempts, beq-eq-false _ "" given, refused, renewal)

    authorize-gives :
        (cli : String) (s : Session) (w w' : S) (a : AuthResponse) (t : ℕ)
        → (seed cli s).refresh_token ≢ ""
        → refresh w (seed cli s).refresh_token ≡ ((status 200 (some a), t), w')
        → authorize refresh cli s w ≡ ((ok tt, renewed a t (seed cli s)), w')
    unfolding authorize renew_session renew_from
    authorize-gives cli s w w' a t held renewal = rw (beq-eq-false _ "" held, renewal)

    attempts-gives :
        (n : ℕ) (cli : String) (s : Session) (w w' : S) (d : D)
        → s.auth_token ≢ ""
        → fetch w s.auth_token ≡ (status 200 (some d), w')
        → fetch_attempts refresh fetch (suc n) cli s w ≡ ((ok d, s), w')
    unfolding fetch_attempts fetched
    attempts-gives n cli s w w' d given reply = rw (beq-eq-false _ "" given, reply)

    -- Where the refresh endpoint gives tokens of which the first is not empty, and then a request
    -- with it gives a body with status 200, the two attempts return that body, whether the
    -- session had no token or one that a 401 refused; the session needs a refresh token, of its
    -- own or from the command line.
    pub fetch_authorized-renews :
        (cli : String) (s : Session) (w w₁ w₂ w₃ : S) (a : AuthResponse) (t : ℕ) (body : Option D)
        (d : D)
        → (seed cli s).refresh_token ≢ ""
        → ((s.auth_token ≡ "") × (w ≡ w₁))
          ⊎ ((s.auth_token ≢ "") × (fetch w s.auth_token ≡ (status 401 body, w₁)))
        → refresh w₁ (seed cli s).refresh_token ≡ ((status 200 (some a), t), w₂)
        → a.access_token ≢ ""
        → fetch w₂ a.access_token ≡ (status 200 (some d), w₃)
        → fetch_authorized refresh fetch cli s w ≡ ((ok d, renewed a t (seed cli s)), w₃)
    unfolding fetch_authorized
    fetch_authorized-renews cli s w w₁ w₂ w₃ a t body d held expired renewal fresh reply =
        let gives = authorize-gives cli s w₁ w₂ a t held renewal in
        let then_fetch = attempts-gives 0 cli (renewed a t (seed cli s)) w₂ w₃ d fresh reply in
        elim expired [
          | inl (empty, here) ↦
              attempts-empty 1 cli s (renewed a t (seed cli s)) w w₂ empty (rw here gives)
              ∙ then_fetch
          | inr (given, refused) ↦
              attempts-refused 1 cli s (renewed a t (seed cli s)) w w₁ w₂ body given refused gives
              ∙ then_fetch
        ]
