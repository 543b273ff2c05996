-- ===== src/App/Commander/Routing.antt =====
-- Where a command goes, and what it asks for.
use nanit_onvif.Prelude.{
  ℕ, ℤ, ◌≡◌, inl, inr, Bool, true, false, Option, none, some, String, List, [], ◌∷◌, if◌then◌else◌,
  lookup, String_eq, ◌==◌, arith, Option-cases, All,
}
use nanit_onvif.App.Commander.{
  parse_bool, Request, put_night_light, put_mic_mute_on, put_sleep_mode, put_status_light_on,
  put_night_vision, BabyCommander, Commanders, Routed, sent, send, send_if, night_light_of,
  dispatch, handle_mqtt_command,
}

-- A result that sends only on the commander's own connection.
abbrev Through : BabyCommander → Routed → Type 0
Through c r = (k : ℕ) (req : Request) → r ≡ sent k req → c.conn ≡ some k

if_Through :
    (c : BabyCommander) (b : Bool) (x y : Routed)
    → Through c x
    → Through c y
    → Through c (if b then x else y)
if_Through c true x y p q = p
if_Through c false x y p q = q

send_if-Through {ℓ} :
    {A : Type ℓ} (c : BabyCommander) (f : A → Request) (o : Option A) → Through c (send_if c f o)
unfolding send_if send
send_if-Through c f none k req h = cc
send_if-Through c f (some v) k req h = ground arith

-- The switches of the control topics, with the request that each makes.
abbrev pub switches : List (String × (Bool → Request))
switches =
    ("night_light_on", λ on. put_night_light (night_light_of on))
    ∷ ("mic_mute_on", put_mic_mute_on)
    ∷ ("sleep_mode", put_sleep_mode)
    ∷ ("status_light_on", put_status_light_on)
    ∷ ("night_vision", put_night_vision)
    ∷ []

parse_bool-some :
    (lower_trim : String → String) (payload : String) (on : Bool)
    → lower_trim payload ≡ (if on then "true" else "false")
    → parse_bool lower_trim payload ≡ some on
unfolding parse_bool
parse_bool-some lower_trim payload true h = rw h
parse_bool-some lower_trim payload false h = rw h

module _ (lower_trim : String → String) (parse_int32 : String → Option ℤ) where
  dispatch-Through :
      (c : BabyCommander) (field payload : String)
      → Through c (dispatch lower_trim parse_int32 c field payload)
  unfolding dispatch
  dispatch-Through c field payload =
      let b = parse_bool lower_trim payload in
      let n = parse_int32 payload in
      if_Through c (field == "night_light_on") _ _ (send_if-Through c _ b) (
        if_Through c (field == "night_light_timeout") _ _ (send_if-Through c _ n) (
          if_Through c (field == "volume") _ _ (send_if-Through c _ n) (
            if_Through c (field == "mic_mute_on") _ _ (send_if-Through c _ b) (
              if_Through c (field == "sleep_mode") _ _ (send_if-Through c _ b) (
                if_Through c (field == "status_light_on") _ _ (send_if-Through c _ b) (
                  if_Through c (field == "night_vision") _ _ (send_if-Through c _ b)
                    (λ k req h. cc)))))))

  -- A command sends a request only where the baby has a commander with a connection, and then on
  -- that connection.
  pub handle_mqtt_command-conn :
      (m : Commanders) (uid field payload : String) (k : ℕ) (req : Request)
      → handle_mqtt_command lower_trim parse_int32 m uid field payload ≡ sent k req
      → (c : BabyCommander) × (lookup uid m ≡ some c) × (c.conn ≡ some k)
  unfolding handle_mqtt_command
  handle_mqtt_command-conn m uid field payload k req h = elim (Option-cases (lookup uid m)) [
    | inl unknown ↦ cc (rw (unknown, handle_mqtt_command) at h)
    | inr (c, known) ↦
        (c, known, dispatch-Through c field payload k req (rw (known, handle_mqtt_command) at h))
  ]

  -- On a connected baby, each switch turns its payloads `true` and `false`, in any spelling that
  -- lowering and trimming take to these, into its request.
  pub handle_mqtt_command-switches :
      (m : Commanders) (uid payload : String) (c : BabyCommander) (k : ℕ) (on : Bool)
      → lookup uid m ≡ some c
      → c.conn ≡ some k
      → lower_trim payload ≡ (if on then "true" else "false")
      → All
          (λ s. handle_mqtt_command lower_trim parse_int32 m uid s.0 payload ≡ sent k (s.1 on))
          switches
  unfolding handle_mqtt_command dispatch send_if send
  handle_mqtt_command-switches m uid payload c k on known conn spelled =
      let parsed = parse_bool-some lower_trim payload on spelled in
      (
        rw (known, handle_mqtt_command, parsed, conn),
        (
          rw (known, handle_mqtt_command, parsed, conn),
          (
            rw (known, handle_mqtt_command, parsed, conn),
            (
              rw (known, handle_mqtt_command, parsed, conn),
              (rw (known, handle_mqtt_command, parsed, conn), tt),
            ),
          ),
        ),
      )
