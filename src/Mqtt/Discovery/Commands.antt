-- ===== src/Mqtt/Discovery/Commands.antt =====
-- The commands that the entities offer against those that the application handles.
use nanit_onvif.Prelude.{
  codes, ℕ, ℤ, ◌≡◌, refl, ◌≢◌, ◌⊎◌, inl, inr, true, false, Option, none, some, String, String_eq,
  All,
}
use nanit_onvif.App.Commander.{
  Request, BabyCommander, unsupported_field, not_connected, sent, dispatch, send_if, parse_bool,
}
use nanit_onvif.Mqtt.Topics.{command_topic, parse_command}
use nanit_onvif.Mqtt.Topics.RoundTrip.{has_no_slash, parse_command-command_topic}
use nanit_onvif.Mqtt.Discovery.{Entry, discovery_configs}

-- A field for which the commander has a branch: no payload makes it report an unsupported field.
abbrev pub IsHandled : String → Type 0
IsHandled field =
    (lower_trim : String → String) (parse_int32 : String → Option ℤ) (c : BabyCommander)
    (payload : String)
    → dispatch lower_trim parse_int32 c field payload ≢ unsupported_field

send_if-handled {ℓ} :
    {A : Type ℓ} (c : BabyCommander) (req : A → Request) (o : Option A)
    → send_if c req o ≢ unsupported_field
unfolding send_if
send_if-handled c req none = λ e. cc
send_if-handled c req (some v) = sent_or_not c.conn (req v)
  where
    sent_or_not :
        (conn : Option ℕ) (r : Request)
        → (elim conn [ none ↦ not_connected | some k ↦ sent k r ]) ≢ unsupported_field
    sent_or_not none r = λ e. cc
    sent_or_not (some k) r = λ e. cc

-- An entity without a command, or one whose command topic names the baby and its own field, for
-- which the commander has a branch.
abbrev pub IsRouted : String → String → Entry → Type 0
IsRouted prefix uid e =
    (e.entity.command_topic ≡ "")
    ⊎ ((e.entity.command_topic ≡ command_topic prefix uid e.object_id)
        × (parse_command (codes e.entity.command_topic) ≡ some (codes uid, codes e.object_id))
        × IsHandled e.object_id)

routed :
    (prefix uid key : String)
    → has_no_slash (codes uid) ≡ true
    → has_no_slash (codes key) ≡ true
    → IsHandled key
    → (command_topic prefix uid key ≡ "")
      ⊎ ((command_topic prefix uid key ≡ command_topic prefix uid key)
          × (parse_command (codes (command_topic prefix uid key)) ≡ some (codes uid, codes key))
          × IsHandled key)
routed prefix uid key hu hk handled =
    inr (refl, parse_command-command_topic prefix uid key hu hk, handled)

-- Where commands are on, every entity announced either offers no command, or offers it on a topic
-- that the command handler takes apart into this baby's UID and the entity's field, and that field
-- is one that the commander handles.
pub discovery_configs-IsRouted :
    (prefix uid name mac : String)
    → has_no_slash (codes uid) ≡ true
    → All (IsRouted prefix uid) (discovery_configs prefix uid name mac true)
unfolding discovery_configs dispatch
discovery_configs-IsRouted prefix uid name mac hu =
    let r = routed prefix uid in
    (
      inl refl,
      (
        inl refl,
        (
          inl refl,
          (
            inl refl,
            (
              inl refl,
              (
                inl refl,
                (
                  r "night_light_on" hu refl (λ l p c t. send_if-handled c _ (parse_bool l t)),
                  (
                    r "night_vision" hu refl (λ l p c t. send_if-handled c _ (parse_bool l t)),
                    (
                      r "sleep_mode" hu refl (λ l p c t. send_if-handled c _ (parse_bool l t)),
                      (
                        r "status_light_on" hu refl
                            (λ l p c t. send_if-handled c _ (parse_bool l t)),
                        (
                          r "mic_mute_on" hu refl (λ l p c t. send_if-handled c _ (parse_bool l t)),
                          (
                            inl refl,
                            (
                              r "volume" hu refl (λ l p c t. send_if-handled c _ (p t)),
                              (
                                r "night_light_timeout" hu refl
                                    (λ l p c t. send_if-handled c _ (p t)),
                                (inl refl, (inl refl, (inl refl, tt))),
                              ),
                            ),
                          ),
                        ),
                      ),
                    ),
                  ),
                ),
              ),
            ),
          ),
        ),
      ),
    )

-- Where commands are off, no entity offers one.
pub discovery_configs-read_only :
    (prefix uid name mac : String)
    → All (λ e. e.entity.command_topic ≡ "") (discovery_configs prefix uid name mac false)
unfolding discovery_configs
discovery_configs-read_only prefix uid name mac = (
  refl,
  (
    refl,
    (
      refl,
      (
        refl,
        (
          refl,
          (
            refl,
            (
              refl,
              (refl, (refl, (refl, (refl, (refl, (refl, (refl, (refl, (refl, (refl, tt)))))))))),
            ),
          ),
        ),
      ),
    ),
  ),
)
