-- ===== src/Mqtt/Publisher/Discovery.antt =====
-- Which publications are announcements of a baby.
use nanit_onvif.Prelude.{
  Bool, true, false, ◌&&◌, Option, none, some, String, List, [], ◌∷◌, ◌++◌, map, if◌then◌else◌,
  ◌==◌, String_eq, ◌≡◌, refl, ap, ap₂, ◌∙◌, inl, inr, Bool-cases,
}
use nanit_onvif.Baby.State.{State, StreamState, unknown, unhealthy, alive}
use nanit_onvif.Baby.State.Fields.{Value, as_map}
use nanit_onvif.Mqtt.Discovery.{Entry, discovery_configs}
use nanit_onvif.Mqtt.Publisher.{
  Opts, Payload, config, Publication, configs, config_topic, values, stream_flag, availability,
  state_publications,
}

abbrev is_config : Payload → Bool
is_config (config e) = true
is_config _ = false

-- The announcements of one baby among what is published.
unfoldable pub configs_of : String → List Publication → List Publication
configs_of uid [] = []
configs_of uid (p ∷ ps) =
    if is_config p.payload && p.baby_uid == uid then p ∷ configs_of uid ps else configs_of uid ps

pub configs_of-append :
    (uid : String) (ps qs : List Publication)
    → configs_of uid (ps ++ qs) ≡ configs_of uid ps ++ configs_of uid qs
unfolding configs_of
configs_of-append uid [] qs = refl
configs_of-append uid (p ∷ ps) qs = elim (Bool-cases (is_config p.payload && p.baby_uid == uid)) [
  | inl mine ↦ rw (mine) (ap (λ l. p ∷ l) (configs_of-append uid ps qs))
  | inr other ↦ rw (other) (configs_of-append uid ps qs)
]

configs_of-values :
    (o : Opts) (uid v : String) (m : List (String × Value)) → configs_of uid (values o v m) ≡ []
unfolding configs_of
configs_of-values o uid v [] = refl
configs_of-values o uid v ((key, x) ∷ m) = configs_of-values o uid v m

configs_of-stream_flag :
    (o : Opts) (uid v : String) (s : Option StreamState) → configs_of uid (stream_flag o v s) ≡ []
unfolding configs_of
configs_of-stream_flag o uid v none = refl
configs_of-stream_flag o uid v (some unknown) = refl
configs_of-stream_flag o uid v (some unhealthy) = refl
configs_of-stream_flag o uid v (some alive) = refl

configs_of-availability :
    (o : Opts) (uid v : String) (b : Option Bool) → configs_of uid (availability o v b) ≡ []
unfolding configs_of
configs_of-availability o uid v none = refl
configs_of-availability o uid v (some b) = refl

pub configs_of-state :
    (o : Opts) (uid v : String) (s : State) → configs_of uid (state_publications o v s) ≡ []
unfolding state_publications
configs_of-state o uid v s =
    configs_of-append uid (values o v (as_map s false))
      (stream_flag o v s.stream_state ++ availability o v s.is_websocket_alive)
    ∙ ap₂ ◌++◌ (configs_of-values o uid v (as_map s false)) (
        configs_of-append uid (stream_flag o v s.stream_state)
          (availability o v s.is_websocket_alive)
        ∙ ap₂ ◌++◌ (configs_of-stream_flag o uid v s.stream_state)
            (configs_of-availability o uid v s.is_websocket_alive))

module _ (o : Opts) (mac : String → String) (uid v : String) where
  abbrev announcement : Entry → Publication
  announcement e = record { topic = config_topic o v e; baby_uid = v; payload = config e }

  announced-own :
      (es : List Entry)
      → (v == uid) ≡ true
      → configs_of uid (map announcement es) ≡ map announcement es
  unfolding configs_of
  announced-own [] h = refl
  announced-own (e ∷ es) h = rw (h) (ap (λ l. announcement e ∷ l) (announced-own es h))

  announced-other :
      (es : List Entry) → (v == uid) ≡ false → configs_of uid (map announcement es) ≡ []
  unfolding configs_of
  announced-other [] h = refl
  announced-other (e ∷ es) h = rw (h) (announced-other es h)

  pub configs-own :
      (name : String)
      → (v == uid) ≡ true
      → configs_of uid (configs o mac v name) ≡ configs o mac v name
  unfolding configs
  configs-own name h = announced-own (discovery_configs o.topic_prefix v name (mac v) o.commands) h

  pub configs-other :
      (name : String) → (v == uid) ≡ false → configs_of uid (configs o mac v name) ≡ []
  unfolding configs
  configs-other name h =
      announced-other (discovery_configs o.topic_prefix v name (mac v) o.commands) h
