-- ===== src/Mqtt/Publisher/Once.antt =====
-- Home Assistant learns of a baby once.
use nanit_onvif.Prelude.{
  Bool, true, false, not, ◌&&◌, Option, none, some, String, List, [], ◌∷◌, ◌++◌, if◌then◌else◌,
  ◌==◌, String_eq, ◌≡◌, refl, sym, ap, ◌∙◌, inl, inr, Bool-cases, Option-cases, beq_refl,
  append-nil,
}
use nanit_onvif.Client.Session.{Baby}
use nanit_onvif.Mqtt.Publisher.{
  Opts, Publication, baby_name, contains, configs, maybe_publish_discovery, state_publications,
  Event, on_state, publish_all,
}
use nanit_onvif.Mqtt.Publisher.Discovery.{
  configs_of, configs_of-append, configs_of-state, configs-own, configs-other,
}

-- The name that a baby has when it is first updated with a name.
pub first_name : String → List Event → Option String
first_name uid [] = none
first_name uid (e ∷ es) =
    if e.baby_uid == uid
    then (elim (baby_name e.babies uid) [ none ↦ first_name uid es | some name ↦ some name ])
    else first_name uid es

-- What is due for a baby that is not announced yet.
abbrev pub due : Opts → (String → String) → String → Bool → Option String → List Publication
due o mac uid false name = []
due o mac uid true none = []
due o mac uid true (some name) = configs o mac uid name

abbrev open_for : Opts → List String → String → Bool
open_for o discovered uid = o.ha_discovery && not (contains discovered uid)

module _ (o : Opts) (mac : String → String) (uid : String) (babies : Option (List Baby))
    (discovered : List String) where
  -- Another baby's update.
  apart :
      (v : String)
      → (v == uid) ≡ false
      → (configs_of uid (maybe_publish_discovery o mac babies v discovered).1 ≡ [])
        × (contains (maybe_publish_discovery o mac babies v discovered).0 uid
            ≡ contains discovered uid)
  unfolding maybe_publish_discovery contains configs_of
  apart v other = elim (Bool-cases (open_for o discovered v)) [
    | inr shut ↦ rw (maybe_publish_discovery, shut) (refl, refl)
    | inl free ↦ elim (Option-cases (baby_name babies v)) [
      | inl unnamed ↦ rw (maybe_publish_discovery, free, unnamed) (refl, refl)
      | inr (name, named) ↦
          rw (maybe_publish_discovery, free, named, contains, other)
            (configs-other o mac uid v name other, refl)
    ]
  ]

  shut_for :
      open_for o discovered uid ≡ false
      → maybe_publish_discovery o mac babies uid discovered ≡ (discovered, [])
  unfolding maybe_publish_discovery
  shut_for shut = rw (maybe_publish_discovery, shut) refl

  unnamed_for :
      baby_name babies uid ≡ none
      → maybe_publish_discovery o mac babies uid discovered ≡ (discovered, [])
  unfolding maybe_publish_discovery
  unnamed_for unnamed = elim (Bool-cases (open_for o discovered uid)) [
    | inr shut ↦ rw (maybe_publish_discovery, shut) refl
    | inl free ↦ rw (maybe_publish_discovery, free, unnamed) refl
  ]

  named_for :
      (name : String)
      → open_for o discovered uid ≡ true
      → baby_name babies uid ≡ some name
      → maybe_publish_discovery o mac babies uid discovered
        ≡ (uid ∷ discovered, configs o mac uid name)
  unfolding maybe_publish_discovery
  named_for name free named = rw (maybe_publish_discovery, free, named) refl

published :
    (o : Opts) (mac : String → String) (uid : String) (e : Event) (es : List Event)
    (discovered : List String)
    → configs_of uid (publish_all o mac (e ∷ es) discovered)
      ≡ configs_of uid (maybe_publish_discovery o mac e.babies e.baby_uid discovered).1
        ++ configs_of uid
            (publish_all o mac es (maybe_publish_discovery o mac e.babies e.baby_uid discovered).0)
unfolding publish_all on_state
published o mac uid e es discovered =
    configs_of-append uid
      ((maybe_publish_discovery o mac e.babies e.baby_uid discovered).1
        ++ state_publications o e.baby_uid e.state)
      (publish_all o mac es (maybe_publish_discovery o mac e.babies e.baby_uid discovered).0)
    ∙ ap
        (λ l.
          l
          ++ configs_of uid (
              publish_all o mac es
                (maybe_publish_discovery o mac e.babies e.baby_uid discovered).0))
        (configs_of-append uid (maybe_publish_discovery o mac e.babies e.baby_uid discovered).1
            (state_publications o e.baby_uid e.state)
          ∙ ap
              (λ l.
                configs_of uid (maybe_publish_discovery o mac e.babies e.baby_uid discovered).1
                ++ l)
              (configs_of-state o uid e.baby_uid e.state)
          ∙ append-nil
              (configs_of uid (maybe_publish_discovery o mac e.babies e.baby_uid discovered).1))

due-none : (o : Opts) (mac : String → String) (uid : String) (b : Bool) → due o mac uid b none ≡ []
due-none o mac uid true = refl
due-none o mac uid false = refl

and_false : (b : Bool) → b && false ≡ false
and_false true = refl
and_false false = refl

module _ (o : Opts) (mac : String → String) (uid : String) (n : Option String)
    (f : List String → List Publication) where
  -- The update of this baby, where what follows announces what is still due.
  own_update :
      (babies : Option (List Baby)) (discovered : List String)
      → ((d : List String) → f d ≡ due o mac uid (open_for o d uid) n)
      → configs_of uid (maybe_publish_discovery o mac babies uid discovered).1
          ++ f (maybe_publish_discovery o mac babies uid discovered).0
        ≡ due o mac uid
            (open_for o discovered uid)
            (elim (baby_name babies uid) [ none ↦ n | some name ↦ some name ])
  unfolding configs_of contains
  own_update babies discovered later = elim (Bool-cases (open_for o discovered uid)) [
    | inr shut ↦
        rw (shut_for o mac uid babies discovered shut, shut) (later discovered ∙ rw shut refl)
    | inl free ↦ elim (Option-cases (baby_name babies uid)) [
      | inl unnamed ↦
          rw (unnamed_for o mac uid babies discovered unnamed, free, unnamed)
            (later discovered ∙ rw free refl)
      | inr (name, named) ↦
          rw
            (
              named_for o mac uid babies discovered name free named,
              free,
              named,
              configs-own o mac uid uid name (beq_refl uid),
            )
            (ap (λ l. configs o mac uid name ++ l)
                (later (uid ∷ discovered)
                  ∙ rw (contains, beq_refl uid, and_false o.ha_discovery) refl)
              ∙ append-nil (configs o mac uid name))
    ]
  ]

  one_update :
      (v : String) (babies : Option (List Baby)) (discovered : List String)
      → ((d : List String) → f d ≡ due o mac uid (open_for o d uid) n)
      → configs_of uid (maybe_publish_discovery o mac babies v discovered).1
          ++ f (maybe_publish_discovery o mac babies v discovered).0
        ≡ due o mac uid (open_for o discovered uid) (
            if v == uid
            then (elim (baby_name babies uid) [ none ↦ n | some name ↦ some name ])
            else n)
  one_update v babies discovered later = elim (Bool-cases (v == uid)) [
    | inl same ↦
        let e : v ≡ uid = (String_eq.beq_iff v uid).0 same in
        rw (e, beq_refl uid) (own_update babies discovered later)
    | inr other ↦
        let (none_here, same) = apart o mac uid babies discovered v other in
        rw (none_here, other)
          (later (maybe_publish_discovery o mac babies v discovered).0
            ∙ ap (λ b. due o mac uid (o.ha_discovery && not b) n) same)
  ]

announcements :
    (o : Opts) (mac : String → String) (uid : String) (es : List Event) (discovered : List String)
    → configs_of uid (publish_all o mac es discovered)
      ≡ due o mac uid (open_for o discovered uid) (first_name uid es)
unfolding first_name publish_all configs_of
announcements o mac uid [] discovered = sym (due-none o mac uid (open_for o discovered uid))
announcements o mac uid (e ∷ es) discovered =
    published o mac uid e es discovered
    ∙ one_update o mac uid (first_name uid es) (λ d. configs_of uid (publish_all o mac es d))
        e.baby_uid e.babies discovered (λ d. announcements o mac uid es d)

-- Where discovery is on, Home Assistant gets the announcements of a baby once, all of them and with
-- the name that the baby has when it is first updated under a known name; it gets none before, none
-- again, and none at all where discovery is off or no name becomes known.
pub publish_all-announces :
    (o : Opts) (mac : String → String) (uid : String) (es : List Event)
    → configs_of uid (publish_all o mac es []) ≡ due o mac uid o.ha_discovery (first_name uid es)
unfolding contains
publish_all-announces o mac uid es =
    announcements o mac uid es []
    ∙ ap (λ b. due o mac uid b (first_name uid es)) (and_true o.ha_discovery)
  where
    and_true : (b : Bool) → b && true ≡ b
    and_true true = refl
    and_true false = refl
