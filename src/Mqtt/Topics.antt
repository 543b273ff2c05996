-- ===== src/Mqtt/Topics.antt =====
-- pkg/mqtt/mqtt.go and discovery.go: the topics of a baby, and how a command topic is taken apart.
-- A text that is taken apart is the list of its code points.
pub mod RoundTrip
use Prim.Native.String.{◌++◌ as ◌⧺◌}
use nanit_onvif.Prelude.{
  ℕ, ◌-◌, Bool, true, false, ◌&&◌, Option, none, some, String, List, [], ◌∷◌, length, get_elem?,
  ltb, eqb, if◌then◌else◌, Text, codes, eqb_text,
}

abbrev pub slash : ℕ
slash = b'/'

-- `stateTopic` and `commandTopic`, and the topic that `publish` writes to.
abbrev pub state_topic : String → String → String → String
state_topic prefix uid key = ◌⧺◌ prefix (◌⧺◌ "/babies/" (◌⧺◌ uid (◌⧺◌ "/" key)))

abbrev pub command_topic : String → String → String → String
command_topic prefix uid key = ◌⧺◌ prefix (◌⧺◌ "/babies/" (◌⧺◌ uid (◌⧺◌ "/set/" key)))

abbrev cons_head : ℕ → List Text → List Text
cons_head c [] = (c ∷ []) ∷ []
cons_head c (w ∷ ws) = (c ∷ w) ∷ ws

-- `strings.Split(topic, "/")`
unfoldable pub split : Text → List Text
split [] = [] ∷ []
split (c ∷ cs) = let rest = split cs in if eqb c slash then [] ∷ rest else cons_head c rest

abbrev is_part : List Text → ℕ → Text → Bool
is_part parts i w = elim (get_elem? parts i) [ none ↦ false | some p ↦ eqb_text p w ]

abbrev pair_of {ℓ} : {A : Type ℓ} → Option A → Option A → Option (A × A)
pair_of (some a) (some b) = some (a, b)
pair_of _ _ = none

-- The handler of the command subscription: the UID and the field of a topic, or `none` where it
-- returns early.
unfoldable pub parse_command : Text → Option (Text × Text)
unfolding split
parse_command topic =
    let parts = split topic in
    let n = length parts in
    if ltb n 5
    then none
    else (if is_part parts (n - 4) (codes "babies") && is_part parts (n - 2) (codes "set")
        then pair_of (get_elem? parts (n - 3)) (get_elem? parts (n - 1))
        else none)
