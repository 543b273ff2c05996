-- ===== src/Mqtt/Topics/RoundTrip.antt =====
-- A command topic built for a baby and a field is taken apart into the two again.

use nanit_onvif.Prelude.{
  ℕ, suc, ◌+◌, ◌-◌, ◌<◌, ◌≡◌, refl, ap, ap₂, ◌∙◌, Bool, true, ◌&&◌, not, none, some, String, List,
  [], ◌∷◌, ◌++◌, length, length-append, get_elem?, eqb, if◌then◌else◌, Bool-cases, inl, inr, arith,
  Text, codes, codes-append, eqb_text,
}
use nanit_onvif.Mqtt.Topics.{slash, command_topic, cons_head, split, parse_command}

split_some : (xs : Text) → (w : Text) × (ws : List Text) × (split xs ≡ w ∷ ws)
unfolding split
split_some [] = ([], [], refl)
split_some (c ∷ xs) = elim (Bool-cases (eqb c slash)) [
  | inl e ↦ ([], split xs, rw e)
  | inr e ↦ let (w, ws, h) = split_some xs in (c ∷ w, ws, rw (e, h))
]

-- The parts of a text with a slash in it are those before it and those behind it.
split-append : (xs ys : Text) → split (xs ++ (slash ∷ ys)) ≡ split xs ++ split ys
unfolding split
split-append [] ys = refl
split-append (c ∷ xs) ys = elim (Bool-cases (eqb c slash)) [
  | inl e ↦ rw e (ap (λ r. [] ∷ r) (split-append xs ys))
  | inr e ↦ let (w, ws, h) = split_some xs in rw e (ap (cons_head c) (split-append xs ys) ∙ rw h)
]

abbrev pub has_no_slash : Text → Bool
has_no_slash [] = true
has_no_slash (c ∷ cs) = not (eqb c slash) && has_no_slash cs

split_word : (w : Text) → has_no_slash w ≡ true → split w ≡ w ∷ []
unfolding split
split_word [] h = refl
split_word (c ∷ cs) h = ground (arith, split_word cs)

get_elem?-append {ℓ} :
    {A : Type ℓ} (xs ys : List A) (i : ℕ) → get_elem? (xs ++ ys) (length xs + i) ≡ get_elem? ys i
get_elem?-append [] ys i = ap (get_elem? ys) (omega arith)
get_elem?-append (x ∷ xs) ys i =
    let e : suc (length xs) + i ≡ suc (length xs + i) = omega arith in
    ap (get_elem? (x ∷ (xs ++ ys))) e ∙ get_elem?-append xs ys i

-- The four last of a list of parts.
last_four :
    (pre : List Text) (a u b k : Text)
    → let parts = pre ++ (a ∷ u ∷ b ∷ k ∷ []) in
      (get_elem? parts (length parts - 4) ≡ some a)
      × (get_elem? parts (length parts - 3) ≡ some u)
      × (get_elem? parts (length parts - 2) ≡ some b)
      × (get_elem? parts (length parts - 1) ≡ some k)
last_four pre a u b k = (at 0 4 refl, at 1 3 refl, at 2 2 refl, at 3 1 refl)
  where
    tail4 : List Text
    tail4 = a ∷ u ∷ b ∷ k ∷ []

    at :
        (i j : ℕ)
        → i + j ≡ 4
        → get_elem? (pre ++ tail4) (length (pre ++ tail4) - j) ≡ get_elem? tail4 i
    at i j e =
        let here : length (pre ++ tail4) - j ≡ length pre + i =
          omega (arith, length-append pre tail4) in
        ap (get_elem? (pre ++ tail4)) here ∙ get_elem?-append pre tail4 i

-- Where there are more than four parts, the last four decide what becomes of a topic.
parse_parts :
    (topic : Text) (pre : List Text) (a u b k : Text)
    → split topic ≡ pre ++ (a ∷ u ∷ b ∷ k ∷ [])
    → 0 < length pre
    → parse_command topic
      ≡ (if eqb_text a (codes "babies") && eqb_text b (codes "set") then some (u, k) else none)
unfolding parse_command
parse_parts topic pre a u b k h pos =
    let (pa, pu, pb, pk) = last_four pre a u b k in
    let n = length-append pre (a ∷ u ∷ b ∷ k ∷ []) in rw h (ground (arith, n, pa, pu, pb, pk))

-- The four parts of a command topic behind its prefix.
split-command_topic :
    (prefix uid key : String)
    → has_no_slash (codes uid) ≡ true
    → has_no_slash (codes key) ≡ true
    → split (codes (command_topic prefix uid key))
      ≡ split (codes prefix) ++ (codes "babies" ∷ codes uid ∷ codes "set" ∷ codes key ∷ [])
split-command_topic prefix uid key hu hk =
    ap split (
      codes-append prefix _
      ∙ ap (λ r. codes prefix ++ r)
          (codes-append "/babies/" _
            ∙ ap (λ r. codes "/babies/" ++ r)
                (codes-append uid _ ∙ ap (λ r. codes uid ++ r) (codes-append "/set/" key))))
    ∙ split-append (codes prefix) _
    ∙ ap (λ r. split (codes prefix) ++ r)
        (split-append (codes "babies") _
          ∙ ap₂ ◌++◌ (split_word (codes "babies") refl) (
              split-append (codes uid) _
              ∙ ap₂ ◌++◌ (split_word (codes uid) hu) (
                  split-append (codes "set") (codes key)
                  ∙ ap₂ ◌++◌ (split_word (codes "set") refl) (split_word (codes key) hk))))

-- The topic on which a field of a baby is commanded comes back as the UID and the field, whatever
-- the prefix, slashes included, if neither the UID nor the field holds a slash.
pub parse_command-command_topic :
    (prefix uid key : String)
    → has_no_slash (codes uid) ≡ true
    → has_no_slash (codes key) ≡ true
    → parse_command (codes (command_topic prefix uid key)) ≡ some (codes uid, codes key)
parse_command-command_topic prefix uid key hu hk =
    let (w, ws, some_part) = split_some (codes prefix) in
    parse_parts (codes (command_topic prefix uid key)) (split (codes prefix)) (codes "babies")
      (codes uid) (codes "set") (codes key) (split-command_topic prefix uid key hu hk)
      (omega (arith, ap length some_part))
