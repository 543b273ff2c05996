-- ===== src/Onvif/Durations.antt =====
-- pkg/onvif/events.go: parseISODuration, and fmt.Sscanf as it is used there. A duration is the 64 bits
-- of an int64. Arithmetic on floats is a parameter.
pub mod RoundTrip
use nanit_onvif.Prelude.{
  ℕ, suc, ◌+◌, ◌-◌, ◌*◌, ◌^◌, ◌%◌, Bool, true, false, not, ◌&&◌, ◌||◌, Option, none, some, List, [],
  ◌∷◌, ◌++◌, leb, ltb, eqb, if◌then◌else◌, Text, codes,
}

abbrev pub is_digit : ℕ → Bool
is_digit c = leb b'0' c && leb c b'9'

-- The digits that a text begins with, and what follows them.
unfoldable pub digits : Text → Text
digits [] = []
digits (c ∷ cs) = let rest = digits cs in if is_digit c then c ∷ rest else []

unfoldable pub after_digits : Text → Text
after_digits [] = []
after_digits (c ∷ cs) = let rest = after_digits cs in if is_digit c then rest else c ∷ cs

abbrev pub is_empty : Text → Bool
is_empty [] = true
is_empty (c ∷ cs) = false

-- A group `(?:(\d+)X)?`: its digits, none where the group is not there, and what follows.
unfoldable pub group : ℕ → Text → Option Text × Text
group unit t = if is_empty (digits t) then (none, t) else elim (after_digits t) [
  | [] ↦ (none, t)
  | c ∷ cs ↦ if eqb c unit then (some (digits t), cs) else (none, t)
]

-- `(?:\.\d+)?`: the fraction, with its point.
unfoldable pub fraction : Text → Text × Text
fraction [] = ([], [])
fraction (c ∷ cs) =
    if eqb c b'.' && not (is_empty (digits cs))
    then (c ∷ digits cs, after_digits cs)
    else ([], c ∷ cs)

-- `(?:(\d+(?:\.\d+)?)S)?`
unfoldable pub seconds_group : Text → Option Text × Text
seconds_group t =
    if is_empty (digits t)
    then (none, t)
    else let f : Text × Text = fraction (after_digits t) in
      elim f.1 [
        | [] ↦ (none, t)
        | c ∷ cs ↦ if eqb c b'S' then (some (digits t ++ f.0), cs) else (none, t)
      ]

-- `unicode.IsSpace`
abbrev pub is_space : ℕ → Bool
is_space c =
    (leb 9 c && leb c 13)
    || (eqb c 32
        || (eqb c 0x85
            || (eqb c 0xa0
                || (eqb c 0x1680
                    || ((leb 0x2000 c && leb c 0x200a)
                        || (eqb c 0x2028
                            || (eqb c 0x2029
                                || (eqb c 0x202f || (eqb c 0x205f || eqb c 0x3000)))))))))

unfoldable pub trim_left : Text → Text
trim_left [] = []
trim_left (c ∷ cs) = let rest = trim_left cs in if is_space c then rest else c ∷ cs

unfoldable pub trim_right : Text → Text
trim_right [] = []
trim_right (c ∷ cs) =
    let rest = trim_right cs in if is_space c && is_empty rest then [] else c ∷ rest

-- `strings.TrimSpace`
unfoldable pub trim_space : Text → Text
unfolding trim_left trim_right
trim_space t = trim_right (trim_left t)

pub record Parts : Type 0 where
  pub hours : Option Text
  pub minutes : Option Text
  pub seconds : Option Text

-- `isoDurationRX`: the groups, where the whole text matches.
unfoldable pub match_duration : Text → Option Parts
match_duration (p ∷ t ∷ rest) =
    let h : Option Text × Text = group b'H' rest in
    let m : Option Text × Text = group b'M' h.1 in
    let s : Option Text × Text = seconds_group m.1 in
    if (eqb p b'P' && eqb t b'T') && is_empty s.1
    then some (record { hours = h.0; minutes = m.0; seconds = s.0 })
    else none
match_duration _ = none

unfoldable pub value_from : ℕ → Text → ℕ
value_from n [] = n
value_from n (c ∷ cs) = value_from (10 * n + (c - b'0')) cs

abbrev pub value : Text → ℕ
value t = value_from 0 t

-- `fmt.Sscanf(m, "%d", &n)` on digits: past the range of an int64, n keeps what it was.
unfoldable pub scan_digits : ℕ → Text → ℕ
unfolding value_from
scan_digits n t = if ltb (value t) (2 ^ 63) then value t else n

abbrev pub u64 : ℕ
u64 = 2 ^ 64

abbrev pub second : ℕ
second = 1_000_000_000

abbrev pub scanned : ℕ → Option Text → ℕ
scanned n none = n
scanned n (some t) = scan_digits n t

abbrev pub product_if : Option Text → ℕ → ℕ → ℕ
product_if none n u = 0
product_if (some t) n u = n * u % u64

abbrev pub fraction_if : (Text → ℕ) → Option Text → ℕ
fraction_if float none = 0
fraction_if float (some t) = float t % u64

-- `parseISODuration`, where `float` reads seconds with a fraction as a duration; none for the error.
-- The minutes are scanned into the variable that holds the hours.
unfoldable pub parse_iso_duration : (Text → ℕ) → Text → Option ℕ
parse_iso_duration float s = elim (match_duration (trim_space s)) [
  | none ↦ none
  | some m ↦
      let hours : ℕ = scanned 0 m.hours in
      let minutes : ℕ = scanned hours m.minutes in
      some (
        (product_if m.hours hours (3600 * second)
          + product_if m.minutes minutes (60 * second)
          + fraction_if float m.seconds)
        % u64)
]
