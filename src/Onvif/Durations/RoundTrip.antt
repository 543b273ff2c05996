-- ===== src/Onvif/Durations/RoundTrip.antt =====
-- pkg/onvif/events.go: durations that are written as a client writes them.
use nanit_onvif.Prelude.{
  ℕ, ◌+◌, ◌*◌, ◌^◌, ◌%◌, ◌<◌, ◌≤◌, true, false, Option, none, some, [], ◌∷◌, ◌++◌, ltb, eqb,
  eqb_iff, Text, codes, ◌≡◌, refl, sym, ap, ◌∙◌, arith, All, append-nil, append_assoc,
}
use nanit_onvif.Onvif.Durations.{
  is_digit, digits, after_digits, group, fraction, seconds_group, is_space, trim_left, trim_right,
  trim_space, match_duration, value, scan_digits, u64, second, scanned, product_if, fraction_if,
  parse_iso_duration,
}

abbrev pub IsDigits : Text → Type 0
IsDigits = All (λ c. is_digit c ≡ true)

abbrev IsVisible : Text → Type 0
IsVisible = All (λ c. is_space c ≡ false)

digits-append :
    (ds rest : Text) (c : ℕ)
    → IsDigits ds
    → is_digit c ≡ false
    → (digits (ds ++ c ∷ rest) ≡ ds) × (after_digits (ds ++ c ∷ rest) ≡ c ∷ rest)
unfolding digits after_digits
digits-append [] rest c h k = (rw k refl, rw k refl)
digits-append (d ∷ ds) rest c (here, later) k =
    let (e, f) = digits-append ds rest c later k in (rw (here) (ap (λ l. d ∷ l) e), rw (here) f)

-- Digits with their unit, and digits with another.
group-own :
    (unit d : ℕ) (ds rest : Text)
    → IsDigits (d ∷ ds)
    → is_digit unit ≡ false
    → group unit ((d ∷ ds) ++ unit ∷ rest) ≡ (some (d ∷ ds), rest)
unfolding group
group-own unit d ds rest h k =
    let (e, f) = digits-append (d ∷ ds) rest unit h k in
    rw (e, f, (eqb_iff unit unit).1 refl, e) refl

group-other :
    (unit c d : ℕ) (ds rest : Text)
    → IsDigits (d ∷ ds)
    → is_digit c ≡ false
    → eqb c unit ≡ false
    → group unit ((d ∷ ds) ++ c ∷ rest) ≡ (none, (d ∷ ds) ++ c ∷ rest)
unfolding group
group-other unit c d ds rest h k other =
    let (e, f) = digits-append (d ∷ ds) rest c h k in rw (e, f, other) refl

seconds_group-own :
    (d : ℕ) (ds rest : Text)
    → IsDigits (d ∷ ds)
    → seconds_group ((d ∷ ds) ++ b'S' ∷ rest) ≡ (some (d ∷ ds), rest)
unfolding seconds_group fraction
seconds_group-own d ds rest h =
    let (e, f) = digits-append (d ∷ ds) rest b'S' h refl in
    rw (e, f, e, f) (ap (λ l. (some (d ∷ l), rest)) (append-nil ds))

-- A part of a duration as a client writes it: digits and a unit, or nothing.
abbrev pub part : Option Text → ℕ → Text
part none unit = []
part (some ds) unit = ds ++ unit ∷ []

abbrev pub IsPart : Option Text → Type 0
IsPart none = Unit
IsPart (some []) = ⊥
IsPart (some (d ∷ ds)) = IsDigits (d ∷ ds)

abbrev pub iso_text : Option Text → Option Text → Option Text → Text
iso_text h m s = codes "PT" ++ (part h b'H' ++ (part m b'M' ++ part s b'S'))

group-H :
    (h m s : Option Text)
    → IsPart h
    → IsPart m
    → IsPart s
    → group b'H' (part h b'H' ++ (part m b'M' ++ part s b'S')) ≡ (h, part m b'M' ++ part s b'S')
unfolding group digits after_digits
group-H none none none ph pm ps = refl
group-H none none (some (d ∷ ds)) ph pm ps = group-other b'H' b'S' d ds [] ps refl refl
group-H none (some (d ∷ ds)) s ph pm ps =
    ap (λ (l : Text). group b'H' l) (append_assoc (d ∷ ds) (b'M' ∷ []) (part s b'S'))
    ∙ group-other b'H' b'M' d ds (part s b'S') pm refl refl
    ∙ ap (λ (l : Text). (none, l)) (sym (append_assoc (d ∷ ds) (b'M' ∷ []) (part s b'S')))
group-H (some (d ∷ ds)) m s ph pm ps =
    ap (λ (l : Text). group b'H' l) (append_assoc (d ∷ ds) (b'H' ∷ []) (part m b'M' ++ part s b'S'))
    ∙ group-own b'H' d ds (part m b'M' ++ part s b'S') ph refl
group-H (some []) m s ph pm ps = absurd ph
group-H none (some []) s ph pm ps = absurd pm
group-H none none (some []) ph pm ps = absurd ps

group-M :
    (m s : Option Text)
    → IsPart m
    → IsPart s
    → group b'M' (part m b'M' ++ part s b'S') ≡ (m, part s b'S')
unfolding group digits after_digits
group-M none none pm ps = refl
group-M none (some (d ∷ ds)) pm ps = group-other b'M' b'S' d ds [] ps refl refl
group-M (some (d ∷ ds)) s pm ps =
    ap (λ (l : Text). group b'M' l) (append_assoc (d ∷ ds) (b'M' ∷ []) (part s b'S'))
    ∙ group-own b'M' d ds (part s b'S') pm refl
group-M (some []) s pm ps = absurd pm
group-M none (some []) pm ps = absurd ps

group-S : (s : Option Text) → IsPart s → seconds_group (part s b'S') ≡ (s, [])
unfolding seconds_group digits after_digits
group-S none ps = refl
group-S (some (d ∷ ds)) ps = seconds_group-own d ds [] ps
group-S (some []) ps = absurd ps

match-iso_text :
    (h m s : Option Text)
    → IsPart h
    → IsPart m
    → IsPart s
    → match_duration (iso_text h m s) ≡ some (record { hours = h; minutes = m; seconds = s })
unfolding match_duration
match-iso_text h m s ph pm ps = rw (group-H h m s ph pm ps, group-M m s pm ps, group-S s ps) refl

IsVisible-append : (s t : Text) → IsVisible s → IsVisible t → IsVisible (s ++ t)
IsVisible-append [] t h k = k
IsVisible-append (c ∷ s) t (here, later) k = (here, IsVisible-append s t later k)

digit-visible : (c : ℕ) → is_digit c ≡ true → is_space c ≡ false
digit-visible c h = ground arith

digits-IsVisible : (ds : Text) → IsDigits ds → IsVisible ds
digits-IsVisible [] h = tt
digits-IsVisible (d ∷ ds) (here, later) = (digit-visible d here, digits-IsVisible ds later)

part-IsVisible :
    (o : Option Text) (unit : ℕ) → IsPart o → is_space unit ≡ false → IsVisible (part o unit)
part-IsVisible none unit h k = tt
part-IsVisible (some []) unit h k = absurd h
part-IsVisible (some (d ∷ ds)) unit h k =
    IsVisible-append (d ∷ ds) (unit ∷ []) (digits-IsVisible (d ∷ ds) h) (k, tt)

trim_left-visible : (t : Text) → IsVisible t → trim_left t ≡ t
unfolding trim_left
trim_left-visible [] h = refl
trim_left-visible (c ∷ cs) (here, later) = rw (here) refl

trim_right-visible : (t : Text) → IsVisible t → trim_right t ≡ t
unfolding trim_right
trim_right-visible [] h = refl
trim_right-visible (c ∷ cs) (here, later) =
    rw (here) (ap (λ l. c ∷ l) (trim_right-visible cs later))

iso_text-trimmed :
    (h m s : Option Text)
    → IsPart h
    → IsPart m
    → IsPart s
    → trim_space (iso_text h m s) ≡ iso_text h m s
unfolding trim_space
iso_text-trimmed h m s ph pm ps =
    let v =
      IsVisible-append (codes "PT") (part h b'H' ++ (part m b'M' ++ part s b'S')) (refl, (refl, tt))
        (IsVisible-append (part h b'H') (part m b'M' ++ part s b'S') (part-IsVisible h b'H' ph refl)
          (IsVisible-append (part m b'M') (part s b'S') (part-IsVisible m b'M' pm refl)
            (part-IsVisible s b'S' ps refl))) in
    ap trim_right (trim_left-visible (iso_text h m s) v) ∙ trim_right-visible (iso_text h m s) v

-- What a part stands for; the hours and the minutes within the range of an int64.
abbrev pub number : Option Text → ℕ
number none = 0
number (some ds) = value ds

abbrev pub InRange : Option Text → Type 0
InRange o = number o < 2 ^ 63

abbrev pub float_of : (Text → ℕ) → Option Text → ℕ
float_of float none = 0
float_of float (some t) = float t

scanned-lem :
    (n : ℕ) (o : Option Text) (u : ℕ)
    → InRange o
    → product_if o (scanned n o) u ≡ number o * u % u64
unfolding scan_digits
scanned-lem n none u h = omega arith
scanned-lem n (some ds) u h =
    let small : ltb (value ds) (2 ^ 63) ≡ true = ground arith in rw small refl

sums :
    (a b c x y z : ℕ)
    → a ≡ x % u64
    → b ≡ y % u64
    → c ≡ z % u64
    → (a + b + c) % u64 ≡ (x + y + z) % u64
sums a b c x y z p q r = omega arith

-- A duration that is written as hours, minutes and seconds, each a row of digits with its unit or
-- left out, the hours and minutes within an int64, is read as the sum of the three, as an int64; the
-- seconds as the float that their digits are.
pub parse_iso_duration-iso_text :
    (float : Text → ℕ) (h m s : Option Text)
    → IsPart h
    → IsPart m
    → IsPart s
    → InRange h
    → InRange m
    → parse_iso_duration float (iso_text h m s)
      ≡ some ((number h * (3600 * second) + number m * (60 * second) + float_of float s) % u64)
unfolding parse_iso_duration
parse_iso_duration-iso_text float h m s ph pm ps rh rm =
    rw (parse_iso_duration, iso_text-trimmed h m s ph pm ps, match-iso_text h m s ph pm ps)
      (ap some (
        sums (product_if h (scanned 0 h) (3600 * second))
          (product_if m (scanned (scanned 0 h) m) (60 * second)) (fraction_if float s)
          (number h * (3600 * second)) (number m * (60 * second)) (float_of float s)
          (scanned-lem 0 h (3600 * second) rh) (scanned-lem (scanned 0 h) m (60 * second) rm)
          (fraction_lem s)))
  where
    fraction_lem : (o : Option Text) → fraction_if float o ≡ float_of float o % u64
    fraction_lem none = omega arith
    fraction_lem (some t) = refl

-- Minutes past the range of an int64 are no error: they count as many as the hours.
pub parse_iso_duration-overflow :
    (float : Text → ℕ) (hs ms : Text)
    → IsPart (some hs)
    → IsPart (some ms)
    → InRange (some hs)
    → 2 ^ 63 ≤ value ms
    → parse_iso_duration float (iso_text (some hs) (some ms) none)
      ≡ some ((value hs * (3600 * second) + value hs * (60 * second)) % u64)
unfolding parse_iso_duration scan_digits
parse_iso_duration-overflow float hs ms ph pm rh over =
    let fits : ltb (value hs) (2 ^ 63) ≡ true = ground arith in
    let fails : ltb (value ms) (2 ^ 63) ≡ false = ground arith in
    rw
      (
        parse_iso_duration,
        iso_text-trimmed (some hs) (some ms) none ph pm tt,
        match-iso_text (some hs) (some ms) none ph pm tt,
      )
      (rw (fits, fails) (ap some (omega arith)))
