-- ===== src/Rtsp/Streams/Ownership/Tables.antt =====
-- pkg/rtspserver/server.go: how often an entry stands in the table and among those to be closed.
use nanit_onvif.Prelude.{
  ℕ, suc, zero, ◌+◌, ◌<◌, Bool, true, false, Option, none, some, List, [], ◌∷◌, ◌++◌, map,
  if◌then◌else◌, get_elem?, eqb, eqb_iff, Bool-cases, ◌≡◌, refl, ap, ◌∙◌, inl, inr, arith, String,
  String_eq, ◌==◌, beq_refl, lookup, insert, delete, lookup-insert, lookup-delete,
}
use nanit_onvif.Rtsp.Streams.{remove_at}

abbrev pub one_if : Bool → ℕ
one_if true = 1
one_if false = 0

abbrev pub Table : Type 0
Table = List (String × ℕ)

unfoldable pub holds : ℕ → Table → ℕ
holds i [] = 0
holds i ((k, v) ∷ l) = one_if (eqb v i) + holds i l

unfoldable pub waits : ℕ → List ℕ → ℕ
waits i [] = 0
waits i (v ∷ l) = one_if (eqb v i) + waits i l

abbrev pub UniqueKeys : Table → Type 0
UniqueKeys [] = Unit
UniqueKeys ((k, v) ∷ l) = (lookup k l ≡ none) × UniqueKeys l

delete-missing : (k : String) (l : Table) → lookup k l ≡ none → delete k l ≡ l
unfolding lookup delete
delete-missing k [] h = refl
delete-missing k ((j, v) ∷ l) h = elim (Bool-cases (j == k)) [
  | inl same ↦ cc (rw same at h)
  | inr other ↦ rw other (ap (λ r. (j, v) ∷ r) (delete-missing k l (rw other at h)))
]

pub holds-delete :
    (k : String) (i j : ℕ) (l : Table)
    → UniqueKeys l
    → lookup k l ≡ some i
    → holds j (delete k l) + one_if (eqb i j) ≡ holds j l
unfolding holds lookup delete
holds-delete k i j [] u h = cc
holds-delete k i j ((n, v) ∷ l) (fresh, u) h = elim (Bool-cases (n == k)) [
  | inl same ↦
      let e : n ≡ k = (String_eq.beq_iff n k).0 same in
      let w : v ≡ i = cc (rw same at h) in
      rw (same, delete-missing k l (rw e at fresh), w) (omega arith)
  | inr other ↦ rw other (omega (arith, holds-delete k i j l u (rw other at h)))
]

pub holds-insert :
    (k : String) (i j : ℕ) (l : Table)
    → lookup k l ≡ none
    → holds j (insert k i l) ≡ holds j l + one_if (eqb i j)
unfolding holds lookup insert
holds-insert k i j [] h = omega arith
holds-insert k i j ((n, v) ∷ l) h = elim (Bool-cases (n == k)) [
  | inl same ↦ cc (rw same at h)
  | inr other ↦ rw other (omega (arith, holds-insert k i j l (rw other at h)))
]

pub holds-some : (k : String) (i : ℕ) (l : Table) → lookup k l ≡ some i → 0 < holds i l
unfolding holds lookup
holds-some k i [] h = cc
holds-some k i ((n, v) ∷ l) h = elim (Bool-cases (n == k)) [
  | inl same ↦ let w : v ≡ i = cc (rw same at h) in rw (w, (eqb_iff i i).1 refl) (omega arith)
  | inr other ↦ omega (arith, holds-some k i l (rw other at h))
]

-- What the table holds is found under a key.
pub holds-lookup :
    (i : ℕ) (l : Table) → UniqueKeys l → 0 < holds i l → (k : String) × (lookup k l ≡ some i)
unfolding holds lookup
holds-lookup i [] u h = absurd (omega arith)
holds-lookup i ((n, v) ∷ l) (fresh, u) h = elim (Bool-cases (eqb v i)) [
  | inl same ↦ (n, rw (beq_refl n, (eqb_iff v i).0 same) refl)
  | inr other ↦
      let (k, found) = holds-lookup i l u (omega (arith, ap one_if other)) in
      elim (Bool-cases (n == k)) [
        | inl clash ↦ cc (fresh, found, (String_eq.beq_iff n k).0 clash)
        | inr apart ↦ (k, rw apart found)
      ]
]

if_none : {o : Option ℕ} (b : Bool) → o ≡ none → (if b then none else o) ≡ none
if_none true h = refl
if_none false h = h

flipped : (n k : String) → (n == k) ≡ false → (k == n) ≡ false
flipped n k h = ground (arith, String_eq.beq_iff n k, String_eq.beq_iff k n)

pub UniqueKeys-delete : (k : String) (l : Table) → UniqueKeys l → UniqueKeys (delete k l)
unfolding delete
UniqueKeys-delete k [] u = tt
UniqueKeys-delete k ((n, v) ∷ l) (fresh, u) = elim (Bool-cases (n == k)) [
  | inl same ↦ rw same (UniqueKeys-delete k l u)
  | inr other ↦ rw other (lookup-delete k n l ∙ if_none (k == n) fresh, UniqueKeys-delete k l u)
]

pub UniqueKeys-insert :
    (k : String) (i : ℕ) (l : Table) → lookup k l ≡ none → UniqueKeys l → UniqueKeys (insert k i l)
unfolding insert lookup
UniqueKeys-insert k i [] h u = (refl, tt)
UniqueKeys-insert k i ((n, v) ∷ l) h (fresh, u) = elim (Bool-cases (n == k)) [
  | inl same ↦ cc (rw same at h)
  | inr other ↦ rw other (
    lookup-insert k n i l ∙ rw (flipped n k other) fresh,
    UniqueKeys-insert k i l (rw other at h) u,
  )
]

pub waits-get : (n i : ℕ) (l : List ℕ) → get_elem? l n ≡ some i → 0 < waits i l
unfolding waits
waits-get n i [] h = cc
waits-get zero i (v ∷ l) h = let w : v ≡ i = cc in rw (w, (eqb_iff i i).1 refl) (omega arith)
waits-get (suc n) i (v ∷ l) h = omega (arith, waits-get n i l h)

pub waits-remove_at :
    (n i j : ℕ) (l : List ℕ)
    → get_elem? l n ≡ some i
    → waits j (remove_at n l) + one_if (eqb i j) ≡ waits j l
unfolding waits
waits-remove_at n i j [] h = cc
waits-remove_at zero i j (v ∷ l) h = let w : v ≡ i = cc in rw w (omega arith)
waits-remove_at (suc n) i j (v ∷ l) h = omega (arith, waits-remove_at n i j l h)

pub waits-values :
    (j : ℕ) (t : Table) (l : List ℕ) → waits j (map (λ p. p.1) t ++ l) ≡ holds j t + waits j l
unfolding waits holds
waits-values j [] l = omega arith
waits-values j ((k, v) ∷ t) l = omega (arith, waits-values j t l)
