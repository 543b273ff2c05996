-- ===== src/Utils/Graceful/Counting.antt =====
-- pkg/utils/graceful.go: what the wait groups count.
use nanit_onvif.Prelude.{
  ℕ, suc, zero, ◌+◌, ◌-◌, ◌*◌, Bool, true, false, Option, none, some, [], ◌∷◌, ◌++◌, get_elem?,
  length, eqb, eqb_iff, Bool-cases, Option-cases, ◌≡◌, ◌≢◌, refl, sym, ap, inl, inr, arith,
}
use nanit_onvif.Utils.Graceful.{
  Phase, running, done, Context, Contexts, new_child, update_at, add, wg_done, run_as_child,
}

-- A number read off a context, 0 where there is none.
unfoldable pub at : (Context → ℕ) → ℕ → Contexts → ℕ
at g i [] = 0
at g zero (c ∷ cs) = g c
at g (suc i) (c ∷ cs) = at g i cs

abbrev pub has_parent : ℕ → Option ℕ → Bool
has_parent i none = false
has_parent i (some p) = eqb p i

abbrev pub share : Phase → Bool → ℕ
share running true = 1
share _ _ = 0

-- The number of running callbacks whose parent is the context.
unfoldable pub running_children : ℕ → Contexts → ℕ
running_children i [] = 0
running_children i (c ∷ cs) = share c.phase (has_parent i c.parent) + running_children i cs

abbrev pub own_of : Phase → ℕ
own_of done = 0
own_of _ = 1

abbrev pub own : Context → ℕ
own c = own_of c.phase

abbrev pub count : Context → ℕ
count c = c.wg

-- The count of a context is its own goroutine and its running children.
abbrev pub IsCounted : Contexts → Type 0
IsCounted cs = (i : ℕ) → at count i cs ≡ at own i cs + running_children i cs

pub at-get :
    (g : Context → ℕ) (i : ℕ) (cs : Contexts) {c : Context}
    → get_elem? cs i ≡ some c
    → at g i cs ≡ g c
unfolding at
at-get g i [] h = cc
at-get g zero (x ∷ cs) h = cc
at-get g (suc i) (x ∷ cs) h = at-get g i cs h

module _ (g : Context → ℕ) (f : Context → Context) where
  pub at-update_self :
      (i : ℕ) (cs : Contexts) {c : Context}
      → get_elem? cs i ≡ some c
      → at g i (update_at i f cs) ≡ g (f c)
  unfolding at update_at
  at-update_self i [] h = cc
  at-update_self zero (x ∷ cs) h = cc
  at-update_self (suc i) (x ∷ cs) h = at-update_self i cs h

  pub at-update_ne : (i j : ℕ) (cs : Contexts) → i ≢ j → at g j (update_at i f cs) ≡ at g j cs
  unfolding at update_at
  at-update_ne i j [] h = refl
  at-update_ne zero zero (x ∷ cs) h = absurd (h refl)
  at-update_ne zero (suc j) (x ∷ cs) h = refl
  at-update_ne (suc i) zero (x ∷ cs) h = refl
  at-update_ne (suc i) (suc j) (x ∷ cs) h = at-update_ne i j cs (λ e. h (ap suc e))

  pub at-update_same :
      ((c : Context) → g (f c) ≡ g c)
      → (i j : ℕ) (cs : Contexts) → at g j (update_at i f cs) ≡ at g j cs
  unfolding at update_at
  at-update_same k i j [] = refl
  at-update_same k zero zero (x ∷ cs) = k x
  at-update_same k zero (suc j) (x ∷ cs) = refl
  at-update_same k (suc i) zero (x ∷ cs) = refl
  at-update_same k (suc i) (suc j) (x ∷ cs) = at-update_same k i j cs

pub running_children-update :
    (f : Context → Context) (i j : ℕ) (cs : Contexts) {c : Context}
    → get_elem? cs i ≡ some c
    → running_children j (update_at i f cs) + share c.phase (has_parent j c.parent)
      ≡ running_children j cs + share (f c).phase (has_parent j (f c).parent)
unfolding running_children update_at
running_children-update f i j [] h = cc
running_children-update f zero j (x ∷ cs) {c} h = let e : x ≡ c = cc in rw e (omega arith)
running_children-update f (suc i) j (x ∷ cs) h = omega (arith, running_children-update f i j cs h)

pub running_children-same :
    (f : Context → Context)
    → ((c : Context) → ((f c).phase ≡ c.phase) × ((f c).parent ≡ c.parent))
    → (i j : ℕ) (cs : Contexts) → running_children j (update_at i f cs) ≡ running_children j cs
unfolding running_children update_at
running_children-same f k i j [] = refl
running_children-same f k zero j (x ∷ cs) = rw ((k x).0, (k x).1) refl
running_children-same f k (suc i) j (x ∷ cs) =
    ap (λ n. share x.phase (has_parent j x.parent) + n) (running_children-same f k i j cs)

-- A step that touches neither counts nor phases nor parents.
pub update_at-IsCounted :
    (f : Context → Context)
    → ((c : Context) → ((f c).wg ≡ c.wg) × ((f c).phase ≡ c.phase) × ((f c).parent ≡ c.parent))
    → (i : ℕ) (cs : Contexts) → IsCounted cs
    → IsCounted (update_at i f cs)
update_at-IsCounted f k i cs h j = omega (
  arith,
  h j,
  at-update_same count f (λ c. (k c).0) i j cs,
  at-update_same own f (λ c. ap own_of (k c).1) i j cs,
  running_children-same f (λ c. ((k c).1, (k c).2)) i j cs,
)

abbrev pub one_if : Bool → ℕ
one_if true = 1
one_if false = 0

pub at-append :
    (g : Context → ℕ) (j : ℕ) (cs : Contexts) (c : Context)
    → at g j (cs ++ c ∷ []) ≡ at g j cs + one_if (eqb j (length cs)) * g c
unfolding at
at-append g zero [] c = omega arith
at-append g (suc j) [] c = ground arith
at-append g zero (x ∷ cs) c = ground arith
at-append g (suc j) (x ∷ cs) c =
    let e : eqb (suc j) (suc (length cs)) ≡ eqb j (length cs) = ground arith in
    rw e (at-append g j cs c)

pub running_children-append :
    (j : ℕ) (cs : Contexts) (c : Context)
    → running_children j (cs ++ c ∷ [])
      ≡ running_children j cs + share c.phase (has_parent j c.parent)
unfolding running_children
running_children-append j [] c = omega arith
running_children-append j (x ∷ cs) c = omega (arith, running_children-append j cs c)

pub at-add :
    (p j : ℕ) (cs : Contexts) {c : Context}
    → get_elem? cs p ≡ some c
    → at count j (update_at p add cs) ≡ at count j cs + one_if (eqb p j)
at-add p j cs {c} h = elim (Bool-cases (eqb p j)) [
  | inl same ↦
      rw (same, sym ((eqb_iff p j).0 same))
        (omega (arith, at-update_self count add p cs h, at-get count p cs h))
  | inr other ↦
      rw other (omega (arith, at-update_ne count add p j cs (λ e. cc (other, (eqb_iff p j).1 e))))
]

pub at-none :
    (p : ℕ) (cs : Contexts)
    → get_elem? cs p ≡ none
    → at count p (update_at p wg_done cs) ≡ at count p cs - 1
unfolding at update_at
at-none p [] h = omega arith
at-none zero (x ∷ cs) h = cc
at-none (suc p) (x ∷ cs) h = at-none p cs h

pub at-wg_done :
    (p j : ℕ) (cs : Contexts)
    → at count j (update_at p wg_done cs) ≡ at count j cs - one_if (eqb p j)
at-wg_done p j cs = elim (Bool-cases (eqb p j)) [
  | inl same ↦
      rw (same, sym ((eqb_iff p j).0 same))
        (elim (Option-cases (get_elem? cs p)) [
          | inl gone ↦ at-none p cs gone
          | inr (c, h) ↦ omega (arith, at-update_self count wg_done p cs h, at-get count p cs h)
        ])
  | inr other ↦
      rw other
        (omega (arith, at-update_ne count wg_done p j cs (λ e. cc (other, (eqb_iff p j).1 e))))
]

pub run_as_child-IsCounted :
    (p : ℕ) (c : Context) (cs : Contexts)
    → get_elem? cs p ≡ some c
    → IsCounted cs
    → IsCounted (run_as_child p c cs)
unfolding run_as_child
run_as_child-IsCounted p c cs g h j = elim (Bool-cases c.has_been_canceled) [
  | inl canceled ↦ rw canceled (h j)
  | inr active ↦ rw active (
      omega (
        arith,
        h j,
        at-append count j (update_at p add cs) (new_child p),
        at-append own j (update_at p add cs) (new_child p),
        running_children-append j (update_at p add cs) (new_child p),
        at-add p j cs g,
        at-update_same own add (λ x. refl) p j cs,
        running_children-same add (λ x. (refl, refl)) p j cs,
      ))
]
