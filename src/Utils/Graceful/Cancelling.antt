-- ===== src/Utils/Graceful/Cancelling.antt =====
-- pkg/utils/graceful.go: how Fail reaches the children, and that the first error stays.
use nanit_onvif.Prelude.{
  ℕ, suc, zero, Bool, true, false, Option, none, some, List, [], ◌∷◌, ◌++◌, if◌then◌else◌,
  get_elem?, Bool-cases, Option-cases, ◌≡◌, ◌≢◌, ◌⊎◌, refl, inl, inr, All, eqb,
}
use nanit_onvif.Utils.Graceful.{
  Error, running, returned, done, Context, Contexts, new_root, new_child, update_at, add, wg_done,
  fail, run_as_child, inform, is_canceled, parent_of, Step, spawn, fails, returns, ends, cancels,
  unlinks, joins, cut, cancel, join, step_at, site, step, run,
}
use nanit_onvif.Utils.Graceful.Waiting.{IfSome, Phase-cases}

-- A child that runs hears of its parent's cancellation, or is cancelled.
abbrev pub Tied : Context → Type 0
Tied c =
    (p : ℕ)
    → c.phase ≡ running
    → c.parent ≡ some p
    → (c.linked ≡ true) ⊎ (c.has_been_canceled ≡ true)

-- A context that is cancelled keeps its error.
abbrev pub Holds : Option Error → Context → Type 0
Holds e c = (c.has_been_canceled ≡ true) × (c.err ≡ e)

module _ (P : Context → Type 0) where
  pub All-get : (i : ℕ) (cs : Contexts) {c : Context} → All P cs → get_elem? cs i ≡ some c → P c
  All-get i [] h g = cc
  All-get zero (x ∷ cs) {c} h g = let e : x ≡ c = cc in rw (← e) h.0
  All-get (suc i) (x ∷ cs) h g = All-get i cs h.1 g

  pub All-update :
      (f : Context → Context)
      → ((c : Context) → P c → P (f c))
      → (i : ℕ) (cs : Contexts) → All P cs
      → All P (update_at i f cs)
  unfolding update_at
  All-update f k i [] h = tt
  All-update f k zero (x ∷ cs) h = (k x h.0, h.1)
  All-update f k (suc i) (x ∷ cs) h = (h.0, All-update f k i cs h.1)

  pub All-update_at :
      (f : Context → Context) (i : ℕ) (cs : Contexts) {c : Context}
      → get_elem? cs i ≡ some c
      → P (f c)
      → All P cs
      → All P (update_at i f cs)
  unfolding update_at
  All-update_at f i [] g k h = cc
  All-update_at f zero (x ∷ cs) {c} g k h = let e : x ≡ c = cc in (rw e k, h.1)
  All-update_at f (suc i) (x ∷ cs) g k h = (h.0, All-update_at f i cs g k h.1)

  pub All-snoc : (cs : Contexts) (c : Context) → All P cs → P c → All P (cs ++ c ∷ [])
  All-snoc [] c h k = (k, tt)
  All-snoc (x ∷ cs) c h k = (h.0, All-snoc cs c h.1 k)

pub get-update :
    (f : Context → Context) (i : ℕ) (cs : Contexts) {c : Context}
    → get_elem? cs i ≡ some c
    → get_elem? (update_at i f cs) i ≡ some (f c)
unfolding update_at
get-update f i [] g = cc
get-update f zero (x ∷ cs) g = cc
get-update f (suc i) (x ∷ cs) g = get-update f i cs g

fail-Tied : (e : Error) (c : Context) → Tied c → Tied (fail e c)
unfolding fail
fail-Tied e c h p r q = elim (Bool-cases c.has_been_canceled) [
  | inl canceled ↦ inr (rw (fail, canceled) refl)
  | inr active ↦ inr (rw (fail, active) refl)
]

canceled-Tied : (c : Context) → Tied (cancel c)
unfolding fail
canceled-Tied c p r q = elim (Bool-cases c.has_been_canceled) [
  | inl canceled ↦ inr (rw (fail, canceled) refl)
  | inr active ↦ inr (rw (fail, active) refl)
]

inform-Tied : (o : Option ℕ) (cs : Contexts) → All Tied cs → All Tied (inform o cs)
unfolding inform
inform-Tied none cs h = h
inform-Tied (some p) cs h = All-update Tied wg_done (λ c k. k) p cs h

unlinked-Tied :
    (b : Bool) (i : ℕ) (cs : Contexts) {c : Context}
    → get_elem? cs i ≡ some c
    → c.phase ≢ running
    → All Tied cs
    → IfSome (All Tied) (if b then some (update_at i cut cs) else none)
unlinked-Tied true i cs g r h = All-update_at Tied cut i cs g (λ p k. absurd (r k)) h
unlinked-Tied false i cs g r h = tt

step_at-Tied :
    (s : Step) (c : Context) (cs : Contexts)
    → get_elem? cs (site s) ≡ some c
    → All Tied cs
    → IfSome (All Tied) (step_at s c cs)
unfolding step_at run_as_child
step_at-Tied (spawn i) c cs g h = elim (Bool-cases c.has_been_canceled) [
  | inl canceled ↦ rw (run_as_child, canceled) h
  | inr active ↦
      rw (run_as_child, active)
        (All-snoc Tied (update_at i add cs) (new_child i) (All-update Tied add (λ c k. k) i cs h)
          (λ p r q. inl refl))
]
step_at-Tied (fails i e) c cs g h = All-update Tied (fail e) (fail-Tied e) i cs h
step_at-Tied (returns i) c cs g h = elim (Phase-cases c.phase) [
  | inl r ↦
      rw (step_at, r)
        (inform-Tied c.parent (update_at i (λ x. record x { phase = returned }) cs)
          (All-update Tied (λ x. record x { phase = returned }) (λ x k p q. absurd (cc)) i cs h))
  | inr (inl r) ↦ rw (step_at, r) tt
  | inr (inr r) ↦ rw (step_at, r) tt
]
step_at-Tied (ends i) c cs g h = elim (Phase-cases c.phase) [
  | inl r ↦ rw (step_at, r) tt
  | inr (inl r) ↦
      rw (step_at, r)
        (All-update Tied (λ x. record (wg_done x) { phase = done }) (λ x k p q. absurd (cc)) i cs h)
  | inr (inr r) ↦ rw (step_at, r) tt
]
step_at-Tied (cancels i) c cs g h = elim (Bool-cases c.linked) [
  | inl on ↦ elim (Bool-cases (is_canceled (parent_of c cs))) [
    | inl high ↦ rw (step_at, on, high) (All-update Tied cancel (λ x k. canceled-Tied x) i cs h)
    | inr low ↦ rw (step_at, on, low) tt
  ]
  | inr off ↦ rw (step_at, off) tt
]
step_at-Tied (joins i) c cs g h = elim (Bool-cases c.joining) [
  | inl waits ↦ elim (Bool-cases (eqb c.wg 0)) [
    | inl zeroed ↦ rw (step_at, waits, zeroed) (All-update Tied join (λ x k. k) i cs h)
    | inr some_left ↦ rw (step_at, waits, some_left) tt
  ]
  | inr gone ↦ rw (step_at, gone) tt
]
step_at-Tied (unlinks i) c cs g h = elim (Phase-cases c.phase) [
  | inl r ↦ rw (step_at, r) tt
  | inr (inl r) ↦ rw (step_at, r) (unlinked-Tied c.linked i cs g (λ k. cc) h)
  | inr (inr r) ↦ rw (step_at, r) (unlinked-Tied c.linked i cs g (λ k. cc) h)
]

run-Tied : (ss : List Step) (cs : Contexts) → All Tied cs → IfSome (All Tied) (run ss cs)
unfolding run step
run-Tied [] cs h = h
run-Tied (s ∷ ss) cs h = elim (Option-cases (get_elem? cs (site s))) [
  | inl gone ↦ rw (run, step, gone) tt
  | inr (c, g) ↦ elim (Option-cases (step_at s c cs)) [
    | inl stuck ↦ rw (run, step, g, stuck) tt
    | inr (cs', goes) ↦
        rw (run, step, g, goes) (run-Tied ss cs' (rw goes at (step_at-Tied s c cs g h)))
  ]
]

-- Whatever goroutines have done since the start, `Fail` reaches every child that still runs: where a
-- context is cancelled and a child of it runs, the child is cancelled as well, or the goroutine that
-- links it to its parent can go on, after which the child is cancelled.
pub fail-Reaches :
    (ss : List Step) (cs : Contexts) (i p : ℕ) (c d : Context)
    → run ss (new_root ∷ []) ≡ some cs
    → get_elem? cs p ≡ some d
    → d.has_been_canceled ≡ true
    → get_elem? cs i ≡ some c
    → c.parent ≡ some p
    → c.phase ≡ running
    → (c.has_been_canceled ≡ true)
      ⊎ ((cs' : Contexts) × (step (cancels i) cs ≡ some cs')
          × ((c' : Context) × (get_elem? cs' i ≡ some c') × (c'.has_been_canceled ≡ true)))
unfolding step step_at fail
fail-Reaches ss cs i p c d h gd high g child r =
    elim (All-get Tied i cs (rw h at (run-Tied ss (new_root ∷ []) (λ p r q. absurd (cc), tt))) g p r
      child) [
        | inr canceled ↦ inl canceled
        | inl on ↦ elim (Bool-cases c.has_been_canceled) [
          | inl canceled ↦ inl canceled
          | inr active ↦ inr (
            update_at i cancel cs,
            rw (step, g, step_at, on, child, gd, high) refl,
            (cancel c, get-update cancel i cs g, rw (fail, active) refl),
          )
        ]
      ]
