-- ===== src/Utils/Graceful/Ending.antt =====
-- pkg/utils/graceful.go: that the goroutines end.
use nanit_onvif.Prelude.{
  ℕ, suc, zero, ◌+◌, ◌*◌, ◌≤◌, Bool, true, false, Option, none, some, List, [], ◌∷◌, ◌++◌,
  if◌then◌else◌, get_elem?, Bool-cases, Option-cases, ◌≡◌, refl, ap, inl, inr, arith, eqb, ◌⊎◌, ◌≢◌,
}
use nanit_onvif.Utils.Graceful.{
  Error, err_cancel, Phase, running, returned, done, Context, Contexts, new_root, new_child,
  update_at, add, wg_done, fail, run_as_child, inform, is_canceled, parent_of, Step, spawn, fails,
  returns, ends, cancels, unlinks, joins, cut, cancel, join, wait, step_at, site, step, run,
}
use nanit_onvif.Utils.Graceful.Waiting.{IfSome, Phase-cases, wait-IsOver}

abbrev pub rank : Phase → ℕ
rank running = 2
rank returned = 1
rank done = 0

abbrev pub one : Bool → ℕ
one true = 1
one false = 0

-- What the goroutines of a context have left to do, but for what its callback starts.
abbrev pub work : Context → ℕ
work c = rank c.phase + (2 * one c.linked + one c.joining)

pub work_of : Contexts → ℕ
work_of [] = 0
work_of (c ∷ cs) = work c + work_of cs

-- What a handler does to a context while it runs; all else are moves of the goroutines.
abbrev pub starts : List Step → ℕ
starts [] = 0
starts (spawn i ∷ ss) = suc (starts ss)
starts (_ ∷ ss) = starts ss

abbrev pub moves : List Step → ℕ
moves [] = 0
moves (spawn i ∷ ss) = moves ss
moves (fails i e ∷ ss) = moves ss
moves (_ ∷ ss) = suc (moves ss)

work_of-update :
    (f : Context → Context) (i : ℕ) (cs : Contexts) {c : Context}
    → get_elem? cs i ≡ some c
    → work_of (update_at i f cs) + work c ≡ work_of cs + work (f c)
unfolding work_of update_at
work_of-update f i [] g = cc
work_of-update f zero (x ∷ cs) {c} g = let e : x ≡ c = cc in rw e (omega arith)
work_of-update f (suc i) (x ∷ cs) g = omega (arith, work_of-update f i cs g)

work_of-same :
    (f : Context → Context)
    → ((c : Context) → work (f c) ≡ work c)
    → (i : ℕ) (cs : Contexts) → work_of (update_at i f cs) ≡ work_of cs
unfolding work_of update_at
work_of-same f k i [] = refl
work_of-same f k zero (x ∷ cs) = ap (λ n. n + work_of cs) (k x)
work_of-same f k (suc i) (x ∷ cs) = ap (λ n. work x + n) (work_of-same f k i cs)

work_of-snoc : (cs : Contexts) (c : Context) → work_of (cs ++ c ∷ []) ≡ work_of cs + work c
unfolding work_of
work_of-snoc [] c = omega arith
work_of-snoc (x ∷ cs) c = omega (arith, work_of-snoc cs c)

fail-work : (e : Error) (c : Context) → work (fail e c) ≡ work c
unfolding fail
fail-work e c = ground arith

one-le : (b : Bool) → one b ≤ 1
one-le true = omega arith
one-le false = omega arith

fail-rank : (c : Context) → rank (fail err_cancel c).phase ≡ rank c.phase
unfolding fail
fail-rank c = ground arith

inform-work : (o : Option ℕ) (cs : Contexts) → work_of (inform o cs) ≡ work_of cs
unfolding inform
inform-work none cs = refl
inform-work (some p) cs = work_of-same wg_done (λ c. refl) p cs

IfSome-mono :
    {P Q : Contexts → Type 0} (o : Option Contexts)
    → ((cs : Contexts) → P cs → Q cs)
    → IfSome P o
    → IfSome Q o
IfSome-mono none f h = tt
IfSome-mono (some cs) f h = f cs h

-- The moves of the goroutines against the children that are started.
abbrev Pays : Step → Contexts → Contexts → Type 0
Pays s cs cs' = moves (s ∷ []) + work_of cs' ≤ work_of cs + 4 * starts (s ∷ [])

cut-Pays :
    (b : Bool) (i : ℕ) (cs : Contexts) {c : Context}
    → get_elem? cs i ≡ some c
    → c.linked ≡ b
    → IfSome (Pays (unlinks i) cs) (if b then some (update_at i cut cs) else none)
cut-Pays true i cs g on = omega (arith, rw on at (work_of-update cut i cs g))
cut-Pays false i cs g off = tt

step_at-Pays :
    (s : Step) (c : Context) (cs : Contexts)
    → get_elem? cs (site s) ≡ some c
    → IfSome (Pays s cs) (step_at s c cs)
unfolding step_at run_as_child
step_at-Pays (spawn i) c cs g = elim (Bool-cases c.has_been_canceled) [
  | inl canceled ↦ rw (run_as_child, canceled) (omega arith)
  | inr active ↦
      rw (run_as_child, active)
        (omega (
          arith,
          work_of-snoc (update_at i add cs) (new_child i),
          work_of-same add (λ c. refl) i cs,
        ))
]
step_at-Pays (fails i e) c cs g = omega (arith, work_of-same (fail e) (fail-work e) i cs)
step_at-Pays (returns i) c cs g = elim (Phase-cases c.phase) [
  | inl r ↦
      rw (step_at, r)
        (omega (
          arith,
          inform-work c.parent (update_at i (λ x. record x { phase = returned }) cs),
          rw r at (work_of-update (λ x. record x { phase = returned }) i cs g),
        ))
  | inr (inl r) ↦ rw (step_at, r) tt
  | inr (inr r) ↦ rw (step_at, r) tt
]
step_at-Pays (ends i) c cs g = elim (Phase-cases c.phase) [
  | inl r ↦ rw (step_at, r) tt
  | inr (inl r) ↦
      rw (step_at, r)
        (omega (arith, rw r at (work_of-update (λ x. record (wg_done x) { phase = done }) i cs g)))
  | inr (inr r) ↦ rw (step_at, r) tt
]
step_at-Pays (cancels i) c cs g = elim (Bool-cases c.linked) [
  | inl on ↦ elim (Bool-cases (is_canceled (parent_of c cs))) [
    | inl high ↦
        rw (step_at, on, high)
          (omega (arith, work_of-update cancel i cs g, fail-rank c, ap one on, one-le c.joining))
    | inr low ↦ rw (step_at, on, low) tt
  ]
  | inr off ↦ rw (step_at, off) tt
]
step_at-Pays (joins i) c cs g = elim (Bool-cases c.joining) [
  | inl waits ↦ elim (Bool-cases (eqb c.wg 0)) [
    | inl zeroed ↦
        rw (step_at, waits, zeroed) (omega (arith, work_of-update join i cs g, ap one waits))
    | inr some_left ↦ rw (step_at, waits, some_left) tt
  ]
  | inr gone ↦ rw (step_at, gone) tt
]
step_at-Pays (unlinks i) c cs g = elim (Phase-cases c.phase) [
  | inl r ↦ rw (step_at, r) tt
  | inr (inl r) ↦ rw (step_at, r) (cut-Pays c.linked i cs g refl)
  | inr (inr r) ↦ rw (step_at, r) (cut-Pays c.linked i cs g refl)
]

moves-cons : (s : Step) (ss : List Step) → moves (s ∷ ss) ≡ moves (s ∷ []) + moves ss
moves-cons (spawn i) ss = omega arith
moves-cons (fails i e) ss = omega arith
moves-cons (returns i) ss = omega arith
moves-cons (ends i) ss = omega arith
moves-cons (cancels i) ss = omega arith
moves-cons (unlinks i) ss = omega arith
moves-cons (joins i) ss = omega arith

starts-cons : (s : Step) (ss : List Step) → starts (s ∷ ss) ≡ starts (s ∷ []) + starts ss
starts-cons (spawn i) ss = omega arith
starts-cons (fails i e) ss = omega arith
starts-cons (returns i) ss = omega arith
starts-cons (ends i) ss = omega arith
starts-cons (cancels i) ss = omega arith
starts-cons (unlinks i) ss = omega arith
starts-cons (joins i) ss = omega arith

run-Pays :
    (ss : List Step) (cs : Contexts)
    → IfSome (λ cs'. moves ss + work_of cs' ≤ work_of cs + 4 * starts ss) (run ss cs)
unfolding run step
run-Pays [] cs = omega arith
run-Pays (s ∷ ss) cs = elim (Option-cases (get_elem? cs (site s))) [
  | inl gone ↦ rw (run, step, gone) tt
  | inr (c, g) ↦ elim (Option-cases (step_at s c cs)) [
    | inl stuck ↦ rw (run, step, g, stuck) tt
    | inr (cs', goes) ↦
        rw (run, step, g, goes)
          (IfSome-mono (run ss cs')
            (λ cs'' h.
              omega
                (arith, h, moves-cons s ss, starts-cons s ss, rw goes at (step_at-Pays s c cs g)))
            (run-Pays ss cs'))
  ]
]

-- Some goroutine can go on.
abbrev pub Goes : Contexts → Type 0
Goes cs = (s : Step) × (moves (s ∷ []) ≡ 1) × ((cs' : Contexts) × (step s cs ≡ some cs'))

-- Nothing of a context is left, and `Wait` of it returns.
pub record Ended (c : Context) : Type 0 where
  pub is_done : c.phase ≡ done
  pub unlinked : c.linked ≡ false
  pub joined : c.joining ≡ false
  pub waited : wait c ≢ none

search :
    {Q : Type 0} (P : Context → Type 0) (cs : Contexts)
    → ((i : ℕ) (c : Context) → get_elem? cs i ≡ some c → Q ⊎ P c)
    → Q ⊎ ((i : ℕ) (c : Context) → get_elem? cs i ≡ some c → P c)
search P [] d = inr (λ i c g. cc)
search P (x ∷ cs) d = elim (d zero x refl) [
  | inl q ↦ inl q
  | inr p ↦ elim (search P cs (λ i. d (suc i))) [ inl q ↦ inl q | inr ps ↦ inr (all p ps) ]
]
  where
    all :
        P x
        → ((i : ℕ) (c : Context) → get_elem? cs i ≡ some c → P c)
        → (i : ℕ) (c : Context) → get_elem? (x ∷ cs) i ≡ some c
        → P c
    all p ps zero c g = let e : x ≡ c = cc in rw (← e) p
    all p ps (suc i) c g = ps i c g

done-Goes :
    (cs : Contexts) (i : ℕ) (c : Context)
    → get_elem? cs i ≡ some c
    → Goes cs ⊎ ((c.phase ≡ done) × (c.linked ≡ false))
unfolding step step_at
done-Goes cs i c g = elim (Phase-cases c.phase) [
  | inl r ↦ inl (
    returns i,
    refl,
    (
      inform c.parent (update_at i (λ x. record x { phase = returned }) cs),
      rw (step, g, step_at, r) refl,
    ),
  )
  | inr (inl r) ↦ inl (
    ends i,
    refl,
    (update_at i (λ x. record (wg_done x) { phase = done }) cs, rw (step, g, step_at, r) refl),
  )
  | inr (inr r) ↦ elim (Bool-cases c.linked) [
    | inl on ↦ inl (unlinks i, refl, (update_at i cut cs, rw (step, g, step_at, r, on) refl))
    | inr off ↦ inr (r, off)
  ]
]

waited_zero : (c : Context) → wait c ≢ none → eqb c.wg 0 ≡ true
unfolding wait
waited_zero c waits = elim (Bool-cases (eqb c.wg 0)) [
  | inl zeroed ↦ zeroed
  | inr some_left ↦ absurd (waits (rw (wait, some_left) refl))
]

Ended-Goes :
    (cs : Contexts) (i : ℕ) (c : Context)
    → get_elem? cs i ≡ some c
    → (c.phase ≡ done) × (c.linked ≡ false)
    → wait c ≢ none
    → Goes cs ⊎ Ended c
unfolding step step_at
Ended-Goes cs i c g (r, off) waits = elim (Bool-cases c.joining) [
  | inl on ↦
      inl
        (joins i, refl, (update_at i join cs, rw (step, g, step_at, on, waited_zero c waits) refl))
  | inr left ↦ inr (record { is_done = r; unlinked = off; joined = left; waited = waits })
]

-- The goroutines come to an end, in any order of steps since the start. They make at most two moves,
-- and four more for each child that a handler starts. And either some goroutine can go on (a handler
-- that runs can: it can return), or none is left: every context's own goroutine and the one of its link
-- have ended, also where the latter had called `Cancel` and waited, and `Wait` returns.
pub run-Ends :
    (ss : List Step) (cs : Contexts)
    → run ss (new_root ∷ []) ≡ some cs
    → (moves ss ≤ 2 + 4 * starts ss)
      × (Goes cs ⊎ ((i : ℕ) (c : Context) → get_elem? cs i ≡ some c → Ended c))
unfolding work_of
run-Ends ss cs h = (
  omega (arith, rw h at (run-Pays ss (new_root ∷ []))),
  elim (search (λ c. (c.phase ≡ done) × (c.linked ≡ false)) cs (done-Goes cs)) [
    | inl goes ↦ inl goes
    | inr all ↦ search Ended cs (λ i c g. Ended-Goes cs i c g (all i c g) (
        (wait-IsOver ss cs i c h g).1
          ((all i c g).0, λ j d at_j child running. cc ((all j d at_j).0, running))))
  ],
)
