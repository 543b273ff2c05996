-- ===== src/Utils/Graceful/Waiting.antt =====
-- pkg/utils/graceful.go: when Wait returns.
use nanit_onvif.Prelude.{
  ℕ, suc, zero, ◌+◌, Bool, true, false, Option, none, some, List, [], ◌∷◌, if◌then◌else◌, get_elem?,
  eqb, eqb_iff, Bool-cases, Option-cases, ◌≡◌, ◌≢◌, ◌↔◌, ◌⊎◌, refl, sym, ap, ◌∙◌, inl, inr, arith,
}
use nanit_onvif.Utils.Graceful.{
  Error, err_cancel, Phase, running, returned, done, Context, Contexts, new_root, update_at,
  wg_done, fail, inform, is_canceled, parent_of, Step, spawn, fails, returns, ends, cancels,
  unlinks, joins, cut, cancel, join, step_at, site, step, run, wait,
}
use nanit_onvif.Utils.Graceful.Counting.{
  at, at-get, has_parent, share, running_children, own_of, own, count, IsCounted, at-update_self,
  at-update_ne, at-update_same, running_children-update, running_children-same, update_at-IsCounted,
  one_if, at-wg_done, run_as_child-IsCounted,
}

fail-same :
    (e : Error) (c : Context)
    → ((fail e c).wg ≡ c.wg) × ((fail e c).phase ≡ c.phase) × ((fail e c).parent ≡ c.parent)
unfolding fail
fail-same e c = ground arith

module _ (i : ℕ) (c : Context) (cs : Contexts) (g : get_elem? cs i ≡ some c) where
  returned-IsCounted :
      c.phase ≡ running
      → IsCounted cs
      → IsCounted (inform c.parent (update_at i (λ x. record x { phase = returned }) cs))
  unfolding inform
  returned-IsCounted r h j = elim (Option-cases c.parent) [
    | inl root ↦
        rw (inform, root)
          (omega (
            arith,
            h j,
            at-update_same count (λ x. record x { phase = returned }) (λ x. refl) i j cs,
            still_own j,
            rw (r, root) at (running_children-update (λ x. record x { phase = returned }) i j cs g),
          ))
    | inr (p, child) ↦
        rw (inform, child)
          (omega (
            arith,
            h j,
            at-update_same count (λ x. record x { phase = returned }) (λ x. refl) i j cs,
            at-wg_done p j (update_at i (λ x. record x { phase = returned }) cs),
            at-update_same own wg_done (λ x. refl) p j
                (update_at i (λ x. record x { phase = returned }) cs),
            running_children-same wg_done (λ x. (refl, refl)) p j
                (update_at i (λ x. record x { phase = returned }) cs),
            still_own j,
            share_one (eqb p j),
            rw (r, child) at
                (running_children-update (λ x. record x { phase = returned }) i j cs g),
          ))
  ]
    where
      share_one : (b : Bool) → share running b ≡ one_if b
      share_one true = refl
      share_one false = refl

      still_own :
          (j : ℕ) → at own j (update_at i (λ x. record x { phase = returned }) cs) ≡ at own j cs
      still_own j = elim (Bool-cases (eqb i j)) [
        | inl same ↦ rw (sym ((eqb_iff i j).0 same)) (
            at-update_self own (λ x. record x { phase = returned }) i cs g
            ∙ sym (at-get own i cs g ∙ ap own_of r))
        | inr other ↦
            at-update_ne own (λ x. record x { phase = returned }) i j cs
              (λ e. cc (other, (eqb_iff i j).1 e))
      ]

  ended-IsCounted :
      c.phase ≡ returned
      → IsCounted cs
      → IsCounted (update_at i (λ x. record (wg_done x) { phase = done }) cs)
  ended-IsCounted r h j = elim (Bool-cases (eqb i j)) [
    | inl same ↦ rw (sym ((eqb_iff i j).0 same)) (
        omega (
          arith,
          h i,
          at-update_self count (λ x. record (wg_done x) { phase = done }) i cs g,
          at-get count i cs g,
          at-update_self own (λ x. record (wg_done x) { phase = done }) i cs g,
          at-get own i cs g ∙ ap own_of r,
          rw r at (running_children-update (λ x. record (wg_done x) { phase = done }) i i cs g),
        ))
    | inr other ↦
        let ne : i ≢ j = λ e. cc (other, (eqb_iff i j).1 e) in
        omega (
          arith,
          h j,
          at-update_ne count (λ x. record (wg_done x) { phase = done }) i j cs ne,
          at-update_ne own (λ x. record (wg_done x) { phase = done }) i j cs ne,
          rw r at (running_children-update (λ x. record (wg_done x) { phase = done }) i j cs g),
        )
  ]

abbrev pub IfSome {ℓ} : (Contexts → Type ℓ) → Option Contexts → Type ℓ
IfSome P none = Unit
IfSome P (some cs) = P cs

unlinked-IsCounted :
    (b : Bool) (i : ℕ) (cs : Contexts)
    → IsCounted cs
    → IfSome IsCounted (if b then some (update_at i cut cs) else none)
unlinked-IsCounted true i cs h = update_at-IsCounted cut (λ c. (refl, refl, refl)) i cs h
unlinked-IsCounted false i cs h = tt

pub Phase-cases : (p : Phase) → (p ≡ running) ⊎ ((p ≡ returned) ⊎ (p ≡ done))
Phase-cases running = inl refl
Phase-cases returned = inr (inl refl)
Phase-cases done = inr (inr refl)

step_at-IsCounted :
    (s : Step) (c : Context) (cs : Contexts)
    → get_elem? cs (site s) ≡ some c
    → IsCounted cs
    → IfSome IsCounted (step_at s c cs)
unfolding step_at
step_at-IsCounted (spawn i) c cs g h = run_as_child-IsCounted i c cs g h
step_at-IsCounted (fails i e) c cs g h = update_at-IsCounted (fail e) (fail-same e) i cs h
step_at-IsCounted (returns i) c cs g h = elim (Phase-cases c.phase) [
  | inl r ↦ rw (step_at, r) (returned-IsCounted i c cs g r h)
  | inr (inl r) ↦ rw (step_at, r) tt
  | inr (inr r) ↦ rw (step_at, r) tt
]
step_at-IsCounted (ends i) c cs g h = elim (Phase-cases c.phase) [
  | inl r ↦ rw (step_at, r) tt
  | inr (inl r) ↦ rw (step_at, r) (ended-IsCounted i c cs g r h)
  | inr (inr r) ↦ rw (step_at, r) tt
]
step_at-IsCounted (cancels i) c cs g h = elim (Bool-cases c.linked) [
  | inl on ↦ elim (Bool-cases (is_canceled (parent_of c cs))) [
    | inl high ↦ rw (step_at, on, high) (update_at-IsCounted cancel (fail-same err_cancel) i cs h)
    | inr low ↦ rw (step_at, on, low) tt
  ]
  | inr off ↦ rw (step_at, off) tt
]
step_at-IsCounted (joins i) c cs g h = elim (Bool-cases c.joining) [
  | inl waits ↦ elim (Bool-cases (eqb c.wg 0)) [
    | inl zeroed ↦
        rw (step_at, waits, zeroed) (update_at-IsCounted join (λ x. (refl, refl, refl)) i cs h)
    | inr some_left ↦ rw (step_at, waits, some_left) tt
  ]
  | inr gone ↦ rw (step_at, gone) tt
]
step_at-IsCounted (unlinks i) c cs g h = elim (Phase-cases c.phase) [
  | inl r ↦ rw (step_at, r) tt
  | inr (inl r) ↦ rw (step_at, r) (unlinked-IsCounted c.linked i cs h)
  | inr (inr r) ↦ rw (step_at, r) (unlinked-IsCounted c.linked i cs h)
]

run-IsCounted : (ss : List Step) (cs : Contexts) → IsCounted cs → IfSome IsCounted (run ss cs)
unfolding run step
run-IsCounted [] cs h = h
run-IsCounted (s ∷ ss) cs h = elim (Option-cases (get_elem? cs (site s))) [
  | inl gone ↦ rw (run, step, gone) tt
  | inr (c, g) ↦ elim (Option-cases (step_at s c cs)) [
    | inl stuck ↦ rw (run, step, g, stuck) tt
    | inr (cs', goes) ↦
        rw (run, step, g, goes) (run-IsCounted ss cs' (rw goes at (step_at-IsCounted s c cs g h)))
  ]
]

new_root-IsCounted : IsCounted (new_root ∷ [])
unfolding at running_children
new_root-IsCounted zero = refl
new_root-IsCounted (suc i) = refl

abbrev pub IsOver : ℕ → Contexts → Type 0
IsOver i cs =
    (j : ℕ) (d : Context) → get_elem? cs j ≡ some d → d.parent ≡ some i → d.phase ≢ running

over :
    (i j : ℕ) (cs : Contexts) (d : Context)
    → running_children i cs ≡ 0
    → get_elem? cs j ≡ some d
    → d.parent ≡ some i
    → d.phase ≢ running
unfolding running_children
over i j [] d none_left g p r = cc
over i zero (x ∷ cs) d none_left g p r =
    let e : x ≡ d = cc in
    let one : eqb i i ≡ true = (eqb_iff i i).1 refl in
    absurd (omega (arith, rw (e, p, r, one) at none_left))
over i (suc j) (x ∷ cs) d none_left g p r = over i j cs d (omega arith) g p r

over-zero : (i : ℕ) (cs : Contexts) → IsOver i cs → running_children i cs ≡ 0
unfolding running_children
over-zero i [] h = refl
over-zero i (x ∷ cs) h =
    omega (
      arith,
      over-zero i cs (λ j. h (suc j)),
      share-zero x.phase x.parent (λ p r. h zero x refl p r),
    )
  where
    share-zero :
        (ph : Phase) (o : Option ℕ) → (o ≡ some i → ph ≢ running) → share ph (has_parent i o) ≡ 0
    share-zero running none k = refl
    share-zero running (some p) k = elim (Bool-cases (eqb p i)) [
      | inl same ↦ absurd (k (ap some ((eqb_iff p i).0 same)) refl)
      | inr other ↦ rw other refl
    ]
    share-zero returned o k = refl
    share-zero done o k = refl

own-zero : (p : Phase) → own_of p ≡ 0 → p ≡ done
own-zero running h = absurd (omega arith)
own-zero returned h = absurd (omega arith)
own-zero done h = refl

-- Whatever goroutines have done since the start, `Wait` of a context returns exactly when its own
-- goroutine has ended and no callback that it started as a child still runs.
pub wait-IsOver :
    (ss : List Step) (cs : Contexts) (i : ℕ) (c : Context)
    → run ss (new_root ∷ []) ≡ some cs
    → get_elem? cs i ≡ some c
    → (wait c ≢ none) ↔ ((c.phase ≡ done) × IsOver i cs)
unfolding wait
wait-IsOver ss cs i c h g =
    let counted : IsCounted cs = rw h at (run-IsCounted ss (new_root ∷ []) new_root-IsCounted) in
    let sum : c.wg ≡ own c + running_children i cs =
      sym (at-get count i cs g)
      ∙ counted i
      ∙ ap (λ n. n + running_children i cs) (at-get own i cs g) in
    (
      λ waits. elim (Bool-cases (eqb c.wg 0)) [
        | inl zeroed ↦
            let e : c.wg ≡ 0 = (eqb_iff c.wg 0).0 zeroed in
            (own-zero c.phase (omega arith), λ j d. over i j cs d (omega arith))
        | inr some_left ↦ absurd (waits (rw (wait, some_left) refl))
      ],
      λ (ended, children) waits.
          let e : c.wg ≡ 0 = sum ∙ rw (ended, over-zero i cs children) refl in
          cc (waits, (eqb_iff c.wg 0).1 e),
    )
