-- ===== src/Utils/Graceful.antt =====
-- pkg/utils/graceful.go: contexts that cancel and await each other. A context is an index into the
-- list of all contexts, children behind their parents; what goroutines do is an order of steps.
pub mod Counting
pub mod Waiting
pub mod Ending
pub mod Cancelling
use nanit_onvif.Prelude.{
  ℕ, suc, zero, ◌+◌, ◌-◌, Bool, true, false, Option, none, some, List, [], ◌∷◌, ◌++◌, if◌then◌else◌,
  get_elem?, ◌==◌, eqb,
}

-- `errCancel`, and the errors of handlers by number.
pub data Error : Type 0 where
  err_cancel : Error
  failure : ℕ → Error

-- A callback runs; it has returned and its parent knows; its own context knows as well.
pub data Phase : Type 0 where
  running returned done : Phase

-- `gracefulCtx` with the goroutines that belong to it. The goroutine that `RunAsChild` starts beside
-- the child waits in its `select` while it is `linked`, and in `Cancel`, for the child's wait group,
-- while it is `joining`.
pub record Context : Type 0 where
  pub parent : Option ℕ
  pub wg : ℕ
  pub has_been_canceled : Bool
  pub err : Option Error
  pub phase : Phase
  pub linked : Bool
  pub joining : Bool

abbrev pub Contexts : Type 0
Contexts = List Context

-- `RunWithGracefulCancel`, in the root.
abbrev pub new_root : Context
new_root = record {
  parent = none;
  wg = 1;
  has_been_canceled = false;
  err = none;
  phase = running;
  linked = false;
  joining = false;
}

abbrev pub new_child : ℕ → Context
new_child p = record new_root { parent = some p; linked = true }

unfoldable pub update_at : ℕ → (Context → Context) → Contexts → Contexts
update_at i f [] = []
update_at zero f (c ∷ cs) = f c ∷ cs
update_at (suc i) f (c ∷ cs) = c ∷ update_at i f cs

abbrev pub add : Context → Context
add c = record c { wg = c.wg + 1 }

abbrev pub wg_done : Context → Context
wg_done c = record c { wg = c.wg - 1 }

-- `Fail`: only the first error counts.
unfoldable pub fail : Error → Context → Context
fail e c = if c.has_been_canceled then c else record c { has_been_canceled = true; err = some e }

-- `RunAsChild`: a context that is cancelled starts no child.
unfoldable pub run_as_child : ℕ → Context → Contexts → Contexts
unfolding update_at
run_as_child p c cs = if c.has_been_canceled then cs else update_at p add cs ++ new_child p ∷ []

-- The end of the callback that `RunAsChild` wraps: the parent's `wg.Done`.
unfoldable pub inform : Option ℕ → Contexts → Contexts
unfolding update_at
inform none cs = cs
inform (some p) cs = update_at p wg_done cs

abbrev pub is_canceled : Option Context → Bool
is_canceled none = false
is_canceled (some c) = c.has_been_canceled

abbrev pub parent_of : Context → Contexts → Option Context
parent_of c cs = elim c.parent [ none ↦ none | some p ↦ get_elem? cs p ]

-- What goroutines do: a handler starts a child or fails, a callback returns, the context's goroutine
-- ends, the goroutine of the link calls `Cancel` of the child, which returns once the child's wait group
-- is down to 0, or it ends since the child has returned.
pub data Step : Type 0 where
  spawn : ℕ → Step
  fails : ℕ → Error → Step
  returns : ℕ → Step
  ends : ℕ → Step
  cancels : ℕ → Step
  unlinks : ℕ → Step
  joins : ℕ → Step

abbrev pub cut : Context → Context
cut c = record c { linked = false }

-- `Cancel`, up to its wait, and the end of the wait.
abbrev pub cancel : Context → Context
cancel c = record (cut (fail err_cancel c)) { joining = true }

abbrev pub join : Context → Context
join c = record c { joining = false }

-- A step at a context that is there, or none where it cannot be taken.
unfoldable pub step_at : Step → Context → Contexts → Option Contexts
unfolding fail run_as_child inform update_at
step_at (spawn i) c cs = some (run_as_child i c cs)
step_at (fails i e) c cs = some (update_at i (fail e) cs)
step_at (returns i) c cs = elim c.phase [
  | running ↦ some (inform c.parent (update_at i (λ x. record x { phase = returned }) cs))
  | returned ↦ none
  | done ↦ none
]
step_at (ends i) c cs = elim c.phase [
  | running ↦ none
  | returned ↦ some (update_at i (λ x. record (wg_done x) { phase = done }) cs)
  | done ↦ none
]
step_at (cancels i) c cs =
    if c.linked
    then (if is_canceled (parent_of c cs) then some (update_at i cancel cs) else none)
    else none
step_at (unlinks i) c cs = elim c.phase [
  | running ↦ none
  | returned ↦ if c.linked then some (update_at i cut cs) else none
  | done ↦ if c.linked then some (update_at i cut cs) else none
]
step_at (joins i) c cs =
    if c.joining then (if eqb c.wg 0 then some (update_at i join cs) else none) else none

abbrev pub site : Step → ℕ
site (spawn i) = i
site (fails i e) = i
site (returns i) = i
site (ends i) = i
site (cancels i) = i
site (unlinks i) = i
site (joins i) = i

unfoldable pub step : Step → Contexts → Option Contexts
unfolding step_at
step s cs = elim (get_elem? cs (site s)) [ none ↦ none | some c ↦ step_at s c cs ]

unfoldable pub run : List Step → Contexts → Option Contexts
unfolding step
run [] cs = some cs
run (s ∷ ss) cs = elim (step s cs) [ none ↦ none | some cs' ↦ run ss cs' ]

-- `Wait`: it returns where the count is zero, with the error, and whether that is the cancellation.
abbrev pub is_cancel : Option Error → Bool
is_cancel (some err_cancel) = true
is_cancel _ = false

unfoldable pub wait : Context → Option (Bool × Option Error)
wait c = if eqb c.wg 0 then some (is_cancel c.err, c.err) else none
