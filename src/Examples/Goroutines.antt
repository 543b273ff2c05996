-- ===== src/Examples/Goroutines.antt =====
-- Runs of pkg/utils/graceful.go.
use nanit_onvif.Prelude.{
  ◌+◌, ◌*◌, ◌≤◌, ◌≡◌, ◌≢◌, ◌↔◌, ◌⊎◌, true, false, refl, some, none, List, [], ◌∷◌, get_elem?, ℕ,
}
use nanit_onvif.Utils.Graceful.{
  Step, spawn, fails, returns, ends, cancels, joins, failure, err_cancel, Context, Contexts, done,
  new_root, new_child, run, wait, step,
}
use nanit_onvif.Utils.Graceful.Waiting.{IsOver, wait-IsOver}
use nanit_onvif.Utils.Graceful.Cancelling.{fail-Reaches}
use nanit_onvif.Utils.Graceful.Ending.{moves, starts, Goes, Ended, run-Ends}

-- A handler starts a child and fails; the child is cancelled and returns; all ends.
abbrev steps : List Step
steps =
    spawn 0
    ∷ fails 0 (failure 3)
    ∷ cancels 1
    ∷ returns 0
    ∷ ends 0
    ∷ returns 1
    ∷ ends 1
    ∷ joins 1
    ∷ []

abbrev root_end : Context
root_end = record new_root {
  wg = 0;
  has_been_canceled = true;
  err = some (failure 3);
  phase = done;
}

abbrev child_end : Context
child_end = record (new_child 0) {
  wg = 0;
  has_been_canceled = true;
  err = some err_cancel;
  phase = done;
  linked = false;
}

abbrev contexts : Contexts
contexts = root_end ∷ child_end ∷ []

steps-run : run steps (new_root ∷ []) ≡ some contexts
unfolding run
steps-run = refl

wait-IsOver_example : (wait root_end ≢ none) ↔ ((root_end.phase ≡ done) × IsOver 0 contexts)
wait-IsOver_example = wait-IsOver steps contexts 0 root_end steps-run refl

run-Ends_example :
    (moves steps ≤ 2 + 4 * starts steps)
    × (Goes contexts ⊎ ((i : ℕ) (c : Context) → get_elem? contexts i ≡ some c → Ended c))
run-Ends_example = run-Ends steps contexts steps-run

abbrev start : List Step
start = spawn 0 ∷ fails 0 (failure 3) ∷ []

abbrev root_failed : Context
root_failed = record new_root { wg = 2; has_been_canceled = true; err = some (failure 3) }

abbrev failing : Contexts
failing = root_failed ∷ new_child 0 ∷ []

start-run : run start (new_root ∷ []) ≡ some failing
unfolding run
start-run = refl

fail-Reaches_example :
    ((new_child 0).has_been_canceled ≡ true)
    ⊎ ((cs' : Contexts) × (step (cancels 1) failing ≡ some cs')
        × ((c' : Context) × (get_elem? cs' 1 ≡ some c') × (c'.has_been_canceled ≡ true)))
fail-Reaches_example =
    fail-Reaches start failing 1 0 (new_child 0) root_failed start-run refl refl refl refl refl
