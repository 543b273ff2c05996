-- ===== src/Utils/Perseverance.antt =====
-- pkg/utils/attempter.go: the retry loop. Durations are numbers of nanoseconds; the context and the
-- handler come as the list of what happens at each round.
pub mod Schedule
use nanit_onvif.Prelude.{
  ℕ, suc, ◌+◌, ◌-◌, Bool, true, false, ◌&&◌, Option, none, some, List, [], ◌∷◌, length, get_elem?,
  ltb, eqb, if◌then◌else◌,
}

-- pkg/utils/number.go
unfoldable pub min_int : ℕ → ℕ → ℕ
min_int a b = if ltb b a then b else a

pub record PerseverenceOpts : Type 0 where
  pub cooldown : List ℕ
  pub reset_threshold : ℕ

-- What a round of the loop meets: the context cancelled before the attempt, or an attempt that was
-- cancelled in the middle, ended with no error, or failed after some time.
pub data Round : Type 0 where
  context_done : Round
  cancelled : Round
  finished : Round
  failed : ℕ → Round

-- `Cooldown[MinInt(try, len(Cooldown)) - 1]`; `none` is the panic of an index out of range.
unfoldable pub cooldown_at : PerseverenceOpts → ℕ → Option ℕ
unfolding min_int
cooldown_at opts try =
    let n = min_int try (length opts.cooldown) in
    if eqb n 0 then none else get_elem? opts.cooldown (n - 1)

-- The next value of `try`, and the delay that the timer is reset to, after a failed attempt.
unfoldable pub after_failure : PerseverenceOpts → ℕ → ℕ → Option (ℕ × ℕ)
after_failure opts try time_taken =
    if ltb 0 opts.reset_threshold && ltb opts.reset_threshold time_taken
    then some (1, 0)
    else (elim (cooldown_at opts try) [
      | none ↦ none
      | some cooldown ↦ some (try + 1, if ltb time_taken cooldown then cooldown - time_taken else 0)
    ])

-- How the loop ends: it returns, it panics, or it has used up the rounds.
pub data Ending : Type 0 where
  returned panicked running : Ending

-- An attempt that was made: its `try`, and the delay of the timer that set it off.
abbrev pub Attempt : Type 0
Attempt = ℕ × ℕ

-- The `for` loop: the attempts made, in order, and the ending.
unfoldable pub loop : PerseverenceOpts → ℕ → ℕ → List Round → List Attempt × Ending
loop opts try delay [] = ([], running)
loop opts try delay (context_done ∷ rounds) = ([], returned)
loop opts try delay (cancelled ∷ rounds) = ((try, delay) ∷ [], returned)
loop opts try delay (finished ∷ rounds) = ((try, delay) ∷ [], returned)
loop opts try delay (failed time_taken ∷ rounds) = elim (after_failure opts try time_taken) [
  | none ↦ ((try, delay) ∷ [], panicked)
  | some (try', delay') ↦
      let (attempts, ending) = loop opts try' delay' rounds in ((try, delay) ∷ attempts, ending)
]

unfoldable pub run_with_perseverance : PerseverenceOpts → List Round → List Attempt × Ending
run_with_perseverance opts rounds = loop opts 1 0 rounds
