-- ===== src/Utils/Perseverance/Schedule.antt =====
-- The schedule of the attempts: no panic, the counting of tries, the cooldowns.
use nanit_onvif.Prelude.{
  ℕ, zero, suc, ◌+◌, ◌-◌, ◌≤◌, ◌<◌, min, ◌≡◌, refl, ◌≢◌, Bool, false, ◌&&◌, some, List, [], ◌∷◌,
  length, get_elem?, get_or, ltb, if◌then◌else◌, arith,
}
use nanit_onvif.Utils.Perseverance.{
  PerseverenceOpts, Round, context_done, cancelled, finished, failed, min_int, cooldown_at,
  after_failure, panicked, running, Attempt, loop, run_with_perseverance,
}

get_elem?-get_or : (xs : List ℕ) (i : ℕ) → i < length xs → get_elem? xs i ≡ some (get_or xs i 0)
get_elem?-get_or [] i h = absurd (omega arith)
get_elem?-get_or (x ∷ xs) zero h = refl
get_elem?-get_or (x ∷ xs) (suc i) h = get_elem?-get_or xs i (omega arith)

-- The cooldown of the `try`-th attempt: the last one for all tries past the end of the list.
abbrev pub planned : PerseverenceOpts → ℕ → ℕ
planned opts try = get_or opts.cooldown (min try (length opts.cooldown) - 1) 0

abbrev pub is_reset : PerseverenceOpts → ℕ → Bool
is_reset opts time_taken = ltb 0 opts.reset_threshold && ltb opts.reset_threshold time_taken

cooldown_at-planned :
    (opts : PerseverenceOpts) (try : ℕ)
    → 0 < length opts.cooldown
    → 0 < try
    → cooldown_at opts try ≡ some (planned opts try)
unfolding cooldown_at min_int
cooldown_at-planned opts try h k =
    ground (arith, get_elem?-get_or opts.cooldown (min try (length opts.cooldown) - 1))

after_failure-planned :
    (opts : PerseverenceOpts) (try time_taken : ℕ)
    → 0 < length opts.cooldown
    → 0 < try
    → after_failure opts try time_taken
      ≡ some (if is_reset opts time_taken then (1, 0) else (try + 1, planned opts try - time_taken))
unfolding after_failure
after_failure-planned opts try time_taken h k = ground (arith, cooldown_at-planned opts try h k)

-- Every attempt has a try of at least 1.
abbrev pub IsCounted : List Attempt → Type 0
IsCounted [] = Unit {0}
IsCounted ((try, delay) ∷ rest) = (0 < try) × IsCounted rest

loop_safe :
    (opts : PerseverenceOpts) (try delay : ℕ) (rounds : List Round)
    → 0 < length opts.cooldown
    → 0 < try
    → ((loop opts try delay rounds).1 ≢ panicked)
      × IsCounted (loop opts try delay rounds).0
      × (length (loop opts try delay rounds).0 ≤ length rounds)
unfolding loop
loop_safe opts try delay [] h k = (λ e. cc, tt, omega arith)
loop_safe opts try delay (context_done ∷ rounds) h k = (λ e. cc, tt, omega arith)
loop_safe opts try delay (cancelled ∷ rounds) h k = (λ e. cc, (k, tt), omega arith)
loop_safe opts try delay (finished ∷ rounds) h k = (λ e. cc, (k, tt), omega arith)
loop_safe opts try delay (failed t ∷ rounds) h k =
    let (safe, counted, few) = loop_safe opts next.0 next.1 rounds h next_pos in
    rw (after_failure-planned opts try t h k, loop) (safe, (k, counted), omega arith)
  where
    next : ℕ × ℕ
    next = if is_reset opts t then (1, 0) else (try + 1, planned opts try - t)

    next_pos : 0 < next.0
    next_pos = ground arith

-- With at least one cooldown the loop never panics, every attempt counts from 1, and there is at
-- most one attempt for each round.
pub run_with_perseverance_safe :
    (opts : PerseverenceOpts) (rounds : List Round)
    → 0 < length opts.cooldown
    → ((run_with_perseverance opts rounds).1 ≢ panicked)
      × IsCounted (run_with_perseverance opts rounds).0
      × (length (run_with_perseverance opts rounds).0 ≤ length rounds)
unfolding run_with_perseverance
run_with_perseverance_safe opts rounds h = loop_safe opts 1 0 rounds h (omega arith)

-- Failures in a row: the tries go up by one, and each delay fills up the time that the attempt
-- before took to its cooldown.
abbrev pub backoff : PerseverenceOpts → ℕ → ℕ → List ℕ → List Attempt
backoff opts try delay [] = []
backoff opts try delay (t ∷ ts) = (try, delay) ∷ backoff opts (try + 1) (planned opts try - t) ts

abbrev pub rounds_of : List ℕ → List Round
rounds_of [] = []
rounds_of (t ∷ ts) = failed t ∷ rounds_of ts

-- No attempt lasted beyond the reset threshold.
abbrev pub AllShort : PerseverenceOpts → List ℕ → Type 0
AllShort opts [] = Unit {0}
AllShort opts (t ∷ ts) = (is_reset opts t ≡ false) × AllShort opts ts

loop-backoff :
    (opts : PerseverenceOpts) (try delay : ℕ) (ts : List ℕ)
    → 0 < length opts.cooldown
    → 0 < try
    → AllShort opts ts
    → loop opts try delay (rounds_of ts) ≡ (backoff opts try delay ts, running)
unfolding loop
loop-backoff opts try delay [] h k s = refl
loop-backoff opts try delay (t ∷ ts) h k (short, s) =
    rw (after_failure-planned opts try t h k, short, loop)
      (rw (loop-backoff opts (try + 1) (planned opts try - t) ts h (omega arith) s))

-- After failures that are none of them past the reset threshold, the attempts have the tries
-- 1, 2, 3, …, the first starts at once, and every other is delayed by what the planned cooldown of
-- the try before exceeds the time which that took; past the end of the list the last cooldown serves.
pub run_with_perseverance-backoff :
    (opts : PerseverenceOpts) (ts : List ℕ)
    → 0 < length opts.cooldown
    → AllShort opts ts
    → run_with_perseverance opts (rounds_of ts) ≡ (backoff opts 1 0 ts, running)
unfolding run_with_perseverance
run_with_perseverance-backoff opts ts h s = loop-backoff opts 1 0 ts h (omega arith) s
