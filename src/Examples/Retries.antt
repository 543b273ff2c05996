-- ===== src/Examples/Retries.antt =====
-- Runs of pkg/utils: the tailer, and the retry loop.
use nanit_onvif.Prelude.{ℕ, ◌≡◌, refl, some, List, [], ◌∷◌, arith}
use nanit_onvif.Utils.Tailer.{LogTailer, new_log_tailer, tail, get_lines}
use nanit_onvif.Utils.Tailer.Window.{IsValid, keep_last, get_lines-tail}
use nanit_onvif.Utils.Perseverance.{PerseverenceOpts, running, run_with_perseverance}
use nanit_onvif.Utils.Perseverance.Schedule.{backoff, rounds_of, run_with_perseverance-backoff}

get_lines-tail_example :
    (t : LogTailer) × (tail (new_log_tailer 2) ("a" ∷ "b" ∷ "c" ∷ []) ≡ some t)
    × IsValid t
    × (get_lines t ≡ keep_last 2 ("a" ∷ "b" ∷ "c" ∷ []))
get_lines-tail_example = get_lines-tail 2 ("a" ∷ "b" ∷ "c" ∷ []) (omega arith)

abbrev opts : PerseverenceOpts
opts = record { cooldown = 2 ∷ 30 ∷ []; reset_threshold = 60 }

abbrev times : List ℕ
times = 1 ∷ 5 ∷ 40 ∷ []

run_with_perseverance-backoff_example :
    run_with_perseverance opts (rounds_of times) ≡ (backoff opts 1 0 times, running)
run_with_perseverance-backoff_example =
    run_with_perseverance-backoff opts times (omega arith) (refl, (refl, (refl, tt)))
