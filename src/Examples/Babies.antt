-- ===== src/Examples/Babies.antt =====
-- Runs of pkg/baby: states merged, and a manager with one subscriber.
use nanit_onvif.Prelude.{
  ◌≡◌, refl, pos, true, false, some, String, List, [], ◌∷◌, arith, if◌then◌else◌, String_eq, ◌==◌,
  lookup, insert,
}
use nanit_onvif.Baby.State.{State, new_state, merge, merge_field}
use nanit_onvif.Baby.State.Overlay.{overlay}
use nanit_onvif.Baby.State.Merge.{merge-eq-overlay}
use nanit_onvif.Baby.Manager.{
  StateManager, SubscriberWorker, update, get_baby_state, store, enqueue, work,
}
use nanit_onvif.Baby.Manager.Updates.{get_baby_state-update}
use nanit_onvif.Baby.Manager.Queue.{Turn, send, take, run, Ran, run_in_order}
use nanit_onvif.Baby.Manager.Views.{
  apply_events, Watch, Step, stores, tells, takes, run as run_watch, IsCurrent, run-IsCurrent,
}

abbrev warm : State
warm = record new_state { temperature_milli = some (pos 24000) }

abbrev moving : State
moving = record new_state { motion_detected = some true }

abbrev listener : SubscriberWorker
listener = record { id = 1; queue = []; dropped = 0; done = false }

abbrev nursery : StateManager
nursery = record { babies_by_uid = ("cot", warm) ∷ []; subscribers = listener ∷ [] }

get_baby_state-update_example : get_baby_state (update nursery "cot" moving) "cot" ≡ (
    if ◌==◌ {A = String} "cot" "cot"
    then overlay (get_baby_state nursery "cot") moving
    else get_baby_state nursery "cot")
get_baby_state-update_example = get_baby_state-update nursery "cot" moving "cot"

abbrev turns : List Turn
turns = send ("cot", moving) ∷ take ∷ send ("cot", warm) ∷ []

run_in_order_example : Ran listener turns (run listener turns)
run_in_order_example =
    run_in_order listener turns
      (record { bounded = omega arith; registered = refl; counter = omega arith })

abbrev watch : Watch
watch = record { manager = nursery; worker = listener; view = get_baby_state nursery; pending = [] }

-- Two babies are updated, the second is told first.
abbrev passing : List Step
passing = stores "cot" moving ∷ stores "crib" warm ∷ tells 1 ∷ takes ∷ tells 0 ∷ []

run-IsCurrent_example : IsCurrent (run_watch passing watch)
unfolding apply_events run_watch store lookup merge insert enqueue work merge_field
run-IsCurrent_example =
    run-IsCurrent passing watch refl (omega arith, refl, (omega arith, refl, tt)) (λ j. refl)

merge-eq-overlay_example : (merge warm moving).0 ≡ overlay warm moving
merge-eq-overlay_example = merge-eq-overlay warm moving
