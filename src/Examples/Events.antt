-- ===== src/Examples/Events.antt =====
-- Runs of pkg/onvif/events.go: a manager with one subscription.
use nanit_onvif.Prelude.{
  ◌+◌, ◌≡◌, refl, pos, true, false, some, none, List, [], ◌∷◌, arith, lookup, String_eq, ℕ,
}
use nanit_onvif.Baby.State.{State, new_state}
use nanit_onvif.Onvif.Events.{
  topic_motion, data_key_motion, Subscription, Timer, EventManager, map_values, clear_key_of,
  new_timer, schedule_clear, cancel_clear, fire_begin, fire_end, on_motion_time, handle_state,
}
use nanit_onvif.Onvif.Events.Emission.{receive, emitted, motion_note, subs-handle_state}
use nanit_onvif.Onvif.Events.Clears.{IsOrderly, handle_state-IsOrderly, NoneUnder}
use nanit_onvif.Onvif.Events.Pulse.{on_motion_time-pulse, fire_end-loses_timer}

abbrev sub : Subscription
sub = record { id = "s1"; terminate_at = 500; queue = []; waiters = [] }

abbrev clear : Timer
clear = record {
  timer_id = 0;
  deadline = 40;
  clear_key = clear_key_of "cot" topic_motion;
  baby_uid = "cot";
  topic = topic_motion;
  key = data_key_motion;
}

-- A baby whose motion was seen, with a clear that runs.
abbrev manager : EventManager
manager = record {
  hold_duration = 30;
  subs = ("s1", sub) ∷ [];
  clears = (clear_key_of "cot" topic_motion, 0) ∷ [];
  last_motion = ("cot", pos 10) ∷ [];
  last_sound = [];
  timers = clear ∷ [];
  next_timer = 1;
}

abbrev calm : State
calm = record new_state {
  motion_detected = some false;
  sound_timestamp = some (pos 3);
  sound_detected = some true;
}

orderly : IsOrderly manager
unfolding lookup
orderly = ((refl, omega arith), tt)

abbrev clock : ℕ → ℕ
clock n = 20 + n

subs-handle_state_example :
    (handle_state clock "cot" calm manager).subs
    ≡ map_values (receive (emitted clock "cot" calm manager)) manager.subs
subs-handle_state_example = subs-handle_state clock "cot" calm manager

handle_state-IsOrderly_example : IsOrderly (handle_state clock "cot" calm manager)
handle_state-IsOrderly_example = handle_state-IsOrderly clock "cot" calm manager orderly

abbrev triggered : EventManager
triggered = on_motion_time 20 21 "cot" (some (pos 12)) none manager

abbrev trigger_clear : Timer
trigger_clear = new_timer 20 "cot" topic_motion data_key_motion manager

abbrev pulse_end : Timer → EventManager
pulse_end t = fire_end t (fire_begin 50 t triggered)

on_motion_time-pulse_example :
    (t : Timer) × ((rest : List Timer) × (triggered.timers ≡ t ∷ rest)
      × NoneUnder (clear_key_of "cot" topic_motion) rest)
    × (t.clear_key ≡ clear_key_of "cot" topic_motion)
    × (t.deadline ≡ 21 + manager.hold_duration)
    × (lookup (clear_key_of "cot" topic_motion) triggered.clears ≡ some t.timer_id)
    × ((pulse_end t).subs
        ≡ map_values
            (receive (motion_note 20 "cot" true ∷ motion_note 50 "cot" false ∷ []))
            manager.subs)
    × NoneUnder (clear_key_of "cot" topic_motion) (pulse_end t).timers
    × (lookup (clear_key_of "cot" topic_motion) (pulse_end t).clears ≡ none)
unfolding lookup
on_motion_time-pulse_example =
    on_motion_time-pulse 20 21 50 "cot" (pos 12) (pos 10) manager orderly refl refl

abbrev fired : EventManager
fired = fire_begin 30 trigger_clear (schedule_clear 20 "cot" topic_motion data_key_motion manager)

abbrev raced : EventManager
raced = fire_end trigger_clear (schedule_clear 31 "cot" topic_motion data_key_motion fired)

fire_end-loses_timer_example :
    (cancel_clear "cot" topic_motion raced ≡ raced)
    × ((rest : List Timer) × (raced.timers
          ≡ new_timer 31 "cot" topic_motion data_key_motion fired ∷ rest))
fire_end-loses_timer_example =
    fire_end-loses_timer 20 30 31 "cot" topic_motion data_key_motion manager
