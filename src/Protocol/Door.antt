-- ===== src/Protocol/Door.antt =====
-- The safety door: what each block of `protocol_exec_rt_system` in protocol.c keeps of a machine
-- that is stopped at the open door.
use mathlib.Core.Path.{subst}
use g_carvin.Base.{sym, ap, ◌∙◌, true, ◌≡◌, ◌⊎◌, arith, if_ind}
use g_carvin.System.{
  safety_door, sleep, Machine, ExecState, StepControl, Suspend, log, report_feedback_message,
  safety_door_ajar,
}
use g_carvin.System.Flags.{system_clear_exec_state_flag}
use g_carvin.Protocol.Hold.{
  begin_hold, hold_when_idle, motion_cancel, feed_hold, restart_retract, enter_door, set_ajar,
  door_event, sleep_event, hold_events, hold_block,
}
use g_carvin.Protocol.Cycle.{
  start_at_door, start_or_restore, start_block, complete_hold, flush_jog, end_motion, stop_block,
}

-- The door is marked ajar, and the machine waits in the door state or sleeps.
pub record Parked (m : Machine) : Type 0 where
  pub ajar : m.suspend.door_ajar ≡ true
  pub stopped : (m.state ≡ safety_door) ⊎ (m.state ≡ sleep)

clear-Parked : (e : ExecState) (m : Machine) → Parked m → Parked (system_clear_exec_state_flag e m)
unfolding system_clear_exec_state_flag
clear-Parked e m p = ground arith

begin_hold-Parked : (rt : ExecState) (m : Machine) → Parked m → Parked (begin_hold rt m)
unfolding begin_hold
begin_hold-Parked rt m p = ground arith

hold_when_idle-Parked : (m : Machine) → Parked m → Parked (hold_when_idle m)
unfolding hold_when_idle
hold_when_idle-Parked m p = ground arith

motion_cancel-Parked : (rt : ExecState) (m : Machine) → Parked m → Parked (motion_cancel rt m)
unfolding motion_cancel
motion_cancel-Parked rt m p = ground arith

feed_hold-Parked : (rt : ExecState) (m : Machine) → Parked m → Parked (feed_hold rt m)
unfolding feed_hold
feed_hold-Parked rt m p = ground arith

restart_retract-Parked : (m : Machine) → Parked m → Parked (restart_retract m)
unfolding restart_retract
restart_retract-Parked m p = ground arith

enter_door-Parked : (m : Machine) → Parked m → Parked (enter_door m)
unfolding enter_door
enter_door-Parked m p = ground (arith, restart_retract-Parked m)

door_event-Parked : (rt : ExecState) (m : Machine) → Parked m → Parked (door_event rt m)
unfolding door_event set_ajar
door_event-Parked rt m p =
    ground (arith, enter_door-Parked (log (report_feedback_message safety_door_ajar) m))

sleep_event-Parked : (rt : ExecState) (m : Machine) → Parked m → Parked (sleep_event rt m)
unfolding sleep_event
sleep_event-Parked rt m p = ground arith

hold_events-Parked : (rt : ExecState) (m : Machine) → Parked m → Parked (hold_events rt m)
unfolding hold_events
hold_events-Parked rt m p = if_ind Parked _ p (
    door_event-Parked rt _ (
      feed_hold-Parked rt _
        (motion_cancel-Parked rt _ (hold_when_idle-Parked _ (begin_hold-Parked rt m p)))))

pub hold_block-Parked : (rt : ExecState) (m : Machine) → Parked m → Parked (hold_block rt m)
unfolding hold_block
hold_block-Parked rt m p =
    if_ind Parked _ (clear-Parked _ _ (sleep_event-Parked rt _ (hold_events-Parked rt m p))) p

pub start_at_door-Parked : (m : Machine) → Parked m → start_at_door m ≡ m
unfolding start_at_door
start_at_door-Parked m p = ground arith

pub start_or_restore-Parked :
    (prep : Machine → StepControl) (m : Machine) → Parked m → start_or_restore prep m ≡ m
unfolding start_or_restore
start_or_restore-Parked prep m p = ground arith

pub start_block-Parked :
    (prep : Machine → StepControl) (rt : ExecState) (m : Machine)
    → Parked m
    → Parked (start_block prep rt m)
unfolding start_block
start_block-Parked prep rt m p =
    if_ind Parked _
      (clear-Parked _ _ (
        if_ind Parked _ p (
          subst Parked
            (sym (
              ap (start_or_restore prep) (start_at_door-Parked m p)
              ∙ start_or_restore-Parked prep m p))
            p)))
      p

complete_hold-Parked : (m : Machine) → Parked m → Parked (complete_hold m)
unfolding complete_hold
complete_hold-Parked m p = ground arith

-- A jog that was cancelled, or any other motion, ends at the door while it is ajar.
flush_jog-ajar : (m : Machine) → (flush_jog m).suspend ≡ m.suspend
unfolding flush_jog
flush_jog-ajar m = ground arith

end_motion-Parked : (m : Machine) → m.suspend.door_ajar ≡ true → Parked (end_motion m)
unfolding end_motion
end_motion-Parked m a = ground arith

pub stop_ended : (m : Machine) → m.suspend.door_ajar ≡ true → Parked (end_motion (flush_jog m))
stop_ended m a =
    end_motion-Parked (flush_jog m) (ap (λ (s : Suspend). s.door_ajar) (flush_jog-ajar m) ∙ a)

pub stop_block-Parked : (rt : ExecState) (m : Machine) → Parked m → Parked (stop_block rt m)
unfolding stop_block
stop_block-Parked rt m p =
    if_ind Parked _
      (clear-Parked _ _ (if_ind Parked _ (complete_hold-Parked m p) (stop_ended m p.ajar))) p
