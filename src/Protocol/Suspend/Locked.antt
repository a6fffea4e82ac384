-- ===== src/Protocol/Suspend/Locked.antt =====
-- A machine that is parked at the open door, and has not begun to restore, does not begin to in a pass
-- of `protocol_exec_rt_system` of protocol.c.
use mathlib.Core.Path.{subst}
use g_carvin.Base.{true, false, ◌≡◌, sym, ap, ◌∙◌, arith, if_ind, inl, inr, Bool-cases, List, some}
use g_carvin.System.{
  Machine, ExecState, StepControl, Suspend, log, report_feedback_message, safety_door_ajar,
}
use g_carvin.System.Flags.{system_clear_exec_state_flag}
use g_carvin.Protocol.Alarm.{Interrupt, alarm_block}
use g_carvin.Protocol.Hold.{
  begin_hold, hold_when_idle, motion_cancel, feed_hold, restart_retract, enter_door, set_ajar,
  door_event, sleep_event, hold_events, hold_block,
}
use g_carvin.Protocol.Cycle.{
  start_or_restore, start_block, complete_hold, flush_jog, end_motion, stop_block,
}
use g_carvin.Protocol.Door.{
  Parked, hold_block-Parked, start_block-Parked, stop_block-Parked, start_at_door-Parked,
  start_or_restore-Parked,
}
use g_carvin.Protocol.Realtime.{state_blocks, after_alarm, protocol_exec_rt_system}
use g_carvin.Protocol.Realtime.Interlock.{
  SameState, status_block-same, override_blocks-same, pass_lem, Parked-same,
}

abbrev pub IsResting : Machine → Type 0
IsResting m = m.suspend.initiate_restore ≡ false

same-IsResting : {m n : Machine} → SameState m n → IsResting m → IsResting n
same-IsResting s r = ap (λ (c : Suspend). c.initiate_restore) s.suspend ∙ r

clear-IsResting :
    (e : ExecState) (m : Machine) → IsResting m → IsResting (system_clear_exec_state_flag e m)
unfolding system_clear_exec_state_flag
clear-IsResting e m r = r

begin_hold-IsResting : (rt : ExecState) (m : Machine) → IsResting m → IsResting (begin_hold rt m)
unfolding begin_hold
begin_hold-IsResting rt m r = ground arith

hold_when_idle-IsResting : (m : Machine) → IsResting m → IsResting (hold_when_idle m)
unfolding hold_when_idle
hold_when_idle-IsResting m r = ground arith

motion_cancel-IsResting :
    (rt : ExecState) (m : Machine) → IsResting m → IsResting (motion_cancel rt m)
unfolding motion_cancel
motion_cancel-IsResting rt m r = ground arith

feed_hold-IsResting : (rt : ExecState) (m : Machine) → IsResting m → IsResting (feed_hold rt m)
unfolding feed_hold
feed_hold-IsResting rt m r = ground arith

enter_door-IsResting : (m : Machine) → IsResting m → IsResting (enter_door m)
unfolding enter_door restart_retract
enter_door-IsResting m r = ground arith

door_event-IsResting : (rt : ExecState) (m : Machine) → IsResting m → IsResting (door_event rt m)
unfolding door_event set_ajar
door_event-IsResting rt m r =
    if_ind IsResting rt.safety_door
      (enter_door-IsResting (log (report_feedback_message safety_door_ajar) m) r) r

sleep_event-IsResting : (rt : ExecState) (m : Machine) → IsResting m → IsResting (sleep_event rt m)
unfolding sleep_event
sleep_event-IsResting rt m r = ground arith

hold_events-IsResting : (rt : ExecState) (m : Machine) → IsResting m → IsResting (hold_events rt m)
unfolding hold_events
hold_events-IsResting rt m r = if_ind IsResting _ r (
    door_event-IsResting rt _ (
      feed_hold-IsResting rt _
        (motion_cancel-IsResting rt _ (hold_when_idle-IsResting _ (begin_hold-IsResting rt m r)))))

hold_block-IsResting : (rt : ExecState) (m : Machine) → IsResting m → IsResting (hold_block rt m)
unfolding hold_block
hold_block-IsResting rt m r =
    if_ind IsResting _
      (clear-IsResting _ _ (sleep_event-IsResting rt _ (hold_events-IsResting rt m r))) r

start_block-IsResting :
    (prep : Machine → StepControl) (rt : ExecState) (m : Machine)
    → Parked m
    → IsResting m
    → IsResting (start_block prep rt m)
unfolding start_block
start_block-IsResting prep rt m p r =
    if_ind IsResting _
      (clear-IsResting _ _ (
        if_ind IsResting _ r (
          subst IsResting
            (sym (
              ap (start_or_restore prep) (start_at_door-Parked m p)
              ∙ start_or_restore-Parked prep m p))
            r)))
      r

end_motion-IsResting : (m : Machine) → IsResting m → IsResting (end_motion (flush_jog m))
unfolding end_motion flush_jog
end_motion-IsResting m r = ground arith

stop_block-IsResting : (rt : ExecState) (m : Machine) → IsResting m → IsResting (stop_block rt m)
unfolding stop_block complete_hold
stop_block-IsResting rt m r =
    if_ind IsResting rt.cycle_stop
      (clear-IsResting _ _ (if_ind IsResting _ r (end_motion-IsResting m r))) r

-- The machine waits at the open door, and does not restore.
pub record IsLocked (m : Machine) : Type 0 where
  pub parked : Parked m
  pub resting : IsResting m

pub same-IsLocked : {m n : Machine} → SameState m n → IsLocked m → IsLocked n
same-IsLocked s l = record { parked = Parked-same s l.parked; resting = same-IsResting s l.resting }

hold_block-IsLocked : (rt : ExecState) (m : Machine) → IsLocked m → IsLocked (hold_block rt m)
hold_block-IsLocked rt m l = record {
  parked = hold_block-Parked rt m l.parked;
  resting = hold_block-IsResting rt m l.resting;
}

start_block-IsLocked :
    (prep : Machine → StepControl) (rt : ExecState) (m : Machine)
    → IsLocked m
    → IsLocked (start_block prep rt m)
start_block-IsLocked prep rt m l = record {
  parked = start_block-Parked prep rt m l.parked;
  resting = start_block-IsResting prep rt m l.parked l.resting;
}

stop_block-IsLocked : (rt : ExecState) (m : Machine) → IsLocked m → IsLocked (stop_block rt m)
stop_block-IsLocked rt m l = record {
  parked = stop_block-Parked rt m l.parked;
  resting = stop_block-IsResting rt m l.resting;
}

pub state_blocks-IsLocked :
    (prep : Machine → StepControl) (rt : ExecState) (m : Machine)
    → IsLocked m
    → IsLocked (state_blocks prep rt m)
unfolding state_blocks
state_blocks-IsLocked prep rt m l = stop_block-IsLocked _ _ (
    start_block-IsLocked prep _ _
      (hold_block-IsLocked _ _ (same-IsLocked (status_block-same _ _) l)))

module _ (prep : Machine → StepControl) (arrivals : List Interrupt) (m : Machine) where
  pub reset_lem :
      m.exec_alarm ≡ 0
      → m.exec_state.reset ≡ true
      → protocol_exec_rt_system prep arrivals m ≡ some (record m { abort = true })
  unfolding protocol_exec_rt_system alarm_block after_alarm
  reset_lem a r = rw (a, r)

  -- A machine that is locked at the open door, with no alarm pending, is locked after a pass of the
  -- realtime executor, whatever else was requested.
  pub IsLocked-stays :
      m.exec_alarm ≡ 0
      → IsLocked m
      → (n : Machine) × (protocol_exec_rt_system prep arrivals m ≡ some n) × IsLocked n
  IsLocked-stays a l = elim (Bool-cases m.exec_state.reset) [
    | inl r ↦ (
      record m { abort = true },
      reset_lem a r,
      record {
        parked = record { ajar = l.parked.ajar; stopped = l.parked.stopped };
        resting = l.resting;
      },
    )
    | inr r ↦ (
      _,
      pass_lem prep arrivals m a r,
      same-IsLocked (override_blocks-same prep _) (state_blocks-IsLocked prep m.exec_state m l),
    )
  ]
