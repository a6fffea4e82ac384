-- ===== src/Protocol/Suspend/Flood.antt =====
-- The flood coolant over a pass of `protocol_exec_rt_system` of protocol.c: at the door and asleep its
-- toggle is not accepted.
use g_carvin.Base.{
  ℕ, Bool, false, ◌≡◌, sym, ap, ◌∙◌, arith, if_ind, if_cases, ◌&&◌, inl, inr, Bool-cases, List,
  some, none, Option,
}
use mathlib.Core.Path.{subst}
use g_carvin.System.{Machine, ExecState, StepControl}
use g_carvin.System.Flags.{
  system_clear_exec_state_flag, system_clear_exec_motion_overrides,
  system_clear_exec_accessory_overrides,
}
use g_carvin.MotionControl.{coolant_stop}
use g_carvin.Protocol.Alarm.{Interrupt}
use g_carvin.Protocol.Hold.{
  begin_hold, hold_when_idle, motion_cancel, feed_hold, restart_retract, enter_door, set_ajar,
  door_event, sleep_event, hold_events, hold_block,
}
use g_carvin.Protocol.Cycle.{
  start_at_door, resume, start_or_restore, start_block, complete_hold, flush_jog, end_motion,
  stop_block,
}
use g_carvin.Protocol.Override.{
  set_motion_overrides, motion_override_block, set_spindle_override, toggle_spindle_stop,
  coolant_set_state, accepts_coolant, toggle_coolant, accessory_override_block,
}
use g_carvin.Protocol.Realtime.{
  count_report, status_block, prep_block, state_blocks, override_blocks, protocol_exec_rt_system,
}
use g_carvin.Protocol.Realtime.Interlock.{
  pass_lem, SameState-trans, clear_accessory-same, set_spindle_override-same,
  toggle_spindle_stop-same, motion_override_block-same,
}
use g_carvin.Protocol.Suspend.Locked.{IsLocked, same-IsLocked, state_blocks-IsLocked, reset_lem}

-- The flood coolant is off.
pub record IsDry (m : Machine) : Type 0 where
  pub dry : m.flood_pin ≡ false

clear-IsDry : (e : ExecState) (m : Machine) → IsDry m → IsDry (system_clear_exec_state_flag e m)
unfolding system_clear_exec_state_flag
clear-IsDry e m d = ground arith

status_block-IsDry : (rt : ExecState) (m : Machine) → IsDry m → IsDry (status_block rt m)
unfolding status_block system_clear_exec_state_flag count_report
status_block-IsDry rt m d = ground arith

begin_hold-IsDry : (rt : ExecState) (m : Machine) → IsDry m → IsDry (begin_hold rt m)
unfolding begin_hold
begin_hold-IsDry rt m d = ground arith

hold_when_idle-IsDry : (m : Machine) → IsDry m → IsDry (hold_when_idle m)
unfolding hold_when_idle
hold_when_idle-IsDry m d = ground arith

motion_cancel-IsDry : (rt : ExecState) (m : Machine) → IsDry m → IsDry (motion_cancel rt m)
unfolding motion_cancel
motion_cancel-IsDry rt m d = ground arith

feed_hold-IsDry : (rt : ExecState) (m : Machine) → IsDry m → IsDry (feed_hold rt m)
unfolding feed_hold
feed_hold-IsDry rt m d = ground arith

door_event-IsDry : (rt : ExecState) (m : Machine) → IsDry m → IsDry (door_event rt m)
unfolding door_event set_ajar enter_door restart_retract
door_event-IsDry rt m d = ground arith

sleep_event-IsDry : (rt : ExecState) (m : Machine) → IsDry m → IsDry (sleep_event rt m)
unfolding sleep_event
sleep_event-IsDry rt m d = ground arith

hold_block-IsDry : (rt : ExecState) (m : Machine) → IsDry m → IsDry (hold_block rt m)
unfolding hold_block hold_events
hold_block-IsDry rt m d =
    if_ind IsDry _
      (clear-IsDry _ _ (
        sleep_event-IsDry rt _ (
          if_ind IsDry _ d (
            door_event-IsDry rt _ (
              feed_hold-IsDry rt _
                (motion_cancel-IsDry rt _ (hold_when_idle-IsDry _ (begin_hold-IsDry rt m d))))))))
      d

start_at_door-IsDry : (m : Machine) → IsDry m → IsDry (start_at_door m)
unfolding start_at_door
start_at_door-IsDry m d = ground arith

start_or_restore-IsDry :
    (prep : Machine → StepControl) (m : Machine) → IsDry m → IsDry (start_or_restore prep m)
unfolding start_or_restore resume
start_or_restore-IsDry prep m d = ground arith

start_block-IsDry :
    (prep : Machine → StepControl) (rt : ExecState) (m : Machine)
    → IsDry m
    → IsDry (start_block prep rt m)
unfolding start_block
start_block-IsDry prep rt m d =
    if_ind IsDry _
      (clear-IsDry _ _ (if_ind IsDry _ d (start_or_restore-IsDry prep _ (start_at_door-IsDry m d))))
      d

end_motion-IsDry : (m : Machine) → IsDry m → IsDry (end_motion (flush_jog m))
unfolding end_motion flush_jog
end_motion-IsDry m d = ground arith

complete_hold-IsDry : (m : Machine) → IsDry m → IsDry (complete_hold m)
unfolding complete_hold
complete_hold-IsDry m d = ground arith

stop_block-IsDry : (rt : ExecState) (m : Machine) → IsDry m → IsDry (stop_block rt m)
unfolding stop_block
stop_block-IsDry rt m d =
    if_ind IsDry rt.cycle_stop
      (clear-IsDry _ _ (if_ind IsDry _ (complete_hold-IsDry m d) (end_motion-IsDry m d))) d

pub coolant_set_state-IsDry : (m : Machine) → IsDry m → IsDry (coolant_set_state false m)
unfolding coolant_set_state coolant_stop
coolant_set_state-IsDry m d = ground arith

motion_override_block-IsDry : (m : Machine) → IsDry m → IsDry (motion_override_block m)
unfolding motion_override_block set_motion_overrides system_clear_exec_motion_overrides
motion_override_block-IsDry m d = ground arith

set_spindle_override-IsDry : (o : ℕ) (m : Machine) → IsDry m → IsDry (set_spindle_override o m)
unfolding set_spindle_override
set_spindle_override-IsDry o m d = ground arith

toggle_spindle_stop-IsDry : (s : Bool) (m : Machine) → IsDry m → IsDry (toggle_spindle_stop s m)
unfolding toggle_spindle_stop
toggle_spindle_stop-IsDry s m d = ground arith

clear_accessory-IsDry : (m : Machine) → IsDry m → IsDry (system_clear_exec_accessory_overrides m)
unfolding system_clear_exec_accessory_overrides
clear_accessory-IsDry m d = ground arith

-- A locked machine is at the door or asleep.
locked-refuses : (m : Machine) → IsLocked m → accepts_coolant m.state ≡ false
locked-refuses m l = let stopped = l.parked.stopped in ground arith

toggle_coolant-IsDry :
    (asked : Bool) (m : Machine) → IsLocked m → IsDry m → IsDry (toggle_coolant asked m)
unfolding toggle_coolant
toggle_coolant-IsDry asked m l d =
    let refuses = locked-refuses m l in
    if_cases IsDry (asked && accepts_coolant m.state) (λ e. absurd (ground arith)) (λ _. d)

accessory_override_block-IsDry :
    (m : Machine) → IsLocked m → IsDry m → IsDry (accessory_override_block m)
unfolding accessory_override_block
accessory_override_block-IsDry m l d =
    if_ind IsDry _
      (toggle_coolant-IsDry _ _
        (same-IsLocked
          (SameState-trans (clear_accessory-same m)
            (SameState-trans (set_spindle_override-same _ _) (toggle_spindle_stop-same _ _)))
          l)
        (toggle_spindle_stop-IsDry _ _
          (set_spindle_override-IsDry _ _ (clear_accessory-IsDry m d))))
      d

-- The machine that a pass leaves.
abbrev left_by : Machine → Option Machine → Machine
left_by m none = m
left_by m (some n) = n

module _ (prep : Machine → StepControl) where
  prep_block-IsDry : (m : Machine) → IsDry m → IsDry (prep_block prep m)
  unfolding prep_block
  prep_block-IsDry m d = ground arith

  override_blocks-IsDry : (m : Machine) → IsLocked m → IsDry m → IsDry (override_blocks prep m)
  unfolding override_blocks
  override_blocks-IsDry m l d = prep_block-IsDry _ (
      accessory_override_block-IsDry _ (same-IsLocked (motion_override_block-same m) l)
        (motion_override_block-IsDry m d))

  state_blocks-IsDry : (rt : ExecState) (m : Machine) → IsDry m → IsDry (state_blocks prep rt m)
  unfolding state_blocks
  state_blocks-IsDry rt m d =
      stop_block-IsDry rt _
        (start_block-IsDry prep rt _ (hold_block-IsDry rt _ (status_block-IsDry rt m d)))

  -- A pass of the executor does not turn the flood coolant on while the machine is locked.
  pub IsDry-stays :
      (arrivals : List Interrupt) (m n : Machine)
      → m.exec_alarm ≡ 0
      → IsLocked m
      → protocol_exec_rt_system prep arrivals m ≡ some n
      → IsDry m
      → IsDry n
  IsDry-stays arrivals m n a l e d = elim (Bool-cases m.exec_state.reset) [
    | inl r ↦
        subst IsDry (ap (left_by m) (sym (reset_lem prep arrivals m a r) ∙ e))
          (record { dry = d.dry })
    | inr r ↦ subst IsDry (ap (left_by m) (sym (pass_lem prep arrivals m a r) ∙ e)) (
        override_blocks-IsDry _ (state_blocks-IsLocked prep _ m l)
          (state_blocks-IsDry m.exec_state m d))
  ]
