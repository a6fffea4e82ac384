-- ===== src/Protocol/Cycle.antt =====
-- The cycle start and cycle stop blocks of `protocol_exec_rt_system` in protocol.c.
use g_carvin.Base.{Bool, true, false, not, ◌&&◌, ◌||◌, if◌then◌else◌}
use g_carvin.System.{
  State, idle, cycle, hold, safety_door, sleep, Machine, ExecState, StepControl, log,
  suspend_disable, normal_op, stop_is_active, st_wake_up, st_prep_buffer, st_reset, plan_reset,
  plan_sync_position, plan_cycle_reinitialize, gc_sync_position, button_led_on,
}
use g_carvin.System.Flags.{no_exec, system_clear_exec_state_flag}
use g_carvin.Protocol.Override.{is_hold}
use g_carvin.Protocol.Hold.{is_idle, is_safety_door}

-- At the door, once it is closed: resume, or begin to restore.
unfoldable pub start_at_door : Machine → Machine
start_at_door m =
    if is_safety_door m.state && not m.suspend.door_ajar
    then (if m.suspend.restore_complete
        then record m { state = idle }
        else if m.suspend.retract_complete
        then record m { suspend = record (m.suspend) { initiate_restore = true } }
        else m)
    else m

-- `prep_control` is the step control byte that `st_prep_buffer` of stepper.c leaves.
module _ (prep_control : Machine → StepControl) where
  -- Leave the suspend state: into the cycle if a block waits and the motion was not cancelled.
  unfoldable pub resume : Machine → Machine
  resume m =
      if m.block_waiting && not m.suspend.motion_cancelled
      then log button_led_on (
          log st_wake_up (
            log st_prep_buffer (record m {
              suspend = suspend_disable;
              state = cycle;
              step_control =
                  prep_control (record m {
                    step_control = normal_op;
                    suspend = suspend_disable;
                    state = cycle;
                  });
            })))
      else log button_led_on
          (record m { step_control = normal_op; suspend = suspend_disable; state = idle })

  unfoldable pub start_or_restore : Machine → Machine
  start_or_restore m =
      if is_idle m.state || (is_hold m.state && m.suspend.hold_complete)
      then (if is_hold m.state && stop_is_active m.spindle_stop_ovr
          then record m { spindle_stop_ovr = record (m.spindle_stop_ovr) { restore_cycle = true } }
          else resume m)
      else m

  -- Lines 345 to 385.
  unfoldable pub start_block : ExecState → Machine → Machine
  start_block rt m =
      if rt.cycle_start
      then system_clear_exec_state_flag (record no_exec { cycle_start = true })
          (if rt.feed_hold || (rt.motion_cancel || rt.safety_door)
            then m
            else start_or_restore (start_at_door m))
      else m

-- STATE_HOLD | STATE_SAFETY_DOOR | STATE_SLEEP
abbrev pub is_suspended : State → Bool
is_suspended hold = true
is_suspended safety_door = true
is_suspended sleep = true
is_suspended _ = false

-- A hold has come to rest.
unfoldable pub complete_hold : Machine → Machine
complete_hold m = record (log plan_cycle_reinitialize m) {
  suspend = record (m.suspend) {
    hold_complete = m.suspend.hold_complete || m.step_control.execute_hold;
  };
  step_control = record (m.step_control) { execute_hold = false; execute_sys_motion = false };
}

-- A cancelled jog has come to rest: the buffers are flushed.
unfoldable pub flush_jog : Machine → Machine
flush_jog m =
    if m.suspend.jog_cancel
    then log plan_sync_position (
        log gc_sync_position (
          log st_reset
            (log plan_reset (record m { step_control = normal_op; block_waiting = false }))))
    else m

unfoldable pub end_motion : Machine → Machine
end_motion m =
    if m.suspend.door_ajar
    then record m {
      suspend = record (m.suspend) { jog_cancel = false; hold_complete = true };
      state = safety_door;
    }
    else record m { suspend = suspend_disable; state = idle }

-- Lines 387 to 419.
unfoldable pub stop_block : ExecState → Machine → Machine
stop_block rt m =
    if rt.cycle_stop
    then system_clear_exec_state_flag (record no_exec { cycle_stop = true })
        (if is_suspended m.state && (not m.soft_limit && not m.suspend.jog_cancel)
          then complete_hold m
          else end_motion (flush_jog m))
    else m
