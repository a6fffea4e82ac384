-- ===== src/Protocol/Hold.antt =====
-- The block of `protocol_exec_rt_system` in protocol.c for motion cancel, feed hold, safety door
-- and sleep.
use g_carvin.Base.{Bool, true, false, not, ◌&&◌, ◌||◌, if◌then◌else◌}
use g_carvin.System.{
  State, idle, alarm, check_mode, cycle, hold, jog, safety_door, sleep, Machine, ExecState, log,
  suspend_disable, normal_op, safety_door_ajar, report_feedback_message,
  st_update_plan_block_parameters, set_button_led,
}
use g_carvin.System.Flags.{no_exec, system_clear_exec_state_flag}

abbrev pub is_cycle_or_jog : State → Bool
is_cycle_or_jog cycle = true
is_cycle_or_jog jog = true
is_cycle_or_jog _ = false

abbrev pub is_jog : State → Bool
is_jog jog = true
is_jog _ = false

abbrev pub is_idle : State → Bool
is_idle idle = true
is_idle _ = false

abbrev pub is_alarm : State → Bool
is_alarm alarm = true
is_alarm _ = false

abbrev pub is_alarm_or_check : State → Bool
is_alarm_or_check alarm = true
is_alarm_or_check check_mode = true
is_alarm_or_check _ = false

-- STATE_SAFETY_DOOR | STATE_JOG | STATE_SLEEP
abbrev pub ignores_hold : State → Bool
ignores_hold safety_door = true
ignores_hold jog = true
ignores_hold sleep = true
ignores_hold _ = false

abbrev pub is_safety_door : State → Bool
is_safety_door safety_door = true
is_safety_door _ = false

abbrev pub is_sleep : State → Bool
is_sleep sleep = true
is_sleep _ = false

-- A running cycle or jog starts to decelerate; a jog is cancelled by every event but a sleep.
unfoldable pub begin_hold : ExecState → Machine → Machine
begin_hold rt m =
    if is_cycle_or_jog m.state && not (m.suspend.motion_cancelled || m.suspend.jog_cancel)
    then record (log st_update_plan_block_parameters m) {
      step_control = record normal_op { execute_hold = true };
      suspend = record (m.suspend) {
        jog_cancel = m.suspend.jog_cancel || (is_jog m.state && not rt.sleep);
      };
    }
    else m

unfoldable pub hold_when_idle : Machine → Machine
hold_when_idle m =
    if is_idle m.state
    then record m { suspend = record suspend_disable { hold_complete = true } }
    else m

unfoldable pub motion_cancel : ExecState → Machine → Machine
motion_cancel rt m =
    if rt.motion_cancel && not (is_jog m.state)
    then record m { suspend = record (m.suspend) { motion_cancelled = true } }
    else m

unfoldable pub feed_hold : ExecState → Machine → Machine
feed_hold rt m =
    if rt.feed_hold
    then log set_button_led (record m { state = if ignores_hold m.state then m.state else hold })
    else m

-- The door opens while the machine restores from an earlier opening.
unfoldable pub restart_retract : Machine → Machine
restart_retract m =
    let moving = m.step_control.execute_sys_motion in
    record m {
      calls = if moving then (log st_update_plan_block_parameters m).calls else m.calls;
      step_control =
          if moving
          then record normal_op { execute_hold = true; execute_sys_motion = true }
          else m.step_control;
      suspend = record (m.suspend) {
        hold_complete = m.suspend.hold_complete && not moving;
        retract_complete = false;
        initiate_restore = false;
        restore_complete = false;
        restart_retract = true;
      };
    }

unfoldable pub enter_door : Machine → Machine
enter_door m =
    let restarted =
      if is_safety_door m.state && m.suspend.initiate_restore then restart_retract m else m in
    if m.suspend.jog_cancel
    then m
    else record restarted { state = if is_sleep m.state then sleep else safety_door }

unfoldable pub set_ajar : Machine → Machine
set_ajar m = record m { suspend = record (m.suspend) { door_ajar = true } }

unfoldable pub door_event : ExecState → Machine → Machine
door_event rt m =
    if rt.safety_door
    then set_ajar (enter_door (log (report_feedback_message safety_door_ajar) m))
    else m

unfoldable pub sleep_event : ExecState → Machine → Machine
sleep_event rt m =
    if rt.sleep
    then record m {
      state = sleep;
      suspend = record (m.suspend) {
        retract_complete = m.suspend.retract_complete || is_alarm m.state;
        hold_complete = m.suspend.hold_complete || is_alarm m.state;
      };
    }
    else m

-- The events that the alarm and check states lock out.
unfoldable pub hold_events : ExecState → Machine → Machine
hold_events rt m =
    if is_alarm_or_check m.state
    then m
    else door_event rt (feed_hold rt (motion_cancel rt (hold_when_idle (begin_hold rt m))))

abbrev pub hold_flags : ExecState
hold_flags = record no_exec {
  motion_cancel = true;
  feed_hold = true;
  safety_door = true;
  sleep = true;
}

-- Lines 268 to 342.
unfoldable pub hold_block : ExecState → Machine → Machine
hold_block rt m =
    if rt.motion_cancel || (rt.feed_hold || (rt.safety_door || rt.sleep))
    then system_clear_exec_state_flag hold_flags (sleep_event rt (hold_events rt m))
    else m
