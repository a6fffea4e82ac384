-- ===== src/Protocol/Alarm.antt =====
-- The alarm block of `protocol_exec_rt_system` in protocol.c, with its wait for a reset.
use mathlib.Core.Option
use g_carvin.Base.{ℕ, Bool, true, ◌||◌, Option, some, none, List, [], ◌∷◌, ◌==◌, if◌then◌else◌}
use g_carvin.System.{
  alarm, Machine, ExecState, MotionOverride, AccessoryOverride, log, critical_event,
  report_alarm_message, report_feedback_message,
}
use g_carvin.System.Flags.{
  no_exec, system_set_exec_state_flag, system_clear_exec_state_flag, system_clear_exec_alarm,
  system_set_exec_alarm, system_set_exec_motion_override_flag,
  system_set_exec_accessory_override_flag,
}
use g_carvin.MotionControl.{mc_reset}

-- What an interrupt handler does to the flags.
pub data Interrupt : Type 0 where
  set_exec : ExecState → Interrupt
  set_alarm : ℕ → Interrupt
  set_motion : MotionOverride → Interrupt
  set_accessory : AccessoryOverride → Interrupt
  reset_button : Interrupt

unfoldable pub handle : Interrupt → Machine → Machine
handle (set_exec e) m = system_set_exec_state_flag e m
handle (set_alarm a) m = system_set_exec_alarm a m
handle (set_motion e) m = system_set_exec_motion_override_flag e m
handle (set_accessory e) m = system_set_exec_accessory_override_flag e m
handle reset_button m = mc_reset m

-- `do { } while (bit_isfalse(sys_rt_exec_state, EXEC_RESET))`, with the interrupts that arrive
-- meanwhile. `none`: they end and no reset has come.
unfoldable pub wait_for_reset : List Interrupt → Machine → Option Machine
wait_for_reset [] m = if m.exec_state.reset then some m else none
wait_for_reset (i ∷ later) m =
    let rest = wait_for_reset later (handle i m) in if m.exec_state.reset then some m else rest

-- EXEC_ALARM_HARD_LIMIT and EXEC_ALARM_SOFT_LIMIT
abbrev pub is_critical : ℕ → Bool
is_critical a = a == 1 || a == 2

abbrev pub only_reset : ExecState
only_reset = record no_exec { reset = true }

-- Lines 229 to 249.
unfoldable pub alarm_block : List Interrupt → Machine → Option Machine
alarm_block arrivals m =
    if m.exec_alarm == 0
    then some m
    else (let told = log (report_alarm_message m.exec_alarm) (record m { state = alarm }) in
        if is_critical m.exec_alarm
        then Option.map system_clear_exec_alarm (
            wait_for_reset arrivals (
              system_clear_exec_state_flag only_reset
                (log (report_feedback_message critical_event) told)))
        else some (system_clear_exec_alarm told))
