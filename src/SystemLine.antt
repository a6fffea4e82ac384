-- ===== src/SystemLine.antt =====
-- The `$` commands: `system_execute_line` of system.c, and those that act in any state.
mod Orders
mod Idle
mod Added
mod States
mod Alarmed
mod Tests
use g_carvin.Base.{
  ℕ, zero, suc, Bool, true, false, not, ◌&&◌, ◌||◌, Option, none, some, List, [], ◌∷◌, ◌++◌, ◌==◌,
  if◌then◌else◌,
}
use g_carvin.Base.{length, get_or, drop}
use g_carvin.System.{State, idle, alarm, check_mode, homing, cycle, hold, jog, Machine}
use g_carvin.System.Flags.{no_exec, system_set_exec_state_flag}
use g_carvin.System.Pins.{system_check_safety_door_ajar}
use g_carvin.MotionControl.{mc_reset}
use g_carvin.Base.Status.{Result, ok, fail}
use g_carvin.NutsBolts.{Decimal, read_float}
use g_carvin.Eeprom.{Mode, Memory}
use g_carvin.Settings.{Settings}
use g_carvin.Settings.Memory.{
  Layout, LineReading, settings_store_startup_line, settings_store_build_info,
  settings_read_startup_line, settings_read_build_info,
}
use g_carvin.Settings.Restore.{
  RestoreFlags, Constants, Restored, settings_restore, restore_all, store_setting,
}
use g_carvin.Gcode.{int_value}
use g_carvin.Gcode.Real.{Arithmetic}
use g_carvin.Gcode.State.{GcState, Action, World}
use g_carvin.Gcode.Execution.{Outcome, gc_execute_line}
pub use g_carvin.SystemLine.Orders.{
  Order, report_grbl_help, report_grbl_settings, report_gcode_modes, report_ngc_parameters,
  report_build_info, print_switch_states, st_go_idle, reset_cpu, message_enabled, message_disabled,
  message_alarm_unlock, message_restore_defaults, report_startup_line, report_status_message,
  report_execute_startup_message, throb_leds, parsed, Sys, Executed, Env, char_at, text, shift,
  after_equals, is_idle, is_alarm, is_jog, is_check_mode, is_running, order, ends, set_state,
  after_line,
}
unfoldable pub use g_carvin.SystemLine.Orders.{parse}
pub use g_carvin.SystemLine.Idle.{
  restore_flags, restore_settings, after_store, after_value, after_assignment, after_parameter,
}
unfoldable pub use g_carvin.SystemLine.Idle.{
  startup_line, system_execute_startup, home, sleep_command, build_info, restore_command,
  print_startup_line, store_startup_line, store_parameter, assign, startup_command,
}

module _ {V : Type 0} (env : Env V) where
  -- $J
  unfoldable pub jog_line : List ℕ → Sys V → Executed V
  jog_line line s =
      if not (is_idle s.machine.state || is_jog s.machine.state)
      then ends env 8 s
      else if not (char_at 2 line == b'=')
      then ends env 3 s
      else parse env line s

  -- $C
  unfoldable pub toggle_check_mode : Sys V → Executed V
  toggle_check_mode s =
      if is_check_mode s.machine.state
      then ends env 0 (order env message_disabled (record s { machine = mc_reset s.machine }))
      else if not (is_idle s.machine.state)
      then ends env 8 s
      else ends env 0 (order env message_enabled (set_state env check_mode s))

  -- $X
  unfoldable pub unlock_alarm : Sys V → Executed V
  unlock_alarm s =
      if is_alarm s.machine.state
      then (if system_check_safety_door_ajar env.port
          then ends env 13 s
          else ends env 0 (set_state env idle (order env message_alarm_unlock s)))
      else ends env 0 s

  -- $$, $G, $C and $X
  unfoldable pub state_command : ℕ → Sys V → Executed V
  state_command c s =
      if c == b'$'
      then (if is_running s.machine.state
          then ends env 8 s
          else ends env 0 (order env report_grbl_settings s))
      else if c == b'G'
      then ends env 0 (order env report_gcode_modes s)
      else if c == b'C'
      then toggle_check_mode s
      else unlock_alarm s

  -- The commands of the idle and alarm states.
  unfoldable pub idle_command : ℕ → List ℕ → Sys V → Executed V
  idle_command c line s =
      if c == b'#'
      then (if not (char_at 2 line == 0)
          then ends env 3 s
          else ends env 0 (order env report_ngc_parameters s))
      else if c == b'H'
      then home env line s
      else if c == b'S'
      then sleep_command env line s
      else if c == b'I'
      then build_info env line s
      else if c == b'K'
      then record { returns = false; status = 0; sys = order env reset_cpu s }
      else if c == b'L'
      then ends env 0 (order env (throb_leds (char_at 2 line == b'1')) s)
      else if c == b'D'
      then ends env 0 (record s { use_sleep_feature = not s.use_sleep_feature })
      else if c == b'R'
      then restore_command env line s
      else if c == b'N'
      then startup_command env line s
      else assign env false (drop 1 line) line s

  abbrev pub is_state_command : ℕ → Bool
  is_state_command c = c == b'$' || (c == b'G' || (c == b'C' || c == b'X'))

  unfoldable pub system_execute_line : List ℕ → Sys V → Executed V
  system_execute_line line s =
      let c = char_at 1 line in
      if c == 0
      then ends env 0 (order env report_grbl_help s)
      else if c == b'J'
      then jog_line line s
      else if is_state_command c
      then (if not (char_at 2 line == 0) then ends env 3 s else state_command c s)
      else if not (is_idle s.machine.state || is_alarm s.machine.state)
      then ends env 8 s
      else idle_command c line s
