-- ===== src/SystemLine/Idle.antt =====
-- The `$` commands of system.c that act in the idle and alarm states only.
use g_carvin.Base.{
  ℕ, Bool, true, false, not, ◌&&◌, ◌||◌, Option, none, some, List, ◌==◌, if◌then◌else◌,
}
use g_carvin.Base.{drop}
use g_carvin.System.{idle, homing}
use g_carvin.System.Flags.{no_exec, system_set_exec_state_flag}
use g_carvin.System.Pins.{system_check_safety_door_ajar}
use g_carvin.MotionControl.{mc_reset}
use g_carvin.Base.Status.{Result, ok, fail}
use g_carvin.NutsBolts.{Decimal, read_float}
use g_carvin.Settings.Memory.{
  settings_store_startup_line, settings_store_build_info, settings_read_startup_line,
  settings_read_build_info,
}
use g_carvin.Settings.Restore.{RestoreFlags, Restored, settings_restore, restore_all, store_setting}
use g_carvin.Gcode.{int_value}
use g_carvin.SystemLine.Orders.{
  report_build_info, print_switch_states, st_go_idle, message_restore_defaults, report_startup_line,
  report_status_message, report_execute_startup_message, Sys, Executed, Env, char_at, shift,
  after_equals, is_idle, order, ends, set_state, parse,
}

module _ {V : Type 0} (env : Env V) where
  -- One round of `system_execute_startup`.
  unfoldable pub startup_line : ℕ → Sys V → Sys V
  startup_line n s =
      let r = settings_read_startup_line env.program n s.memory in
      let read = record s { memory = r.memory } in
      if not r.success
      then order env (report_execute_startup_message 7) read
      else if not (char_at 0 r.line == 0)
      then (let e = parse env r.line read in
          order env (report_execute_startup_message e.status) e.sys)
      else read

  unfoldable pub system_execute_startup : Sys V → Sys V
  system_execute_startup s = startup_line 1 (startup_line 0 s)

  -- $H, without HOMING_SINGLE_AXIS_COMMANDS.
  unfoldable pub home : List ℕ → Sys V → Executed V
  home line s =
      let begun = set_state env homing s in
      let homed = record begun { machine = env.mc_homing_cycle begun.machine } in
      if not s.settings.flags.homing_enable
      then ends env 5 s
      else if system_check_safety_door_ajar env.port
      then ends env 13 s
      else if not (char_at 2 line == 0)
      then ends env 3 begun
      else if homed.machine.abort
      then ends env 0 homed
      else ends env 0 (system_execute_startup (order env st_go_idle (set_state env idle homed)))

  -- $S and $SLP
  unfoldable pub sleep_command : List ℕ → Sys V → Executed V
  sleep_command line s =
      if char_at 2 line == 0
      then ends env 0 (order env print_switch_states s)
      else if char_at 2 line == b'L' || (char_at 3 line == b'P' || char_at 4 line == 0)
      then ends env 0 (record s {
        machine = system_set_exec_state_flag (record no_exec { sleep = true }) s.machine;
      })
      else ends env 3 s

  -- $I
  unfoldable pub build_info : List ℕ → Sys V → Executed V
  build_info line s =
      if char_at 2 line == 0
      then ends env 0 (
          order env report_build_info
            (record s { memory = (settings_read_build_info env.program s.memory).memory }))
      else if not (char_at 2 line == b'=')
      then ends env 3 s
      else ends env 0 (record s {
        memory = settings_store_build_info env.program (shift (drop 3 line) line) s.memory;
      })

  abbrev pub restore_flags : ℕ → Option RestoreFlags
  restore_flags c =
      if c == b'$'
      then some (record {
        defaults = true;
        parameters = false;
        startup_lines = false;
        build_info = false;
      })
      else if c == b'#'
      then some (record {
        defaults = false;
        parameters = true;
        startup_lines = false;
        build_info = false;
      })
      else if c == b'*'
      then some (restore_all env.program)
      else none

  abbrev pub restore_settings : Sys V → Option RestoreFlags → Executed V
  restore_settings s none = ends env 3 s
  restore_settings s (some flags) =
      let r =
        settings_restore env.program env.layout env.constants env.constants.parameters flags
          s.settings s.memory in
      ends env 0 (
        order env message_restore_defaults
          (record s { settings = r.settings; memory = r.memory; machine = mc_reset s.machine }))

  -- $RST
  unfoldable pub restore_command : List ℕ → Sys V → Executed V
  restore_command line s =
      if not (char_at 2 line == b'S')
        || (not (char_at 3 line == b'T')
            || (not (char_at 4 line == b'=') || not (char_at 6 line == 0)))
      then ends env 3 s
      else restore_settings s (restore_flags (char_at 5 line))

  -- $N
  unfoldable pub print_startup_line : ℕ → Sys V → Sys V
  print_startup_line n s =
      let r = settings_read_startup_line env.program n s.memory in
      order env (if not r.success then report_status_message 7 else report_startup_line n)
        (record s { memory = r.memory })

  -- A startup line is stored once it was executed without an error.
  unfoldable pub store_startup_line : Decimal → List ℕ → Sys V → Executed V
  store_startup_line parameter line s =
      let e = parse env line s in
      let n = int_value (env.world s).conversions parameter in
      if not (e.status == 0)
      then e
      else ends env 0
          (record (e.sys) { memory = settings_store_startup_line env.program n line e.sys.memory })

  abbrev pub after_store : Sys V → Result Restored → Executed V
  after_store s (fail status) = ends env status s
  after_store s (ok d) = ends env 0 (record s { settings = d.settings; memory = d.memory })

  unfoldable pub store_parameter : Decimal → Decimal → Sys V → Executed V
  store_parameter parameter value s =
      let conversions = (env.world s).conversions in
      let product =
        env.ps_settings_store_setting (env.product_parameter parameter) value s.memory in
      if (env.above parameter 255 && env.below parameter 800) || env.above parameter 1055
      then ends env 3 s
      else if not (env.above parameter 255)
      then after_store s (
          store_setting env.program env.layout conversions (int_value conversions parameter) value
            s.settings s.memory)
      else ends env product.0 (record s { memory = product.1 })

  abbrev pub after_value : Decimal → Sys V → Option (Decimal × List ℕ) → Executed V
  after_value parameter s none = ends env 2 s
  after_value parameter s (some (value, rest)) =
      if not (char_at 0 rest == 0) then ends env 3 s else store_parameter parameter value s

  abbrev pub after_assignment : Bool → Decimal → List ℕ → Sys V → Option (List ℕ) → Executed V
  after_assignment startup parameter line s none = ends env 3 s
  after_assignment startup parameter line s (some rest) =
      if startup
      then store_startup_line parameter (shift rest line) s
      else after_value parameter s (read_float rest)

  abbrev pub after_parameter : Bool → List ℕ → Sys V → Option (Decimal × List ℕ) → Executed V
  after_parameter startup line s none = ends env 2 s
  after_parameter startup line s (some (parameter, rest)) =
      after_assignment startup parameter line s (after_equals rest)

  -- The storing commands, $x=val and $Nx=line, from the number on.
  unfoldable pub assign : Bool → List ℕ → List ℕ → Sys V → Executed V
  assign startup number line s = after_parameter startup line s (read_float number)

  -- $N and $Nx=line
  unfoldable pub startup_command : List ℕ → Sys V → Executed V
  startup_command line s =
      if char_at 2 line == 0
      then ends env 0 (print_startup_line 1 (print_startup_line 0 s))
      else if not (is_idle s.machine.state)
      then ends env 8 s
      else assign true (drop 2 line) line s
