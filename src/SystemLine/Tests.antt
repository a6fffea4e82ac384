-- ===== src/SystemLine/Tests.antt =====
-- `$` commands on a machine that waits at the door, one in the alarm state, and one that is unlocked.
use g_carvin.Base.{ℕ, ◌≡◌, refl, true, false, []}
use g_carvin.Examples.{idle_machine, codes, natural, machine, started, program, constants, blank}
use g_carvin.System.{safety_door, alarm, State}
use g_carvin.System.Pins.{system_control_get_state, system_check_safety_door_ajar}
use g_carvin.Settings.Memory.{default_settings}
use g_carvin.Settings.Packed.{packed}
use g_carvin.Protocol.Line.{gc_execute_line, line_dispatch}
use g_carvin.SystemLine.{Env, Sys, system_execute_line}
use g_carvin.SystemLine.States.{
  OnlyPrints, system_execute_line-OnlyPrints, system_execute_line-unlocks,
}

-- The door is closed and the button released.
abbrev env : Env ℕ
env = record {
  float = natural;
  world = λ s. machine;
  program = program;
  layout = packed;
  constants = constants;
  port = 4;
  above = λ v n. false;
  below = λ v n. false;
  product_parameter = λ v. 0;
  mc_homing_cycle = λ m. m;
  ps_settings_store_setting = λ n v mem. (0, mem);
}

abbrev sys_in : State → Sys ℕ
sys_in state = record {
  machine = record idle_machine { state = state };
  gc = started;
  settings = default_settings;
  memory = blank;
  use_sleep_feature = true;
  orders = [];
}

system_execute_line-OnlyPrints_example :
    OnlyPrints env
      (sys_in safety_door)
      (system_execute_line env (codes "$RST=*") (sys_in safety_door))
system_execute_line-OnlyPrints_example =
    system_execute_line-OnlyPrints env (codes "$RST=*") (sys_in safety_door) refl

system_execute_line-unlocks_example :
    ((system_execute_line env (codes "$HX") (sys_in alarm)).status ≡ 3)
    × (line_dispatch
          (system_execute_line env (codes "$HX") (sys_in alarm)).sys.machine.state
          false
          (codes "G0X1")
        ≡ gc_execute_line (codes "G0X1"))
unfolding default_settings system_check_safety_door_ajar system_control_get_state
system_execute_line-unlocks_example =
    system_execute_line-unlocks env (codes "$HX") (sys_in alarm) (codes "G0X1") refl refl refl refl
      refl refl refl
