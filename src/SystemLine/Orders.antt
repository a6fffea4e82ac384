-- ===== src/SystemLine/Orders.antt =====
-- What the `$` commands of system.c work on and ask of other modules.
use g_carvin.Base.{
  ℕ, suc, Bool, true, false, Option, none, some, List, [], ◌∷◌, ◌++◌, ◌==◌, if◌then◌else◌,
}
use g_carvin.Base.{length, get_or, drop}
use g_carvin.System.{State, idle, alarm, check_mode, cycle, hold, jog, Machine}
use g_carvin.NutsBolts.{Decimal}
use g_carvin.Eeprom.{Mode, Memory}
use g_carvin.Settings.{Settings}
use g_carvin.Settings.Memory.{Layout}
use g_carvin.Settings.Restore.{Constants}
use g_carvin.Gcode.Real.{Arithmetic}
use g_carvin.Gcode.State.{GcState, Action, World}
use g_carvin.Gcode.Execution.{Outcome, gc_execute_line}

-- What a command prints or asks of other modules.
pub data Order (V : Type 0) : Type 0 where
  report_grbl_help report_grbl_settings report_gcode_modes report_ngc_parameters : Order V
  report_build_info print_switch_states st_go_idle reset_cpu : Order V
  message_enabled message_disabled message_alarm_unlock message_restore_defaults : Order V
  report_startup_line report_status_message report_execute_startup_message : ℕ → Order V
  throb_leds : Bool → Order V
  parsed : List (Action V) → Order V

-- The globals that a command changes.
pub record Sys (V : Type 0) : Type 0 where
  pub machine : Machine
  pub gc : GcState V
  pub settings : Settings
  pub memory : Memory
  pub use_sleep_feature : Bool
  pub orders : List (Order V)

-- A command that resets the CPU does not return; its status is never seen.
pub record Executed (V : Type 0) : Type 0 where
  pub returns : Bool
  pub status : ℕ
  pub sys : Sys V

-- What the commands use: the floats and the answers of the parser, the EEPROM and the layout of its
-- contents, the control port, `parameter > n` and `parameter < n`, `(uint8_t)(parameter - 800)`, what `mc_homing_cycle` leaves, and
-- the status and the EEPROM that `ps_settings_store_setting` leaves.
pub record Env (V : Type 0) : Type 0 where
  pub float : Arithmetic V
  pub world : Sys V → World V
  pub program : Mode → ℕ → ℕ → ℕ
  pub layout : Layout
  pub constants : Constants
  pub port : ℕ
  pub above : Decimal → ℕ → Bool
  pub below : Decimal → ℕ → Bool
  pub product_parameter : Decimal → ℕ
  pub mc_homing_cycle : Machine → Machine
  pub ps_settings_store_setting : ℕ → Decimal → Memory → ℕ × Memory

-- The character `line[n]` of the buffer.
abbrev pub char_at : ℕ → List ℕ → ℕ
char_at n line = get_or line n 0

-- The text in front of the zero.
abbrev pub text : List ℕ → List ℕ
text [] = []
text (c ∷ cs) = if c == 0 then [] else c ∷ text cs

-- `do { line[i] = line[n + i] } while (line[n + i] != 0)`, by what stands from `n` on.
abbrev pub shift : List ℕ → List ℕ → List ℕ
shift rest line = text rest ++ 0 ∷ drop (suc (length (text rest))) line

-- What follows `=`.
abbrev pub after_equals : List ℕ → Option (List ℕ)
after_equals [] = none
after_equals (c ∷ cs) = if c == b'=' then some cs else none

abbrev pub is_idle : State → Bool
is_idle idle = true
is_idle _ = false

abbrev pub is_alarm : State → Bool
is_alarm alarm = true
is_alarm _ = false

abbrev pub is_jog : State → Bool
is_jog jog = true
is_jog _ = false

abbrev pub is_check_mode : State → Bool
is_check_mode check_mode = true
is_check_mode _ = false

-- STATE_CYCLE | STATE_HOLD
abbrev pub is_running : State → Bool
is_running cycle = true
is_running hold = true
is_running _ = false

module _ {V : Type 0} (env : Env V) where
  abbrev pub order : Order V → Sys V → Sys V
  order o s = record s { orders = s.orders ++ o ∷ [] }

  abbrev pub ends : ℕ → Sys V → Executed V
  ends status s = record { returns = true; status = status; sys = s }

  abbrev pub set_state : State → Sys V → Sys V
  set_state state s = record s { machine = record (s.machine) { state = state } }

  -- A line of G-code; the parser always ends.
  abbrev pub after_line : Sys V → Option (Outcome V) → Executed V
  after_line s none = ends 0 s
  after_line s (some o) = ends o.status (order (parsed o.actions) (record s { gc = o.state }))

  unfoldable pub parse : List ℕ → Sys V → Executed V
  parse line s = after_line s (gc_execute_line env.float (env.world s) (text line) s.gc)
