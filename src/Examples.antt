-- ===== src/Examples.antt =====
-- Concrete machines and rings at which the theorems of the library are applied.
use Prim.Native.Nat.{bit_and}
use g_carvin.Eeprom.{Mode, erase_write, erase_only, write_only, Memory}
use g_carvin.Eeprom.Bytes.{Programs}
use g_carvin.Base.{
  ℕ, ◌+◌, ◌-◌, ◌*◌, ◌==◌, ltb, refl, arith, true, false, some, List, [], ◌∷◌, replicate,
}
use Prim.Native.Char.{code}
use Prim.Native.String.{String}
use g_carvin.Gcode.{Modal, Conversions}
use g_carvin.Gcode.Real.{Arithmetic, Vec}
use g_carvin.Gcode.State.{GcState, World}
use g_carvin.Settings.Restore.{Constants}
use g_carvin.System.{idle, Machine, suspend_disable, normal_op, spindle_stop_disabled}
use g_carvin.System.Flags.{no_exec, no_motion, no_accessory}
use g_carvin.Serial.{Serial}

-- The machine after a start in the idle state.
abbrev pub idle_machine : Machine
idle_machine = record {
  state = idle;
  abort = false;
  suspend = suspend_disable;
  soft_limit = false;
  step_control = normal_op;
  f_override = 100;
  r_override = 100;
  spindle_speed_ovr = 100;
  spindle_stop_ovr = spindle_stop_disabled;
  report_ovr_counter = 0;
  report_wco_counter = 0;
  exec_state = no_exec;
  exec_alarm = 0;
  motion_override = no_motion;
  accessory_override = no_accessory;
  modal_coolant = false;
  modal_spindle = false;
  block_waiting = false;
  flood_pin = false;
  calls = [];
}

abbrev pub empty_serial : Serial
empty_serial = record {
  rx_buffer = replicate 129 0;
  rx_head = 0;
  rx_tail = 0;
  tx_buffer = replicate 105 0;
  tx_head = 0;
  tx_tail = 0;
  tx_interrupt = false;
  sent = [];
}

-- Both heads have gone round the end of their arrays; two bytes wait on each side.
abbrev pub wrapped_serial : Serial
wrapped_serial = record empty_serial {
  rx_head = 1;
  rx_tail = 128;
  tx_head = 1;
  tx_tail = 104;
  tx_interrupt = true;
}

-- Programming modes as in the data sheet, and an EEPROM that was never written.
abbrev pub program : Mode → ℕ → ℕ → ℕ
program erase_write old new = new
program erase_only old new = 255
program write_only old new = bit_and old new

abbrev pub data_sheet : Programs program
data_sheet = record { both = λ old new. refl; erase = λ old new. refl; write = λ old new. refl }

abbrev pub blank : Memory
blank a = 255

abbrev pub codes : String → List ℕ
codes String.[] = []
codes (String.◌∷◌ c s) = code c ∷ codes s

abbrev pub to_zero : Conversions
to_zero = record { to_uint8 = λ v. 0; to_uint16 = λ v. 0 }

-- The modal state after a start.
abbrev pub at_start : Modal
at_start = record {
  motion = 0;
  feed_rate = 0;
  units = 0;
  distance = 0;
  plane_select = 0;
  tool_length = 0;
  coord_select = 0;
  program_flow = 0;
  coolant = 0;
  spindle = 0;
}

abbrev pub natural : Arithmetic ℕ
natural = record {
  value = λ v. v.intval;
  nought = 0;
  half = 0;
  four = 4;
  five_thousandths = 0;
  thousandth = 0;
  is_nought = λ v. v == 0;
  less = ltb;
  same = λ v w. v == w;
  same_bytes = λ v w. v == w;
  add = λ v w. v + w;
  sub = λ v w. v - w;
  mul = λ v w. v * w;
  div = λ v w. v;
  neg = λ v. v;
  sqrt = λ v. v;
  fabs = λ v. v;
  to_mm = λ v. v * 25;
}

abbrev pub origin : Vec ℕ
origin = record { x = 0; y = 0; z = 0 }

abbrev pub machine : World ℕ
machine = record {
  conversions = to_zero;
  check_mode = false;
  laser_mode = false;
  soft_limit_enable = true;
  read_coord_data = λ n. some origin;
  is_idle = true;
  holds_block = λ target. true;
  travel_exceeded = λ target. ltb 100 target.x;
  probe = λ target. (0, target);
  machine_position = origin;
}

abbrev pub started : GcState ℕ
started = record {
  modal = at_start;
  spindle_speed = 0;
  feed_rate = 0;
  tool = 0;
  line_number = 0;
  position = origin;
  coord_system = origin;
  coord_offset = origin;
  tool_length_offset = 0;
}

abbrev pub constants : Constants
constants = record {
  g28 = replicate 12 1;
  g30 = replicate 12 2;
  parameters = 0 ∷ 0 ∷ 224 ∷ 63 ∷ [];
  length_g28 = refl;
  length_g30 = refl;
  length_parameters = omega arith;
}
