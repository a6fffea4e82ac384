-- ===== src/Gcode/State.antt =====
-- What `gc_execute_line` of gcode.c keeps from line to line, and what it uses of other modules.
use g_carvin.Base.{ℕ, Bool, Option}
use g_carvin.Gcode.{Modal, Conversions}
use g_carvin.Gcode.Real.{Vec}

-- `parser_state_t`
pub record GcState (V : Type 0) : Type 0 where
  pub modal : Modal
  pub spindle_speed : V
  pub feed_rate : V
  pub tool : ℕ
  pub line_number : ℕ
  pub position : Vec V
  pub coord_system : Vec V
  pub coord_offset : Vec V
  pub tool_length_offset : V

-- The bits of `pl_data->condition`; the spindle and the coolant are their modal values.
pub record Condition : Type 0 where
  pub rapid_motion : Bool
  pub no_feed_override : Bool
  pub inverse_time : Bool
  pub spindle : ℕ
  pub coolant : ℕ

-- `plan_line_data_t`
pub record PlanData (V : Type 0) : Type 0 where
  pub feed_rate : V
  pub spindle_speed : V
  pub condition : Condition

-- The calls by which a line acts on the machine, with their arguments.
pub data Action (V : Type 0) : Type 0 where
  spindle_sync : ℕ → V → Action V
  coolant_sync : ℕ → Action V
  spindle_set_state : ℕ → V → Action V
  coolant_set_state : ℕ → Action V
  mc_dwell : V → Action V
  system_flag_wco_change : Action V
  settings_write_coord_data : ℕ → Vec V → Action V
  mc_line : Vec V → PlanData V → Action V
  -- target, plan data, position, offset, radius, axis_0, axis_1, axis_linear, is_clockwise
  mc_arc : Vec V → PlanData V → Vec V → Vec V → V → ℕ → ℕ → ℕ → Bool → Action V
  -- target, plan data, is_away, is_no_error
  mc_probe_cycle : Vec V → PlanData V → Bool → Bool → Action V
  start_jog : Action V
  protocol_buffer_synchronize : Action V
  set_exec_feed_hold : Action V
  protocol_execute_realtime : Action V
  restore_overrides : Action V
  message_program_end : Action V

-- What the other modules answer while a line is executed: the conversions of the compiler, whether
-- `sys.state` is STATE_CHECK_MODE, two flags of the settings, whether `sys.state` is STATE_IDLE, whether
-- `plan_get_current_block` gives a block after a jog to a target was planned, what
-- `settings_read_coord_data` reads, whether `system_check_travel_limits` finds a target out of reach,
-- the result of a probing cycle with the position that it leaves, and the position of the machine.
pub record World (V : Type 0) : Type 0 where
  pub conversions : Conversions
  pub check_mode : Bool
  pub laser_mode : Bool
  pub soft_limit_enable : Bool
  pub is_idle : Bool
  pub holds_block : Vec V → Bool
  pub read_coord_data : ℕ → Option (Vec V)
  pub travel_exceeded : Vec V → Bool
  pub probe : Vec V → ℕ × Vec V
  pub machine_position : Vec V
