-- ===== src/System.antt =====
-- system.h and the global state of grbl.h: the machine states, the flag bytes as records with a
-- field for each bit, and the record of all that the realtime code reads and writes.
pub mod Flags
pub mod Pins
pub mod Raises
mod Tests
use g_carvin.Base.{ℕ, Bool, true, false, ◌||◌, List, ◌++◌, [], ◌∷◌}

-- `sys.state`. Every assignment of the source stores one of these constants.
pub data State : Type 0 where
  idle alarm check_mode homing cycle hold jog safety_door sleep : State

-- `sys_rt_exec_state`, bit 0 first.
pub record ExecState : Type 0 where
  pub status_report : Bool
  pub cycle_start : Bool
  pub cycle_stop : Bool
  pub feed_hold : Bool
  pub reset : Bool
  pub safety_door : Bool
  pub motion_cancel : Bool
  pub sleep : Bool

-- `sys_rt_exec_motion_override`, bit 0 first.
pub record MotionOverride : Type 0 where
  pub feed_reset : Bool
  pub feed_coarse_plus : Bool
  pub feed_coarse_minus : Bool
  pub feed_fine_plus : Bool
  pub feed_fine_minus : Bool
  pub rapid_reset : Bool
  pub rapid_medium : Bool
  pub rapid_low : Bool

-- `sys_rt_exec_accessory_override`, bit 0 first.
pub record AccessoryOverride : Type 0 where
  pub spindle_reset : Bool
  pub spindle_coarse_plus : Bool
  pub spindle_coarse_minus : Bool
  pub spindle_fine_plus : Bool
  pub spindle_fine_minus : Bool
  pub spindle_stop : Bool
  pub flood_toggle : Bool
  pub mist_toggle : Bool

-- `sys.suspend`, bit 0 first.
pub record Suspend : Type 0 where
  pub hold_complete : Bool
  pub restart_retract : Bool
  pub retract_complete : Bool
  pub initiate_restore : Bool
  pub restore_complete : Bool
  pub door_ajar : Bool
  pub motion_cancelled : Bool
  pub jog_cancel : Bool

-- `sys.step_control`, bit 0 first.
pub record StepControl : Type 0 where
  pub end_motion : Bool
  pub execute_hold : Bool
  pub execute_sys_motion : Bool
  pub update_spindle_pwm : Bool

-- `sys.spindle_stop_ovr`, bit 0 first.
pub record SpindleStop : Type 0 where
  pub enabled : Bool
  pub initiate : Bool
  pub restore : Bool
  pub restore_cycle : Bool

pub data Message : Type 0 where
  critical_event safety_door_ajar spindle_restore sleep_mode : Message

-- Calls whose effect is output, or state of a module that the machine record does not hold.
pub data Call : Type 0 where
  spindle_stop st_go_idle st_wake_up st_prep_buffer st_reset : Call
  st_update_plan_block_parameters plan_reset plan_sync_position plan_cycle_reinitialize : Call
  plan_update_velocity_profile_parameters gc_sync_position report_realtime_status : Call
  set_button_led button_led_on door_led_idle : Call
  report_alarm_message : ℕ → Call
  report_feedback_message : Message → Call

-- `system_t sys`, the volatile flag bytes beside it, the two modal states of `gc_state` that the
-- realtime code reads, whether the planner holds a block, the flood coolant pin, and the calls
-- made so far, oldest first.
pub record Machine : Type 0 where
  pub state : State
  pub abort : Bool
  pub suspend : Suspend
  pub soft_limit : Bool
  pub step_control : StepControl
  pub f_override : ℕ
  pub r_override : ℕ
  pub spindle_speed_ovr : ℕ
  pub spindle_stop_ovr : SpindleStop
  pub report_ovr_counter : ℕ
  pub report_wco_counter : ℕ
  pub exec_state : ExecState
  pub exec_alarm : ℕ
  pub motion_override : MotionOverride
  pub accessory_override : AccessoryOverride
  pub modal_coolant : Bool
  pub modal_spindle : Bool
  pub block_waiting : Bool
  pub flood_pin : Bool
  pub calls : List Call

abbrev pub log : Call → Machine → Machine
log c m = record m { calls = m.calls ++ c ∷ [] }

-- SUSPEND_DISABLE
abbrev pub suspend_disable : Suspend
suspend_disable = record {
  hold_complete = false;
  restart_retract = false;
  retract_complete = false;
  initiate_restore = false;
  restore_complete = false;
  door_ajar = false;
  motion_cancelled = false;
  jog_cancel = false;
}

-- STEP_CONTROL_NORMAL_OP
abbrev pub normal_op : StepControl
normal_op = record {
  end_motion = false;
  execute_hold = false;
  execute_sys_motion = false;
  update_spindle_pwm = false;
}

-- SPINDLE_STOP_OVR_DISABLED
abbrev pub spindle_stop_disabled : SpindleStop
spindle_stop_disabled = record {
  enabled = false;
  initiate = false;
  restore = false;
  restore_cycle = false;
}

-- `if (sys.spindle_stop_ovr)`
abbrev pub stop_is_active : SpindleStop → Bool
stop_is_active s = s.enabled || s.initiate || s.restore || s.restore_cycle
