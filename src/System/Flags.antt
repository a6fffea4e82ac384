-- ===== src/System/Flags.antt =====
-- The atomic flag operations at the end of system.c.
use g_carvin.Base.{ℕ, false, not, ◌&&◌, ◌||◌}
use g_carvin.System.{ExecState, MotionOverride, AccessoryOverride, Machine}

abbrev pub no_exec : ExecState
no_exec = record {
  status_report = false;
  cycle_start = false;
  cycle_stop = false;
  feed_hold = false;
  reset = false;
  safety_door = false;
  motion_cancel = false;
  sleep = false;
}

abbrev pub no_motion : MotionOverride
no_motion = record {
  feed_reset = false;
  feed_coarse_plus = false;
  feed_coarse_minus = false;
  feed_fine_plus = false;
  feed_fine_minus = false;
  rapid_reset = false;
  rapid_medium = false;
  rapid_low = false;
}

abbrev pub no_accessory : AccessoryOverride
no_accessory = record {
  spindle_reset = false;
  spindle_coarse_plus = false;
  spindle_coarse_minus = false;
  spindle_fine_plus = false;
  spindle_fine_minus = false;
  spindle_stop = false;
  flood_toggle = false;
  mist_toggle = false;
}

-- `a | b` and `a & ~b` on `sys_rt_exec_state`
abbrev pub exec_union : ExecState → ExecState → ExecState
exec_union a b = record {
  status_report = a.status_report || b.status_report;
  cycle_start = a.cycle_start || b.cycle_start;
  cycle_stop = a.cycle_stop || b.cycle_stop;
  feed_hold = a.feed_hold || b.feed_hold;
  reset = a.reset || b.reset;
  safety_door = a.safety_door || b.safety_door;
  motion_cancel = a.motion_cancel || b.motion_cancel;
  sleep = a.sleep || b.sleep;
}

abbrev pub exec_without : ExecState → ExecState → ExecState
exec_without a b = record {
  status_report = a.status_report && not b.status_report;
  cycle_start = a.cycle_start && not b.cycle_start;
  cycle_stop = a.cycle_stop && not b.cycle_stop;
  feed_hold = a.feed_hold && not b.feed_hold;
  reset = a.reset && not b.reset;
  safety_door = a.safety_door && not b.safety_door;
  motion_cancel = a.motion_cancel && not b.motion_cancel;
  sleep = a.sleep && not b.sleep;
}

abbrev pub motion_union : MotionOverride → MotionOverride → MotionOverride
motion_union a b = record {
  feed_reset = a.feed_reset || b.feed_reset;
  feed_coarse_plus = a.feed_coarse_plus || b.feed_coarse_plus;
  feed_coarse_minus = a.feed_coarse_minus || b.feed_coarse_minus;
  feed_fine_plus = a.feed_fine_plus || b.feed_fine_plus;
  feed_fine_minus = a.feed_fine_minus || b.feed_fine_minus;
  rapid_reset = a.rapid_reset || b.rapid_reset;
  rapid_medium = a.rapid_medium || b.rapid_medium;
  rapid_low = a.rapid_low || b.rapid_low;
}

abbrev pub accessory_union : AccessoryOverride → AccessoryOverride → AccessoryOverride
accessory_union a b = record {
  spindle_reset = a.spindle_reset || b.spindle_reset;
  spindle_coarse_plus = a.spindle_coarse_plus || b.spindle_coarse_plus;
  spindle_coarse_minus = a.spindle_coarse_minus || b.spindle_coarse_minus;
  spindle_fine_plus = a.spindle_fine_plus || b.spindle_fine_plus;
  spindle_fine_minus = a.spindle_fine_minus || b.spindle_fine_minus;
  spindle_stop = a.spindle_stop || b.spindle_stop;
  flood_toggle = a.flood_toggle || b.flood_toggle;
  mist_toggle = a.mist_toggle || b.mist_toggle;
}

unfoldable pub system_set_exec_state_flag : ExecState → Machine → Machine
system_set_exec_state_flag mask m = record m { exec_state = exec_union m.exec_state mask }

unfoldable pub system_clear_exec_state_flag : ExecState → Machine → Machine
system_clear_exec_state_flag mask m = record m { exec_state = exec_without m.exec_state mask }

unfoldable pub system_set_exec_alarm : ℕ → Machine → Machine
system_set_exec_alarm code m = record m { exec_alarm = code }

unfoldable pub system_clear_exec_alarm : Machine → Machine
system_clear_exec_alarm m = record m { exec_alarm = 0 }

unfoldable pub system_set_exec_motion_override_flag : MotionOverride → Machine → Machine
system_set_exec_motion_override_flag mask m = record m {
  motion_override = motion_union m.motion_override mask;
}

unfoldable pub system_set_exec_accessory_override_flag : AccessoryOverride → Machine → Machine
system_set_exec_accessory_override_flag mask m = record m {
  accessory_override = accessory_union m.accessory_override mask;
}

unfoldable pub system_clear_exec_motion_overrides : Machine → Machine
system_clear_exec_motion_overrides m = record m { motion_override = no_motion }

unfoldable pub system_clear_exec_accessory_overrides : Machine → Machine
system_clear_exec_accessory_overrides m = record m { accessory_override = no_accessory }
