-- ===== src/Protocol/Override.antt =====
-- The override blocks of `protocol_exec_rt_system` in protocol.c.
pub mod Bounds
mod Tests
use g_carvin.Base.{
  ℕ, ◌+◌, ◌-◌, ◌%◌, Bool, true, false, not, ◌&&◌, ◌||◌, min, max, ◌==◌, if◌then◌else◌,
}
use g_carvin.System.{
  State, idle, cycle, hold, Machine, MotionOverride, AccessoryOverride, SpindleStop, StepControl,
  log, plan_update_velocity_profile_parameters, plan_cycle_reinitialize, spindle_stop_disabled,
  stop_is_active,
}
use g_carvin.System.Flags.{
  system_clear_exec_motion_overrides, system_clear_exec_accessory_overrides,
}
use g_carvin.MotionControl.{coolant_stop}

-- `x += k` and `x -= k` on `uint8_t`, where the flag is set.
abbrev pub add_when : Bool → ℕ → ℕ → ℕ
add_when b k x = if b then (x + k) % 256 else x

abbrev pub sub_when : Bool → ℕ → ℕ → ℕ
sub_when b k x = if b then (x + 256 - k) % 256 else x

-- The feed override that the flags ask for, before and after the limits.
unfoldable pub requested_feed : MotionOverride → ℕ → ℕ
requested_feed rt f = sub_when rt.feed_fine_minus 1 (
    add_when rt.feed_fine_plus 1 (
      sub_when rt.feed_coarse_minus 10
        (add_when rt.feed_coarse_plus 10 (if rt.feed_reset then 100 else f))))

unfoldable pub new_f_override : MotionOverride → ℕ → ℕ
new_f_override rt f = max (min (requested_feed rt f) 200) 10

unfoldable pub new_r_override : MotionOverride → ℕ → ℕ
new_r_override rt r =
    let reset = if rt.rapid_reset then 100 else r in
    let medium = if rt.rapid_medium then 50 else reset in if rt.rapid_low then 25 else medium

unfoldable pub requested_spindle : AccessoryOverride → ℕ → ℕ
requested_spindle rt s = sub_when rt.spindle_fine_minus 1 (
    add_when rt.spindle_fine_plus 1 (
      sub_when rt.spindle_coarse_minus 10
        (add_when rt.spindle_coarse_plus 10 (if rt.spindle_reset then 100 else s))))

unfoldable pub new_spindle_ovr : AccessoryOverride → ℕ → ℕ
new_spindle_ovr rt s = max (min (requested_spindle rt s) 200) 50

abbrev pub any_motion : MotionOverride → Bool
any_motion rt =
    rt.feed_reset
    || (rt.feed_coarse_plus
        || (rt.feed_coarse_minus
            || (rt.feed_fine_plus
                || (rt.feed_fine_minus || (rt.rapid_reset || (rt.rapid_medium || rt.rapid_low))))))

abbrev pub any_accessory : AccessoryOverride → Bool
any_accessory rt =
    rt.spindle_reset
    || (rt.spindle_coarse_plus
        || (rt.spindle_coarse_minus
            || (rt.spindle_fine_plus
                || (rt.spindle_fine_minus
                    || (rt.spindle_stop || (rt.flood_toggle || rt.mist_toggle))))))

-- A change of either motion override makes the planner start again.
unfoldable pub set_motion_overrides : ℕ → ℕ → Machine → Machine
set_motion_overrides f r m =
    if f == m.f_override && r == m.r_override
    then m
    else log plan_cycle_reinitialize (
        log plan_update_velocity_profile_parameters
          (record m { f_override = f; r_override = r; report_ovr_counter = 0 }))

unfoldable pub motion_override_block : Machine → Machine
motion_override_block m =
    let rt = m.motion_override in
    if any_motion rt
    then set_motion_overrides (new_f_override rt m.f_override) (new_r_override rt m.r_override)
        (system_clear_exec_motion_overrides m)
    else m

unfoldable pub set_spindle_override : ℕ → Machine → Machine
set_spindle_override s m = if s == m.spindle_speed_ovr then m else record m {
  step_control = record (m.step_control) { update_spindle_pwm = true };
  spindle_speed_ovr = s;
  report_ovr_counter = 0;
}

abbrev pub is_hold : State → Bool
is_hold hold = true
is_hold _ = false

-- The spindle stop toggle, which only a hold accepts.
unfoldable pub toggle_spindle_stop : Bool → Machine → Machine
toggle_spindle_stop asked m =
    if asked && is_hold m.state
    then (if not (stop_is_active m.spindle_stop_ovr)
        then record m { spindle_stop_ovr = record spindle_stop_disabled { initiate = true } }
        else if m.spindle_stop_ovr.enabled
        then record m { spindle_stop_ovr = record (m.spindle_stop_ovr) { restore = true } }
        else m)
    else m

abbrev pub accepts_coolant : State → Bool
accepts_coolant idle = true
accepts_coolant cycle = true
accepts_coolant hold = true
accepts_coolant _ = false

-- `coolant_set_state` of coolant_control.c: `true` is COOLANT_FLOOD_ENABLE, `false`
-- COOLANT_DISABLE.
unfoldable pub coolant_set_state : Bool → Machine → Machine
coolant_set_state flood m =
    if m.abort
    then m
    else if flood
    then record m { flood_pin = true; report_ovr_counter = 0 }
    else record (coolant_stop m) { report_ovr_counter = 0 }

-- Without ENABLE_M7 either toggle flag turns the flood coolant over.
unfoldable pub toggle_coolant : Bool → Machine → Machine
toggle_coolant asked m =
    if asked && accepts_coolant m.state
    then record (coolant_set_state (not m.modal_coolant) m) { modal_coolant = not m.modal_coolant }
    else m

unfoldable pub accessory_override_block : Machine → Machine
accessory_override_block m =
    let rt = m.accessory_override in
    if any_accessory rt
    then toggle_coolant (rt.flood_toggle || rt.mist_toggle) (
        toggle_spindle_stop rt.spindle_stop (
          set_spindle_override (new_spindle_ovr rt m.spindle_speed_ovr)
            (system_clear_exec_accessory_overrides m)))
    else m
