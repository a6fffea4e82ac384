-- ===== src/Settings.antt =====
-- settings.c: the settings, the `$x=val` commands that change them, and their place in the EEPROM.
pub mod Store
pub mod Memory
pub mod Restore
mod Kept
mod Init
mod Rules
mod Places
mod Startup
pub mod Packed
mod Tests
use g_carvin.Base.{ℕ, Bool, true, false, List, []}
use g_carvin.NutsBolts.{Decimal}

-- The bits of `settings.flags`.
pub record SettingFlags : Type 0 where
  pub report_inches : Bool
  pub laser_mode : Bool
  pub invert_st_enable : Bool
  pub hard_limit_enable : Bool
  pub homing_enable : Bool
  pub soft_limit_enable : Bool
  pub invert_limit_pins : Bool
  pub invert_probe_pin : Bool

-- A setting of each axis.
pub record Axes : Type 0 where
  pub x : Decimal
  pub y : Decimal
  pub z : Decimal

-- `settings_t`
pub record Settings : Type 0 where
  pub steps_per_mm : Axes
  pub max_rate : Axes
  pub acceleration : Axes
  pub max_travel : Axes
  pub pulse_microseconds : ℕ
  pub step_invert_mask : ℕ
  pub dir_invert_mask : ℕ
  pub stepper_idle_lock_time : ℕ
  pub status_report_mask : ℕ
  pub junction_deviation : Decimal
  pub arc_tolerance : Decimal
  pub rpm_max : Decimal
  pub rpm_min : Decimal
  pub flags : SettingFlags
  pub homing_dir_mask : ℕ
  pub homing_feed_rate : Decimal
  pub homing_seek_rate : Decimal
  pub homing_debounce_delay : ℕ
  pub homing_pulloff : Decimal

-- The calls by which a changed setting takes effect at once.
pub data Refresh : Type 0 where
  st_generate_step_dir_invert_masks probe_configure_invert_mask system_flag_wco_change : Refresh
  limits_init spindle_init : Refresh

-- The settings that a command leaves, and the call that it makes.
pub record Stored : Type 0 where
  pub settings : Settings
  pub calls : List Refresh

abbrev pub stored : Settings → Stored
stored s = record { settings = s; calls = [] }
