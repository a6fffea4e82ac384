-- ===== src/Settings/Store.antt =====
-- `settings_store_global_setting` of settings.c. What it leaves is written to the EEPROM by its last
-- step, which stands in Settings/Memory.
use g_carvin.Base.{
  ℕ, zero, suc, ◌+◌, ◌-◌, ◌*◌, Bool, true, false, not, ◌||◌, [], ◌∷◌, ltb, leb, ◌==◌, if◌then◌else◌,
}
use g_carvin.Base.Status.{Result, ok, fail}
use g_carvin.NutsBolts.{Decimal}
use g_carvin.Gcode.{Conversions, is_negative, int_value}
use g_carvin.Settings.{
  SettingFlags, Axes, Settings, Refresh, st_generate_step_dir_invert_masks,
  probe_configure_invert_mask, system_flag_wco_change, limits_init, spindle_init, Stored, stored,
}

-- STATUS_INVALID_STATEMENT, STATUS_NEGATIVE_VALUE, STATUS_SETTING_STEP_PULSE_MIN,
-- STATUS_SOFT_LIMIT_ERROR
abbrev pub invalid_statement : ℕ
invalid_statement = 3

abbrev pub negative_value : ℕ
negative_value = 4

abbrev pub step_pulse_min : ℕ
step_pulse_min = 6

abbrev pub soft_limit_error : ℕ
soft_limit_error = 10

-- `axes[parameter] = value` for a parameter below N_AXIS.
abbrev pub set_axis : ℕ → Decimal → Axes → Axes
set_axis idx v a =
    if idx == 0
    then record a { x = v }
    else if idx == 1
    then record a { y = v }
    else record a { z = v }

-- `value*60*60` and `-value`
abbrev pub per_minute : Decimal → Decimal
per_minute v = record v { intval = v.intval * 3600 }

abbrev pub negated : Decimal → Decimal
negated v = record v { negative = not v.negative }

-- The switch over `set_idx`.
unfoldable pub axis_setting : ℕ → ℕ → Decimal → Settings → Settings
axis_setting set_idx idx v s =
    if set_idx == 0
    then record s { steps_per_mm = set_axis idx v s.steps_per_mm }
    else if set_idx == 1
    then record s { max_rate = set_axis idx v s.max_rate }
    else if set_idx == 2
    then record s { acceleration = set_axis idx (per_minute v) s.acceleration }
    else record s { max_travel = set_axis idx (negated v) s.max_travel }

-- The while loop over `set_idx`, with the rounds that are left.
unfoldable pub find_axis : ℕ → ℕ → ℕ → Decimal → Settings → Result Settings
find_axis zero set_idx parameter v s = fail invalid_statement
find_axis (suc left) set_idx parameter v s =
    let later = find_axis left (set_idx + 1) (parameter - 10) v s in
    if ltb parameter 3
    then ok (axis_setting set_idx parameter v s)
    else if ltb parameter 10 || left == 0
    then fail invalid_statement
    else later

abbrev pub set_flags : (SettingFlags → SettingFlags) → Settings → Settings
set_flags change s = record s { flags = change s.flags }

-- Whether a value is not zero, as an int.
abbrev pub is_on : ℕ → Bool
is_on int = not (int == 0)

-- `$20`
unfoldable pub soft_limits : ℕ → Settings → Result Stored
soft_limits int s =
    if is_on int
    then (if not s.flags.homing_enable
        then fail soft_limit_error
        else ok (stored (set_flags (λ f. record f { soft_limit_enable = true }) s)))
    else ok (stored (set_flags (λ f. record f { soft_limit_enable = false }) s))

-- `$22`
unfoldable pub homing_cycle : ℕ → Settings → Settings
homing_cycle int s =
    if is_on int
    then set_flags (λ f. record f { homing_enable = true }) s
    else set_flags (λ f. record f { homing_enable = false; soft_limit_enable = false }) s

abbrev pub refreshed : Settings → Refresh → Stored
refreshed s call = record { settings = s; calls = call ∷ [] }

-- `$0` to `$13`
unfoldable pub low_setting : ℕ → ℕ → Decimal → Settings → Result Stored
low_setting parameter int v s =
    if parameter == 0
    then (if ltb int 3
        then fail step_pulse_min
        else ok (stored (record s { pulse_microseconds = int })))
    else if parameter == 1
    then ok (stored (record s { stepper_idle_lock_time = int }))
    else if parameter == 2
    then ok (refreshed (record s { step_invert_mask = int }) st_generate_step_dir_invert_masks)
    else if parameter == 3
    then ok (refreshed (record s { dir_invert_mask = int }) st_generate_step_dir_invert_masks)
    else if parameter == 4
    then ok (stored (set_flags (λ f. record f { invert_st_enable = is_on int }) s))
    else if parameter == 5
    then ok (stored (set_flags (λ f. record f { invert_limit_pins = is_on int }) s))
    else if parameter == 6
    then ok (
        refreshed (set_flags (λ f. record f { invert_probe_pin = is_on int }) s)
          probe_configure_invert_mask)
    else if parameter == 10
    then ok (stored (record s { status_report_mask = int }))
    else if parameter == 11
    then ok (stored (record s { junction_deviation = v }))
    else if parameter == 12
    then ok (stored (record s { arc_tolerance = v }))
    else if parameter == 13
    then ok (
        refreshed (set_flags (λ f. record f { report_inches = is_on int }) s)
          system_flag_wco_change)
    else fail invalid_statement

-- `$20` to `$32`
unfoldable pub high_setting : ℕ → ℕ → Decimal → Settings → Result Stored
high_setting parameter int v s =
    if parameter == 20
    then soft_limits int s
    else if parameter == 21
    then ok (refreshed (set_flags (λ f. record f { hard_limit_enable = is_on int }) s) limits_init)
    else if parameter == 22
    then ok (stored (homing_cycle int s))
    else if parameter == 23
    then ok (stored (record s { homing_dir_mask = int }))
    else if parameter == 24
    then ok (stored (record s { homing_feed_rate = v }))
    else if parameter == 25
    then ok (stored (record s { homing_seek_rate = v }))
    else if parameter == 26
    then ok (stored (record s { homing_debounce_delay = int }))
    else if parameter == 27
    then ok (stored (record s { homing_pulloff = v }))
    else if parameter == 30
    then ok (refreshed (record s { rpm_max = v }) spindle_init)
    else if parameter == 31
    then ok (refreshed (record s { rpm_min = v }) spindle_init)
    else if parameter == 32
    then ok (stored (set_flags (λ f. record f { laser_mode = is_on int }) s))
    else fail invalid_statement

abbrev pub as_stored : Result Settings → Result Stored
as_stored (ok s) = ok (stored s)
as_stored (fail status) = fail status

unfoldable pub settings_store_global_setting : Conversions → ℕ → Decimal → Settings → Result Stored
settings_store_global_setting c parameter v s =
    if is_negative v
    then fail negative_value
    else if leb 100 parameter
    then as_stored (find_axis 4 0 (parameter - 100) v s)
    else if ltb parameter 20
    then low_setting parameter (int_value c v) v s
    else high_setting parameter (int_value c v) v s
