-- ===== src/Settings/Rules.antt =====
-- What every stored setting of settings.c keeps to.
use g_carvin.Base.{
  ℕ, zero, suc, ◌+◌, ◌-◌, ◌≤◌, ◌≡◌, refl, arith, Bool, true, false, not, ◌&&◌, ◌||◌, ltb, leb, ◌==◌,
  if_ind, if_cases,
}
use g_carvin.Base.Status.{Result, ok, fail, AllOk}
use g_carvin.NutsBolts.{Decimal}
use g_carvin.Gcode.{Conversions, is_negative, int_value}
use g_carvin.Settings.{Axes, Settings, Stored}
use g_carvin.Settings.Store.{
  set_axis, negated, axis_setting, find_axis, is_on, soft_limits, homing_cycle, low_setting,
  high_setting, as_stored, settings_store_global_setting,
}
use g_carvin.Settings.Memory.{default_settings}

-- `max_travel` is stored as a negative number, or zero.
abbrev pub is_travel : Decimal → Bool
is_travel v = v.negative || v.intval == 0

-- Soft limits need homing, a step pulse lasts at least three microseconds, and no travel is positive.
pub record AreSafe (soft homing : Bool) (pulse : ℕ) (travel : Axes) : Type 0 where
  pub limits : (soft && not homing) ≡ false
  pub pulse_time : 3 ≤ pulse
  pub x : is_travel travel.x ≡ true
  pub y : is_travel travel.y ≡ true
  pub z : is_travel travel.z ≡ true

abbrev pub IsSafe : Settings → Type 0
IsSafe s = AreSafe s.flags.soft_limit_enable s.flags.homing_enable s.pulse_microseconds s.max_travel

-- The claim for what a command stores.
abbrev StoresSafe : Result Stored → Type 0
StoresSafe = AllOk (λ (d : Stored). IsSafe d.settings)

negated-is_travel : (v : Decimal) → is_negative v ≡ false → is_travel (negated v) ≡ true
unfolding is_negative
negated-is_travel v h = ground arith

set_travel-AreSafe :
    (soft homing : Bool) (pulse idx : ℕ) (v : Decimal) (travel : Axes)
    → is_travel v ≡ true
    → AreSafe soft homing pulse travel
    → AreSafe soft homing pulse (set_axis idx v travel)
set_travel-AreSafe soft homing pulse idx v travel e h =
    if_ind (AreSafe soft homing pulse) (idx == 0)
      (record { limits = h.limits; pulse_time = h.pulse_time; x = e; y = h.y; z = h.z })
      (if_ind (AreSafe soft homing pulse) (idx == 1)
        (record { limits = h.limits; pulse_time = h.pulse_time; x = h.x; y = e; z = h.z })
        (record { limits = h.limits; pulse_time = h.pulse_time; x = h.x; y = h.y; z = e }))

axis_setting-IsSafe :
    (set_idx idx : ℕ) (v : Decimal) (s : Settings)
    → is_negative v ≡ false
    → IsSafe s
    → IsSafe (axis_setting set_idx idx v s)
unfolding axis_setting
axis_setting-IsSafe set_idx idx v s pos h = if_ind IsSafe (set_idx == 0) h (
    if_ind IsSafe (set_idx == 1) h (
      if_ind IsSafe (set_idx == 2) h
        (set_travel-AreSafe _ _ _ idx (negated v) s.max_travel (negated-is_travel v pos) h)))

find_axis-IsSafe :
    (left set_idx parameter : ℕ) (v : Decimal) (s : Settings)
    → is_negative v ≡ false
    → IsSafe s
    → AllOk IsSafe (find_axis left set_idx parameter v s)
unfolding find_axis
find_axis-IsSafe zero set_idx parameter v s pos h = tt
find_axis-IsSafe (suc left) set_idx parameter v s pos h =
    if_ind (AllOk IsSafe) (ltb parameter 3) (axis_setting-IsSafe set_idx parameter v s pos h) (
      if_ind (AllOk IsSafe) (ltb parameter 10 || left == 0) tt
        (find_axis-IsSafe left (set_idx + 1) (parameter - 10) v s pos h))

as_stored-StoresSafe : (r : Result Settings) → AllOk IsSafe r → StoresSafe (as_stored r)
as_stored-StoresSafe (ok s) h = h
as_stored-StoresSafe (fail status) h = tt

with_limits :
    (soft homing : Bool) (pulse : ℕ) (travel : Axes) (soft' homing' : Bool)
    → (soft' && not homing') ≡ false
    → AreSafe soft homing pulse travel
    → AreSafe soft' homing' pulse travel
with_limits soft homing pulse travel soft' homing' e h = record {
  limits = e;
  pulse_time = h.pulse_time;
  x = h.x;
  y = h.y;
  z = h.z;
}

soft_limits-StoresSafe : (int : ℕ) (s : Settings) → IsSafe s → StoresSafe (soft_limits int s)
unfolding soft_limits
soft_limits-StoresSafe int s h =
    if_ind StoresSafe (is_on int)
      (if_cases StoresSafe (not s.flags.homing_enable) (λ off. tt)
        (λ on. with_limits _ _ _ s.max_travel true s.flags.homing_enable on h))
      (with_limits _ _ _ s.max_travel false s.flags.homing_enable refl h)

homing_cycle-IsSafe : (int : ℕ) (s : Settings) → IsSafe s → IsSafe (homing_cycle int s)
unfolding homing_cycle
homing_cycle-IsSafe int s h =
    if_ind IsSafe (is_on int)
      (with_limits _ _ _ s.max_travel s.flags.soft_limit_enable true (ground arith) h)
      (with_limits _ _ _ s.max_travel false false refl h)

low_setting-StoresSafe :
    (parameter int : ℕ) (v : Decimal) (s : Settings)
    → IsSafe s
    → StoresSafe (low_setting parameter int v s)
unfolding low_setting
low_setting-StoresSafe parameter int v s h =
    if_ind StoresSafe (parameter == 0)
      (if_cases StoresSafe (ltb int 3) (λ short. tt)
        (λ long. record {
          limits = h.limits;
          pulse_time = ground arith;
          x = h.x;
          y = h.y;
          z = h.z;
        }))
      (if_ind StoresSafe (parameter == 1) h (
        if_ind StoresSafe (parameter == 2) h (
          if_ind StoresSafe (parameter == 3) h (
            if_ind StoresSafe (parameter == 4) h (
              if_ind StoresSafe (parameter == 5) h (
                if_ind StoresSafe (parameter == 6) h (
                  if_ind StoresSafe (parameter == 10) h (
                    if_ind StoresSafe (parameter == 11) h (
                      if_ind StoresSafe (parameter == 12) h
                        (if_ind StoresSafe (parameter == 13) h tt))))))))))

high_setting-StoresSafe :
    (parameter int : ℕ) (v : Decimal) (s : Settings)
    → IsSafe s
    → StoresSafe (high_setting parameter int v s)
unfolding high_setting
high_setting-StoresSafe parameter int v s h =
    if_ind StoresSafe (parameter == 20) (soft_limits-StoresSafe int s h) (
      if_ind StoresSafe (parameter == 21) h (
        if_ind StoresSafe (parameter == 22) (homing_cycle-IsSafe int s h) (
          if_ind StoresSafe (parameter == 23) h (
            if_ind StoresSafe (parameter == 24) h (
              if_ind StoresSafe (parameter == 25) h (
                if_ind StoresSafe (parameter == 26) h (
                  if_ind StoresSafe (parameter == 27) h (
                    if_ind StoresSafe (parameter == 30) h (
                      if_ind StoresSafe (parameter == 31) h
                        (if_ind StoresSafe (parameter == 32) h tt))))))))))

-- Whatever setting is stored, of whatever value, soft limits are never left on without homing, a
-- step pulse lasts at least three microseconds, and no travel is positive, if that held before. The
-- default settings keep to it too.
pub settings_store_global_setting-IsSafe :
    (c : Conversions) (parameter : ℕ) (v : Decimal) (s : Settings)
    → IsSafe s
    → AllOk (λ (d : Stored). IsSafe d.settings) (settings_store_global_setting c parameter v s)
      × IsSafe default_settings
unfolding settings_store_global_setting default_settings
settings_store_global_setting-IsSafe c parameter v s h = (
  if_cases StoresSafe (is_negative v) (λ negative. tt)
      (λ positive.
        if_ind StoresSafe (leb 100 parameter)
          (as_stored-StoresSafe (find_axis 4 0 (parameter - 100) v s)
            (find_axis-IsSafe 4 0 (parameter - 100) v s positive h))
          (if_ind StoresSafe (ltb parameter 20)
            (low_setting-StoresSafe parameter (int_value c v) v s h)
            (high_setting-StoresSafe parameter (int_value c v) v s h))),
  record { limits = refl; pulse_time = omega arith; x = refl; y = refl; z = refl },
)
