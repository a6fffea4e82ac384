-- ===== src/Protocol/Override/Bounds.antt =====
-- The overrides stay within their limits, and what a request does to them.
use g_carvin.Base.{
  ℕ, ◌+◌, ◌-◌, ◌≤◌, ◌≡◌, ◌⊎◌, arith, Bool, not, min, max, if◌then◌else◌, if_ind, ltb,
}
use g_carvin.System.{Machine, MotionOverride, AccessoryOverride}
use g_carvin.System.Flags.{
  system_clear_exec_motion_overrides, system_clear_exec_accessory_overrides,
}
use g_carvin.MotionControl.{coolant_stop}
use g_carvin.Protocol.Override.{
  requested_feed, new_f_override, new_r_override, requested_spindle, new_spindle_ovr,
  set_motion_overrides, motion_override_block, set_spindle_override, toggle_spindle_stop,
  coolant_set_state, toggle_coolant, accessory_override_block,
}

-- The overrides of the operator are in range.
pub record InRange (m : Machine) : Type 0 where
  pub feed_low : 10 ≤ m.f_override
  pub feed_high : m.f_override ≤ 200
  pub rapid : (m.r_override ≡ 100) ⊎ ((m.r_override ≡ 50) ⊎ (m.r_override ≡ 25))
  pub spindle_low : 50 ≤ m.spindle_speed_ovr
  pub spindle_high : m.spindle_speed_ovr ≤ 200

new_f_override-range :
    (rt : MotionOverride) (f : ℕ) → (10 ≤ new_f_override rt f) × (new_f_override rt f ≤ 200)
unfolding new_f_override
new_f_override-range rt f = omega arith

new_spindle_ovr-range :
    (rt : AccessoryOverride) (s : ℕ) → (50 ≤ new_spindle_ovr rt s) × (new_spindle_ovr rt s ≤ 200)
unfolding new_spindle_ovr
new_spindle_ovr-range rt s = omega arith

new_r_override-range :
    (rt : MotionOverride) (r : ℕ)
    → (r ≡ 100) ⊎ ((r ≡ 50) ⊎ (r ≡ 25))
    → (new_r_override rt r ≡ 100) ⊎ ((new_r_override rt r ≡ 50) ⊎ (new_r_override rt r ≡ 25))
unfolding new_r_override
new_r_override-range rt r h = ground arith

-- Same values of the three overrides.
record SameOverrides (m n : Machine) : Type 0 where
  feed : n.f_override ≡ m.f_override
  rapid : n.r_override ≡ m.r_override
  spindle : n.spindle_speed_ovr ≡ m.spindle_speed_ovr

InRange-same : {m n : Machine} → SameOverrides m n → InRange m → InRange n
InRange-same s v = ground arith

toggle_spindle_stop-same : (b : Bool) (m : Machine) → SameOverrides m (toggle_spindle_stop b m)
unfolding toggle_spindle_stop
toggle_spindle_stop-same b m = ground arith

coolant_set_state-same : (b : Bool) (m : Machine) → SameOverrides m (coolant_set_state b m)
unfolding coolant_set_state coolant_stop
coolant_set_state-same b m = ground arith

toggle_coolant-same : (b : Bool) (m : Machine) → SameOverrides m (toggle_coolant b m)
unfolding toggle_coolant
toggle_coolant-same b m = ground (arith, coolant_set_state-same (not m.modal_coolant) m)

set_motion_overrides-InRange :
    (f r : ℕ) (m : Machine)
    → InRange m
    → (10 ≤ f) × (f ≤ 200)
    → (r ≡ 100) ⊎ ((r ≡ 50) ⊎ (r ≡ 25))
    → InRange (set_motion_overrides f r m)
unfolding set_motion_overrides
set_motion_overrides-InRange f r m v hf hr = ground arith

set_spindle_override-InRange :
    (s : ℕ) (m : Machine) → InRange m → (50 ≤ s) × (s ≤ 200) → InRange (set_spindle_override s m)
unfolding set_spindle_override
set_spindle_override-InRange s m v hs = ground arith

clear_motion-InRange : (m : Machine) → InRange m → InRange (system_clear_exec_motion_overrides m)
unfolding system_clear_exec_motion_overrides
clear_motion-InRange m v = ground arith

clear_accessory-InRange :
    (m : Machine) → InRange m → InRange (system_clear_exec_accessory_overrides m)
unfolding system_clear_exec_accessory_overrides
clear_accessory-InRange m v = ground arith

motion_override_block-InRange : (m : Machine) → InRange m → InRange (motion_override_block m)
unfolding motion_override_block
motion_override_block-InRange m v =
    if_ind InRange _
      (set_motion_overrides-InRange _ _ _ (clear_motion-InRange m v) (new_f_override-range _ _)
        (new_r_override-range m.motion_override m.r_override v.rapid))
      v

accessory_override_block-InRange : (m : Machine) → InRange m → InRange (accessory_override_block m)
unfolding accessory_override_block
accessory_override_block-InRange m v =
    if_ind InRange _
      (InRange-same (toggle_coolant-same _ _) (
        InRange-same (toggle_spindle_stop-same _ _) (
          set_spindle_override-InRange _ _ (clear_accessory-InRange m v)
            (new_spindle_ovr-range _ _))))
      v

-- Whatever override commands are pending, each of the two override blocks keeps the feed override
-- between 10 and 200 percent, the rapid override at 25, 50 or 100 and the spindle override between 50
-- and 200.
pub override_blocks-InRange :
    (m : Machine)
    → InRange m
    → InRange (motion_override_block m) × InRange (accessory_override_block m)
override_blocks-InRange m v =
    (motion_override_block-InRange m v, accessory_override_block-InRange m v)

-- What the flags ask for on paper: the reset first, then each increment once, within the limits.
abbrev clamp : ℕ → ℕ → ℕ → ℕ
clamp lo hi x = max (min x hi) lo

abbrev amount : Bool → ℕ → ℕ
amount b k = if b then k else 0

-- From an override in range the result is the clamped sum of what is asked for, unless both feed
-- decrements meet an override of exactly 10 percent that no other flag moves: the byte wraps round
-- and the override jumps to 200 percent.
pub new_f_override_lem :
    (rt : MotionOverride) (f : ℕ)
    → 10 ≤ f
    → f ≤ 200
    → let start = if rt.feed_reset then 100 else f in
      let up = amount rt.feed_coarse_plus 10 + amount rt.feed_fine_plus 1 in
      let down = amount rt.feed_coarse_minus 10 + amount rt.feed_fine_minus 1 in
      new_f_override rt f
      ≡ (if ltb (start + up) down then 200 else clamp 10 200 (start + up - down))
unfolding new_f_override requested_feed
new_f_override_lem rt f lo hi = ground arith

-- The spindle override has no such gap: from a value in range the result is the clamped sum of
-- what is asked for.
new_spindle_ovr_lem :
    (rt : AccessoryOverride) (s : ℕ)
    → 50 ≤ s
    → s ≤ 200
    → let start = if rt.spindle_reset then 100 else s in
      let up = amount rt.spindle_coarse_plus 10 + amount rt.spindle_fine_plus 1 in
      let down = amount rt.spindle_coarse_minus 10 + amount rt.spindle_fine_minus 1 in
      new_spindle_ovr rt s ≡ clamp 50 200 (start + up - down)
unfolding new_spindle_ovr requested_spindle
new_spindle_ovr_lem rt s lo hi = ground arith
