-- ===== src/Gcode/Real.antt =====
-- The floats of gcode.c and vectors of them. The arithmetic is the compiler's: a parameter.
use g_carvin.Base.{ℕ, Bool, ◌&&◌, ◌==◌, if◌then◌else◌}
use g_carvin.NutsBolts.{Decimal}

pub record Arithmetic (V : Type 0) : Type 0 where
  -- What `read_float` makes of a number, and the constants 0.0, 0.5, 4.0, 0.005 and 0.001.
  pub value : Decimal → V
  pub nought : V
  pub half : V
  pub four : V
  pub five_thousandths : V
  pub thousandth : V
  pub is_nought : V → Bool
  pub less : V → V → Bool
  pub same : V → V → Bool
  -- The comparison of `memcmp`.
  pub same_bytes : V → V → Bool
  pub add : V → V → V
  pub sub : V → V → V
  pub mul : V → V → V
  pub div : V → V → V
  pub neg : V → V
  pub sqrt : V → V
  pub fabs : V → V
  -- `v * MM_PER_INCH`
  pub to_mm : V → V

-- `float[N_AXIS]`
pub record Vec (V : Type 0) : Type 0 where
  pub x : V
  pub y : V
  pub z : V

module _ {V : Type 0} where
  abbrev pub at : Vec V → ℕ → V
  at a idx = if idx == 0 then a.x else if idx == 1 then a.y else a.z

  abbrev pub set_at : Vec V → ℕ → V → Vec V
  set_at a idx v =
      if idx == 0
      then record a { x = v }
      else if idx == 1
      then record a { y = v }
      else record a { z = v }

  -- `for (idx=0; idx<N_AXIS; idx++)` where each round computes the value of its axis.
  abbrev pub each_axis : (ℕ → V) → Vec V
  each_axis value = record { x = value 0; y = value 1; z = value 2 }

  -- `hypot_f` of nuts_bolts.c
  unfoldable pub hypot_f : Arithmetic V → V → V → V
  hypot_f float x y = float.sqrt (float.add (float.mul x x) (float.mul y y))

  -- `isequal_position_vector`
  unfoldable pub isequal_position_vector : Arithmetic V → Vec V → Vec V → Bool
  isequal_position_vector float a b =
      float.same_bytes a.x b.x && (float.same_bytes a.y b.y && float.same_bytes a.z b.z)

  abbrev pub clear_vector : Arithmetic V → Vec V
  clear_vector float = each_axis (λ idx. float.nought)
