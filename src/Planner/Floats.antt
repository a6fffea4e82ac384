-- ===== src/Planner/Floats.antt =====
-- The operations on floats that planner_recalculate of planner.c uses, and the laws that the numbers
-- of IEEE 754 keep to: they are ordered, and rounding preserves the order.
use g_carvin.Base.{◌≡◌, Bool, true, false}

pub record Float (V : Type 0) : Type 0 where
  pub at_rest : V
  pub less : V → V → Bool
  pub same : V → V → Bool
  pub add : V → V → V
  pub twice_product : V → V → V

module _ {V : Type 0} (float : Float V) where
  -- `a <= b`
  abbrev pub AtMost : V → V → Type 0
  AtMost a b = float.less b a ≡ false

  pub record FloatLaws : Type 0 where
    pub refl_le : (a : V) → AtMost a a
    pub trans_le : (a b c : V) → AtMost a b → AtMost b c → AtMost a c
    pub less_le : (a b : V) → float.less a b ≡ true → AtMost a b
    pub add_mono : (a b d : V) → AtMost a b → AtMost (float.add a d) (float.add b d)
    pub add_more : (a d : V) → AtMost float.at_rest d → AtMost a (float.add a d)
    pub add_rest : (d : V) → AtMost d (float.add float.at_rest d)
