-- ===== src/Gcode/Arcs.antt =====
-- The two ways in which gcode.c accepts an arc: by its radius, and by the offset of its centre.
use g_carvin.Base.{not, ◌&&◌, ◌||◌, [], ◌∷◌, ◌==◌, refl, if_ind, if_cases, true, false, ◌≡◌}
use g_carvin.Base.Status.{Checked}
use g_carvin.Gcode.{Block, elem}
use g_carvin.Gcode.Real.{Arithmetic, Vec, at, hypot_f, isequal_position_vector}
use g_carvin.Gcode.State.{GcState, World}
use g_carvin.Gcode.Checks.{Draft, is_empty, clear_words, has_axis}
use g_carvin.Gcode.Motions.{
  first, second, delta, delta_r, in_mm, four_h_sqr, ijk_in_mm, radius_arc, offset_arc, check_arc,
}

module _ {V : Type 0} (float : Arithmetic V) (world : World V) (st : GcState V) (b : Block)
    (P : Draft V → Type 0) where
  radius_arc-Checked :
      (d : Draft V)
      → ((r : V) (ijk : Vec V)
          → P (record d {
            value_words = clear_words (7 ∷ []) d.value_words;
            radius = r;
            ijk = ijk;
          }))
      → Checked P (radius_arc float world st b d)
  unfolding radius_arc
  radius_arc-Checked d h =
      let i = first float world st b in
      let j = second float world st b in
      let r = in_mm float world st b d.radius in
      if_ind (Checked P) (isequal_position_vector float st.position d.xyz) refl (
        if_ind (Checked P)
          (float.less
            (four_h_sqr float world st b r (delta float world st b d i)
              (delta float world st b d j))
            float.nought)
          refl (h _ _))

  offset_arc-Checked :
      (d : Draft V)
      → ((r : V) (ijk : Vec V)
          → P (record d {
            value_words = clear_words (1 ∷ 2 ∷ 3 ∷ []) d.value_words;
            radius = r;
            ijk = ijk;
          }))
      → Checked P (offset_arc float world st b d)
  unfolding offset_arc
  offset_arc-Checked d h =
      let i = first float world st b in
      let j = second float world st b in
      let ijk = ijk_in_mm float world st b d.ijk in
      let off = delta_r float world st b d ijk in
      let r = hypot_f float (at ijk i) (at ijk j) in
      if_ind (Checked P) (not (elem i b.ijk_words || elem j b.ijk_words)) refl (
        if_ind (Checked P)
          (float.less float.five_thousandths off
            && (float.less float.half off || float.less (float.mul float.thousandth r) off))
          refl (h r ijk))

  -- An accepted arc changes the words, the radius and the offset of the draft, and its direction; a
  -- refused one has a status that is not 0.
  pub check_arc-Checked :
      (d : Draft V)
      → (is_empty b.axis_words ≡ false
          → elem 7 d.value_words ≡ true
          → (r : V) (ijk : Vec V)
          → P (record d {
            arc_is_clockwise = b.modal.motion == 2;
            value_words = clear_words (7 ∷ []) d.value_words;
            radius = r;
            ijk = ijk;
          }))
      → (is_empty b.axis_words ≡ false
          → elem 7 d.value_words ≡ false
          → (r : V) (ijk : Vec V)
          → P (record d {
            arc_is_clockwise = b.modal.motion == 2;
            value_words = clear_words (1 ∷ 2 ∷ 3 ∷ []) d.value_words;
            radius = r;
            ijk = ijk;
          }))
      → Checked P (check_arc float world st b d)
  unfolding check_arc
  check_arc-Checked d by_radius by_offset =
      let i = first float world st b in
      let j = second float world st b in
      let d' = record d { arc_is_clockwise = b.modal.motion == 2 } in
      if_cases (Checked P) (is_empty b.axis_words) (λ _. refl)
        (λ some_axis.
          if_ind (Checked P) (not (has_axis float world st b i || has_axis float world st b j)) refl
            (if_cases (Checked P) (elem 7 d.value_words)
              (λ r. radius_arc-Checked d' (by_radius some_axis r))
              (λ no_r. offset_arc-Checked d' (by_offset some_axis no_r))))
