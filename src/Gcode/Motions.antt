-- ===== src/Gcode/Motions.antt =====
-- The third step of `gc_execute_line` in gcode.c from the motion modes on: the checks of arcs and
-- probes, and the search for words that nothing uses.
use g_carvin.Base.{ℕ, Bool, not, ◌&&◌, ◌||◌, List, [], ◌∷◌, ◌==◌, if◌then◌else◌}
use g_carvin.Base.Status.{Result, ok, fail, ◌>>=◌}
use g_carvin.Gcode.{Block, elem}
use g_carvin.Gcode.Real.{Arithmetic, Vec, at, set_at, each_axis, hypot_f, isequal_position_vector}
use g_carvin.Gcode.State.{GcState, World}
use g_carvin.Gcode.Checks.{
  Draft, is_empty, clear_words, has_axis, start_draft, imply_motion, check_line_number,
  check_feed_rate, keep_spindle_speed, check_dwell, convert_units, check_tool_length,
  select_coord_system, check_non_modal,
}

-- The axes of the plane and the one across it, [11. Set active plane].
unfoldable pub axis_0 : ℕ → ℕ
axis_0 plane = if plane == 0 then 0 else if plane == 1 then 2 else 1

unfoldable pub axis_1 : ℕ → ℕ
axis_1 plane = if plane == 0 then 1 else if plane == 1 then 0 else 2

unfoldable pub axis_linear : ℕ → ℕ
axis_linear plane = if plane == 0 then 2 else if plane == 1 then 1 else 0

module _ {V : Type 0} (float : Arithmetic V) (world : World V) (st : GcState V) (b : Block) where
  abbrev pub first : ℕ
  first = axis_0 b.modal.plane_select

  abbrev pub second : ℕ
  second = axis_1 b.modal.plane_select

  -- The change in position along an axis.
  abbrev pub delta : Draft V → ℕ → V
  delta d idx = float.sub (at d.xyz idx) (at st.position idx)

  -- The radius in millimetres.
  abbrev pub in_mm : V → V
  in_mm r = if b.modal.units == 1 then float.to_mm r else r

  -- `4.0*r*r - x*x - y*y`
  abbrev pub four_h_sqr : V → V → V → V
  four_h_sqr r x y =
      float.sub (float.sub (float.mul (float.mul float.four r) r) (float.mul x x)) (float.mul y y)

  -- `h_x2_div_d`, turned round for a counter clockwise arc and once more for a negative radius.
  unfoldable pub h_x2_div_d : V → V → V → V
  h_x2_div_d r x y =
      let h = float.div (float.neg (float.sqrt (four_h_sqr r x y))) (hypot_f float x y) in
      let turned = if b.modal.motion == 3 then float.neg h else h in
      if float.less r float.nought then float.neg turned else turned

  -- The offset of the centre, from the current position.
  unfoldable pub centre_of : V → V → V → Vec V → Vec V
  centre_of h x y ijk =
      set_at (set_at ijk first (float.mul float.half (float.sub x (float.mul y h)))) second
        (float.mul float.half (float.add y (float.mul x h)))

  -- Arc Radius Mode
  unfoldable pub radius_arc : Draft V → Result (Draft V)
  radius_arc d =
      let x = delta d first in
      let y = delta d second in
      let r = in_mm d.radius in
      if isequal_position_vector float st.position d.xyz
      then fail 33
      else if float.less (four_h_sqr r x y) float.nought
      then fail 34
      else ok (record d {
        value_words = clear_words (7 ∷ []) d.value_words;
        radius = if float.less r float.nought then float.neg r else r;
        ijk = centre_of (h_x2_div_d r x y) x y d.ijk;
      })

  abbrev pub ijk_in_mm : Vec V → Vec V
  ijk_in_mm ijk =
      if b.modal.units == 1
      then each_axis (λ idx. if elem idx b.ijk_words then float.to_mm (at ijk idx) else at ijk idx)
      else ijk

  -- How far the target lies from the arc.
  unfoldable pub delta_r : Draft V → Vec V → V
  delta_r d ijk = float.fabs (
      float.sub
        (hypot_f float (float.sub (delta d first) (at ijk first))
          (float.sub (delta d second) (at ijk second)))
        (hypot_f float (at ijk first) (at ijk second)))

  -- Arc Center Format Offset Mode
  unfoldable pub offset_arc : Draft V → Result (Draft V)
  offset_arc d =
      let ijk = ijk_in_mm d.ijk in
      let r = hypot_f float (at ijk first) (at ijk second) in
      let off = delta_r d ijk in
      if not (elem first b.ijk_words || elem second b.ijk_words)
      then fail 35
      else if float.less float.five_thousandths off
          && (float.less float.half off || float.less (float.mul float.thousandth r) off)
      then fail 33
      else ok (record d {
        value_words = clear_words (1 ∷ 2 ∷ 3 ∷ []) d.value_words;
        radius = r;
        ijk = ijk;
      })

  -- MOTION_MODE_CW_ARC and MOTION_MODE_CCW_ARC
  unfoldable pub check_arc : Draft V → Result (Draft V)
  check_arc d =
      let d' = record d { arc_is_clockwise = b.modal.motion == 2 } in
      if is_empty b.axis_words
      then fail 26
      else if not (has_axis float world st b first || has_axis float world st b second)
      then fail 32
      else if elem 7 d.value_words
      then radius_arc d'
      else offset_arc d'

  -- G38.2 to G38.5
  unfoldable pub check_probe : Draft V → Result (Draft V)
  check_probe d =
      if is_empty b.axis_words
      then fail 26
      else if isequal_position_vector float st.position d.xyz
      then fail 33
      else ok (record d {
        probe_is_away = b.modal.motion == 142 || b.modal.motion == 143;
        probe_is_no_error = b.modal.motion == 141 || b.modal.motion == 143;
      })

  -- A motion without axis words is not executed.
  abbrev pub line_or_none : Draft V → Draft V
  line_or_none d = if is_empty b.axis_words then record d { axis_command = 0 } else d

  -- The motion modes that need a feed rate.
  unfoldable pub check_feed_motion : Draft V → Result (Draft V)
  check_feed_motion d =
      if float.is_nought d.feed
      then fail 22
      else if b.modal.motion == 1
      then ok (line_or_none d)
      else if b.modal.motion == 2 || b.modal.motion == 3
      then check_arc d
      else if elem b.modal.motion (140 ∷ 141 ∷ 142 ∷ 143 ∷ [])
      then check_probe d
      else ok d

  -- [20. Motion modes]
  unfoldable pub check_motion : Draft V → Result (Draft V)
  check_motion d =
      if b.modal.motion == 80
      then (if is_empty b.axis_words then ok d else fail 31)
      else if d.axis_command == 2
      then (if b.modal.motion == 0 then ok (line_or_none d) else check_feed_motion d)
      else ok d

  -- The words that have one meaning, and the axis words of a command.
  abbrev pub single_words : Bool → List ℕ
  single_words jog = if jog then 5 ∷ 0 ∷ [] else 5 ∷ 0 ∷ 8 ∷ 9 ∷ []

  abbrev pub unused : Bool → Draft V → List ℕ
  unused jog d =
      if d.axis_command == 0
      then clear_words (single_words jog) d.value_words
      else clear_words (10 ∷ 11 ∷ 12 ∷ []) (clear_words (single_words jog) d.value_words)

  -- [0. Non-specific error-checks]
  unfoldable pub check_unused : Bool → Draft V → Result (Draft V)
  check_unused jog d = if is_empty (unused jog d) then ok d else fail 36

  -- The checks in front of the coordinate systems.
  unfoldable pub check_values : Bool → Draft V → Result (Draft V)
  check_values jog d =
      check_line_number float world st b d >>= check_feed_rate float world st b jog >>= λ d'.
      check_dwell float world st b (keep_spindle_speed float world st b d') >>= λ d''.
      check_tool_length float world st b (convert_units float world st b d'')

  -- The third step.
  unfoldable pub check_block : Bool → Result (Draft V)
  check_block jog =
      check_values jog (imply_motion float world st b (start_draft float world st b))
      >>= select_coord_system float world st b
      >>= check_non_modal float world st b
      >>= check_motion
      >>= check_unused jog
