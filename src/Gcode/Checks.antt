-- ===== src/Gcode/Checks.antt =====
-- The third step of `gc_execute_line` in gcode.c up to the motion modes: the checks of a block and the
-- conversion of its values to millimetres and machine positions.
use g_carvin.Base.{
  ℕ, ◌-◌, Bool, true, false, not, ◌&&◌, ◌||◌, Option, none, some, List, [], ◌∷◌, ltb, ◌==◌,
  if◌then◌else◌,
}
use g_carvin.Base.Status.{Result, ok, fail}
use g_carvin.Gcode.{Block, elem, int_value}
use g_carvin.Gcode.Real.{Arithmetic, Vec, at, each_axis}
use g_carvin.Gcode.State.{GcState, World}

abbrev pub is_empty : List ℕ → Bool
is_empty [] = true
is_empty (x ∷ xs) = false

-- `bit_false`
abbrev pub clear_words : List ℕ → List ℕ → List ℕ
clear_words used [] = []
clear_words used (w ∷ ws) = if elem w used then clear_words used ws else w ∷ clear_words used ws

-- The variables of `gc_execute_line` that the third step changes: the values of the block, as floats,
-- the words that are not used yet, and the parser flags of arcs and probes.
pub record Draft (V : Type 0) : Type 0 where
  pub axis_command : ℕ
  pub value_words : List ℕ
  pub feed : V
  pub speed : V
  pub dwell : V
  pub radius : V
  pub xyz : Vec V
  pub ijk : Vec V
  pub coord_select : ℕ
  pub block_coord_system : Vec V
  pub arc_is_clockwise : Bool
  pub probe_is_away : Bool
  pub probe_is_no_error : Bool

module _ {V : Type 0} (float : Arithmetic V) (world : World V) (st : GcState V) (b : Block) where
  abbrev pub has_axis : ℕ → Bool
  has_axis idx = elem idx b.axis_words

  abbrev pub start_draft : Draft V
  start_draft = record {
    axis_command = b.axis_command;
    value_words = b.value_words;
    feed = float.value b.values.f;
    speed = float.value b.values.s;
    dwell = float.value b.values.p;
    radius = float.value b.values.r;
    xyz = record {
      x = float.value b.values.x;
      y = float.value b.values.y;
      z = float.value b.values.z;
    };
    ijk = record {
      x = float.value b.values.i;
      y = float.value b.values.j;
      z = float.value b.values.k;
    };
    coord_select = 0;
    block_coord_system = st.coord_system;
    arc_is_clockwise = false;
    probe_is_away = false;
    probe_is_no_error = false;
  }

  -- Axis words without an axis command are a motion.
  unfoldable pub imply_motion : Draft V → Draft V
  imply_motion d =
      if not (is_empty b.axis_words) && d.axis_command == 0
      then record d { axis_command = 2 }
      else d

  unfoldable pub check_line_number : Draft V → Result (Draft V)
  check_line_number d = if elem 5 b.value_words && ltb 10000000 b.values.n then fail 27 else ok d

  abbrev pub feed_in_mm : Draft V → Draft V
  feed_in_mm d = if b.modal.units == 1 then record d { feed = float.to_mm d.feed } else d

  -- [2. Set feed rate mode] and [3. Set feed rate]
  unfoldable pub check_feed_rate : Bool → Draft V → Result (Draft V)
  check_feed_rate jog d =
      if jog
      then (if not (elem 0 d.value_words) then fail 22 else ok (feed_in_mm d))
      else if b.modal.feed_rate == 1
      then (if d.axis_command == 2
            && ((not (b.modal.motion == 80) || not (b.modal.motion == 0))
                && not (elem 0 d.value_words))
          then fail 22
          else ok d)
      else if st.modal.feed_rate == 0
      then ok (if elem 0 d.value_words then feed_in_mm d else record d { feed = st.feed_rate })
      else ok d

  -- [4. Set spindle speed]
  unfoldable pub keep_spindle_speed : Draft V → Draft V
  keep_spindle_speed d = if elem 8 d.value_words then d else record d { speed = st.spindle_speed }

  -- [10. Dwell]
  unfoldable pub check_dwell : Draft V → Result (Draft V)
  check_dwell d =
      if b.non_modal_command == 4
      then (if not (elem 6 d.value_words)
          then fail 28
          else ok (record d { value_words = clear_words (6 ∷ []) d.value_words }))
      else ok d

  -- [12. Set length units]
  unfoldable pub convert_units : Draft V → Draft V
  convert_units d =
      if b.modal.units == 1
      then record d {
        xyz = each_axis (λ idx. if has_axis idx then float.to_mm (at d.xyz idx) else at d.xyz idx);
      }
      else d

  -- [14. Cutter length compensation], for the Z axis
  unfoldable pub check_tool_length : Draft V → Result (Draft V)
  check_tool_length d =
      if d.axis_command == 3
        && b.modal.tool_length == 1
        && not (has_axis 2 && not (has_axis 0 || has_axis 1))
      then fail 37
      else ok d

  abbrev pub or_unreadable : Option (Vec V) → (Vec V → Draft V) → Result (Draft V)
  or_unreadable none use_coords = fail 7
  or_unreadable (some coords) use_coords = ok (use_coords coords)

  -- [15. Coordinate system selection]
  unfoldable pub select_coord_system : Draft V → Result (Draft V)
  select_coord_system d =
      if elem 9 b.command_words
      then (if ltb 6 b.modal.coord_select
          then fail 29
          else if not (st.modal.coord_select == b.modal.coord_select)
          then or_unreadable (world.read_coord_data b.modal.coord_select)
              (λ coords. record d { block_coord_system = coords })
          else ok d)
      else ok d

  -- The number of the coordinate system that P selects, of which zero is the active one.
  abbrev pub selected : ℕ → ℕ
  selected int = if ltb 0 int then int - 1 else b.modal.coord_select

  -- The coordinate data that G10 leaves, from those that are stored.
  unfoldable pub changed_coords : Draft V → Vec V → Vec V
  changed_coords d stored = each_axis (λ idx.
      if has_axis idx
      then (if b.values.l == 20
          then (let here =
                float.sub (float.sub (at st.position idx) (at st.coord_offset idx))
                  (at d.xyz idx) in
              if idx == 2 then float.sub here st.tool_length_offset else here)
          else at d.xyz idx)
      else at stored idx)

  abbrev pub coord_number : ℕ
  coord_number = int_value world.conversions b.values.p

  -- G10
  unfoldable pub set_coordinate_data : Draft V → Result (Draft V)
  set_coordinate_data d =
      if is_empty b.axis_words
      then fail 26
      else if not (elem 6 d.value_words || elem 4 d.value_words)
      then fail 28
      else if ltb 6 coord_number
      then fail 29
      else if not (b.values.l == 20) && (not (b.values.l == 2) || elem 7 d.value_words)
      then fail 20
      else or_unreadable (world.read_coord_data (selected coord_number)) (λ coords. record d {
        value_words = clear_words (4 ∷ 6 ∷ []) d.value_words;
        coord_select = selected coord_number;
        ijk = changed_coords d coords;
      })

  -- G92
  unfoldable pub set_coordinate_offset : Draft V → Result (Draft V)
  set_coordinate_offset d =
      if is_empty b.axis_words
      then fail 26
      else ok (record d {
        xyz = each_axis (λ idx.
            if has_axis idx
            then (let here =
                  float.sub (float.sub (at st.position idx) (at d.block_coord_system idx))
                    (at d.xyz idx) in
                if idx == 2 then float.sub here st.tool_length_offset else here)
            else at st.coord_offset idx);
      })

  -- The target of an axis that has a word, by the distance mode.
  unfoldable pub target_of : Draft V → ℕ → V
  target_of d idx =
      if b.non_modal_command == 53
      then at d.xyz idx
      else if b.modal.distance == 0
      then (let moved =
            float.add (at d.xyz idx)
              (float.add (at d.block_coord_system idx) (at st.coord_offset idx)) in
          if idx == 2 then float.add moved st.tool_length_offset else moved)
      else float.add (at d.xyz idx) (at st.position idx)

  unfoldable pub set_target : Draft V → Draft V
  set_target d =
      if not (d.axis_command == 3) && not (is_empty b.axis_words)
      then record d {
        xyz = each_axis (λ idx. if has_axis idx then target_of d idx else at st.position idx);
      }
      else d

  -- G28 and G30
  unfoldable pub go_home : ℕ → Draft V → Result (Draft V)
  go_home slot d = or_unreadable (world.read_coord_data slot) (λ coords.
      if not (is_empty b.axis_words)
      then record d {
        ijk = each_axis (λ idx. if has_axis idx then at coords idx else at st.position idx);
      }
      else record d { ijk = coords; axis_command = 0 })

  -- The switch over the other non-modal commands.
  unfoldable pub check_other : Draft V → Result (Draft V)
  check_other d =
      if b.non_modal_command == 28
      then go_home 6 d
      else if b.non_modal_command == 30
      then go_home 7 d
      else if b.non_modal_command == 53 && not (b.modal.motion == 0 || b.modal.motion == 1)
      then fail 30
      else ok d

  -- [19. Remaining non-modal actions]
  unfoldable pub check_non_modal : Draft V → Result (Draft V)
  check_non_modal d =
      if b.non_modal_command == 10
      then set_coordinate_data d
      else if b.non_modal_command == 92
      then set_coordinate_offset d
      else check_other (set_target d)
