-- ===== src/Gcode/StateModes.antt =====
-- The modal values of the parser state stay constants of gcode.h, whatever line gcode.c executes.
use Prim.Native.Nat.{bit_or}
use mathlib.Core.Path.{subst}
use g_carvin.Base.{
  ℕ, ◌≡◌, refl, ap, ◌∙◌, arith, Bool, true, not, ◌&&◌, ◌||◌, Option, none, some, List, [], ◌∷◌,
  ◌==◌, if_ind, inl, inr, Bool-cases,
}
use g_carvin.Base.Status.{Result, ok, fail, AllOk}
use g_carvin.Gcode.{Modal, Block, elem}
use g_carvin.Gcode.Modes.{
  IsModal, set_motion-IsModal, set_feed_rate-IsModal, set_units-IsModal, set_distance-IsModal,
  set_plane_select-IsModal, set_tool_length-IsModal, set_coord_select-IsModal,
  set_program_flow-IsModal, set_coolant-IsModal, set_spindle-IsModal,
}
use g_carvin.Gcode.LineModes.{read_block-IsModal}
use g_carvin.Gcode.Words.{is_jog}
use g_carvin.Gcode.Real.{Arithmetic, Vec}
use g_carvin.Gcode.State.{GcState, restore_overrides, message_program_end, World}
use g_carvin.Gcode.Checks.{Draft}
use g_carvin.Gcode.Motions.{check_block}
use g_carvin.Gcode.Execute.{
  Run, Laser, emit, set_modal, set_feed_rate, sync_speed, set_spindle_speed, spindle_control,
  coolant_control, dwell_and_modes, tool_length, new_tool_length, coord_and_distance, set_modes,
}
use g_carvin.Gcode.Execution.{
  Outcome, refused, store_coords, move_home, non_modal_action, probe_motion, arc_motion,
  line_motion, motion, motion_action, done, end_modal, running, stop_all, read_after, end_program,
  program_flow_action, execute_block, jog_execute, execute_jog, only_jog_groups, after_checks,
  after_reading, gc_execute_line,
}

coolant_cases : (P : ℕ → Type 0) (a : ℕ) → elem a (0 ∷ 64 ∷ []) ≡ true → P 0 → P 64 → P a
coolant_cases P a h off on = elim (Bool-cases (a == 0)) [
  | inl zero ↦ subst P {x = 0} {y = a} (ground arith) off
  | inr other ↦ subst P {x = 64} {y = a} (ground arith) on
]

-- The coolant that is on stays on beside another.
bit_or-coolant :
    (a b : ℕ)
    → elem a (0 ∷ 64 ∷ []) ≡ true
    → elem b (0 ∷ 64 ∷ []) ≡ true
    → elem (bit_or a b) (0 ∷ 64 ∷ []) ≡ true
bit_or-coolant a b h k =
    coolant_cases (λ x. elem (bit_or x b) (0 ∷ 64 ∷ []) ≡ true) a h
      (coolant_cases (λ y. elem (bit_or 0 y) (0 ∷ 64 ∷ []) ≡ true) b k refl refl)
      (coolant_cases (λ y. elem (bit_or 64 y) (0 ∷ 64 ∷ []) ≡ true) b k refl refl)

module _ {V : Type 0} (float : Arithmetic V) (world : World V) (b : Block) (d : Draft V)
    (hb : IsModal b.modal) where
  abbrev M : Run V → Type 0
  M run = IsModal run.state.modal

  set_feed_rate-M : (run : Run V) → M run → M (set_feed_rate float world b d run)
  unfolding set_feed_rate
  set_feed_rate-M run h = set_feed_rate-IsModal run.state.modal h b.modal.feed_rate hb.feed_rate

  set_spindle_speed-M :
      (laser : Laser) (run : Run V) → M run → M (set_spindle_speed float world b d laser run)
  unfolding set_spindle_speed sync_speed
  set_spindle_speed-M laser run h =
      if_ind M (not (float.same run.state.spindle_speed d.speed) || laser.force_sync)
        (if_ind M (not (run.state.modal.spindle == 0) && not laser.is_motion) h h) h

  spindle_control-M : (run : Run V) → M run → M (spindle_control float world b d run)
  unfolding spindle_control
  spindle_control-M run h =
      if_ind M (not (run.state.modal.spindle == b.modal.spindle))
        (set_spindle-IsModal run.state.modal h b.modal.spindle hb.spindle) h

  coolant_control-M : (run : Run V) → M run → M (coolant_control float world b d run)
  unfolding coolant_control
  coolant_control-M run h =
      if_ind M (not (run.state.modal.coolant == b.modal.coolant))
        (set_coolant-IsModal run.state.modal h _ (
          if_ind (λ v. elem v (0 ∷ 64 ∷ []) ≡ true) (b.modal.coolant == 0) refl
            (bit_or-coolant run.state.modal.coolant b.modal.coolant h.coolant hb.coolant)))
        h

  dwell_and_modes-M : (run : Run V) → M run → M (dwell_and_modes float world b d run)
  unfolding dwell_and_modes
  dwell_and_modes-M run h =
      set_units-IsModal _
        (set_plane_select-IsModal _ (if_ind M (b.non_modal_command == 4) h h) b.modal.plane_select
          hb.plane_select)
        b.modal.units hb.units

  tool_length-M : (run : Run V) → M run → M (tool_length float world b d run)
  unfolding tool_length
  tool_length-M run h =
      let set = set_tool_length-IsModal run.state.modal h b.modal.tool_length hb.tool_length in
      if_ind M (d.axis_command == 3)
        (if_ind M (not (float.same run.state.tool_length_offset (new_tool_length float world b d)))
          set set)
        h

  coord_and_distance-M : (run : Run V) → M run → M (coord_and_distance float world b d run)
  unfolding coord_and_distance
  coord_and_distance-M run h =
      set_distance-IsModal _
        (if_ind M (not (run.state.modal.coord_select == b.modal.coord_select))
          (set_coord_select-IsModal run.state.modal h b.modal.coord_select hb.coord_select) h)
        b.modal.distance hb.distance

  set_modes-M : (st : GcState V) → IsModal st.modal → M (set_modes float world b d st)
  unfolding set_modes
  set_modes-M st h = coord_and_distance-M _ (
      tool_length-M _ (
        dwell_and_modes-M _ (
          coolant_control-M _
            (spindle_control-M _ (set_spindle_speed-M _ _ (set_feed_rate-M _ h))))))

  non_modal_action-M : (run : Run V) → M run → M (non_modal_action float world b d run)
  unfolding non_modal_action store_coords move_home
  non_modal_action-M run h =
      if_ind M (b.non_modal_command == 10)
        (if_ind M (run.state.modal.coord_select == d.coord_select) h h)
        (if_ind M (b.non_modal_command == 28 || b.non_modal_command == 30)
          (if_ind M (not (d.axis_command == 0)) h h)
          (if_ind M (b.non_modal_command == 38) h (
            if_ind M (b.non_modal_command == 40) h (
              if_ind M (b.non_modal_command == 92) h (if_ind M (b.non_modal_command == 102) h h)))))

  motion-M : (run : Run V) → M run → M (motion float world b d run)
  unfolding motion line_motion arc_motion probe_motion
  motion-M run h = if_ind M (b.modal.motion == 1) h (
      if_ind M (b.modal.motion == 0) h (
        if_ind M (b.modal.motion == 2 || b.modal.motion == 3) h
          (if_ind M ((world.probe d.xyz).0 == 0) h (if_ind M ((world.probe d.xyz).0 == 1) h h))))

  motion_action-M : (run : Run V) → M run → M (motion_action float world b d run)
  unfolding motion_action
  motion_action-M run h =
      let set = set_motion-IsModal run.state.modal h b.modal.motion hb.motion in
      if_ind M (not (b.modal.motion == 80) && d.axis_command == 2) (motion-M _ set) set

  abbrev O : Outcome V → Type 0
  O o = IsModal o.state.modal

  end_modal-IsModal : (a : Modal) → IsModal a → IsModal (end_modal float world b d a)
  end_modal-IsModal a h = record {
    motion = refl;
    feed_rate = omega arith;
    units = h.units;
    distance = omega arith;
    plane_select = omega arith;
    tool_length = h.tool_length;
    coord_select = omega arith;
    program_flow = h.program_flow;
    coolant = refl;
    spindle = refl;
  }

  running-M : (run : Run V) → M run → M (running float world b d run)
  running-M run h = set_program_flow-IsModal run.state.modal h 0 refl

  stop_all-O :
      (run : Run V) (coords : Option (Vec V)) → M run → O (stop_all float world b d run coords)
  unfolding stop_all
  stop_all-O run none h = h
  stop_all-O run (some coords) h = running-M run h

  end_program-O : (run : Run V) → M run → O (end_program float world b d run)
  unfolding end_program
  end_program-O run h =
      let ended = end_modal-IsModal run.state.modal h in
      let run' = emit restore_overrides (set_modal (end_modal float world b d) run) in
      if_ind O (not world.check_mode)
        {x = stop_all float world b d run' (read_after world run'.actions 0)}
        {y = done float world b d 0 (running float world b d (emit message_program_end run'))}
        (stop_all-O run' (read_after world run'.actions 0) ended)
        (set_program_flow-IsModal run'.state.modal ended 0 refl)

  program_flow_action-O : (run : Run V) → M run → O (program_flow_action float world b d run)
  unfolding program_flow_action
  program_flow_action-O run h =
      let set = set_program_flow-IsModal run.state.modal h b.modal.program_flow hb.program_flow in
      if_ind O (b.modal.program_flow == 0) set (
        if_ind O (b.modal.program_flow == 3)
          (set_program_flow-IsModal _ (if_ind M (not world.check_mode) set set) 0 refl)
          (end_program-O _ set))

  execute_block-O : (st : GcState V) → IsModal st.modal → O (execute_block float world b d st)
  unfolding execute_block
  execute_block-O st h =
      program_flow_action-O _ (motion_action-M _ (non_modal_action-M _ (set_modes-M st h)))

  execute_jog-O : (st : GcState V) → IsModal st.modal → O (execute_jog float world b d st)
  unfolding execute_jog jog_execute
  execute_jog-O st h = if_ind O (not (only_jog_groups float world b d b.command_words)) h (
      if_ind O (not (b.non_modal_command == 53 || b.non_modal_command == 0)) h
        (if_ind O (world.soft_limit_enable && world.travel_exceeded d.xyz) h h))

module _ {V : Type 0} (float : Arithmetic V) (world : World V) (st : GcState V)
    (h : IsModal st.modal) where
  after_checks-O :
      (jog : Bool) (b : Block) (r : Result (Draft V))
      → IsModal b.modal
      → IsModal (after_checks float world jog b st r).state.modal
  unfolding after_checks
  after_checks-O jog b (fail status) hb = h
  after_checks-O jog b (ok d) hb =
      if_ind (λ (o : Outcome V). IsModal o.state.modal) jog (execute_jog-O float world b d hb st h)
        (execute_block-O float world b d hb st h)

  after_reading-O :
      (jog : Bool) (r : Result Block)
      → AllOk (λ b. IsModal b.modal) r
      → (o : Outcome V) × (after_reading float world jog st (some r) ≡ some o)
        × IsModal o.state.modal
  unfolding after_reading
  after_reading-O jog (fail status) hb = (refused status st, refl, h)
  after_reading-O jog (ok b) hb = (
    after_checks float world jog b st (check_block float world st b jog),
    refl,
    after_checks-O jog b (check_block float world st b jog) hb,
  )

  -- From a parser state whose modal values are constants of gcode.h, every line ends, refused or not,
  -- in such a state.
  pub gc_execute_line-IsModal :
      (line : List ℕ)
      → (o : Outcome V) × (gc_execute_line float world line st ≡ some o) × IsModal o.state.modal
  unfolding gc_execute_line
  gc_execute_line-IsModal line =
      let (r, e, hb) = read_block-IsModal world.conversions st.modal line h in
      let (o, found, k) = after_reading-O (is_jog line) r hb in
      (o, ap (after_reading float world (is_jog line) st) e ∙ found, k)
