-- ===== src/Gcode/Tracks.antt =====
-- The parser of gcode.c keeps track of the machine: its position and its spindle mode are those that
-- its calls leave.
use g_carvin.Base.{
  ℕ, ◌≡◌, refl, sym, ap, ◌∙◌, true, not, ◌&&◌, ◌||◌, ◌==◌, if◌then◌else◌, if_ind, if_cases, if_true,
  if_false,
}
use g_carvin.Gcode.{Block}
use g_carvin.Gcode.Real.{Arithmetic, Vec}
use g_carvin.Gcode.State.{
  GcState, PlanData, spindle_sync, coolant_sync, mc_dwell, system_flag_wco_change,
  settings_write_coord_data, mc_line, mc_arc, mc_probe_cycle, World,
}
use g_carvin.Gcode.Checks.{Draft}
use g_carvin.Gcode.Execute.{
  Run, Laser, emit, set_modal, set_condition, start_run, set_feed_rate, sync_speed,
  set_spindle_speed, spindle_control, coolant_control, dwell_and_modes, tool_length,
  coord_and_distance, set_modes,
}
use g_carvin.Gcode.Execution.{
  store_coords, move_home, non_modal_action, probe_motion, arc_motion, line_motion, motion,
  motion_action,
}
use g_carvin.Gcode.Replay.{Tracks, emit-Tracks, seen, replay, replay-append, probe_position}

module _ {V : Type 0} (float : Arithmetic V) (world : World V) (b : Block) (d : Draft V)
    (st : GcState V) where
  abbrev T : Run V → Type 0
  T = Tracks world st

  set_feed_rate-Tracks : (run : Run V) → T run → T (set_feed_rate float world b d run)
  unfolding set_feed_rate Tracks
  set_feed_rate-Tracks run h = h

  sync_speed-Tracks :
      (laser : Laser) (run : Run V) → T run → T (sync_speed float world b d laser run)
  unfolding sync_speed
  sync_speed-Tracks laser run h =
      if_ind T (not (run.state.modal.spindle == 0) && not laser.is_motion)
        (emit-Tracks world st run.state run _ refl h) h

  set_spindle_speed-Tracks :
      (laser : Laser) (run : Run V) → T run → T (set_spindle_speed float world b d laser run)
  unfolding set_spindle_speed Tracks
  set_spindle_speed-Tracks laser run h =
      if_ind T (not (float.same run.state.spindle_speed d.speed) || laser.force_sync)
        (sync_speed-Tracks laser run h) h

  spindle_control-Tracks : (run : Run V) → T run → T (spindle_control float world b d run)
  unfolding spindle_control Tracks
  spindle_control-Tracks run h =
      if_ind T (not (run.state.modal.spindle == b.modal.spindle))
        (emit-Tracks world st
          (record (run.state) { modal = record (run.state.modal) { spindle = b.modal.spindle } })
          run (spindle_sync b.modal.spindle run.plan.spindle_speed) refl h)
        h

  coolant_control-Tracks : (run : Run V) → T run → T (coolant_control float world b d run)
  unfolding coolant_control Tracks
  coolant_control-Tracks run h =
      if_ind T (not (run.state.modal.coolant == b.modal.coolant))
        (emit-Tracks world st run.state run (coolant_sync b.modal.coolant) refl h) h

  dwell_and_modes-Tracks : (run : Run V) → T run → T (dwell_and_modes float world b d run)
  unfolding dwell_and_modes Tracks
  dwell_and_modes-Tracks run h =
      if_ind T (b.non_modal_command == 4)
        (emit-Tracks world st run.state run (mc_dwell d.dwell) refl h) h

  tool_length-Tracks : (run : Run V) → T run → T (tool_length float world b d run)
  unfolding tool_length Tracks
  tool_length-Tracks run h =
      if_ind T (d.axis_command == 3)
        (if_ind T
          (not (
            float.same run.state.tool_length_offset
              (if b.modal.tool_length == 0 then float.nought else d.xyz.z)))
          (emit-Tracks world st run.state run system_flag_wco_change refl h) h)
        h

  coord_and_distance-Tracks : (run : Run V) → T run → T (coord_and_distance float world b d run)
  unfolding coord_and_distance Tracks
  coord_and_distance-Tracks run h =
      if_ind T (not (run.state.modal.coord_select == b.modal.coord_select))
        (emit-Tracks world st run.state run system_flag_wco_change refl h) h

  set_modes-Tracks : T (set_modes float world b d st)
  unfolding set_modes Tracks
  set_modes-Tracks = coord_and_distance-Tracks _ (
      tool_length-Tracks _ (
        dwell_and_modes-Tracks _ (
          coolant_control-Tracks _ (
            spindle_control-Tracks _ (
              set_spindle_speed-Tracks _ _
                (set_feed_rate-Tracks (start_run float world b d st) refl))))))

  store_coords-Tracks : (run : Run V) → T run → T (store_coords float world b d run)
  unfolding store_coords Tracks
  store_coords-Tracks run h =
      let written = emit (settings_write_coord_data d.coord_select d.ijk) run in
      let written-Tracks : T written =
        emit-Tracks world st run.state run (settings_write_coord_data d.coord_select d.ijk) refl
          h in
      if_ind T (run.state.modal.coord_select == d.coord_select)
        (emit-Tracks world st run.state written system_flag_wco_change refl written-Tracks)
        written-Tracks

  -- The parser has the spindle mode that its calls leave.
  abbrev Spins : Run V → Type 0
  Spins run = run.state.modal.spindle ≡ (replay world (seen world st) run.actions).1

  -- A motion to a target leads there from anywhere.
  line-Tracks :
      (run : Run V) (target : Vec V) (plan : PlanData V)
      → Spins run
      → T (
          emit
            (mc_line target plan)
            (record run { state = record (run.state) { position = target } }))
  unfolding Tracks
  line-Tracks run target plan h =
      ap (λ (s : ℕ). (target, s)) h
      ∙ sym (replay-append world (seen world st) run.actions (mc_line target plan))

  move_home-Tracks : (run : Run V) → T run → T (move_home float world b d run)
  unfolding move_home Tracks
  move_home-Tracks run h =
      let rapid = set_condition (λ c. record c { rapid_motion = true }) run in
      let there =
        if not (d.axis_command == 0) then emit (mc_line d.xyz rapid.plan) rapid else rapid in
      line-Tracks there d.ijk there.plan (
        if_ind Spins (not (d.axis_command == 0))
          (ap (λ m. m.1) h
            ∙ ap (λ m. m.1)
                (sym (replay-append world (seen world st) run.actions (mc_line d.xyz rapid.plan))))
          (ap (λ m. m.1) h))

  non_modal_action-Tracks : (run : Run V) → T run → T (non_modal_action float world b d run)
  unfolding non_modal_action Tracks
  non_modal_action-Tracks run h = if_ind T (b.non_modal_command == 10) (store_coords-Tracks run h) (
      if_ind T (b.non_modal_command == 28 || b.non_modal_command == 30) (move_home-Tracks run h) (
        if_ind T (b.non_modal_command == 38)
          (emit-Tracks world st run.state run (settings_write_coord_data 6 run.state.position) refl
            h)
          (if_ind T (b.non_modal_command == 40)
            (emit-Tracks world st run.state run (settings_write_coord_data 7 run.state.position)
              refl h)
            (if_ind T (b.non_modal_command == 92)
              (emit-Tracks world st run.state run system_flag_wco_change refl h)
              (if_ind T (b.non_modal_command == 102)
                (emit-Tracks world st run.state run system_flag_wco_change refl h) h)))))

  line_motion-Tracks : (run : Run V) → T run → T (line_motion float world b d run)
  unfolding line_motion Tracks
  line_motion-Tracks run h =
      emit-Tracks world st (record (run.state) { position = d.xyz }) run (mc_line d.xyz run.plan)
        refl h

  arc_motion-Tracks : (run : Run V) → T run → T (arc_motion float world b d run)
  unfolding arc_motion Tracks
  arc_motion-Tracks run h =
      emit-Tracks world st (record (run.state) { position = d.xyz }) run
        (mc_arc d.xyz run.plan _ d.ijk d.radius _ _ _ d.arc_is_clockwise) refl h

  probe_motion-Tracks : (run : Run V) → T run → T (probe_motion float world b d run)
  unfolding probe_motion Tracks
  probe_motion-Tracks run h =
      let reach =
        λ (position : Vec V) (e : position ≡ probe_position world run.state.position d.xyz).
          emit-Tracks world st (record (run.state) { position = position }) run
            (mc_probe_cycle d.xyz
              (set_condition (λ c. record c { no_feed_override = true }) run).plan d.probe_is_away
              d.probe_is_no_error)
            (ap (λ (q : Vec V). (q, run.state.modal.spindle)) e) h in
      if_cases T ((world.probe d.xyz).0 == 0)
        (λ found. reach (world.probe d.xyz).1 (sym (if_true _ _ found)))
        (λ lost.
          if_cases T ((world.probe d.xyz).0 == 1)
            (λ synced. reach world.machine_position (sym (if_false _ _ lost ∙ if_true _ _ synced)))
            (λ still. reach run.state.position (sym (if_false _ _ lost ∙ if_false _ _ still))))

  motion-Tracks : (run : Run V) → T run → T (motion float world b d run)
  unfolding motion Tracks
  motion-Tracks run h = if_ind T (b.modal.motion == 1) (line_motion-Tracks run h) (
      if_ind T (b.modal.motion == 0)
        (line_motion-Tracks (set_condition (λ c. record c { rapid_motion = true }) run) h)
        (if_ind T (b.modal.motion == 2 || b.modal.motion == 3) (arc_motion-Tracks run h)
          (probe_motion-Tracks run h)))

  motion_action-Tracks : (run : Run V) → T run → T (motion_action float world b d run)
  unfolding motion_action Tracks
  motion_action-Tracks run h =
      let set = set_modal (λ a. record a { motion = b.modal.motion }) run in
      if_ind T (not (b.modal.motion == 80) && d.axis_command == 2) (motion-Tracks set h) h

  pub before_flow-Tracks : T (
      motion_action float world b d
        (non_modal_action float world b d (set_modes float world b d st)))
  before_flow-Tracks = motion_action-Tracks _ (non_modal_action-Tracks _ set_modes-Tracks)
