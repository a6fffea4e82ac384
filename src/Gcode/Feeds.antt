-- ===== src/Gcode/Feeds.antt =====
-- The feed rate of the motions that a line of gcode.c starts.
use g_carvin.Base.{
  ℕ, ◌≡◌, ◌⊎◌, inl, inr, refl, sym, ap, ◌∙◌, arith, Bool, true, false, not, ◌&&◌, ◌||◌, Option,
  none, some, List, [], ◌∷◌, ◌++◌, ◌==◌, if◌then◌else◌, if_ind, if_cases,
}
use g_carvin.Base.Status.{Result, ok, fail, ◌>>=◌, AllOk, AllOk-bind, Checked-AllOk}
use g_carvin.Gcode.{Block, elem}
use g_carvin.Gcode.Words.{read_block, is_jog}
use g_carvin.Gcode.Reads.{read_block-Some}
use g_carvin.Gcode.Real.{Arithmetic, Vec, isequal_position_vector}
use g_carvin.Gcode.State.{
  GcState, Action, mc_line, mc_arc, mc_probe_cycle, spindle_sync, coolant_sync, mc_dwell,
  spindle_set_state, coolant_set_state, system_flag_wco_change, settings_write_coord_data,
  protocol_buffer_synchronize, set_exec_feed_hold, protocol_execute_realtime, restore_overrides,
  message_program_end, World,
}
use g_carvin.Gcode.Checks.{
  Draft, is_empty, start_draft, imply_motion, select_coord_system, check_non_modal,
}
use g_carvin.Gcode.Motions.{
  axis_0, axis_1, axis_linear, check_arc, check_probe, check_feed_motion, check_motion, unused,
  check_unused, check_values, check_block,
}
use g_carvin.Gcode.Execute.{
  Run, Laser, emit, set_modal, set_condition, set_feed_rate, sync_speed, set_spindle_speed,
  spindle_control, coolant_control, dwell_and_modes, tool_length, new_tool_length,
  coord_and_distance, set_modes,
}
use g_carvin.Gcode.Arcs.{check_arc-Checked}
use g_carvin.Gcode.Execution.{
  Outcome, refused, store_coords, move_home, non_modal_action, probe_motion, arc_motion,
  line_motion, motion, motion_action, end_modal, read_after, stop_all, end_program,
  program_flow_action, execute_block, after_checks, after_reading, gc_execute_line,
}

module _ {V : Type 0} (float : Arithmetic V) where
  -- A motion is rapid or has a feed rate, and an arc and a probing cycle have one.
  abbrev pub HasFeed : Action V → Type 0
  HasFeed (mc_line target plan) =
      (plan.condition.rapid_motion ≡ true) ⊎ (float.is_nought plan.feed_rate ≡ false)
  HasFeed (mc_arc target plan position offset radius i j k clockwise) =
      float.is_nought plan.feed_rate ≡ false
  HasFeed (mc_probe_cycle target plan away no_error) = float.is_nought plan.feed_rate ≡ false
  HasFeed _ = Unit

  abbrev pub AllFed : List (Action V) → Type 0
  AllFed [] = Unit
  AllFed (a ∷ actions) = HasFeed a × AllFed actions

  emit-AllFed :
      (actions : List (Action V)) (a : Action V)
      → AllFed actions
      → HasFeed a
      → AllFed (actions ++ a ∷ [])
  emit-AllFed [] a h k = (k, tt)
  emit-AllFed (x ∷ xs) a (hx, hs) k = (hx, emit-AllFed xs a hs k)

  module _ (world : World V) (st : GcState V) (b : Block) where
    abbrev Feeding : Draft V → Type 0
    Feeding d = float.is_nought d.feed ≡ false

    -- A draft with a motion other than G0 and G80 has a feed rate.
    abbrev MotionFeeds : Draft V → Type 0
    MotionFeeds d =
        (b.modal.motion == 80) ≡ false
        → (b.modal.motion == 0) ≡ false
        → (d.axis_command == 2) ≡ true
        → Feeding d

    check_arc-Feeding : (d : Draft V) → Feeding d → AllOk Feeding (check_arc float world st b d)
    check_arc-Feeding d h =
        Checked-AllOk Feeding (check_arc float world st b d)
          (check_arc-Checked float world st b Feeding d (λ _ _ r ijk. h) (λ _ _ r ijk. h))

    check_feed_motion-Feeding : (d : Draft V) → AllOk Feeding (check_feed_motion float world st b d)
    unfolding check_feed_motion check_probe
    check_feed_motion-Feeding d =
        if_cases (AllOk Feeding) (float.is_nought d.feed) (λ _. tt)
          (λ h.
            if_ind (AllOk Feeding) (b.modal.motion == 1)
              (if_ind Feeding (is_empty b.axis_words) h h)
              (if_ind (AllOk Feeding) (b.modal.motion == 2 || b.modal.motion == 3)
                (check_arc-Feeding d h)
                (if_ind (AllOk Feeding) (elem b.modal.motion (140 ∷ 141 ∷ 142 ∷ 143 ∷ []))
                  (if_ind (AllOk Feeding) (is_empty b.axis_words) tt
                    (if_ind (AllOk Feeding) (isequal_position_vector float st.position d.xyz) tt h))
                  h)))

    any-AllOk : (r : Result (Draft V)) → AllOk {0, 0} (λ e. Unit) r
    any-AllOk (ok d) = tt
    any-AllOk (fail status) = tt

    MotionFeeds-accepted : (r : Result (Draft V)) → AllOk Feeding r → AllOk MotionFeeds r
    MotionFeeds-accepted (fail status) h = tt
    MotionFeeds-accepted (ok d) h = λ _ _ _. h

    check_motion-MotionFeeds : (d : Draft V) → AllOk MotionFeeds (check_motion float world st b d)
    unfolding check_motion
    check_motion-MotionFeeds d =
        if_cases (AllOk MotionFeeds) (b.modal.motion == 80)
          (λ stop.
            if_ind (AllOk MotionFeeds) (is_empty b.axis_words)
              (λ moving _ _. let clash : false ≡ true = sym moving ∙ stop in cc) tt)
          (λ _.
            if_cases (AllOk MotionFeeds) (d.axis_command == 2)
              (λ _.
                if_cases (AllOk MotionFeeds) (b.modal.motion == 0)
                  (λ rapid _ cut _. let clash : false ≡ true = sym cut ∙ rapid in cc)
                  (λ _.
                    MotionFeeds-accepted (check_feed_motion float world st b d)
                      (check_feed_motion-Feeding d)))
              (λ still _ _ moving. let clash : false ≡ true = sym still ∙ moving in cc))

    check_block-MotionFeeds : (jog : Bool) → AllOk MotionFeeds (check_block float world st b jog)
    unfolding check_block check_unused
    check_block-MotionFeeds jog =
        let d = imply_motion float world st b (start_draft float world st b) in
        let r =
          check_values float world st b jog d
          >>= select_coord_system float world st b
          >>= check_non_modal float world st b in
        AllOk-bind MotionFeeds MotionFeeds (r >>= check_motion float world st b)
          (check_unused float world st b jog)
          (AllOk-bind {_, _, 0, 0} (λ (e : Draft V). Unit) MotionFeeds r
            (check_motion float world st b) (any-AllOk r) (λ e _. check_motion-MotionFeeds e))
          (λ e h. if_ind (AllOk MotionFeeds) (is_empty (unused float world st b jog e)) h tt)

  module _ (world : World V) (b : Block) (d : Draft V) where
    -- The calls so far have their feed rates, and the planner data have that of the block.
    abbrev F : Run V → Type 0
    F run = AllFed run.actions × (run.plan.feed_rate ≡ d.feed)

    emit-F : (run : Run V) (a : Action V) → F run → HasFeed a → F (emit a run)
    emit-F run a (h, e) k = (emit-AllFed run.actions a h k, e)

    set_spindle_speed-F :
        (laser : Laser) (run : Run V) → F run → F (set_spindle_speed float world b d laser run)
    unfolding set_spindle_speed sync_speed
    set_spindle_speed-F laser run h =
        if_ind F (not (float.same run.state.spindle_speed d.speed) || laser.force_sync)
          (if_ind F (not (run.state.modal.spindle == 0) && not laser.is_motion)
            (emit-F run
              (spindle_sync run.state.modal.spindle
                (if laser.disable then float.nought else d.speed))
              h tt)
            h)
          h

    spindle_control-F : (run : Run V) → F run → F (spindle_control float world b d run)
    unfolding spindle_control
    spindle_control-F run h =
        if_ind F (not (run.state.modal.spindle == b.modal.spindle))
          (emit-F run (spindle_sync b.modal.spindle run.plan.spindle_speed) h tt) h

    coolant_control-F : (run : Run V) → F run → F (coolant_control float world b d run)
    unfolding coolant_control
    coolant_control-F run h =
        if_ind F (not (run.state.modal.coolant == b.modal.coolant))
          (emit-F run (coolant_sync b.modal.coolant) h tt) h

    dwell_and_modes-F : (run : Run V) → F run → F (dwell_and_modes float world b d run)
    unfolding dwell_and_modes
    dwell_and_modes-F run h =
        if_ind F (b.non_modal_command == 4) (emit-F run (mc_dwell d.dwell) h tt) h

    tool_length-F : (run : Run V) → F run → F (tool_length float world b d run)
    unfolding tool_length
    tool_length-F run h =
        if_ind F (d.axis_command == 3)
          (if_ind F
            (not (float.same run.state.tool_length_offset (new_tool_length float world b d)))
            (emit-F run system_flag_wco_change h tt) h)
          h

    coord_and_distance-F : (run : Run V) → F run → F (coord_and_distance float world b d run)
    unfolding coord_and_distance
    coord_and_distance-F run h =
        if_ind F (not (run.state.modal.coord_select == b.modal.coord_select))
          (emit-F run system_flag_wco_change h tt) h

    set_modes-F : (st : GcState V) → F (set_modes float world b d st)
    unfolding set_modes set_feed_rate
    set_modes-F st = coord_and_distance-F _ (
        tool_length-F _ (
          dwell_and_modes-F _
            (coolant_control-F _ (spindle_control-F _ (set_spindle_speed-F _ _ (tt, refl))))))

    -- Where it moves, the block has a feed rate, or its motion is rapid.
    module _
        (feeds : (b.modal.motion == 80) ≡ false
          → (b.modal.motion == 0) ≡ false
          → (d.axis_command == 2) ≡ true
          → float.is_nought d.feed ≡ false) where
      motion-F :
          (run : Run V)
          → (not (b.modal.motion == 80) && d.axis_command == 2) ≡ true
          → F run
          → F (motion float world b d run)
      unfolding motion line_motion arc_motion probe_motion
      motion-F run moving h =
          let fed : (b.modal.motion == 0) ≡ false → float.is_nought run.plan.feed_rate ≡ false =
            λ cut. ap float.is_nought h.1 ∙ feeds (ground arith) cut (ground arith) in
          let rapid = set_condition (λ c. record c { rapid_motion = true }) run in
          let unscaled = set_condition (λ c. record c { no_feed_override = true }) run in
          if_cases F (b.modal.motion == 1)
            (λ one. emit-F run (mc_line d.xyz run.plan) h (inr (fed (ground arith))))
            (λ _.
              if_cases F (b.modal.motion == 0)
                (λ _. emit-F rapid (mc_line d.xyz rapid.plan) h (inl refl))
                (λ cut.
                  let arc =
                    mc_arc d.xyz run.plan run.state.position d.ijk d.radius
                      (axis_0 b.modal.plane_select) (axis_1 b.modal.plane_select)
                      (axis_linear b.modal.plane_select) d.arc_is_clockwise in
                  let probe =
                    mc_probe_cycle d.xyz unscaled.plan d.probe_is_away d.probe_is_no_error in
                  let probed : F (emit probe unscaled) = emit-F unscaled probe h (fed cut) in
                  if_ind F (b.modal.motion == 2 || b.modal.motion == 3) (emit-F run arc h (fed cut))
                    (if_ind F ((world.probe d.xyz).0 == 0) probed
                      (if_ind F ((world.probe d.xyz).0 == 1) probed probed))))

      motion_action-F : (run : Run V) → F run → F (motion_action float world b d run)
      unfolding motion_action
      motion_action-F run h =
          let set = set_modal (λ a. record a { motion = b.modal.motion }) run in
          if_cases F (not (b.modal.motion == 80) && d.axis_command == 2)
            (λ moving. motion-F set moving h) (λ _. h)

    move_home-F : (run : Run V) → F run → F (move_home float world b d run)
    unfolding move_home
    move_home-F run h =
        let rapid = set_condition (λ c. record c { rapid_motion = true }) run in
        if_ind (λ (q : Run V). F (emit (mc_line d.ijk q.plan) q)) (not (d.axis_command == 0))
          (emit-F (emit (mc_line d.xyz rapid.plan) rapid) (mc_line d.ijk rapid.plan)
            (emit-F rapid (mc_line d.xyz rapid.plan) h (inl refl)) (inl refl))
          (emit-F rapid (mc_line d.ijk rapid.plan) h (inl refl))

    non_modal_action-F : (run : Run V) → F run → F (non_modal_action float world b d run)
    unfolding non_modal_action store_coords
    non_modal_action-F run h =
        let written = settings_write_coord_data d.coord_select d.ijk in
        if_ind F (b.non_modal_command == 10)
          (if_ind F (run.state.modal.coord_select == d.coord_select)
            (emit-F (emit written run) system_flag_wco_change (emit-F run written h tt) tt)
            (emit-F run written h tt))
          (if_ind F (b.non_modal_command == 28 || b.non_modal_command == 30) (move_home-F run h) (
            if_ind F (b.non_modal_command == 38)
              (emit-F run (settings_write_coord_data 6 run.state.position) h tt)
              (if_ind F (b.non_modal_command == 40)
                (emit-F run (settings_write_coord_data 7 run.state.position) h tt)
                (if_ind F (b.non_modal_command == 92) (emit-F run system_flag_wco_change h tt) (
                  if_ind F (b.non_modal_command == 102) (emit-F run system_flag_wco_change h tt)
                    h)))))

    abbrev AllFedO : Outcome V → Type 0
    AllFedO o = AllFed o.actions

    stop_all-F :
        (run : Run V) (coords : Option (Vec V))
        → F run
        → AllFedO (stop_all float world b d run coords)
    unfolding stop_all
    stop_all-F run none h = h.0
    stop_all-F run (some coords) h =
        let a = emit system_flag_wco_change run in
        let a' = emit (spindle_set_state 0 float.nought) a in
        let a'' = emit (coolant_set_state 0) a' in
        (emit-F a'' message_program_end
          (emit-F a' (coolant_set_state 0)
            (emit-F a (spindle_set_state 0 float.nought) (emit-F run system_flag_wco_change h tt)
              tt)
            tt)
          tt).0

    end_program-F : (run : Run V) → F run → AllFedO (end_program float world b d run)
    unfolding end_program
    end_program-F run h =
        let ended = emit restore_overrides (set_modal (end_modal float world b d) run) in
        let led : F ended = emit-F run restore_overrides h tt in
        if_ind AllFedO (not world.check_mode)
          (stop_all-F ended (read_after world ended.actions 0) led)
          (emit-F ended message_program_end led tt).0

    program_flow_action-F :
        (run : Run V) → F run → AllFedO (program_flow_action float world b d run)
    unfolding program_flow_action
    program_flow_action-F run h =
        let set = set_modal (λ a. record a { program_flow = b.modal.program_flow }) run in
        let synced = emit protocol_buffer_synchronize set in
        let led : F synced = emit-F run protocol_buffer_synchronize h tt in
        if_ind AllFedO (b.modal.program_flow == 0) h.0 (
          if_ind AllFedO (b.modal.program_flow == 3)
            (if_ind (λ (q : Run V). AllFed q.actions) (not world.check_mode)
              (emit-F (emit set_exec_feed_hold synced) protocol_execute_realtime
                (emit-F synced set_exec_feed_hold led tt) tt).0
              led.0)
            (end_program-F synced led))

  module _ (world : World V) (st : GcState V) where
    after_checks-AllFed :
        (b : Block) (r : Result (Draft V))
        → AllOk (MotionFeeds world st b) r
        → AllFed (after_checks float world false b st r).actions
    unfolding after_checks execute_block
    after_checks-AllFed b (fail status) h = tt
    after_checks-AllFed b (ok d) h =
        program_flow_action-F world b d _ (
          motion_action-F world b d h _ (non_modal_action-F world b d _ (set_modes-F world b d st)))

    after_reading-AllFed :
        (r : Result Block)
        → (o : Outcome V) × (after_reading float world false st (some r) ≡ some o)
          × AllFed o.actions
    unfolding after_reading
    after_reading-AllFed (fail status) = (refused status st, refl, tt)
    after_reading-AllFed (ok b) = (
      after_checks float world false b st (check_block float world st b false),
      refl,
      after_checks-AllFed b (check_block float world st b false)
          (check_block-MotionFeeds world st b false),
    )

    -- A line that is not a jog starts no motion at a feed rate of zero, but for rapid ones.
    pub gc_execute_line-AllFed :
        (line : List ℕ)
        → is_jog line ≡ false
        → (o : Outcome V) × (gc_execute_line float world line st ≡ some o) × AllFed o.actions
    unfolding gc_execute_line
    gc_execute_line-AllFed line e =
        let (r, read) = read_block-Some world.conversions st.modal line in
        let (o, found, h) = after_reading-AllFed r in
        (
          o,
          ap (λ jog. after_reading float world jog st (read_block world.conversions st.modal line))
                e
              ∙ ap (after_reading float world false st) read
              ∙ found,
          h,
        )
