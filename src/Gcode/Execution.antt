-- ===== src/Gcode/Execution.antt =====
-- The end of `gc_execute_line` in gcode.c, the jogs of jog.c, and the whole of a line.
use g_carvin.Base.{
  ℕ, Bool, true, false, not, ◌&&◌, ◌||◌, Option, none, some, List, [], ◌∷◌, ◌==◌, if◌then◌else◌,
}
use g_carvin.Base.Status.{Result, ok, fail}
use g_carvin.Gcode.{Modal, Block, elem}
use g_carvin.Gcode.Words.{read_block, is_jog}
use g_carvin.Gcode.Real.{Arithmetic, Vec, clear_vector}
use g_carvin.Gcode.State.{
  GcState, PlanData, Action, spindle_set_state, coolant_set_state, system_flag_wco_change,
  settings_write_coord_data, mc_line, mc_arc, mc_probe_cycle, start_jog,
  protocol_buffer_synchronize, set_exec_feed_hold, protocol_execute_realtime, restore_overrides,
  message_program_end, World,
}
use g_carvin.Gcode.Checks.{Draft}
use g_carvin.Gcode.Motions.{axis_0, axis_1, axis_linear, check_block}
use g_carvin.Gcode.Execute.{Run, emit, set_modal, set_condition, set_modes}

-- What a line leaves: its status, the state of the parser, and the calls that it made.
pub record Outcome (V : Type 0) : Type 0 where
  pub status : ℕ
  pub state : GcState V
  pub actions : List (Action V)

abbrev pub refused : {V : Type 0} → ℕ → GcState V → Outcome V
refused status st = record { status = status; state = st; actions = [] }

-- What `settings_read_coord_data` reads after the calls of a line.
abbrev pub read_after : {V : Type 0} → World V → List (Action V) → ℕ → Option (Vec V)
read_after world [] n = world.read_coord_data n
read_after world (settings_write_coord_data m coords ∷ actions) n =
    if m == n then some coords else read_after world actions n
read_after world (_ ∷ actions) n = read_after world actions n

module _ {V : Type 0} (float : Arithmetic V) (world : World V) where
  module _ (b : Block) (d : Draft V) where
    abbrev pub set_position : Vec V → Run V → Run V
    set_position position run = record run { state = record (run.state) { position = position } }

    -- G10, which also changes the active coordinate system.
    unfoldable pub store_coords : Run V → Run V
    store_coords run =
        let written = emit (settings_write_coord_data d.coord_select d.ijk) run in
        if run.state.modal.coord_select == d.coord_select
        then emit system_flag_wco_change
            (record written { state = record (written.state) { coord_system = d.ijk } })
        else written

    -- G28 and G30
    unfoldable pub move_home : Run V → Run V
    move_home run =
        let rapid = set_condition (λ c. record c { rapid_motion = true }) run in
        let there =
          if not (d.axis_command == 0) then emit (mc_line d.xyz rapid.plan) rapid else rapid in
        set_position d.ijk (emit (mc_line d.ijk there.plan) there)

    abbrev pub with_offset : Vec V → Run V → Run V
    with_offset offset run =
        emit system_flag_wco_change
          (record run { state = record (run.state) { coord_offset = offset } })

    -- [19. Go to predefined position, Set G10, or Set axis offsets]
    unfoldable pub non_modal_action : Run V → Run V
    non_modal_action run =
        if b.non_modal_command == 10
        then store_coords run
        else if b.non_modal_command == 28 || b.non_modal_command == 30
        then move_home run
        else if b.non_modal_command == 38
        then emit (settings_write_coord_data 6 run.state.position) run
        else if b.non_modal_command == 40
        then emit (settings_write_coord_data 7 run.state.position) run
        else if b.non_modal_command == 92
        then with_offset d.xyz run
        else if b.non_modal_command == 102
        then with_offset (clear_vector float) run
        else run

    -- A probing cycle, and the position by what it returns.
    unfoldable pub probe_motion : Run V → Run V
    probe_motion run =
        let unscaled = set_condition (λ c. record c { no_feed_override = true }) run in
        let after = world.probe d.xyz in
        let probed =
          emit (mc_probe_cycle d.xyz unscaled.plan d.probe_is_away d.probe_is_no_error) unscaled in
        if after.0 == 0
        then set_position after.1 probed
        else if after.0 == 1
        then set_position world.machine_position probed
        else probed

    unfoldable pub arc_motion : Run V → Run V
    arc_motion run = set_position d.xyz (
        emit
          (mc_arc d.xyz run.plan run.state.position d.ijk d.radius (axis_0 b.modal.plane_select)
            (axis_1 b.modal.plane_select) (axis_linear b.modal.plane_select) d.arc_is_clockwise)
          run)

    unfoldable pub line_motion : Run V → Run V
    line_motion run = set_position d.xyz (emit (mc_line d.xyz run.plan) run)

    -- The motion of the active motion mode.
    unfoldable pub motion : Run V → Run V
    motion run =
        if b.modal.motion == 1
        then line_motion run
        else if b.modal.motion == 0
        then line_motion (set_condition (λ c. record c { rapid_motion = true }) run)
        else if b.modal.motion == 2 || b.modal.motion == 3
        then arc_motion run
        else probe_motion run

    -- [20. Motion modes]
    unfoldable pub motion_action : Run V → Run V
    motion_action run =
        let set = set_modal (λ a. record a { motion = b.modal.motion }) run in
        if not (b.modal.motion == 80) && d.axis_command == 2 then motion set else set

    abbrev pub done : ℕ → Run V → Outcome V
    done status run = record { status = status; state = run.state; actions = run.actions }

    -- The modal values that the end of a program sets.
    abbrev pub end_modal : Modal → Modal
    end_modal a = record a {
      motion = 1;
      plane_select = 0;
      distance = 0;
      feed_rate = 0;
      coord_select = 0;
      spindle = 0;
      coolant = 0;
    }

    abbrev pub running : Run V → Run V
    running run = set_modal (λ a. record a { program_flow = 0 }) run

    -- G54 is read again, and the spindle and the coolant are stopped.
    unfoldable pub stop_all : Run V → Option (Vec V) → Outcome V
    stop_all run none = done 7 run
    stop_all run (some coords) = done 0 (
        running (
          emit message_program_end (
            emit (coolant_set_state 0) (
              emit (spindle_set_state 0 float.nought) (
                emit system_flag_wco_change
                  (record run { state = record (run.state) { coord_system = coords } }))))))

    -- M2 and M30
    unfoldable pub end_program : Run V → Outcome V
    end_program run =
        let ended = emit restore_overrides (set_modal end_modal run) in
        if not world.check_mode
        then stop_all ended (read_after world ended.actions 0)
        else done 0 (running (emit message_program_end ended))

    -- [21. Program flow]
    unfoldable pub program_flow_action : Run V → Outcome V
    program_flow_action run =
        let set = set_modal (λ a. record a { program_flow = b.modal.program_flow }) run in
        let synced = emit protocol_buffer_synchronize set in
        if b.modal.program_flow == 0
        then done 0 set
        else if b.modal.program_flow == 3
        then done 0 (
            running (
              if not world.check_mode
              then emit protocol_execute_realtime (emit set_exec_feed_hold synced)
              else synced))
        else end_program synced

    -- The fourth step.
    unfoldable pub execute_block : GcState V → Outcome V
    execute_block st =
        program_flow_action (motion_action (non_modal_action (set_modes float world b d st)))

    -- The planner data of a jog.
    abbrev pub jog_plan : GcState V → PlanData V
    jog_plan st = record {
      feed_rate = d.feed;
      spindle_speed = st.spindle_speed;
      condition = record {
        rapid_motion = false;
        no_feed_override = true;
        inverse_time = false;
        spindle = st.modal.spindle;
        coolant = st.modal.coolant;
      };
    }

    -- `jog_execute` of jog.c, and the new position if it accepts.
    unfoldable pub jog_execute : GcState V → Outcome V
    jog_execute st =
        let started = if world.is_idle && world.holds_block d.xyz then start_jog ∷ [] else [] in
        if world.soft_limit_enable && world.travel_exceeded d.xyz then refused 15 st else record {
          status = 0;
          state = record st { position = d.xyz };
          actions = mc_line d.xyz (jog_plan st) ∷ started;
        }

    -- The modal groups that the test of a jog lets pass: bits 3 and 6 | 1.
    abbrev pub only_jog_groups : List ℕ → Bool
    only_jog_groups [] = true
    only_jog_groups (w ∷ ws) = elem w (3 ∷ 7 ∷ []) && only_jog_groups ws

    unfoldable pub execute_jog : GcState V → Outcome V
    execute_jog st =
        if not (only_jog_groups b.command_words)
        then refused 16 st
        else if not (b.non_modal_command == 53 || b.non_modal_command == 0)
        then refused 16 st
        else jog_execute st

  unfoldable pub after_checks : Bool → Block → GcState V → Result (Draft V) → Outcome V
  after_checks jog b st (fail status) = refused status st
  after_checks jog b st (ok d) = if jog then execute_jog b d st else execute_block b d st

  unfoldable pub after_reading : Bool → GcState V → Option (Result Block) → Option (Outcome V)
  after_reading jog st none = none
  after_reading jog st (some (fail status)) = some (refused status st)
  after_reading jog st (some (ok b)) =
      some (after_checks jog b st (check_block float world st b jog))

  -- A whole line; `none` where the fuel of the words is used up.
  unfoldable pub gc_execute_line : List ℕ → GcState V → Option (Outcome V)
  gc_execute_line line st =
      after_reading (is_jog line) st (read_block world.conversions st.modal line)
