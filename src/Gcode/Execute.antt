-- ===== src/Gcode/Execute.antt =====
-- The fourth step of `gc_execute_line` in gcode.c up to the coordinate systems: the state of the parser
-- is updated and the machine acts, in the order of execution.
use mathlib.Core.List.{List, [], ◌∷◌, ◌++◌}
use g_carvin.Base.{ℕ, Bool, false, not, ◌&&◌, ◌||◌, ◌==◌, if◌then◌else◌}
use Prim.Native.Nat.{bit_or}
use g_carvin.Gcode.{Modal, Block}
use g_carvin.Gcode.Real.{Arithmetic, Vec}
use g_carvin.Gcode.State.{
  GcState, Condition, PlanData, Action, spindle_sync, coolant_sync, mc_dwell,
  system_flag_wco_change, World,
}
use g_carvin.Gcode.Checks.{Draft, is_empty}

-- The parser flags of the laser mode.
pub record Laser : Type 0 where
  pub force_sync : Bool
  pub disable : Bool
  pub is_motion : Bool

-- What the fourth step works on: the state of the parser, the planner data, and the calls so far.
pub record Run (V : Type 0) : Type 0 where
  pub state : GcState V
  pub plan : PlanData V
  pub actions : List (Action V)

module _ {V : Type 0} where
  abbrev pub emit : Action V → Run V → Run V
  emit a run = record run { actions = run.actions ++ a ∷ [] }

  abbrev pub set_modal : (Modal → Modal) → Run V → Run V
  set_modal change run = record run {
    state = record (run.state) { modal = change run.state.modal };
  }

  abbrev pub set_condition : (Condition → Condition) → Run V → Run V
  set_condition change run = record run {
    plan = record (run.plan) { condition = change run.plan.condition };
  }

-- The motions G1, G2 and G3.
abbrev pub is_cut : ℕ → Bool
is_cut motion = motion == 1 || (motion == 2 || motion == 3)

module _ {V : Type 0} (float : Arithmetic V) (world : World V) (b : Block) (d : Draft V) where
  abbrev pub start_run : GcState V → Run V
  start_run st = record {
    state = st;
    plan = record {
      feed_rate = float.nought;
      spindle_speed = float.nought;
      condition = record {
        rapid_motion = false;
        no_feed_override = false;
        inverse_time = false;
        spindle = 0;
        coolant = 0;
      };
    };
    actions = [];
  }

  abbrev pub moves : Bool
  moves = not (is_empty b.axis_words) && d.axis_command == 2

  unfoldable pub laser_of : GcState V → Laser
  laser_of st =
      let disable = world.laser_mode && not (is_cut b.modal.motion) in
      record {
        force_sync =
            world.laser_mode
            && (not moves
                && (st.modal.spindle == 16
                    && (if is_cut st.modal.motion then disable else not disable)));
        disable = disable;
        is_motion = world.laser_mode && moves;
      }

  -- The line number, [2. Set feed rate mode] and [3. Set feed rate]
  unfoldable pub set_feed_rate : Run V → Run V
  set_feed_rate run = record run {
    state = record (run.state) {
      line_number = b.values.n;
      modal = record (run.state.modal) { feed_rate = b.modal.feed_rate };
      feed_rate = d.feed;
    };
    plan = record (run.plan) {
      feed_rate = d.feed;
      condition = record (run.plan.condition) { inverse_time = not (b.modal.feed_rate == 0) };
    };
  }

  -- The call of `spindle_sync` for a new speed.
  unfoldable pub sync_speed : Laser → Run V → Run V
  sync_speed laser run =
      if not (run.state.modal.spindle == 0) && not laser.is_motion
      then emit
          (spindle_sync run.state.modal.spindle (if laser.disable then float.nought else d.speed))
          run
      else run

  abbrev pub with_speed : Run V → Run V
  with_speed run = record run { state = record (run.state) { spindle_speed = d.speed } }

  -- [4. Set spindle speed] and [5. Select tool]
  unfoldable pub set_spindle_speed : Laser → Run V → Run V
  set_spindle_speed laser run =
      let synced =
        if not (float.same run.state.spindle_speed d.speed) || laser.force_sync
        then with_speed (sync_speed laser run)
        else run in
      record synced {
        state = record (synced.state) { tool = b.values.t };
        plan = record (synced.plan) {
          spindle_speed =
              if not laser.disable then synced.state.spindle_speed else synced.plan.spindle_speed;
        };
      }

  -- [7. Spindle control]
  unfoldable pub spindle_control : Run V → Run V
  spindle_control run =
      let synced =
        if not (run.state.modal.spindle == b.modal.spindle)
        then set_modal (λ a. record a { spindle = b.modal.spindle })
            (emit (spindle_sync b.modal.spindle run.plan.spindle_speed) run)
        else run in
      set_condition (λ c. record c { spindle = synced.state.modal.spindle }) synced

  -- [8. Coolant control]
  unfoldable pub coolant_control : Run V → Run V
  coolant_control run =
      let synced =
        if not (run.state.modal.coolant == b.modal.coolant)
        then set_modal
            (λ a. record a {
              coolant = if b.modal.coolant == 0 then 0 else bit_or a.coolant b.modal.coolant;
            })
            (emit (coolant_sync b.modal.coolant) run)
        else run in
      set_condition (λ c. record c { coolant = synced.state.modal.coolant }) synced

  -- [10. Dwell], [11. Set active plane] and [12. Set length units]
  unfoldable pub dwell_and_modes : Run V → Run V
  dwell_and_modes run =
      set_modal (λ a. record a { plane_select = b.modal.plane_select; units = b.modal.units })
        (if b.non_modal_command == 4 then emit (mc_dwell d.dwell) run else run)

  -- The offset of G43.1, and none for G49.
  abbrev pub new_tool_length : V
  new_tool_length = if b.modal.tool_length == 0 then float.nought else d.xyz.z

  abbrev pub with_tool_length : Run V → Run V
  with_tool_length run =
      emit system_flag_wco_change
        (record run { state = record (run.state) { tool_length_offset = new_tool_length } })

  -- [14. Cutter length compensation]
  unfoldable pub tool_length : Run V → Run V
  tool_length run =
      let set = set_modal (λ a. record a { tool_length = b.modal.tool_length }) run in
      if d.axis_command == 3
      then (if not (float.same run.state.tool_length_offset new_tool_length)
          then with_tool_length set
          else set)
      else run

  abbrev pub with_coord_system : ℕ → Vec V → Run V → Run V
  with_coord_system n coords run = emit system_flag_wco_change (record run {
    state = record (run.state) {
      modal = record (run.state.modal) { coord_select = n };
      coord_system = coords;
    };
  })

  -- [15. Coordinate system selection] and [17. Set distance mode]
  unfoldable pub coord_and_distance : Run V → Run V
  coord_and_distance run =
      set_modal (λ a. record a { distance = b.modal.distance })
        (if not (run.state.modal.coord_select == b.modal.coord_select)
          then with_coord_system b.modal.coord_select d.block_coord_system run
          else run)

  -- The fourth step up to the non-modal actions.
  unfoldable pub set_modes : GcState V → Run V
  set_modes st = coord_and_distance (
      tool_length (
        dwell_and_modes (
          coolant_control
            (spindle_control (set_spindle_speed (laser_of st) (set_feed_rate (start_run st)))))))
