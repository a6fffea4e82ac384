-- ===== src/Gcode/Settles.antt =====
-- The position and the spindle mode after a whole line of gcode.c, whatever its end.
use g_carvin.Base.{
  ℕ, ◌≡◌, ◌≢◌, refl, sym, ap, ◌∙◌, Bool, true, false, not, ◌&&◌, ◌||◌, Option, none, some, List, [],
  ◌∷◌, ◌++◌, ◌==◌, if◌then◌else◌, if_ind, if_cases,
}
use g_carvin.Base.Status.{Result, ok, fail}
use g_carvin.Gcode.{Block}
use g_carvin.Gcode.Real.{Arithmetic, Vec}
use g_carvin.Gcode.State.{
  GcState, Action, mc_line, start_jog, spindle_set_state, coolant_set_state, system_flag_wco_change,
  protocol_buffer_synchronize, set_exec_feed_hold, protocol_execute_realtime, restore_overrides,
  message_program_end, World,
}
use g_carvin.Gcode.Checks.{Draft}
use g_carvin.Gcode.Motions.{check_block}
use g_carvin.Gcode.Words.{is_jog}
use g_carvin.Gcode.Reads.{read_block-Some}
use g_carvin.Gcode.Execute.{Run, emit, set_modal, set_modes}
use g_carvin.Gcode.Execution.{
  Outcome, refused, read_after, done, end_modal, running, stop_all, end_program,
  program_flow_action, execute_block, jog_plan, jog_execute, execute_jog, only_jog_groups,
  after_checks, after_reading, gc_execute_line, motion_action, non_modal_action,
}
use g_carvin.Gcode.Replay.{after_action, replay, replay-append, seen, Tracks}
use g_carvin.Gcode.Tracks.{before_flow-Tracks}

module _ {V : Type 0} (float : Arithmetic V) (world : World V) (st : GcState V) where
  -- The calls leave a position and a spindle mode.
  abbrev LeadTo : List (Action V) → Vec V × ℕ → Type 0
  LeadTo actions m = replay world (seen world st) actions ≡ m

  one_more :
      (actions : List (Action V)) (m : Vec V × ℕ) (a : Action V)
      → LeadTo actions m
      → LeadTo (actions ++ a ∷ []) (after_action world m a)
  one_more actions m a h =
      replay-append world (seen world st) actions a
      ∙ ap (λ (k : Vec V × ℕ). after_action world k a) h

  -- The position is the one that the calls leave; so is the spindle mode, but for a failed read of
  -- the EEPROM and for the check mode.
  pub record Follows (o : Outcome V) : Type 0 where
    pub position : o.state.position ≡ (replay world (seen world st) o.actions).0
    pub spindle :
        o.status ≢ 7
        → world.check_mode ≡ false
        → o.state.modal.spindle ≡ (replay world (seen world st) o.actions).1

  ends : (o : Outcome V) → LeadTo o.actions (seen world o.state) → Follows o
  ends o h = record {
    position = ap (λ (m : Vec V × ℕ). m.0) (sym h);
    spindle = λ _ _. ap (λ (m : Vec V × ℕ). m.1) (sym h);
  }

  refused-Follows : (status : ℕ) → Follows (refused status st)
  refused-Follows status = ends (refused status st) refl

  module _ (b : Block) (d : Draft V) where
    stop_all-Follows :
        (run : Run V) (coords : Option (Vec V)) (spindle : ℕ)
        → run.state.modal.spindle ≡ 0
        → LeadTo run.actions (run.state.position, spindle)
        → Follows (stop_all float world b d run coords)
    unfolding stop_all
    stop_all-Follows run none spindle e h = record {
      position = ap (λ (m : Vec V × ℕ). m.0) (sym h);
      spindle = λ ne _. absurd (ne refl);
    }
    stop_all-Follows run (some coords) spindle e h =
        let a = run.actions ++ system_flag_wco_change ∷ [] in
        let a' = a ++ spindle_set_state 0 float.nought ∷ [] in
        let stopped : Vec V × ℕ = (run.state.position, 0) in
        ends (stop_all float world b d run (some coords)) (
          one_more (a' ++ coolant_set_state 0 ∷ []) stopped message_program_end (
            one_more a' stopped (coolant_set_state 0) (
              one_more a (run.state.position, spindle) (spindle_set_state 0 float.nought)
                (one_more run.actions (run.state.position, spindle) system_flag_wco_change h)))
          ∙ ap (λ (k : ℕ). (run.state.position, k)) (sym e))

    end_program-Follows :
        (run : Run V)
        → LeadTo run.actions (seen world run.state)
        → Follows (end_program float world b d run)
    unfolding end_program
    end_program-Follows run h =
        let ended = emit restore_overrides (set_modal (end_modal float world b d) run) in
        let led = one_more run.actions (seen world run.state) restore_overrides h in
        if_cases Follows (not world.check_mode)
          (λ live.
            stop_all-Follows ended (read_after world ended.actions 0) run.state.modal.spindle refl
              led)
          (λ dry. record {
            position =
                ap (λ (m : Vec V × ℕ). m.0)
                  (sym (one_more ended.actions (seen world run.state) message_program_end led));
            spindle = λ _ live. cc;
          })

    program_flow_action-Follows :
        (run : Run V)
        → LeadTo run.actions (seen world run.state)
        → Follows (program_flow_action float world b d run)
    unfolding program_flow_action
    program_flow_action-Follows run h =
        let synced =
          emit protocol_buffer_synchronize
            (set_modal (λ a. record a { program_flow = b.modal.program_flow }) run) in
        let led = one_more run.actions (seen world run.state) protocol_buffer_synchronize h in
        if_ind Follows (b.modal.program_flow == 0) (ends _ h) (
          if_ind Follows (b.modal.program_flow == 3)
            (if_ind (λ (q : Run V). Follows (done float world b d 0 (running float world b d q)))
              (not world.check_mode)
              (ends _ (
                one_more (synced.actions ++ set_exec_feed_hold ∷ []) (seen world run.state)
                  protocol_execute_realtime
                  (one_more synced.actions (seen world run.state) set_exec_feed_hold led)))
              (ends _ led))
            (end_program-Follows synced led))

    execute_block-Follows : Follows (execute_block float world b d st)
    unfolding execute_block Tracks
    execute_block-Follows =
        program_flow_action-Follows
          (motion_action float world b d
            (non_modal_action float world b d (set_modes float world b d st)))
          (sym (before_flow-Tracks float world b d st))

    execute_jog-Follows : Follows (execute_jog float world b d st)
    unfolding execute_jog jog_execute
    execute_jog-Follows =
        if_ind Follows (not (only_jog_groups float world b d b.command_words)) (refused-Follows 16)
          (if_ind Follows (not (b.non_modal_command == 53 || b.non_modal_command == 0))
            (refused-Follows 16)
            (if_ind Follows (world.soft_limit_enable && world.travel_exceeded d.xyz)
              (refused-Follows 15) (started-Follows (world.is_idle && world.holds_block d.xyz))))
      where
        -- A start moves nothing by itself.
        started-Follows :
            (starts : Bool)
            → Follows (record {
              status = 0;
              state = record st { position = d.xyz };
              actions =
                  mc_line d.xyz (jog_plan float world b d st)
                  ∷ (if starts then start_jog ∷ [] else []);
            })
        started-Follows true = ends _ refl
        started-Follows false = ends _ refl

  after_checks-Follows :
      (jog : Bool) (b : Block) (r : Result (Draft V))
      → Follows (after_checks float world jog b st r)
  unfolding after_checks
  after_checks-Follows jog b (fail status) = refused-Follows status
  after_checks-Follows jog b (ok d) =
      if_ind Follows jog (execute_jog-Follows b d) (execute_block-Follows b d)

  after_reading-Follows :
      (jog : Bool) (r : Result Block)
      → (o : Outcome V) × (after_reading float world jog st (some r) ≡ some o) × Follows o
  unfolding after_reading
  after_reading-Follows jog (fail status) = (refused status st, refl, refused-Follows status)
  after_reading-Follows jog (ok b) = (
    after_checks float world jog b st (check_block float world st b jog),
    refl,
    after_checks-Follows jog b (check_block float world st b jog),
  )

  -- Every line ends. Then the parser's position is the one that its calls leave, where a motion leads
  -- to its target, and its spindle mode is that of the last call to the spindle, unless the EEPROM
  -- could not be read or the machine is in the check mode.
  pub gc_execute_line-Follows :
      (line : List ℕ) → (o : Outcome V) × (gc_execute_line float world line st ≡ some o) × Follows o
  unfolding gc_execute_line
  gc_execute_line-Follows line =
      let (r, e) = read_block-Some world.conversions st.modal line in
      let (o, found, h) = after_reading-Follows (is_jog line) r in
      (o, ap (after_reading float world (is_jog line) st) e ∙ found, h)
