-- ===== src/Gcode/Replay.antt =====
-- Where the calls of a line of gcode.c leave the machine and its spindle.
use g_carvin.Base.{ℕ, ◌≡◌, refl, sym, ap, ◌∙◌, List, [], ◌∷◌, ◌++◌, ◌==◌, if◌then◌else◌}
use g_carvin.Gcode.Real.{Vec}
use g_carvin.Gcode.State.{
  GcState, Action, spindle_sync, spindle_set_state, mc_line, mc_arc, mc_probe_cycle, World,
}
use g_carvin.Gcode.Execute.{Run, emit}

module _ {V : Type 0} (world : World V) where
  -- A probing cycle ends where it says, at the machine's position, or has not moved.
  abbrev pub probe_position : Vec V → Vec V → Vec V
  probe_position position target =
      if (world.probe target).0 == 0
      then (world.probe target).1
      else if (world.probe target).0 == 1
      then world.machine_position
      else position

  -- The position and the spindle mode after a call.
  abbrev pub after_action : Vec V × ℕ → Action V → Vec V × ℕ
  after_action m (mc_line target plan) = (target, m.1)
  after_action m (mc_arc target plan from offset radius a0 a1 al clockwise) = (target, m.1)
  after_action m (mc_probe_cycle target plan away no_error) = (probe_position m.0 target, m.1)
  after_action m (spindle_sync mode rpm) = (m.0, mode)
  after_action m (spindle_set_state mode rpm) = (m.0, mode)
  after_action m _ = m

  abbrev pub replay : Vec V × ℕ → List (Action V) → Vec V × ℕ
  replay m [] = m
  replay m (a ∷ actions) = replay (after_action m a) actions

  pub replay-append :
      (m : Vec V × ℕ) (actions : List (Action V)) (a : Action V)
      → replay m (actions ++ a ∷ []) ≡ after_action (replay m actions) a
  replay-append m [] a = refl
  replay-append m (b ∷ actions) a = replay-append (after_action m b) actions a

  -- What the parser takes for the position and the spindle mode.
  abbrev pub seen : GcState V → Vec V × ℕ
  seen st = (st.position, st.modal.spindle)

  -- The parser is where its calls have left the machine.
  unfoldable pub Tracks : GcState V → Run V → Type 0
  Tracks st run = seen run.state ≡ replay (seen st) run.actions

  -- A call, and the state that the parser goes over to with it.
  pub emit-Tracks :
      (st after : GcState V) (run : Run V) (a : Action V)
      → seen after ≡ after_action (seen run.state) a
      → Tracks st run
      → Tracks st (emit a (record run { state = after }))
  unfolding Tracks
  emit-Tracks st after run a e h =
      e ∙ ap (λ m. after_action m a) h ∙ sym (replay-append (seen st) run.actions a)
