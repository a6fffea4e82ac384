-- ===== src/Gcode/Jogs.antt =====
-- The jog lines of gcode.c, `$J=`, and jog.c.
use g_carvin.Base.{
  ℕ, ◌≡◌, ◌⊎◌, inl, inr, refl, ap, ◌∙◌, arith, true, false, not, ◌&&◌, ◌||◌, some, List, [], ◌∷◌,
  ◌==◌, if◌then◌else◌, if_cases, Bool-cases,
}
use g_carvin.Base.Status.{Result, ok, fail, Checked}
use g_carvin.Gcode.{Block, elem}
use g_carvin.Gcode.Words.{read_block, is_jog}
use g_carvin.Gcode.Real.{Arithmetic, Vec}
use g_carvin.Gcode.State.{GcState, PlanData, mc_line, start_jog, World}
use g_carvin.Gcode.Checks.{Draft}
use g_carvin.Gcode.Motions.{check_block}
use g_carvin.Gcode.UsedWords.{check_block-Checked}
use g_carvin.Gcode.Execution.{
  Outcome, refused, jog_plan, jog_execute, only_jog_groups, execute_jog, after_checks,
  after_reading, gc_execute_line,
}

module _ {V : Type 0} (float : Arithmetic V) (world : World V) (st : GcState V) (b : Block) where
  -- A jog is one motion, within the soft limits where they are enabled, without the feed override, and moves the parser's
  -- position alone; its commands are of the modal groups 3 and 7.
  pub record Jogs (o : Outcome V) : Type 0 where
    pub status : o.status ≡ 0
    pub target : Vec V
    pub plan : PlanData V
    pub state : o.state ≡ record st { position = target }
    pub actions :
        o.actions
        ≡ mc_line target plan
          ∷ (if world.is_idle && world.holds_block target then start_jog ∷ [] else [])
    pub unscaled : plan.condition.no_feed_override ≡ true
    pub reached : (world.soft_limit_enable && world.travel_exceeded target) ≡ false
    pub groups : (w : ℕ) → elem w b.command_words ≡ true → elem w (3 ∷ 7 ∷ []) ≡ true

  abbrev pub JogsOrRefused : Outcome V → Type 0
  JogsOrRefused o = ((o ≡ refused o.status st) × ((o.status == 0) ≡ false)) ⊎ Jogs o

  only_jog_groups-elem :
      (d : Draft V) (ws : List ℕ)
      → only_jog_groups float world b d ws ≡ true
      → (w : ℕ) → elem w ws ≡ true
      → elem w (3 ∷ 7 ∷ []) ≡ true
  only_jog_groups-elem d [] h w there = cc
  only_jog_groups-elem d (x ∷ ws) h w there = elim (Bool-cases (w == x)) [
    | inl same ↦ ground arith
    | inr other ↦ only_jog_groups-elem d ws (ground arith) w (ground arith)
  ]

  jog_execute-Jogs :
      (d : Draft V)
      → only_jog_groups float world b d b.command_words ≡ true
      → JogsOrRefused (jog_execute float world b d st)
  unfolding jog_execute
  jog_execute-Jogs d h =
      if_cases JogsOrRefused (world.soft_limit_enable && world.travel_exceeded d.xyz)
        (λ _. inl (refl, refl))
        (λ within. inr (record {
          status = refl;
          target = d.xyz;
          plan = jog_plan float world b d st;
          state = refl;
          actions = refl;
          unscaled = refl;
          reached = within;
          groups = only_jog_groups-elem d b.command_words h;
        }))

  execute_jog-Jogs : (d : Draft V) → JogsOrRefused (execute_jog float world b d st)
  unfolding execute_jog
  execute_jog-Jogs d =
      if_cases JogsOrRefused (not (only_jog_groups float world b d b.command_words))
        (λ _. inl (refl, refl))
        (λ groups.
          if_cases JogsOrRefused (not (b.non_modal_command == 53 || b.non_modal_command == 0))
            (λ _. inl (refl, refl)) (λ _. jog_execute-Jogs d (ground arith)))

  after_checks-Jogs :
      (r : Result (Draft V))
      → Checked {0} (λ d. Unit) r
      → JogsOrRefused (after_checks float world true b st r)
  unfolding after_checks
  after_checks-Jogs (fail status) h = inl (refl, h)
  after_checks-Jogs (ok d) h = execute_jog-Jogs d

  -- A jog line that was read is refused with a status that is not 0, without a call, and leaves the
  -- parser's state, or it makes one motion, which stays within the soft limits where they are enabled,
  -- and changes the parser's position alone; the motion is started at once exactly if the machine is
  -- idle and the planner holds a block after it. What it accepts has no command but of the modal
  -- groups 3 and 7.
  pub gc_execute_line-JogsOrRefused :
      (line : List ℕ)
      → is_jog line ≡ true
      → read_block world.conversions st.modal line ≡ some (ok b)
      → (o : Outcome V) × (gc_execute_line float world line st ≡ some o) × JogsOrRefused o
  unfolding gc_execute_line after_reading
  gc_execute_line-JogsOrRefused line jog read =
      let r = check_block float world st b true in
      (
        after_checks float world true b st r,
        ap (λ j. after_reading float world j st (read_block world.conversions st.modal line)) jog
            ∙ ap (after_reading float world true st) read,
        after_checks-Jogs r (check_block-Checked float world st b true),
      )
