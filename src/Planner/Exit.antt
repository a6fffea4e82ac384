-- ===== src/Planner/Exit.antt =====
-- The exit speed that planner.c gives for the block that is executed.
use mathlib.Core.Path.{subst}
use g_carvin.Base.{◌≡◌, true, false, ◌<◌, arith, ◌==◌, if_cases, if_true, if_false}
use g_carvin.Planner.{
  Planner, plan_next_block_index, slope, plan_get_exec_block_exit_speed_sqr,
  plan_get_block_buffer_count,
}
use g_carvin.Planner.Floats.{Float, AtMost, FloatLaws}
use g_carvin.Planner.Places.{place-tail}
use g_carvin.Planner.Entries.{Stops}
use g_carvin.Planner.Passes.{IsFeasible, entries}

module _ {V : Type 0} (float : Float V) (laws : FloatLaws float) where
  stops_in_time :
      (p : Planner V)
      → 0 < plan_get_block_buffer_count p
      → IsFeasible float laws p
      → AtMost float (p.block_buffer p.block_buffer_tail).entry_speed_sqr (
          float.add
            (plan_get_exec_block_exit_speed_sqr float p)
            (slope float (p.block_buffer p.block_buffer_tail)))
  unfolding plan_get_exec_block_exit_speed_sqr plan_get_block_buffer_count IsFeasible Stops
  stops_in_time p held (ring, plan) =
      let stop =
        plan.stops p.block_buffer_tail ring.tail_lt
          (omega (arith, held, place-tail p.block_buffer_tail)) in
      let entry = entries float laws p p.block_buffer_tail in
      if_cases
        (λ (exit : V).
          AtMost float entry (float.add exit (slope float (p.block_buffer p.block_buffer_tail))))
        (plan_next_block_index p.block_buffer_tail == p.block_buffer_head)
        (λ last.
          laws.trans_le _ _ _ (subst (AtMost float entry) (if_true _ _ last) stop)
            (laws.add_rest _))
        (λ inner. subst (AtMost float entry) (if_false _ _ inner) stop)

  -- Whether the block that is executed is the last one.
  last_held :
      (p : Planner V)
      → IsFeasible float laws p
      → plan_get_block_buffer_count p ≡ 1
      → (plan_next_block_index p.block_buffer_tail == p.block_buffer_head) ≡ true
  unfolding plan_get_block_buffer_count plan_next_block_index IsFeasible
  last_held p (ring, plan) one = let tail = ring.tail_lt in let head = ring.head_lt in ground arith

  others_held :
      (p : Planner V)
      → IsFeasible float laws p
      → 1 < plan_get_block_buffer_count p
      → (plan_next_block_index p.block_buffer_tail == p.block_buffer_head) ≡ false
  unfolding plan_get_block_buffer_count plan_next_block_index IsFeasible
  others_held p (ring, plan) more =
      let tail = ring.tail_lt in let head = ring.head_lt in ground arith

  -- In a plan that can be driven and holds a block, the exit speed that is given for the block that is
  -- executed is zero if the plan holds no other, and the entry speed of the block behind it otherwise;
  -- the block can slow down to it. The floats keep to the laws of their order.
  pub plan_get_exec_block_exit_speed_sqr_lem :
      (p : Planner V)
      → 0 < plan_get_block_buffer_count p
      → IsFeasible float laws p
      → let exit = plan_get_exec_block_exit_speed_sqr float p in
        let next = plan_next_block_index p.block_buffer_tail in
        (plan_get_block_buffer_count p ≡ 1 → exit ≡ float.at_rest)
        × (1 < plan_get_block_buffer_count p → exit ≡ (p.block_buffer next).entry_speed_sqr)
        × AtMost float
            (p.block_buffer p.block_buffer_tail).entry_speed_sqr
            (float.add exit (slope float (p.block_buffer p.block_buffer_tail)))
  unfolding plan_get_exec_block_exit_speed_sqr
  plan_get_exec_block_exit_speed_sqr_lem p held feasible = (
    λ one. if_true _ _ (last_held p feasible one),
    λ more. if_false _ _ (others_held p feasible more),
    stops_in_time p held feasible,
  )
