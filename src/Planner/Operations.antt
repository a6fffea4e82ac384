-- ===== src/Planner/Operations.antt =====
-- The operations on the ring of blocks of planner.c keep a plan that can be driven.
use mathlib.Core.Path.{subst}
use g_carvin.Base.{◌+◌, ◌-◌, ◌<◌, ◌≡◌, sym, arith, false, not, ◌==◌, if_cases}
use g_carvin.Planner.{
  PlanBlock, Planner, plan_next_block_index, add_block, plan_discard_current_block,
  plan_cycle_reinitialize, plan_check_full_buffer, plan_get_block_buffer_count,
}
use g_carvin.Planner.Floats.{Float, FloatLaws}
use g_carvin.Planner.Places.{place, place-tail}
use g_carvin.Planner.Entries.{SpeedsUp}
use g_carvin.Planner.Passes.{
  Yields, PlansTo, planned_place, IsPlannedTo, IsFeasible, entries, limits, slopes,
}
use g_carvin.Planner.Plans.{planner_recalculate-IsFeasible}
use g_carvin.Planner.Push.{
  IsNew, with_block, PlanOf, push-Pointers, has_room, next_place, push-Plan,
}
use g_carvin.Planner.Discard.{discard-Pointers, discard-Plan}

module _ {V : Type 0} (float : Float V) (laws : FloatLaws float) where
  -- Whatever is held once a block is discarded is a plan that can be driven, if it was before,
  -- when the floats keep to the laws of their order.
  plan_discard_current_block-IsFeasible :
      (p : Planner V)
      → IsFeasible float laws p
      → IsFeasible float laws (plan_discard_current_block p)
  unfolding IsFeasible plan_discard_current_block
  plan_discard_current_block-IsFeasible p (ring, plan) =
      if_cases
        (λ (q : Planner V).
          PlansTo float laws (place q.block_buffer_tail q.block_buffer_head - 1) q)
        (not (p.block_buffer_head == p.block_buffer_tail))
        (λ held. (
          discard-Pointers p.block_buffer_tail p.block_buffer_head p.next_buffer_head
              p.block_buffer_planned (ground arith) ring,
          discard-Plan float laws (slopes float laws p) (entries float laws p) (limits float laws p)
              p.block_buffer_tail p.block_buffer_head ring.tail_lt ring.head_lt (ground arith) plan,
        ))
        (λ empty. (ring, plan))

  -- A new block that finds room in a plan that can be driven is planned: the look-ahead ends,
  -- and leaves a plan that can be driven again, in which no block is entered above its limit,
  -- each can slow down to the entry speed of the next and the last one to rest, and each can
  -- speed up to the entry speed of the next; the block comes at rest, with a limit and a slope
  -- that are not negative, and the floats keep to the laws of their order.
  pub add_block-IsFeasible :
      (b : PlanBlock V) (p : Planner V)
      → IsNew float laws b
      → plan_check_full_buffer p ≡ false
      → IsFeasible float laws p
      → Yields (IsFeasible float laws) (add_block float b p)
  unfolding add_block plan_check_full_buffer IsFeasible IsPlannedTo
  add_block-IsFeasible b p new room (ring, plan) =
      let free =
        has_room p.block_buffer_tail p.block_buffer_head p.next_buffer_head ring.tail_lt
          ring.head_lt ring.next_head room in
      planner_recalculate-IsFeasible float laws
        (record p {
          block_buffer = with_block float laws p.block_buffer_head b p.block_buffer;
          block_buffer_head = p.next_buffer_head;
          next_buffer_head = plan_next_block_index p.next_buffer_head;
        })
        (omega (
          arith,
          next_place p.block_buffer_tail p.block_buffer_head p.next_buffer_head ring.tail_lt
              ring.head_lt ring.next_head free,
        ))
        (
          push-Pointers p.block_buffer_tail p.block_buffer_head p.next_buffer_head
              p.block_buffer_planned free ring,
          subst
              (λ k.
                PlanOf float laws (with_block float laws p.block_buffer_head b p.block_buffer)
                  p.block_buffer_tail k (planned_place float laws p))
              (sym ring.next_head)
              (push-Plan float laws p.block_buffer p.block_buffer_tail p.block_buffer_head
                (planned_place float laws p) b ring.tail_lt ring.head_lt free ring.planned_place new
                plan),
        )

  -- A plan that can be driven and holds a block is planned again from its tail: the look-ahead
  -- ends, and the plan can be driven then too, when the floats keep to the laws of their
  -- order.
  pub plan_cycle_reinitialize-IsFeasible :
      (p : Planner V)
      → 0 < plan_get_block_buffer_count p
      → IsFeasible float laws p
      → Yields (IsFeasible float laws) (plan_cycle_reinitialize float p)
  unfolding plan_cycle_reinitialize plan_get_block_buffer_count IsFeasible IsPlannedTo SpeedsUp
  plan_cycle_reinitialize-IsFeasible p held (ring, plan) =
      planner_recalculate-IsFeasible float laws
        (record p { updates = p.updates + 1; block_buffer_planned = p.block_buffer_tail }) held
        (
          record {
            tail_lt = ring.tail_lt;
            head_lt = ring.head_lt;
            next_head = ring.next_head;
            planned_lt = ring.tail_lt;
            planned_place = omega (arith, place-tail p.block_buffer_tail);
          },
          record {
            forward = plan.forward;
            within = plan.within;
            stops = plan.stops;
            speeds_up = λ i hi hp. absurd (omega (arith, place-tail p.block_buffer_tail));
          },
        )
