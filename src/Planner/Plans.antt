-- ===== src/Planner/Plans.antt =====
-- planner_recalculate of planner.c and the operations on the ring of blocks: the plan can always be
-- driven.
use mathlib.Core.Path.{subst}
use g_carvin.Base.{
  ℕ, ◌+◌, ◌<◌, ◌≡◌, ◌≢◌, sym, ap, arith, Option, none, some, ◌==◌, if_cases, if_true,
}
use g_carvin.Planner.{
  PlanBlock, Planner, plan_next_block_index, plan_prev_block_index, set_entry, slope, last_entry,
  reverse_pass, reverse_from_last, forward_from_planned, planner_recalculate,
}
use g_carvin.Planner.Floats.{Float, AtMost, FloatLaws}
use g_carvin.Planner.Places.{place, place-lt, prev-lt, next-prev, place-prev, place_farther}
use g_carvin.Planner.Entries.{reach, Stops}
use g_carvin.Planner.Passes.{
  Yields, PlansTo, Within, planned_place, IsPlannedTo, IsFeasible, equal, entries, limits, slopes,
  raise-Plan, IsReady, reverse_pass-IsReady,
}
use g_carvin.Planner.Forward.{forward_pass-IsFeasible}

module _ {V : Type 0} (float : Float V) (laws : FloatLaws float) where
  last_entry-Between :
      (b : PlanBlock V)
      → AtMost float b.entry_speed_sqr b.max_entry_speed_sqr
      → AtMost float b.entry_speed_sqr (slope float b)
      → AtMost float b.entry_speed_sqr (last_entry float b)
        × AtMost float (last_entry float b) (slope float b)
        × AtMost float (last_entry float b) b.max_entry_speed_sqr
  last_entry-Between b low stop =
      if_cases
        (λ v.
          AtMost float b.entry_speed_sqr v
          × AtMost float v (slope float b)
          × AtMost float v b.max_entry_speed_sqr)
        (float.less b.max_entry_speed_sqr (slope float b))
        (λ less. (low, laws.less_le _ _ less, laws.refl_le _))
        (λ most. (stop, laws.refl_le _, most))

  -- The last block that is held.
  abbrev last : Planner V → ℕ
  last p = plan_prev_block_index p.block_buffer_head

  record LastPlace (p : Planner V) : Type 0 where
    in_ring : last p < 16
    follows : plan_next_block_index (last p) ≡ p.block_buffer_head
    at_end : place p.block_buffer_tail (last p) + 1 ≡ place p.block_buffer_tail p.block_buffer_head

  last_place :
      (p : Planner V)
      → IsPlannedTo float laws p
      → 0 < place p.block_buffer_tail p.block_buffer_head
      → LastPlace p
  unfolding IsPlannedTo
  last_place p (ring, plan) held = record {
    in_ring = prev-lt p.block_buffer_head ring.head_lt;
    follows = next-prev p.block_buffer_head ring.head_lt;
    at_end = place-prev p.block_buffer_tail p.block_buffer_head ring.tail_lt ring.head_lt held;
  }

  set_last-IsPlannedTo :
      (p : Planner V)
      → LastPlace p
      → planned_place float laws p < place p.block_buffer_tail (last p)
      → IsPlannedTo float laws p
      → IsPlannedTo float laws (set_entry (last p) (last_entry float (p.block_buffer (last p))) p)
  unfolding IsPlannedTo Within Stops
  set_last-IsPlannedTo p end far (ring, plan) =
      let same : reach float laws (slopes float laws p) (entries float laws p) p.block_buffer_head
            (last p)
          ≡ slopes float laws p (last p) =
        if_true _ _
          (equal {a = plan_next_block_index (last p)} {b = p.block_buffer_head} end.follows) in
      let between =
        last_entry-Between (p.block_buffer (last p))
          (plan.within (last p) end.in_ring (omega (arith, end.at_end)))
          (subst (AtMost float (entries float laws p (last p))) same
            (plan.stops (last p) end.in_ring (omega (arith, end.at_end)))) in
      (
        ring,
        raise-Plan float laws (slopes float laws p) (entries float laws p) (limits float laws p)
            p.block_buffer_tail p.block_buffer_head (planned_place float laws p) (last p) _
            ring.tail_lt
            (place-lt p.block_buffer_tail p.block_buffer_planned ring.tail_lt ring.planned_lt) far
            between.0 (subst (AtMost float _) (sym same) between.1) between.2 plan,
      )

  reverse_from_last-IsReady :
      (p : Planner V)
      → LastPlace p
      → planned_place float laws p < place p.block_buffer_tail (last p)
      → IsPlannedTo float laws p
      → Yields (IsReady float laws) (reverse_from_last float (last p) p)
  unfolding reverse_from_last IsPlannedTo
  reverse_from_last-IsReady p end far (ring, plan) =
      let q = set_entry (last p) (last_entry float (p.block_buffer (last p))) p in
      let ready = set_last-IsPlannedTo p end far (ring, plan) in
      let before = place-prev p.block_buffer_tail (last p) ring.tail_lt end.in_ring (omega arith) in
      if_cases (Yields (IsReady float laws))
        (plan_prev_block_index (last p) == p.block_buffer_planned)
        (λ same. (ready, omega (arith, end.at_end)))
        (λ other.
          subst
            (λ k.
              Yields (IsReady float laws)
                (reverse_pass float 16 k (plan_prev_block_index (last p)) q))
            (next-prev (last p) end.in_ring)
            (reverse_pass-IsReady float laws 16 (plan_prev_block_index (last p)) q
              (prev-lt (last p) end.in_ring) (omega (arith, before))
              (omega
                (arith, before, place-lt p.block_buffer_tail (last p) ring.tail_lt end.in_ring))
              (omega (arith, before, end.at_end)) ready))

  forward_from_planned-IsFeasible :
      (r : Option (Planner V))
      → Yields (IsReady float laws) r
      → Yields (IsFeasible float laws) (forward_from_planned float r)
  unfolding IsPlannedTo
  forward_from_planned-IsFeasible none h = h
  forward_from_planned-IsFeasible (some p) ((ring, plan), held) =
      forward_pass-IsFeasible float laws 16 p.block_buffer_planned p ring.planned_lt
        (omega (arith, ring.planned_place))
        (omega (arith, place-lt p.block_buffer_tail p.block_buffer_head ring.tail_lt ring.head_lt))
        (ring, plan)

  all_planned :
      (p : Planner V)
      → LastPlace p
      → last p ≡ p.block_buffer_planned
      → IsPlannedTo float laws p
      → IsFeasible float laws p
  unfolding IsPlannedTo IsFeasible
  all_planned p end e h =
      subst (λ k. PlansTo float laws k p)
        (omega (arith, end.at_end, ap (place p.block_buffer_tail) e)) h

  last_behind :
      (p : Planner V)
      → LastPlace p
      → last p ≢ p.block_buffer_planned
      → IsPlannedTo float laws p
      → planned_place float laws p < place p.block_buffer_tail (last p)
  unfolding IsPlannedTo
  last_behind p end ne (ring, plan) =
      place_farther p.block_buffer_tail (last p) p.block_buffer_planned ring.tail_lt end.in_ring
        ring.planned_lt ne (omega (arith, end.at_end, ring.planned_place))

  -- A plan with a new block at its end, that is entered at rest, becomes one that can be driven.
  pub planner_recalculate-IsFeasible :
      (p : Planner V)
      → 0 < place p.block_buffer_tail p.block_buffer_head
      → IsPlannedTo float laws p
      → Yields (IsFeasible float laws) (planner_recalculate float p)
  unfolding planner_recalculate
  planner_recalculate-IsFeasible p held h =
      let end = last_place p h held in
      if_cases (Yields (IsFeasible float laws)) (last p == p.block_buffer_planned)
        (λ same. all_planned p end (ground arith) h)
        (λ other.
          forward_from_planned-IsFeasible (reverse_from_last float (last p) p)
            (reverse_from_last-IsReady p end (last_behind p end (ground arith) h) h))
