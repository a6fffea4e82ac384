-- ===== src/Planner/Forward.antt =====
-- The forward pass of planner_recalculate in planner.c.
use g_carvin.Base.{
  ℕ, zero, suc, ◌+◌, ◌≤◌, ◌<◌, ◌≡◌, ap, arith, ◌||◌, ◌==◌, if◌then◌else◌, if_ind, if_cases,
  if_false, inl, inr, Bool-cases,
}
use mathlib.Core.Path.{subst}
use g_carvin.Planner.{
  PlanBlock, Planner, plan_next_block_index, slope, accelerates, forward_entry, forward_step,
  forward_pass,
}
use g_carvin.Planner.Floats.{Float, AtMost, FloatLaws}
use g_carvin.Planner.Places.{place, place-lt, place-next, next-lt, place_nearer}
use g_carvin.Planner.Entries.{reach, Stops, lower-Stops, next-SpeedsUp}
use g_carvin.Planner.Passes.{
  Pointers, Yields, Plan, PlansTo, Within, IsFeasible, not_equal, entries, limits, slopes,
  with_entry-Within,
}

module _ {V : Type 0} (float : Float V) (laws : FloatLaws float) where
  -- What a round of the forward pass leaves is no faster than before, is reached from the block
  -- before it, and leaves that block able to slow down to it.
  forward_entry-Between :
      (current following : PlanBlock V)
      → AtMost float float.at_rest (slope float current)
      → AtMost float current.entry_speed_sqr
          (float.add following.entry_speed_sqr (slope float current))
      → AtMost float (forward_entry float current following) following.entry_speed_sqr
        × AtMost float
            (forward_entry float current following)
            (float.add current.entry_speed_sqr (slope float current))
        × AtMost float current.entry_speed_sqr
            (float.add (forward_entry float current following) (slope float current))
  unfolding forward_entry accelerates
  forward_entry-Between current following pos stop =
      elim (Bool-cases (float.less current.entry_speed_sqr following.entry_speed_sqr)) [
        | inl rising ↦
            elim (Bool-cases (
              float.less (float.add current.entry_speed_sqr (slope float current))
                following.entry_speed_sqr)) [
                  | inl late ↦ rw rising (
                      rw late (
                        laws.less_le _ _ late,
                        laws.refl_le _,
                        laws.trans_le _ _ _ (laws.add_more _ _ pos) (laws.add_more _ _ pos),
                      ))
                  | inr reached ↦ rw rising (rw reached (laws.refl_le _, reached, stop))
                ]
        | inr level ↦
            rw level (laws.refl_le _, laws.trans_le _ _ _ level (laws.add_more _ _ pos), stop)
      ]

  lower-Plan :
      (s e m : ℕ → V) (tail head c : ℕ) (v : V)
      → tail < 16
      → head < 16
      → c < 16
      → place tail c + 1 < place tail head
      → AtMost float v (e (plan_next_block_index c))
      → AtMost float v (float.add (e c) (s c))
      → AtMost float (e c) (float.add v (s c))
      → Plan float laws s e m tail head (place tail c)
      → Plan float laws s
          (λ k. if k == plan_next_block_index c then v else e k)
          m
          tail
          head
          (place tail (plan_next_block_index c))
  unfolding Within
  lower-Plan s e m tail head c v ht hh hc inner down up stop h =
      let next = place-next tail c ht hc (omega (arith, place-lt tail head ht hh)) in
      record {
        forward = h.forward;
        within =
            with_entry-Within float laws e m tail head (plan_next_block_index c) v
              (laws.trans_le _ _ _ down
                (h.within (plan_next_block_index c) (next-lt c hc) (omega (arith, next))))
              h.within;
        stops =
            lower-Stops float laws s e tail head c v ht hc down stop
              (λ q. omega (arith, next, ap (place tail) q)) h.stops;
        speeds_up = rw next (
            next-SpeedsUp float laws s e tail c v ht hc (omega (arith, place-lt tail head ht hh)) up
              h.speeds_up);
      }

  forward_step-PlansTo :
      (c : ℕ) (p : Planner V)
      → c < 16
      → place p.block_buffer_tail c + 1 < place p.block_buffer_tail p.block_buffer_head
      → PlansTo float laws (place p.block_buffer_tail c) p
      → PlansTo float laws
          (place p.block_buffer_tail (plan_next_block_index c))
          (forward_step float c (plan_next_block_index c) p)
  unfolding Stops
  forward_step-PlansTo c p hc inner (ring, plan) =
      let last = place-lt p.block_buffer_tail p.block_buffer_head ring.tail_lt ring.head_lt in
      let next = place-next p.block_buffer_tail c ring.tail_lt hc (omega (arith, last)) in
      let same : reach float laws (slopes float laws p) (entries float laws p) p.block_buffer_head c
          ≡ float.add (entries float laws p (plan_next_block_index c)) (slopes float laws p c) =
        if_false _ _ (
          not_equal {a = plan_next_block_index c} {b = p.block_buffer_head}
            (λ e. omega (arith, next, ap (place p.block_buffer_tail) e))) in
      let between =
        forward_entry-Between (p.block_buffer c) (p.block_buffer (plan_next_block_index c))
          (plan.forward c)
          (subst (AtMost float (entries float laws p c)) same (plan.stops c hc (omega arith))) in
      (
        if_ind (Pointers p.block_buffer_tail p.block_buffer_head p.next_buffer_head)
            (accelerates float (p.block_buffer c) (p.block_buffer (plan_next_block_index c))
              || float.same
                  (forward_entry float (p.block_buffer c)
                    (p.block_buffer (plan_next_block_index c)))
                  (p.block_buffer (plan_next_block_index c)).max_entry_speed_sqr)
            (record {
              tail_lt = ring.tail_lt;
              head_lt = ring.head_lt;
              next_head = ring.next_head;
              planned_lt = next-lt c hc;
              planned_place = omega (arith, next);
            })
            ring,
        lower-Plan (slopes float laws p) (entries float laws p) (limits float laws p)
            p.block_buffer_tail p.block_buffer_head c _ ring.tail_lt ring.head_lt hc inner between.0
            between.1 between.2 plan,
      )

  -- The forward pass ends, and leaves a plan that speeds up to its last block.
  pub forward_pass-IsFeasible :
      (left c : ℕ) (p : Planner V)
      → c < 16
      → place p.block_buffer_tail c < place p.block_buffer_tail p.block_buffer_head
      → place p.block_buffer_tail p.block_buffer_head ≤ place p.block_buffer_tail c + left
      → PlansTo float laws (place p.block_buffer_tail c) p
      → Yields (IsFeasible float laws) (forward_pass float left c (plan_next_block_index c) p)
  unfolding forward_pass IsFeasible
  forward_pass-IsFeasible zero c p hc held near h = absurd (omega arith)
  forward_pass-IsFeasible (suc left) c p hc held near (ring, plan) =
      let last = place-lt p.block_buffer_tail p.block_buffer_head ring.tail_lt ring.head_lt in
      let next = place-next p.block_buffer_tail c ring.tail_lt hc (omega (arith, last)) in
      if_cases (Yields (IsFeasible float laws)) (plan_next_block_index c == p.block_buffer_head)
        (λ same.
          let at_head : plan_next_block_index c ≡ p.block_buffer_head = ground arith in
          subst (λ k. PlansTo float laws k p)
            (omega (arith, next, ap (place p.block_buffer_tail) at_head)) (ring, plan))
        (λ other.
          let inner =
            place_nearer p.block_buffer_tail (plan_next_block_index c) p.block_buffer_head
              ring.tail_lt (next-lt c hc) ring.head_lt (ground arith) (omega (arith, next)) in
          forward_pass-IsFeasible left (plan_next_block_index c)
            (forward_step float c (plan_next_block_index c) p) (next-lt c hc) inner
            (omega (arith, next))
            (forward_step-PlansTo c p hc (omega (arith, next, inner)) (ring, plan)))
