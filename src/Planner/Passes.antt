-- ===== src/Planner/Passes.antt =====
-- The two passes of planner_recalculate in planner.c, over a ring of blocks that can be driven.
use mathlib.Core.Path.{subst}
use g_carvin.Base.{
  ℕ, zero, suc, ◌+◌, ◌-◌, ◌≤◌, ◌<◌, ◌≡◌, ◌≢◌, sym, ap, arith, true, false, not, Option, none, some,
  ◌==◌, if_false, if_ind, if_cases,
}
use g_carvin.Planner.{
  PlanBlock, Planner, plan_next_block_index, plan_prev_block_index, set_entry, note_tail, slope,
  reverse_entry, reverse_pass,
}
use g_carvin.Planner.Floats.{Float, AtMost, FloatLaws}
use g_carvin.Planner.Places.{
  place, place-lt, place-next, prev-lt, next-prev, place-prev, place_farther,
}
use g_carvin.Planner.Entries.{with_entry, reach, Stops, SpeedsUp, raise-Stops, other-SpeedsUp}

-- The pointers of the ring: the planned one is at a block that is held, or at the tail if none is.
pub record Pointers (tail head next planned : ℕ) : Type 0 where
  pub tail_lt : tail < 16
  pub head_lt : head < 16
  pub next_head : next ≡ plan_next_block_index head
  pub planned_lt : planned < 16
  pub planned_place : place tail planned ≤ place tail head - 1

-- The claim for what comes out, which there has to be.
abbrev pub Yields {ℓ} : {A : Type ℓ} → (A → Type 0) → Option A → Type 0
Yields P (some a) = P a
Yields P none = ⊥

pub equal : {a b : ℕ} → a ≡ b → (a == b) ≡ true
equal e = ground arith

pub not_equal : {a b : ℕ} → a ≢ b → (a == b) ≡ false
not_equal ne = ground arith

module _ {V : Type 0} (float : Float V) (laws : FloatLaws float) where
  abbrev pub entries : Planner V → ℕ → V
  entries p i = (p.block_buffer i).entry_speed_sqr

  abbrev pub limits : Planner V → ℕ → V
  limits p i = (p.block_buffer i).max_entry_speed_sqr

  abbrev pub slopes : Planner V → ℕ → V
  slopes p i = slope float (p.block_buffer i)

  -- No block that is held is entered above its limit.
  unfoldable pub Within : (e m : ℕ → V) (tail head : ℕ) → Type 0
  Within e m tail head =
      (i : ℕ) → i < 16 → place tail i < place tail head → AtMost float (e i) (m i)

  -- A plan that can slow down everywhere, stop at its end, and speed up as planned up to a place.
  pub record Plan (s e m : ℕ → V) (tail head limit : ℕ) : Type 0 where
    pub forward : (i : ℕ) → AtMost float float.at_rest (s i)
    pub within : Within e m tail head
    pub stops : Stops float laws s e tail head
    pub speeds_up : SpeedsUp float laws s e tail limit

  abbrev pub PlansTo : ℕ → Planner V → Type 0
  PlansTo limit p =
      Pointers p.block_buffer_tail p.block_buffer_head p.next_buffer_head p.block_buffer_planned
      × Plan (slopes p) (entries p) (limits p) p.block_buffer_tail p.block_buffer_head limit

  abbrev pub planned_place : Planner V → ℕ
  planned_place p = place p.block_buffer_tail p.block_buffer_planned

  -- What `planner_recalculate` starts from, and what it is for.
  unfoldable pub IsPlannedTo : Planner V → Type 0
  IsPlannedTo p = PlansTo (planned_place p) p

  unfoldable pub IsFeasible : Planner V → Type 0
  IsFeasible p = PlansTo (place p.block_buffer_tail p.block_buffer_head - 1) p

  pub with_entry-Within :
      (e m : ℕ → V) (tail head j : ℕ) (v : V)
      → AtMost float v (m j)
      → Within e m tail head
      → Within (with_entry float laws j v e) m tail head
  unfolding Within
  with_entry-Within e m tail head j v low h i hi hp =
      if_cases (λ a. AtMost float a (m i)) (i == j)
        (λ same. subst (λ q. AtMost float v (m q)) {x = j} {y = i} (ground arith) low)
        (λ other. h i hi hp)

  -- What a round of the reverse pass sets lies between the old entry speed and what can be stopped.
  reverse_entry-Between :
      (following current : PlanBlock V)
      → AtMost float current.entry_speed_sqr current.max_entry_speed_sqr
      → AtMost float current.entry_speed_sqr
          (float.add following.entry_speed_sqr (slope float current))
      → AtMost float current.entry_speed_sqr (reverse_entry float following current)
        × AtMost float
            (reverse_entry float following current)
            (float.add following.entry_speed_sqr (slope float current))
        × AtMost float (reverse_entry float following current) current.max_entry_speed_sqr
  unfolding reverse_entry
  reverse_entry-Between following current low stop =
      if_ind
        (λ v.
          AtMost float current.entry_speed_sqr v
          × AtMost float v (float.add following.entry_speed_sqr (slope float current))
          × AtMost float v current.max_entry_speed_sqr)
        (not (float.same current.entry_speed_sqr current.max_entry_speed_sqr))
        (if_cases
          (λ v.
            AtMost float current.entry_speed_sqr v
            × AtMost float v (float.add following.entry_speed_sqr (slope float current))
            × AtMost float v current.max_entry_speed_sqr)
          (float.less (float.add following.entry_speed_sqr (slope float current))
            current.max_entry_speed_sqr)
          (λ less. (stop, laws.refl_le _, laws.less_le _ _ less))
          (λ most. (low, most, laws.refl_le _)))
        (laws.refl_le _, stop, low)

  pub raise-Plan :
      (s e m : ℕ → V) (tail head limit j : ℕ) (v : V)
      → tail < 16
      → limit < 16
      → limit < place tail j
      → AtMost float (e j) v
      → AtMost float v (reach float laws s e head j)
      → AtMost float v (m j)
      → Plan s e m tail head limit
      → Plan s (with_entry float laws j v e) m tail head limit
  raise-Plan s e m tail head limit j v ht hl behind up stop low h = record {
    forward = h.forward;
    within = with_entry-Within e m tail head j v low h.within;
    stops = raise-Stops float laws s e tail head j v up stop h.stops;
    speeds_up = other-SpeedsUp float laws s e tail limit j v ht hl behind h.speeds_up;
  }

  -- A round of the reverse pass.
  abbrev reverse_step : ℕ → Planner V → Planner V
  reverse_step i p =
      set_entry i
        (reverse_entry float (p.block_buffer (plan_next_block_index i)) (p.block_buffer i))
        (note_tail (plan_prev_block_index i) p)

  reverse_step-IsPlannedTo :
      (i : ℕ) (p : Planner V)
      → i < 16
      → planned_place p < place p.block_buffer_tail i
      → place p.block_buffer_tail i + 1 < place p.block_buffer_tail p.block_buffer_head
      → IsPlannedTo p
      → IsPlannedTo (reverse_step i p)
  unfolding IsPlannedTo Within Stops
  reverse_step-IsPlannedTo i p hi far inner (ring, plan) =
      let next = place-next p.block_buffer_tail i ring.tail_lt hi (
        omega
          (arith, place-lt p.block_buffer_tail p.block_buffer_head ring.tail_lt ring.head_lt)) in
      let same : reach float laws (slopes p) (entries p) p.block_buffer_head i
          ≡ float.add (entries p (plan_next_block_index i)) (slopes p i) =
        if_false _ _ (
          not_equal {a = plan_next_block_index i} {b = p.block_buffer_head}
            (λ e. omega (arith, next, ap (place p.block_buffer_tail) e))) in
      let between =
        reverse_entry-Between (p.block_buffer (plan_next_block_index i)) (p.block_buffer i)
          (plan.within i hi (omega arith))
          (subst (AtMost float (entries p i)) same (plan.stops i hi (omega arith))) in
      (
        ring,
        raise-Plan (slopes p) (entries p) (limits p) p.block_buffer_tail p.block_buffer_head
            (planned_place p) i _ ring.tail_lt
            (place-lt p.block_buffer_tail p.block_buffer_planned ring.tail_lt ring.planned_lt) far
            between.0 (subst (AtMost float _) (sym same) between.1) between.2 plan,
      )

  tail_in : (p : Planner V) → IsPlannedTo p → p.block_buffer_tail < 16
  unfolding IsPlannedTo
  tail_in p (ring, plan) = ring.tail_lt

  farther :
      (i : ℕ) (p : Planner V)
      → i < 16
      → i ≢ p.block_buffer_planned
      → planned_place p ≤ place p.block_buffer_tail i
      → IsPlannedTo p
      → planned_place p < place p.block_buffer_tail i
  unfolding IsPlannedTo
  farther i p hi ne far (ring, plan) =
      place_farther p.block_buffer_tail i p.block_buffer_planned ring.tail_lt hi ring.planned_lt ne
        far

  -- Such a plan with a block in it.
  abbrev pub IsReady : Planner V → Type 0
  IsReady p = IsPlannedTo p × (0 < place p.block_buffer_tail p.block_buffer_head)

  -- The reverse pass ends, and leaves a plan that speeds up as far as before.
  pub reverse_pass-IsReady :
      (left i : ℕ) (p : Planner V)
      → i < 16
      → planned_place p ≤ place p.block_buffer_tail i
      → place p.block_buffer_tail i < left + planned_place p
      → place p.block_buffer_tail i + 1 < place p.block_buffer_tail p.block_buffer_head
      → IsPlannedTo p
      → Yields IsReady (reverse_pass float left (plan_next_block_index i) i p)
  unfolding reverse_pass
  reverse_pass-IsReady zero i p hi far near inner h = absurd (omega arith)
  reverse_pass-IsReady (suc left) i p hi far near inner h =
      if_cases (Yields IsReady) (i == p.block_buffer_planned) (λ same. (h, omega arith))
        (λ other.
          let apart = farther i p hi (ground arith) far h in
          let prev = place-prev p.block_buffer_tail i (tail_in p h) hi (omega arith) in
          subst
            (λ q.
              Yields IsReady
                (reverse_pass float left q (plan_prev_block_index i) (reverse_step i p)))
            (next-prev i hi)
            (reverse_pass-IsReady left (plan_prev_block_index i) (reverse_step i p) (prev-lt i hi)
              (omega (arith, prev)) (omega (arith, prev)) (omega (arith, prev))
              (reverse_step-IsPlannedTo i p hi apart inner h)))
