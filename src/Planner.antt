-- ===== src/Planner.antt =====
-- The ring of blocks of planner.c and the look-ahead over it. The entry speeds are floats: their type
-- and their operations are a parameter, with the laws that stand in Planner/Floats.
pub mod Floats
mod Places
mod Entries
mod Passes
mod Forward
mod Plans
mod Push
mod Discard
mod Operations
mod Counts
mod Exit
mod Tests
use g_carvin.Base.{
  ℕ, zero, suc, ◌+◌, ◌-◌, Bool, true, false, not, ◌&&◌, ◌||◌, Option, none, some, ltb, leb, ◌==◌,
  if◌then◌else◌,
}
use g_carvin.Base.Ring.{next_index}
use g_carvin.Planner.Floats.{Float}

-- BLOCK_BUFFER_SIZE, without line numbers
abbrev pub block_buffer_size : ℕ
block_buffer_size = 16

-- `plan_block_t`
pub record PlanBlock (V : Type 0) : Type 0 where
  pub steps_x : ℕ
  pub steps_y : ℕ
  pub steps_z : ℕ
  pub step_event_count : ℕ
  pub direction_bits : ℕ
  pub condition : ℕ
  pub entry_speed_sqr : V
  pub max_entry_speed_sqr : V
  pub acceleration : V
  pub millimeters : V
  pub max_junction_speed_sqr : V
  pub rapid_rate : V
  pub programmed_rate : V
  pub spindle_speed : V

-- The static variables of planner.c, and how often `st_update_plan_block_parameters` was called.
pub record Planner (V : Type 0) : Type 0 where
  pub block_buffer : ℕ → PlanBlock V
  pub block_buffer_tail : ℕ
  pub block_buffer_head : ℕ
  pub next_buffer_head : ℕ
  pub block_buffer_planned : ℕ
  pub updates : ℕ

unfoldable pub plan_next_block_index : ℕ → ℕ
plan_next_block_index i = next_index block_buffer_size i

unfoldable pub plan_prev_block_index : ℕ → ℕ
plan_prev_block_index i = if i == 0 then block_buffer_size - 1 else i - 1

module _ {V : Type 0} where
  -- `block_buffer[i].entry_speed_sqr = v`
  abbrev pub set_entry : ℕ → V → Planner V → Planner V
  set_entry i v p = record p {
    block_buffer = λ k. record (p.block_buffer k) {
      entry_speed_sqr = if k == i then v else (p.block_buffer k).entry_speed_sqr;
    };
  }

  -- The stepper is told when the tail is reached.
  abbrev pub note_tail : ℕ → Planner V → Planner V
  note_tail i p = record p {
    updates = if i == p.block_buffer_tail then p.updates + 1 else p.updates;
  }

  unfoldable pub plan_reset_buffer : Planner V → Planner V
  plan_reset_buffer p = record p {
    block_buffer_tail = 0;
    block_buffer_head = 0;
    next_buffer_head = 1;
    block_buffer_planned = 0;
  }

  unfoldable pub plan_discard_current_block : Planner V → Planner V
  plan_discard_current_block p =
      let block_index = plan_next_block_index p.block_buffer_tail in
      if not (p.block_buffer_head == p.block_buffer_tail)
      then record p {
        block_buffer_planned =
            if p.block_buffer_tail == p.block_buffer_planned
            then block_index
            else p.block_buffer_planned;
        block_buffer_tail = block_index;
      }
      else p

  unfoldable pub plan_get_current_block : Planner V → Option (PlanBlock V)
  plan_get_current_block p =
      if p.block_buffer_head == p.block_buffer_tail
      then none
      else some (p.block_buffer p.block_buffer_tail)

  unfoldable pub plan_check_full_buffer : Planner V → Bool
  plan_check_full_buffer p = p.block_buffer_tail == p.next_buffer_head

  unfoldable pub plan_get_block_buffer_available : Planner V → ℕ
  plan_get_block_buffer_available p =
      if leb p.block_buffer_tail p.block_buffer_head
      then block_buffer_size - 1 - (p.block_buffer_head - p.block_buffer_tail)
      else p.block_buffer_tail - p.block_buffer_head - 1

  unfoldable pub plan_get_block_buffer_count : Planner V → ℕ
  plan_get_block_buffer_count p =
      if leb p.block_buffer_tail p.block_buffer_head
      then p.block_buffer_head - p.block_buffer_tail
      else block_buffer_size - (p.block_buffer_tail - p.block_buffer_head)

module _ {V : Type 0} (float : Float V) where
  -- `2*block->acceleration*block->millimeters`
  abbrev pub slope : PlanBlock V → V
  slope b = float.twice_product b.acceleration b.millimeters

  -- The entry speed of the last block, which ends at rest.
  abbrev pub last_entry : PlanBlock V → V
  last_entry b =
      if float.less b.max_entry_speed_sqr (slope b) then b.max_entry_speed_sqr else slope b

  unfoldable pub plan_get_exec_block_exit_speed_sqr : Planner V → V
  plan_get_exec_block_exit_speed_sqr p =
      let block_index = plan_next_block_index p.block_buffer_tail in
      if block_index == p.block_buffer_head
      then float.at_rest
      else (p.block_buffer block_index).entry_speed_sqr

  -- What a round of the reverse pass leaves as the entry speed of a block.
  unfoldable pub reverse_entry : PlanBlock V → PlanBlock V → V
  reverse_entry following current =
      let entry_speed_sqr = float.add following.entry_speed_sqr (slope current) in
      if not (float.same current.entry_speed_sqr current.max_entry_speed_sqr)
      then (if float.less entry_speed_sqr current.max_entry_speed_sqr
          then entry_speed_sqr
          else current.max_entry_speed_sqr)
      else current.entry_speed_sqr

  -- The rounds of the reverse pass from block `i`, which `next` follows.
  unfoldable pub reverse_pass : ℕ → ℕ → ℕ → Planner V → Option (Planner V)
  reverse_pass zero following i p = none
  reverse_pass (suc left) following i p =
      let before = plan_prev_block_index i in
      let later = reverse_pass left i before (
        set_entry i (reverse_entry (p.block_buffer following) (p.block_buffer i))
          (note_tail before p)) in
      if i == p.block_buffer_planned then some p else later

  -- Whether the forward pass finds a block at full acceleration.
  unfoldable pub accelerates : PlanBlock V → PlanBlock V → Bool
  accelerates current following =
      float.less current.entry_speed_sqr following.entry_speed_sqr
      && float.less (float.add current.entry_speed_sqr (slope current)) following.entry_speed_sqr

  -- What a round of the forward pass leaves as the entry speed of the next block.
  unfoldable pub forward_entry : PlanBlock V → PlanBlock V → V
  forward_entry current following =
      if accelerates current following
      then float.add current.entry_speed_sqr (slope current)
      else following.entry_speed_sqr

  -- A round: `following` is the block at `i`.
  abbrev pub forward_step : ℕ → ℕ → Planner V → Planner V
  forward_step current i p =
      let entry = forward_entry (p.block_buffer current) (p.block_buffer i) in
      record (set_entry i entry p) {
        block_buffer_planned =
            if accelerates (p.block_buffer current) (p.block_buffer i)
              || float.same entry (p.block_buffer i).max_entry_speed_sqr
            then i
            else p.block_buffer_planned;
      }

  unfoldable pub forward_pass : ℕ → ℕ → ℕ → Planner V → Option (Planner V)
  forward_pass zero current i p = none
  forward_pass (suc left) current i p =
      let later = forward_pass left i (plan_next_block_index i) (forward_step current i p) in
      if i == p.block_buffer_head then some p else later

  abbrev forward_from_planned : Option (Planner V) → Option (Planner V)
  forward_from_planned none = none
  forward_from_planned (some p) =
      forward_pass block_buffer_size p.block_buffer_planned
        (plan_next_block_index p.block_buffer_planned) p

  -- The reverse pass, behind the last block.
  unfoldable pub reverse_from_last : ℕ → Planner V → Option (Planner V)
  reverse_from_last last p =
      let i = plan_prev_block_index last in
      let q = set_entry last (last_entry (p.block_buffer last)) p in
      if i == p.block_buffer_planned
      then some (note_tail i q)
      else reverse_pass block_buffer_size last i q

  unfoldable pub planner_recalculate : Planner V → Option (Planner V)
  planner_recalculate p =
      let last = plan_prev_block_index p.block_buffer_head in
      if last == p.block_buffer_planned
      then some p
      else forward_from_planned (reverse_from_last last p)

  -- The end of `plan_buffer_line`, for a block that is no system motion.
  unfoldable pub add_block : PlanBlock V → Planner V → Option (Planner V)
  add_block block p = planner_recalculate (record p {
    block_buffer = λ k. if k == p.block_buffer_head then block else p.block_buffer k;
    block_buffer_head = p.next_buffer_head;
    next_buffer_head = plan_next_block_index p.next_buffer_head;
  })

  unfoldable pub plan_cycle_reinitialize : Planner V → Option (Planner V)
  plan_cycle_reinitialize p =
      planner_recalculate
        (record p { updates = p.updates + 1; block_buffer_planned = p.block_buffer_tail })
