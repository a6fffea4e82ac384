-- ===== src/Planner/Tests.antt =====
-- The planner theorems at whole numbers, and a plan of four blocks.
use g_carvin.Base.{
  ℕ, ◌+◌, ◌*◌, ◌<◌, ◌≡◌, refl, arith, false, Option, none, some, List, [], ◌∷◌, ltb, ◌==◌,
}
use g_carvin.Planner.{
  PlanBlock, Planner, plan_next_block_index, plan_prev_block_index, reverse_entry, reverse_pass,
  accelerates, forward_entry, forward_pass, slope, plan_get_exec_block_exit_speed_sqr,
  reverse_from_last, planner_recalculate, add_block, plan_cycle_reinitialize,
  plan_check_full_buffer, plan_get_block_buffer_count,
}
use g_carvin.Planner.Floats.{Float, AtMost, FloatLaws}
use g_carvin.Planner.Entries.{Stops, SpeedsUp}
use g_carvin.Planner.Passes.{Pointers, Yields, Within, IsFeasible}
use g_carvin.Planner.Operations.{add_block-IsFeasible, plan_cycle_reinitialize-IsFeasible}
use g_carvin.Planner.Push.{IsNew}
use g_carvin.Planner.Exit.{plan_get_exec_block_exit_speed_sqr_lem}

abbrev whole_float : Float ℕ
whole_float = record {
  at_rest = 0;
  less = ltb;
  same = λ a b. a == b;
  add = λ a b. a + b;
  twice_product = λ a b. 2 * a * b;
}

whole_laws : FloatLaws whole_float
whole_laws = record {
  refl_le = λ a. ground arith;
  trans_le = λ a b c h k. ground arith;
  less_le = λ a b h. ground arith;
  add_mono = λ a b d h. ground arith;
  add_more = λ a d h. ground arith;
  add_rest = λ d. ground arith;
}

abbrev a_block : PlanBlock ℕ
a_block = record {
  steps_x = 100;
  steps_y = 0;
  steps_z = 0;
  step_event_count = 100;
  direction_bits = 0;
  condition = 0;
  entry_speed_sqr = 0;
  max_entry_speed_sqr = 900;
  acceleration = 10;
  millimeters = 10;
  max_junction_speed_sqr = 900;
  rapid_rate = 50;
  programmed_rate = 50;
  spindle_speed = 0;
}

-- Three blocks at rest.
abbrev three : Planner ℕ
three = record {
  block_buffer = λ i. a_block;
  block_buffer_tail = 0;
  block_buffer_head = 3;
  next_buffer_head = 4;
  block_buffer_planned = 0;
  updates = 0;
}

three-Pointers : Pointers 0 3 4 0
unfolding plan_next_block_index
three-Pointers = record {
  tail_lt = omega arith;
  head_lt = omega arith;
  next_head = refl;
  planned_lt = omega arith;
  planned_place = omega arith;
}

at_least_rest : (a : ℕ) → AtMost whole_float 0 a
at_least_rest a = ground arith

three-IsFeasible : IsFeasible whole_float whole_laws three
unfolding IsFeasible Within Stops SpeedsUp
three-IsFeasible = (
  three-Pointers,
  record {
    forward = λ i. refl;
    within = λ i hi hp. refl;
    stops = λ i hi hp. at_least_rest _;
    speeds_up = λ i hi hp. refl;
  },
)

new_block : IsNew whole_float whole_laws a_block
new_block = record { entry = refl; limit = refl; forward = refl }

has_room : plan_check_full_buffer three ≡ false
unfolding plan_check_full_buffer
has_room = refl

abbrev entries_of : Option (Planner ℕ) → List ℕ
entries_of none = []
entries_of (some p) =
    (p.block_buffer 0).entry_speed_sqr
    ∷ (p.block_buffer 1).entry_speed_sqr
    ∷ (p.block_buffer 2).entry_speed_sqr
    ∷ (p.block_buffer 3).entry_speed_sqr
    ∷ []

-- Speeding up from rest meets slowing down to rest in the middle.
four_planned : entries_of (add_block whole_float a_block three) ≡ 0 ∷ 200 ∷ 400 ∷ 200 ∷ []
unfolding add_block planner_recalculate reverse_from_last reverse_pass reverse_entry forward_pass
    forward_entry accelerates plan_next_block_index plan_prev_block_index
four_planned = refl

add_block-IsFeasible_example :
    Yields (IsFeasible whole_float whole_laws) (add_block whole_float a_block three)
add_block-IsFeasible_example =
    add_block-IsFeasible whole_float whole_laws a_block three new_block has_room three-IsFeasible

some_held : 0 < plan_get_block_buffer_count three
unfolding plan_get_block_buffer_count
some_held = omega arith

plan_cycle_reinitialize-IsFeasible_example :
    Yields (IsFeasible whole_float whole_laws) (plan_cycle_reinitialize whole_float three)
plan_cycle_reinitialize-IsFeasible_example =
    plan_cycle_reinitialize-IsFeasible whole_float whole_laws three some_held three-IsFeasible

plan_get_exec_block_exit_speed_sqr_example :
    let exit = plan_get_exec_block_exit_speed_sqr whole_float three in
    let next = plan_next_block_index three.block_buffer_tail in
    (plan_get_block_buffer_count three ≡ 1 → exit ≡ 0)
    × (1 < plan_get_block_buffer_count three → exit ≡ (three.block_buffer next).entry_speed_sqr)
    × AtMost whole_float
        (three.block_buffer three.block_buffer_tail).entry_speed_sqr
        (exit + slope whole_float (three.block_buffer three.block_buffer_tail))
plan_get_exec_block_exit_speed_sqr_example =
    plan_get_exec_block_exit_speed_sqr_lem whole_float whole_laws three some_held three-IsFeasible
