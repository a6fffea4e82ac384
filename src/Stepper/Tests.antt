-- ===== src/Stepper/Tests.antt =====
-- A block of three events, of which the axis steps twice, in ticks of several levels.
use g_carvin.Base.{◌≡◌, ◌*◌, refl, arith, ◌∷◌, [], true, false, replicate}
use g_carvin.Examples.{idle_machine}
use g_carvin.Stepper.Moves.{SameLine, IsLoaded, segment_moves_axes}
use g_carvin.Stepper.Segments.{SegmentDone, run_isr, segment_runs}
use g_carvin.Stepper.{
  y_line, z_line, StBlock, Stepper, no_block, no_segment, Axis, AxisLine, advance, trace_axis,
  load_axis,
}
use g_carvin.Stepper.Bresenham.{run_axis, advance_by, block_moves_axis, tick_axis}

abbrev down : AxisLine
down = record { steps = 16; step_event_count = 24; negative = true }

abbrev axis_at_five : Axis
axis_at_five = record {
  counter = 12;
  steps = 0;
  position = 5;
  step_out = false;
  dir_out = false;
  step_pin = false;
  dir_pin = false;
  unlocked = true;
  step_invert = false;
  dir_invert = false;
}

steps_down : (run_axis down (0 ∷ 1 ∷ 1 ∷ 2 ∷ 2 ∷ 3 ∷ 3 ∷ 3 ∷ 3 ∷ []) axis_at_five).position ≡ 3
unfolding run_axis tick_axis trace_axis load_axis advance
steps_down = refl

block_moves_axis_example :
    ((run_axis down (0 ∷ 1 ∷ 1 ∷ 0 ∷ []) axis_at_five).position ≡ advance_by true 2 5)
    × ((run_axis down (0 ∷ 1 ∷ 1 ∷ 0 ∷ []) axis_at_five).counter ≡ 4 * 3)
block_moves_axis_example =
    block_moves_axis 3 2 down (0 ∷ 1 ∷ 1 ∷ 0 ∷ []) axis_at_five refl refl (omega arith)
      (omega arith) (omega arith) (omega arith, (omega arith, (omega arith, (omega arith, tt))))
      refl refl

abbrev line_down : StBlock
line_down = record no_block { x_steps = 16; step_event_count = 24; x_negative = true }

-- Three ticks of the segment at the last slot are left.
abbrev in_segment : Stepper
in_segment = record {
  busy = false;
  segment_buffer = replicate 6 (record no_segment { n_step = 4; amass_level = 1 });
  segment_buffer_head = 2;
  segment_buffer_tail = 5;
  st_block_buffer = line_down ∷ [];
  exec_segment = true;
  exec_block_index = 0;
  step_count = 3;
  x = record axis_at_five { steps = 8 };
  y = axis_at_five;
  z = axis_at_five;
}

segment_runs_example : SegmentDone 3 false line_down in_segment (run_isr 3 idle_machine in_segment)
segment_runs_example = segment_runs 2 idle_machine in_segment refl refl refl (omega arith)

abbrev level_one : Stepper
level_one = record in_segment { y = record axis_at_five { counter = 1 } }

segment_moves_axes_example :
    SameLine (run_isr 3 idle_machine level_one).x (run_axis down (1 ∷ 1 ∷ 1 ∷ []) level_one.x)
    × SameLine
        (run_isr 3 idle_machine level_one).y
        (run_axis (y_line line_down) (1 ∷ 1 ∷ 1 ∷ []) level_one.y)
    × SameLine
        (run_isr 3 idle_machine level_one).z
        (run_axis (z_line line_down) (1 ∷ 1 ∷ 1 ∷ []) level_one.z)
unfolding IsLoaded
segment_moves_axes_example =
    segment_moves_axes 2 1 idle_machine level_one refl refl refl (omega arith) refl refl refl
