-- ===== src/Stepper.antt =====
-- stepper.c: the step interrupt, the segment ring that it empties and the Bresenham counters.
mod Bresenham
mod Segments
mod Moves
mod Tests
use g_carvin.Base.{
  ℕ, ◌+◌, ◌-◌, ◌/◌, ◌%◌, ◌^◌, Bool, true, false, not, ◌&&◌, ◌||◌, ltb, ◌==◌, if◌then◌else◌, List,
  get_or,
}
use g_carvin.Base.Ring.{next_index}
use g_carvin.System.{Machine, State, homing, log, st_go_idle}
use g_carvin.System.Flags.{no_exec, system_set_exec_state_flag}

-- SEGMENT_BUFFER_SIZE
abbrev pub segment_buffer_size : ℕ
segment_buffer_size = 6

-- What the steps, the direction bit and the event count of an `st_block_t` are for one axis.
pub record AxisLine : Type 0 where
  pub steps : ℕ
  pub step_event_count : ℕ
  pub negative : Bool

-- `st_block_t`: the direction bits as three Booleans, true for a move down.
pub record StBlock : Type 0 where
  pub x_steps : ℕ
  pub y_steps : ℕ
  pub z_steps : ℕ
  pub step_event_count : ℕ
  pub x_negative : Bool
  pub y_negative : Bool
  pub z_negative : Bool

pub record Segment : Type 0 where
  pub n_step : ℕ
  pub st_block_index : ℕ
  pub amass_level : ℕ

-- What `st`, `sys_position`, the invert masks, the homing lock and the ports hold for one axis.
-- `position` is the int32_t in two's complement.
pub record Axis : Type 0 where
  pub counter : ℕ
  pub steps : ℕ
  pub position : ℕ
  pub step_out : Bool
  pub dir_out : Bool
  pub step_pin : Bool
  pub dir_pin : Bool
  pub unlocked : Bool
  pub step_invert : Bool
  pub dir_invert : Bool

abbrev pub is_homing : State → Bool
is_homing homing = true
is_homing _ = false

abbrev pub flip : Bool → Bool → Bool
flip a b = if a then not b else b

-- `sys_position[idx]--` and `sys_position[idx]++`
unfoldable pub advance : Bool → ℕ → ℕ
advance negative p = if negative then (p + 4294967295) % 2 ^ 32 else (p + 1) % 2 ^ 32

-- The pins are set to what the interrupt before this one worked out.
unfoldable pub output_axis : Axis → Axis
output_axis a = record a { step_pin = a.step_out; dir_pin = a.dir_out }

-- The part of loading a segment that concerns one axis.
unfoldable pub load_axis : Bool → ℕ → AxisLine → Axis → Axis
load_axis new_block amass_level l a = record a {
  counter = if new_block then l.step_event_count / 2 else a.counter;
  dir_out = flip l.negative a.dir_invert;
  steps = l.steps / 2 ^ amass_level;
}

-- One round of the Bresenham line algorithm.
unfoldable pub trace_axis : AxisLine → Axis → Axis
trace_axis l a =
    let counter = (a.counter + a.steps) % 2 ^ 32 in
    if ltb l.step_event_count counter
    then record a {
      counter = counter - l.step_event_count;
      step_out = true;
      position = advance l.negative a.position;
    }
    else record a { counter = counter; step_out = false }

-- The homing lock and the invert mask.
unfoldable pub mask_axis : Bool → Axis → Axis
mask_axis is_homing a = record a {
  step_out = flip (if is_homing then a.step_out && a.unlocked else a.step_out) a.step_invert;
}

-- `st`, the two buffers and the segment ring. `exec_segment` says
-- whether the pointer is set: it points to the segment at the tail then. `exec_block` always
-- points to the block of `exec_block_index`.
pub record Stepper : Type 0 where
  pub busy : Bool
  pub segment_buffer : List Segment
  pub segment_buffer_head : ℕ
  pub segment_buffer_tail : ℕ
  pub st_block_buffer : List StBlock
  pub exec_segment : Bool
  pub exec_block_index : ℕ
  pub step_count : ℕ
  pub x : Axis
  pub y : Axis
  pub z : Axis

abbrev pub no_segment : Segment
no_segment = record { n_step = 0; st_block_index = 0; amass_level = 0 }

abbrev pub no_block : StBlock
no_block = record {
  x_steps = 0;
  y_steps = 0;
  z_steps = 0;
  step_event_count = 0;
  x_negative = false;
  y_negative = false;
  z_negative = false;
}

abbrev pub x_line : StBlock → AxisLine
x_line b = record {
  steps = b.x_steps;
  step_event_count = b.step_event_count;
  negative = b.x_negative;
}

abbrev pub y_line : StBlock → AxisLine
y_line b = record {
  steps = b.y_steps;
  step_event_count = b.step_event_count;
  negative = b.y_negative;
}

abbrev pub z_line : StBlock → AxisLine
z_line b = record {
  steps = b.z_steps;
  step_event_count = b.step_event_count;
  negative = b.z_negative;
}

-- The block that `exec_block` points to.
abbrev pub exec_block : Stepper → StBlock
exec_block st = get_or st.st_block_buffer st.exec_block_index no_block

unfoldable pub load_axes : Bool → ℕ → StBlock → Stepper → Stepper
load_axes new_block amass_level b st = record st {
  x = load_axis new_block amass_level (x_line b) st.x;
  y = load_axis new_block amass_level (y_line b) st.y;
  z = load_axis new_block amass_level (z_line b) st.z;
}

-- The segment at the tail is taken up.
unfoldable pub load_segment : Stepper → Stepper
load_segment st =
    let segment = get_or st.segment_buffer st.segment_buffer_tail no_segment in
    load_axes (not (st.exec_block_index == segment.st_block_index)) segment.amass_level
      (get_or st.st_block_buffer segment.st_block_index no_block)
      (record st {
        exec_segment = true;
        step_count = segment.n_step;
        exec_block_index = segment.st_block_index;
      })

unfoldable pub step_axis : Bool → AxisLine → Axis → Axis
step_axis is_homing l a = mask_axis is_homing (trace_axis l a)

-- One step event of the three axes.
unfoldable pub step_axes : Bool → Stepper → Stepper
step_axes is_homing st = record st {
  x = step_axis is_homing (x_line (exec_block st)) st.x;
  y = step_axis is_homing (y_line (exec_block st)) st.y;
  z = step_axis is_homing (z_line (exec_block st)) st.z;
}

-- The step is counted, and the segment discarded after its last one.
unfoldable pub count_step : Stepper → Stepper
count_step st =
    let left = (st.step_count + 65535) % 2 ^ 16 in
    if left == 0
    then record st {
      step_count = left;
      exec_segment = false;
      segment_buffer_tail = next_index segment_buffer_size st.segment_buffer_tail;
      busy = false;
    }
    else record st { step_count = left; busy = false }

unfoldable pub output_axes : Stepper → Stepper
output_axes st = record st {
  x = output_axis st.x;
  y = output_axis st.y;
  z = output_axis st.z;
  busy = true;
}

-- The interrupt on the output pins and the step data, and what it does to the machine.
unfoldable pub step_isr : Machine → Stepper → Stepper
step_isr m st =
    if st.busy
    then st
    else (let shown = output_axes st in
        if shown.exec_segment
        then count_step (step_axes (is_homing m.state) shown)
        else if shown.segment_buffer_head == shown.segment_buffer_tail
        then record shown { busy = false }
        else count_step (step_axes (is_homing m.state) (load_segment shown)))

unfoldable pub step_isr_machine : Machine → Stepper → Machine
step_isr_machine m st =
    if st.busy || st.exec_segment || not (st.segment_buffer_head == st.segment_buffer_tail)
    then m
    else system_set_exec_state_flag (record no_exec { cycle_stop = true }) (log st_go_idle m)
