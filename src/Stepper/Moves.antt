-- ===== src/Stepper/Moves.antt =====
-- From the ticks of a segment to the movement of the axes: the step interrupt of stepper.c makes
-- the moves of the Bresenham counters.
use mathlib.Core.Path.{ap₂, subst}
use g_carvin.Base.{
  ℕ, zero, suc, ◌+◌, ◌-◌, ◌/◌, ◌%◌, ◌^◌, ◌<◌, ◌≡◌, Bool, true, false, refl, ap, ap_if, if_ind, ◌∙◌,
  sym, ltb, replicate, if◌then◌else◌,
}
use g_carvin.System.{Machine}
use g_carvin.Stepper.{
  Axis, AxisLine, Stepper, advance, output_axis, load_axis, trace_axis, mask_axis, step_axis,
  is_homing, x_line, y_line, z_line, exec_block,
}
use g_carvin.Stepper.Bresenham.{tick_axis, run_axis}
use g_carvin.Stepper.Segments.{run_isr, tick, ticks, segment_runs}

-- The two axes stand at the same place, with the same counter and step size.
pub record SameLine (a b : Axis) : Type 0 where
  pub counter : a.counter ≡ b.counter
  pub position : a.position ≡ b.position
  pub steps : a.steps ≡ b.steps

traced_counter : AxisLine → ℕ → ℕ → ℕ
traced_counter l c d =
    if ltb l.step_event_count ((c + d) % 2 ^ 32)
    then (c + d) % 2 ^ 32 - l.step_event_count
    else (c + d) % 2 ^ 32

traced_position : AxisLine → ℕ → ℕ → ℕ → ℕ
traced_position l c d p =
    if ltb l.step_event_count ((c + d) % 2 ^ 32) then advance l.negative p else p

trace_axis-counter :
    (l : AxisLine) (a : Axis) → (trace_axis l a).counter ≡ traced_counter l a.counter a.steps
unfolding trace_axis traced_counter
trace_axis-counter l a =
    ap_if (λ (b : Axis). b.counter) (ltb l.step_event_count ((a.counter + a.steps) % 2 ^ 32)) _ _

trace_axis-position :
    (l : AxisLine) (a : Axis)
    → (trace_axis l a).position ≡ traced_position l a.counter a.steps a.position
unfolding trace_axis traced_position
trace_axis-position l a =
    ap_if (λ (b : Axis). b.position) (ltb l.step_event_count ((a.counter + a.steps) % 2 ^ 32)) _ _

trace_axis-steps : (l : AxisLine) (a : Axis) → (trace_axis l a).steps ≡ a.steps
unfolding trace_axis
trace_axis-steps l a =
    if_ind (λ (b : Axis). b.steps ≡ a.steps)
      (ltb l.step_event_count ((a.counter + a.steps) % 2 ^ 32)) refl refl

trace_axis-SameLine :
    (l : AxisLine) (a b : Axis) → SameLine a b → SameLine (trace_axis l a) (trace_axis l b)
trace_axis-SameLine l a b s = record {
  counter =
      trace_axis-counter l a
      ∙ (ap₂ (traced_counter l) s.counter s.steps ∙ sym (trace_axis-counter l b));
  position =
      trace_axis-position l a
      ∙ (ap₂ (λ c d. traced_position l c d a.position) s.counter s.steps
          ∙ (ap (traced_position l b.counter b.steps) s.position ∙ sym (trace_axis-position l b)));
  steps = trace_axis-steps l a ∙ (s.steps ∙ sym (trace_axis-steps l b));
}

-- The masks and the pins play no part in the movement.
tick-SameLine :
    (h : Bool) (l : AxisLine) (level : ℕ) (a b : Axis)
    → SameLine a b
    → b.steps ≡ l.steps / 2 ^ level
    → SameLine (tick h l a) (tick_axis l level b)
unfolding step_axis mask_axis output_axis tick_axis load_axis
tick-SameLine h l level a b s loaded =
    let t =
      trace_axis-SameLine l (output_axis a) (load_axis false level l b)
        (record { counter = s.counter; position = s.position; steps = s.steps ∙ loaded }) in
    record { counter = t.counter; position = t.position; steps = t.steps }

tick_axis-steps :
    (l : AxisLine) (level : ℕ) (b : Axis) → (tick_axis l level b).steps ≡ l.steps / 2 ^ level
unfolding tick_axis load_axis
tick_axis-steps l level b = trace_axis-steps l (load_axis false level l b)

ticks-SameLine :
    (n : ℕ) (h : Bool) (l : AxisLine) (level : ℕ) (a b : Axis)
    → SameLine a b
    → b.steps ≡ l.steps / 2 ^ level
    → SameLine (ticks n h l a) (run_axis l (replicate n level) b)
unfolding ticks run_axis
ticks-SameLine zero h l level a b s loaded = s
ticks-SameLine (suc n) h l level a b s loaded =
    ticks-SameLine n h l level (tick h l a) (tick_axis l level b)
      (tick-SameLine h l level a b s loaded) (tick_axis-steps l level b)

-- The step size of an axis is the one of a segment of an amass level.
unfoldable pub IsLoaded : AxisLine → ℕ → Axis → Type 0
IsLoaded l level a = a.steps ≡ l.steps / 2 ^ level

axis_moves :
    (n : ℕ) (h : Bool) (l : AxisLine) (level : ℕ) (a t : Axis)
    → IsLoaded l level a
    → t ≡ ticks n h l a
    → SameLine t (run_axis l (replicate n level) a)
unfolding IsLoaded
axis_moves n h l level a t loaded e =
    subst (λ b. SameLine b (run_axis l (replicate n level) a)) (sym e)
      (ticks-SameLine n h l level a a (record { counter = refl; position = refl; steps = refl })
        loaded)

-- The interrupts that execute the rest of a segment, of any amass level, leave each of the three
-- axes where its Bresenham counter has it after as many ticks of that level, whatever the masks
-- and a homing cycle do to the pins. The interrupt is not busy at the start, the segment is taken
-- up with its step sizes, and some steps are left.
pub segment_moves_axes :
    (n level : ℕ) (m : Machine) (st : Stepper)
    → st.busy ≡ false
    → st.exec_segment ≡ true
    → st.step_count ≡ suc n
    → n < 65535
    → IsLoaded (x_line (exec_block st)) level st.x
    → IsLoaded (y_line (exec_block st)) level st.y
    → IsLoaded (z_line (exec_block st)) level st.z
    → SameLine
        (run_isr (suc n) m st).x
        (run_axis (x_line (exec_block st)) (replicate (suc n) level) st.x)
      × SameLine
          (run_isr (suc n) m st).y
          (run_axis (y_line (exec_block st)) (replicate (suc n) level) st.y)
      × SameLine
          (run_isr (suc n) m st).z
          (run_axis (z_line (exec_block st)) (replicate (suc n) level) st.z)
segment_moves_axes n level m st free taken count small lx ly lz =
    let done = segment_runs n m st free taken count small in
    let h = is_homing m.state in
    (
      axis_moves (suc n) h (x_line (exec_block st)) level st.x _ lx done.x_ticks,
      axis_moves (suc n) h (y_line (exec_block st)) level st.y _ ly done.y_ticks,
      axis_moves (suc n) h (z_line (exec_block st)) level st.z _ lz done.z_ticks,
    )
