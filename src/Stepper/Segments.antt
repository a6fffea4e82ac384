-- ===== src/Stepper/Segments.antt =====
-- What the step interrupt of stepper.c does over the ticks of one segment.
use mathlib.Core.Path.{subst}
use g_carvin.Base.{
  ℕ, zero, suc, ◌+◌, ◌%◌, ◌^◌, ◌<◌, ◌≡◌, Bool, true, false, ◌==◌, refl, ◌∙◌, sym, arith, if_true,
  if_false,
}
use g_carvin.Base.Ring.{next_index}
use g_carvin.System.{Machine}
use g_carvin.Stepper.{
  Axis, AxisLine, Stepper, StBlock, segment_buffer_size, is_homing, x_line, y_line, z_line,
  exec_block, output_axis, output_axes, step_axis, step_axes, count_step, step_isr,
}

unfoldable pub run_isr : ℕ → Machine → Stepper → Stepper
run_isr zero m st = st
run_isr (suc n) m st = run_isr n m (step_isr m st)

-- One tick of an axis as the interrupt makes it.
abbrev pub tick : Bool → AxisLine → Axis → Axis
tick h l a = step_axis h l (output_axis a)

unfoldable pub ticks : ℕ → Bool → AxisLine → Axis → Axis
ticks zero h l a = a
ticks (suc n) h l a = ticks n h l (tick h l a)

-- A segment of `n` ticks has been executed from `st` and discarded.
pub record SegmentDone (n : ℕ) (h : Bool) (b : StBlock) (st t : Stepper) : Type 0 where
  pub discarded : t.exec_segment ≡ false
  pub advanced : t.segment_buffer_tail ≡ next_index segment_buffer_size st.segment_buffer_tail
  pub ready : t.busy ≡ false
  pub x_ticks : t.x ≡ ticks n h (x_line b) st.x
  pub y_ticks : t.y ≡ ticks n h (y_line b) st.y
  pub z_ticks : t.z ≡ ticks n h (z_line b) st.z

step_isr-loaded :
    (m : Machine) (st : Stepper)
    → st.busy ≡ false
    → st.exec_segment ≡ true
    → step_isr m st ≡ count_step (step_axes (is_homing m.state) (output_axes st))
unfolding step_isr output_axes
step_isr-loaded m st free loaded = if_false _ _ free ∙ if_true _ _ loaded

abbrev counted : Stepper → Stepper
counted st = record st { step_count = (st.step_count + 65535) % 2 ^ 16; busy = false }

abbrev dropped : Stepper → Stepper
dropped st = record st {
  step_count = (st.step_count + 65535) % 2 ^ 16;
  exec_segment = false;
  segment_buffer_tail = next_index segment_buffer_size st.segment_buffer_tail;
  busy = false;
}

not_zero : (c n : ℕ) → c ≡ suc (suc n) → n < 65534 → ((c + 65535) % 2 ^ 16 == 0) ≡ false
not_zero c n e small = ground arith

count_step-last : (st : Stepper) → st.step_count ≡ 1 → count_step st ≡ dropped st
unfolding count_step
count_step-last st one = if_true (dropped st) (counted st) (rw one refl)

count_step-more :
    (st : Stepper) (n : ℕ) → st.step_count ≡ suc (suc n) → n < 65534 → count_step st ≡ counted st
unfolding count_step
count_step-more st n more small =
    if_false (dropped st) (counted st) (not_zero st.step_count n more small)

-- From a segment that is taken up and has some steps left, as many interrupts execute it: each
-- axis makes that many ticks, then the segment is discarded and the tail moves on. The interrupt
-- is not busy at the start.
pub segment_runs :
    (n : ℕ) (m : Machine) (st : Stepper)
    → st.busy ≡ false
    → st.exec_segment ≡ true
    → st.step_count ≡ suc n
    → n < 65535
    → SegmentDone (suc n) (is_homing m.state) (exec_block st) st (run_isr (suc n) m st)
unfolding run_isr ticks step_axes output_axes
segment_runs zero m st free loaded count small =
    let after = step_axes (is_homing m.state) (output_axes st) in
    let stepped = step_isr-loaded m st free loaded ∙ count_step-last after count in
    subst (SegmentDone 1 (is_homing m.state) (exec_block st) st) (sym stepped) (record {
      discarded = refl;
      advanced = refl;
      ready = refl;
      x_ticks = refl;
      y_ticks = refl;
      z_ticks = refl;
    })
segment_runs (suc n) m st free loaded count small =
    let h = is_homing m.state in
    let b = exec_block st in
    let after = step_axes h (output_axes st) in
    let stepped = step_isr-loaded m st free loaded ∙ count_step-more after n count (omega arith) in
    let rest = segment_runs n m (counted after) refl loaded (omega (arith, count)) (omega arith) in
    subst (λ s. SegmentDone (suc (suc n)) h b st (run_isr (suc n) m s)) (sym stepped)
      (record {
        discarded = rest.discarded;
        advanced = rest.advanced;
        ready = rest.ready;
        x_ticks = rest.x_ticks;
        y_ticks = rest.y_ticks;
        z_ticks = rest.z_ticks;
      })
