-- ===== src/Stepper/Bresenham.antt =====
-- The Bresenham counter of one axis over the ticks of a block, with the levels of step smoothing.
use g_carvin.Base.{
  ℕ, zero, suc, ◌+◌, ◌*◌, ◌/◌, ◌%◌, ◌^◌, ◌≤◌, ◌<◌, ◌≡◌, arith, List, [], ◌∷◌, refl, ap, ◌∙◌,
  if_cases, ltb, ltb→lt, Bool-cases, inl, inr, Bool, false,
}
use g_carvin.Stepper.{Axis, AxisLine, advance, load_axis, trace_axis}

-- A tick of one axis, from a segment of an amass level.
unfoldable pub tick_axis : AxisLine → ℕ → Axis → Axis
tick_axis l level a = trace_axis l (load_axis false level l a)

unfoldable pub run_axis : AxisLine → List ℕ → Axis → Axis
run_axis l [] a = a
run_axis l (level ∷ levels) a = run_axis l levels (tick_axis l level a)

-- Eighths of a step event that the ticks make up.
abbrev pub eighths : List ℕ → ℕ
eighths [] = 0
eighths (level ∷ levels) = 8 / 2 ^ level + eighths levels

-- The position after a number of steps.
unfoldable pub advance_by : Bool → ℕ → ℕ → ℕ
advance_by negative zero p = p
advance_by negative (suc k) p = advance_by negative k (advance negative p)

abbrev pub AreLevels : List ℕ → Type 0
AreLevels [] = Unit
AreLevels (level ∷ levels) = (level ≤ 3) × AreLevels levels

scaled : (s level : ℕ) → level ≤ 3 → 8 * s / 2 ^ level ≡ s * (8 / 2 ^ level)
scaled s zero h = omega arith
scaled s (suc zero) h = omega arith
scaled s (suc (suc zero)) h = omega arith
scaled s (suc (suc (suc zero))) h = omega arith
scaled s (suc (suc (suc (suc n)))) h = absurd (omega arith)

scaled_le : (s level : ℕ) → level ≤ 3 → s * (8 / 2 ^ level) ≤ 8 * s
scaled_le s zero h = omega arith
scaled_le s (suc zero) h = omega arith
scaled_le s (suc (suc zero)) h = omega arith
scaled_le s (suc (suc (suc zero))) h = omega arith
scaled_le s (suc (suc (suc (suc n)))) h = absurd (omega arith)

not_over : (a b : ℕ) → ltb a b ≡ false → b ≤ a
not_over a b h = ground arith

-- What a tick does to an axis: the counter moves on by the share of the axis, and an overflow of
-- the event count is one step.
pub record Ticked (n s w : ℕ) (negative : Bool) (a b : Axis) (k : ℕ) : Type 0 where
  pub balance : b.counter + 8 * (n * k) ≡ a.counter + s * w
  pub positive : 0 < b.counter
  pub bounded : b.counter ≤ 8 * n
  pub moved : b.position ≡ advance_by negative k a.position

-- The share that a tick adds, and that it is no more than the event count.
share_lem :
    (n s level : ℕ) (l : AxisLine)
    → l.steps ≡ 8 * s
    → level ≤ 3
    → s ≤ n
    → (l.steps / 2 ^ level ≡ s * (8 / 2 ^ level)) × (s * (8 / 2 ^ level) ≤ 8 * n)
share_lem n s level l hs lv le =
    (ap (λ t. t / 2 ^ level) hs ∙ scaled s level lv, omega (arith, scaled_le s level lv))

tick_axis_lem :
    (n s level : ℕ) (l : AxisLine) (a : Axis)
    → l.step_event_count ≡ 8 * n
    → l.steps ≡ 8 * s
    → s ≤ n
    → n < 268435456
    → level ≤ 3
    → 0 < a.counter
    → a.counter ≤ 8 * n
    → (k : ℕ) × Ticked n s (8 / 2 ^ level) l.negative a (tick_axis l level a) k
unfolding tick_axis trace_axis load_axis advance_by
tick_axis_lem n s level l a hn hs le small lv pos top =
    let w = 8 / 2 ^ level in
    let share = share_lem n s level l hs lv le in
    if_cases (λ b. (k : ℕ) × Ticked n s w l.negative a b k)
      (ltb l.step_event_count ((a.counter + l.steps / 2 ^ level) % 2 ^ 32))
      (λ over. (
        1,
        record {
          balance = omega (arith, share.0, share.1, ltb→lt _ _ over);
          positive = omega (arith, share.0, share.1, ltb→lt _ _ over);
          bounded = omega (arith, share.0, share.1, ltb→lt _ _ over);
          moved = refl;
        },
      ))
      (λ under. (
        0,
        record {
          balance = omega (arith, share.0, share.1, not_over _ _ under);
          positive = omega (arith, share.0, share.1, not_over _ _ under);
          bounded = omega (arith, share.0, share.1, not_over _ _ under);
          moved = refl;
        },
      ))

advance_by-add :
    (negative : Bool) (j k p : ℕ)
    → advance_by negative k (advance_by negative j p) ≡ advance_by negative (j + k) p
unfolding advance_by
advance_by-add negative zero k p =
    ap (λ m. advance_by negative m p) {x = k} {y = 0 + k} (omega arith)
advance_by-add negative (suc j) k p =
    advance_by-add negative j k (advance negative p)
    ∙ ap (λ m. advance_by negative m p) {x = suc (j + k)} {y = suc j + k} (omega arith)

Ticked-append :
    (n s v w j k : ℕ) (negative : Bool) (a b c : Axis)
    → Ticked n s v negative a b j
    → Ticked n s w negative b c k
    → Ticked n s (v + w) negative a c (j + k)
Ticked-append n s v w j k negative a b c p q = record {
  balance = grind (arith, p.balance, q.balance);
  positive = q.positive;
  bounded = q.bounded;
  moved = q.moved ∙ (ap (advance_by negative k) p.moved ∙ advance_by-add negative j k a.position);
}

run_axis_lem :
    (n s : ℕ) (l : AxisLine) (levels : List ℕ) (a : Axis)
    → l.step_event_count ≡ 8 * n
    → l.steps ≡ 8 * s
    → s ≤ n
    → n < 268435456
    → AreLevels levels
    → 0 < a.counter
    → a.counter ≤ 8 * n
    → (k : ℕ) × Ticked n s (eighths levels) l.negative a (run_axis l levels a) k
unfolding run_axis advance_by
run_axis_lem n s l [] a hn hs le small lv pos top =
    (0, record { balance = omega arith; positive = pos; bounded = top; moved = refl })
run_axis_lem n s l (level ∷ levels) a hn hs le small lv pos top =
    let first = tick_axis_lem n s level l a hn hs le small lv.0 pos top in
    let rest =
      run_axis_lem n s l levels (tick_axis l level a) hn hs le small lv.1 first.1.positive
        first.1.bounded in
    (
      first.0 + rest.0,
      Ticked-append n s _ _ first.0 rest.0 l.negative a (tick_axis l level a) _ first.1 rest.1,
    )

times_mono : (n j k : ℕ) → j ≤ k → n * j ≤ n * k
times_mono n j k h = grind arith

times_suc : (n k : ℕ) → n * (k + 1) ≡ n * k + n
times_suc n k = grind arith

-- One counter value and one number of steps balance the counter at the end of a block.
all_steps :
    (n s k c : ℕ)
    → c + 8 * (n * k) ≡ 4 * n + s * (8 * n)
    → 0 < c
    → c ≤ 8 * n
    → (k ≡ s) × (c ≡ 4 * n)
all_steps n s k c e pos top = elim (Bool-cases (ltb k s)) [
  | inl less ↦ absurd (
      omega
        (arith, scaled_up, times_mono n (k + 1) s (omega (arith, ltb→lt k s less)), times_suc n k))
  | inr not_less ↦ elim (Bool-cases (ltb s k)) [
    | inl more ↦ absurd (
        omega (
          arith,
          scaled_up,
          times_mono n (s + 1) k (omega (arith, ltb→lt s k more)),
          times_suc n s,
        ))
    | inr not_more ↦
        let same : k ≡ s = omega (arith, not_over k s not_less, not_over s k not_more) in
        (same, omega (arith, scaled_up, ap (λ t. n * t) same))
  ]
]
  where
    scaled_up : s * (8 * n) ≡ 8 * (n * s)
    scaled_up = grind arith

-- Over the ticks of a whole block, of any levels of step smoothing, an axis moves by exactly its
-- steps in its direction, and its counter is back at half the event count. The counter starts
-- there, the levels are at most 3, the axis has no more steps than the block has events, the ticks
-- make up the events of the block, and there are fewer than 2^28 of them.
pub block_moves_axis :
    (n s : ℕ) (l : AxisLine) (levels : List ℕ) (a : Axis)
    → l.step_event_count ≡ 8 * n
    → l.steps ≡ 8 * s
    → s ≤ n
    → 0 < n
    → n < 268435456
    → AreLevels levels
    → eighths levels ≡ 8 * n
    → a.counter ≡ 4 * n
    → ((run_axis l levels a).position ≡ advance_by l.negative s a.position)
      × ((run_axis l levels a).counter ≡ 4 * n)
block_moves_axis n s l levels a hn hs le more small lv whole half =
    let run = run_axis_lem n s l levels a hn hs le small lv (omega arith) (omega arith) in
    let t = run.1 in
    let done =
      all_steps n s run.0 _
        (t.balance ∙ (ap (λ c. c + s * eighths levels) half ∙ ap (λ e. 4 * n + s * e) whole))
        t.positive t.bounded in
    (t.moved ∙ ap (λ k. advance_by l.negative k a.position) done.0, done.1)
