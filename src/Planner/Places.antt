-- ===== src/Planner/Places.antt =====
-- Where a slot of the block ring of planner.c lies, counted from the tail.
use g_carvin.Base.{ℕ, ◌+◌, ◌≤◌, ◌<◌, ◌≡◌, ◌≢◌, arith}
use g_carvin.Base.Ring.{occupied}
use g_carvin.Planner.{plan_next_block_index, plan_prev_block_index}

abbrev pub place : ℕ → ℕ → ℕ
place tail i = occupied 16 i tail

pub place-lt : (tail i : ℕ) → tail < 16 → i < 16 → place tail i < 16
place-lt tail i ht hi = ground arith

pub place-tail : (tail : ℕ) → place tail tail ≡ 0
place-tail tail = ground arith

pub place_injective :
    (tail i k : ℕ) → tail < 16 → i < 16 → k < 16 → place tail i ≡ place tail k → i ≡ k
place_injective tail i k ht hi hk e = ground arith

pub next-lt : (i : ℕ) → i < 16 → plan_next_block_index i < 16
unfolding plan_next_block_index
next-lt i h = ground arith

pub place-next :
    (tail i : ℕ)
    → tail < 16
    → i < 16
    → place tail i + 1 < 16
    → place tail (plan_next_block_index i) ≡ place tail i + 1
unfolding plan_next_block_index
place-next tail i ht hi h = ground arith

pub prev-lt : (i : ℕ) → i < 16 → plan_prev_block_index i < 16
unfolding plan_prev_block_index
prev-lt i h = ground arith

pub next-prev : (i : ℕ) → i < 16 → plan_next_block_index (plan_prev_block_index i) ≡ i
unfolding plan_next_block_index plan_prev_block_index
next-prev i h = ground arith

pub place-prev :
    (tail i : ℕ)
    → tail < 16
    → i < 16
    → 0 < place tail i
    → place tail (plan_prev_block_index i) + 1 ≡ place tail i
unfolding plan_prev_block_index
place-prev tail i ht hi h = ground arith

-- Once the tail has moved on, all lies one place nearer.
pub place_later :
    (tail i : ℕ)
    → tail < 16
    → i < 16
    → i ≢ tail
    → place (plan_next_block_index tail) i + 1 ≡ place tail i
unfolding plan_next_block_index
place_later tail i ht hi ne = ground arith

pub place_nearer :
    (tail k i : ℕ)
    → tail < 16
    → k < 16
    → i < 16
    → k ≢ i
    → place tail k < place tail i + 1
    → place tail k < place tail i
place_nearer tail k i ht hk hi ne h = ground arith

pub place_farther :
    (tail i k : ℕ)
    → tail < 16
    → i < 16
    → k < 16
    → i ≢ k
    → place tail k ≤ place tail i
    → place tail k < place tail i
place_farther tail i k ht hi hk ne h = ground arith
