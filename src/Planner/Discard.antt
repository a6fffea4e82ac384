-- ===== src/Planner/Discard.antt =====
-- The ring of planner.c once its oldest block is discarded.
use g_carvin.Base.{ℕ, ◌+◌, ◌-◌, ◌≤◌, ◌<◌, ◌≡◌, ◌≢◌, arith, ◌==◌, if◌then◌else◌, if_ind, if_cases}
use g_carvin.Planner.{plan_next_block_index}
use g_carvin.Planner.Floats.{Float, FloatLaws}
use g_carvin.Planner.Places.{place, place-tail, next-lt, place_later}
use g_carvin.Planner.Entries.{Stops, SpeedsUp}
use g_carvin.Planner.Passes.{Pointers, Plan, Within}

-- The pointers once a block is discarded.
pub discard-Pointers :
    (tail head next planned : ℕ)
    → head ≢ tail
    → Pointers tail head next planned
    → Pointers
        (plan_next_block_index tail)
        head
        next
        (if tail == planned then plan_next_block_index tail else planned)
discard-Pointers tail head next planned ne h =
    let ahead = place_later tail head h.tail_lt h.head_lt ne in
    record {
      tail_lt = next-lt tail h.tail_lt;
      head_lt = h.head_lt;
      next_head = h.next_head;
      planned_lt = if_ind (λ k. k < 16) (tail == planned) (next-lt tail h.tail_lt) h.planned_lt;
      planned_place =
          if_cases
            (λ k.
              place (plan_next_block_index tail) k ≤ place (plan_next_block_index tail) head - 1)
            (tail == planned) (λ same. omega (arith, place-tail (plan_next_block_index tail)))
            (λ other. omega (
              arith,
              ahead,
              h.planned_place,
              place_later tail planned h.tail_lt h.planned_lt (ground arith),
            ));
    }

-- What lies before the head after a block is discarded lay one place farther from the tail.
still :
    (tail i head : ℕ)
    → tail < 16
    → i < 16
    → head < 16
    → head ≢ tail
    → place (plan_next_block_index tail) i < place (plan_next_block_index tail) head
    → (place (plan_next_block_index tail) i + 1 ≡ place tail i) × (place tail i < place tail head)
unfolding plan_next_block_index
still tail i head ht hi hh ne h = ground arith

module _ {V : Type 0} (float : Float V) (laws : FloatLaws float) where
  pub discard-Plan :
      (s e m : ℕ → V) (tail head : ℕ)
      → tail < 16
      → head < 16
      → head ≢ tail
      → Plan float laws s e m tail head (place tail head - 1)
      → Plan float laws s e m
          (plan_next_block_index tail)
          head
          (place (plan_next_block_index tail) head - 1)
  unfolding Within Stops SpeedsUp
  discard-Plan s e m tail head ht hh ne h = record {
    forward = h.forward;
    within = λ i hi hp. h.within i hi (omega (arith, still tail i head ht hi hh ne hp));
    stops = λ i hi hp. h.stops i hi (omega (arith, still tail i head ht hi hh ne hp));
    speeds_up = λ i hi hp. h.speeds_up i hi (
        omega (arith, still tail i head ht hi hh ne (omega arith), place_later tail head ht hh ne));
  }
