-- ===== src/Planner/Counts.antt =====
-- What planner.c reports of the ring of blocks.
use g_carvin.Base.{ℕ, ◌+◌, ◌-◌, ◌<◌, ◌≡◌, ◌↔◌, arith, true, ◌==◌, leb, if◌then◌else◌}
use g_carvin.Planner.{
  Planner, plan_next_block_index, plan_check_full_buffer, plan_get_block_buffer_count,
  plan_get_block_buffer_available,
}
use g_carvin.Planner.Passes.{Pointers}

full_iff :
    (tail head next : ℕ)
    → tail < 16
    → head < 16
    → next ≡ plan_next_block_index head
    → ((tail == next) ≡ true) ↔ ((if leb tail head then head - tail else 16 - (tail - head)) ≡ 15)
unfolding plan_next_block_index
full_iff tail head next ht hh e = ground arith

shares :
    (tail head : ℕ)
    → tail < 16
    → head < 16
    → (if leb tail head then 15 - (head - tail) else tail - head - 1)
        + (if leb tail head then head - tail else 16 - (tail - head))
      ≡ 15
shares tail head ht hh = ground arith

-- While the pointers are those of a ring, the ring is reported as full exactly when its count is
-- fifteen, and the count and the free space make up fifteen.
plan_check_full_buffer_lem :
    {V : Type 0} (p : Planner V)
    → Pointers p.block_buffer_tail p.block_buffer_head p.next_buffer_head p.block_buffer_planned
    → ((plan_check_full_buffer p ≡ true) ↔ (plan_get_block_buffer_count p ≡ 15))
      × (plan_get_block_buffer_available p + plan_get_block_buffer_count p ≡ 15)
unfolding plan_check_full_buffer plan_get_block_buffer_count plan_get_block_buffer_available
plan_check_full_buffer_lem p h = (
  full_iff p.block_buffer_tail p.block_buffer_head p.next_buffer_head h.tail_lt h.head_lt
      h.next_head,
  shares p.block_buffer_tail p.block_buffer_head h.tail_lt h.head_lt,
)
