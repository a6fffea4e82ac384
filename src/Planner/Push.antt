-- ===== src/Planner/Push.antt =====
-- A new block at the end of the ring of planner.c.
use mathlib.Core.Path.{subst}
use g_carvin.Base.{
  ℕ, ◌+◌, ◌-◌, ◌≤◌, ◌<◌, ◌≡◌, ◌≢◌, inl, inr, refl, sym, ap, ◌∙◌, arith, true, false, ◌==◌,
  if◌then◌else◌, if_ind, if_cases, if_true, if_false, Bool-cases,
}
use g_carvin.Planner.{PlanBlock, plan_next_block_index, slope}
use g_carvin.Planner.Floats.{Float, AtMost, FloatLaws}
use g_carvin.Planner.Places.{place, place-next, next-lt, place_nearer}
use g_carvin.Planner.Entries.{reach, Stops, SpeedsUp}
use g_carvin.Planner.Passes.{Pointers, Plan, Within, equal, not_equal}

-- The pointers once a block is added.
pub push-Pointers :
    (tail head next planned : ℕ)
    → place tail head + 1 < 16
    → Pointers tail head next planned
    → Pointers tail next (plan_next_block_index next) planned
push-Pointers tail head next planned free h =
    subst (λ k. Pointers tail k (plan_next_block_index k) planned) (sym h.next_head)
      (record {
        tail_lt = h.tail_lt;
        head_lt = next-lt head h.head_lt;
        next_head = refl;
        planned_lt = h.planned_lt;
        planned_place =
            omega (arith, h.planned_place, place-next tail head h.tail_lt h.head_lt free);
      })

pub has_room :
    (tail head next : ℕ)
    → tail < 16
    → head < 16
    → next ≡ plan_next_block_index head
    → (tail == next) ≡ false
    → place tail head + 1 < 16
unfolding plan_next_block_index
has_room tail head next ht hh e h = ground arith

pub next_place :
    (tail head next : ℕ)
    → tail < 16
    → head < 16
    → next ≡ plan_next_block_index head
    → place tail head + 1 < 16
    → place tail next ≡ place tail head + 1
next_place tail head next ht hh e free = ap (place tail) e ∙ place-next tail head ht hh free

module _ {V : Type 0} (float : Float V) (laws : FloatLaws float) where
  -- A block as `plan_buffer_line` leaves it: entered at rest, up to a limit and along a slope that are
  -- not negative.
  pub record IsNew (b : PlanBlock V) : Type 0 where
    pub entry : b.entry_speed_sqr ≡ float.at_rest
    pub limit : AtMost float float.at_rest b.max_entry_speed_sqr
    pub forward : AtMost float float.at_rest (slope float b)

  abbrev pub with_block : ℕ → PlanBlock V → (ℕ → PlanBlock V) → ℕ → PlanBlock V
  with_block j b buffer k = if k == j then b else buffer k

  abbrev pub PlanOf : (ℕ → PlanBlock V) → ℕ → ℕ → ℕ → Type 0
  PlanOf buffer tail head limit =
      Plan float laws (λ i. slope float (buffer i)) (λ i. (buffer i).entry_speed_sqr)
        (λ i. (buffer i).max_entry_speed_sqr) tail head limit

  off_block :
      (j k : ℕ) (b : PlanBlock V) (buffer : ℕ → PlanBlock V)
      → k ≢ j
      → with_block j b buffer k ≡ buffer k
  off_block j k b buffer ne = if_false b (buffer k) (not_equal ne)

  at_block : (j : ℕ) (b : PlanBlock V) (buffer : ℕ → PlanBlock V) → with_block j b buffer j ≡ b
  at_block j b buffer = if_true b (buffer j) (equal refl)

  next_apart :
      (i head : ℕ)
      → i < 16
      → head < 16
      → i ≢ head
      → plan_next_block_index i ≢ plan_next_block_index head
  unfolding plan_next_block_index
  next_apart i head hi hh ne e = ground arith

  push-Stops :
      (buffer : ℕ → PlanBlock V) (tail head i : ℕ) (b : PlanBlock V)
      → i < 16
      → head < 16
      → i ≢ head
      → IsNew b
      → AtMost float
          (buffer i).entry_speed_sqr
          (reach float laws (λ k. slope float (buffer k)) (λ k. (buffer k).entry_speed_sqr) head i)
      → AtMost float (with_block head b buffer i).entry_speed_sqr (
          reach float laws
            (λ k. slope float (with_block head b buffer k))
            (λ k. (with_block head b buffer k).entry_speed_sqr)
            (plan_next_block_index head)
            i)
  push-Stops buffer tail head i b hi hh ne new h = rw (not_equal (next_apart i head hi hh ne)) (
      rw (off_block head i b buffer ne) (elim (Bool-cases (plan_next_block_index i == head)) [
        | inl end ↦ rw end (rw new.entry (laws.trans_le _ _ _ (old end) (laws.add_rest _)))
        | inr inner ↦ rw inner (old' inner)
      ]))
    where
      old :
          (plan_next_block_index i == head) ≡ true
          → AtMost float (buffer i).entry_speed_sqr (slope float (buffer i))
      old end = subst (AtMost float (buffer i).entry_speed_sqr) (if_true _ _ end) h

      old' :
          (plan_next_block_index i == head) ≡ false
          → AtMost float (buffer i).entry_speed_sqr (
              float.add (buffer (plan_next_block_index i)).entry_speed_sqr (slope float (buffer i)))
      old' end = subst (AtMost float (buffer i).entry_speed_sqr) (if_false _ _ end) h

  new-Stops :
      (buffer : ℕ → PlanBlock V) (head : ℕ) (b : PlanBlock V)
      → IsNew b
      → AtMost float (with_block head b buffer head).entry_speed_sqr (
          reach float laws
            (λ k. slope float (with_block head b buffer k))
            (λ k. (with_block head b buffer k).entry_speed_sqr)
            (plan_next_block_index head)
            head)
  new-Stops buffer head b new =
      rw (equal {a = plan_next_block_index head} refl)
        (rw (at_block head b buffer) (rw new.entry new.forward))

  pub push-Plan :
      (buffer : ℕ → PlanBlock V) (tail head limit : ℕ) (b : PlanBlock V)
      → tail < 16
      → head < 16
      → place tail head + 1 < 16
      → limit ≤ place tail head - 1
      → IsNew b
      → PlanOf buffer tail head (place tail head - 1)
      → PlanOf (with_block head b buffer) tail (plan_next_block_index head) limit
  unfolding Within Stops SpeedsUp
  push-Plan buffer tail head limit b ht hh free low new h = record {
    forward = λ i.
        if_ind (λ (c : PlanBlock V). AtMost float float.at_rest (slope float c)) (i == head)
          new.forward (h.forward i);
    within = λ i hi hp.
        if_cases (λ (c : PlanBlock V). AtMost float c.entry_speed_sqr c.max_entry_speed_sqr)
          (i == head) (λ same. rw new.entry new.limit)
          (λ other. h.within i hi (older i hi hp (ground arith)));
    stops = λ i hi hp. elim (Bool-cases (i == head)) [
      | inl same ↦
          subst
            (λ k. AtMost float (with_block head b buffer k).entry_speed_sqr (
              reach float laws (λ k'. slope float (with_block head b buffer k'))
                (λ k'. (with_block head b buffer k').entry_speed_sqr) (plan_next_block_index head)
                k))
            {x = head} {y = i} (ground arith) (new-Stops buffer head b new)
      | inr other ↦
          push-Stops buffer tail head i b hi hh (ground arith) new
            (h.stops i hi (older i hi hp (ground arith)))
    ];
    speeds_up = λ i hi hp.
        let near = place-next tail i ht hi (omega arith) in
        rw (off_block head i b buffer (λ e. omega (arith, ap (place tail) e))) (
          rw
            (off_block head (plan_next_block_index i) b buffer
              (λ e. omega (arith, near, ap (place tail) e)))
            (h.speeds_up i hi (omega arith)));
  }
    where
      next : place tail (plan_next_block_index head) ≡ place tail head + 1
      next = place-next tail head ht hh free

      older :
          (i : ℕ)
          → i < 16
          → place tail i < place tail (plan_next_block_index head)
          → i ≢ head
          → place tail i < place tail head
      older i hi hp ne = place_nearer tail i head ht hi hh ne (omega (arith, next))
