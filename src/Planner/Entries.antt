-- ===== src/Planner/Entries.antt =====
-- What a new entry speed of one block does to a plan of planner.c that can be driven.
use mathlib.Core.Path.{subst}
use g_carvin.Base.{
  ℕ, ◌+◌, ◌<◌, ◌≡◌, ◌≢◌, inl, inr, refl, sym, ap, ◌∙◌, arith, true, false, ◌==◌, if◌then◌else◌,
  if_true, if_false, if_cases, Bool-cases,
}
use g_carvin.Planner.{plan_next_block_index}
use g_carvin.Planner.Floats.{Float, AtMost, FloatLaws}
use g_carvin.Planner.Places.{place, place-next, place_nearer}

module _ {V : Type 0} (float : Float V) (laws : FloatLaws float) where
  -- One entry speed is replaced.
  abbrev pub with_entry : ℕ → V → (ℕ → V) → ℕ → V
  with_entry j v e k = if k == j then v else e k

  -- What the square of the speed may fall from, to reach the next block at its entry speed.
  abbrev pub reach : (ℕ → V) → (ℕ → V) → ℕ → ℕ → V
  reach s e head i =
      if plan_next_block_index i == head then s i else float.add (e (plan_next_block_index i)) (s i)

  -- Each block that is held can slow down to the entry speed of the next, and the last to rest.
  unfoldable pub Stops : (s e : ℕ → V) (tail head : ℕ) → Type 0
  Stops s e tail head =
      (i : ℕ) → i < 16 → place tail i < place tail head → AtMost float (e i) (reach s e head i)

  -- Each block up to a place can speed up to the entry speed of the next.
  unfoldable pub SpeedsUp : (s e : ℕ → V) (tail limit : ℕ) → Type 0
  SpeedsUp s e tail limit =
      (i : ℕ)
      → i < 16
      → place tail i < limit
      → AtMost float (e (plan_next_block_index i)) (float.add (e i) (s i))

  at_entry : (j : ℕ) (v : V) (e : ℕ → V) → with_entry j v e j ≡ v
  at_entry j v e = if_true v (e j) (ground arith)

  off_entry : (j k : ℕ) (v : V) (e : ℕ → V) → k ≢ j → with_entry j v e k ≡ e k
  off_entry j k v e ne = if_false v (e k) (ground arith)

  next_off : (i : ℕ) → plan_next_block_index i ≢ i
  unfolding plan_next_block_index
  next_off i e = ground arith

  -- A higher entry speed keeps what cannot be exceeded before it, and needs to stop itself.
  pub raise-Stops :
      (s e : ℕ → V) (tail head j : ℕ) (v : V)
      → AtMost float (e j) v
      → AtMost float v (reach s e head j)
      → Stops s e tail head
      → Stops s (with_entry j v e) tail head
  unfolding Stops
  raise-Stops s e tail head j v up stops_here h i hi hp = elim (Bool-cases (i == j)) [
    | inl same ↦
        subst (λ k. AtMost float (with_entry j v e k) (reach s (with_entry j v e) head k)) {x = j}
          {y = i} (ground arith)
          (rw (at_entry j v e)
            (rw (off_entry j (plan_next_block_index j) v e (next_off j)) stops_here))
    | inr other ↦
        rw (off_entry j i v e (ground arith)) (laws.trans_le _ _ _ (h i hi hp) (no_less i))
  ]
    where
      not_lower : (k : ℕ) → AtMost float (e k) (with_entry j v e k)
      not_lower k =
          if_cases (AtMost float (e k)) (k == j)
            (λ same. subst (λ q. AtMost float (e q) v) {x = j} {y = k} (ground arith) up)
            (λ other. laws.refl_le (e k))

      no_less : (i : ℕ) → AtMost float (reach s e head i) (reach s (with_entry j v e) head i)
      no_less i = elim (Bool-cases (plan_next_block_index i == head)) [
        | inl last ↦ rw last (laws.refl_le (s i))
        | inr inner ↦ rw inner (laws.add_mono _ _ _ (not_lower (plan_next_block_index i)))
      ]

  -- An entry speed behind a place does not matter up to it.
  pub other-SpeedsUp :
      (s e : ℕ → V) (tail limit j : ℕ) (v : V)
      → tail < 16
      → limit < 16
      → limit < place tail j
      → SpeedsUp s e tail limit
      → SpeedsUp s (with_entry j v e) tail limit
  unfolding SpeedsUp
  other-SpeedsUp s e tail limit j v ht hl behind h i hi hp =
      let next = place-next tail i ht hi (omega arith) in
      rw (off_entry j i v e (λ q. omega (arith, ap (place tail) q))) (
        rw (off_entry j (plan_next_block_index i) v e (λ q. omega (arith, next, ap (place tail) q)))
          (h i hi hp))

  next_injective :
      (i k : ℕ) → i < 16 → k < 16 → plan_next_block_index k ≡ plan_next_block_index i → i ≡ k
  unfolding plan_next_block_index
  next_injective i k hi hk e = ground arith

  -- A block is entered no faster than the block before it can speed up to: the plan can still stop,
  -- and speeds up to that block.
  pub lower-Stops :
      (s e : ℕ → V) (tail head i : ℕ) (v : V)
      → tail < 16
      → i < 16
      → AtMost float v (e (plan_next_block_index i))
      → AtMost float (e i) (float.add v (s i))
      → plan_next_block_index i ≢ head
      → Stops s e tail head
      → Stops s (with_entry (plan_next_block_index i) v e) tail head
  unfolding Stops
  lower-Stops s e tail head i v ht hi down stops_here inner h k hk hkp =
      if_cases (λ a. AtMost float a (reach s (with_entry (plan_next_block_index i) v e) head k))
        (k == plan_next_block_index i)
        (λ same.
          laws.trans_le _ _ _
            (subst (λ q. AtMost float v (e q)) {x = plan_next_block_index i} {y = k} (ground arith)
              down)
            (subst (AtMost float (e k)) (far k (λ q. next_off k (q ∙ sym (the_same same))))
              (h k hk hkp)))
        (λ other. elim (Bool-cases (plan_next_block_index k == plan_next_block_index i)) [
          | inl here ↦
              subst
                (λ q.
                  AtMost float (e q) (reach s (with_entry (plan_next_block_index i) v e) head q))
                {x = i} {y = k} (next_injective i k hi hk (ground arith))
                (rw
                  (if_false {A = V} (s i)
                    (float.add (with_entry (plan_next_block_index i) v e (plan_next_block_index i))
                      (s i))
                    (differ inner))
                  (rw (at_entry (plan_next_block_index i) v e) stops_here))
          | inr there ↦ subst (AtMost float (e k)) (far k (λ q. ground arith)) (h k hk hkp)
        ])
    where
      the_same : {a b : ℕ} → (a == b) ≡ true → a ≡ b
      the_same q = ground arith

      differ : {a b : ℕ} → a ≢ b → (a == b) ≡ false
      differ ne = ground arith

      far :
          (k : ℕ)
          → plan_next_block_index k ≢ plan_next_block_index i
          → reach s e head k ≡ reach s (with_entry (plan_next_block_index i) v e) head k
      far k ne = rw (off_entry (plan_next_block_index i) (plan_next_block_index k) v e ne) refl

  pub next-SpeedsUp :
      (s e : ℕ → V) (tail i : ℕ) (v : V)
      → tail < 16
      → i < 16
      → place tail i + 1 < 16
      → AtMost float v (float.add (e i) (s i))
      → SpeedsUp s e tail (place tail i)
      → SpeedsUp s (with_entry (plan_next_block_index i) v e) tail (place tail i + 1)
  unfolding SpeedsUp
  next-SpeedsUp s e tail i v ht hi hp up h k hk hkp = elim (Bool-cases (k == i)) [
    | inl same ↦
        subst
          (λ q.
            AtMost float (with_entry (plan_next_block_index i) v e (plan_next_block_index q))
              (float.add (with_entry (plan_next_block_index i) v e q) (s q)))
          {x = i} {y = k} (ground arith)
          (rw (at_entry (plan_next_block_index i) v e)
            (rw (off_entry (plan_next_block_index i) i v e (λ q. next_off i (sym q))) up))
    | inr other ↦
        let before : place tail k < place tail i =
          place_nearer tail k i ht hk hi (ground arith) hkp in
        let next = place-next tail i ht hi (omega arith) in
        let next' = place-next tail k ht hk (omega arith) in
        rw (off_entry (plan_next_block_index i) k v e (λ q. omega (arith, next, ap (place tail) q)))
          (rw
            (off_entry (plan_next_block_index i) (plan_next_block_index k) v e
              (λ q. omega (arith, next, next', ap (place tail) q)))
            (h k hk before))
  ]
