-- ===== src/Base/Ring.antt =====
-- The ring index arithmetic that serial.c, planner.c and stepper.c share: an array of `size`
-- slots, a tail index to read from and a head index to write to, with one slot always unused.
use Prim.Native.Nat.{ℕ, zero, suc, ◌+◌, ◌-◌, ◌≤◌, ◌<◌}
use mathlib.Core.Path.{◌≡◌, refl, ap, ap₂}
use mathlib.Core.Logic.{◌≢◌}
use mathlib.Core.List.{List, [], ◌∷◌, ◌++◌}
use native.Mathlib.Omega.{arith}
use g_carvin.Base.Lists.{length, get_or, set}
use g_carvin.Base.Tests.{◌==◌, leb, ltb, if◌then◌else◌}

-- `i++; if (i == size) { i = 0; }`
abbrev pub next_index : ℕ → ℕ → ℕ
next_index size i = if i + 1 == size then 0 else i + 1

-- How many slots lie from `tail` up to `head`, going round.
abbrev pub occupied : ℕ → ℕ → ℕ → ℕ
occupied size head tail = if leb tail head then head - tail else size - (tail - head)

module _ {ℓ} {A : Type ℓ} where
  pub get_or-set_self :
      (xs : List A) (i : ℕ) (v d : A) → i < length xs → get_or (set xs i v) i d ≡ v
  get_or-set_self [] i v d h = absurd (omega arith)
  get_or-set_self (x ∷ xs) zero v d h = refl
  get_or-set_self (x ∷ xs) (suc i) v d h = get_or-set_self xs i v d (omega arith)

  pub get_or-set_ne :
      (xs : List A) (i j : ℕ) (v d : A) → i ≢ j → get_or (set xs i v) j d ≡ get_or xs j d
  get_or-set_ne [] i j v d h = refl
  get_or-set_ne (x ∷ xs) zero zero v d h = absurd (h refl)
  get_or-set_ne (x ∷ xs) zero (suc j) v d h = refl
  get_or-set_ne (x ∷ xs) (suc i) zero v d h = refl
  get_or-set_ne (x ∷ xs) (suc i) (suc j) v d h = get_or-set_ne xs i j v d (λ e. h (ap suc e))

  -- The `n` entries that start at slot `t`.
  abbrev pub entries_from : A → List A → ℕ → ℕ → ℕ → List A
  entries_from d buf size t zero = []
  entries_from d buf size t (suc n) = get_or buf t d ∷ entries_from d buf size (next_index size t) n

  -- What a ring holds, oldest entry first.
  abbrev pub held : A → List A → ℕ → ℕ → ℕ → List A
  held d buf size head tail = entries_from d buf size tail (occupied size head tail)

  pub length-entries_from :
      (d : A) (buf : List A) (size t n : ℕ) → length (entries_from d buf size t n) ≡ n
  length-entries_from d buf size t zero = refl
  length-entries_from d buf size t (suc n) =
      ap suc (length-entries_from d buf size (next_index size t) n)

-- The slot that lies `n` places after `t`.
abbrev slot_after : ℕ → ℕ → ℕ → ℕ
slot_after size t n = if ltb (t + n) size then t + n else t + n - size

slot_after-suc :
    (size t n : ℕ)
    → t < size
    → suc n < size
    → slot_after size t (suc n) ≡ slot_after size (next_index size t) n
slot_after-suc size t n ht hn = ground arith

next_index-lt : (size t : ℕ) → t < size → next_index size t < size
next_index-lt size t h = ground arith

module _ {ℓ} {A : Type ℓ} (d x : A) (buf : List A) (size : ℕ) (fits : size ≤ length buf) where
  -- Writing the slot behind `n` entries adds one entry at their end.
  entries_from-set :
      (n t h : ℕ)
      → t < size
      → n < size
      → h ≡ slot_after size t n
      → entries_from d (set buf h x) size t (suc n) ≡ entries_from d buf size t n ++ x ∷ []
  entries_from-set zero t h ht hn e =
      let same : h ≡ t = ground arith in
      rw same (ap (λ y. y ∷ []) (get_or-set_self buf t x d (omega arith)))
  entries_from-set (suc n) t h ht hn e = ap₂ ◌∷◌ (get_or-set_ne buf h t x d (ground arith)) (
      entries_from-set n (next_index size t) h (next_index-lt size t ht) (omega arith)
        (ground (arith, slot_after-suc size t n)))

  pub held-push :
      (head tail : ℕ)
      → head < size
      → tail < size
      → next_index size head ≢ tail
      → held d (set buf head x) size (next_index size head) tail
        ≡ held d buf size head tail ++ x ∷ []
  held-push head tail hh ht free = rw one_more (entries_from-set _ tail head ht in_range place)
    where
      one_more : occupied size (next_index size head) tail ≡ suc (occupied size head tail)
      one_more = ground arith

      in_range : occupied size head tail < size
      in_range = ground arith

      place : head ≡ slot_after size tail (occupied size head tail)
      place = ground arith

module _ {ℓ} {A : Type ℓ} (d : A) (buf : List A) (size : ℕ) where
  pub held-pop :
      (head tail : ℕ)
      → head < size
      → tail < size
      → head ≢ tail
      → held d buf size head tail ≡ get_or buf tail d ∷ held d buf size head (next_index size tail)
  held-pop head tail hh ht ne = rw one_less
    where
      one_less : occupied size head tail ≡ suc (occupied size head (next_index size tail))
      one_less = ground arith

  pub length-held : (head tail : ℕ) → length (held d buf size head tail) ≡ occupied size head tail
  length-held head tail = length-entries_from d buf size tail (occupied size head tail)

  pub held-empty : (tail : ℕ) → held d buf size tail tail ≡ []
  held-empty tail = rw none_left
    where
      none_left : occupied size tail tail ≡ 0
      none_left = ground arith
