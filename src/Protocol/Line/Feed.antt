-- ===== src/Protocol/Line/Feed.antt =====
-- What the line assembly of protocol.c has stored after each byte of a line.
use mathlib.Core.List.{append-nil, append_assoc}
use mathlib.Core.Path.{subst, ap₂}
use native.Mathlib.Numerals.{add-one}
use g_carvin.Base.{
  ℕ, zero, suc, ◌-◌, ◌≤◌, ◌<◌, ◌≡◌, refl, sym, leb→le, ◌∙◌, ap, true, false, inl, inr, List, [],
  ◌∷◌, ◌++◌, leb, ltb, length, length-append, length-set, lt→ltb, arith, take, set, Bool-cases,
}
use g_carvin.Protocol.Line.{LineState, line_buffer_size, append_char, line_char}
use g_carvin.Protocol.Line.Clean.{Mode, outside, in_parentheses, in_semicolon, clean}
use g_carvin.Protocol.Line.Step.{HasMode, store_or_overflow, line-Step, skips, keeps}

-- The bytes of a line, one after the other.
abbrev pub feed : List ℕ → LineState → LineState
feed [] s = s
feed (c ∷ cs) s = feed cs (line_char c s)

abbrev pub text : LineState → List ℕ
text s = take s.char_counter s.line

take-set :
    (n : ℕ) (xs : List ℕ) (d : ℕ) → n < length xs → take (suc n) (set xs n d) ≡ take n xs ++ d ∷ []
take-set n [] d h = absurd (omega arith)
take-set zero (x ∷ xs) d h = refl
take-set (suc n) (x ∷ xs) d h = ap (λ ys. x ∷ ys) (take-set n xs d (omega arith))

text-append_char :
    (d : ℕ) (s : LineState)
    → s.char_counter < length s.line
    → text (append_char d s) ≡ text s ++ d ∷ []
text-append_char d s h =
    ap (λ n. take n (set s.line s.char_counter d)) (add-one s.char_counter)
    ∙ take-set s.char_counter s.line d h

-- The array is whole, and what it holds so far.
record Holds (s : LineState) (p : List ℕ) : Type 0 where
  whole : length s.line ≡ line_buffer_size
  counted : s.char_counter ≡ length p
  held : text s ≡ p

-- What the line state is once a line with the cleaned text `t` was fed.
pub record Fed (t : List ℕ) (s : LineState) : Type 0 where
  pub whole : length s.line ≡ line_buffer_size
  pub bounded : s.char_counter ≤ line_buffer_size - 1
  pub flag : s.overflow ≡ ltb (line_buffer_size - 1) (length t)
  pub content : s.overflow ≡ false → text s ≡ t

skipped :
    (c : ℕ) (s : LineState)
    → s.overflow ≡ true
    → ((line_char c s).overflow ≡ true)
      × ((line_char c s).line ≡ s.line)
      × ((line_char c s).char_counter ≡ s.char_counter)
unfolding line_char
skipped c s o = ground arith

-- Behind an overflow nothing changes but the comment flag.
feed_overflow :
    (cs : List ℕ) (s : LineState)
    → s.overflow ≡ true
    → ((feed cs s).overflow ≡ true)
      × ((feed cs s).line ≡ s.line)
      × ((feed cs s).char_counter ≡ s.char_counter)
feed_overflow [] s o = (o, refl, refl)
feed_overflow (c ∷ cs) s o =
    let (o', l, n) = skipped c s o in
    let (o'', l', n') = feed_overflow cs (line_char c s) o' in (o'', l' ∙ l, n' ∙ n)

-- The next line state under an overflow, or with the character stored, keeps what is claimed.
overflow-Fed :
    (cs : List ℕ) (s : LineState) (p t : List ℕ)
    → Holds s p
    → s.char_counter ≡ line_buffer_size - 1
    → line_buffer_size - 1 < length t
    → Fed t (feed cs (record s { overflow = true }))
overflow-Fed cs s p t h full long =
    let (o, l, n) = feed_overflow cs (record s { overflow = true }) refl in
    record {
      whole = ap length l ∙ h.whole;
      bounded = omega arith;
      flag = o ∙ sym (lt→ltb (line_buffer_size - 1) (length t) long);
      content = λ e. cc;
    }

append-Holds :
    (d : ℕ) (s : LineState) (p : List ℕ)
    → Holds s p
    → s.char_counter < line_buffer_size - 1
    → Holds (append_char d s) (p ++ d ∷ [])
append-Holds d s p h room = record {
  whole = length-set s.line s.char_counter d ∙ h.whole;
  counted = omega (arith, length-append p (d ∷ []), h.counted);
  held = text-append_char d s (omega (arith, h.whole)) ∙ ap (λ q. q ++ d ∷ []) h.held;
}

store_full :
    (d : ℕ) (s : LineState)
    → leb (line_buffer_size - 1) s.char_counter ≡ true
    → store_or_overflow d s ≡ record s { overflow = true }
store_full d s full = ground arith

store_room :
    (d : ℕ) (s : LineState)
    → leb (line_buffer_size - 1) s.char_counter ≡ false
    → (store_or_overflow d s ≡ append_char d s) × (s.char_counter < line_buffer_size - 1)
store_room d s room = ground arith

HasMode-overflow : (m : Mode) (s : LineState) → HasMode m s → s.overflow ≡ false
HasMode-overflow outside s h = h.0
HasMode-overflow in_parentheses s h = h.0
HasMode-overflow in_semicolon s h = h.0

Fed-nil :
    (m : Mode) (s : LineState) (p : List ℕ)
    → HasMode m s
    → Holds s p
    → length p ≤ line_buffer_size - 1
    → Fed (p ++ clean m []) s
unfolding clean
Fed-nil m s p hm h short = rw append-nil (record {
  whole = h.whole;
  bounded = omega (arith, h.counted);
  flag = HasMode-overflow m s hm ∙ sym (le-ltb short);
  content = λ e. h.held;
})
  where
    le-ltb : length p ≤ 79 → ltb 79 (length p) ≡ false
    le-ltb k = ground arith

feed_lem :
    (cs : List ℕ) (m : Mode) (s : LineState) (p : List ℕ)
    → HasMode m s
    → Holds s p
    → length p ≤ line_buffer_size - 1
    → Fed (p ++ clean m cs) (feed cs s)
feed_lem [] m s p hm h short = Fed-nil m s p hm h short
feed_lem (c ∷ cs) m s p hm h short = elim (line-Step m c s hm) [
  | skips m' same line count hm' ↦ rw (same cs) (
      feed_lem cs m' (line_char c s) p hm'
        (record {
          whole = ap length line ∙ h.whole;
          counted = count ∙ h.counted;
          held = ap₂ take count line ∙ h.held;
        })
        short)
  | keeps d next stored out ↦ elim (Bool-cases (leb (line_buffer_size - 1) s.char_counter)) [
    | inl full ↦ rw (next cs) (
        subst (λ u. Fed (p ++ d ∷ clean outside cs) (feed cs u))
          (sym (stored ∙ store_full d s full))
          (overflow-Fed cs s p _ h
            (omega (arith, leb→le (line_buffer_size - 1) s.char_counter full, h.counted))
            (omega (
              arith,
              leb→le (line_buffer_size - 1) s.char_counter full,
              h.counted,
              length-append p (d ∷ clean outside cs),
            ))))
    | inr room ↦
        let space = store_room d s room in
        rw (next cs) (
          subst (λ u. Fed (p ++ d ∷ clean outside cs) (feed cs u)) (sym (stored ∙ space.0))
            (subst (λ q. Fed q (feed cs (append_char d s)))
              (append_assoc p (d ∷ []) (clean outside cs))
              (feed_lem cs outside (append_char d s) (p ++ d ∷ []) out
                (append-Holds d s p h space.1)
                (omega (arith, space.1, h.counted, length-append p (d ∷ []))))))
  ]
]

-- Nothing of the next line has arrived.
pub record Fresh (s : LineState) : Type 0 where
  pub whole : length s.line ≡ line_buffer_size
  pub empty : s.char_counter ≡ 0
  pub no_overflow : s.overflow ≡ false
  pub no_parentheses : s.parentheses ≡ false
  pub no_semicolon : s.semicolon ≡ false

pub feed-Fed : (cs : List ℕ) (s : LineState) → Fresh s → Fed (clean outside cs) (feed cs s)
feed-Fed cs s f =
    feed_lem cs outside s [] (f.no_overflow, f.no_parentheses, f.no_semicolon)
      (record { whole = f.whole; counted = f.empty; held = ap (λ n. take n s.line) f.empty })
      (omega arith)

-- However long a line gets, the character counter stays below the size of the line buffer, so
-- that neither a character nor the terminator is written out of it.
pub char_counter_bounded :
    (cs : List ℕ) (s : LineState)
    → Fresh s
    → ((feed cs s).char_counter < line_buffer_size) × (length (feed cs s).line ≡ line_buffer_size)
char_counter_bounded cs s f = let fed = feed-Fed cs s f in (omega (arith, fed.bounded), fed.whole)
