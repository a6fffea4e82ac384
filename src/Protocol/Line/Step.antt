-- ===== src/Protocol/Line/Step.antt =====
-- What one byte of a line does to the line state of protocol.c.
use g_carvin.Base.{
  ℕ, ◌-◌, ◌≡◌, refl, true, false, ◌||◌, inl, inr, List, ◌∷◌, leb, ◌==◌, if◌then◌else◌, arith,
  Bool-cases,
}
use g_carvin.Protocol.Line.{LineState, line_buffer_size, append_char, line_char}
use g_carvin.Protocol.Line.Clean.{raise, Mode, outside, in_parentheses, in_semicolon, clean}

-- The flags that stand for each mode, with no overflow.
abbrev pub HasMode : Mode → LineState → Type 0
HasMode outside s = (s.overflow ≡ false) × (s.parentheses ≡ false) × (s.semicolon ≡ false)
HasMode in_parentheses s = (s.overflow ≡ false) × (s.parentheses ≡ true) × (s.semicolon ≡ false)
HasMode in_semicolon s = (s.overflow ≡ false) × (s.parentheses ≡ false) × (s.semicolon ≡ true)

abbrev pub store_or_overflow : ℕ → LineState → LineState
store_or_overflow d s =
    if leb (line_buffer_size - 1) s.char_counter
    then record s { overflow = true }
    else append_char d s

-- One byte either counts for nothing, perhaps changing the mode, or is the next character.
pub data Step (m : Mode) (c : ℕ) (s : LineState) : Type 0 where
  skips :
      (m' : Mode)
      → ((cs : List ℕ) → clean m (c ∷ cs) ≡ clean m' cs)
      → (line_char c s).line ≡ s.line
      → (line_char c s).char_counter ≡ s.char_counter
      → HasMode m' (line_char c s)
      → Step m c s
  keeps :
      (d : ℕ)
      → ((cs : List ℕ) → clean m (c ∷ cs) ≡ d ∷ clean outside cs)
      → line_char c s ≡ store_or_overflow d s
      → HasMode outside s
      → Step m c s

Step-outside : (c : ℕ) (s : LineState) → HasMode outside s → Step outside c s
unfolding line_char clean
Step-outside c s h = elim (Bool-cases (leb c b' ' || c == b'/')) [
  | inl blank ↦ skips outside (λ cs. rw blank) (ground arith) (ground arith) (ground arith)
  | inr char ↦ elim (Bool-cases (c == b'(')) [
    | inl round ↦
        skips in_parentheses (λ cs. rw (char, round)) (ground arith) (ground arith) (ground arith)
    | inr plain ↦ elim (Bool-cases (c == b';')) [
      | inl semi ↦
          skips in_semicolon (λ cs. rw (char, plain, semi)) (ground arith) (ground arith)
            (ground arith)
      | inr letter ↦ keeps (raise c) (λ cs. rw (char, plain, letter)) (ground arith) h
    ]
  ]
]

Step-parentheses : (c : ℕ) (s : LineState) → HasMode in_parentheses s → Step in_parentheses c s
unfolding line_char clean
Step-parentheses c s h = elim (Bool-cases (c == b')')) [
  | inl close ↦ skips outside (λ cs. rw close) (ground arith) (ground arith) (ground arith)
  | inr other ↦ skips in_parentheses (λ cs. rw other) (ground arith) (ground arith) (ground arith)
]

pub line-Step : (m : Mode) (c : ℕ) (s : LineState) → HasMode m s → Step m c s
unfolding line_char clean
line-Step outside c s h = Step-outside c s h
line-Step in_parentheses c s h = Step-parentheses c s h
line-Step in_semicolon c s h =
    skips in_semicolon (λ cs. refl) (ground arith) (ground arith) (ground arith)
