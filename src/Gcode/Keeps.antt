-- ===== src/Gcode/Keeps.antt =====
-- The values that a line of gcode.c leaves in its block are those of its words, none of which is
-- repeated.
use mathlib.Core.Path.{subst, ap₂}
use g_carvin.Base.{
  ℕ, ◌≡◌, refl, sym, ap, ◌∙◌, arith, true, false, ◌&&◌, ◌||◌, Option, none, some, ◌∷◌, leb, ◌==◌,
  ==_iff, if_ind, if_cases, Bool-cases, inl, inr,
}
use g_carvin.Base.Status.{Result, ok, fail, AllOk, AllOk-bind, AllOk-weaken, ◌>>=◌}
use g_carvin.NutsBolts.{Decimal}
use g_carvin.Gcode.{
  Values, Block, Conversions, elem, is_negative, whole, exceeds_tool, int_value, mantissa,
}
use g_carvin.Gcode.Commands.{Command, g_command, m_command, add_command}
use g_carvin.Gcode.Words.{
  Letter, f, i, j, k, l, n, p, r, s, t, x, y, z, letter_of, word_bit, never_negative, store_value,
  add_value, value_word, word,
}
use g_carvin.Gcode.Untouched.{SameWords, g_command-SameWords, m_command-SameWords}

-- The value words hold the value of a word with a letter, where its conversion is `int`.
abbrev pub Stored : Letter → ℕ → Decimal → Values → Type 0
Stored f int v a = a.f ≡ v
Stored i int v a = a.i ≡ v
Stored j int v a = a.j ≡ v
Stored k int v a = a.k ≡ v
Stored l int v a = a.l ≡ int
Stored n int v a = a.n ≡ whole v
Stored p int v a = a.p ≡ v
Stored r int v a = a.r ≡ v
Stored s int v a = a.s ≡ v
Stored t int v a = a.t ≡ int
Stored x int v a = a.x ≡ v
Stored y int v a = a.y ≡ v
Stored z int v a = a.z ≡ v

abbrev pub Holds : Letter → ℕ → Decimal → Block → Type 0
Holds w int v b = (elem (word_bit w) b.value_words ≡ true) × Stored w int v b.values

store_value-Stored :
    (w : Letter) (int : ℕ) (v : Decimal) (b : Block)
    → AllOk (λ (a : Block). Stored w int v a.values) (store_value w int v b)
unfolding store_value
store_value-Stored t int v b =
    if_ind (AllOk (λ (a : Block). Stored t int v a.values)) (exceeds_tool v) tt refl
store_value-Stored f int v b = refl
store_value-Stored i int v b = refl
store_value-Stored j int v b = refl
store_value-Stored k int v b = refl
store_value-Stored _ int v b = refl

-- A word with another letter leaves the value alone, and the tracking bits.
store_value-other :
    (w u : Letter) (int c : ℕ) (v d : Decimal) (b : Block)
    → (word_bit w == word_bit u) ≡ false
    → Stored w int v b.values
    → AllOk (λ (a : Block). Stored w int v a.values) (store_value u c d b)
unfolding store_value
store_value-other f f int c v d b ne h = cc
store_value-other w u int c v d b ne h = ground arith

store_value-value_words :
    (u : Letter) (int : ℕ) (d : Decimal) (b : Block)
    → AllOk (λ (a : Block). a.value_words ≡ b.value_words) (store_value u int d b)
unfolding store_value
store_value-value_words t int d b =
    if_ind (AllOk (λ (a : Block). a.value_words ≡ b.value_words)) (exceeds_tool d) tt refl
store_value-value_words f int d b = refl
store_value-value_words _ int d b = refl

-- What `add_value` does where it does not fail.
record Added (u : Letter) (b a : Block) : Type 0 where
  pub values : a.values ≡ b.values
  pub value_words : a.value_words ≡ word_bit u ∷ b.value_words
  pub fresh : elem (word_bit u) b.value_words ≡ false

add_value-Added : (u : Letter) (d : Decimal) (b : Block) → AllOk (Added u b) (add_value u d b)
unfolding add_value
add_value-Added u d b =
    if_cases (AllOk (Added u b)) (elem (word_bit u) b.value_words) (λ repeated. tt)
      (λ new.
        if_ind (AllOk (Added u b)) (never_negative u && is_negative d) tt
          (record { values = refl; value_words = refl; fresh = new }))

Added-Holds :
    (w u : Letter) (int : ℕ) (v : Decimal) (b a c : Block)
    → (word_bit w == word_bit u) ≡ false
    → Holds w int v b
    → Stored w int v a.values
    → a.value_words ≡ b.value_words
    → Added u a c
    → Holds w int v c
Added-Holds w u int v b a c ne h stored same add = (
  ap (elem (word_bit w)) (add.value_words ∙ ap (λ ws. word_bit u ∷ ws) same)
      ∙ ap (λ test. test || elem (word_bit w) b.value_words) ne
      ∙ h.0,
  subst (Stored w int v) (sym add.values) stored,
)

both :
    (P Q : Block → Type 0) (res : Result Block)
    → AllOk P res
    → AllOk Q res
    → AllOk (λ b. P b × Q b) res
both P Q (ok b) h g = (h, g)
both P Q (fail status) h g = tt

-- A value that is stored stays: no word with another letter changes it, and a second word with the
-- same letter fails.
value_word-Holds :
    (w : Letter) (u : Option Letter) (int c : ℕ) (v d : Decimal) (b : Block)
    → Holds w int v b
    → AllOk (Holds w int v) (value_word u c d b)
unfolding value_word
value_word-Holds w none int c v d b h = tt
value_word-Holds w (some u) int c v d b h = elim (Bool-cases (word_bit w == word_bit u)) [
  | inl same ↦
      AllOk-bind (λ (a : Block). a.value_words ≡ b.value_words) (Holds w int v)
        (store_value u c d b) (add_value u d) (store_value-value_words u c d b)
        (λ a words.
          AllOk-weaken (Added u a) (Holds w int v) (add_value u d a) (add_value-Added u d a)
            (λ e add.
              let clash : true ≡ false =
                sym h.0 ∙ (ap₂ elem ((==_iff _ _).0 same) (sym words) ∙ add.fresh) in
              cc))
  | inr other ↦
      AllOk-bind (λ (a : Block). Stored w int v a.values × (a.value_words ≡ b.value_words))
        (Holds w int v) (store_value u c d b) (add_value u d)
        (both _ _ (store_value u c d b) (store_value-other w u int c v d b other h.1)
          (store_value-value_words u c d b))
        (λ a kept.
          AllOk-weaken (Added u a) (Holds w int v) (add_value u d a) (add_value-Added u d a)
            (λ e add. Added-Holds w u int v b a e other h kept.0 kept.1 add))
]

store_word :
    (w : Letter) (v : Decimal) (int : ℕ) (b : Block)
    → AllOk (Holds w int v) (value_word (some w) int v b)
unfolding value_word
store_word w v int b =
    AllOk-bind (λ (a : Block). Stored w int v a.values) (Holds w int v) (store_value w int v b)
      (add_value w v) (store_value-Stored w int v b)
      (λ a stored.
        AllOk-weaken (Added w a) (Holds w int v) (add_value w v a) (add_value-Added w v a) (λ e add.
          (
            ap (elem (word_bit w)) add.value_words
                ∙ ap (λ test. test || elem (word_bit w) a.value_words)
                    ((==_iff (word_bit w) _).1 refl),
            subst (Stored w int v) (sym add.values) stored,
          )))

add_command-SameValues :
    (d : Command)
    → AllOk
        (λ (a : Block). (a.values ≡ d.block.values) × (a.value_words ≡ d.block.value_words))
        (add_command d)
unfolding add_command
add_command-SameValues d =
    if_ind P (leb 1 d.mantissa) tt
      (if_ind P (elem d.word_bit d.block.command_words) tt (refl, refl))
  where
    P : Result Block → Type 0
    P = AllOk (λ (a : Block). (a.values ≡ d.block.values) × (a.value_words ≡ d.block.value_words))

-- A command leaves every value as it is.
command-Holds :
    (w : Letter) (int : ℕ) (v : Decimal) (b : Block) (res : Result Command)
    → AllOk (λ (d : Command). SameWords b d.block) res
    → Holds w int v b
    → AllOk (Holds w int v) (res >>= add_command)
command-Holds w int v b res keep h =
    AllOk-bind (λ (d : Command). SameWords b d.block) (Holds w int v) res add_command keep
      (λ d same.
        AllOk-weaken _ (Holds w int v) (add_command d) (add_command-SameValues d) (λ a kept. (
          ap (elem (word_bit w)) (kept.1 ∙ same.value_words) ∙ h.0,
          subst (Stored w int v) (sym (kept.0 ∙ same.values)) h.1,
        )))

pub word-Holds :
    (w : Letter) (int : ℕ) (v : Decimal) (c : Conversions) (letter : ℕ) (d : Decimal) (b : Block)
    → Holds w int v b
    → AllOk (Holds w int v) (word c letter d b)
unfolding word
word-Holds w int v c letter d b h =
    if_ind (AllOk (Holds w int v)) (letter == b'G')
      (command-Holds w int v b (g_command (int_value c d) (mantissa c d) b)
        (g_command-SameWords (int_value c d) (mantissa c d) b) h)
      (if_ind (AllOk (Holds w int v)) (letter == b'M')
        (command-Holds w int v b (m_command (int_value c d) (mantissa c d) b)
          (m_command-SameWords (int_value c d) (mantissa c d) b) h)
        (value_word-Holds w (letter_of letter) int (int_value c d) v d b h))

-- A word stores its value.
pub word-stores :
    (w : Letter) (v : Decimal) (c : Conversions) (letter : ℕ) (b : Block)
    → letter_of letter ≡ some w
    → AllOk (Holds w (int_value c v) v) (word c letter v b)
unfolding word letter_of
word-stores w v c letter b e =
    if_cases (AllOk (Holds w (int_value c v) v)) (letter == b'G')
      (λ g. absurd (no_value b'G' g refl))
      (λ _.
        if_cases (AllOk (Holds w (int_value c v) v)) (letter == b'M')
          (λ m. absurd (no_value b'M' m refl))
          (λ _.
            subst (λ u. AllOk (Holds w (int_value c v) v) (value_word u (int_value c v) v b))
              (sym e) (store_word w v (int_value c v) b)))
  where
    no_value : (g : ℕ) → (letter == g) ≡ true → letter_of g ≡ none → ⊥
    no_value g same none_there =
        let clash : none ≡ some w =
          sym none_there ∙ (ap letter_of (sym ((==_iff letter g).0 same)) ∙ e) in
        cc
