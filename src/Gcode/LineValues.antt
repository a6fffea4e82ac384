-- ===== src/Gcode/LineValues.antt =====
-- Every value word of a line of gcode.c that is read is found in the block.
use g_carvin.Base.{
  ℕ, zero, suc, ◌≡◌, refl, Option, none, some, List, [], ◌∷◌, length, drop, if◌then◌else◌, if_ind,
}
use g_carvin.Base.Status.{Result, ok, fail, AllOk}
use g_carvin.NutsBolts.{Decimal, read_float}
use g_carvin.Gcode.{Modal, Block, Conversions, int_value}
use g_carvin.Gcode.Words.{
  Letter, letter_of, word, Next, after_word, after_number, is_letter, is_jog, read_words,
  read_block,
}
use g_carvin.Gcode.Reads.{AllRead, read_words-AllRead, read_block-ends, after_word-AllRead}
use g_carvin.Gcode.Keeps.{Stored, Holds, word-Holds, word-stores}

unfoldable pub words_behind :
    (List ℕ → List (ℕ × Decimal)) → ℕ → Option (Decimal × List ℕ) → List (ℕ × Decimal)
words_behind next letter none = []
words_behind next letter (some (v, rest)) = (letter, v) ∷ next rest

-- The words of a line: a letter and the number behind it, as long as there is one.
unfoldable pub words_of : ℕ → List ℕ → List (ℕ × Decimal)
words_of zero line = []
words_of (suc fuel) [] = []
words_of (suc fuel) (letter ∷ line) = words_behind (words_of fuel) letter (read_float line)

-- The block has the value of a word, if it is a value word.
abbrev pub StoredWord : Conversions → Option Letter → Decimal → Block → Type 0
StoredWord c none v b = Unit
StoredWord c (some w) v b = Stored w (int_value c v) v b.values

abbrev pub AllStored : Conversions → List (ℕ × Decimal) → Block → Type 0
AllStored c [] b = Unit
AllStored c ((letter, v) ∷ ws) b = StoredWord c (letter_of letter) v b × AllStored c ws b

both_read :
    (P Q : Block → Type 0) (o : Option (Result Block))
    → AllRead P o
    → AllRead Q o
    → AllRead (λ b. P b × Q b) o
both_read P Q none h g = tt
both_read P Q (some (ok b)) h g = (h, g)
both_read P Q (some (fail status)) h g = tt

AllRead-weaken :
    (P Q : Block → Type 0) (o : Option (Result Block))
    → ((b : Block) → P b → Q b)
    → AllRead P o
    → AllRead Q o
AllRead-weaken P Q none step h = tt
AllRead-weaken P Q (some (ok b)) step h = step b h
AllRead-weaken P Q (some (fail status)) step h = tt

AllRead-tt : (o : Option (Result Block)) → AllRead (λ b. Unit) o
AllRead-tt none = tt
AllRead-tt (some (ok b)) = tt
AllRead-tt (some (fail status)) = tt

module _ (c : Conversions) (fuel letter : ℕ) (v : Decimal) (b : Block) where
  -- The first word is still stored at the end of the line.
  first_word :
      (rest : List ℕ) (u : Option Letter)
      → letter_of letter ≡ u
      → AllRead (StoredWord c u v) (after_word (read_words c fuel) rest (word c letter v b))
  first_word rest none e = AllRead-tt _
  first_word rest (some w) e =
      AllRead-weaken (Holds w (int_value c v) v) _ _ (λ a h. h.1)
        (after_word-AllRead (Holds w (int_value c v) v) c (word-Holds w (int_value c v) v c)
          (read_words c fuel) rest (word c letter v b) (word-stores w v c letter b e)
          (read_words-AllRead (Holds w (int_value c v) v) c (word-Holds w (int_value c v) v c)
            fuel))

  later_words :
      (ws : List (ℕ × Decimal)) (next : Next) (rest : List ℕ) (res : Result Block)
      → ((a : Block) → AllRead (AllStored c ws) (next rest a))
      → AllRead (AllStored c ws) (after_word next rest res)
  unfolding after_word
  later_words ws next rest (ok a) h = h a
  later_words ws next rest (fail status) h = tt

behind_number :
    (c : Conversions) (fuel letter : ℕ) (b : Block) (o : Option (Decimal × List ℕ))
    → ((rest : List ℕ) (a : Block)
        → AllRead (AllStored c (words_of fuel rest)) (read_words c fuel rest a))
    → AllRead
        (AllStored c (words_behind (words_of fuel) letter o))
        (after_number c (read_words c fuel) letter b o)
unfolding after_number words_behind
behind_number c fuel letter b none h = tt
behind_number c fuel letter b (some (v, rest)) h =
    both_read (StoredWord c (letter_of letter) v) (AllStored c (words_of fuel rest)) _
      (first_word c fuel letter v b rest (letter_of letter) refl)
      (later_words c fuel letter v b (words_of fuel rest) (read_words c fuel) rest
        (word c letter v b) (h rest))

read_words-AllStored :
    (c : Conversions) (fuel : ℕ) (line : List ℕ) (b : Block)
    → AllRead (AllStored c (words_of fuel line)) (read_words c fuel line b)
unfolding read_words words_of
read_words-AllStored c zero line b = tt
read_words-AllStored c (suc fuel) [] b = tt
read_words-AllStored c (suc fuel) (letter ∷ line) b =
    if_ind (AllRead (AllStored c (words_of (suc fuel) (letter ∷ line)))) (is_letter letter)
      (behind_number c fuel letter b (read_float line) (read_words-AllStored c fuel)) tt

-- The part of a line that holds its words.
abbrev pub words_part : List ℕ → List ℕ
words_part line = if is_jog line then drop 3 line else line

-- Reading any line ends with a status code, or with a block in which every value word of the line
-- has left its number: none is lost or overwritten.
pub read_block-AllStored :
    (c : Conversions) (modal : Modal) (line : List ℕ)
    → (r : Result Block) × (read_block c modal line ≡ some r)
      × AllOk (AllStored c (words_of (suc (length line)) (words_part line))) r
unfolding read_block
read_block-AllStored c modal line =
    read_block-ends (AllStored c (words_of (suc (length line)) (words_part line))) c modal line
      (read_words-AllStored c _ _ _)
