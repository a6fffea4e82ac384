-- ===== src/Gcode/Reads.antt =====
-- The loop of gcode.c over the words of a line ends, and keeps what each word keeps.
use mathlib.Core.Path.{subst}
use g_carvin.Base.{
  ℕ, zero, suc, ◌-◌, ◌≤◌, ◌<◌, ◌≡◌, refl, arith, Bool, true, false, not, ◌&&◌, Option, none, some,
  List, [], ◌∷◌, length, ◌==◌, if◌then◌else◌, if_ind, drop,
}
use g_carvin.Base.Status.{Result, ok, fail, AllOk}
use g_carvin.NutsBolts.{Decimal, Scan, start, is_digit, scan_digit, scan, finish, read_float}
use g_carvin.Gcode.{Modal, Block, Conversions}
use g_carvin.Gcode.Words.{
  Next, word, after_word, after_number, is_letter, read_words, new_block, is_jog, read_block,
}

-- No more of the line is left than there was.
scan-le : (cs : List ℕ) (s : Scan) → length (scan cs s).1 ≤ length cs
unfolding scan
scan-le [] s = omega arith
scan-le (c ∷ cs) s =
    if_ind (λ (r : Scan × List ℕ). length r.1 ≤ suc (length cs)) (is_digit c)
      (omega (arith, scan-le cs (scan_digit (c - 48) s)))
      (if_ind (λ (r : Scan × List ℕ). length r.1 ≤ suc (length cs)) (c == b'.' && not s.isdecimal)
        (omega (arith, scan-le cs (record s { isdecimal = true }))) (omega arith))

abbrev Shorter : ℕ → Option (Decimal × List ℕ) → Type 0
Shorter n none = Unit
Shorter n (some (v, rest)) = length rest ≤ n

finish-Shorter :
    (negative : Bool) (n : ℕ) (r : Scan × List ℕ) → length r.1 ≤ n → Shorter n (finish negative r)
unfolding finish
finish-Shorter negative n (s, rest) h = if_ind (Shorter n) (s.ndigit == 0) tt h

read_float-Shorter : (line : List ℕ) → Shorter (length line) (read_float line)
unfolding read_float
read_float-Shorter [] = tt
read_float-Shorter (c ∷ cs) =
    if_ind (Shorter (suc (length cs))) (c == b'-')
      (finish-Shorter true _ (scan cs start) (omega (arith, scan-le cs start)))
      (if_ind (Shorter (suc (length cs))) (c == b'+')
        (finish-Shorter false _ (scan cs start) (omega (arith, scan-le cs start)))
        (finish-Shorter false _ (scan (c ∷ cs) start) (scan-le (c ∷ cs) start)))

abbrev Some : Option (Result Block) → Type 0
Some o = (r : Result Block) × (o ≡ some r)

after_number-Some :
    (c : Conversions) (next : Next) (letter n : ℕ) (b : Block) (o : Option (Decimal × List ℕ))
    → Shorter n o
    → ((rest : List ℕ) (b' : Block) → length rest ≤ n → Some (next rest b'))
    → Some (after_number c next letter b o)
unfolding after_number after_word
after_number-Some c next letter n b none h step = (fail 2, refl)
after_number-Some c next letter n b (some (v, rest)) h step = go (word c letter v b)
  where
    go : (r : Result Block) → Some (after_word next rest r)
    go (ok b') = step rest b' h
    go (fail status) = (fail status, refl)

read_words-Some :
    (c : Conversions) (fuel : ℕ) (line : List ℕ) (b : Block)
    → length line < fuel
    → Some (read_words c fuel line b)
unfolding read_words
read_words-Some c zero line b h = absurd (omega arith)
read_words-Some c (suc fuel) [] b h = (ok b, refl)
read_words-Some c (suc fuel) (letter ∷ line) b h =
    if_ind Some (is_letter letter)
      (after_number-Some c (read_words c fuel) letter (length line) b (read_float line)
        (read_float-Shorter line) (λ rest b' le. read_words-Some c fuel rest b' (omega arith)))
      (fail 1, refl)

length-drop : (n : ℕ) (xs : List ℕ) → length (drop n xs) ≤ length xs
length-drop zero xs = omega arith
length-drop (suc n) [] = omega arith
length-drop (suc n) (x ∷ xs) = omega (arith, length-drop n xs)

words_part-lt :
    (line : List ℕ) → length (if is_jog line then drop 3 line else line) < suc (length line)
words_part-lt line =
    if_ind (λ l. length l < suc (length line)) (is_jog line) {x = drop 3 line} {y = line}
      (omega (arith, length-drop 3 line)) (omega arith)

-- Reading the words of any line, a jog line or not, ends with a block or a status code.
pub read_block-Some :
    (c : Conversions) (modal : Modal) (line : List ℕ)
    → (r : Result Block) × (read_block c modal line ≡ some r)
unfolding read_block
read_block-Some c modal line =
    read_words-Some c (suc (length line)) (if is_jog line then drop 3 line else line)
      (new_block (is_jog line) modal) (words_part-lt line)

-- A claim about the block, if there is one.
abbrev pub AllRead : (Block → Type 0) → Option (Result Block) → Type 0
AllRead P none = Unit
AllRead P (some r) = AllOk P r

-- What every word keeps, the line keeps.
module _ (P : Block → Type 0) (c : Conversions)
    (step : (letter : ℕ) (v : Decimal) (b : Block) → P b → AllOk P (word c letter v b)) where
  pub after_word-AllRead :
      (next : Next) (rest : List ℕ) (r : Result Block)
      → AllOk P r
      → ((rest : List ℕ) (b : Block) → P b → AllRead P (next rest b))
      → AllRead P (after_word next rest r)
  unfolding after_word
  after_word-AllRead next rest (ok b) h keep = keep rest b h
  after_word-AllRead next rest (fail status) h keep = tt

  after_number-AllRead :
      (next : Next) (letter : ℕ) (b : Block) (o : Option (Decimal × List ℕ))
      → P b
      → ((rest : List ℕ) (b : Block) → P b → AllRead P (next rest b))
      → AllRead P (after_number c next letter b o)
  unfolding after_number
  after_number-AllRead next letter b none h keep = tt
  after_number-AllRead next letter b (some (v, rest)) h keep =
      after_word-AllRead next rest (word c letter v b) (step letter v b h) keep

  pub read_words-AllRead :
      (fuel : ℕ) (line : List ℕ) (b : Block) → P b → AllRead P (read_words c fuel line b)
  unfolding read_words
  read_words-AllRead zero line b h = tt
  read_words-AllRead (suc fuel) [] b h = h
  read_words-AllRead (suc fuel) (letter ∷ line) b h =
      if_ind (AllRead P) (is_letter letter)
        (after_number-AllRead (read_words c fuel) letter b (read_float line) h
          (λ rest b' h'. read_words-AllRead fuel rest b' h'))
        tt

  pub read_block-AllRead :
      (modal : Modal) (line : List ℕ)
      → P (new_block (is_jog line) modal)
      → AllRead P (read_block c modal line)
  unfolding read_block
  read_block-AllRead modal line h = read_words-AllRead _ _ _ h

-- Reading ends, and what holds of the block if there is one holds of the result.
pub read_block-ends :
    (P : Block → Type 0) (c : Conversions) (modal : Modal) (line : List ℕ)
    → AllRead P (read_block c modal line)
    → (r : Result Block) × (read_block c modal line ≡ some r) × AllOk P r
read_block-ends P c modal line h =
    let ended = read_block-Some c modal line in (ended.0, ended.1, subst (AllRead P) ended.1 h)
