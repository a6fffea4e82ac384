-- ===== src/Gcode/Words.antt =====
-- The words of a line, one after the other, in gcode.c: the value words, the loop over the line and
-- the block that it starts from.
use g_carvin.Base.{
  ℕ, zero, suc, Bool, true, false, ◌&&◌, Option, none, some, List, [], ◌∷◌, length, drop, leb, ◌==◌,
  if◌then◌else◌,
}
use g_carvin.Base.Status.{Result, ok, fail, ◌>>=◌}
use g_carvin.NutsBolts.{Decimal, read_float}
use g_carvin.Gcode.{
  Modal, Values, Block, Conversions, elem, is_negative, whole, exceeds_tool, int_value, mantissa,
}
use g_carvin.Gcode.Commands.{g_command, m_command, add_command, unsupported_command}

abbrev pub expected_command_letter : ℕ
expected_command_letter = 1

abbrev pub bad_number_format : ℕ
bad_number_format = 2

abbrev pub negative_value : ℕ
negative_value = 4

abbrev pub word_repeated : ℕ
word_repeated = 25

abbrev pub max_value_exceeded : ℕ
max_value_exceeded = 38

-- The letters of the value words, in the order of WORD_F to WORD_Z.
pub data Letter : Type 0 where
  f i j k l n p r s t x y z : Letter

unfoldable pub letter_of : ℕ → Option Letter
letter_of c =
    if c == b'F'
    then some f
    else if c == b'I'
    then some i
    else if c == b'J'
    then some j
    else if c == b'K'
    then some k
    else if c == b'L'
    then some l
    else if c == b'N'
    then some n
    else if c == b'P'
    then some p
    else if c == b'R'
    then some r
    else if c == b'S'
    then some s
    else if c == b'T'
    then some t
    else if c == b'X'
    then some x
    else if c == b'Y'
    then some y
    else if c == b'Z'
    then some z
    else none

-- WORD_F to WORD_Z
abbrev pub word_bit : Letter → ℕ
word_bit f = 0
word_bit i = 1
word_bit j = 2
word_bit k = 3
word_bit l = 4
word_bit n = 5
word_bit p = 6
word_bit r = 7
word_bit s = 8
word_bit t = 9
word_bit x = 10
word_bit y = 11
word_bit z = 12

-- The words F, N, P, T and S, which cannot be negative.
abbrev pub never_negative : Letter → Bool
never_negative f = true
never_negative n = true
never_negative p = true
never_negative t = true
never_negative s = true
never_negative _ = false

abbrev pub set_values : (Values → Values) → Block → Block
set_values change b = record b { values = change b.values }

-- The value of the word is stored. `int` is `int_value`.
unfoldable pub store_value : Letter → ℕ → Decimal → Block → Result Block
store_value f int v b = ok (set_values (λ a. record a { f = v }) b)
store_value i int v b =
    ok (record (set_values (λ a. record a { i = v }) b) { ijk_words = 0 ∷ b.ijk_words })
store_value j int v b =
    ok (record (set_values (λ a. record a { j = v }) b) { ijk_words = 1 ∷ b.ijk_words })
store_value k int v b =
    ok (record (set_values (λ a. record a { k = v }) b) { ijk_words = 2 ∷ b.ijk_words })
store_value l int v b = ok (set_values (λ a. record a { l = int }) b)
store_value n int v b = ok (set_values (λ a. record a { n = whole v }) b)
store_value p int v b = ok (set_values (λ a. record a { p = v }) b)
store_value r int v b = ok (set_values (λ a. record a { r = v }) b)
store_value s int v b = ok (set_values (λ a. record a { s = v }) b)
store_value t int v b =
    if exceeds_tool v
    then fail max_value_exceeded
    else ok (set_values (λ a. record a { t = int }) b)
store_value x int v b =
    ok (record (set_values (λ a. record a { x = v }) b) { axis_words = 0 ∷ b.axis_words })
store_value y int v b =
    ok (record (set_values (λ a. record a { y = v }) b) { axis_words = 1 ∷ b.axis_words })
store_value z int v b =
    ok (record (set_values (λ a. record a { z = v }) b) { axis_words = 2 ∷ b.axis_words })

-- The checks behind the switch over the letters.
unfoldable pub add_value : Letter → Decimal → Block → Result Block
add_value w v b =
    if elem (word_bit w) b.value_words
    then fail word_repeated
    else if never_negative w && is_negative v
    then fail negative_value
    else ok (record b { value_words = word_bit w ∷ b.value_words })

unfoldable pub value_word : Option Letter → ℕ → Decimal → Block → Result Block
value_word none int v b = fail unsupported_command
value_word (some w) int v b = store_value w int v b >>= add_value w v

-- The switch over the letter of a word.
unfoldable pub word : Conversions → ℕ → Decimal → Block → Result Block
word c letter v b =
    if letter == b'G'
    then g_command (int_value c v) (mantissa c v) b >>= add_command
    else if letter == b'M'
    then m_command (int_value c v) (mantissa c v) b >>= add_command
    else value_word (letter_of letter) (int_value c v) v b

abbrev pub is_letter : ℕ → Bool
is_letter c = leb b'A' c && leb c b'Z'

-- What the rest of the loop does with the rest of the line and the block.
abbrev pub Next : Type 0
Next = List ℕ → Block → Option (Result Block)

unfoldable pub after_word : Next → List ℕ → Result Block → Option (Result Block)
after_word next rest (ok b) = next rest b
after_word next rest (fail status) = some (fail status)

unfoldable pub after_number :
    Conversions → Next → ℕ → Block → Option (Decimal × List ℕ) → Option (Result Block)
after_number c next letter b none = some (fail bad_number_format)
after_number c next letter b (some (v, rest)) = after_word next rest (word c letter v b)

-- The loop over the words of a line; `none` where the fuel is used up.
unfoldable pub read_words : Conversions → ℕ → List ℕ → Block → Option (Result Block)
read_words c zero line b = none
read_words c (suc fuel) [] b = some (ok b)
read_words c (suc fuel) (letter ∷ line) b =
    let behind = after_number c (read_words c fuel) letter b (read_float line) in
    if is_letter letter then behind else some (fail expected_command_letter)

-- The constants of a block that was zeroed: no command, no word, no value.
abbrev pub no_number : Decimal
no_number = record { negative = false; intval = 0; exp_up = 0; exp_down = 0 }

abbrev pub no_values : Values
no_values = record {
  f = no_number;
  i = no_number;
  j = no_number;
  k = no_number;
  l = 0;
  n = 0;
  p = no_number;
  r = no_number;
  s = no_number;
  t = 0;
  x = no_number;
  y = no_number;
  z = no_number;
}

-- The block that a line starts from: a jog line sets G1 and G94.
unfoldable pub new_block : Bool → Modal → Block
new_block jog modal = record {
  non_modal_command = 0;
  modal = if jog then record modal { motion = 1; feed_rate = 0 } else modal;
  values = no_values;
  axis_command = 0;
  axis_words = [];
  ijk_words = [];
  command_words = [];
  value_words = [];
}

abbrev pub is_jog : List ℕ → Bool
is_jog [] = false
is_jog (c ∷ cs) = c == b'$'

-- The words of a jog line start behind `$J=`. There is at most one word for each character.
unfoldable pub read_block : Conversions → Modal → List ℕ → Option (Result Block)
read_block c modal line =
    read_words c (suc (length line)) (if is_jog line then drop 3 line else line)
      (new_block (is_jog line) modal)
