-- ===== src/NutsBolts.antt =====
-- nuts_bolts.c: `read_float`, which reads the numbers of G-code words and of settings, up to its
-- conversion to a float.
pub mod Digits
mod Tests
use g_carvin.Base.{
  ℕ, suc, ◌+◌, ◌-◌, ◌*◌, ◌%◌, Bool, true, false, not, ◌&&◌, Option, none, some, List, [], ◌∷◌, leb,
  ◌==◌, if◌then◌else◌,
}

-- The number that a word stands for: `intval` times ten to the power `exp_up - exp_down`, of which
-- one at most is not zero. It is exact; the conversion to a float that the source goes on to is left
-- to those who use the number.
pub record Decimal : Type 0 where
  pub negative : Bool
  pub intval : ℕ
  pub exp_up : ℕ
  pub exp_down : ℕ

-- The variables of the digit loop; `exp` is `exp_up - exp_down`.
pub record Scan : Type 0 where
  pub intval : ℕ
  pub exp_up : ℕ
  pub exp_down : ℕ
  pub ndigit : ℕ
  pub isdecimal : Bool

-- MAX_INT_DIGITS
abbrev pub max_int_digits : ℕ
max_int_digits = 8

abbrev pub is_digit : ℕ → Bool
is_digit c = leb b'0' c && leb c b'9'

abbrev pub start : Scan
start = record { intval = 0; exp_up = 0; exp_down = 0; ndigit = 0; isdecimal = false }

-- A digit is taken in, or dropped behind the eighth one.
unfoldable pub scan_digit : ℕ → Scan → Scan
scan_digit d s =
    if leb (s.ndigit + 1) max_int_digits
    then record s {
      intval = s.intval * 10 + d;
      exp_down = if s.isdecimal then s.exp_down + 1 else s.exp_down;
      ndigit = s.ndigit + 1;
    }
    else record s { exp_up = if s.isdecimal then s.exp_up else s.exp_up + 1; ndigit = s.ndigit + 1 }

-- The digit loop: what it has read, and the line from the byte that ends the number on. The
-- terminating zero is the end of the list.
unfoldable pub scan : List ℕ → Scan → Scan × List ℕ
scan [] s = (s, [])
scan (c ∷ cs) s =
    let behind_digit = scan cs (scan_digit (c - 48) s) in
    let behind_point = scan cs (record s { isdecimal = true }) in
    if is_digit c
    then behind_digit
    else if c == b'.' && not s.isdecimal
    then behind_point
    else (s, c ∷ cs)

-- The number, before its conversion, is there if a digit was read.
unfoldable pub finish : Bool → Scan × List ℕ → Option (Decimal × List ℕ)
finish isnegative (s, rest) =
    if s.ndigit == 0
    then none
    else some (
      record { negative = isnegative; intval = s.intval; exp_up = s.exp_up; exp_down = s.exp_down },
      rest,
    )

-- `none` for the result false; otherwise the number, and the line from `char_counter` on.
unfoldable pub read_float : List ℕ → Option (Decimal × List ℕ)
read_float [] = none
read_float (c ∷ cs) =
    if c == b'-'
    then finish true (scan cs start)
    else if c == b'+'
    then finish false (scan cs start)
    else finish false (scan (c ∷ cs) start)
