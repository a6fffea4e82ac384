-- ===== src/Gcode.antt =====
-- `gc_execute_line` of gcode.c: a block is set up from the parser state, the words of the line are read
-- into it, it is checked, and it is executed. The modal values are the numbers of gcode.h.
pub mod Commands
pub mod Words
pub mod Modes
pub mod LineModes
pub mod Untouched
pub mod Keeps
mod LineValues
pub mod Reads
pub mod Real
pub mod State
pub mod Checks
pub mod Motions
pub mod Execute
pub mod Execution
pub mod Replay
mod Tracks
mod StateModes
mod Settles
mod Arcs
mod UsedWords
mod Feeds
mod Jogs
mod LineTests
mod Tests
use g_carvin.Base.{
  ℕ, ◌+◌, ◌-◌, ◌*◌, ◌/◌, ◌^◌, Bool, true, false, not, ◌&&◌, ◌||◌, List, [], ◌∷◌, ltb, ◌==◌,
  if◌then◌else◌,
}
use g_carvin.NutsBolts.{Decimal}

-- `gc_modal_t`
pub record Modal : Type 0 where
  pub motion : ℕ
  pub feed_rate : ℕ
  pub units : ℕ
  pub distance : ℕ
  pub plane_select : ℕ
  pub tool_length : ℕ
  pub coord_select : ℕ
  pub program_flow : ℕ
  pub coolant : ℕ
  pub spindle : ℕ

-- `gc_values_t`; `n` is the line number where it is not negative.
pub record Values : Type 0 where
  pub f : Decimal
  pub i : Decimal
  pub j : Decimal
  pub k : Decimal
  pub l : ℕ
  pub n : ℕ
  pub p : Decimal
  pub r : Decimal
  pub s : Decimal
  pub t : ℕ
  pub x : Decimal
  pub y : Decimal
  pub z : Decimal

-- `parser_block_t` and the tracking variables of `gc_execute_line`. A field of bits is the list of
-- the bits that are set.
pub record Block : Type 0 where
  pub non_modal_command : ℕ
  pub modal : Modal
  pub values : Values
  pub axis_command : ℕ
  pub axis_words : List ℕ
  pub ijk_words : List ℕ
  pub command_words : List ℕ
  pub value_words : List ℕ

-- `bit_istrue`
abbrev pub elem : ℕ → List ℕ → Bool
elem a [] = false
elem a (x ∷ xs) = a == x || elem a xs

abbrev pub pow10 : ℕ → ℕ
pow10 e = 10 ^ e

-- `value < 0.0`
unfoldable pub is_negative : Decimal → Bool
is_negative v = v.negative && not (v.intval == 0)

-- The whole part of a value, without its sign.
unfoldable pub whole : Decimal → ℕ
whole v = v.intval * pow10 v.exp_up / pow10 v.exp_down

-- `value > MAX_TOOL_NUMBER`
unfoldable pub exceeds_tool : Decimal → Bool
exceeds_tool v = not (is_negative v) && ltb (255 * pow10 v.exp_down) (v.intval * pow10 v.exp_up)

-- What a conversion of a float gives that the target type cannot hold: C does not say.
pub record Conversions : Type 0 where
  pub to_uint8 : Decimal → ℕ
  pub to_uint16 : Decimal → ℕ

-- The value lies from 0 up to 256.
unfoldable pub fits_uint8 : Decimal → Bool
fits_uint8 v = not (is_negative v) && ltb (whole v) 256

-- `trunc(value)`
unfoldable pub int_value : Conversions → Decimal → ℕ
int_value c v = if fits_uint8 v then whole v else c.to_uint8 v

-- `round(100*(value - int_value))`
unfoldable pub mantissa : Conversions → Decimal → ℕ
mantissa c v =
    if fits_uint8 v
    then (v.intval * pow10 v.exp_up * 200 + pow10 v.exp_down) / (2 * pow10 v.exp_down)
      - 100 * whole v
    else c.to_uint16 v
