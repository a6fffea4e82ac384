-- ===== src/Gcode/Tests.antt =====
-- A motion with a feed rate, a jog line, and lines that are refused.
use Prim.Native.String.{String}
use g_carvin.Base.{ℕ, ◌≡◌, refl, arith, [], ◌∷◌, some, Option}
use g_carvin.Base.Status.{Result, ok, fail, AllOk}
use g_carvin.NutsBolts.{read_float, scan, scan_digit, finish}
use g_carvin.Examples.{codes, to_zero, at_start}
use g_carvin.Gcode.{Block, is_negative, whole, exceeds_tool, fits_uint8, int_value, mantissa}
use g_carvin.Gcode.Commands.{
  claim_axis, non_modal, non_modal_axis, motion_mode, motion_axis, distance_mode, tool_length_mode,
  g_setting, g_command, program_flow, spindle_mode, m_command, add_command,
}
use g_carvin.Gcode.Words.{
  letter_of, store_value, add_value, value_word, word, after_word, after_number, read_words,
  new_block, read_block,
}
use g_carvin.Gcode.Modes.{IsModal}
use g_carvin.Gcode.LineValues.{AllStored, words_of, read_block-AllStored}

abbrev pub at_start-IsModal : IsModal at_start
at_start-IsModal = record {
  motion = refl;
  feed_rate = omega arith;
  units = omega arith;
  distance = omega arith;
  plane_select = omega arith;
  tool_length = omega arith;
  coord_select = omega arith;
  program_flow = refl;
  coolant = refl;
  spindle = refl;
}

-- The status of a line, with 0 for a block.
status_of : Option (Result Block) → ℕ
status_of Option.none = 255
status_of (some (ok b)) = 0
status_of (some (fail status)) = status

abbrev status : String → ℕ
status line = status_of (read_block to_zero at_start (codes line))

read_block-AllStored_example :
    (r : Result Block) × (read_block to_zero at_start (codes "$J=X10Y-2.5F300") ≡ some r)
    × AllOk (AllStored to_zero (words_of 16 (codes "X10Y-2.5F300"))) r
read_block-AllStored_example = read_block-AllStored to_zero at_start (codes "$J=X10Y-2.5F300")

refused_lines :
    status "G0G1" ∷ status "G17G18" ∷ status "X1X2" ∷ status "F-1" ∷ status "1X" ∷ status "X" ∷ []
    ≡ 24 ∷ 21 ∷ 25 ∷ 4 ∷ 1 ∷ 2 ∷ []
unfolding status_of read_block new_block read_words after_number after_word word value_word
    add_value store_value letter_of exceeds_tool is_negative whole fits_uint8 int_value mantissa
    g_command m_command add_command non_modal_axis non_modal motion_axis motion_mode claim_axis
    distance_mode g_setting tool_length_mode program_flow spindle_mode read_float scan scan_digit
    finish
refused_lines = refl

numbers :
    status "G0.5" ∷ status "G38" ∷ status "G91.1G1X2.5" ∷ status "T256" ∷ [] ≡ 23 ∷ 20 ∷ 0 ∷ 38 ∷ []
unfolding status_of read_block new_block read_words after_number after_word word value_word
    add_value store_value letter_of exceeds_tool is_negative whole fits_uint8 int_value mantissa
    g_command m_command add_command non_modal_axis non_modal motion_axis motion_mode claim_axis
    distance_mode g_setting tool_length_mode program_flow spindle_mode read_float scan scan_digit
    finish
numbers = refl
