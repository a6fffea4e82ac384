-- ===== src/Gcode/LineTests.antt =====
-- Whole lines of G-code on a machine whose floats are natural numbers.
use Prim.Native.String.{String}
use g_carvin.Base.{ℕ, ◌≡◌, refl, true, false, Option, none, some, List, [], ◌∷◌, ◌==◌}
use Prim.Native.String.{String}
use g_carvin.Base.Status.{Result, ok}
use g_carvin.NutsBolts.{read_float, scan, scan_digit, finish}
use g_carvin.Gcode.{Block, is_negative, whole, exceeds_tool, fits_uint8, int_value, mantissa}
use g_carvin.Gcode.Commands.{
  claim_axis, non_modal, non_modal_axis, motion_mode, motion_axis, distance_mode, tool_length_mode,
  g_setting, g_command, program_flow, spindle_mode, m_command, add_command,
}
use g_carvin.Gcode.Words.{
  letter_of, store_value, add_value, value_word, word, after_word, after_number, read_words,
  new_block, read_block,
}
use g_carvin.Gcode.Modes.{IsModal}
use g_carvin.Gcode.State.{Action, mc_line, start_jog}
use g_carvin.Gcode.Checks.{
  imply_motion, check_line_number, check_feed_rate, keep_spindle_speed, check_dwell, convert_units,
  check_tool_length, select_coord_system, target_of, set_target, check_other, check_non_modal,
}
use g_carvin.Gcode.Motions.{
  check_feed_motion, check_motion, check_unused, check_values, check_block,
}
use g_carvin.Gcode.Execution.{
  Outcome, refused, jog_execute, execute_jog, after_checks, after_reading, gc_execute_line,
}
use g_carvin.Gcode.Settles.{Follows, gc_execute_line-Follows}
use g_carvin.Gcode.StateModes.{gc_execute_line-IsModal}
use g_carvin.Gcode.UsedWords.{gc_execute_line-used}
use g_carvin.Gcode.Feeds.{AllFed, gc_execute_line-AllFed}
use g_carvin.Gcode.Jogs.{JogsOrRefused, gc_execute_line-JogsOrRefused}
use g_carvin.Gcode.Tests.{at_start-IsModal}
use g_carvin.Examples.{codes, to_zero, at_start, natural, origin, machine, started}

gc_execute_line-Follows_example :
    (o : Outcome ℕ) × (gc_execute_line natural machine (codes "G1X10F300M3S9") started ≡ some o)
    × Follows natural machine started o
gc_execute_line-Follows_example =
    gc_execute_line-Follows natural machine started (codes "G1X10F300M3S9")

gc_execute_line-IsModal_example :
    (o : Outcome ℕ) × (gc_execute_line natural machine (codes "G91G2X10Y3R5F300M8") started
      ≡ some o)
    × IsModal o.state.modal
gc_execute_line-IsModal_example =
    gc_execute_line-IsModal natural machine started at_start-IsModal (codes "G91G2X10Y3R5F300M8")

gc_execute_line-AllFed_example :
    (o : Outcome ℕ) × (gc_execute_line natural machine (codes "G1X10F300") started ≡ some o)
    × AllFed natural o.actions
gc_execute_line-AllFed_example =
    gc_execute_line-AllFed natural machine started (codes "G1X10F300") refl

-- The block of a line that is read.
abbrev block_or : Block → Option (Result Block) → Block
block_or other (some (ok b)) = b
block_or other _ = other

abbrev parsed : String → Block
parsed line = block_or (new_block false at_start) (read_block to_zero at_start (codes line))

stray_word : read_block to_zero at_start (codes "G1X10F300R5") ≡ some (ok (parsed "G1X10F300R5"))
unfolding read_block new_block read_words after_number after_word word value_word add_value
    store_value letter_of exceeds_tool is_negative whole fits_uint8 int_value mantissa g_command
    m_command add_command non_modal_axis non_modal motion_axis motion_mode claim_axis distance_mode
    g_setting tool_length_mode program_flow spindle_mode read_float scan scan_digit finish
stray_word = refl

jog_read : read_block to_zero at_start (codes "$J=X10F300") ≡ some (ok (parsed "$J=X10F300"))
unfolding read_block new_block read_words after_number after_word word value_word add_value
    store_value letter_of exceeds_tool is_negative whole fits_uint8 int_value mantissa g_command
    m_command add_command non_modal_axis non_modal motion_axis motion_mode claim_axis distance_mode
    g_setting tool_length_mode program_flow spindle_mode read_float scan scan_digit finish
jog_read = refl

gc_execute_line-used_example :
    (status : ℕ) × ((status == 0) ≡ false)
    × (gc_execute_line natural machine (codes "G1X10F300R5") started
        ≡ some (refused status started))
unfolding read_block new_block read_words after_number after_word word value_word add_value
    store_value letter_of exceeds_tool is_negative whole fits_uint8 int_value mantissa g_command
    m_command add_command non_modal_axis non_modal motion_axis motion_mode claim_axis distance_mode
    g_setting tool_length_mode program_flow spindle_mode read_float scan scan_digit finish
gc_execute_line-used_example =
    gc_execute_line-used natural machine started (codes "G1X10F300R5") (parsed "G1X10F300R5") 7
      stray_word refl refl

gc_execute_line-JogsOrRefused_example :
    (o : Outcome ℕ) × (gc_execute_line natural machine (codes "$J=X10F300") started ≡ some o)
    × JogsOrRefused natural machine started (parsed "$J=X10F300") o
gc_execute_line-JogsOrRefused_example =
    gc_execute_line-JogsOrRefused natural machine started (parsed "$J=X10F300") (codes "$J=X10F300")
      refl jog_read

end_of : Option (Outcome ℕ) → ℕ × List (Action ℕ)
end_of none = (255, [])
end_of (some o) = (o.status, o.actions)

abbrev run : String → ℕ × List (Action ℕ)
run line = end_of (gc_execute_line natural machine (codes line) started)

-- A change of units is refused in a jog, and G40 is not.
jog_statuses :
    (run "$J=G21X1F100").0 ∷ (run "$J=G40X1F100").0 ∷ (run "$J=G91X1F100").0 ∷ [] ≡ 16 ∷ 0 ∷ 0 ∷ []
unfolding end_of gc_execute_line after_reading after_checks execute_jog jog_execute check_block
    check_values check_line_number check_feed_rate keep_spindle_speed check_dwell convert_units
    check_tool_length select_coord_system check_non_modal check_other set_target target_of
    check_motion check_feed_motion check_unused imply_motion read_block new_block read_words
    after_number after_word word value_word add_value store_value letter_of exceeds_tool is_negative
    whole fits_uint8 int_value mantissa g_command m_command add_command non_modal_axis non_modal
    motion_axis motion_mode claim_axis distance_mode g_setting tool_length_mode program_flow
    spindle_mode read_float scan scan_digit finish
jog_statuses = refl

-- A jog without axis words goes to zero.
jog_to_zero : run "$J=F100" ≡ (
  0,
  mc_line origin (record {
    feed_rate = 100;
    spindle_speed = 0;
    condition = record {
      rapid_motion = false;
      no_feed_override = true;
      inverse_time = false;
      spindle = 0;
      coolant = 0;
    };
  })
      ∷ start_jog
      ∷ [],
)
unfolding end_of gc_execute_line after_reading after_checks execute_jog jog_execute check_block
    check_values check_line_number check_feed_rate keep_spindle_speed check_dwell convert_units
    check_tool_length select_coord_system check_non_modal check_other set_target target_of
    check_motion check_feed_motion check_unused imply_motion read_block new_block read_words
    after_number after_word word value_word add_value store_value letter_of exceeds_tool is_negative
    whole fits_uint8 int_value mantissa g_command m_command add_command non_modal_axis non_modal
    motion_axis motion_mode claim_axis distance_mode g_setting tool_length_mode program_flow
    spindle_mode read_float scan scan_digit finish
jog_to_zero = refl
