-- ===== src/Gcode/Commands.antt =====
-- The 'G' and 'M' words of gcode.c: which command a number stands for, its modal group and the
-- conflicts of axis commands.
use g_carvin.Base.{ℕ, ◌+◌, ◌-◌, ◌/◌, ◌%◌, ◌&&◌, ◌||◌, [], ◌∷◌, leb, ◌==◌, if◌then◌else◌}
use g_carvin.Base.Status.{Result, ok, fail, ◌>>=◌}
use g_carvin.Gcode.{Modal, Block, elem}

abbrev pub unsupported_command : ℕ
unsupported_command = 20

abbrev pub modal_group_violation : ℕ
modal_group_violation = 21

abbrev pub command_value_not_integer : ℕ
command_value_not_integer = 23

abbrev pub axis_command_conflict : ℕ
axis_command_conflict = 24

-- `word_bit`, the mantissa that is left over, and the block.
pub record Command : Type 0 where
  pub word_bit : ℕ
  pub mantissa : ℕ
  pub block : Block

abbrev pub command : ℕ → ℕ → Block → Command
command w m b = record { word_bit = w; mantissa = m; block = b }

abbrev pub set_modal : (Modal → Modal) → Block → Block
set_modal change b = record b { modal = change b.modal }

-- `if (axis_command) { FAIL } axis_command = ...`
unfoldable pub claim_axis : ℕ → Block → Result Block
claim_axis by b =
    if b.axis_command == 0 then ok (record b { axis_command = by }) else fail axis_command_conflict

-- From `case 4: case 53:` on.
unfoldable pub non_modal : ℕ → ℕ → Block → Result Command
non_modal v m b =
    if elem v (28 ∷ 30 ∷ 92 ∷ [])
    then (if m == 0 || m == 10
        then ok (command 0 0 (record b { non_modal_command = (v + m) % 256 }))
        else fail unsupported_command)
    else ok (command 0 m (record b { non_modal_command = v }))

-- G10, G28, G30 and G92.
unfoldable pub non_modal_axis : ℕ → ℕ → Block → Result Command
non_modal_axis v m b = (if m == 0 then claim_axis 1 b else ok b) >>= non_modal v m

-- From `case 80:` on.
unfoldable pub motion_mode : ℕ → ℕ → Block → Result Command
motion_mode v m b =
    if v == 38
    then (if elem m (20 ∷ 30 ∷ 40 ∷ 50 ∷ [])
        then ok (command 1 0 (set_modal (λ a. record a { motion = (v + (m / 10 + 100)) % 256 }) b))
        else fail unsupported_command)
    else ok (command 1 m (set_modal (λ a. record a { motion = v }) b))

-- G0, G1, G2, G3 and G38.
unfoldable pub motion_axis : ℕ → ℕ → Block → Result Command
motion_axis v m b = claim_axis 2 b >>= motion_mode v m

-- G90, G91 and G91.1.
unfoldable pub distance_mode : ℕ → ℕ → Block → Result Command
distance_mode v m b =
    if m == 0
    then ok (command 3 m (set_modal (λ a. record a { distance = v - 90 }) b))
    else if m == 10 && v == 91
    then ok (command 4 0 b)
    else fail unsupported_command

-- G43.1 and G49.
unfoldable pub tool_length_mode : ℕ → ℕ → Block → Result Command
tool_length_mode v m b = claim_axis 3 b >>= λ c.
    if v == 49
    then ok (command 8 0 (set_modal (λ a. record a { tool_length = 0 }) c))
    else if m == 10
    then ok (command 8 0 (set_modal (λ a. record a { tool_length = 1 }) c))
    else fail unsupported_command

-- The cases from G93 on.
unfoldable pub g_setting : ℕ → ℕ → Block → Result Command
g_setting v m b =
    if leb 93 v && leb v 94
    then ok (command 5 m (set_modal (λ a. record a { feed_rate = 94 - v }) b))
    else if leb 20 v && leb v 21
    then ok (command 6 m (set_modal (λ a. record a { units = 21 - v }) b))
    else if v == 40
    then ok (command 7 m b)
    else if elem v (43 ∷ 49 ∷ [])
    then tool_length_mode v m b
    else if leb 54 v && leb v 59
    then ok (command 9 m (set_modal (λ a. record a { coord_select = v - 54 }) b))
    else if v == 61 && m == 0
    then ok (command 10 m b)
    else fail unsupported_command

unfoldable pub g_command : ℕ → ℕ → Block → Result Command
g_command v m b =
    if elem v (10 ∷ 28 ∷ 30 ∷ 92 ∷ [])
    then non_modal_axis v m b
    else if elem v (4 ∷ 53 ∷ [])
    then non_modal v m b
    else if elem v (0 ∷ 1 ∷ 2 ∷ 3 ∷ 38 ∷ [])
    then motion_axis v m b
    else if v == 80
    then motion_mode v m b
    else if leb 17 v && leb v 19
    then ok (command 2 m (set_modal (λ a. record a { plane_select = v - 17 }) b))
    else if leb 90 v && leb v 91
    then distance_mode v m b
    else g_setting v m b

-- The stopping commands M0, M1, M2 and M30.
unfoldable pub program_flow : ℕ → Modal → Modal
program_flow v a =
    if v == 0
    then record a { program_flow = 3 }
    else if v == 1
    then a
    else record a { program_flow = v }

-- SPINDLE_ENABLE_CW, SPINDLE_ENABLE_CCW and SPINDLE_DISABLE.
unfoldable pub spindle_mode : ℕ → ℕ
spindle_mode v = if v == 3 then 16 else if v == 4 then 32 else 0

unfoldable pub m_command : ℕ → ℕ → Block → Result Command
m_command v m b =
    if leb 1 m
    then fail command_value_not_integer
    else if elem v (0 ∷ 1 ∷ 2 ∷ 30 ∷ [])
    then ok (command 11 m (set_modal (program_flow v) b))
    else if leb 3 v && leb v 5
    then ok (command 12 m (set_modal (λ a. record a { spindle = spindle_mode v }) b))
    else if leb 8 v && leb v 9
    then ok (command 13 m (set_modal (λ a. record a { coolant = if v == 8 then 64 else 0 }) b))
    else fail unsupported_command

-- The checks behind both switches.
unfoldable pub add_command : Command → Result Block
add_command c =
    if leb 1 c.mantissa
    then fail command_value_not_integer
    else if elem c.word_bit c.block.command_words
    then fail modal_group_violation
    else ok (record (c.block) { command_words = c.word_bit ∷ c.block.command_words })
