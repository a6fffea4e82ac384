-- ===== src/Gcode/LineModes.antt =====
-- The modal values that a whole line leaves in its block, in gcode.c.
use g_carvin.Base.{ℕ, ◌≡◌, refl, arith, ◌&&◌, Option, none, some, List, leb, ◌==◌, if_ind}
use g_carvin.Base.Status.{Result, AllOk, AllOk-bind}
use g_carvin.NutsBolts.{Decimal}
use g_carvin.Gcode.{Modal, Block, Conversions, elem, int_value, mantissa, is_negative, exceeds_tool}
use g_carvin.Gcode.Commands.{Command, g_command, m_command, add_command}
use g_carvin.Gcode.Words.{
  Letter, t, letter_of, store_value, add_value, value_word, word, word_bit, never_negative,
  new_block, is_jog, read_block,
}
use g_carvin.Gcode.Reads.{read_block-AllRead, read_block-ends}
use g_carvin.Gcode.Modes.{
  IsModal, set_motion-IsModal, set_feed_rate-IsModal, g_command-IsModal, m_command-IsModal,
}

abbrev HasModes : Block → Type 0
HasModes b = IsModal b.modal

add_command-HasModes : (d : Command) → HasModes d.block → AllOk HasModes (add_command d)
unfolding add_command
add_command-HasModes d h =
    if_ind (AllOk HasModes) (leb 1 d.mantissa) tt
      (if_ind (AllOk HasModes) (elem d.word_bit d.block.command_words) tt h)

store_value-HasModes :
    (w : Letter) (int : ℕ) (v : Decimal) (b : Block)
    → HasModes b
    → AllOk HasModes (store_value w int v b)
unfolding store_value
store_value-HasModes t int v b h = if_ind (AllOk HasModes) (exceeds_tool v) tt h
store_value-HasModes _ int v b h = h

add_value-HasModes :
    (w : Letter) (v : Decimal) (b : Block) → HasModes b → AllOk HasModes (add_value w v b)
unfolding add_value
add_value-HasModes w v b h =
    if_ind (AllOk HasModes) (elem (word_bit w) b.value_words) tt
      (if_ind (AllOk HasModes) (never_negative w && is_negative v) tt h)

value_word-HasModes :
    (w : Option Letter) (int : ℕ) (v : Decimal) (b : Block)
    → HasModes b
    → AllOk HasModes (value_word w int v b)
unfolding value_word
value_word-HasModes none int v b h = tt
value_word-HasModes (some w) int v b h =
    AllOk-bind HasModes HasModes (store_value w int v b) (add_value w v)
      (store_value-HasModes w int v b h) (λ a ha. add_value-HasModes w v a ha)

word-HasModes :
    (c : Conversions) (letter : ℕ) (v : Decimal) (b : Block)
    → HasModes b
    → AllOk HasModes (word c letter v b)
unfolding word
word-HasModes c letter v b h =
    if_ind (AllOk HasModes) (letter == b'G')
      (AllOk-bind (λ (d : Command). HasModes d.block) HasModes
        (g_command (int_value c v) (mantissa c v) b) add_command
        (g_command-IsModal (int_value c v) (mantissa c v) b h) add_command-HasModes)
      (if_ind (AllOk HasModes) (letter == b'M')
        (AllOk-bind (λ (d : Command). HasModes d.block) HasModes
          (m_command (int_value c v) (mantissa c v) b) add_command
          (m_command-IsModal (int_value c v) (mantissa c v) b h) add_command-HasModes)
        (value_word-HasModes (letter_of letter) (int_value c v) v b h))

-- From modal values that are constants of gcode.h, reading any line, a jog line or not and
-- whatever its numbers, ends with a status code or with a block whose modal values are such
-- constants again.
pub read_block-IsModal :
    (c : Conversions) (modal : Modal) (line : List ℕ)
    → IsModal modal
    → (r : Result Block) × (read_block c modal line ≡ some r) × AllOk (λ b. IsModal b.modal) r
unfolding new_block
read_block-IsModal c modal line h = read_block-ends HasModes c modal line (
    read_block-AllRead HasModes c (word-HasModes c) modal line (
      if_ind IsModal (is_jog line)
        (set_feed_rate-IsModal _ (set_motion-IsModal modal h 1 refl) 0 (omega arith)) h))
