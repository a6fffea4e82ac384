-- ===== src/Eeprom.antt =====
-- eeprom.c: byte reads and writes, and the block copies with and without a checksum.
pub mod Bytes
pub mod Blocks
pub mod Frames
mod Tests
use Prim.Native.Nat.{bit_and, bit_xor}
use g_carvin.Base.{
  ℕ, zero, suc, ◌+◌, ◌*◌, ◌/◌, ◌%◌, ◌^◌, Bool, not, ◌||◌, List, [], ◌∷◌, ◌==◌, if◌then◌else◌,
}

-- What stands at each address.
abbrev pub Memory : Type 0
Memory = ℕ → ℕ

abbrev pub update : ℕ → ℕ → Memory → Memory
update addr v mem a = if a == addr then v else mem a

-- The programming modes that EEPM1 and EEPM0 of EECR select.
pub data Mode : Type 0 where
  erase_write : Mode
  erase_only : Mode
  write_only : Mode

-- `destination++` on an `unsigned int`.
unfoldable pub next_address : ℕ → ℕ
next_address a = (a + 1) % 2 ^ 16

unfoldable pub eeprom_get_char : ℕ → Memory → ℕ
eeprom_get_char addr mem = mem addr

-- One round of `checksum = (checksum << 1) || (checksum >> 7); checksum += data;`: the operator is
-- the logical or, so the first assignment leaves 0 or 1.
unfoldable pub add_to_checksum : ℕ → ℕ → ℕ
add_to_checksum checksum byte =
    ((if not (checksum * 2 == 0) || not (checksum / 2 ^ 7 == 0) then 1 else 0) + byte) % 2 ^ 8

-- The byte that the memory holds after an operation in a mode, from the byte that it held and the
-- data register: the hardware's part.
module _ (program : Mode → ℕ → ℕ → ℕ) where
  unfoldable pub eeprom_put_char : ℕ → ℕ → Memory → Memory
  eeprom_put_char addr new_value mem =
      let old_value = mem addr in
      let diff_mask = bit_xor old_value new_value in
      if not (bit_and diff_mask new_value == 0)
      then (if not (new_value == 255)
          then update addr (program erase_write old_value new_value) mem
          else update addr (program erase_only old_value old_value) mem)
      else if not (diff_mask == 0)
      then update addr (program write_only old_value new_value) mem
      else mem

  unfoldable pub copy_out : ℕ → ℕ → List ℕ → Memory → Memory
  copy_out destination checksum [] mem = eeprom_put_char destination checksum mem
  copy_out destination checksum (byte ∷ source) mem =
      copy_out (next_address destination) (add_to_checksum checksum byte) source
        (eeprom_put_char destination byte mem)

  unfoldable pub memcpy_to_eeprom_with_checksum : ℕ → List ℕ → Memory → Memory
  memcpy_to_eeprom_with_checksum destination source mem = copy_out destination 0 source mem

  unfoldable pub memcpy_to_eeprom_no_checksum : ℕ → List ℕ → Memory → Memory
  memcpy_to_eeprom_no_checksum destination [] mem = mem
  memcpy_to_eeprom_no_checksum destination (byte ∷ source) mem =
      memcpy_to_eeprom_no_checksum (next_address destination) source
        (eeprom_put_char destination byte mem)

-- The bytes read, and whether the checksum that follows them is theirs.
unfoldable pub copy_in : ℕ → ℕ → ℕ → Memory → List ℕ × Bool
copy_in source checksum zero mem = ([], checksum == eeprom_get_char source mem)
copy_in source checksum (suc size) mem =
    let data_byte = eeprom_get_char source mem in
    let rest = copy_in (next_address source) (add_to_checksum checksum data_byte) size mem in
    (data_byte ∷ rest.0, rest.1)

unfoldable pub memcpy_from_eeprom_with_checksum : ℕ → ℕ → Memory → List ℕ × Bool
memcpy_from_eeprom_with_checksum source size mem = copy_in source 0 size mem

unfoldable pub memcpy_from_eeprom_no_checksum : ℕ → ℕ → Memory → List ℕ
memcpy_from_eeprom_no_checksum source zero mem = []
memcpy_from_eeprom_no_checksum source (suc size) mem =
    eeprom_get_char source mem ∷ memcpy_from_eeprom_no_checksum (next_address source) size mem
