-- ===== src/Eeprom/Tests.antt =====
-- The EEPROM theorems with a memory and modes that behave as the data sheet says.
use g_carvin.Base.{◌≡◌, refl, arith, [], ◌∷◌, true}
use g_carvin.Examples.{program, data_sheet, blank}
use g_carvin.Eeprom.{
  Memory, update, eeprom_put_char, memcpy_to_eeprom_with_checksum, memcpy_from_eeprom_with_checksum,
  add_to_checksum, next_address,
}
use g_carvin.Eeprom.Bytes.{eeprom_put_char_lem}
use g_carvin.Eeprom.Blocks.{
  memcpy_with_checksum_round_trip, checksum_misses, checksum_from, HoldsAt-cons, HoldsAt-nil,
}

eeprom_put_char_example : eeprom_put_char program 5 0x3c (update 5 0x7f blank) 5 ≡ 0x3c
eeprom_put_char_example = eeprom_put_char_lem program data_sheet 5 0x3c (update 5 0x7f blank) 5

memcpy_with_checksum_round_trip_example :
    memcpy_from_eeprom_with_checksum 512 3
      (memcpy_to_eeprom_with_checksum program 512 (10 ∷ 0 ∷ 255 ∷ []) blank)
    ≡ (10 ∷ 0 ∷ 255 ∷ [], true)
memcpy_with_checksum_round_trip_example =
    memcpy_with_checksum_round_trip program data_sheet (10 ∷ 0 ∷ 255 ∷ []) 512 blank (omega arith)

-- 9, 4, 7 with the checksum of 1, 7.
abbrev corrupted : Memory
corrupted = update 0 9 (update 1 4 (update 2 7 (update 3 8 blank)))

checksum_misses_example : memcpy_from_eeprom_with_checksum 0 3 corrupted ≡ (9 ∷ 4 ∷ 7 ∷ [], true)
unfolding checksum_from add_to_checksum next_address
checksum_misses_example =
    checksum_misses (1 ∷ []) (9 ∷ 4 ∷ []) 7 0 corrupted (omega arith) (omega arith) (
      HoldsAt-cons corrupted 0 9 (4 ∷ 7 ∷ 8 ∷ []) refl (
        HoldsAt-cons corrupted 1 4 (7 ∷ 8 ∷ []) refl (
          HoldsAt-cons corrupted 2 7 (8 ∷ []) refl
            (HoldsAt-cons corrupted 3 8 [] refl (HoldsAt-nil corrupted 4)))))
