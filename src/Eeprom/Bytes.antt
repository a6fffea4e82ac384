-- ===== src/Eeprom/Bytes.antt =====
-- Writing one byte, by the programming mode that `eeprom_put_char` of eeprom.c chooses.
use Prim.Native.Nat.{bit_and, bit_xor}
use g_carvin.Base.{ℕ, ◌+◌, ◌≡◌, refl, sym, ap, ◌∙◌, arith, ◌==◌, ==_iff, not, false, if_cases}
use g_carvin.Base.Bits.{bit_and-no_new, bit_xor-zero}
use g_carvin.Eeprom.{Mode, erase_write, erase_only, write_only, Memory, update, eeprom_put_char}

-- What the data sheet says of the programming modes: an erase sets every bit, and a write without
-- an erase can only clear bits.
pub record Programs (program : Mode → ℕ → ℕ → ℕ) : Type 0 where
  pub both : (old new : ℕ) → program erase_write old new ≡ new
  pub erase : (old new : ℕ) → program erase_only old new ≡ 255
  pub write : (old new : ℕ) → program write_only old new ≡ bit_and old new

not_ne : (x y : ℕ) → not (x == y) ≡ false → x ≡ y
not_ne x y e = ground arith

update_same : (addr v : ℕ) (mem : Memory) → mem addr ≡ v → (a : ℕ) → mem a ≡ update addr v mem a
update_same addr v mem e a =
    if_cases (λ x. mem a ≡ x) (a == addr) (λ same. ap mem ((==_iff a addr).0 same) ∙ e)
      (λ other. refl)

module _ (program : Mode → ℕ → ℕ → ℕ) (laws : Programs program) (addr new_value : ℕ)
    (mem : Memory) where
  no_new_bits :
      not (bit_and (bit_xor (mem addr) new_value) new_value == 0) ≡ false
      → bit_and (mem addr) new_value ≡ new_value
  no_new_bits e =
      bit_and-no_new (mem addr + new_value) (mem addr) new_value (omega arith) (not_ne _ 0 e)

  no_difference : not (bit_xor (mem addr) new_value == 0) ≡ false → mem addr ≡ new_value
  no_difference e =
      bit_xor-zero (mem addr + new_value) (mem addr) new_value (omega arith) (not_ne _ 0 e)

  -- Whichever mode is chosen, the new byte then stands at the address and no other address
  -- changes, when the modes program the byte as the data sheet says.
  pub eeprom_put_char_lem :
      (a : ℕ) → eeprom_put_char program addr new_value mem a ≡ update addr new_value mem a
  unfolding eeprom_put_char
  eeprom_put_char_lem a =
      let Holds = λ (after : Memory). after a ≡ update addr new_value mem a in
      let stored = λ (v : ℕ) (e : v ≡ new_value). ap (λ v. update addr v mem a) e in
      if_cases Holds (not (bit_and (bit_xor (mem addr) new_value) new_value == 0))
        (λ new_bits.
          if_cases Holds (not (new_value == 255))
            (λ partly. stored _ (laws.both (mem addr) new_value))
            (λ all. stored _ (laws.erase (mem addr) (mem addr) ∙ sym (not_ne new_value 255 all))))
        (λ none_new.
          if_cases Holds (not (bit_xor (mem addr) new_value == 0))
            (λ fewer. stored _ (laws.write (mem addr) new_value ∙ no_new_bits none_new))
            (λ same. update_same addr new_value mem (no_difference same) a))
