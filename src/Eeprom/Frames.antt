-- ===== src/Eeprom/Frames.antt =====
-- What a block that is written to the EEPROM by eeprom.c leaves alone, and what a read depends on.
use mathlib.Core.Path.{ap₂}
use g_carvin.Base.{
  ℕ, zero, suc, ◌+◌, ◌≤◌, ◌<◌, ◌≡◌, ◌⊎◌, inl, inr, ap, ◌∙◌, arith, Bool, List, [], ◌∷◌, length,
  ◌==◌, if_false, false,
}
use g_carvin.Eeprom.{
  Mode, Memory, next_address, eeprom_get_char, add_to_checksum, eeprom_put_char, copy_out,
  memcpy_to_eeprom_with_checksum, copy_in, memcpy_from_eeprom_with_checksum,
}
use g_carvin.Eeprom.Bytes.{Programs, eeprom_put_char_lem}
use g_carvin.Eeprom.Blocks.{next_address-suc, copy_out-below}

-- A read of `n` bytes and their checksum depends on nothing else.
pub copy_in-agree :
    (n a c : ℕ) (mem after : Memory)
    → a + n < 65536
    → ((i : ℕ) → a ≤ i → i ≤ a + n → after i ≡ mem i)
    → copy_in a c n after ≡ copy_in a c n mem
unfolding copy_in eeprom_get_char
copy_in-agree zero a c mem after fits same =
    ap (λ k. ([], c == k)) (same a (omega arith) (omega arith))
copy_in-agree (suc n) a c mem after fits same =
    let next = next_address-suc a (omega arith) in
    ap₂ (λ (v : ℕ) (r : List ℕ × Bool). (v ∷ r.0, r.1)) (same a (omega arith) (omega arith))
      (ap (λ v. copy_in (next_address a) (add_to_checksum c v) n after)
          (same a (omega arith) (omega arith))
        ∙ copy_in-agree n (next_address a) (add_to_checksum c (mem a)) mem after
            (omega (arith, next)) (λ i lo hi. same i (omega (arith, next)) (omega (arith, next))))

module _ (program : Mode → ℕ → ℕ → ℕ) (laws : Programs program) where
  put_other :
      (a d v : ℕ) (mem : Memory) → (a == d) ≡ false → eeprom_put_char program d v mem a ≡ mem a
  put_other a d v mem ne = eeprom_put_char_lem program laws d v mem a ∙ if_false v (mem a) ne

  -- Nothing above the checksum changes.
  copy_out-above :
      (xs : List ℕ) (a d c : ℕ) (mem : Memory)
      → d + length xs < a
      → d + length xs < 65536
      → copy_out program d c xs mem a ≡ mem a
  unfolding copy_out
  copy_out-above [] a d c mem h fits = put_other a d c mem (ground arith)
  copy_out-above (x ∷ xs) a d c mem h fits =
      let next = next_address-suc d (omega arith) in
      copy_out-above xs a (next_address d) (add_to_checksum c x) _ (omega (arith, next))
        (omega (arith, next))
      ∙ put_other a d x mem (ground arith)

  -- A block is still read as before after another one was written beside it.
  pub memcpy_beside :
      (source : List ℕ) (destination a n : ℕ) (mem : Memory)
      → destination + length source < 65536
      → a + n < 65536
      → (a + n < destination) ⊎ (destination + length source < a)
      → memcpy_from_eeprom_with_checksum a n
          (memcpy_to_eeprom_with_checksum program destination source mem)
        ≡ memcpy_from_eeprom_with_checksum a n mem
  unfolding memcpy_from_eeprom_with_checksum memcpy_to_eeprom_with_checksum
  memcpy_beside source destination a n mem fits fits' (inl below) =
      copy_in-agree n a 0 mem _ fits'
        (λ i lo hi. copy_out-below program laws source i destination 0 mem (omega arith) fits)
  memcpy_beside source destination a n mem fits fits' (inr above) =
      copy_in-agree n a 0 mem _ fits'
        (λ i lo hi. copy_out-above source i destination 0 mem (omega arith) fits)
