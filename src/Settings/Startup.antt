-- ===== src/Settings/Startup.antt =====
-- The startup lines and the build info that settings.c keeps in the EEPROM.
use mathlib.Core.Path.{subst}
use g_carvin.Base.{
  ℕ, zero, suc, ◌+◌, ◌≤◌, ◌<◌, ◌≡◌, ◌≢◌, ◌⊎◌, inl, inr, ap, ◌∙◌, arith, Bool, true, List, [], ◌∷◌,
  length, set, get_or, Bool-cases, ltb, ltb→lt, false, if◌then◌else◌,
}
use g_carvin.Eeprom.{
  Mode, Memory, next_address, add_to_checksum, eeprom_put_char, copy_out,
  memcpy_to_eeprom_with_checksum, memcpy_from_eeprom_with_checksum,
}
use g_carvin.Eeprom.Bytes.{Programs}
use g_carvin.Eeprom.Blocks.{
  next_address-suc, put_self, copy_out-below, memcpy_with_checksum_round_trip,
}
use g_carvin.Eeprom.Frames.{memcpy_beside}
use g_carvin.Settings.Memory.{
  LineReading, settings_size, addr_global, addr_build_info, line_buffer_size, startup_addr,
  settings_store_startup_line, settings_read_startup_line,
}

not_before : (m n : ℕ) → ltb m n ≡ false → n ≤ m
not_before m n h = ground arith

abbrev line_read : List ℕ → Memory → LineReading
line_read line mem = record { success = true; line = line; memory = mem }

module _ (program : Mode → ℕ → ℕ → ℕ) (laws : Programs program) where
  -- Any line of the buffer's size that is stored under a number is read back from it, and the read
  -- writes nothing.
  read-store_startup_line :
      (n : ℕ) (line : List ℕ) (mem : Memory)
      → n < 256
      → length line ≡ line_buffer_size
      → settings_read_startup_line program n (settings_store_startup_line program n line mem)
        ≡ record {
          success = true;
          line = line;
          memory = settings_store_startup_line program n line mem;
        }
  unfolding settings_read_startup_line settings_store_startup_line
  read-store_startup_line n line mem small size =
      ap
        (λ (block : List ℕ × Bool).
          if block.1
          then line_read block.0 (settings_store_startup_line program n line mem)
          else record {
            success = false;
            line = set block.0 0 0;
            memory =
                settings_store_startup_line program n (set block.0 0 0)
                  (settings_store_startup_line program n line mem);
          })
        (subst
          (λ k.
            memcpy_from_eeprom_with_checksum (startup_addr program n) k
              (settings_store_startup_line program n line mem)
            ≡ (line, true))
          size
          (memcpy_with_checksum_round_trip program laws line (startup_addr program n) mem
            (omega (arith, size))))

  -- Storing one of the two startup lines changes no read of the other one, of the build info or of
  -- the settings.
  pub store_startup_line_beside :
      (n m : ℕ) (line : List ℕ) (mem : Memory)
      → n < 2
      → m < 2
      → n ≢ m
      → length line ≡ line_buffer_size
      → (memcpy_from_eeprom_with_checksum
            (startup_addr program m)
            line_buffer_size
            (settings_store_startup_line program n line mem)
          ≡ memcpy_from_eeprom_with_checksum (startup_addr program m) line_buffer_size mem)
        × (memcpy_from_eeprom_with_checksum addr_build_info line_buffer_size
              (settings_store_startup_line program n line mem)
            ≡ memcpy_from_eeprom_with_checksum addr_build_info line_buffer_size mem)
        × (memcpy_from_eeprom_with_checksum addr_global settings_size
              (settings_store_startup_line program n line mem)
            ≡ memcpy_from_eeprom_with_checksum addr_global settings_size mem)
  unfolding settings_store_startup_line
  store_startup_line_beside n m line mem hn hm ne size = (
    beside (startup_addr program m) line_buffer_size (omega arith) apart,
    beside addr_build_info line_buffer_size (omega arith) (inr (omega (arith, size))),
    beside addr_global settings_size (omega arith) (inl (omega (arith, size))),
  )
    where
      apart :
          (startup_addr program m + line_buffer_size < startup_addr program n)
          ⊎ (startup_addr program n + length line < startup_addr program m)
      apart = elim (Bool-cases (ltb m n)) [
        | inl before ↦ inl (omega (arith, ltb→lt m n before))
        | inr behind ↦ inr (omega (arith, size, not_before m n behind))
      ]

      beside :
          (a k : ℕ)
          → a + k < 65536
          → (a + k < startup_addr program n) ⊎ (startup_addr program n + length line < a)
          → memcpy_from_eeprom_with_checksum a k
              (memcpy_to_eeprom_with_checksum program (startup_addr program n) line mem)
            ≡ memcpy_from_eeprom_with_checksum a k mem
      beside a k fits apart =
          memcpy_beside program laws line (startup_addr program n) a k mem (omega (arith, size))
            fits apart

  -- The byte at a place of a block that was written.
  copy_out-at :
      (xs : List ℕ) (d c i : ℕ) (mem : Memory)
      → i < length xs
      → d + length xs < 65536
      → copy_out program d c xs mem (d + i) ≡ get_or xs i 0
  unfolding copy_out
  copy_out-at [] d c i mem h fits = absurd (omega arith)
  copy_out-at (x ∷ xs) d c zero mem h fits =
      let next = next_address-suc d (omega arith) in
      ap
        (copy_out program (next_address d) (add_to_checksum c x) xs
          (eeprom_put_char program d x mem))
        {x = d + 0} {y = d} (omega arith)
      ∙ (copy_out-below program laws xs d (next_address d) (add_to_checksum c x) _
            (omega (arith, next)) (omega (arith, next))
          ∙ put_self program laws d x mem)
  copy_out-at (x ∷ xs) d c (suc i) mem h fits =
      let next = next_address-suc d (omega arith) in
      ap
        (copy_out program (next_address d) (add_to_checksum c x) xs
          (eeprom_put_char program d x mem))
        {x = d + suc i} {y = next_address d + i} (omega (arith, next))
      ∙ copy_out-at xs (next_address d) (add_to_checksum c x) i _ (omega arith)
          (omega (arith, next))

  -- A third startup line is written over the build info: the first byte of
  -- the build info becomes the thirteenth of the line.
  pub third_startup_line_overlaps :
      (line : List ℕ) (mem : Memory)
      → length line ≡ line_buffer_size
      → settings_store_startup_line program 2 line mem addr_build_info ≡ get_or line 12 0
  unfolding settings_store_startup_line memcpy_to_eeprom_with_checksum
  third_startup_line_overlaps line mem size =
      copy_out-at line (startup_addr program 2) 0 12 mem (omega (arith, size)) (omega (arith, size))
