-- ===== src/Settings/Kept.antt =====
-- `settings_restore` of settings.c writes nothing to the lower half of the EEPROM but the settings.
use g_carvin.Base.{
  ℕ, zero, suc, ◌+◌, ◌≤◌, ◌<◌, ◌≡◌, refl, ◌∙◌, arith, List, [], ◌∷◌, length, if◌then◌else◌, if_ind,
  if_false,
}
use g_carvin.Eeprom.{
  Mode, Memory, next_address, eeprom_put_char, memcpy_to_eeprom_with_checksum,
  memcpy_to_eeprom_no_checksum,
}
use g_carvin.Eeprom.Bytes.{Programs, eeprom_put_char_lem}
use g_carvin.Eeprom.Blocks.{next_address-suc, copy_out-below}
use g_carvin.Settings.Memory.{addr_startup_block, addr_build_info}
use g_carvin.Settings.Restore.{
  RestoreFlags, Constants, zero_coords, coord_addr, ps_offset, ps_settings_header,
  settings_write_coord_data, clear_coords, set_eeprom_header_and_revision, set_eeprom_storage_size,
  write_ps_settings_to_eeprom, ps_settings_restore, restore_parameters, restore_startup_lines,
  restore_build_info, restore_others,
}

-- The lower half of the EEPROM, where the settings are, is as before.
abbrev pub KeepsLow : Memory → Memory → Type 0
KeepsLow mem after = (i : ℕ) → i < 512 → after i ≡ mem i

module _ (program : Mode → ℕ → ℕ → ℕ) (laws : Programs program) where
  put-KeepsLow :
      (a v : ℕ) (mem after : Memory)
      → 512 ≤ a
      → KeepsLow mem after
      → KeepsLow mem (eeprom_put_char program a v after)
  put-KeepsLow a v mem after high h i hi =
      eeprom_put_char_lem program laws a v after i ∙ if_false v (after i) (ground arith) ∙ h i hi

  block-KeepsLow :
      (a : ℕ) (block : List ℕ) (mem after : Memory)
      → 512 ≤ a
      → a + length block < 65536
      → KeepsLow mem after
      → KeepsLow mem (memcpy_to_eeprom_with_checksum program a block after)
  unfolding memcpy_to_eeprom_with_checksum
  block-KeepsLow a block mem after high fits h i hi =
      copy_out-below program laws block i a 0 after (omega arith) fits ∙ h i hi

  header-KeepsLow :
      (block : List ℕ) (a : ℕ) (mem after : Memory)
      → 512 ≤ a
      → a + length block < 65536
      → KeepsLow mem after
      → KeepsLow mem (memcpy_to_eeprom_no_checksum program a block after)
  unfolding memcpy_to_eeprom_no_checksum
  header-KeepsLow [] a mem after high fits h = h
  header-KeepsLow (byte ∷ block) a mem after high fits h =
      let next = next_address-suc a (omega arith) in
      header-KeepsLow block (next_address a) mem (eeprom_put_char program a byte after)
        (omega (arith, next)) (omega (arith, next)) (put-KeepsLow a byte mem after high h)

  clear_coords-KeepsLow :
      (left idx : ℕ) (mem after : Memory)
      → left + idx < 256
      → KeepsLow mem after
      → KeepsLow mem (clear_coords program left idx after)
  unfolding clear_coords settings_write_coord_data
  clear_coords-KeepsLow zero idx mem after fits h = h
  clear_coords-KeepsLow (suc left) idx mem after fits h =
      clear_coords-KeepsLow left (idx + 1) mem _ (omega arith) (
        block-KeepsLow (coord_addr program idx) zero_coords mem after (omega arith) (omega arith) h)

  ps_data-KeepsLow :
      (bytes : List ℕ) (mem after : Memory)
      → length bytes < 256
      → KeepsLow mem after
      → KeepsLow mem (write_ps_settings_to_eeprom program bytes after)
  unfolding write_ps_settings_to_eeprom
  ps_data-KeepsLow [] mem after fits h = h
  ps_data-KeepsLow (byte ∷ bytes) mem after fits h =
      block-KeepsLow (ps_offset + 32) (byte ∷ bytes) mem after (omega arith) (omega arith) h

  pub ps_settings_restore-KeepsLow :
      (parameters : List ℕ) (mem after : Memory)
      → length parameters < 256
      → KeepsLow mem after
      → KeepsLow mem (ps_settings_restore program parameters after)
  unfolding ps_settings_restore set_eeprom_storage_size set_eeprom_header_and_revision
  ps_settings_restore-KeepsLow parameters mem after few h = ps_data-KeepsLow parameters mem _ few (
      put-KeepsLow (ps_offset + 31) (length parameters) mem _ (omega arith) (
        put-KeepsLow (ps_offset + 30) 1 mem _ (omega arith)
          (header-KeepsLow ps_settings_header ps_offset mem after (omega arith) (omega arith) h)))

  restore_parameters-KeepsLow :
      (c : Constants) (mem : Memory) → KeepsLow mem (restore_parameters program c mem)
  unfolding restore_parameters settings_write_coord_data
  restore_parameters-KeepsLow c mem =
      block-KeepsLow (coord_addr program 7) c.g30 mem _ (omega arith) (omega (arith, c.length_g30))
        (block-KeepsLow (coord_addr program 6) c.g28 mem _ (omega arith)
          (omega (arith, c.length_g28))
          (clear_coords-KeepsLow 8 0 mem mem (omega arith) (λ i hi. refl)))

  restore_lines-KeepsLow :
      (mem after : Memory) → KeepsLow mem after → KeepsLow mem (restore_startup_lines program after)
  unfolding restore_startup_lines
  restore_lines-KeepsLow mem after h =
      put-KeepsLow (addr_startup_block + 82) 0 mem _ (omega arith) (
        put-KeepsLow (addr_startup_block + 81) 0 mem _ (omega arith) (
          put-KeepsLow (addr_startup_block + 1) 0 mem _ (omega arith)
            (put-KeepsLow addr_startup_block 0 mem after (omega arith) h)))

  restore_info-KeepsLow :
      (mem after : Memory) → KeepsLow mem after → KeepsLow mem (restore_build_info program after)
  unfolding restore_build_info
  restore_info-KeepsLow mem after h =
      put-KeepsLow (addr_build_info + 1) 0 mem _ (omega arith)
        (put-KeepsLow addr_build_info 0 mem after (omega arith) h)

  pub restore_others-KeepsLow :
      (c : Constants) (flags : RestoreFlags) (mem : Memory)
      → KeepsLow mem (restore_others program c flags mem)
  unfolding restore_others
  restore_others-KeepsLow c flags mem =
      if_ind (KeepsLow mem) flags.build_info (restore_info-KeepsLow mem lines below_lines)
        below_lines
    where
      coords : Memory
      coords = if flags.parameters then restore_parameters program c mem else mem

      lines : Memory
      lines = if flags.startup_lines then restore_startup_lines program coords else coords

      below_coords : KeepsLow mem coords
      below_coords =
          if_ind (KeepsLow mem) flags.parameters (restore_parameters-KeepsLow c mem) (λ i hi. refl)

      below_lines : KeepsLow mem lines
      below_lines =
          if_ind (KeepsLow mem) flags.startup_lines (restore_lines-KeepsLow mem coords below_coords)
            below_coords
