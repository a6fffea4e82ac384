-- ===== src/Settings/Places.antt =====
-- The settings that settings.c writes are the settings that it reads.
use mathlib.Core.Path.{subst}
use g_carvin.Base.{ℕ, ◌≡◌, ap, ◌∙◌, arith, Bool, true, List}
use g_carvin.Eeprom.{
  Mode, Memory, eeprom_get_char, eeprom_put_char, memcpy_to_eeprom_with_checksum,
  memcpy_from_eeprom_with_checksum,
}
use g_carvin.Eeprom.Bytes.{Programs}
use g_carvin.Eeprom.Blocks.{copy_out-below, put_self, memcpy_with_checksum_round_trip}
use g_carvin.Settings.{Settings}
use g_carvin.Settings.Memory.{
  Layout, Reading, settings_size, addr_global, write_global_settings, read_settings_block,
  read_by_version, read_global_settings, held_settings,
}

module _ (program : Mode → ℕ → ℕ → ℕ) (laws : Programs program) (layout : Layout) where
  good_reading : Settings → Memory → Reading
  good_reading s mem = record { success = true; settings = s; memory = mem }

  -- A good block of settings is read as what it holds.
  read_good_block :
      (s : Settings) (mem : Memory)
      → memcpy_from_eeprom_with_checksum addr_global settings_size mem ≡ (layout.encode s, true)
      → read_settings_block program layout mem ≡ good_reading (held_settings layout s) mem
  unfolding read_settings_block good_reading held_settings
  read_good_block s mem e =
      ap
        (λ (b : List ℕ × Bool). record {
          success = b.1;
          settings = layout.decode b.0;
          memory = mem;
        })
        e

  pub block_written :
      (s : Settings) (mem : Memory)
      → memcpy_from_eeprom_with_checksum addr_global settings_size
          (write_global_settings program layout s mem)
        ≡ (layout.encode s, true)
  unfolding write_global_settings
  block_written s mem =
      subst
        (λ n.
          memcpy_from_eeprom_with_checksum addr_global n
            (write_global_settings program layout s mem)
          ≡ (layout.encode s, true))
        (layout.length_encode s)
        (memcpy_with_checksum_round_trip program laws (layout.encode s) addr_global
          (eeprom_put_char program 0 12 mem) (omega (arith, layout.length_encode s)))

  pub version_written :
      (s : Settings) (mem : Memory)
      → eeprom_get_char 0 (write_global_settings program layout s mem) ≡ 12
  unfolding write_global_settings memcpy_to_eeprom_with_checksum eeprom_get_char
  version_written s mem =
      copy_out-below program laws (layout.encode s) 0 addr_global 0 _ (omega arith)
        (omega (arith, layout.length_encode s))
      ∙ put_self program laws 0 12 mem

  -- A memory of the current version with a good block is read as what it holds.
  pub read_current :
      (s old : Settings) (mem : Memory)
      → eeprom_get_char 0 mem ≡ 12
      → memcpy_from_eeprom_with_checksum addr_global settings_size mem ≡ (layout.encode s, true)
      → read_global_settings program layout old mem
        ≡ record { success = true; settings = held_settings layout s; memory = mem }
  unfolding read_global_settings read_by_version good_reading
  read_current s old mem v e =
      ap (read_by_version program layout old mem) v ∙ read_good_block s mem e

  read-write_held :
      (s old : Settings) (mem : Memory)
      → read_global_settings program layout old (write_global_settings program layout s mem)
        ≡ record {
          success = true;
          settings = held_settings layout s;
          memory = write_global_settings program layout s mem;
        }
  read-write_held s old mem =
      read_current s old (write_global_settings program layout s mem) (version_written s mem)
        (block_written s mem)

  -- The settings that are written are read back as their bytes hold them, with success and without
  -- another write, whatever settings the machine had before the read. What was read from bytes is
  -- read back as it was when it is written again.
  pub read-write_global_settings :
      (s old : Settings) (bytes : List ℕ) (mem : Memory)
      → (read_global_settings program layout old (write_global_settings program layout s mem)
          ≡ record {
            success = true;
            settings = held_settings layout s;
            memory = write_global_settings program layout s mem;
          })
        × (let again = layout.decode bytes in
            read_global_settings program layout old (write_global_settings program layout again mem)
            ≡ record {
              success = true;
              settings = again;
              memory = write_global_settings program layout again mem;
            })
  unfolding held_settings
  read-write_global_settings s old bytes mem = (
    read-write_held s old mem,
    read-write_held (layout.decode bytes) old mem
        ∙ ap
            (λ d. record {
              success = true;
              settings = d;
              memory = write_global_settings program layout (layout.decode bytes) mem;
            })
            (layout.decode_again bytes),
  )
