-- ===== src/Settings/Restore.antt =====
-- `settings_restore` and `settings_init` of settings.c, the coordinate data, and the restore of
-- ps_settings.c.
use g_carvin.Base.{
  ℕ, zero, suc, ◌+◌, ◌*◌, ◌<◌, ◌≡◌, Bool, true, false, List, [], ◌∷◌, length, replicate,
  if◌then◌else◌,
}
use g_carvin.Eeprom.{
  Mode, Memory, eeprom_put_char, memcpy_to_eeprom_with_checksum, memcpy_from_eeprom_with_checksum,
  memcpy_to_eeprom_no_checksum,
}
use g_carvin.Base.Status.{Result, ok, ◌>>=◌}
use g_carvin.NutsBolts.{Decimal}
use g_carvin.Gcode.{Conversions}
use g_carvin.Settings.{Settings, Stored}
use g_carvin.Settings.Store.{settings_store_global_setting}
use g_carvin.Settings.Memory.{
  Layout, addr_startup_block, addr_build_info, write_global_settings, read_global_settings,
  held_settings, default_settings,
}

-- The bits of `restore_flag`.
pub record RestoreFlags : Type 0 where
  pub defaults : Bool
  pub parameters : Bool
  pub startup_lines : Bool
  pub build_info : Bool

-- The bytes of the constants in memory: the compiler's part. They are DEFAULT_G28, DEFAULT_G30 and
-- the defaults of gCarvinParameterMap.
pub record Constants : Type 0 where
  pub g28 : List ℕ
  pub g30 : List ℕ
  pub parameters : List ℕ
  pub length_g28 : length g28 ≡ 12
  pub length_g30 : length g30 ≡ 12
  pub length_parameters : length parameters < 256

-- The settings of the machine and its EEPROM.
pub record Restored : Type 0 where
  pub settings : Settings
  pub memory : Memory

-- What a read of coordinate data leaves, as bytes.
pub record CoordReading : Type 0 where
  pub success : Bool
  pub coord_data : List ℕ
  pub memory : Memory

-- EEPROM_ADDR_PARAMETERS, and PS_SETTINGS_EEPROM_OFFSET
abbrev pub addr_parameters : ℕ
addr_parameters = 512

abbrev pub ps_offset : ℕ
ps_offset = 2048

-- Three floats that are zero.
abbrev pub zero_coords : List ℕ
zero_coords = replicate 12 0

-- `ps_settings_header`: "Inventables Settings" and ten blanks
abbrev pub ps_settings_header : List ℕ
ps_settings_header =
    73 ∷ 110 ∷ 118 ∷ 101 ∷ 110 ∷ 116 ∷ 97 ∷ 98 ∷ 108 ∷ 101 ∷ 115 ∷ 32 ∷ 83 ∷ 101 ∷ 116 ∷ 116 ∷ 105
    ∷ 110 ∷ 103 ∷ 115 ∷ 32 ∷ 32 ∷ 32 ∷ 32 ∷ 32 ∷ 32 ∷ 32 ∷ 32 ∷ 32 ∷ 32 ∷ []

module _ (program : Mode → ℕ → ℕ → ℕ) where
  -- `coord_select*(sizeof(float)*N_AXIS+1) + EEPROM_ADDR_PARAMETERS`
  abbrev pub coord_addr : ℕ → ℕ
  coord_addr n = n * 13 + addr_parameters

  unfoldable pub settings_write_coord_data : ℕ → List ℕ → Memory → Memory
  settings_write_coord_data coord_select coord_data mem =
      memcpy_to_eeprom_with_checksum program (coord_addr coord_select) coord_data mem

  -- Data whose checksum is wrong is stored again as zeros.
  unfoldable pub settings_read_coord_data : ℕ → Memory → CoordReading
  settings_read_coord_data coord_select mem =
      let block = memcpy_from_eeprom_with_checksum (coord_addr coord_select) 12 mem in
      if block.1 then record { success = true; coord_data = block.0; memory = mem } else record {
        success = false;
        coord_data = zero_coords;
        memory = settings_write_coord_data coord_select zero_coords mem;
      }

  -- The for loop over the coordinate systems, with the rounds that are left.
  unfoldable pub clear_coords : ℕ → ℕ → Memory → Memory
  clear_coords zero idx mem = mem
  clear_coords (suc left) idx mem =
      clear_coords left (idx + 1) (settings_write_coord_data idx zero_coords mem)

  unfoldable pub set_eeprom_header_and_revision : Memory → Memory
  set_eeprom_header_and_revision mem =
      eeprom_put_char program (ps_offset + 30) 1
        (memcpy_to_eeprom_no_checksum program ps_offset ps_settings_header mem)

  unfoldable pub set_eeprom_storage_size : ℕ → Memory → Memory
  set_eeprom_storage_size size mem = eeprom_put_char program (ps_offset + 31) size mem

  unfoldable pub write_ps_settings_to_eeprom : List ℕ → Memory → Memory
  write_ps_settings_to_eeprom [] mem = mem
  write_ps_settings_to_eeprom (byte ∷ bytes) mem =
      memcpy_to_eeprom_with_checksum program (ps_offset + 32) (byte ∷ bytes) mem

  -- With the bytes of the parameters in memory, `storage_size` of them: none before
  -- `ps_settings_init`.
  unfoldable pub ps_settings_restore : List ℕ → Memory → Memory
  ps_settings_restore parameters mem =
      write_ps_settings_to_eeprom parameters
        (set_eeprom_storage_size (length parameters) (set_eeprom_header_and_revision mem))

  unfoldable pub restore_parameters : Constants → Memory → Memory
  restore_parameters c mem =
      settings_write_coord_data 7 c.g30 (settings_write_coord_data 6 c.g28 (clear_coords 8 0 mem))

  unfoldable pub restore_startup_lines : Memory → Memory
  restore_startup_lines mem = eeprom_put_char program (addr_startup_block + 82) 0 (
      eeprom_put_char program (addr_startup_block + 81) 0 (
        eeprom_put_char program (addr_startup_block + 1) 0
          (eeprom_put_char program addr_startup_block 0 mem)))

  unfoldable pub restore_build_info : Memory → Memory
  restore_build_info mem =
      eeprom_put_char program (addr_build_info + 1) 0
        (eeprom_put_char program addr_build_info 0 mem)

  -- What is restored besides the settings.
  unfoldable pub restore_others : Constants → RestoreFlags → Memory → Memory
  restore_others c flags mem =
      let coords = if flags.parameters then restore_parameters c mem else mem in
      let lines = if flags.startup_lines then restore_startup_lines coords else coords in
      if flags.build_info then restore_build_info lines else lines

  unfoldable pub settings_restore :
      Layout → Constants → List ℕ → RestoreFlags → Settings → Memory → Restored
  settings_restore layout c parameters flags s mem =
      if flags.defaults
      then record {
        settings = held_settings layout default_settings;
        memory = restore_others c flags (
            ps_settings_restore parameters
              (write_global_settings program layout (held_settings layout default_settings) mem));
      }
      else record { settings = s; memory = restore_others c flags mem }

  -- SETTINGS_RESTORE_ALL
  abbrev pub restore_all : RestoreFlags
  restore_all = record {
    defaults = true;
    parameters = true;
    startup_lines = true;
    build_info = false;
  }

  -- main.c calls it before `ps_settings_init`.
  unfoldable pub settings_init : Layout → Constants → Settings → Memory → Restored
  settings_init layout c s mem =
      let r = read_global_settings program layout s mem in
      if r.success
      then record { settings = r.settings; memory = r.memory }
      else settings_restore layout c [] restore_all r.settings r.memory

  -- A setting that is stored is also written: the whole of `settings_store_global_setting`.
  unfoldable pub store_setting :
      Layout → Conversions → ℕ → Decimal → Settings → Memory → Result Restored
  store_setting layout c parameter v s mem =
      settings_store_global_setting c parameter v s >>= λ (d : Stored). ok (record {
        settings = d.settings;
        memory = write_global_settings program layout d.settings mem;
      })
