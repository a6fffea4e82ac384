-- ===== src/Settings/Memory.antt =====
-- Where settings.c keeps the settings, the startup lines and the build info in the EEPROM, and how
-- it reads them back.
use g_carvin.Base.{
  ℕ, ◌+◌, ◌*◌, ◌≡◌, Bool, true, false, List, length, take, set, ltb, ◌==◌, if◌then◌else◌,
}
use g_carvin.NutsBolts.{Decimal}
use g_carvin.Eeprom.{
  Mode, Memory, eeprom_get_char, eeprom_put_char, memcpy_to_eeprom_with_checksum,
  memcpy_from_eeprom_with_checksum,
}
use g_carvin.Settings.{Axes, Settings}

-- SETTINGS_VERSION, the addresses of the blocks, and LINE_BUFFER_SIZE
abbrev pub settings_version : ℕ
settings_version = 12

abbrev pub addr_global : ℕ
addr_global = 1

abbrev pub addr_startup_block : ℕ
addr_startup_block = 768

abbrev pub addr_build_info : ℕ
addr_build_info = 942

abbrev pub line_buffer_size : ℕ
line_buffer_size = 80

-- `sizeof(settings_t)` and `sizeof(settings_v11_t)`, with one byte for a uint8_t, two for a uint16_t
-- and four for a float.
abbrev pub settings_size : ℕ
settings_size = 85

abbrev pub settings_v11_size : ℕ
settings_v11_size = 89

-- The bytes of the settings in memory: the compiler's part. Settings that were read from bytes are
-- kept by their bytes; other decimals are rounded to what a float holds.
pub record Layout : Type 0 where
  pub encode : Settings → List ℕ
  pub decode : List ℕ → Settings
  pub length_encode : (s : Settings) → length (encode s) ≡ settings_size
  pub decode_again : (l : List ℕ) → decode (encode (decode l)) ≡ decode l

-- The settings as their bytes hold them.
unfoldable pub held_settings : Layout → Settings → Settings
held_settings layout s = layout.decode (layout.encode s)

-- What a read leaves: its result, the settings and the EEPROM.
pub record Reading : Type 0 where
  pub success : Bool
  pub settings : Settings
  pub memory : Memory

-- The same for a line.
pub record LineReading : Type 0 where
  pub success : Bool
  pub line : List ℕ
  pub memory : Memory

module _ (program : Mode → ℕ → ℕ → ℕ) where
  unfoldable pub write_global_settings : Layout → Settings → Memory → Memory
  write_global_settings layout s mem =
      memcpy_to_eeprom_with_checksum program addr_global (layout.encode s)
        (eeprom_put_char program 0 settings_version mem)

  -- The block is copied over the settings, good or not.
  unfoldable pub read_settings_block : Layout → Memory → Reading
  read_settings_block layout mem =
      let block = memcpy_from_eeprom_with_checksum addr_global settings_size mem in
      record { success = block.1; settings = layout.decode block.0; memory = mem }

  -- An upgrade writes what it has read, if that was good.
  unfoldable pub written_back : Layout → Reading → Reading
  written_back layout r =
      if r.success
      then record r { memory = write_global_settings layout r.settings r.memory }
      else r

  -- A block of version 11 has one more float at its end.
  unfoldable pub read_settings_v11 : Layout → Settings → Memory → Reading
  read_settings_v11 layout s mem =
      let block = memcpy_from_eeprom_with_checksum addr_global settings_v11_size mem in
      record {
        success = block.1;
        settings = if block.1 then layout.decode (take settings_size block.0) else s;
        memory = mem;
      }

  -- The choice by the version byte.
  unfoldable pub read_by_version : Layout → Settings → Memory → ℕ → Reading
  read_by_version layout s mem version =
      let failed : Reading = record { success = false; settings = s; memory = mem } in
      if ltb version settings_version
      then (if version == 10
          then written_back layout (read_settings_block layout mem)
          else if version == 11
          then written_back layout (read_settings_v11 layout s mem)
          else failed)
      else if version == settings_version
      then read_settings_block layout mem
      else failed

  unfoldable pub read_global_settings : Layout → Settings → Memory → Reading
  read_global_settings layout s mem = read_by_version layout s mem (eeprom_get_char 0 mem)

  -- `n*(LINE_BUFFER_SIZE+1)+EEPROM_ADDR_STARTUP_BLOCK`
  abbrev pub startup_addr : ℕ → ℕ
  startup_addr n = n * 81 + addr_startup_block

  unfoldable pub settings_store_startup_line : ℕ → List ℕ → Memory → Memory
  settings_store_startup_line n line mem =
      memcpy_to_eeprom_with_checksum program (startup_addr n) line mem

  unfoldable pub settings_store_build_info : List ℕ → Memory → Memory
  settings_store_build_info line mem =
      memcpy_to_eeprom_with_checksum program addr_build_info line mem

  -- A line whose checksum is wrong is stored again as an empty one.
  unfoldable pub settings_read_startup_line : ℕ → Memory → LineReading
  settings_read_startup_line n mem =
      let block = memcpy_from_eeprom_with_checksum (startup_addr n) line_buffer_size mem in
      if block.1 then record { success = true; line = block.0; memory = mem } else record {
        success = false;
        line = set block.0 0 0;
        memory = settings_store_startup_line n (set block.0 0 0) mem;
      }

  unfoldable pub settings_read_build_info : Memory → LineReading
  settings_read_build_info mem =
      let block = memcpy_from_eeprom_with_checksum addr_build_info line_buffer_size mem in
      if block.1 then record { success = true; line = block.0; memory = mem } else record {
        success = false;
        line = set block.0 0 0;
        memory = settings_store_build_info (set block.0 0 0) mem;
      }

abbrev pub decimal : ℕ → ℕ → Decimal
decimal n places = record { negative = false; intval = n; exp_up = 0; exp_down = places }

abbrev pub minus : ℕ → ℕ → Decimal
minus n places = record { negative = true; intval = n; exp_up = 0; exp_down = places }

abbrev pub axes : Decimal → Decimal → Decimal → Axes
axes a b c = record { x = a; y = b; z = c }

-- What `settings_restore` sets for SETTINGS_RESTORE_DEFAULTS, with the values of defaults.h.
unfoldable pub default_settings : Settings
default_settings = record {
  steps_per_mm = axes (decimal 88889 3) (decimal 88889 3) (decimal 377893 3);
  max_rate = axes (decimal 5000 0) (decimal 5000 0) (decimal 800 0);
  acceleration = axes (decimal 1800000 0) (decimal 1800000 0) (decimal 216000 0);
  max_travel = axes (minus 300 0) (minus 2032 1) (minus 80 0);
  pulse_microseconds = 10;
  step_invert_mask = 0;
  dir_invert_mask = 0;
  stepper_idle_lock_time = 255;
  status_report_mask = 3;
  junction_deviation = decimal 2 2;
  arc_tolerance = decimal 2 3;
  rpm_max = decimal 12000 0;
  rpm_min = decimal 0 0;
  flags = record {
    report_inches = false;
    laser_mode = false;
    invert_st_enable = false;
    hard_limit_enable = false;
    homing_enable = true;
    soft_limit_enable = false;
    invert_limit_pins = false;
    invert_probe_pin = false;
  };
  homing_dir_mask = 3;
  homing_feed_rate = decimal 75 0;
  homing_seek_rate = decimal 1500 0;
  homing_debounce_delay = 250;
  homing_pulloff = decimal 4 0;
}
