-- ===== src/Settings/Tests.antt =====
-- The settings theorems at the defaults, and a startup line that is not allowed to be there.
use g_carvin.Base.{ℕ, ◌≡◌, refl, arith, true, false, List, replicate, length, get_or}
use g_carvin.Base.Status.{AllOk, fail}
use g_carvin.Examples.{program, data_sheet, blank, to_zero}
use g_carvin.Eeprom.{memcpy_from_eeprom_with_checksum}
use g_carvin.Gcode.{is_negative, fits_uint8, whole, int_value}
use g_carvin.Settings.{Stored}
use g_carvin.Settings.Store.{settings_store_global_setting, high_setting, soft_limits}
use g_carvin.Settings.Memory.{
  held_settings, default_settings, decimal, settings_size, addr_global, addr_build_info,
  line_buffer_size, startup_addr, write_global_settings, read_global_settings,
  settings_store_startup_line,
}
use g_carvin.Settings.Rules.{IsSafe, settings_store_global_setting-IsSafe}
use g_carvin.Settings.Places.{read-write_global_settings}
use g_carvin.Settings.Packed.{packed}
use g_carvin.Settings.Startup.{store_startup_line_beside, third_startup_line_overlaps}

default_settings-IsSafe : IsSafe default_settings
unfolding default_settings
default_settings-IsSafe = record {
  limits = refl;
  pulse_time = omega arith;
  x = refl;
  y = refl;
  z = refl;
}

soft_limits_refused :
    settings_store_global_setting to_zero 20 (decimal 1 0) (record default_settings {
      flags = record (default_settings.flags) { homing_enable = false };
    })
    ≡ fail 10
unfolding settings_store_global_setting is_negative int_value fits_uint8 whole high_setting
    soft_limits
soft_limits_refused = refl

settings_store_global_setting-IsSafe_example :
    AllOk
      (λ (d : Stored). IsSafe d.settings)
      (settings_store_global_setting to_zero 22 (decimal 0 0) default_settings)
    × IsSafe default_settings
settings_store_global_setting-IsSafe_example =
    settings_store_global_setting-IsSafe to_zero 22 (decimal 0 0) default_settings
      default_settings-IsSafe

some_bytes : List ℕ
some_bytes = replicate 85 200

read-write_global_settings_example :
    (read_global_settings program packed default_settings
        (write_global_settings program packed default_settings blank)
      ≡ record {
        success = true;
        settings = held_settings packed default_settings;
        memory = write_global_settings program packed default_settings blank;
      })
    × (read_global_settings program packed default_settings
          (write_global_settings program packed (packed.decode some_bytes) blank)
        ≡ record {
          success = true;
          settings = packed.decode some_bytes;
          memory = write_global_settings program packed (packed.decode some_bytes) blank;
        })
read-write_global_settings_example =
    read-write_global_settings program data_sheet packed default_settings default_settings
      some_bytes blank

a_line : List ℕ
a_line = replicate 80 65

length-a_line : length a_line ≡ 80
unfolding a_line
length-a_line = refl

store_startup_line_beside_example :
    (memcpy_from_eeprom_with_checksum
        (startup_addr program 1)
        line_buffer_size
        (settings_store_startup_line program 0 a_line blank)
      ≡ memcpy_from_eeprom_with_checksum (startup_addr program 1) line_buffer_size blank)
    × (memcpy_from_eeprom_with_checksum addr_build_info line_buffer_size
          (settings_store_startup_line program 0 a_line blank)
        ≡ memcpy_from_eeprom_with_checksum addr_build_info line_buffer_size blank)
    × (memcpy_from_eeprom_with_checksum addr_global settings_size
          (settings_store_startup_line program 0 a_line blank)
        ≡ memcpy_from_eeprom_with_checksum addr_global settings_size blank)
store_startup_line_beside_example =
    store_startup_line_beside program data_sheet 0 1 a_line blank (omega arith) (omega arith)
      (λ e. omega (arith, e)) length-a_line

third_startup_line_overlaps_example :
    settings_store_startup_line program 2 a_line blank addr_build_info ≡ get_or a_line 12 0
third_startup_line_overlaps_example =
    third_startup_line_overlaps program data_sheet a_line blank length-a_line
