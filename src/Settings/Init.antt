-- ===== src/Settings/Init.antt =====
-- What `settings_restore` and `settings_init` of settings.c leave.
use g_carvin.Base.{ℕ, ◌≡◌, true}
use g_carvin.Eeprom.{Mode, Memory}
use g_carvin.Eeprom.Bytes.{Programs}
use g_carvin.Settings.{Settings}
use g_carvin.Settings.Memory.{Layout, Reading, read_global_settings}

module _ (program : Mode → ℕ → ℕ → ℕ) (laws : Programs program) (layout : Layout) where
  -- A later read gives what a successful one has given.
  IsLasting : Settings → Reading → Type 0
  IsLasting old r =
      r.success ≡ true
      → read_global_settings program layout old r.memory
        ≡ record { success = true; settings = r.settings; memory = r.memory }
