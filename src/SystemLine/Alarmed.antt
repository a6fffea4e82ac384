-- ===== src/SystemLine/Alarmed.antt =====
-- The `$` commands of system.c in the alarm state.
use g_carvin.Base.{ℕ, ◌≡◌, Bool, true, if◌then◌else◌}
use g_carvin.System.{alarm}
use g_carvin.SystemLine.Added.{passes_parser, Adds}
use g_carvin.SystemLine.{Env, Sys, Executed, Order, report_startup_line, report_status_message}

module _ {V : Type 0} (env : Env V) where
  -- The command returns, the machine is in the alarm state, and the parser has seen nothing.
  pub record IsAlarmed (s : Sys V) (e : Executed V) : Type 0 where
    pub state : e.sys.machine.state ≡ alarm
    pub gc : e.sys.gc ≡ s.gc
    pub returns : e.returns ≡ true
    pub orders : Adds passes_parser s.orders e.sys.orders

  module _ (s : Sys V) (a : s.machine.state ≡ alarm) where
    abbrev A : Executed V → Type 0
    A e = IsAlarmed s e

    startup_report : Bool → ℕ → Order V
    startup_report failed n = if failed then report_status_message 7 else report_startup_line n
