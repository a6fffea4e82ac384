-- ===== src/Protocol/Realtime.antt =====
-- `protocol_exec_rt_system` of protocol.c, composed of its blocks in the order of the code. The
-- handler is atomic here; interrupts enter it only in the wait of the alarm block.
pub mod Interlock
pub mod Critical
pub mod Entry
mod Tests
use mathlib.Core.Option
use g_carvin.Base.{ℕ, ◌-◌, Bool, true, false, ◌&&◌, Option, List, ◌==◌, if◌then◌else◌}
use g_carvin.System.{
  State, cycle, hold, safety_door, homing, sleep, jog, Machine, ExecState, StepControl, log,
  report_realtime_status, st_prep_buffer,
}
use g_carvin.System.Flags.{no_exec, system_clear_exec_state_flag}
use g_carvin.Protocol.Alarm.{Interrupt, alarm_block}
use g_carvin.Protocol.Cycle.{start_block, stop_block}
use g_carvin.Protocol.Hold.{hold_block}
use g_carvin.Protocol.Override.{motion_override_block, accessory_override_block}

-- STATE_HOMING | STATE_CYCLE | STATE_HOLD | STATE_JOG | STATE_SAFETY_DOOR
abbrev pub is_busy : State → Bool
is_busy homing = true
is_busy cycle = true
is_busy hold = true
is_busy jog = true
is_busy safety_door = true
is_busy _ = false

-- The counters at the end of `report_realtime_status` in report.c that spread the work coordinate
-- and override fields over the reports.
unfoldable pub count_report : Machine → Machine
count_report m =
    let forced = m.report_wco_counter == 0 && m.report_ovr_counter == 0 in
    let ovr = if forced then 1 else m.report_ovr_counter in
    record m {
      report_wco_counter =
          if m.report_wco_counter == 0
          then (if is_busy m.state then 29 else 9)
          else m.report_wco_counter - 1;
      report_ovr_counter = if ovr == 0 then (if is_busy m.state then 19 else 9) else ovr - 1;
    }

-- Lines 261 to 264.
unfoldable pub status_block : ExecState → Machine → Machine
status_block rt m =
    if rt.status_report
    then system_clear_exec_state_flag (record no_exec { status_report = true })
        (log report_realtime_status (count_report m))
    else m

-- STATE_CYCLE | STATE_HOLD | STATE_SAFETY_DOOR | STATE_HOMING | STATE_SLEEP | STATE_JOG
abbrev pub needs_segments : State → Bool
needs_segments sleep = true
needs_segments s = is_busy s

module _ (prep_control : Machine → StepControl) where
  -- Lines 511 to 513.
  unfoldable pub prep_block : Machine → Machine
  prep_block m =
      if needs_segments m.state
      then record (log st_prep_buffer m) { step_control = prep_control m }
      else m

  -- Lines 261 to 419, on the copy `rt` of the flags.
  unfoldable pub state_blocks : ExecState → Machine → Machine
  state_blocks rt m =
      stop_block rt (start_block prep_control rt (hold_block rt (status_block rt m)))

  -- Lines 423 to 513.
  unfoldable pub override_blocks : Machine → Machine
  override_blocks m = prep_block (accessory_override_block (motion_override_block m))

  -- Lines 251 to 513. The blocks do nothing where no flag is set, as the code's `if (rt_exec)`.
  unfoldable pub after_alarm : Machine → Machine
  after_alarm m =
      if m.exec_state.reset
      then record m { abort = true }
      else override_blocks (state_blocks m.exec_state m)

  unfoldable pub protocol_exec_rt_system : List Interrupt → Machine → Option Machine
  protocol_exec_rt_system arrivals m = Option.map after_alarm (alarm_block arrivals m)
