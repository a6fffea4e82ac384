-- ===== src/Protocol/Realtime/Tests.antt =====
-- The realtime executor at a machine that waits at the open door, runs, or meets a limit alarm.
use g_carvin.Base.{true, false, ◌≡◌, ◌⊎◌, inl, refl, [], ◌∷◌, none, some}
use g_carvin.Examples.{idle_machine}
use g_carvin.System.{
  idle, st_prep_buffer, st_wake_up, button_led_on, safety_door, cycle, alarm, Machine, StepControl,
  suspend_disable,
}
use g_carvin.System.Flags.{no_exec, system_clear_exec_state_flag}
use g_carvin.Protocol.Alarm.{reset_button, set_alarm, alarm_block}
use g_carvin.Protocol.Cycle.{resume, start_or_restore, start_at_door, start_block, stop_block}
use g_carvin.Protocol.Door.{Parked}
use g_carvin.Protocol.DoorOpens.{Stopping}
use g_carvin.Protocol.Hold.{hold_block}
use g_carvin.Protocol.Override.{motion_override_block, accessory_override_block}
use g_carvin.Protocol.Realtime.{
  protocol_exec_rt_system, after_alarm, state_blocks, override_blocks, prep_block, status_block,
}
use g_carvin.Protocol.Realtime.Critical.{any_resets, critical_alarm}
use g_carvin.Protocol.Realtime.Entry.{StartAllowed, cycle_entry}
use g_carvin.Protocol.Realtime.Interlock.{Parked-stays, door_stops}

-- A segment generator that leaves the step control byte as it is.
abbrev keep_control : Machine → StepControl
keep_control m = m.step_control

abbrev at_door : Machine
at_door = record idle_machine {
  state = safety_door;
  suspend = record suspend_disable { door_ajar = true; hold_complete = true };
  exec_state = record no_exec { cycle_start = true };
}

Parked-stays_example :
    (n : Machine) × (protocol_exec_rt_system keep_control [] at_door ≡ some n) × Parked n
Parked-stays_example =
    Parked-stays keep_control [] at_door refl refl (record { ajar = refl; stopped = inl refl })

abbrev opening : Machine
opening = record idle_machine {
  state = cycle;
  exec_state = record no_exec { safety_door = true; cycle_start = true };
}

door_stops_example :
    (n : Machine) × (protocol_exec_rt_system keep_control [] opening ≡ some n) × Stopping n
door_stops_example = door_stops keep_control [] opening refl refl refl refl (inl refl)

abbrev limit_hit : Machine
limit_hit = record idle_machine { state = cycle; exec_alarm = 1 }

critical_alarm_example :
    ((any_resets (set_alarm 3 ∷ reset_button ∷ []) ≡ true)
      × (n : Machine) × (protocol_exec_rt_system keep_control
            (set_alarm 3 ∷ reset_button ∷ [])
            limit_hit
          ≡ some n)
      × (n.abort ≡ true)
      × (n.state ≡ alarm)
      × (n.exec_alarm ≡ 0))
    ⊎ ((any_resets (set_alarm 3 ∷ reset_button ∷ []) ≡ false)
        × (protocol_exec_rt_system keep_control (set_alarm 3 ∷ reset_button ∷ []) limit_hit ≡ none))
critical_alarm_example =
    critical_alarm keep_control (set_alarm 3 ∷ reset_button ∷ []) limit_hit refl

abbrev starting : Machine
starting = record idle_machine {
  block_waiting = true;
  exec_state = record no_exec { cycle_start = true };
}

abbrev started : Machine
started = record starting {
  state = cycle;
  exec_state = no_exec;
  calls = st_prep_buffer ∷ st_wake_up ∷ button_led_on ∷ st_prep_buffer ∷ [];
}

starts : protocol_exec_rt_system keep_control [] starting ≡ some started
unfolding protocol_exec_rt_system alarm_block after_alarm state_blocks override_blocks prep_block
    status_block hold_block start_block start_or_restore start_at_door resume stop_block
    motion_override_block accessory_override_block system_clear_exec_state_flag
starts = refl

cycle_entry_example : (idle ≡ cycle) ⊎ StartAllowed starting.exec_state starting
cycle_entry_example = cycle_entry keep_control [] starting refl refl starts refl
