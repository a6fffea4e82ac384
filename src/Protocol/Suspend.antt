-- ===== src/Protocol/Suspend.antt =====
-- `protocol_exec_rt_suspend` of protocol.c: the loop of a feed hold, the safety door, parking and
-- sleep, with the feed hold manager and sleep.c.
mod Motions
mod Doors
pub mod Locked
mod Flood
pub mod Interlock
pub mod Stops
mod Tests
use g_carvin.Base.{
  ℕ, zero, suc, Bool, true, false, not, ◌&&◌, ◌||◌, Option, none, some, List, [], ◌∷◌, ◌++◌,
  if◌then◌else◌,
}
use g_carvin.System.{
  State, safety_door, sleep, Machine, Suspend, StepControl, SpindleStop, spindle_stop_disabled,
  stop_is_active, log, st_prep_buffer, st_wake_up, st_go_idle, set_button_led,
  report_feedback_message, spindle_restore, sleep_mode,
}
use g_carvin.System.Flags.{no_exec, system_set_exec_state_flag}
use g_carvin.Gcode.Real.{Vec}
use g_carvin.Protocol.Alarm.{Interrupt}
use g_carvin.Protocol.Hold.{is_idle, is_safety_door, is_sleep}
use g_carvin.Protocol.Override.{coolant_set_state, is_hold}
use g_carvin.Protocol.Realtime.{protocol_exec_rt_system}
pub use g_carvin.Protocol.Suspend.Motions.{
  ParkingPlan, Event, spindle_set_state, coolant_set_state_event, mc_parking_motion_event, Pass,
  Suspension, Progress, going, left, waiting, ◌>>=◌, Parking, emit, call, with_machine,
  with_suspend, no_accessories, with_accessories, after_pass, take_pass, with_step_control,
  start_motion,
}
unfoldable pub use g_carvin.Protocol.Suspend.Motions.{
  run_pass, next_pass, motion_passes, mc_parking_motion, delay_sec,
}
pub use g_carvin.Protocol.Suspend.Doors.{
  set_coolant, de_energize, minimum, aim, retracted, parks, restarting, update_pwm, spindle_on,
  cycle_start,
}
unfoldable pub use g_carvin.Protocol.Suspend.Doors.{
  start_retract, pull_out, fast_retract, stop_and_park, retract, sleep_passes, fall_asleep,
  check_door, back_to_waypoint, start_spindle, restart_spindle, restart_coolant, plunge, restored,
  restore, resume_or_sleep,
}

module _ {V : Type 0} (parking : Parking V) where
  abbrev pub set_stop : SpindleStop → Suspension V → Suspension V
  set_stop stop = with_machine parking (λ m. record m { spindle_stop_ovr = stop })

  unfoldable pub begin_stop : Suspension V → Suspension V
  begin_stop s =
      if s.machine.modal_spindle
      then set_stop (record spindle_stop_disabled { enabled = true })
          (call parking (spindle_set_state 0 parking.nought) s)
      else set_stop spindle_stop_disabled s

  unfoldable pub end_stop : Suspension V → Suspension V
  end_stop s =
      set_stop spindle_stop_disabled
        (if s.machine.spindle_stop_ovr.restore_cycle then cycle_start parking s else s)

  -- The spindle stop override in a feed hold.
  unfoldable pub manage_stop : Suspension V → Progress V
  manage_stop s =
      let stop = s.machine.spindle_stop_ovr in
      if stop.initiate
      then going (begin_stop s)
      else if stop.restore || stop.restore_cycle
      then ((if s.machine.modal_spindle
            then start_spindle parking
                (with_machine parking (log (report_feedback_message spindle_restore)) s)
            else going s)
          >>= λ a. going (end_stop a))
      else going s

  -- The feed hold manager.
  unfoldable pub manage_hold : Suspension V → Progress V
  manage_hold s =
      if stop_is_active s.machine.spindle_stop_ovr
      then manage_stop s
      else if s.machine.step_control.update_spindle_pwm
      then going (update_pwm parking false (spindle_on parking s))
      else going s

  -- What a round does once the motion has stopped.
  unfoldable pub manage : Suspension V → Progress V
  manage s =
      if not s.machine.suspend.hold_complete
      then going s
      else if is_safety_door s.machine.state || is_sleep s.machine.state
      then (if not s.machine.suspend.retract_complete
          then retract parking s
          else resume_or_sleep parking s)
      else manage_hold s

  -- `sleep_execute` of sleep.c, by how its wait ends.
  unfoldable pub sleep_execute : Machine → Machine
  sleep_execute m =
      if parking.times_out m
      then system_set_exec_state_flag (record no_exec { sleep = true })
          (log (report_feedback_message sleep_mode) m)
      else m

  -- `sleep_check` of sleep.c.
  unfoldable pub sleep_check : Machine → Machine
  sleep_check m =
      if not (m.modal_spindle || m.modal_coolant)
      then m
      else if is_idle m.state
          || ((is_hold m.state && m.suspend.hold_complete)
              || (is_safety_door m.state && m.suspend.retract_complete))
      then sleep_execute m
      else m

  -- A round of `while (sys.suspend)`.
  unfoldable pub suspend_round : Suspension V → Progress V
  suspend_round s = manage s >>= λ a. next_pass parking (with_machine parking sleep_check a)

  abbrev pub suspend_is_set : Suspend → Bool
  suspend_is_set c =
      c.hold_complete
      || (c.restart_retract
          || (c.retract_complete
              || (c.initiate_restore
                  || (c.restore_complete
                      || (c.door_ajar || (c.motion_cancelled || c.jog_cancel))))))

  -- The loop, with the passes of each round.
  unfoldable pub suspend_loop : List (List (Pass V)) → Suspension V → Progress V
  suspend_loop [] s = waiting s
  suspend_loop (passes ∷ later) s =
      if not (suspend_is_set s.machine.suspend) || s.machine.abort
      then left s
      else (suspend_round (record s { passes = passes }) >>= λ a. suspend_loop later a)

  -- The variables at the entry.
  unfoldable pub protocol_exec_rt_suspend :
      Vec V → Bool → List (List (Pass V)) → Machine → Progress V
  protocol_exec_rt_suspend position door_pin rounds m = suspend_loop rounds (record {
    machine = m;
    events = [];
    parking_target = position;
    restore_target = position;
    retract_waypoint = parking.pullout_increment;
    plan = record {
      feed_rate = parking.nought;
      spindle_speed = parking.nought;
      spindle = 0;
      coolant = false;
    };
    position = position;
    door_pin = door_pin;
    passes = [];
  })
