-- ===== src/Protocol/Suspend/Doors.antt =====
-- The parking manager of the suspend loop of protocol.c: retraction, sleep, and restore.
use g_carvin.Base.{Bool, true, false, not, ◌&&◌, List, [], ◌∷◌, if◌then◌else◌}
use g_carvin.System.{
  spindle_stop_disabled, log, st_go_idle, set_button_led, report_feedback_message, sleep_mode,
}
use g_carvin.System.Flags.{no_exec, system_set_exec_state_flag}
use g_carvin.Protocol.Hold.{is_safety_door, is_sleep}
use g_carvin.Protocol.Override.{coolant_set_state}
use g_carvin.Protocol.Suspend.Motions.{
  spindle_set_state, coolant_set_state_event, Pass, Suspension, Progress, going, left, waiting,
  ◌>>=◌, Parking, call, with_machine, with_suspend, no_accessories, with_accessories, run_pass,
  with_step_control, mc_parking_motion, delay_sec,
}

module _ {V : Type 0} (parking : Parking V) where
  abbrev pub set_coolant : Bool → Suspension V → Suspension V
  set_coolant flood s =
      with_machine parking (coolant_set_state flood)
        (call parking (coolant_set_state_event flood) s)

  -- De-energize
  abbrev pub de_energize : Suspension V → Suspension V
  de_energize s = set_coolant false (call parking (spindle_set_state 0 parking.nought) s)

  abbrev pub minimum : V → V → V
  minimum a b = if parking.less a b then a else b

  -- The restore location and the retract waypoint, unless a restore was broken off.
  unfoldable pub start_retract : Suspension V → Suspension V
  start_retract s =
      let fresh = not s.machine.suspend.restart_retract in
      record s {
        machine = record (s.machine) { spindle_stop_ovr = spindle_stop_disabled };
        parking_target = s.position;
        restore_target = if fresh then s.position else s.restore_target;
        retract_waypoint =
            if fresh
            then minimum (parking.add s.retract_waypoint s.position.z) parking.target
            else s.retract_waypoint;
      }

  abbrev pub aim : V → V → Suspension V → Suspension V
  aim z rate s = record s {
    parking_target = record (s.parking_target) { z = z };
    plan = record (s.plan) { feed_rate = rate };
  }

  -- The slow pull-out, with the accessories as they are.
  unfoldable pub pull_out : Suspension V → Progress V
  pull_out s =
      let up = aim s.retract_waypoint parking.pullout_rate s in
      if parking.less s.parking_target.z s.retract_waypoint
      then mc_parking_motion parking up.parking_target
          (record up { plan = with_accessories parking up.plan })
      else going s

  -- The fast motion to the parking target.
  unfoldable pub fast_retract : Suspension V → Progress V
  fast_retract s =
      let up = aim parking.target parking.rate s in
      if parking.less s.parking_target.z parking.target
      then mc_parking_motion parking up.parking_target up
      else going s

  abbrev pub retracted : Suspension V → Suspension V
  retracted =
      with_suspend parking (λ c. record c { restart_retract = false; retract_complete = true })

  -- The slow pull-out, the stop, and the fast motion to the parking target, where parking is possible.
  unfoldable pub stop_and_park : Suspension V → Progress V
  stop_and_park s =
      if parking.homing_enable
        && (parking.less s.parking_target.z parking.target && not parking.laser_mode)
      then (pull_out s >>= λ a.
          fast_retract (de_energize (record a { plan = no_accessories parking a.plan })))
      else going (de_energize s)

  -- Retraction motions and de-energizing.
  unfoldable pub retract : Suspension V → Progress V
  retract s = stop_and_park (start_retract s) >>= λ a. going (retracted a)

  -- `while (!(sys.abort)) protocol_exec_rt_system();`
  unfoldable pub sleep_passes : List (Pass V) → Suspension V → Progress V
  sleep_passes [] s = if s.machine.abort then left s else waiting s
  sleep_passes (p ∷ ps) s =
      if s.machine.abort
      then left s
      else (run_pass parking p (record s { passes = ps }) >>= λ a. sleep_passes ps a)

  unfoldable pub fall_asleep : Suspension V → Progress V
  fall_asleep s =
      let told = with_machine parking (log (report_feedback_message sleep_mode)) s in
      sleep_passes s.passes (with_machine parking (log st_go_idle) (de_energize told))

  -- The door is closed again.
  unfoldable pub check_door : Suspension V → Suspension V
  check_door s =
      let lit =
        if s.machine.suspend.door_ajar then with_machine parking (log set_button_led) s else s in
      if is_safety_door s.machine.state && not s.door_pin
      then with_suspend parking (λ c. record c { door_ajar = false }) lit
      else s

  abbrev pub parks : Bool
  parks = parking.homing_enable && not parking.laser_mode

  abbrev pub restarting : Suspension V → Bool
  restarting s = s.machine.suspend.restart_retract

  unfoldable pub back_to_waypoint : Suspension V → Progress V
  back_to_waypoint s =
      let down = aim s.retract_waypoint parking.rate s in
      if parks && parking.less_or_equal s.parking_target.z parking.target
      then mc_parking_motion parking down.parking_target down
      else going s

  abbrev pub update_pwm : Bool → Suspension V → Suspension V
  update_pwm b = with_step_control parking (λ c. record c { update_spindle_pwm = b })

  abbrev pub spindle_on : Suspension V → Suspension V
  spindle_on =
      call parking (spindle_set_state parking.restore_spindle parking.restore_spindle_speed)

  -- The spindle as it was, with the delay to power up; the laser when the cycle starts.
  unfoldable pub start_spindle : Suspension V → Progress V
  start_spindle s =
      if parking.laser_mode
      then going (update_pwm true s)
      else delay_sec parking parking.spindle_delay (spindle_on s)

  unfoldable pub restart_spindle : Suspension V → Progress V
  restart_spindle s =
      if s.machine.modal_spindle && not (restarting s) then start_spindle s else going s

  unfoldable pub restart_coolant : Suspension V → Progress V
  restart_coolant s =
      if s.machine.modal_coolant && not (restarting s)
      then delay_sec parking parking.coolant_delay (set_coolant parking.restore_coolant s)
      else going s

  -- The slow plunge to the position before the retraction.
  unfoldable pub plunge : Suspension V → Progress V
  plunge s =
      let slow = record s {
        plan = with_accessories parking (record (s.plan) { feed_rate = parking.pullout_rate });
      } in
      if parks && not (restarting s)
      then mc_parking_motion parking s.restore_target slow
      else going s

  abbrev pub cycle_start : Suspension V → Suspension V
  cycle_start =
      with_machine parking (system_set_exec_state_flag (record no_exec { cycle_start = true }))

  unfoldable pub restored : Suspension V → Suspension V
  restored s =
      if restarting s
      then s
      else cycle_start (with_suspend parking (λ c. record c { restore_complete = true }) s)

  -- Parking restore and safety door resume.
  unfoldable pub restore : Suspension V → Progress V
  restore s =
      if s.machine.suspend.initiate_restore
      then (back_to_waypoint s >>= restart_spindle >>= restart_coolant >>= plunge >>= λ a.
          going (restored a))
      else going s

  unfoldable pub resume_or_sleep : Suspension V → Progress V
  resume_or_sleep s = if is_sleep s.machine.state then fall_asleep s else restore (check_door s)
