-- ===== src/Protocol/Suspend/Motions.antt =====
-- The passes of the executor in the suspend loop of protocol.c, `mc_parking_motion` of motion_control.c and
-- `delay_sec` of nuts_bolts.c.
use g_carvin.Base.{
  ℕ, zero, suc, Bool, true, false, Option, none, some, List, [], ◌∷◌, ◌++◌, if◌then◌else◌,
}
use g_carvin.System.{Machine, Suspend, StepControl, log, st_prep_buffer, st_wake_up}
use g_carvin.Gcode.Real.{Vec}
use g_carvin.Protocol.Alarm.{Interrupt}
use g_carvin.Protocol.Realtime.{protocol_exec_rt_system}

-- The planner data of a parking motion, which is a system motion without the feed override.
pub record ParkingPlan (V : Type 0) : Type 0 where
  pub feed_rate : V
  pub spindle_speed : V
  pub spindle : ℕ
  pub coolant : Bool

-- The calls that reach the spindle, the coolant and the planner.
pub data Event (V : Type 0) : Type 0 where
  spindle_set_state : ℕ → V → Event V
  coolant_set_state_event : Bool → Event V
  mc_parking_motion_event : Vec V → ParkingPlan V → Event V

-- What happens until the next pass of the realtime executor: the interrupts, the position that the
-- steps have then, the door pin, and the interrupts in the wait of an alarm.
pub record Pass (V : Type 0) : Type 0 where
  pub before : Machine → Machine
  pub position : Vec V
  pub door_pin : Bool
  pub arrivals : List Interrupt

-- The machine, the variables of the loop, the pins, and the passes still to come in this round.
pub record Suspension (V : Type 0) : Type 0 where
  pub machine : Machine
  pub events : List (Event V)
  pub parking_target : Vec V
  pub restore_target : Vec V
  pub retract_waypoint : V
  pub plan : ParkingPlan V
  pub position : Vec V
  pub door_pin : Bool
  pub passes : List (Pass V)

-- Still running, returned to the main loop, or in the middle of a wait when the passes end.
pub data Progress (V : Type 0) : Type 0 where
  going : Suspension V → Progress V
  left : Suspension V → Progress V
  waiting : Suspension V → Progress V

infixl 5 ◌>>=◌
abbrev pub ◌>>=◌ : {V : Type 0} → Progress V → (Suspension V → Progress V) → Progress V
going s >>= next = next s
left s >>= next = left s
waiting s >>= next = waiting s

-- The constants of config.h, the settings, the restored accessories, the lengths of the delays in
-- steps, what `plan_buffer_line` answers, and whether the wait of `sleep_execute` ends by its timer.
pub record Parking (V : Type 0) : Type 0 where
  pub nought : V
  pub target : V
  pub rate : V
  pub pullout_rate : V
  pub pullout_increment : V
  pub add : V → V → V
  pub less : V → V → Bool
  pub less_or_equal : V → V → Bool
  pub homing_enable : Bool
  pub laser_mode : Bool
  pub restore_spindle : ℕ
  pub restore_coolant : Bool
  pub restore_spindle_speed : V
  pub spindle_delay : ℕ
  pub coolant_delay : ℕ
  pub planned : Vec V → ParkingPlan V → Bool
  pub prep_control : Machine → StepControl
  pub times_out : Machine → Bool

module _ {V : Type 0} (parking : Parking V) where
  abbrev pub emit : Event V → Suspension V → Suspension V
  emit e s = record s { events = s.events ++ e ∷ [] }

  -- A call that returns at once while an abort is pending.
  abbrev pub call : Event V → Suspension V → Suspension V
  call e s = record s { events = if s.machine.abort then s.events else s.events ++ e ∷ [] }

  abbrev pub with_machine : (Machine → Machine) → Suspension V → Suspension V
  with_machine change s = record s { machine = change s.machine }

  abbrev pub with_suspend : (Suspend → Suspend) → Suspension V → Suspension V
  with_suspend change = with_machine (λ m. record m { suspend = change m.suspend })

  abbrev pub no_accessories : ParkingPlan V → ParkingPlan V
  no_accessories p = record p { spindle_speed = parking.nought; spindle = 0; coolant = false }

  -- PL_COND_ACCESSORY_MASK of the restored condition
  abbrev pub with_accessories : ParkingPlan V → ParkingPlan V
  with_accessories p = record p {
    spindle_speed = parking.restore_spindle_speed;
    spindle = parking.restore_spindle;
    coolant = parking.restore_coolant;
  }

  abbrev pub after_pass : Suspension V → Option Machine → Progress V
  after_pass s none = waiting s
  after_pass s (some m) = going (record s { machine = m })

  -- The interrupts that have arrived, and a pass of the executor.
  unfoldable pub run_pass : Pass V → Suspension V → Progress V
  run_pass p s =
      let m = p.before s.machine in
      after_pass (record s { machine = m; position = p.position; door_pin = p.door_pin })
        (protocol_exec_rt_system parking.prep_control p.arrivals m)

  abbrev pub take_pass : Suspension V → List (Pass V) → Progress V
  take_pass s [] = waiting s
  take_pass s (p ∷ ps) = run_pass p (record s { passes = ps })

  unfoldable pub next_pass : Suspension V → Progress V
  next_pass s = take_pass s s.passes

  -- `do { } while (sys.step_control & STEP_CONTROL_EXECUTE_SYS_MOTION)`
  unfoldable pub motion_passes : List (Pass V) → Suspension V → Progress V
  motion_passes [] s = waiting s
  motion_passes (p ∷ ps) s = run_pass p (record s { passes = ps }) >>= λ a.
      let rest = motion_passes ps a in
      if a.machine.abort
      then going a
      else if a.machine.step_control.execute_sys_motion
      then rest
      else going a

  abbrev pub with_step_control : (StepControl → StepControl) → Suspension V → Suspension V
  with_step_control change = with_machine (λ m. record m { step_control = change m.step_control })

  abbrev pub start_motion : Machine → Machine
  start_motion m =
      let set = record m {
        step_control = record (m.step_control) { execute_sys_motion = true; end_motion = false };
      } in
      log st_wake_up (log st_prep_buffer (record set { step_control = parking.prep_control set }))

  unfoldable pub mc_parking_motion : Vec V → Suspension V → Progress V
  mc_parking_motion target s =
      let asked = emit (mc_parking_motion_event target s.plan) s in
      if s.machine.abort
      then going s
      else if parking.planned target s.plan
      then motion_passes s.passes (with_machine start_motion asked)
      else next_pass (with_step_control (λ c. record c { execute_sys_motion = false }) asked)

  -- `delay_sec` in DELAY_MODE_SYS_SUSPEND.
  unfoldable pub delay_sec : ℕ → Suspension V → Progress V
  delay_sec zero s = going s
  delay_sec (suc i) s =
      if s.machine.abort
      then going s
      else (next_pass s >>= λ a.
          let rest = delay_sec i a in if a.machine.suspend.restart_retract then going a else rest)
