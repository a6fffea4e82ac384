-- ===== src/Protocol/Suspend/Tests.antt =====
-- The suspend loop at the open door, on a machine whose floats are natural numbers.
use g_carvin.Base.{ℕ, ◌+◌, refl, true, false, [], ◌∷◌, ltb, leb, inl}
use g_carvin.Examples.{idle_machine}
use g_carvin.System.{safety_door, Machine, suspend_disable}
use g_carvin.System.Flags.{no_exec, no_accessory}
use g_carvin.Gcode.Real.{Vec}
use g_carvin.Protocol.Suspend.{
  Pass, Suspension, Parking, retract, start_retract, protocol_exec_rt_suspend,
}
use g_carvin.Protocol.Suspend.Interlock.{IsCalm, StaysSafe, protocol_exec_rt_suspend-StaysSafe}
use g_carvin.Protocol.Suspend.Stops.{can_park, IsRetractedOrParks, retract-IsRetractedOrParks}

abbrev parking : Parking ℕ
parking = record {
  nought = 0;
  target = 50;
  rate = 800;
  pullout_rate = 200;
  pullout_increment = 3;
  add = λ v w. v + w;
  less = ltb;
  less_or_equal = leb;
  homing_enable = true;
  laser_mode = false;
  restore_spindle = 16;
  restore_coolant = true;
  restore_spindle_speed = 9000;
  spindle_delay = 60;
  coolant_delay = 20;
  planned = λ target plan. true;
  prep_control = λ m. m.step_control;
  times_out = λ m. false;
}

abbrev place : Vec ℕ
place = record { x = 1; y = 2; z = 7 }

abbrev at_door : Machine
at_door = record idle_machine {
  state = safety_door;
  suspend = record suspend_disable { door_ajar = true; hold_complete = true };
  modal_spindle = true;
}

-- A cycle start and a coolant toggle arrive, and the parking motion ends.
abbrev pass : Pass ℕ
pass = record {
  before = λ m. record m {
    exec_state = record no_exec { cycle_start = true; cycle_stop = true };
    exec_alarm = 0;
    accessory_override = record no_accessory { flood_toggle = true };
  };
  position = place;
  door_pin = true;
  arrivals = [];
}

pass-IsCalm : IsCalm pass
pass-IsCalm = record {
  same = λ m. record { state = refl; suspend = refl };
  dry = λ m d. record { dry = d.dry };
  quiet = λ m. refl;
  ajar = refl;
}

protocol_exec_rt_suspend-StaysSafe_example : StaysSafe (at_door.flood_pin) (
    protocol_exec_rt_suspend parking place true
      ((pass ∷ pass ∷ pass ∷ []) ∷ (pass ∷ []) ∷ [])
      at_door)
protocol_exec_rt_suspend-StaysSafe_example =
    protocol_exec_rt_suspend-StaysSafe parking place ((pass ∷ pass ∷ pass ∷ []) ∷ (pass ∷ []) ∷ [])
      at_door ((pass-IsCalm, (pass-IsCalm, (pass-IsCalm, tt))), ((pass-IsCalm, tt), tt))
      (record { parked = record { ajar = refl; stopped = inl refl }; resting = refl })

abbrev waiting_there : Suspension ℕ
waiting_there = record {
  machine = at_door;
  events = [];
  parking_target = place;
  restore_target = place;
  retract_waypoint = 3;
  plan = record { feed_rate = 0; spindle_speed = 0; spindle = 0; coolant = false };
  position = place;
  door_pin = true;
  passes = pass ∷ pass ∷ [];
}

retract-IsRetractedOrParks_example :
    IsRetractedOrParks parking
      (can_park parking (start_retract parking waiting_there))
      (retract parking waiting_there)
retract-IsRetractedOrParks_example = retract-IsRetractedOrParks parking waiting_there
