-- ===== src/MotionControl.antt =====
-- motion_control.c: the system reset, which interrupts call.
use g_carvin.Base.{if_ind, if_cases, arith, ◌≡◌, Bool, true, false, ◌||◌, ◌==◌, if◌then◌else◌}
use g_carvin.System.{
  State, homing, cycle, jog, Machine, log, spindle_stop, st_go_idle, door_led_idle,
}
use g_carvin.System.Raises.{
  OnlyRaises, OnlyRaises-refl, OnlyRaises-trans, set_exec-OnlyRaises, set_alarm-OnlyRaises,
  log-OnlyRaises,
}
use g_carvin.System.Flags.{no_exec, system_set_exec_state_flag, system_set_exec_alarm}

abbrev pub raise_reset : Machine → Machine
raise_reset = system_set_exec_state_flag (record no_exec { reset = true })

-- `coolant_stop` of coolant_control.c, without the mist output that ENABLE_M7 would add.
unfoldable pub coolant_stop : Machine → Machine
coolant_stop m = record m { flood_pin = false }

-- STATE_CYCLE | STATE_HOMING | STATE_JOG
abbrev pub is_moving : State → Bool
is_moving cycle = true
is_moving homing = true
is_moving jog = true
is_moving _ = false

-- Which alarm a reset in motion raises.
unfoldable pub reset_alarm : State → Machine → Machine
unfolding system_set_exec_alarm
reset_alarm homing m = if m.exec_alarm == 0 then system_set_exec_alarm 6 m else m
reset_alarm _ m = system_set_exec_alarm 3 m

unfoldable pub kill_steppers : Machine → Machine
kill_steppers m =
    if is_moving m.state || (m.step_control.execute_hold || m.step_control.execute_sys_motion)
    then log st_go_idle (reset_alarm m.state m)
    else m

unfoldable pub mc_reset : Machine → Machine
mc_reset m =
    if m.exec_state.reset
    then m
    else log door_led_idle (kill_steppers (coolant_stop (log spindle_stop (raise_reset m))))

reset_alarm-OnlyRaises : (s : State) (m : Machine) → OnlyRaises m (reset_alarm s m)
unfolding reset_alarm
reset_alarm-OnlyRaises homing m =
    if_ind (OnlyRaises m) (m.exec_alarm == 0) (set_alarm-OnlyRaises 6 m) (OnlyRaises-refl m)
reset_alarm-OnlyRaises _ m = set_alarm-OnlyRaises 3 m

coolant_stop-OnlyRaises : (m : Machine) → OnlyRaises m (coolant_stop m)
unfolding coolant_stop
coolant_stop-OnlyRaises m = ground arith

kill_steppers-OnlyRaises : (m : Machine) → OnlyRaises m (kill_steppers m)
unfolding kill_steppers
kill_steppers-OnlyRaises m =
    if_ind (OnlyRaises m) _
      (OnlyRaises-trans (reset_alarm-OnlyRaises m.state m) (log-OnlyRaises st_go_idle _))
      (OnlyRaises-refl m)

-- Whatever it finds, `mc_reset` leaves the machine's state, suspend byte and overrides alone and
-- lowers none of the reset, door, hold, cycle start and cycle stop flags.
pub mc_reset-OnlyRaises : (m : Machine) → OnlyRaises m (mc_reset m)
unfolding mc_reset
mc_reset-OnlyRaises m = if_ind (OnlyRaises m) m.exec_state.reset (OnlyRaises-refl m) (
    OnlyRaises-trans (set_exec-OnlyRaises _ m) (
      OnlyRaises-trans (log-OnlyRaises spindle_stop _) (
        OnlyRaises-trans (coolant_stop-OnlyRaises _)
          (OnlyRaises-trans (kill_steppers-OnlyRaises _) (log-OnlyRaises door_led_idle _)))))

raise_reset-reset : (m : Machine) → (raise_reset m).exec_state.reset ≡ true
unfolding system_set_exec_state_flag
raise_reset-reset m = ground arith

-- After `mc_reset` the reset flag is set.
pub mc_reset-reset : (m : Machine) → (mc_reset m).exec_state.reset ≡ true
unfolding mc_reset
mc_reset-reset m =
    if_cases (λ (n : Machine). n.exec_state.reset ≡ true) m.exec_state.reset (λ r. r)
      (λ _.
        (OnlyRaises-trans (log-OnlyRaises spindle_stop (raise_reset m)) (
            OnlyRaises-trans (coolant_stop-OnlyRaises _) (
              OnlyRaises-trans (kill_steppers-OnlyRaises _)
                (log-OnlyRaises door_led_idle _)))).keeps_reset
          (raise_reset-reset m))
