-- ===== src/System/Raises.antt =====
-- What interrupt handlers may do to the machine: raise flags and report, but change neither its
-- state nor a setting of the operator, and lower no flag that protects it.
use g_carvin.Base.{ℕ, true, ◌≡◌, ◌∙◌, arith}
use g_carvin.System.{Machine, ExecState, MotionOverride, AccessoryOverride, Call, log}
use g_carvin.System.Flags.{
  system_set_exec_state_flag, system_set_exec_alarm, system_set_exec_motion_override_flag,
  system_set_exec_accessory_override_flag,
}

-- What a realtime command may do to the machine: raise flags, and never lower one.
pub record OnlyRaises (m n : Machine) : Type 0 where
  pub state : n.state ≡ m.state
  pub abort : n.abort ≡ m.abort
  pub suspend : n.suspend ≡ m.suspend
  pub step_control : n.step_control ≡ m.step_control
  pub f_override : n.f_override ≡ m.f_override
  pub r_override : n.r_override ≡ m.r_override
  pub spindle_speed_ovr : n.spindle_speed_ovr ≡ m.spindle_speed_ovr
  pub spindle_stop_ovr : n.spindle_stop_ovr ≡ m.spindle_stop_ovr
  pub keeps_reset : m.exec_state.reset ≡ true → n.exec_state.reset ≡ true
  pub keeps_door : m.exec_state.safety_door ≡ true → n.exec_state.safety_door ≡ true
  pub keeps_hold : m.exec_state.feed_hold ≡ true → n.exec_state.feed_hold ≡ true
  pub keeps_start : m.exec_state.cycle_start ≡ true → n.exec_state.cycle_start ≡ true
  pub keeps_stop : m.exec_state.cycle_stop ≡ true → n.exec_state.cycle_stop ≡ true

pub set_exec-OnlyRaises :
    (e : ExecState) (m : Machine) → OnlyRaises m (system_set_exec_state_flag e m)
unfolding system_set_exec_state_flag
set_exec-OnlyRaises e m = ground arith

pub set_motion-OnlyRaises :
    (e : MotionOverride) (m : Machine) → OnlyRaises m (system_set_exec_motion_override_flag e m)
unfolding system_set_exec_motion_override_flag
set_motion-OnlyRaises e m = ground arith

pub set_accessory-OnlyRaises :
    (e : AccessoryOverride) (m : Machine)
    → OnlyRaises m (system_set_exec_accessory_override_flag e m)
unfolding system_set_exec_accessory_override_flag
set_accessory-OnlyRaises e m = ground arith

pub log-OnlyRaises : (c : Call) (m : Machine) → OnlyRaises m (log c m)
log-OnlyRaises c m = ground arith

pub OnlyRaises-refl : (m : Machine) → OnlyRaises m m
OnlyRaises-refl m = ground arith

pub set_alarm-OnlyRaises : (a : ℕ) (m : Machine) → OnlyRaises m (system_set_exec_alarm a m)
unfolding system_set_exec_alarm
set_alarm-OnlyRaises a m = ground arith

pub OnlyRaises-trans : {a b c : Machine} → OnlyRaises a b → OnlyRaises b c → OnlyRaises a c
OnlyRaises-trans p q = record {
  state = q.state ∙ p.state;
  abort = q.abort ∙ p.abort;
  suspend = q.suspend ∙ p.suspend;
  step_control = q.step_control ∙ p.step_control;
  f_override = q.f_override ∙ p.f_override;
  r_override = q.r_override ∙ p.r_override;
  spindle_speed_ovr = q.spindle_speed_ovr ∙ p.spindle_speed_ovr;
  spindle_stop_ovr = q.spindle_stop_ovr ∙ p.spindle_stop_ovr;
  keeps_reset = λ h. q.keeps_reset (p.keeps_reset h);
  keeps_door = λ h. q.keeps_door (p.keeps_door h);
  keeps_hold = λ h. q.keeps_hold (p.keeps_hold h);
  keeps_start = λ h. q.keeps_start (p.keeps_start h);
  keeps_stop = λ h. q.keeps_stop (p.keeps_stop h);
}
