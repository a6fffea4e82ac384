-- ===== src/Protocol/Realtime/Interlock.antt =====
-- The door interlock over a whole pass of `protocol_exec_rt_system` in protocol.c.
use g_carvin.Base.{ℕ, Bool, true, false, not, ◌≡◌, refl, ap, ◌∙◌, arith, if_ind, List, some}
use g_carvin.System.{Machine, ExecState, StepControl}
use g_carvin.System.Flags.{
  system_clear_exec_state_flag, system_clear_exec_motion_overrides,
  system_clear_exec_accessory_overrides,
}
use g_carvin.MotionControl.{coolant_stop}
use g_carvin.Protocol.Alarm.{Interrupt, alarm_block}
use g_carvin.Protocol.Override.{
  set_motion_overrides, motion_override_block, set_spindle_override, toggle_spindle_stop,
  coolant_set_state, toggle_coolant, accessory_override_block,
}
use g_carvin.Protocol.Hold.{is_alarm_or_check}
use g_carvin.Protocol.Door.{Parked, hold_block-Parked, start_block-Parked, stop_block-Parked}
use g_carvin.Protocol.DoorOpens.{
  Stopping, CancelsJog, hold_block-Stopping, start_block-Stopping, stop_block-Stopping,
}
use g_carvin.Protocol.Realtime.{
  count_report, status_block, prep_block, state_blocks, override_blocks, after_alarm,
  protocol_exec_rt_system,
}

-- Blocks that leave the state and the suspend byte alone.
pub record SameState (m n : Machine) : Type 0 where
  pub state : n.state ≡ m.state
  pub suspend : n.suspend ≡ m.suspend

SameState-refl : (m : Machine) → SameState m m
SameState-refl m = record { state = refl; suspend = refl }

pub SameState-trans : {a b c : Machine} → SameState a b → SameState b c → SameState a c
SameState-trans p q = record { state = q.state ∙ p.state; suspend = q.suspend ∙ p.suspend }

pub status_block-same : (rt : ExecState) (m : Machine) → SameState m (status_block rt m)
unfolding status_block system_clear_exec_state_flag count_report
status_block-same rt m = ground arith

clear_motion-same : (m : Machine) → SameState m (system_clear_exec_motion_overrides m)
unfolding system_clear_exec_motion_overrides
clear_motion-same m = ground arith

pub clear_accessory-same : (m : Machine) → SameState m (system_clear_exec_accessory_overrides m)
unfolding system_clear_exec_accessory_overrides
clear_accessory-same m = ground arith

set_motion_overrides-same : (f r : ℕ) (m : Machine) → SameState m (set_motion_overrides f r m)
unfolding set_motion_overrides
set_motion_overrides-same f r m = ground arith

pub set_spindle_override-same : (s : ℕ) (m : Machine) → SameState m (set_spindle_override s m)
unfolding set_spindle_override
set_spindle_override-same s m = ground arith

pub toggle_spindle_stop-same : (b : Bool) (m : Machine) → SameState m (toggle_spindle_stop b m)
unfolding toggle_spindle_stop
toggle_spindle_stop-same b m = ground arith

pub coolant_set_state-same : (b : Bool) (m : Machine) → SameState m (coolant_set_state b m)
unfolding coolant_set_state coolant_stop
coolant_set_state-same b m = ground arith

toggle_coolant-same : (b : Bool) (m : Machine) → SameState m (toggle_coolant b m)
unfolding toggle_coolant
toggle_coolant-same b m = ground (arith, coolant_set_state-same (not m.modal_coolant) m)

pub motion_override_block-same : (m : Machine) → SameState m (motion_override_block m)
unfolding motion_override_block
motion_override_block-same m =
    if_ind (SameState m) _ (SameState-trans (clear_motion-same m) (set_motion_overrides-same _ _ _))
      (SameState-refl m)

accessory_override_block-same : (m : Machine) → SameState m (accessory_override_block m)
unfolding accessory_override_block
accessory_override_block-same m =
    if_ind (SameState m) _
      (SameState-trans (clear_accessory-same m) (
        SameState-trans (set_spindle_override-same _ _)
          (SameState-trans (toggle_spindle_stop-same _ _) (toggle_coolant-same _ _))))
      (SameState-refl m)

module _ (prep : Machine → StepControl) where
  prep_block-same : (m : Machine) → SameState m (prep_block prep m)
  unfolding prep_block
  prep_block-same m = ground arith

  pub override_blocks-same : (m : Machine) → SameState m (override_blocks prep m)
  unfolding override_blocks
  override_blocks-same m =
      SameState-trans (motion_override_block-same m)
        (SameState-trans (accessory_override_block-same _) (prep_block-same _))

pub Parked-same : {m n : Machine} → SameState m n → Parked m → Parked n
Parked-same s p = ground arith

Stopping-same : {m n : Machine} → SameState m n → Stopping m → Stopping n
Stopping-same s p = ground arith

CancelsJog-same : {m n : Machine} → SameState m n → CancelsJog m → CancelsJog n
CancelsJog-same s c = ground arith

module _ (prep : Machine → StepControl) (arrivals : List Interrupt) (m : Machine) where
  -- With no alarm and no reset pending a pass is the state blocks and then the override blocks.
  pub pass_lem :
      m.exec_alarm ≡ 0
      → m.exec_state.reset ≡ false
      → protocol_exec_rt_system prep arrivals m
        ≡ some (override_blocks prep (state_blocks prep m.exec_state m))
  unfolding protocol_exec_rt_system alarm_block after_alarm
  pass_lem a r = rw (a, r)

  -- A machine that is parked at the open door, with no alarm and no reset pending, is still parked
  -- there after a pass of the realtime executor, whatever else was requested, cycle start included.
  pub Parked-stays :
      m.exec_alarm ≡ 0
      → m.exec_state.reset ≡ false
      → Parked m
      → (n : Machine) × (protocol_exec_rt_system prep arrivals m ≡ some n) × Parked n
  unfolding state_blocks
  Parked-stays a r p = (
    _,
    pass_lem a r,
    Parked-same (override_blocks-same prep _) (
        stop_block-Parked _ _ (
          start_block-Parked prep _ _
            (hold_block-Parked _ _ (Parked-same (status_block-same _ _) p)))),
  )

  -- When the door event is pending, with no alarm and no reset, in any state but the alarm and the
  -- check state, and no jog is marked as being cancelled outside the jog state, a pass of the realtime executor marks the door as ajar and leaves the machine in
  -- the door state, asleep, or in a jog that is being cancelled, even if a cycle start is pending.
  pub door_stops :
      m.exec_alarm ≡ 0
      → m.exec_state.reset ≡ false
      → m.exec_state.safety_door ≡ true
      → is_alarm_or_check m.state ≡ false
      → CancelsJog m
      → (n : Machine) × (protocol_exec_rt_system prep arrivals m ≡ some n) × Stopping n
  unfolding state_blocks
  door_stops a r d s c =
      let same = status_block-same m.exec_state m in
      (
        _,
        pass_lem a r,
        Stopping-same (override_blocks-same prep _) (
            stop_block-Stopping _ _ (
              start_block-Stopping prep _ _ d (
                hold_block-Stopping _ _ d (ap is_alarm_or_check same.state ∙ s)
                  (CancelsJog-same same c)))),
      )
