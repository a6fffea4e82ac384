-- ===== src/Protocol/DoorOpens.antt =====
-- The safety door opens: what each block of `protocol_exec_rt_system` in protocol.c does then.
use mathlib.Core.Path.{subst}
use g_carvin.Base.{sym, true, false, ◌||◌, ◌≡◌, ◌⊎◌, inl, inr, arith, if_ind, if◌then◌else◌}
use g_carvin.System.{
  safety_door, sleep, jog, Machine, ExecState, StepControl, log, report_feedback_message,
  safety_door_ajar,
}
use g_carvin.System.Flags.{system_clear_exec_state_flag}
use g_carvin.Protocol.Hold.{
  begin_hold, hold_when_idle, motion_cancel, feed_hold, enter_door, set_ajar, door_event,
  sleep_event, hold_events, hold_block, hold_flags, is_alarm_or_check,
}
use g_carvin.Protocol.Cycle.{
  start_at_door, start_or_restore, start_block, complete_hold, stop_block,
}
use g_carvin.Protocol.Door.{Parked, stop_ended}

-- The door is marked ajar, and the machine is at rest or comes to rest: it waits in the door
-- state, sleeps, or is a jog that has been cancelled.
pub record Stopping (m : Machine) : Type 0 where
  pub ajar : m.suspend.door_ajar ≡ true
  pub stopping :
      (m.state ≡ safety_door)
      ⊎ ((m.state ≡ sleep) ⊎ ((m.state ≡ jog) × (m.suspend.jog_cancel ≡ true)))

-- Only a jog is marked as a cancelled jog.
abbrev pub CancelsJog : Machine → Type 0
CancelsJog m = (m.suspend.jog_cancel ≡ false) ⊎ (m.state ≡ jog)

clear-Stopping :
    (e : ExecState) (m : Machine) → Stopping m → Stopping (system_clear_exec_state_flag e m)
unfolding system_clear_exec_state_flag
clear-Stopping e m p = ground arith

sleep_event-Stopping : (rt : ExecState) (m : Machine) → Stopping m → Stopping (sleep_event rt m)
unfolding sleep_event
sleep_event-Stopping rt m p = ground arith

Parked-Stopping : {m : Machine} → Parked m → Stopping m
Parked-Stopping p = ground arith

begin_hold-CancelsJog : (rt : ExecState) (m : Machine) → CancelsJog m → CancelsJog (begin_hold rt m)
unfolding begin_hold
begin_hold-CancelsJog rt m c = ground arith

hold_when_idle-CancelsJog : (m : Machine) → CancelsJog m → CancelsJog (hold_when_idle m)
unfolding hold_when_idle
hold_when_idle-CancelsJog m c = ground arith

motion_cancel-CancelsJog :
    (rt : ExecState) (m : Machine) → CancelsJog m → CancelsJog (motion_cancel rt m)
unfolding motion_cancel
motion_cancel-CancelsJog rt m c = ground arith

feed_hold-CancelsJog : (rt : ExecState) (m : Machine) → CancelsJog m → CancelsJog (feed_hold rt m)
unfolding feed_hold
feed_hold-CancelsJog rt m c = ground arith

-- Either the jog was being cancelled, and nothing changes, or the machine is in the door state or
-- asleep.
enter_door_lem :
    (m : Machine)
    → ((m.suspend.jog_cancel ≡ true) × (enter_door m ≡ m))
      ⊎ ((m.suspend.jog_cancel ≡ false)
          × (((enter_door m).state ≡ safety_door) ⊎ ((enter_door m).state ≡ sleep)))
unfolding enter_door
enter_door_lem m = ground arith

set_ajar-Stopping :
    (m : Machine)
    → (m.state ≡ safety_door)
      ⊎ ((m.state ≡ sleep) ⊎ ((m.state ≡ jog) × (m.suspend.jog_cancel ≡ true)))
    → Stopping (set_ajar m)
unfolding set_ajar
set_ajar-Stopping m h = ground arith

door_ajar-Stopping : (m : Machine) → CancelsJog m → Stopping (set_ajar (enter_door m))
door_ajar-Stopping m c = elim (enter_door_lem m) [
  | inl (j, e) ↦ rw e (set_ajar-Stopping m (ground arith))
  | inr (j, s) ↦ set_ajar-Stopping (enter_door m) (ground arith)
]

log_door-CancelsJog :
    (m : Machine) → CancelsJog m → CancelsJog (log (report_feedback_message safety_door_ajar) m)
log_door-CancelsJog m c = c

door_event-Stopping :
    (rt : ExecState) (m : Machine)
    → rt.safety_door ≡ true
    → CancelsJog m
    → Stopping (door_event rt m)
unfolding door_event
door_event-Stopping rt m d c =
    subst
      (λ b.
        Stopping (
          if b
          then set_ajar (enter_door (log (report_feedback_message safety_door_ajar) m))
          else m))
      (sym d) (door_ajar-Stopping _ (log_door-CancelsJog m c))

hold_events-Stopping :
    (rt : ExecState) (m : Machine)
    → rt.safety_door ≡ true
    → is_alarm_or_check m.state ≡ false
    → CancelsJog m
    → Stopping (hold_events rt m)
unfolding hold_events
hold_events-Stopping rt m d a c =
    subst
      (λ b. Stopping (
        if b
        then m
        else door_event rt (feed_hold rt (motion_cancel rt (hold_when_idle (begin_hold rt m))))))
      (sym a)
      (door_event-Stopping rt _ d (
        feed_hold-CancelsJog rt _ (
          motion_cancel-CancelsJog rt _
            (hold_when_idle-CancelsJog _ (begin_hold-CancelsJog rt m c)))))

any_hold :
    (rt : ExecState)
    → rt.safety_door ≡ true
    → (rt.motion_cancel || (rt.feed_hold || (rt.safety_door || rt.sleep))) ≡ true
any_hold rt d = ground arith

hold_wins :
    (rt : ExecState)
    → rt.safety_door ≡ true
    → (rt.feed_hold || (rt.motion_cancel || rt.safety_door)) ≡ true
hold_wins rt d = ground arith

pub hold_block-Stopping :
    (rt : ExecState) (m : Machine)
    → rt.safety_door ≡ true
    → is_alarm_or_check m.state ≡ false
    → CancelsJog m
    → Stopping (hold_block rt m)
unfolding hold_block
hold_block-Stopping rt m d a c =
    subst
      (λ b. Stopping (
        if b
        then system_clear_exec_state_flag hold_flags (sleep_event rt (hold_events rt m))
        else m))
      (sym (any_hold rt d))
      (clear-Stopping _ _ (sleep_event-Stopping rt _ (hold_events-Stopping rt m d a c)))

pub start_block-Stopping :
    (prep : Machine → StepControl) (rt : ExecState) (m : Machine)
    → rt.safety_door ≡ true
    → Stopping m
    → Stopping (start_block prep rt m)
unfolding start_block
start_block-Stopping prep rt m d p =
    if_ind Stopping _
      (clear-Stopping _ _ (
        subst (λ b. Stopping (if b then m else start_or_restore prep (start_at_door m)))
          (sym (hold_wins rt d)) p))
      p

complete_hold-Stopping : (m : Machine) → Stopping m → Stopping (complete_hold m)
unfolding complete_hold
complete_hold-Stopping m p = ground arith

pub stop_block-Stopping : (rt : ExecState) (m : Machine) → Stopping m → Stopping (stop_block rt m)
unfolding stop_block
stop_block-Stopping rt m p =
    if_ind Stopping _
      (clear-Stopping _ _
        (if_ind Stopping _ (complete_hold-Stopping m p) (Parked-Stopping (stop_ended m p.ajar))))
      p
