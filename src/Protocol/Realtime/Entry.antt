-- ===== src/Protocol/Realtime/Entry.antt =====
-- When `protocol_exec_rt_system` of protocol.c may set the cycle running.
use mathlib.Core.Option.{some-injective}
use g_carvin.Base.{
  Bool, true, false, ◌||◌, ◌≡◌, ◌⊎◌, inl, inr, sym, ap, ◌∙◌, arith, if_ind, if_cases, List, some,
}
use g_carvin.System.{cycle, Machine, ExecState, StepControl}
use g_carvin.System.Flags.{system_clear_exec_state_flag, no_exec}
use g_carvin.Protocol.Hold.{
  begin_hold, hold_when_idle, motion_cancel, feed_hold, restart_retract, enter_door, set_ajar,
  door_event, sleep_event, hold_events, hold_block,
}
use g_carvin.Protocol.Cycle.{
  start_at_door, resume, start_or_restore, start_block, complete_hold, flush_jog, end_motion,
  stop_block,
}
use g_carvin.Protocol.Realtime.{
  count_report, status_block, state_blocks, override_blocks, protocol_exec_rt_system,
}
use g_carvin.Protocol.Realtime.Interlock.{pass_lem, override_blocks-same}
use g_carvin.Protocol.Alarm.{Interrupt}

-- A step that does not set the cycle running, and does not make a block appear.
record NoStart (m n : Machine) : Type 0 where
  running : n.state ≡ cycle → m.state ≡ cycle
  block : n.block_waiting ≡ true → m.block_waiting ≡ true

NoStart-refl : (m : Machine) → NoStart m m
NoStart-refl m = record { running = λ h. h; block = λ h. h }

NoStart-trans : {a b c : Machine} → NoStart a b → NoStart b c → NoStart a c
NoStart-trans p q = record {
  running = λ h. p.running (q.running h);
  block = λ h. p.block (q.block h);
}

clear-NoStart : (e : ExecState) (m : Machine) → NoStart m (system_clear_exec_state_flag e m)
unfolding system_clear_exec_state_flag
clear-NoStart e m = ground arith

status_block-NoStart : (rt : ExecState) (m : Machine) → NoStart m (status_block rt m)
unfolding status_block system_clear_exec_state_flag count_report
status_block-NoStart rt m = ground arith

begin_hold-NoStart : (rt : ExecState) (m : Machine) → NoStart m (begin_hold rt m)
unfolding begin_hold
begin_hold-NoStart rt m = ground arith

hold_when_idle-NoStart : (m : Machine) → NoStart m (hold_when_idle m)
unfolding hold_when_idle
hold_when_idle-NoStart m = ground arith

motion_cancel-NoStart : (rt : ExecState) (m : Machine) → NoStart m (motion_cancel rt m)
unfolding motion_cancel
motion_cancel-NoStart rt m = ground arith

feed_hold-NoStart : (rt : ExecState) (m : Machine) → NoStart m (feed_hold rt m)
unfolding feed_hold
feed_hold-NoStart rt m = ground arith

restart_retract-NoStart : (m : Machine) → NoStart m (restart_retract m)
unfolding restart_retract
restart_retract-NoStart m = record { running = λ h. h; block = λ h. h }

enter_door-NoStart : (m : Machine) → NoStart m (enter_door m)
unfolding enter_door
enter_door-NoStart m = ground (arith, (restart_retract-NoStart m).block)

door_event-NoStart : (rt : ExecState) (m : Machine) → NoStart m (door_event rt m)
unfolding door_event set_ajar
door_event-NoStart rt m =
    if_ind (NoStart m) _
      (NoStart-trans (record { running = λ h. h; block = λ h. h })
        (NoStart-trans (enter_door-NoStart _) (record { running = λ h. h; block = λ h. h })))
      (NoStart-refl m)

sleep_event-NoStart : (rt : ExecState) (m : Machine) → NoStart m (sleep_event rt m)
unfolding sleep_event
sleep_event-NoStart rt m = ground arith

hold_events-NoStart : (rt : ExecState) (m : Machine) → NoStart m (hold_events rt m)
unfolding hold_events
hold_events-NoStart rt m = if_ind (NoStart m) _ (NoStart-refl m) (
    NoStart-trans (begin_hold-NoStart rt m) (
      NoStart-trans (hold_when_idle-NoStart _) (
        NoStart-trans (motion_cancel-NoStart rt _)
          (NoStart-trans (feed_hold-NoStart rt _) (door_event-NoStart rt _)))))

hold_block-NoStart : (rt : ExecState) (m : Machine) → NoStart m (hold_block rt m)
unfolding hold_block
hold_block-NoStart rt m =
    if_ind (NoStart m) _
      (NoStart-trans (hold_events-NoStart rt m)
        (NoStart-trans (sleep_event-NoStart rt _) (clear-NoStart _ _)))
      (NoStart-refl m)

complete_hold-NoStart : (m : Machine) → NoStart m (complete_hold m)
unfolding complete_hold
complete_hold-NoStart m = record { running = λ h. h; block = λ h. h }

flush_jog-NoStart : (m : Machine) → NoStart m (flush_jog m)
unfolding flush_jog
flush_jog-NoStart m = ground arith

end_motion-NoStart : (m : Machine) → NoStart m (end_motion m)
unfolding end_motion
end_motion-NoStart m = ground arith

stop_block-NoStart : (rt : ExecState) (m : Machine) → NoStart m (stop_block rt m)
unfolding stop_block
stop_block-NoStart rt m =
    if_ind (NoStart m) _
      (NoStart-trans
        (if_ind (NoStart m) _ (complete_hold-NoStart m)
          (NoStart-trans (flush_jog-NoStart m) (end_motion-NoStart _)))
        (clear-NoStart _ _))
      (NoStart-refl m)

start_at_door-NoStart : (m : Machine) → NoStart m (start_at_door m)
unfolding start_at_door
start_at_door-NoStart m = ground arith

-- What a start needs of the flags and the planner.
pub record StartAllowed (rt : ExecState) (m : Machine) : Type 0 where
  pub asked : rt.cycle_start ≡ true
  pub no_hold : rt.feed_hold ≡ false
  pub no_cancel : rt.motion_cancel ≡ false
  pub no_door : rt.safety_door ≡ false
  pub block : m.block_waiting ≡ true

or_false₃ : (a b c : Bool) → (a || (b || c)) ≡ false → (a ≡ false) × (b ≡ false) × (c ≡ false)
or_false₃ a b c h = ground arith

StartAllowed-NoStart :
    {rt : ExecState} {m n : Machine} → NoStart m n → StartAllowed rt n → StartAllowed rt m
StartAllowed-NoStart s a = record {
  asked = a.asked;
  no_hold = a.no_hold;
  no_cancel = a.no_cancel;
  no_door = a.no_door;
  block = s.block a.block;
}

abbrev start_flag : ExecState
start_flag = record no_exec { cycle_start = true }

module _ (prep : Machine → StepControl) where
  resume-block : (m : Machine) → (resume prep m).state ≡ cycle → m.block_waiting ≡ true
  unfolding resume
  resume-block m h = ground arith

  start_or_restore-block :
      (m : Machine)
      → (start_or_restore prep m).state ≡ cycle
      → (m.state ≡ cycle) ⊎ (m.block_waiting ≡ true)
  unfolding start_or_restore
  start_or_restore-block m h = ground (arith, resume-block m)

  start_door-block :
      (m : Machine)
      → (start_or_restore prep (start_at_door m)).state ≡ cycle
      → (m.state ≡ cycle) ⊎ (m.block_waiting ≡ true)
  start_door-block m h =
      let n = start_at_door-NoStart m in
      elim (start_or_restore-block (start_at_door m) h) [
        | inl running ↦ inl (n.running running)
        | inr block ↦ inr (n.block block)
      ]

  start_block-entry :
      (rt : ExecState) (m : Machine)
      → (start_block prep rt m).state ≡ cycle
      → (m.state ≡ cycle) ⊎ StartAllowed rt m
  unfolding start_block
  start_block-entry rt m =
      if_cases Enters rt.cycle_start
        (λ asked. clear_enters _ (
          if_cases Enters (rt.feed_hold || (rt.motion_cancel || rt.safety_door)) (λ held h. inl h)
            (λ free h. allowed asked (or_false₃ _ _ _ free) (start_door-block m h))))
        (λ _ h. inl h)
    where
      Enters : Machine → Type 0
      Enters n = n.state ≡ cycle → (m.state ≡ cycle) ⊎ StartAllowed rt m

      clear_enters : (n : Machine) → Enters n → Enters (system_clear_exec_state_flag start_flag n)
      clear_enters n e h = e ((clear-NoStart start_flag n).running h)

      allowed :
          rt.cycle_start ≡ true
          → (rt.feed_hold ≡ false) × (rt.motion_cancel ≡ false) × (rt.safety_door ≡ false)
          → (m.state ≡ cycle) ⊎ (m.block_waiting ≡ true)
          → (m.state ≡ cycle) ⊎ StartAllowed rt m
      allowed a f (inl running) = inl running
      allowed a f (inr waits) =
          inr (record { asked = a; no_hold = f.0; no_cancel = f.1; no_door = f.2; block = waits })

  state_blocks-entry :
      (rt : ExecState) (m : Machine)
      → (state_blocks prep rt m).state ≡ cycle
      → (m.state ≡ cycle) ⊎ StartAllowed rt m
  unfolding state_blocks
  state_blocks-entry rt m h =
      let before = NoStart-trans (status_block-NoStart rt m) (hold_block-NoStart rt _) in
      elim (start_block-entry rt _ ((stop_block-NoStart rt _).running h)) [
        | inl running ↦ inl (before.running running)
        | inr allowed ↦ inr (StartAllowed-NoStart before allowed)
      ]

  -- With no alarm and no reset pending, a pass of the realtime executor ends in the cycle state only
  -- if the cycle ran before, or if a cycle start was asked for with no feed hold, motion cancel or
  -- door event beside it and the planner holds a block.
  pub cycle_entry :
      (arrivals : List Interrupt) (m : Machine) {n : Machine}
      → m.exec_alarm ≡ 0
      → m.exec_state.reset ≡ false
      → protocol_exec_rt_system prep arrivals m ≡ some n
      → n.state ≡ cycle
      → (m.state ≡ cycle) ⊎ StartAllowed m.exec_state m
  cycle_entry arrivals m {n} a r e h =
      let same : some n ≡ some (override_blocks prep (state_blocks prep m.exec_state m)) =
        sym e ∙ pass_lem prep arrivals m a r in
      let state = (override_blocks-same prep (state_blocks prep m.exec_state m)).state in
      state_blocks-entry m.exec_state m
        (sym state ∙ ap (λ (k : Machine). k.state) (sym (some-injective n _ same)) ∙ h)
