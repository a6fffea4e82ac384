-- ===== src/Protocol/Realtime/Critical.antt =====
-- Limit alarms in `protocol_exec_rt_system` of protocol.c: only a reset ends them.
use mathlib.Core.Option
use g_carvin.Base.{
  Bool, true, false, ◌||◌, ◌≡◌, ◌⊎◌, inl, inr, refl, ap, ◌∙◌, arith, Bool-cases, if_true, if_false,
  List, [], ◌∷◌, Option, none, some, ◌==◌,
}
use g_carvin.System.{
  alarm, Machine, StepControl, log, report_alarm_message, report_feedback_message, critical_event,
}
use g_carvin.System.Flags.{
  system_set_exec_state_flag, system_clear_exec_state_flag, system_clear_exec_alarm,
  system_set_exec_alarm, system_set_exec_motion_override_flag,
  system_set_exec_accessory_override_flag,
}
use g_carvin.System.Raises.{
  OnlyRaises, set_exec-OnlyRaises, set_alarm-OnlyRaises, set_motion-OnlyRaises,
  set_accessory-OnlyRaises,
}
use g_carvin.MotionControl.{mc_reset-OnlyRaises, mc_reset-reset}
use g_carvin.Protocol.Alarm.{
  Interrupt, set_exec, set_alarm, set_motion, set_accessory, reset_button, handle, wait_for_reset,
  alarm_block, is_critical, only_reset,
}
use g_carvin.Protocol.Realtime.{after_alarm, protocol_exec_rt_system}

handle-OnlyRaises : (i : Interrupt) (m : Machine) → OnlyRaises m (handle i m)
unfolding handle
handle-OnlyRaises (set_exec e) m = set_exec-OnlyRaises e m
handle-OnlyRaises (set_alarm a) m = set_alarm-OnlyRaises a m
handle-OnlyRaises (set_motion e) m = set_motion-OnlyRaises e m
handle-OnlyRaises (set_accessory e) m = set_accessory-OnlyRaises e m
handle-OnlyRaises reset_button m = mc_reset-OnlyRaises m

-- The interrupts that set the reset flag.
abbrev pub resets : Interrupt → Bool
resets (set_exec e) = e.reset
resets reset_button = true
resets _ = false

abbrev pub any_resets : List Interrupt → Bool
any_resets [] = false
any_resets (i ∷ later) = resets i || any_resets later

handle-reset :
    (i : Interrupt) (m : Machine) → resets i ≡ true → (handle i m).exec_state.reset ≡ true
unfolding handle system_set_exec_state_flag
handle-reset (set_exec e) m r = ground arith
handle-reset (set_alarm a) m r = cc
handle-reset (set_motion e) m r = cc
handle-reset (set_accessory e) m r = cc
handle-reset reset_button m r = mc_reset-reset m

-- The wait ends with the reset flag set and the state unchanged.
abbrev Ended : Machine → Option Machine → Type 0
Ended m o = (n : Machine) × (o ≡ some n) × (n.exec_state.reset ≡ true) × (n.state ≡ m.state)

wait_stops :
    (later : List Interrupt) (m : Machine)
    → m.exec_state.reset ≡ true
    → wait_for_reset later m ≡ some m
unfolding wait_for_reset
wait_stops [] m r = rw r
wait_stops (i ∷ later) m r = rw r

wait_goes_on :
    (i : Interrupt) (later : List Interrupt) (m : Machine)
    → m.exec_state.reset ≡ false
    → wait_for_reset (i ∷ later) m ≡ wait_for_reset later (handle i m)
unfolding wait_for_reset
wait_goes_on i later m r = rw r

wait_for_reset_lem :
    (arrivals : List Interrupt) (m : Machine)
    → (m.exec_state.reset ≡ true) ⊎ (any_resets arrivals ≡ true)
    → Ended m (wait_for_reset arrivals m)
wait_for_reset_lem arrivals m (inl r) = (m, wait_stops arrivals m r, r, refl)
wait_for_reset_lem [] m (inr no_more) = cc
wait_for_reset_lem (i ∷ later) m (inr h) = elim (Bool-cases m.exec_state.reset) [
  | inl r ↦ (m, wait_stops (i ∷ later) m r, r, refl)
  | inr r ↦
      let (n, e, done, s) = wait_for_reset_lem later (handle i m) (next i later m h) in
      (n, wait_goes_on i later m r ∙ e, done, s ∙ (handle-OnlyRaises i m).state)
]
  where
    next :
        (i : Interrupt) (later : List Interrupt) (m : Machine)
        → (resets i || any_resets later) ≡ true
        → ((handle i m).exec_state.reset ≡ true) ⊎ (any_resets later ≡ true)
    next i later m h = elim (Bool-cases (resets i)) [
      | inl r ↦ inl (handle-reset i m r)
      | inr r ↦ inr (rw r at h)
    ]

handle-no_reset :
    (i : Interrupt) (m : Machine)
    → resets i ≡ false
    → m.exec_state.reset ≡ false
    → (handle i m).exec_state.reset ≡ false
unfolding handle system_set_exec_state_flag system_set_exec_alarm
    system_set_exec_motion_override_flag system_set_exec_accessory_override_flag
handle-no_reset (set_exec e) m r h = ground arith
handle-no_reset (set_alarm a) m r h = h
handle-no_reset (set_motion e) m r h = h
handle-no_reset (set_accessory e) m r h = h
handle-no_reset reset_button m r h = cc

or_false : (a b : Bool) → (a || b) ≡ false → (a ≡ false) × (b ≡ false)
or_false a b h = ground arith

wait_forever :
    (arrivals : List Interrupt) (m : Machine)
    → m.exec_state.reset ≡ false
    → any_resets arrivals ≡ false
    → wait_for_reset arrivals m ≡ none
unfolding wait_for_reset
wait_forever [] m r no_more = if_false _ _ r
wait_forever (i ∷ later) m r h =
    let (h1, h2) = or_false (resets i) (any_resets later) h in
    wait_goes_on i later m r ∙ wait_forever later (handle i m) (handle-no_reset i m h1 r) h2

-- The machine as the wait of a limit alarm finds it.
waiting : Machine → Machine
waiting m = system_clear_exec_state_flag only_reset (
    log (report_feedback_message critical_event)
      (log (report_alarm_message m.exec_alarm) (record m { state = alarm })))

waiting_lem : (m : Machine) → ((waiting m).exec_state.reset ≡ false) × ((waiting m).state ≡ alarm)
unfolding waiting system_clear_exec_state_flag
waiting_lem m = (ground arith, refl)

alarm_block-critical :
    (arrivals : List Interrupt) (m : Machine)
    → is_critical m.exec_alarm ≡ true
    → alarm_block arrivals m
      ≡ Option.map system_clear_exec_alarm (wait_for_reset arrivals (waiting m))
unfolding alarm_block waiting
alarm_block-critical arrivals m c =
    let raised : (m.exec_alarm == 0) ≡ false = ground arith in rw (raised, c)

-- With the reset flag set the rest of the pass only sets the abort flag.
abort_lem :
    (prep : Machine → StepControl) (m : Machine)
    → m.exec_state.reset ≡ true
    → after_alarm prep (system_clear_exec_alarm m) ≡ record m { exec_alarm = 0; abort = true }
unfolding after_alarm system_clear_exec_alarm
abort_lem prep m r = if_true _ _ r

-- While a hard or soft limit alarm is pending, the pass ends only by a reset: if one of the
-- arriving interrupts sets the reset flag it ends aborted, in the alarm state with the alarm
-- cleared, and if none does it never ends, whatever else is requested.
pub critical_alarm :
    (prep : Machine → StepControl) (arrivals : List Interrupt) (m : Machine)
    → is_critical m.exec_alarm ≡ true
    → ((any_resets arrivals ≡ true)
        × (n : Machine) × (protocol_exec_rt_system prep arrivals m ≡ some n)
        × (n.abort ≡ true)
        × (n.state ≡ alarm)
        × (n.exec_alarm ≡ 0))
      ⊎ ((any_resets arrivals ≡ false) × (protocol_exec_rt_system prep arrivals m ≡ none))
unfolding protocol_exec_rt_system
critical_alarm prep arrivals m c = elim (Bool-cases (any_resets arrivals)) [
  | inl h ↦
      let (w, e, r, s) = wait_for_reset_lem arrivals (waiting m) (inr h) in
      let ends : protocol_exec_rt_system prep arrivals m
          ≡ some (record w { exec_alarm = 0; abort = true }) =
        ap (Option.map (after_alarm prep))
          (alarm_block-critical arrivals m c ∙ ap (Option.map system_clear_exec_alarm) e)
        ∙ ap some (abort_lem prep w r) in
      inl (h, (record w { exec_alarm = 0; abort = true }), ends, refl, s ∙ (waiting_lem m).1, refl)
  | inr h ↦ inr (
    h,
    ap (Option.map (after_alarm prep)) (
        alarm_block-critical arrivals m c
        ∙ ap (Option.map system_clear_exec_alarm)
            (wait_forever arrivals (waiting m) (waiting_lem m).0 h)),
  )
]
