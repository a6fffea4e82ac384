-- ===== src/Protocol/Suspend/Interlock.antt =====
-- The door interlock over the suspend loop of protocol.c: neither the loop nor the realtime executor
-- that it calls switches the spindle or the coolant on while the door is open.
use g_carvin.Base.{
  ◌≡◌, refl, sym, ◌∙◌, arith, true, false, not, ◌&&◌, ◌||◌, Option, List, [], ◌∷◌, ◌++◌, Bool,
  if◌then◌else◌, if_ind, if_cases,
}
use mathlib.Core.Path.{subst}
use g_carvin.System.{Machine, log, st_go_idle, sleep_mode, report_feedback_message}
use g_carvin.System.Flags.{system_set_exec_state_flag}
use g_carvin.Gcode.Real.{Vec}
use g_carvin.Protocol.Hold.{is_idle, is_safety_door, is_sleep}
use g_carvin.Protocol.Override.{is_hold}
use g_carvin.Protocol.Realtime.Interlock.{SameState, coolant_set_state-same}
use g_carvin.Protocol.Suspend.{
  Event, spindle_set_state, coolant_set_state_event, mc_parking_motion_event, Pass, Suspension,
  Progress, going, left, waiting, ◌>>=◌, Parking, emit, call, with_machine, start_motion,
  after_pass, run_pass, take_pass, next_pass, motion_passes, mc_parking_motion, de_energize,
  no_accessories, start_retract, aim, with_accessories, pull_out, fast_retract, retracted,
  stop_and_park, retract, sleep_passes, fall_asleep, check_door, restore, resume_or_sleep, manage,
  sleep_execute, sleep_check, suspend_round, suspend_loop, suspend_is_set, protocol_exec_rt_suspend,
  with_step_control,
}
use g_carvin.Protocol.Suspend.Flood.{IsDry, coolant_set_state-IsDry, IsDry-stays}
use g_carvin.Protocol.Suspend.Locked.{IsLocked, same-IsLocked, IsLocked-stays}

module _ {V : Type 0} where
  -- A call does not switch the spindle or the coolant on.
  abbrev pub IsOff : Event V → Type 0
  IsOff (spindle_set_state state speed) = state ≡ 0
  IsOff (coolant_set_state_event flood) = flood ≡ false
  IsOff (mc_parking_motion_event target plan) = Unit

  abbrev pub AllOff : List (Event V) → Type 0
  AllOff [] = Unit
  AllOff (e ∷ events) = IsOff e × AllOff events

  append-AllOff :
      (events : List (Event V)) (e : Event V) → AllOff events → IsOff e → AllOff (events ++ e ∷ [])
  append-AllOff [] e h k = (k, tt)
  append-AllOff (x ∷ xs) e (hx, hs) k = (hx, append-AllOff xs e hs k)

  call-AllOff :
      (aborted : Bool) (events : List (Event V)) (e : Event V)
      → AllOff events
      → IsOff e
      → AllOff (if aborted then events else events ++ e ∷ [])
  call-AllOff true events e h k = h
  call-AllOff false events e h k = append-AllOff events e h k

  -- The interrupts until a pass leave the state and the suspend byte alone and no alarm behind, do not
  -- turn the flood coolant on, and the door is open then.
  pub record IsCalm (p : Pass V) : Type 0 where
    pub same : (m : Machine) → SameState m (p.before m)
    pub dry : (m : Machine) → IsDry m → IsDry (p.before m)
    pub quiet : (m : Machine) → (p.before m).exec_alarm ≡ 0
    pub ajar : p.door_pin ≡ true

  abbrev pub AllCalm : List (Pass V) → Type 0
  AllCalm [] = Unit
  AllCalm (p ∷ ps) = IsCalm p × AllCalm ps

  abbrev pub AllRoundsCalm : List (List (Pass V)) → Type 0
  AllRoundsCalm [] = Unit
  AllRoundsCalm (ps ∷ later) = AllCalm ps × AllRoundsCalm later

-- `was_on` tells whether the flood coolant was on at the entry of the loop.
module _ {V : Type 0} (was_on : Bool) where
  -- The machine is locked at the open door, no call has switched anything on, and the flood coolant is
  -- off if it was.
  pub record IsSafe (s : Suspension V) : Type 0 where
    pub locked : IsLocked s.machine
    pub off : AllOff s.events
    pub flood : was_on ≡ false → IsDry s.machine
    pub ajar : s.door_pin ≡ true

  -- However far it has come.
  abbrev pub StaysSafe : Progress V → Type 0
  StaysSafe (going s) = IsSafe s
  StaysSafe (left s) = IsSafe s
  StaysSafe (waiting s) = IsSafe s

  -- Also the passes to come in the round are calm.
  record Inv (s : Suspension V) : Type 0 where
    safe : IsSafe s
    calm : AllCalm s.passes

  abbrev Invs : Progress V → Type 0
  Invs (going s) = Inv s
  Invs (left s) = IsSafe s
  Invs (waiting s) = IsSafe s

  bind-Invs :
      (r : Progress V) (next : Suspension V → Progress V)
      → Invs r
      → ((s : Suspension V) → Inv s → Invs (next s))
      → Invs (r >>= next)
  bind-Invs (going s) next h step = step s h
  bind-Invs (left s) next h step = h
  bind-Invs (waiting s) next h step = h

module _ {V : Type 0} (parking : Parking V) (was_on : Bool) where
  run_pass-Invs :
      (p : Pass V) (s : Suspension V) → IsCalm p → Inv was_on s → Invs was_on (run_pass parking p s)
  unfolding run_pass
  run_pass-Invs p s c i =
      let m = p.before s.machine in
      let (n, e, l) =
        IsLocked-stays parking.prep_control p.arrivals m (c.quiet s.machine)
          (same-IsLocked (c.same s.machine) i.safe.locked) in
      let found = record s { machine = m; position = p.position; door_pin = p.door_pin } in
      subst (λ (r : Option Machine). Invs was_on (after_pass parking found r)) (sym e)
        (record {
          safe = record {
            locked = l;
            off = i.safe.off;
            flood = λ off.
                IsDry-stays parking.prep_control p.arrivals m n (c.quiet s.machine)
                  (same-IsLocked (c.same s.machine) i.safe.locked) e
                  (c.dry s.machine (i.safe.flood off));
            ajar = c.ajar;
          };
          calm = i.calm;
        })

  take_pass-Invs :
      (ps : List (Pass V)) (s : Suspension V)
      → AllCalm ps
      → IsSafe was_on s
      → Invs was_on (take_pass parking s ps)
  take_pass-Invs [] s c i = i
  take_pass-Invs (p ∷ ps) s (c, cs) i =
      run_pass-Invs p (record s { passes = ps }) c
        (record {
          safe = record { locked = i.locked; off = i.off; flood = i.flood; ajar = i.ajar };
          calm = cs;
        })

  next_pass-Invs : (s : Suspension V) → Inv was_on s → Invs was_on (next_pass parking s)
  unfolding next_pass
  next_pass-Invs s i = take_pass-Invs s.passes s i.calm i.safe

  motion_passes-Invs :
      (ps : List (Pass V)) (s : Suspension V)
      → AllCalm ps
      → IsSafe was_on s
      → Invs was_on (motion_passes parking ps s)
  unfolding motion_passes
  motion_passes-Invs [] s c i = i
  motion_passes-Invs (p ∷ ps) s (c, cs) i =
      bind-Invs was_on (run_pass parking p (record s { passes = ps })) _
        (run_pass-Invs p (record s { passes = ps }) c
          (record {
            safe = record { locked = i.locked; off = i.off; flood = i.flood; ajar = i.ajar };
            calm = cs;
          }))
        (λ a h. if_ind (Invs was_on) a.machine.abort h (
          if_ind (Invs was_on) a.machine.step_control.execute_sys_motion
            (motion_passes-Invs ps a cs h.safe) h))

  -- What does not change the state and the suspend byte is as safe as before.
  IsSafe-same :
      (s t : Suspension V)
      → SameState s.machine t.machine
      → (IsDry s.machine → IsDry t.machine)
      → AllOff t.events
      → t.door_pin ≡ s.door_pin
      → IsSafe was_on s
      → IsSafe was_on t
  IsSafe-same s t same dry off pin i = record {
    locked = same-IsLocked same i.locked;
    off = off;
    flood = λ was_off. dry (i.flood was_off);
    ajar = pin ∙ i.ajar;
  }

  mc_parking_motion-Invs :
      (target : Vec V) (s : Suspension V)
      → Inv was_on s
      → Invs was_on (mc_parking_motion parking target s)
  unfolding mc_parking_motion
  mc_parking_motion-Invs target s i =
      let asked = emit parking (mc_parking_motion_event target s.plan) s in
      let off : AllOff asked.events =
        append-AllOff s.events (mc_parking_motion_event target s.plan) i.safe.off tt in
      let moving = with_machine parking (start_motion parking) asked in
      let still = with_step_control parking (λ c. record c { execute_sys_motion = false }) asked in
      if_ind (Invs was_on) s.machine.abort i (
        if_ind (Invs was_on) (parking.planned target s.plan)
          (motion_passes-Invs s.passes moving i.calm (
            IsSafe-same s moving (record { state = refl; suspend = refl })
              (λ d. record { dry = d.dry }) off refl i.safe))
          (next_pass-Invs still (record {
            safe =
                IsSafe-same s still (record { state = refl; suspend = refl })
                  (λ d. record { dry = d.dry }) off refl i.safe;
            calm = i.calm;
          })))

  de_energize-Inv : (s : Suspension V) → Inv was_on s → Inv was_on (de_energize parking s)
  de_energize-Inv s i =
      let stopped = call parking (spindle_set_state 0 parking.nought) s in
      record {
        safe =
            IsSafe-same s (de_energize parking s) (coolant_set_state-same false s.machine)
              (coolant_set_state-IsDry s.machine)
              (call-AllOff s.machine.abort stopped.events (coolant_set_state_event false)
                (call-AllOff s.machine.abort s.events (spindle_set_state 0 parking.nought)
                  i.safe.off refl)
                refl)
              refl i.safe;
        calm = i.calm;
      }

  start_retract-Inv : (s : Suspension V) → Inv was_on s → Inv was_on (start_retract parking s)
  unfolding start_retract
  start_retract-Inv s i = record {
    safe =
        IsSafe-same s (start_retract parking s) (record { state = refl; suspend = refl })
          (λ d. record { dry = d.dry }) i.safe.off refl i.safe;
    calm = i.calm;
  }

  -- Only the target and the planner data of a parking motion change.
  aimed-Inv :
      (s t : Suspension V)
      → t.machine ≡ s.machine
      → t.events ≡ s.events
      → t.door_pin ≡ s.door_pin
      → t.passes ≡ s.passes
      → Inv was_on s
      → Inv was_on t
  aimed-Inv s t em ee ep eps i = record {
    safe = record {
      locked = subst IsLocked (sym em) i.safe.locked;
      off = subst AllOff (sym ee) i.safe.off;
      flood = λ off. subst IsDry (sym em) (i.safe.flood off);
      ajar = ep ∙ i.safe.ajar;
    };
    calm = subst AllCalm (sym eps) i.calm;
  }

  pull_out-Invs : (s : Suspension V) → Inv was_on s → Invs was_on (pull_out parking s)
  unfolding pull_out
  pull_out-Invs s i =
      let up = aim parking s.retract_waypoint parking.pullout_rate s in
      let t = record up { plan = with_accessories parking up.plan } in
      if_ind (Invs was_on) (parking.less s.parking_target.z s.retract_waypoint)
        (mc_parking_motion-Invs up.parking_target t (aimed-Inv s t refl refl refl refl i)) i

  fast_retract-Invs : (s : Suspension V) → Inv was_on s → Invs was_on (fast_retract parking s)
  unfolding fast_retract
  fast_retract-Invs s i =
      let up = aim parking parking.target parking.rate s in
      if_ind (Invs was_on) (parking.less s.parking_target.z parking.target)
        (mc_parking_motion-Invs up.parking_target up (aimed-Inv s up refl refl refl refl i)) i

  stop_and_park-Invs : (s : Suspension V) → Inv was_on s → Invs was_on (stop_and_park parking s)
  unfolding stop_and_park
  stop_and_park-Invs s i =
      if_ind (Invs was_on)
        (parking.homing_enable
          && (parking.less s.parking_target.z parking.target && not parking.laser_mode))
        (bind-Invs was_on (pull_out parking s) _ (pull_out-Invs s i) (λ a h.
          let t = record a { plan = no_accessories parking a.plan } in
          fast_retract-Invs (de_energize parking t)
            (de_energize-Inv t (aimed-Inv a t refl refl refl refl h))))
        (de_energize-Inv s i)

  retracted-Inv : (s : Suspension V) → Inv was_on s → Inv was_on (retracted parking s)
  retracted-Inv s i = record {
    safe = record {
      locked = record {
        parked = record {
          ajar = i.safe.locked.parked.ajar;
          stopped = i.safe.locked.parked.stopped;
        };
        resting = i.safe.locked.resting;
      };
      off = i.safe.off;
      flood = λ off. record { dry = (i.safe.flood off).dry };
      ajar = i.safe.ajar;
    };
    calm = i.calm;
  }

  retract-Invs : (s : Suspension V) → Inv was_on s → Invs was_on (retract parking s)
  unfolding retract
  retract-Invs s i =
      bind-Invs was_on (stop_and_park parking (start_retract parking s)) _
        (stop_and_park-Invs (start_retract parking s) (start_retract-Inv s i)) retracted-Inv

  check_door-Inv : (s : Suspension V) → Inv was_on s → Inv was_on (check_door parking s)
  unfolding check_door
  check_door-Inv s i =
      let open_door : s.door_pin ≡ true = i.safe.ajar in
      if_cases (Inv was_on) (is_safety_door s.machine.state && not s.door_pin)
        (λ e. absurd (ground arith)) (λ _. i)

  restore-Invs : (s : Suspension V) → Inv was_on s → Invs was_on (restore parking s)
  unfolding restore
  restore-Invs s i =
      let resting : s.machine.suspend.initiate_restore ≡ false = i.safe.locked.resting in
      if_cases (Invs was_on) s.machine.suspend.initiate_restore (λ e. absurd (ground arith))
        (λ _. i)

  sleep_passes-Invs :
      (ps : List (Pass V)) (s : Suspension V)
      → AllCalm ps
      → IsSafe was_on s
      → Invs was_on (sleep_passes parking ps s)
  unfolding sleep_passes
  sleep_passes-Invs [] s c i = if_ind (Invs was_on) s.machine.abort i i
  sleep_passes-Invs (p ∷ ps) s (c, cs) i = if_ind (Invs was_on) s.machine.abort i (
      bind-Invs was_on (run_pass parking p (record s { passes = ps })) _
        (run_pass-Invs p (record s { passes = ps }) c
          (record {
            safe = record { locked = i.locked; off = i.off; flood = i.flood; ajar = i.ajar };
            calm = cs;
          }))
        (λ a h. sleep_passes-Invs ps a cs h.safe))

  fall_asleep-Invs : (s : Suspension V) → Inv was_on s → Invs was_on (fall_asleep parking s)
  unfolding fall_asleep
  fall_asleep-Invs s i =
      let told = with_machine parking (log (report_feedback_message sleep_mode)) s in
      let stopped = de_energize parking told in
      let idle = with_machine parking (log st_go_idle) stopped in
      let told-Inv : Inv was_on told = record {
        safe =
            IsSafe-same s told (record { state = refl; suspend = refl })
              (λ d. record { dry = d.dry }) i.safe.off refl i.safe;
        calm = i.calm;
      } in
      let h = de_energize-Inv told told-Inv in
      sleep_passes-Invs s.passes idle i.calm (
        IsSafe-same stopped idle (record { state = refl; suspend = refl })
          (λ d. record { dry = d.dry }) h.safe.off refl h.safe)

  manage-Invs : (s : Suspension V) → Inv was_on s → Invs was_on (manage parking s)
  unfolding manage resume_or_sleep
  manage-Invs s i =
      let stopped = i.safe.locked.parked.stopped in
      if_ind (Invs was_on) (not s.machine.suspend.hold_complete) i (
        if_cases (Invs was_on) (is_safety_door s.machine.state || is_sleep s.machine.state)
          (λ _. if_ind (Invs was_on) (not s.machine.suspend.retract_complete) (retract-Invs s i) (
            if_ind (Invs was_on) (is_sleep s.machine.state) (fall_asleep-Invs s i)
              (restore-Invs (check_door parking s) (check_door-Inv s i))))
          (λ moving. absurd (ground arith)))

  sleep_check-same : (m : Machine) → SameState m (sleep_check parking m)
  unfolding sleep_check sleep_execute system_set_exec_state_flag
  sleep_check-same m =
      let same : SameState m m = record { state = refl; suspend = refl } in
      if_ind (SameState m) (not (m.modal_spindle || m.modal_coolant)) same (
        if_ind (SameState m)
          (is_idle m.state
            || ((is_hold m.state && m.suspend.hold_complete)
                || (is_safety_door m.state && m.suspend.retract_complete)))
          (if_ind (SameState m) (parking.times_out m) (record { state = refl; suspend = refl })
            same)
          same)

  sleep_check-IsDry : (m : Machine) → IsDry m → IsDry (sleep_check parking m)
  unfolding sleep_check sleep_execute system_set_exec_state_flag
  sleep_check-IsDry m d = ground arith

  suspend_round-Invs : (s : Suspension V) → Inv was_on s → Invs was_on (suspend_round parking s)
  unfolding suspend_round
  suspend_round-Invs s i = bind-Invs was_on (manage parking s) _ (manage-Invs s i) (λ a h.
      let t = with_machine parking (sleep_check parking) a in
      next_pass-Invs t (record {
        safe =
            IsSafe-same a t (sleep_check-same a.machine) (sleep_check-IsDry a.machine) h.safe.off
              refl h.safe;
        calm = h.calm;
      }))

  bind-StaysSafe :
      (r : Progress V) (next : Suspension V → Progress V)
      → Invs was_on r
      → ((s : Suspension V) → IsSafe was_on s → StaysSafe was_on (next s))
      → StaysSafe was_on (r >>= next)
  bind-StaysSafe (going s) next h step = step s h.safe
  bind-StaysSafe (left s) next h step = h
  bind-StaysSafe (waiting s) next h step = h

  suspend_loop-StaysSafe :
      (rounds : List (List (Pass V))) (s : Suspension V)
      → AllRoundsCalm rounds
      → IsSafe was_on s
      → StaysSafe was_on (suspend_loop parking rounds s)
  unfolding suspend_loop
  suspend_loop-StaysSafe [] s c i = i
  suspend_loop-StaysSafe (ps ∷ later) s (c, cs) i =
      let s' = record s { passes = ps } in
      if_ind (StaysSafe was_on) (not (suspend_is_set parking s.machine.suspend) || s.machine.abort)
        i
        (bind-StaysSafe (suspend_round parking s') _
          (suspend_round-Invs s' (record {
            safe = record { locked = i.locked; off = i.off; flood = i.flood; ajar = i.ajar };
            calm = c;
          }))
          (λ a h. suspend_loop-StaysSafe later a cs h))

-- While the machine waits at the open door and has not begun to restore, the suspend loop calls neither
-- the spindle nor the coolant but to switch it off, a flood coolant that is off at the entry stays off
-- over the calls of the loop and of the realtime executor, and the machine goes on waiting there,
-- whatever is requested, cycle start and a coolant toggle included, however many rounds the loop makes
-- and wherever it is then. The interrupts leave the state and the suspend byte alone and no alarm
-- behind, and do not turn the flood coolant on.
pub protocol_exec_rt_suspend-StaysSafe :
    {V : Type 0} (parking : Parking V) (position : Vec V) (rounds : List (List (Pass V)))
    (m : Machine)
    → AllRoundsCalm rounds
    → IsLocked m
    → StaysSafe m.flood_pin (protocol_exec_rt_suspend parking position true rounds m)
unfolding protocol_exec_rt_suspend
protocol_exec_rt_suspend-StaysSafe parking position rounds m c l =
    suspend_loop-StaysSafe parking m.flood_pin rounds _ c
      (record { locked = l; off = tt; flood = λ off. record { dry = off }; ajar = refl })
