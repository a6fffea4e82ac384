-- ===== src/Protocol/Suspend/Stops.antt =====
-- What the suspend loop of protocol.c does at the door before anything else: it stops the spindle and
-- the coolant.
use g_carvin.Base.{
  ℕ, ◌≡◌, refl, ap, ◌∙◌, Bool, true, false, not, ◌&&◌, Option, none, some, List, [], ◌∷◌, ◌++◌,
  if◌then◌else◌, if_ind, if_cases, if_true, if_false, Bool-cases, inl, inr, ◌⊎◌, sym,
}
use g_carvin.System.{Machine}
use g_carvin.Gcode.Real.{Vec}
use g_carvin.Protocol.Override.{coolant_set_state}
use g_carvin.Protocol.Realtime.{protocol_exec_rt_system}
use g_carvin.Protocol.Suspend.{
  Event, spindle_set_state, coolant_set_state_event, mc_parking_motion_event, Pass, Suspension,
  Progress, going, left, waiting, ◌>>=◌, ParkingPlan, with_accessories, Parking, emit, call,
  with_machine, start_motion, after_pass, run_pass, take_pass, next_pass, motion_passes,
  mc_parking_motion, de_energize, no_accessories, start_retract, aim, pull_out, fast_retract,
  retracted, stop_and_park, retract, with_step_control,
}

module _ {V : Type 0} where
  -- The spindle state and the coolant after some calls.
  abbrev pub after_event : Event V → ℕ × Bool → ℕ × Bool
  after_event (spindle_set_state state speed) (spindle, coolant) = (state, coolant)
  after_event (coolant_set_state_event flood) (spindle, coolant) = (spindle, flood)
  after_event (mc_parking_motion_event target plan) m = m

  unfoldable pub outputs : ℕ × Bool → List (Event V) → ℕ × Bool
  outputs m [] = m
  outputs m (e ∷ events) = outputs (after_event e m) events

  outputs-append :
      (m : ℕ × Bool) (events : List (Event V)) (e : Event V)
      → outputs m (events ++ e ∷ []) ≡ after_event e (outputs m events)
  unfolding outputs
  outputs-append m [] e = refl
  outputs-append m (x ∷ xs) e = outputs-append (after_event x m) xs e

  -- The last call has asked for a parking motion.
  pub record IsMoving (events : List (Event V)) : Type 0 where
    pub earlier : List (Event V)
    pub target : Vec V
    pub plan : ParkingPlan V
    pub asked : events ≡ earlier ++ mc_parking_motion_event target plan ∷ []

  -- It does not return to the main loop; the first holds once it goes on, and the second of the calls
  -- while it waits for a pass.
  abbrev pub Ends : (Suspension V → Type 0) → (List (Event V) → Type 0) → Progress V → Type 0
  Ends P W (going s) = P s
  Ends P W (left s) = ⊥
  Ends P W (waiting s) = W s.events

  bind-Ends :
      (P Q : Suspension V → Type 0) (W : List (Event V) → Type 0) (r : Progress V)
      (next : Suspension V → Progress V)
      → Ends P W r
      → ((s : Suspension V) → P s → Ends Q W (next s))
      → Ends Q W (r >>= next)
  bind-Ends P Q W (going s) next h step = step s h
  bind-Ends P Q W (left s) next h step = h
  bind-Ends P Q W (waiting s) next h step = h

  weaken-Ends :
      (P Q : Suspension V → Type 0) (W X : List (Event V) → Type 0) (r : Progress V)
      → Ends P W r
      → ((s : Suspension V) → P s → Q s)
      → ((events : List (Event V)) → W events → X events)
      → Ends Q X r
  weaken-Ends P Q W X (going s) h f g = f s h
  weaken-Ends P Q W X (left s) h f g = h
  weaken-Ends P Q W X (waiting s) h f g = g s.events h

  -- The spindle and the coolant are off, whatever they were before, or an abort has come, which makes
  -- the calls return at once.
  abbrev pub IsOffAfter : Suspension V → Type 0
  IsOffAfter s = (s.machine.abort ≡ true) ⊎ ((m : ℕ × Bool) → outputs m s.events ≡ (0, false))

  -- They are off or an abort has come, and the retraction is marked as complete.
  pub record IsRetracted (s : Suspension V) : Type 0 where
    pub off : (s.machine.abort ≡ true) ⊎ ((m : ℕ × Bool) → outputs m s.events ≡ (0, false))
    pub complete : s.machine.suspend.retract_complete ≡ true

-- What the calls of parking motions keep, the motions keep.
module _ {V : Type 0} (parking : Parking V) (Q : List (Event V) → Type 0) where
  abbrev Kept : Suspension V → Type 0
  Kept s = Q s.events

  after_pass-Ends :
      (s : Suspension V) (r : Option Machine) → Kept s → Ends Kept Q (after_pass parking s r)
  after_pass-Ends s none h = h
  after_pass-Ends s (some m) h = h

  run_pass-Ends : (p : Pass V) (s : Suspension V) → Kept s → Ends Kept Q (run_pass parking p s)
  unfolding run_pass
  run_pass-Ends p s h =
      after_pass-Ends
        (record s { machine = p.before s.machine; position = p.position; door_pin = p.door_pin })
        (protocol_exec_rt_system parking.prep_control p.arrivals (p.before s.machine)) h

  take_pass-Ends :
      (ps : List (Pass V)) (s : Suspension V) → Kept s → Ends Kept Q (take_pass parking s ps)
  take_pass-Ends [] s h = h
  take_pass-Ends (p ∷ ps) s h = run_pass-Ends p (record s { passes = ps }) h

  motion_passes-Ends :
      (ps : List (Pass V)) (s : Suspension V) → Kept s → Ends Kept Q (motion_passes parking ps s)
  unfolding motion_passes
  motion_passes-Ends [] s h = h
  motion_passes-Ends (p ∷ ps) s h =
      bind-Ends Kept Kept Q (run_pass parking p (record s { passes = ps })) _
        (run_pass-Ends p (record s { passes = ps }) h)
        (λ a k. if_ind (Ends Kept Q) a.machine.abort k (
          if_ind (Ends Kept Q) a.machine.step_control.execute_sys_motion (motion_passes-Ends ps a k)
            k))

module _ {V : Type 0} (parking : Parking V) (Q : List (Event V) → Type 0)
    (parks : (events : List (Event V)) (target : Vec V) (plan : ParkingPlan V)
      → Q events
      → Q (events ++ mc_parking_motion_event target plan ∷ [])) where
  abbrev Holds : Suspension V → Type 0
  Holds s = Q s.events

  mc_parking_motion-Ends :
      (target : Vec V) (s : Suspension V)
      → Holds s
      → Ends Holds IsMoving (mc_parking_motion parking target s)
  unfolding mc_parking_motion next_pass
  mc_parking_motion-Ends target s h =
      let asked = emit parking (mc_parking_motion_event target s.plan) s in
      let Both : List (Event V) → Type 0 = λ events. Q events × IsMoving events in
      let moving : IsMoving asked.events = record {
        earlier = s.events;
        target = target;
        plan = s.plan;
        asked = refl;
      } in
      let both : Both asked.events = (parks s.events target s.plan h, moving) in
      if_ind (Ends Holds IsMoving) s.machine.abort h (
        weaken-Ends (λ a. Both a.events) Holds Both IsMoving _
          (if_ind (Ends (λ a. Both a.events) Both) (parking.planned target s.plan)
            (motion_passes-Ends parking Both s.passes
              (with_machine parking (start_motion parking) asked) both)
            (take_pass-Ends parking Both s.passes
              (with_step_control parking (λ c. record c { execute_sys_motion = false }) asked)
              both))
          (λ a k. k.0) (λ events k. k.1))

  pull_out-Ends : (s : Suspension V) → Holds s → Ends Holds IsMoving (pull_out parking s)
  unfolding pull_out
  pull_out-Ends s h =
      let up = aim parking s.retract_waypoint parking.pullout_rate s in
      if_ind (Ends Holds IsMoving) (parking.less s.parking_target.z s.retract_waypoint)
        (mc_parking_motion-Ends up.parking_target
          (record up { plan = with_accessories parking up.plan }) h)
        h

  fast_retract-Ends : (s : Suspension V) → Holds s → Ends Holds IsMoving (fast_retract parking s)
  unfolding fast_retract
  fast_retract-Ends s h =
      let up = aim parking parking.target parking.rate s in
      if_ind (Ends Holds IsMoving) (parking.less s.parking_target.z parking.target)
        (mc_parking_motion-Ends up.parking_target up h) h

module _ {V : Type 0} (parking : Parking V) where
  abbrev IsAllOff : List (Event V) → Type 0
  IsAllOff events = (m : ℕ × Bool) → outputs m events ≡ (0, false)

  de_energize-off :
      (s : Suspension V) → s.machine.abort ≡ false → IsAllOff (de_energize parking s).events
  de_energize-off s runs m =
      let stopped = call parking (spindle_set_state 0 parking.nought) s in
      ap (outputs m) (if_false _ _ runs)
      ∙ outputs-append m stopped.events (coolant_set_state_event false)
      ∙ ap (after_event {V = V} (coolant_set_state_event false)) (
          ap (outputs m) (if_false _ _ runs)
          ∙ outputs-append m s.events (spindle_set_state 0 parking.nought))

  coolant-abort : (m : Machine) → m.abort ≡ true → (coolant_set_state false m).abort ≡ true
  unfolding coolant_set_state
  coolant-abort m a = ap (λ (n : Machine). n.abort) (if_true _ _ a) ∙ a

  de_energize-IsOffAfter : (s : Suspension V) → IsOffAfter (de_energize parking s)
  de_energize-IsOffAfter s = elim (Bool-cases s.machine.abort) [
    | inl a ↦ inl (coolant-abort s.machine a)
    | inr runs ↦ inr (de_energize-off s runs)
  ]

  -- While an abort is pending no parking motion begins.
  aborted-Ends :
      (s : Suspension V)
      → s.machine.abort ≡ true
      → Ends (λ a. a.machine.abort ≡ true) IsMoving (fast_retract parking s)
  unfolding fast_retract mc_parking_motion
  aborted-Ends s a =
      let A : Suspension V → Type 0 = λ t. t.machine.abort ≡ true in
      if_ind (Ends A IsMoving) (parking.less s.parking_target.z parking.target)
        (if_cases (Ends A IsMoving) s.machine.abort (λ _. a)
          (λ runs. let clash : false ≡ true = sym runs ∙ a in cc))
        a

  abbrev pub can_park : Suspension V → Bool
  can_park s =
      parking.homing_enable
      && (parking.less s.parking_target.z parking.target && not parking.laser_mode)

  then_retract :
      (s : Suspension V) → Ends IsOffAfter IsMoving (fast_retract parking (de_energize parking s))
  then_retract s = elim (Bool-cases s.machine.abort) [
    | inl a ↦
        weaken-Ends (λ t. t.machine.abort ≡ true) IsOffAfter IsMoving IsMoving _
          (aborted-Ends (de_energize parking s) (coolant-abort s.machine a)) (λ t k. inl k)
          (λ events k. k)
    | inr runs ↦
        weaken-Ends (λ t. IsAllOff t.events) IsOffAfter IsMoving IsMoving _
          (fast_retract-Ends parking IsAllOff
            (λ events target plan h m.
              outputs-append m events (mc_parking_motion_event target plan) ∙ h m)
            (de_energize parking s) (de_energize-off s runs))
          (λ t k. inr k) (λ events k. k)
  ]

  park-Ends :
      (s : Suspension V)
      → Ends IsOffAfter IsMoving (
          pull_out parking s >>= λ a.
          fast_retract parking
            (de_energize parking (record a { plan = no_accessories parking a.plan })))
  park-Ends s =
      bind-Ends (λ a. Unit) IsOffAfter IsMoving (pull_out parking s) _
        (pull_out-Ends parking (λ events. Unit) (λ events target plan h. tt) s tt)
        (λ a _. then_retract (record a { plan = no_accessories parking a.plan }))

  -- A retraction is over, or a parking motion that it has asked for waits for more passes.
  abbrev pub IsRetractedOrParks : Bool → Progress V → Type 0
  IsRetractedOrParks parks (going s) = IsRetracted s
  IsRetractedOrParks parks (left s) = ⊥
  IsRetractedOrParks parks (waiting s) = (parks ≡ true) × IsMoving s.events

  parks-Ends :
      (r : Progress V)
      → Ends IsOffAfter IsMoving r
      → IsRetractedOrParks true (r >>= λ a. going (retracted parking a))
  parks-Ends (going s) h = record { off = h; complete = refl }
  parks-Ends (left s) h = h
  parks-Ends (waiting s) h = (refl, h)

  stops :
      (c : Bool) (s : Suspension V)
      → IsRetractedOrParks c (
          (if c
            then (pull_out parking s >>= λ a.
                fast_retract parking
                  (de_energize parking (record a { plan = no_accessories parking a.plan })))
            else going (de_energize parking s))
          >>= λ a. going (retracted parking a))
  stops true s = parks-Ends _ (park-Ends s)
  stops false s = record { off = de_energize-IsOffAfter s; complete = refl }

  -- The retraction at the door does not leave the loop. It ends, or the machine parks, a parking motion
  -- was asked for last, and the passes of the executor end before that motion. Once it has ended, it is
  -- marked as complete, and either an abort has come, or the last call to the spindle has stopped it and
  -- the last call to the coolant has turned it off.
  pub retract-IsRetractedOrParks :
      (s : Suspension V)
      → IsRetractedOrParks (can_park (start_retract parking s)) (retract parking s)
  unfolding retract stop_and_park
  retract-IsRetractedOrParks s =
      stops (can_park (start_retract parking s)) (start_retract parking s)
