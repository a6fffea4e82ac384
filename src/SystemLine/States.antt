-- ===== src/SystemLine/States.antt =====
-- Which `$` commands of system.c act in which state.
use g_carvin.Base.{
  ℕ, ◌≡◌, refl, sym, ap, ◌∙◌, arith, Bool, true, false, not, ◌||◌, List, get_or, ◌==◌, if_ind,
  if_cases,
}
use g_carvin.System.{State, idle, alarm, check_mode, homing, cycle, hold, jog, safety_door, sleep}
use g_carvin.System.Pins.{system_check_safety_door_ajar}
use g_carvin.Protocol.Line.{gc_execute_line, line_dispatch}
use g_carvin.SystemLine.Added.{is_print, Adds, Adds-none, Adds-order}
use g_carvin.SystemLine.{
  Env, Sys, Executed, char_at, is_idle, is_alarm, is_jog, is_check_mode, is_running, jog_line,
  toggle_check_mode, unlock_alarm, state_command, home, idle_command, is_state_command,
  system_execute_line, set_state, ends, order, Order, report_grbl_help, report_grbl_settings,
  report_gcode_modes,
}

-- The states of a motion, a hold, the door and the sleep.
abbrev pub is_occupied : State → Bool
is_occupied homing = true
is_occupied cycle = true
is_occupied hold = true
is_occupied safety_door = true
is_occupied sleep = true
is_occupied _ = false

record IsNone (state : State) : Type 0 where
  no_idle : is_idle state ≡ false
  no_alarm : is_alarm state ≡ false
  no_jog : is_jog state ≡ false
  no_check : is_check_mode state ≡ false

occupied-IsNone : (state : State) → is_occupied state ≡ true → IsNone state
occupied-IsNone homing h = record {
  no_idle = refl;
  no_alarm = refl;
  no_jog = refl;
  no_check = refl;
}
occupied-IsNone cycle h = record { no_idle = refl; no_alarm = refl; no_jog = refl; no_check = refl }
occupied-IsNone hold h = record { no_idle = refl; no_alarm = refl; no_jog = refl; no_check = refl }
occupied-IsNone safety_door h = record {
  no_idle = refl;
  no_alarm = refl;
  no_jog = refl;
  no_check = refl;
}
occupied-IsNone sleep h = record { no_idle = refl; no_alarm = refl; no_jog = refl; no_check = refl }
occupied-IsNone idle h = cc
occupied-IsNone alarm h = cc
occupied-IsNone check_mode h = cc
occupied-IsNone jog h = cc

homing_dispatch :
    (code : List ℕ)
    → (get_or code 0 0 == 0) ≡ false
    → (get_or code 0 0 == b'$') ≡ false
    → line_dispatch homing false code ≡ gc_execute_line code
unfolding line_dispatch
homing_dispatch code some_text no_dollar = rw (some_text, no_dollar)

module _ {V : Type 0} (env : Env V) where
  -- A command prints at most, and returns.
  pub record OnlyPrints (s : Sys V) (e : Executed V) : Type 0 where
    pub machine : e.sys.machine ≡ s.machine
    pub gc : e.sys.gc ≡ s.gc
    pub settings : e.sys.settings ≡ s.settings
    pub memory : e.sys.memory ≡ s.memory
    pub use_sleep_feature : e.sys.use_sleep_feature ≡ s.use_sleep_feature
    pub returns : e.returns ≡ true
    pub prints : Adds is_print s.orders e.sys.orders

  module _ (s : Sys V) (state : IsNone s.machine.state) where
    nothing : (status : ℕ) → OnlyPrints s (ends env status s)
    nothing status = record {
      machine = refl;
      gc = refl;
      settings = refl;
      memory = refl;
      use_sleep_feature = refl;
      returns = refl;
      prints = Adds-none is_print s.orders;
    }

    printed :
        (status : ℕ) (o : Order V)
        → is_print o ≡ true
        → OnlyPrints s (ends env status (order env o s))
    printed status o k = record {
      machine = refl;
      gc = refl;
      settings = refl;
      memory = refl;
      use_sleep_feature = refl;
      returns = refl;
      prints = Adds-order is_print s.orders s.orders o k (Adds-none is_print s.orders);
    }

    state_command-OnlyPrints : (c : ℕ) → OnlyPrints s (state_command env c s)
    unfolding state_command toggle_check_mode unlock_alarm
    state_command-OnlyPrints c =
        let no_idle = state.no_idle in
        let no_alarm = state.no_alarm in
        let no_check = state.no_check in
        if_ind (OnlyPrints s) (c == b'$')
          (if_ind (OnlyPrints s) (is_running s.machine.state) (nothing 8)
            (printed 0 report_grbl_settings refl))
          (if_ind (OnlyPrints s) (c == b'G') (printed 0 report_gcode_modes refl) (
            if_ind (OnlyPrints s) (c == b'C')
              (if_cases (OnlyPrints s) (is_check_mode s.machine.state) (λ e. absurd (ground arith))
                (λ _.
                  if_cases (OnlyPrints s) (not (is_idle s.machine.state)) (λ _. nothing 8)
                    (λ e. absurd (ground arith))))
              (if_cases (OnlyPrints s) (is_alarm s.machine.state) (λ e. absurd (ground arith))
                (λ _. nothing 0))))

    execute-OnlyPrints : (line : List ℕ) → OnlyPrints s (system_execute_line env line s)
    unfolding system_execute_line jog_line
    execute-OnlyPrints line =
        let c = char_at 1 line in
        let no_idle = state.no_idle in
        let no_alarm = state.no_alarm in
        let no_jog = state.no_jog in
        if_ind (OnlyPrints s) (c == 0) (printed 0 report_grbl_help refl) (
          if_ind (OnlyPrints s) (c == b'J')
            (if_cases (OnlyPrints s) (not (is_idle s.machine.state || is_jog s.machine.state))
              (λ _. nothing 8) (λ e. absurd (ground arith)))
            (if_ind (OnlyPrints s) (is_state_command env c)
              (if_ind (OnlyPrints s) (not (char_at 2 line == 0)) (nothing 3)
                (state_command-OnlyPrints c))
              (if_cases (OnlyPrints s) (not (is_idle s.machine.state || is_alarm s.machine.state))
                (λ _. nothing 8) (λ e. absurd (ground arith)))))

  -- During a motion, in a hold, at the door, while homing and asleep a `$` line returns and prints at
  -- most: the machine, the parser, the settings and the EEPROM stay as they are, and every order that
  -- it adds is a report or a message, none a reset of the CPU, a call of the stepper or the LEDs, or a
  -- line for the parser.
  pub system_execute_line-OnlyPrints :
      (line : List ℕ) (s : Sys V)
      → is_occupied s.machine.state ≡ true
      → OnlyPrints s (system_execute_line env line s)
  system_execute_line-OnlyPrints line s h =
      execute-OnlyPrints s (occupied-IsNone s.machine.state h) line

  home_fails :
      (line : List ℕ) (s : Sys V)
      → (char_at 1 line == b'H') ≡ true
      → (char_at 2 line == 0) ≡ false
      → is_alarm s.machine.state ≡ true
      → s.settings.flags.homing_enable ≡ true
      → system_check_safety_door_ajar env.port ≡ false
      → system_execute_line env line s
        ≡ record { returns = true; status = 3; sys = set_state env homing s }
  unfolding system_execute_line idle_command home
  home_fails line s h more a enabled closed =
      let c = char_at 1 line in
      let stuck : Executed V = record {
        returns = true;
        status = 3;
        sys = set_state env homing s;
      } in
      let door : Bool = system_check_safety_door_ajar env.port in
      let open_door : door ≡ true → ⊥ = λ e. let clash : false ≡ true = sym closed ∙ e in cc in
      let idle_or_alarm : (is_idle s.machine.state || is_alarm s.machine.state) ≡ true =
        ground arith in
      if_cases (λ (q : Executed V). q ≡ stuck) (c == 0) (λ e. absurd (ground arith))
        (λ _.
          if_cases (λ (q : Executed V). q ≡ stuck) (c == b'J') (λ e. absurd (ground arith))
            (λ _.
              if_cases (λ (q : Executed V). q ≡ stuck) (is_state_command env c)
                (λ e. absurd (ground arith))
                (λ _.
                  if_cases (λ (q : Executed V). q ≡ stuck)
                    (not (is_idle s.machine.state || is_alarm s.machine.state))
                    (λ e. absurd (ground arith))
                    (λ _.
                      if_cases (λ (q : Executed V). q ≡ stuck) (c == b'#')
                        (λ e. absurd (ground arith))
                        (λ _.
                          if_cases (λ (q : Executed V). q ≡ stuck) (c == b'H')
                            (λ _.
                              if_cases (λ (q : Executed V). q ≡ stuck)
                                (not s.settings.flags.homing_enable) (λ e. absurd (ground arith))
                                (λ _.
                                  if_cases (λ (q : Executed V). q ≡ stuck) door
                                    (λ e. absurd (open_door e))
                                    (λ _.
                                      if_cases (λ (q : Executed V). q ≡ stuck)
                                        (not (char_at 2 line == 0)) (λ _. refl)
                                        (λ e. absurd (ground arith)))))
                            (λ e. absurd (ground arith)))))))

  -- With homing enabled and the door closed, $H with a further character is refused with status 3 in
  -- the alarm state, but leaves the machine in the homing state: the next line of G-code is handed to
  -- the parser, which the alarm state refused.
  pub system_execute_line-unlocks :
      (line : List ℕ) (s : Sys V) (code : List ℕ)
      → (char_at 1 line == b'H') ≡ true
      → (char_at 2 line == 0) ≡ false
      → is_alarm s.machine.state ≡ true
      → s.settings.flags.homing_enable ≡ true
      → system_check_safety_door_ajar env.port ≡ false
      → (get_or code 0 0 == 0) ≡ false
      → (get_or code 0 0 == b'$') ≡ false
      → ((system_execute_line env line s).status ≡ 3)
        × (line_dispatch (system_execute_line env line s).sys.machine.state false code
            ≡ gc_execute_line code)
  system_execute_line-unlocks line s code h more a enabled closed some_text no_dollar =
      let e = home_fails line s h more a enabled closed in
      (
        ap (λ (q : Executed V). q.status) e,
        ap (λ (q : Executed V). line_dispatch q.sys.machine.state false code) e
            ∙ homing_dispatch code some_text no_dollar,
      )
