-- ===== src/Serial/Realtime.antt =====
-- ISR(SERIAL_RX) of serial.c: realtime commands raise flags, every other byte is stored.
use g_carvin.Base.{
  ℕ, Bool, true, false, ◌||◌, ltb, ◌==◌, if◌then◌else◌, if_ind, if_true, if_false, Option, none,
  some, ◌≡◌, arith,
}
use g_carvin.System.{State, jog, Machine, MotionOverride, AccessoryOverride}
use g_carvin.System.Flags.{
  no_exec, no_motion, no_accessory, system_set_exec_state_flag,
  system_set_exec_motion_override_flag, system_set_exec_accessory_override_flag,
}
use g_carvin.System.Raises.{
  OnlyRaises, OnlyRaises-refl, set_exec-OnlyRaises, set_motion-OnlyRaises, set_accessory-OnlyRaises,
}
use g_carvin.MotionControl.{mc_reset, mc_reset-OnlyRaises}
use g_carvin.Serial.{Serial, store_rx}

abbrev pub is_jog : State → Bool
is_jog jog = true
is_jog _ = false

-- The commands 0x90 to 0x97 of the inner switch.
unfoldable pub motion_command : ℕ → Machine → Machine
motion_command c m =
    let set = system_set_exec_motion_override_flag in
    if c == 0x90
    then set (record no_motion { feed_reset = true }) m
    else if c == 0x91
    then set (record no_motion { feed_coarse_plus = true }) m
    else if c == 0x92
    then set (record no_motion { feed_coarse_minus = true }) m
    else if c == 0x93
    then set (record no_motion { feed_fine_plus = true }) m
    else if c == 0x94
    then set (record no_motion { feed_fine_minus = true }) m
    else if c == 0x95
    then set (record no_motion { rapid_reset = true }) m
    else if c == 0x96
    then set (record no_motion { rapid_medium = true }) m
    else if c == 0x97
    then set (record no_motion { rapid_low = true }) m
    else m

-- The commands 0x99 to 0xA0 of the inner switch; the mist toggle 0xA1 needs ENABLE_M7.
unfoldable pub accessory_command : ℕ → Machine → Machine
accessory_command c m =
    let set = system_set_exec_accessory_override_flag in
    if c == 0x99
    then set (record no_accessory { spindle_reset = true }) m
    else if c == 0x9A
    then set (record no_accessory { spindle_coarse_plus = true }) m
    else if c == 0x9B
    then set (record no_accessory { spindle_coarse_minus = true }) m
    else if c == 0x9C
    then set (record no_accessory { spindle_fine_plus = true }) m
    else if c == 0x9D
    then set (record no_accessory { spindle_fine_minus = true }) m
    else if c == 0x9E
    then set (record no_accessory { spindle_stop = true }) m
    else if c == 0xA0
    then set (record no_accessory { flood_toggle = true }) m
    else m

-- The inner switch, for bytes above 0x7F. The cases are distinct constants.
unfoldable pub extended_command : ℕ → Machine → Machine
extended_command c m =
    if c == 0x84
    then system_set_exec_state_flag (record no_exec { safety_door = true }) m
    else if c == 0x85
    then (if is_jog m.state
        then system_set_exec_state_flag (record no_exec { motion_cancel = true }) m
        else m)
    else if ltb c 0x98
    then motion_command c m
    else accessory_command c m

-- The cases of the switch that return, with DEBUG off and CARVIN on.
unfoldable pub received_byte : ℕ → Serial → Machine → Serial × Machine
received_byte c s m =
    let set = system_set_exec_state_flag in
    if c == 0x18
    then (s, mc_reset m)
    else if c == b'?'
    then (s, set (record no_exec { status_report = true }) m)
    else if c == b'~'
    then (s, set (record no_exec { cycle_start = true }) m)
    else if c == b'!'
    then (s, set (record no_exec { feed_hold = true }) m)
    else if c == b'@'
    then (s, set (record no_exec { safety_door = true }) m)
    else if ltb 0x7F c
    then (s, extended_command c m)
    else (store_rx c s, m)

-- The whole handler. `none` is the reset of the CPU, which does not return.
unfoldable pub serial_rx_isr : ℕ → Serial → Machine → Option (Serial × Machine)
serial_rx_isr c s m = if c == 0x19 then none else some (received_byte c s m)

-- The bytes that return and never reach the line buffer.
abbrev pub is_realtime : ℕ → Bool
is_realtime c = c == 0x18 || (c == b'?' || (c == b'~' || (c == b'!' || (c == b'@' || ltb 0x7F c))))

motion_command-OnlyRaises : (c : ℕ) (m : Machine) → OnlyRaises m (motion_command c m)
unfolding motion_command
motion_command-OnlyRaises c m = either (c == 0x90) (r _) (
    either (c == 0x91) (r _) (
      either (c == 0x92) (r _) (
        either (c == 0x93) (r _) (
          either (c == 0x94) (r _) (
            either (c == 0x95) (r _)
              (either (c == 0x96) (r _) (either (c == 0x97) (r _) (OnlyRaises-refl m))))))))
  where
    either :
        (b : Bool) {x y : Machine}
        → OnlyRaises m x
        → OnlyRaises m y
        → OnlyRaises m (if b then x else y)
    either b = if_ind (OnlyRaises m) b

    r : (e : MotionOverride) → OnlyRaises m (system_set_exec_motion_override_flag e m)
    r e = set_motion-OnlyRaises e m

accessory_command-OnlyRaises : (c : ℕ) (m : Machine) → OnlyRaises m (accessory_command c m)
unfolding accessory_command
accessory_command-OnlyRaises c m = either (c == 0x99) (r _) (
    either (c == 0x9A) (r _) (
      either (c == 0x9B) (r _) (
        either (c == 0x9C) (r _) (
          either (c == 0x9D) (r _)
            (either (c == 0x9E) (r _) (either (c == 0xA0) (r _) (OnlyRaises-refl m)))))))
  where
    either :
        (b : Bool) {x y : Machine}
        → OnlyRaises m x
        → OnlyRaises m y
        → OnlyRaises m (if b then x else y)
    either b = if_ind (OnlyRaises m) b

    r : (e : AccessoryOverride) → OnlyRaises m (system_set_exec_accessory_override_flag e m)
    r e = set_accessory-OnlyRaises e m

extended_command-OnlyRaises : (c : ℕ) (m : Machine) → OnlyRaises m (extended_command c m)
unfolding extended_command
extended_command-OnlyRaises c m = either (c == 0x84) (set_exec-OnlyRaises _ m) (
    either (c == 0x85) (either (is_jog m.state) (set_exec-OnlyRaises _ m) (OnlyRaises-refl m))
      (either (ltb c 0x98) (motion_command-OnlyRaises c m) (accessory_command-OnlyRaises c m)))
  where
    either :
        (b : Bool) {x y : Machine}
        → OnlyRaises m x
        → OnlyRaises m y
        → OnlyRaises m (if b then x else y)
    either b = if_ind (OnlyRaises m) b

received_byte-OnlyRaises : (c : ℕ) (s : Serial) (m : Machine) → OnlyRaises m (received_byte c s m).1
unfolding received_byte
received_byte-OnlyRaises c s m = either (c == 0x18) _ _ (mc_reset-OnlyRaises m) (
    either (c == b'?') _ _ (set_exec-OnlyRaises _ m) (
      either (c == b'~') _ _ (set_exec-OnlyRaises _ m) (
        either (c == b'!') _ _ (set_exec-OnlyRaises _ m) (
          either (c == b'@') _ _ (set_exec-OnlyRaises _ m)
            (either (ltb 0x7F c) _ _ (extended_command-OnlyRaises c m) (OnlyRaises-refl m))))))
  where
    either :
        (b : Bool) (x y : Serial × Machine)
        → OnlyRaises m x.1
        → OnlyRaises m y.1
        → OnlyRaises m (if b then x else y).1
    either b x y = if_ind (λ (p : Serial × Machine). OnlyRaises m p.1) b

-- Whatever byte but 0x19 arrives in whatever state, the receive interrupt returns, leaves the
-- machine's state, its suspend and step control bytes, its abort flag, its feed, rapid and spindle
-- speed overrides and the override that stops the spindle alone, and lowers none of the reset, door,
-- hold, cycle start and cycle stop flags. At 0x19 it does not return.
pub serial_rx_isr-OnlyRaises :
    (c : ℕ) (s : Serial) (m : Machine)
    → ((c == 0x19) ≡ true → serial_rx_isr c s m ≡ none)
      × ((c == 0x19) ≡ false
          → (s' : Serial) × (m' : Machine) × (serial_rx_isr c s m ≡ some (s', m'))
            × OnlyRaises m m')
unfolding serial_rx_isr
serial_rx_isr-OnlyRaises c s m = (
  λ reset. if_true _ _ reset,
  λ other. (_, _, if_false _ _ other, received_byte-OnlyRaises c s m),
)

-- The receive interrupt puts a byte into the line buffer exactly when it is no realtime command.
pub received_byte-buffer :
    (c : ℕ) (s : Serial) (m : Machine)
    → (received_byte c s m).0 ≡ (if is_realtime c then s else store_rx c s)
unfolding received_byte
received_byte-buffer c s m = ground arith
