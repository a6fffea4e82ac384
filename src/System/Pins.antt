-- ===== src/System/Pins.antt =====
-- The control pins of system.c: how the port is decoded, and what the debounced front button and
-- the door switch request.

use Prim.Native.Nat.{bit_and, bit_xor}
use g_carvin.Base.{
  ℕ, zero, suc, ◌/◌, ◌%◌, ◌<◌, Bool, true, false, not, ◌&&◌, ◌≡◌, refl, arith, ◌==◌, if◌then◌else◌,
}
use g_carvin.System.{State, idle, hold, safety_door, Machine, ExecState}
use g_carvin.System.Flags.{no_exec, exec_union, system_set_exec_state_flag}

-- The bits of `control_state` in `system_control_get_state`.
pub record ControlPins : Type 0 where
  pub door : Bool
  pub reset : Bool
  pub feed_hold : Bool
  pub cycle_start : Bool

abbrev no_pins : ControlPins
no_pins = record { door = false; reset = false; feed_hold = false; cycle_start = false }

-- CONTROL_MASK has the bits 1 and 2, INVERT_CONTROL_PIN_MASK the bits 0 and 1. The feed hold pin
-- shares bit 1 with the door; the reset pin is bit 0.
unfoldable pub system_control_get_state : ℕ → ControlPins
system_control_get_state port =
    let pin = bit_xor (bit_and port 6) 3 in
    if pin == 0 then no_pins else record {
      door = bit_and pin 2 == 0;
      reset = bit_and pin 1 == 0;
      feed_hold = bit_and pin 2 == 0;
      cycle_start = bit_and pin 4 == 0;
    }

unfoldable pub system_check_safety_door_ajar : ℕ → Bool
system_check_safety_door_ajar port = (system_control_get_state port).door

abbrev pub is_idle : State → Bool
is_idle idle = true
is_idle _ = false

abbrev pub is_door_or_hold : State → Bool
is_door_or_hold hold = true
is_door_or_hold safety_door = true
is_door_or_hold _ = false

abbrev pub raise_cycle_start : ExecState
raise_cycle_start = record no_exec { cycle_start = true }

abbrev pub raise_door : ExecState
raise_door = record no_exec { safety_door = true }

-- `checkControlPins`, on the decoded pins. `if (pin)` passes when any bit is set.
on_pins : ControlPins → Machine → Machine
unfolding system_set_exec_state_flag
on_pins pin m =
    if pin.cycle_start
    then (if is_idle m.state
        then m
        else if is_door_or_hold m.state
        then system_set_exec_state_flag raise_cycle_start m
        else system_set_exec_state_flag raise_door m)
    else if pin.door
    then system_set_exec_state_flag raise_door m
    else m

unfoldable pub check_control_pins : ℕ → Machine → Machine
unfolding on_pins
check_control_pins port m = on_pins (system_control_get_state port) m

all_ports : ℕ → (ℕ → Bool) → Bool
all_ports zero p = true
all_ports (suc n) p = p n && all_ports n p

all_ports_sound : (n : ℕ) (p : ℕ → Bool) (x : ℕ) → all_ports n p ≡ true → x < n → p x ≡ true
unfolding all_ports
all_ports_sound zero p x h lt = absurd (omega arith)
all_ports_sound (suc n) p x h lt = ground (arith, all_ports_sound n p x)

abbrev same : Bool → Bool → Bool
same true b = b
same false b = not b

abbrev decodes : ℕ → Bool
decodes port =
    let s = system_control_get_state port in
    same s.door (port / 2 % 2 == 1)
    && (same s.cycle_start (port / 4 % 2 == 0) && (not s.reset && same s.feed_hold s.door))

port_table : all_ports 256 decodes ≡ true
unfolding all_ports system_control_get_state
port_table = refl

-- For every value of the eight-bit port: the door reads as ajar exactly when bit 1 is high, the
-- front button as pressed exactly when bit 2 is low, the feed hold pin as the door does, and the
-- reset pin never fires.
control_pins_lem :
    (port : ℕ)
    → port < 256
    → (system_check_safety_door_ajar port ≡ (port / 2 % 2 == 1))
      × ((system_control_get_state port).cycle_start ≡ (port / 4 % 2 == 0))
      × ((system_control_get_state port).reset ≡ false)
      × ((system_control_get_state port).feed_hold ≡ system_check_safety_door_ajar port)
unfolding system_check_safety_door_ajar
control_pins_lem port h = ground (arith, all_ports_sound 256 decodes port port_table)

-- A closed door and a released button request nothing; an open door with the button released
-- requests the safety door and nothing else; a pressed button requests nothing when idle, a cycle
-- start when the machine is held or waits at the door, and the safety door in every other state.
pub check_control_pins_lem :
    (port : ℕ) (m : Machine)
    → port < 256
    → check_control_pins port m ≡ (
        if port / 4 % 2 == 0
        then (if is_idle m.state then m else record m {
          exec_state =
              exec_union m.exec_state
                (if is_door_or_hold m.state then raise_cycle_start else raise_door);
        })
        else if port / 2 % 2 == 1
        then record m { exec_state = exec_union m.exec_state raise_door }
        else m)
unfolding check_control_pins system_check_safety_door_ajar
check_control_pins_lem port m h = ground (arith, control_pins_lem port h)
