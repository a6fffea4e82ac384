-- ===== src/System/Tests.antt =====
-- The theorems on the system's flags and pins at values of the board.
use g_carvin.Base.{◌≡◌, arith}
use g_carvin.Examples.{idle_machine}
use g_carvin.System.{Machine, hold}
use g_carvin.System.Flags.{exec_union}
use g_carvin.System.Pins.{check_control_pins_lem, check_control_pins, raise_cycle_start}

abbrev held_machine : Machine
held_machine = record idle_machine { state = hold }

-- The button is pressed in a hold.
check_control_pins_example :
    check_control_pins 0 held_machine
    ≡ record held_machine { exec_state = exec_union held_machine.exec_state raise_cycle_start }
check_control_pins_example = check_control_pins_lem 0 held_machine (omega arith)
