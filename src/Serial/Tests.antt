-- ===== src/Serial/Tests.antt =====
-- The serial theorems at rings whose heads have wrapped round.
use g_carvin.Base.{◌+◌, true, false, List, [], ◌∷◌, none, some, ◌==◌, ◌≡◌, refl, arith, length}
use g_carvin.Examples.{idle_machine, wrapped_serial}
use g_carvin.Serial.{
  Serial, serial_read, serial_write, rx_buffer_size, serial_get_rx_buffer_available,
  serial_get_rx_buffer_count, store_rx,
}
use g_carvin.System.{Machine}
use g_carvin.System.Raises.{OnlyRaises}
use g_carvin.Serial.Realtime.{
  serial_rx_isr, received_byte, serial_rx_isr-OnlyRaises, received_byte-buffer,
}
use g_carvin.Serial.Valid.{IsValid, received}
use g_carvin.Serial.Receive.{Event, arrives, reads, run, run_queue, run_refines, rx_reports}
use g_carvin.Serial.Transmit.{serial_write_returns, Written}

wrapped-IsValid : IsValid wrapped_serial
wrapped-IsValid = ground arith

abbrev script : List Event
script = arrives 65 ∷ arrives b'?' ∷ reads ∷ reads ∷ reads ∷ reads ∷ arrives 0x19 ∷ reads ∷ []

run-script : run wrapped_serial idle_machine script ≡ 0 ∷ 0 ∷ 65 ∷ 0xff ∷ []
unfolding run serial_rx_isr received_byte store_rx serial_read
run-script = refl

run_refines_example :
    run wrapped_serial idle_machine script ≡ run_queue (received wrapped_serial) script
run_refines_example = run_refines script idle_machine wrapped-IsValid

serial_write_returns_example :
    (t : Serial) × (serial_write (false ∷ true ∷ []) 66 idle_machine wrapped_serial ≡ some t)
    × Written 66 idle_machine wrapped_serial t
serial_write_returns_example =
    serial_write_returns (false ∷ true ∷ []) 66 idle_machine wrapped-IsValid refl

-- Two bytes wait, and one is reported.
rx_reports_example :
    (serial_get_rx_buffer_available wrapped_serial + length (received wrapped_serial)
      ≡ rx_buffer_size)
    × (serial_get_rx_buffer_count wrapped_serial + 1 ≡ length (received wrapped_serial))
rx_reports_example = rx_reports wrapped-IsValid

serial_rx_isr-OnlyRaises_example :
    ((0x18 == 0x19) ≡ true → serial_rx_isr 0x18 wrapped_serial idle_machine ≡ none)
    × ((0x18 == 0x19) ≡ false
        → (s : Serial) × (m : Machine) × (serial_rx_isr 0x18 wrapped_serial idle_machine
            ≡ some (s, m))
          × OnlyRaises idle_machine m)
serial_rx_isr-OnlyRaises_example = serial_rx_isr-OnlyRaises 0x18 wrapped_serial idle_machine

received_byte-buffer_example :
    (received_byte 70 wrapped_serial idle_machine).0 ≡ store_rx 70 wrapped_serial
received_byte-buffer_example = received_byte-buffer 70 wrapped_serial idle_machine
