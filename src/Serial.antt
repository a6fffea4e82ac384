-- ===== src/Serial.antt =====
-- serial.c: the receive and transmit rings, their two interrupt handlers and the realtime commands
-- that the receive interrupt picks out of the stream.
pub mod Realtime
pub mod Valid
pub mod Receive
pub mod Transmit
mod Tests
use g_carvin.Base.{
  ℕ, ◌+◌, ◌-◌, ◌%◌, Bool, true, false, Option, none, some, List, [], ◌∷◌, ◌++◌, ltb, leb, ◌==◌,
  if◌then◌else◌, get_or, set,
}
use g_carvin.System.{Machine}

-- The buffers and indices of serial.c, the transmit interrupt enable bit UDRIE0, and the bytes that
-- the transmit interrupt has handed to the UART, oldest first.
pub record Serial : Type 0 where
  pub rx_buffer : List ℕ
  pub rx_head : ℕ
  pub rx_tail : ℕ
  pub tx_buffer : List ℕ
  pub tx_head : ℕ
  pub tx_tail : ℕ
  pub tx_interrupt : Bool
  pub sent : List ℕ

abbrev pub rx_buffer_size : ℕ
rx_buffer_size = 128

abbrev pub rx_ring_buffer : ℕ
rx_ring_buffer = 129

-- TX_BUFFER_SIZE + 1, with USE_LINE_NUMBERS off.
abbrev pub tx_ring_buffer : ℕ
tx_ring_buffer = 105

abbrev pub serial_no_data : ℕ
serial_no_data = 0xff

-- `i + 1` on `uint8_t`, set back to 0 at `size`.
abbrev pub step8 : ℕ → ℕ → ℕ
step8 size i = if (i + 1) % 256 == size then 0 else (i + 1) % 256

-- The differences below are of two `uint8_t`, promoted to `int`, and stay in range.
pub serial_get_rx_buffer_available : Serial → ℕ
serial_get_rx_buffer_available s =
    if leb s.rx_tail s.rx_head
    then rx_buffer_size - (s.rx_head - s.rx_tail)
    else s.rx_tail - s.rx_head - 1

pub serial_get_rx_buffer_count : Serial → ℕ
serial_get_rx_buffer_count s =
    if leb s.rx_tail s.rx_head
    then s.rx_head - s.rx_tail
    else rx_buffer_size - (s.rx_tail - s.rx_head)

pub serial_get_tx_buffer_count : Serial → ℕ
serial_get_tx_buffer_count s =
    if leb s.tx_tail s.tx_head
    then s.tx_head - s.tx_tail
    else tx_ring_buffer - (s.tx_tail - s.tx_head)

-- ISR(SERIAL_UDRE): sends the oldest byte, and switches itself off when the ring runs empty.
pub serial_udre_isr : Serial → Serial
serial_udre_isr s =
    let tail = step8 tx_ring_buffer s.tx_tail in
    record s {
      sent = s.sent ++ get_or s.tx_buffer s.tx_tail 0 ∷ [];
      tx_tail = tail;
      tx_interrupt = if tail == s.tx_head then false else s.tx_interrupt;
    }

-- The store behind the wait loop of `serial_write`.
abbrev pub store_tx : ℕ → Serial → Serial
store_tx c s = record s {
  tx_buffer = set s.tx_buffer s.tx_head c;
  tx_head = step8 tx_ring_buffer s.tx_head;
  tx_interrupt = true;
}

-- `serial_write`. The list says in which rounds of the wait loop the transmit interrupt fires; it
-- can fire only while it is enabled. `none`: the list ends while the loop still waits.
pub serial_write : List Bool → ℕ → Machine → Serial → Option Serial
serial_write [] c m s =
    if step8 tx_ring_buffer s.tx_head == s.tx_tail
    then (if m.exec_state.reset then some s else none)
    else some (store_tx c s)
serial_write (fires ∷ later) c m s =
    let rest = serial_write later c m (if fires then serial_udre_isr s else s) in
    if step8 tx_ring_buffer s.tx_head == s.tx_tail
    then (if m.exec_state.reset then some s else rest)
    else some (store_tx c s)

-- What is returned, and the new rings.
unfoldable pub serial_read : Serial → ℕ × Serial
serial_read s =
    if s.rx_head == s.rx_tail
    then (serial_no_data, s)
    else (get_or s.rx_buffer s.rx_tail 0, record s { rx_tail = step8 rx_ring_buffer s.rx_tail })

-- The last branch of ISR(SERIAL_RX): a byte for the line buffer, dropped when the ring is full.
unfoldable pub store_rx : ℕ → Serial → Serial
store_rx c s = if step8 rx_ring_buffer s.rx_head == s.rx_tail then s else record s {
  rx_buffer = set s.rx_buffer s.rx_head c;
  rx_head = step8 rx_ring_buffer s.rx_head;
}

pub serial_reset_read_buffer : Serial → Serial
serial_reset_read_buffer s = record s { rx_tail = s.rx_head }
