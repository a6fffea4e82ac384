-- ===== src/Serial/Valid.antt =====
-- The representation invariant of the two rings of serial.c.
use g_carvin.Base.{ℕ, ◌≤◌, ◌<◌, true, false, not, List, ◌≡◌, arith, ◌==◌, length, set, length-set}
use g_carvin.Base.Ring.{held, next_index}
use g_carvin.Serial.{
  Serial, rx_ring_buffer, tx_ring_buffer, step8, serial_udre_isr, serial_read, store_rx, store_tx,
  serial_reset_read_buffer,
}

-- Indices in range, and the transmit interrupt enabled exactly while there is a byte to send.
pub record IsValid (s : Serial) : Type 0 where
  pub rx_fits : rx_ring_buffer ≤ length s.rx_buffer
  pub tx_fits : tx_ring_buffer ≤ length s.tx_buffer
  pub rx_head_in : s.rx_head < rx_ring_buffer
  pub rx_tail_in : s.rx_tail < rx_ring_buffer
  pub tx_head_in : s.tx_head < tx_ring_buffer
  pub tx_tail_in : s.tx_tail < tx_ring_buffer
  pub interrupt_when_queued : s.tx_interrupt ≡ not (s.tx_head == s.tx_tail)

-- The bytes received and not yet read, oldest first.
abbrev pub received : Serial → List ℕ
received s = held 0 s.rx_buffer rx_ring_buffer s.rx_head s.rx_tail

-- The bytes accepted for sending and not yet sent, oldest first.
abbrev pub queued : Serial → List ℕ
queued s = held 0 s.tx_buffer tx_ring_buffer s.tx_head s.tx_tail

-- In range, the `uint8_t` step is the step of the ring.
pub step8-next : (size i : ℕ) → i < size → size ≤ 255 → step8 size i ≡ next_index size i
step8-next size i h k = ground arith

pub store_rx-full :
    (c : ℕ) (s : Serial) → (step8 rx_ring_buffer s.rx_head == s.rx_tail) ≡ true → store_rx c s ≡ s
unfolding store_rx
store_rx-full c s full = ground arith

pub store_rx-free :
    (c : ℕ) (s : Serial)
    → (step8 rx_ring_buffer s.rx_head == s.rx_tail) ≡ false
    → store_rx c s ≡ record s {
      rx_buffer = set s.rx_buffer s.rx_head c;
      rx_head = step8 rx_ring_buffer s.rx_head;
    }
unfolding store_rx
store_rx-free c s free = ground arith

pub store_rx-IsValid : {s : Serial} (c : ℕ) → IsValid s → IsValid (store_rx c s)
unfolding store_rx
store_rx-IsValid {s} c v = ground (arith, length-set s.rx_buffer s.rx_head c)

pub serial_read-IsValid : {s : Serial} → IsValid s → IsValid (serial_read s).1
unfolding serial_read
serial_read-IsValid v = ground arith

pub store_tx-IsValid :
    {s : Serial} (c : ℕ)
    → IsValid s
    → (step8 tx_ring_buffer s.tx_head == s.tx_tail) ≡ false
    → IsValid (store_tx c s)
store_tx-IsValid {s} c v free = ground (arith, length-set s.tx_buffer s.tx_head c)

pub serial_udre_isr-IsValid :
    {s : Serial} → IsValid s → s.tx_interrupt ≡ true → IsValid (serial_udre_isr s)
unfolding serial_udre_isr
serial_udre_isr-IsValid v on = ground arith

pub serial_reset_read_buffer-IsValid :
    {s : Serial} → IsValid s → IsValid (serial_reset_read_buffer s)
unfolding serial_reset_read_buffer
serial_reset_read_buffer-IsValid v = ground arith
