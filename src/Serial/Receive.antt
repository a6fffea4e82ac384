-- ===== src/Serial/Receive.antt =====
-- The receive ring of serial.c against a bounded queue, and what its two counters report.
use mathlib.Core.Path.{subst}
use native.Mathlib.Decide.{ℕ_discrete}
use g_carvin.Base.{
  ℕ, ◌+◌, true, false, List, [], ◌∷◌, ◌++◌, none, some, ◌≡◌, ◌≢◌, refl, sym, ◌∙◌, ap, arith, ◌==◌,
  if◌then◌else◌, length, get_or, set, leb, Bool-cases, if_ind, ap_if, if_true, if_false, Option,
  inl, inr,
}
use g_carvin.Base.Ring.{held, held-push, held-pop, held-empty, length-held}
use g_carvin.System.{Machine}
use g_carvin.Serial.{
  Serial, step8, rx_ring_buffer, rx_buffer_size, serial_no_data, serial_read, store_rx,
  serial_get_rx_buffer_available, serial_get_rx_buffer_count,
}
use g_carvin.Serial.Realtime.{serial_rx_isr, received_byte, is_realtime, received_byte-buffer}
use g_carvin.Serial.Valid.{
  IsValid, received, step8-next, store_rx-full, store_rx-free, store_rx-IsValid,
  serial_read-IsValid,
}

-- A queue of at most RX_BUFFER_SIZE bytes that drops what does not fit.
pub enqueue : List ℕ → ℕ → List ℕ
enqueue q c = if length q == rx_buffer_size then q else q ++ c ∷ []

pub dequeue : List ℕ → ℕ × List ℕ
dequeue [] = (serial_no_data, [])
dequeue (c ∷ q) = (c, q)

module _ {s : Serial} (v : IsValid s) where
  enqueue-full :
      (c : ℕ)
      → (step8 rx_ring_buffer s.rx_head == s.rx_tail) ≡ true
      → enqueue (received s) c ≡ received s
  unfolding enqueue
  enqueue-full c full = ground (arith, length-held 0 s.rx_buffer rx_ring_buffer s.rx_head s.rx_tail)

  enqueue-free :
      (c : ℕ)
      → (step8 rx_ring_buffer s.rx_head == s.rx_tail) ≡ false
      → enqueue (received s) c ≡ received s ++ c ∷ []
  unfolding enqueue
  enqueue-free c free = ground (arith, length-held 0 s.rx_buffer rx_ring_buffer s.rx_head s.rx_tail)

  store_rx-held :
      (c : ℕ)
      → (step8 rx_ring_buffer s.rx_head == s.rx_tail) ≡ false
      → held 0
          (set s.rx_buffer s.rx_head c)
          rx_ring_buffer
          (step8 rx_ring_buffer s.rx_head)
          s.rx_tail
        ≡ received s ++ c ∷ []
  store_rx-held c free =
      ap (λ h. held 0 (set s.rx_buffer s.rx_head c) rx_ring_buffer h s.rx_tail)
        (step8-next rx_ring_buffer s.rx_head v.rx_head_in (omega arith))
      ∙ held-push 0 c s.rx_buffer rx_ring_buffer v.rx_fits s.rx_head s.rx_tail v.rx_head_in
          v.rx_tail_in (ground arith)

  store_rx-enqueue : (c : ℕ) → received (store_rx c s) ≡ enqueue (received s) c
  store_rx-enqueue c = elim (Bool-cases (step8 rx_ring_buffer s.rx_head == s.rx_tail)) [
    | inl full ↦ rw (store_rx-full c s full) (sym (enqueue-full c full))
    | inr free ↦ rw (store_rx-free c s free) (store_rx-held c free ∙ sym (enqueue-free c free))
  ]

  read_next :
      s.rx_head ≢ s.rx_tail
      → received s
        ≡ get_or s.rx_buffer s.rx_tail 0
          ∷ held 0 s.rx_buffer rx_ring_buffer s.rx_head (step8 rx_ring_buffer s.rx_tail)
  read_next ne =
      held-pop 0 s.rx_buffer rx_ring_buffer s.rx_head s.rx_tail v.rx_head_in v.rx_tail_in ne
      ∙ ap (λ t. get_or s.rx_buffer s.rx_tail 0 ∷ held 0 s.rx_buffer rx_ring_buffer s.rx_head t)
          (sym (step8-next rx_ring_buffer s.rx_tail v.rx_tail_in (omega arith)))

  received_empty : s.rx_head ≡ s.rx_tail → received s ≡ []
  received_empty e =
      ap (λ h. held 0 s.rx_buffer rx_ring_buffer h s.rx_tail) e
      ∙ held-empty 0 s.rx_buffer rx_ring_buffer s.rx_tail

  serial_read_empty : s.rx_head ≡ s.rx_tail → serial_read s ≡ (serial_no_data, s)
  unfolding serial_read
  serial_read_empty e = ground arith

  serial_read_some :
      s.rx_head ≢ s.rx_tail
      → serial_read s
        ≡ (get_or s.rx_buffer s.rx_tail 0, record s { rx_tail = step8 rx_ring_buffer s.rx_tail })
  unfolding serial_read
  serial_read_some ne = ground arith

  serial_read-dequeue : let (c, s') = serial_read s in (c, received s') ≡ dequeue (received s)
  unfolding dequeue
  serial_read-dequeue = elim (ℕ_discrete s.rx_head s.rx_tail) [
    | yes e ↦
        rw (serial_read_empty e)
          (subst (λ q. (serial_no_data, q) ≡ dequeue q) (sym (received_empty e)) refl)
    | no ne ↦ rw (serial_read_some ne) (sym (ap dequeue (read_next ne)))
  ]

-- What happens to the receive side: a byte arrives, or the main program reads.
pub data Event : Type 0 where
  arrives : ℕ → Event
  reads : Event

-- What follows an interrupt that returns.
abbrev pub resumed : (Serial → Machine → List ℕ) → Option (Serial × Machine) → List ℕ
resumed next none = []
resumed next (some (s, m)) = next s m

-- The bytes that the reads return, in order, up to a reset of the CPU.
unfoldable pub run : Serial → Machine → List Event → List ℕ
run s m [] = []
run s m (arrives c ∷ es) = resumed (λ s' m'. run s' m' es) (serial_rx_isr c s m)
run s m (reads ∷ es) = let (c, s') = serial_read s in c ∷ run s' m es

-- The same events on the queue; the commands never enter it, and 0x19 ends everything.
pub run_queue : List ℕ → List Event → List ℕ
run_queue q [] = []
run_queue q (arrives c ∷ es) =
    let rest = run_queue (if is_realtime c then q else enqueue q c) es in
    if c == 0x19 then [] else rest
run_queue q (reads ∷ es) = let (c, q') = dequeue q in c ∷ run_queue q' es

received_byte-IsValid :
    {s : Serial} (c : ℕ) (m : Machine) → IsValid s → IsValid (received_byte c s m).0
received_byte-IsValid {s} c m v =
    subst IsValid (sym (received_byte-buffer c s m))
      (if_ind IsValid (is_realtime c) v (store_rx-IsValid c v))

received_byte-received :
    {s : Serial} (c : ℕ) (m : Machine)
    → IsValid s
    → received (received_byte c s m).0
      ≡ (if is_realtime c then received s else enqueue (received s) c)
received_byte-received {s} c m v =
    ap (λ r. received r) (received_byte-buffer c s m)
    ∙ ap_if (λ r. received r) (is_realtime c) s (store_rx c s)
    ∙ ap (λ q. if is_realtime c then received s else q) (store_rx-enqueue v c)

-- From a valid state, every interleaving of arriving bytes and reads returns what a first-in
-- first-out queue of 128 bytes returns that is fed all bytes but the realtime commands, up to the
-- byte 0x19, at which the CPU is reset and nothing more is read.
pub run_refines :
    (es : List Event) {s : Serial} (m : Machine)
    → IsValid s
    → run s m es ≡ run_queue (received s) es
unfolding run run_queue serial_rx_isr
run_refines [] m v = refl
run_refines (arrives c ∷ es) {s} m v = elim (Bool-cases (c == 0x19)) [
  | inl reset ↦ ap (resumed (λ s' m'. run s' m' es)) (if_true _ _ reset) ∙ sym (if_true _ _ reset)
  | inr other ↦
      ap (resumed (λ s' m'. run s' m' es)) (if_false _ _ other)
      ∙ run_refines es (received_byte c s m).1 (received_byte-IsValid c m v)
      ∙ ap (λ q. run_queue q es) (received_byte-received c m v)
      ∙ sym (if_false _ _ other)
]
run_refines (reads ∷ es) {s} m v =
    ap (λ rest. (serial_read s).0 ∷ rest) (run_refines es m (serial_read-IsValid v))
    ∙ ap (λ (p : ℕ × List ℕ). p.0 ∷ run_queue p.1 es) (serial_read-dequeue v)

rx_available-add-length :
    {s : Serial}
    → IsValid s
    → serial_get_rx_buffer_available s + length (received s) ≡ rx_buffer_size
unfolding serial_get_rx_buffer_available
rx_available-add-length {s} v =
    ground (arith, length-held 0 s.rx_buffer rx_ring_buffer s.rx_head s.rx_tail)

rx_count_lem :
    {s : Serial}
    → IsValid s
    → serial_get_rx_buffer_count s + (if leb s.rx_tail s.rx_head then 0 else 1)
      ≡ length (received s)
unfolding serial_get_rx_buffer_count
rx_count_lem {s} v = ground (arith, length-held 0 s.rx_buffer rx_ring_buffer s.rx_head s.rx_tail)

-- The free space that is reported for the receive ring and the bytes that it holds make up 128. The
-- reported count is the number of bytes held while the head has not wrapped round, and one less than
-- it once the head is below the tail.
pub rx_reports :
    {s : Serial}
    → IsValid s
    → (serial_get_rx_buffer_available s + length (received s) ≡ rx_buffer_size)
      × (serial_get_rx_buffer_count s + (if leb s.rx_tail s.rx_head then 0 else 1)
          ≡ length (received s))
rx_reports v = (rx_available-add-length v, rx_count_lem v)
