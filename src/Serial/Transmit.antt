-- ===== src/Serial/Transmit.antt =====
-- The transmit ring of serial.c: every byte is sent once and in order.
use mathlib.Core.List.{append_assoc}
use g_carvin.Base.{
  ℕ, Bool, true, false, some, List, [], ◌∷◌, ◌++◌, ◌≡◌, refl, sym, ◌∙◌, ap, arith, ◌==◌,
  if◌then◌else◌, ◌||◌, length, get_or, set, Bool-cases, ◌⊎◌, inl, inr,
}
use g_carvin.Base.Ring.{held, held-push, held-pop, length-held}
use g_carvin.System.{Machine}
use g_carvin.Serial.{
  Serial, step8, tx_ring_buffer, serial_udre_isr, serial_write, store_tx,
  serial_get_tx_buffer_count,
}
use g_carvin.Serial.Valid.{IsValid, queued, step8-next, store_tx-IsValid, serial_udre_isr-IsValid}

-- All that was accepted for sending, in order: the bytes sent and the bytes that wait.
abbrev pub wire : Serial → List ℕ
wire s = s.sent ++ queued s

serial_udre_isr-wire :
    {s : Serial} → IsValid s → s.tx_interrupt ≡ true → wire (serial_udre_isr s) ≡ wire s
unfolding serial_udre_isr
serial_udre_isr-wire {s} v on =
    append_assoc s.sent (get_or s.tx_buffer s.tx_tail 0 ∷ []) _
    ∙ ap
        (λ t.
          s.sent ++ get_or s.tx_buffer s.tx_tail 0 ∷ held 0 s.tx_buffer tx_ring_buffer s.tx_head t)
        (step8-next tx_ring_buffer s.tx_tail v.tx_tail_in (omega arith))
    ∙ ap (λ q. s.sent ++ q)
        (sym (
          held-pop 0 s.tx_buffer tx_ring_buffer s.tx_head s.tx_tail v.tx_head_in v.tx_tail_in
            (ground arith)))

store_tx-wire :
    {s : Serial} (c : ℕ)
    → IsValid s
    → (step8 tx_ring_buffer s.tx_head == s.tx_tail) ≡ false
    → wire (store_tx c s) ≡ wire s ++ c ∷ []
store_tx-wire {s} c v free =
    ap (λ h. s.sent ++ held 0 (set s.tx_buffer s.tx_head c) tx_ring_buffer h s.tx_tail)
      (step8-next tx_ring_buffer s.tx_head v.tx_head_in (omega arith))
    ∙ ap (λ q. s.sent ++ q)
        (held-push 0 c s.tx_buffer tx_ring_buffer v.tx_fits s.tx_head s.tx_tail v.tx_head_in
          v.tx_tail_in (ground arith))
    ∙ sym (append_assoc s.sent (queued s) (c ∷ []))

serial_write-free :
    (fires : List Bool) (c : ℕ) (m : Machine) (s : Serial)
    → (step8 tx_ring_buffer s.tx_head == s.tx_tail) ≡ false
    → serial_write fires c m s ≡ some (store_tx c s)
unfolding serial_write
serial_write-free [] c m s free = rw free
serial_write-free (b ∷ later) c m s free = rw free

serial_write-reset :
    (fires : List Bool) (c : ℕ) (m : Machine) (s : Serial)
    → (step8 tx_ring_buffer s.tx_head == s.tx_tail) ≡ true
    → m.exec_state.reset ≡ true
    → serial_write fires c m s ≡ some s
unfolding serial_write
serial_write-reset [] c m s full r = rw (full, r)
serial_write-reset (b ∷ later) c m s full r = rw (full, r)

serial_write-wait :
    (b : Bool) (later : List Bool) (c : ℕ) (m : Machine) (s : Serial)
    → (step8 tx_ring_buffer s.tx_head == s.tx_tail) ≡ true
    → m.exec_state.reset ≡ false
    → serial_write (b ∷ later) c m s ≡ serial_write later c m (if b then serial_udre_isr s else s)
unfolding serial_write
serial_write-wait b later c m s full r = rw (full, r)

-- A full ring has something to send, so its interrupt is on.
full-tx_interrupt :
    {s : Serial}
    → IsValid s
    → (step8 tx_ring_buffer s.tx_head == s.tx_tail) ≡ true
    → s.tx_interrupt ≡ true
full-tx_interrupt v full = ground arith

-- After one interrupt a full ring has a free slot.
udre-free :
    {s : Serial}
    → IsValid s
    → (step8 tx_ring_buffer s.tx_head == s.tx_tail) ≡ true
    → (step8 tx_ring_buffer (serial_udre_isr s).tx_head == (serial_udre_isr s).tx_tail) ≡ false
unfolding serial_udre_isr
udre-free v full = ground arith

-- What a finished `serial_write` has done: unless a reset made it give up with nothing changed,
-- the byte stands behind all that was accepted before, and nothing is lost or sent twice.
abbrev pub Written : ℕ → Machine → Serial → Serial → Type 0
Written c m s t =
    IsValid t × ((wire t ≡ wire s ++ c ∷ []) ⊎ ((m.exec_state.reset ≡ true) × (wire t ≡ wire s)))

store_tx-Written :
    {s : Serial} (c : ℕ) (m : Machine)
    → IsValid s
    → (step8 tx_ring_buffer s.tx_head == s.tx_tail) ≡ false
    → Written c m s (store_tx c s)
store_tx-Written c m v free = (store_tx-IsValid c v free, inl (store_tx-wire c v free))

Written-later :
    (s s' t : Serial) (c : ℕ) (m : Machine) → wire s' ≡ wire s → Written c m s' t → Written c m s t
Written-later s s' t c m e (v, inl w) = (v, inl (w ∙ ap (λ q. q ++ c ∷ []) e))
Written-later s s' t c m e (v, inr (r, w)) = (v, inr (r, w ∙ e))

-- `serial_write` returns once the interrupt has fired in one of its rounds, or at once where a
-- slot is free.
abbrev pub fires_once : List Bool → Bool
fires_once [] = false
fires_once (b ∷ later) = b || fires_once later

abbrev Returns : List Bool → ℕ → Machine → Serial → Type 0
Returns fires c m s = (t : Serial) × (serial_write fires c m s ≡ some t) × Written c m s t

-- Either the call returns at once, or the ring is full and no reset is pending.
write_or_wait :
    (fires : List Bool) (c : ℕ) (m : Machine) (s : Serial)
    → IsValid s
    → Returns fires c m s
      ⊎ (((step8 tx_ring_buffer s.tx_head == s.tx_tail) ≡ true) × (m.exec_state.reset ≡ false))
write_or_wait fires c m s v = elim (Bool-cases (step8 tx_ring_buffer s.tx_head == s.tx_tail)) [
  | inr free ↦ inl (store_tx c s, serial_write-free fires c m s free, store_tx-Written c m v free)
  | inl full ↦ elim (Bool-cases m.exec_state.reset) [
    | inl r ↦ inl (s, serial_write-reset fires c m s full r, (v, inr (r, refl)))
    | inr r ↦ inr (full, r)
  ]
]

-- From a valid state, whatever rounds the transmit interrupt fires in: if it fires in one of them,
-- `serial_write` returns; the rings are valid then, and the bytes sent and waiting are those from
-- before with the new byte behind them, or exactly those from before if a reset is pending.
pub serial_write_returns :
    (fires : List Bool) (c : ℕ) (m : Machine) {s : Serial}
    → IsValid s
    → fires_once fires ≡ true
    → (t : Serial) × (serial_write fires c m s ≡ some t) × Written c m s t
serial_write_returns [] c m v once = cc
serial_write_returns (true ∷ later) c m {s} v once = elim (write_or_wait (true ∷ later) c m s v) [
  | inl done ↦ done
  | inr (full, r) ↦
      let on = full-tx_interrupt v full in
      let u = serial_udre_isr s in
      let free = udre-free v full in
      (
        store_tx c u,
        serial_write-wait true later c m s full r ∙ serial_write-free later c m u free,
        Written-later s u (store_tx c u) c m (serial_udre_isr-wire v on)
            (store_tx-Written c m (serial_udre_isr-IsValid v on) free),
      )
]
serial_write_returns (false ∷ later) c m {s} v once = elim (write_or_wait (false ∷ later) c m s v) [
  | inl done ↦ done
  | inr (full, r) ↦
      let (t, e, done) = serial_write_returns later c m v once in
      (t, serial_write-wait false later c m s full r ∙ e, done)
]

-- The reported number of bytes that wait is the number that does.
tx_count_lem : {s : Serial} → IsValid s → serial_get_tx_buffer_count s ≡ length (queued s)
unfolding serial_get_tx_buffer_count
tx_count_lem {s} v = ground (arith, length-held 0 s.tx_buffer tx_ring_buffer s.tx_head s.tx_tail)
