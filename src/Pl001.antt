-- ===== src/Pl001.antt =====
-- arch/bsp/pl001.c: the serial interface. Reads of the data register take the next value of a
-- stream, and so do reads of the flag that the transmit queue is full. `buffer` and `scratch` are
-- the addresses of the buffer and of the local variables `ch`.
use bsprakt_os.Base.{
  ℕ, zero, suc, ◌%◌, ◌==◌, Bool, not, if◌then◌else◌, List, [], ◌∷◌, ◌++◌, update, Outcome, ok,
  out_of_fuel, ◌>>=◌, ◌>>◌, verify,
}
use bsprakt_os.Base.Words.{set_bit}
use bsprakt_os.Strings.{Memory}
use bsprakt_os.RingBuffer.{
  RingBuffer, k_ringbuffer_initialise, k_ringbuffer_write, k_ringbuffer_read, k_ringbuffer_empty,
  k_ringbuffer_peek_newest,
}

-- config.h
abbrev pub uart_input_buffer_size : ℕ
uart_input_buffer_size = 128

pub record Uart : Type 0 where
  pub cache : RingBuffer
  pub buffer : ℕ
  pub scratch : ℕ
  pub received : ℕ → ℕ
  pub full : ℕ → Bool
  pub imsc : ℕ
  pub sent : List ℕ

-- RXIM is bit 4.
unfoldable pub pl001_setup : Uart → Outcome Uart
pl001_setup u = do
  cache ← k_ringbuffer_initialise u.buffer uart_input_buffer_size
  ok (record u { cache = cache; imsc = set_bit u.imsc 4 })

unfoldable pub pl001_receive : Uart → Memory → Outcome (Uart × Memory)
pl001_receive u m = do
  let ch = u.received 0 % 256
  r ← k_ringbuffer_write u.cache u.scratch 1 (update m u.scratch ch)
  ok (record u { cache = r.1; received = λ i. u.received (suc i) }, r.2)

unfoldable pub pl001_has_unread_character : Uart → Bool
pl001_has_unread_character u = not (k_ringbuffer_empty u.cache)

unfoldable pub pl001_peek_newest : Uart → Memory → Outcome (ℕ × Memory)
pl001_peek_newest u m = do
  r ← k_ringbuffer_peek_newest u.cache u.scratch 1 m
  verify (r.0 == 1)
  ok (r.1 u.scratch, r.1)

unfoldable pub pl001_read : Uart → Memory → Outcome (ℕ × Uart × Memory)
pl001_read u m = do
  r ← k_ringbuffer_read u.cache u.scratch 1 m
  verify (r.0 == 1)
  ok (r.2 u.scratch, record u { cache = r.1 }, r.2)

-- The loop that waits for room, and the write.
unfoldable pub pl001_send : ℕ → ℕ → Uart → Outcome Uart
pl001_send zero ch u = out_of_fuel
pl001_send (suc fuel) ch u =
    let u' = record u { full = λ i. u.full (suc i) } in
    let rest = pl001_send fuel ch u' in
    if u.full 0 then rest else ok (record u' { sent = u.sent ++ ch ∷ [] })
