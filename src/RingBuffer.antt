-- ===== src/RingBuffer.antt =====
-- kernel/lib/kringbuffer.c: a ring buffer of bytes in memory. The indices run on and wrap with the
-- 32-bit word. A mask of the form 2 ^ k - 1, as the initialisation demands it, keeps the remainder.
pub mod Queue
pub mod Reads
use bsprakt_os.Base.{
  ℕ, zero, suc, ◌+◌, ◌-◌, ◌*◌, ◌/◌, ◌%◌, ◌==◌, Bool, true, false, not, ◌&&◌, ltb, leb,
  if◌then◌else◌, Outcome, ok, ◌>>=◌, ◌>>◌, verify,
}
use bsprakt_os.Base.Words.{add32, sub32}
use bsprakt_os.Math.{k_min}
use bsprakt_os.Strings.{Memory, k_memcpy}

pub record RingBuffer : Type 0 where
  pub bytes : ℕ
  pub mask : ℕ
  pub read_index : ℕ
  pub write_index : ℕ

-- K_IS_POWER_OF_TWO for x > 0: one bit of the 32 is set.
abbrev pub count_bits : ℕ → ℕ → ℕ
count_bits zero x = 0
count_bits (suc rounds) x = x % 2 + count_bits rounds (x / 2)

abbrev pub k_is_power_of_two : ℕ → Bool
k_is_power_of_two x = leb (count_bits 32 x) 1

unfoldable pub k_ringbuffer_used : RingBuffer → ℕ
k_ringbuffer_used r = sub32 r.write_index r.read_index

unfoldable pub k_ringbuffer_unused : RingBuffer → ℕ
k_ringbuffer_unused r = sub32 (add32 r.mask 1) (sub32 r.write_index r.read_index)

unfoldable pub k_ringbuffer_read_with_offset :
    RingBuffer → (dst length offset : ℕ) → Memory → Outcome Memory
k_ringbuffer_read_with_offset r dst length offset m = do
  let size = add32 r.mask 1
  let start = offset % (r.mask + 1)
  let rest_length = k_min length (sub32 size start)
  m' ← k_memcpy dst (r.bytes + start) rest_length m
  k_memcpy (dst + rest_length) r.bytes (sub32 length rest_length) m'

unfoldable pub k_ringbuffer_write_with_offset :
    RingBuffer → (src length offset : ℕ) → Memory → Outcome Memory
k_ringbuffer_write_with_offset r src length offset m = do
  let size = add32 r.mask 1
  let start = offset % (r.mask + 1)
  let rest_length = k_min length (sub32 size start)
  m' ← k_memcpy (r.bytes + start) src rest_length m
  k_memcpy r.bytes (src + rest_length) (sub32 length rest_length) m'

unfoldable pub k_ringbuffer_initialise : (buffer length : ℕ) → Outcome RingBuffer
k_ringbuffer_initialise buffer length = do
  verify (not (buffer == 0))
  verify (leb 2 length && k_is_power_of_two length)
  ok (record { bytes = buffer; mask = length - 1; read_index = 0; write_index = 0 })

unfoldable pub k_ringbuffer_empty : RingBuffer → Bool
k_ringbuffer_empty r = k_ringbuffer_used r == 0

unfoldable pub k_ringbuffer_full : RingBuffer → Bool
k_ringbuffer_full r = k_ringbuffer_unused r == 0

-- At most the capacity `cap`.
abbrev pub capped : (length cap : ℕ) → ℕ
capped length cap = if ltb cap length then cap else length

unfoldable pub k_ringbuffer_peek_newest :
    RingBuffer → (dst length : ℕ) → Memory → Outcome (ℕ × Memory)
k_ringbuffer_peek_newest r dst length m = do
  let n = capped length (k_ringbuffer_used r)
  m' ← k_ringbuffer_read_with_offset r dst n (sub32 r.write_index n) m
  ok (n, m')

unfoldable pub k_ringbuffer_read :
    RingBuffer → (dst length : ℕ) → Memory → Outcome (ℕ × RingBuffer × Memory)
k_ringbuffer_read r dst length m = do
  let n = capped length (k_ringbuffer_used r)
  m' ← k_ringbuffer_read_with_offset r dst n r.read_index m
  ok (n, record r { read_index = add32 r.read_index n }, m')

unfoldable pub k_ringbuffer_write :
    RingBuffer → (src length : ℕ) → Memory → Outcome (ℕ × RingBuffer × Memory)
k_ringbuffer_write r src length m = do
  let n = capped length (k_ringbuffer_unused r)
  m' ← k_ringbuffer_write_with_offset r src n r.write_index m
  ok (n, record r { write_index = add32 r.write_index n }, m')
