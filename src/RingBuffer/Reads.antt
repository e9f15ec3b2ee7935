-- ===== src/RingBuffer/Reads.antt =====
-- `k_ringbuffer_read` of kernel/lib/kringbuffer.c takes the oldest bytes of the queue.
use native.Mathlib.Nat.{mod-lt, mod-add-mod, mod-mod_of_dvd}
use bsprakt_os.Base.{
  ℕ, ◌+◌, ◌-◌, ◌%◌, ◌<◌, ◌≤◌, ◌≡◌, ◌≢◌, inr, refl, false, ltb, if◌then◌else◌, arith, ok, ◌∙◌, ap,
  sym, dec_lt, lt→ltb,
}
use bsprakt_os.Base.Words.{add32, sub32}
use bsprakt_os.Math.{k_min}
use bsprakt_os.Strings.{Memory, k_memcpy}
use bsprakt_os.Strings.Copy.{Apart, copied, k_memcpy-copied}
use bsprakt_os.RingBuffer.{
  RingBuffer, k_ringbuffer_used, capped, k_ringbuffer_read, k_ringbuffer_read_with_offset,
}
use bsprakt_os.RingBuffer.Queue.{size, IsBuffer, slot, slot-lem, slot-shift, byte_at, Outside}

record Taken (r : RingBuffer) (dst n start : ℕ) (m m' : Memory) : Type 0 where
  taken :
      (j : ℕ)
      → j < n
      → m' (dst + j)
        ≡ m (r.bytes + (if ltb (start + j) (size r) then start + j else start + j - size r))
  same : (a : ℕ) → a < size r → m' (r.bytes + a) ≡ m (r.bytes + a)

module _ (r : RingBuffer) (dst n start : ℕ) (m m1 m2 : Memory) (lt : start < size r)
    (l : n ≤ size r) (o : Outside r dst n)
    (p1 : (a : ℕ) → m1 a ≡ copied dst (r.bytes + start) (k_min n (size r - start)) m a)
    (p2 : (a : ℕ)
      → m2 a
        ≡ copied (dst + k_min n (size r - start)) r.bytes (n - k_min n (size r - start)) m1 a) where
  taken_ahead : (j : ℕ) → j < n → start + j < size r → m2 (dst + j) ≡ m (r.bytes + (start + j))
  taken_ahead j i f =
      let e : r.bytes + start + (dst + j - dst) ≡ r.bytes + (start + j) = omega arith in
      let q : m1 (dst + j) ≡ m (r.bytes + (start + j)) =
        p1 (dst + j) ∙ rw e (ground (arith, f, i)) in
      p2 (dst + j) ∙ ground (arith, f, i, l, q)

  taken_wrapped :
      (j : ℕ) → j < n → size r ≤ start + j → m2 (dst + j) ≡ m (r.bytes + (start + j - size r))
  taken_wrapped j i f =
      let x : k_min n (size r - start) ≡ size r - start = ground (arith, i, f, l) in
      let e : r.bytes + (dst + j - (dst + k_min n (size r - start)))
          ≡ r.bytes + (start + j - size r) =
        rw x (omega (arith, f, i, lt)) in
      let q : m1 (r.bytes + (start + j - size r)) ≡ m (r.bytes + (start + j - size r)) =
        p1 (r.bytes + (start + j - size r)) ∙ ground (arith, x, f, i, o, lt, l) in
      p2 (dst + j) ∙ rw e (ground (arith, x, f, i, l, lt, q))

  pieces-Taken : Taken r dst n start m m2
  pieces-Taken = record {
    taken = λ j i. elim (dec_lt (start + j) (size r)) [
      | yes f ↦ rw (lt→ltb (start + j) (size r) f) (taken_ahead j i f)
      | no f ↦
          let g : ltb (start + j) (size r) ≡ false = ground arith in
          rw g (taken_wrapped j i (omega arith))
    ];
    same = λ a f. p2 (r.bytes + a) ∙ ground (arith, p1 (r.bytes + a), f, o, l);
  }

read-steps :
    (r : RingBuffer) (dst n offset d back : ℕ) (m m1 m2 : Memory)
    → sub32 (add32 r.mask 1) (offset % (r.mask + 1)) ≡ d
    → sub32 n (k_min n d) ≡ back
    → k_memcpy dst (r.bytes + offset % (r.mask + 1)) (k_min n d) m ≡ ok m1
    → k_memcpy (dst + k_min n d) r.bytes back m1 ≡ ok m2
    → k_ringbuffer_read_with_offset r dst n offset m ≡ ok m2
unfolding k_ringbuffer_read_with_offset
read-steps r dst n offset d back m m1 m2 a b e1 e2 = rw (a, b, e1) e2

read_with_offset-Taken :
    (r : RingBuffer) (dst n offset : ℕ) (m : Memory)
    → IsBuffer r
    → dst ≢ 0
    → n ≤ size r
    → Outside r dst n
    → (m' : Memory) × (k_ringbuffer_read_with_offset r dst n offset m ≡ ok m')
      × Taken r dst n (offset % size r) m m'
read_with_offset-Taken r dst n offset m w ne l o =
    let start = offset % size r in
    let lt = mod-lt offset {m = size r} (omega arith) in
    let rest = k_min n (size r - start) in
    let a : Apart dst (r.bytes + start) rest = ground (arith, o, lt, l) in
    let (m1, e1, p1) =
      k_memcpy-copied dst (r.bytes + start) rest m ne (inr (ground (arith, w.place))) a in
    let b : Apart (dst + rest) r.bytes (n - rest) = ground (arith, o, lt, l) in
    let (m2, e2, p2) =
      k_memcpy-copied (dst + rest) r.bytes (n - rest) m1 (ground (arith, ne)) (inr w.place) b in
    let c : sub32 (add32 r.mask 1) start ≡ size r - start = omega (arith, w.small, lt) in
    let d : sub32 n rest ≡ n - rest = ground (arith, w.small, l) in
    (
      m2,
      read-steps r dst n offset (size r - start) (n - rest) m m1 m2 c d e1 e2,
      pieces-Taken r dst n start m m1 m2 lt l o p1 p2,
    )

read-run :
    (r : RingBuffer) (dst length : ℕ) (m m' : Memory)
    → k_ringbuffer_read_with_offset r dst (capped length (k_ringbuffer_used r)) r.read_index m
      ≡ ok m'
    → k_ringbuffer_read r dst length m
      ≡ ok (
        capped length (k_ringbuffer_used r),
        record r { read_index = add32 r.read_index (capped length (k_ringbuffer_used r)) },
        m',
      )
unfolding k_ringbuffer_read
read-run r dst length m m' e = rw e refl

used-read :
    (r : RingBuffer) (n : ℕ)
    → IsBuffer r
    → n ≤ k_ringbuffer_used r
    → k_ringbuffer_used (record r { read_index = add32 r.read_index n }) ≡ k_ringbuffer_used r - n
unfolding k_ringbuffer_used
used-read r n w l = omega (arith, l, w.small, w.fits, w.read_word, w.write_word)

-- The wrap of an index is none of its slots.
slot-add32 :
    (r : RingBuffer) (n i : ℕ)
    → IsBuffer r
    → slot (size r) (add32 r.read_index n) i ≡ slot (size r) r.read_index (n + i)
slot-add32 r n i w =
    sym (mod-add-mod (add32 r.read_index n) (size r) i)
    ∙ ap (λ x. (x + i) % size r) (mod-mod_of_dvd (size r) (r.read_index + n) w.divides)
    ∙ mod-add-mod (r.read_index + n) (size r) i
    ∙ slot-shift (size r) r.read_index n i

stays :
    (r : RingBuffer) (dst n i : ℕ) (m m' : Memory)
    → IsBuffer r
    → Taken r dst n (r.read_index % size r) m m'
    → byte_at (record r { read_index = add32 r.read_index n }) m' i ≡ byte_at r m (n + i)
stays r dst n i m m' w c =
    ap (λ x. m' (r.bytes + x)) (slot-add32 r n i w)
    ∙ c.same (slot (size r) r.read_index (n + i))
        (mod-lt (r.read_index + (n + i)) {m = size r} (omega arith))

-- Reading takes as many bytes as there are, the oldest first, and leaves the others in order.
pub k_ringbuffer_read-take :
    (r : RingBuffer) (dst length : ℕ) (m : Memory)
    → IsBuffer r
    → dst ≢ 0
    → Outside r dst length
    → let n = capped length (k_ringbuffer_used r) in
      let r' = record r { read_index = add32 r.read_index n } in
      (m' : Memory) × (k_ringbuffer_read r dst length m ≡ ok (n, r', m'))
      × (k_ringbuffer_used r' ≡ k_ringbuffer_used r - n)
      × ((j : ℕ) → j < n → m' (dst + j) ≡ byte_at r m j)
      × ((i : ℕ) → byte_at r' m' i ≡ byte_at r m (n + i))
k_ringbuffer_read-take r dst length m w ne o =
    let n = capped length (k_ringbuffer_used r) in
    let l : n ≤ k_ringbuffer_used r = ground arith in
    let (m', e, c) =
      read_with_offset-Taken r dst n r.read_index m w ne (omega (arith, l, w.fits))
        (ground (arith, o)) in
    (
      m',
      read-run r dst length m m' e,
      used-read r n w l,
      λ j f.
          c.taken j f
          ∙ ap (λ x. m (r.bytes + x))
              (sym (slot-lem (size r) r.read_index j (omega arith) (omega (arith, f, l, w.fits)))),
      λ i. stays r dst n i m m' w c,
    )
