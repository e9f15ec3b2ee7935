-- ===== src/RingBuffer/Queue.antt =====
-- What the bytes in a ring buffer of kernel/lib/kringbuffer.c are, as a queue.
use native.Mathlib.Nat.{mod-lt, mod-eq_of_lt, mod-eq-sub-mod, mod-mod_of_dvd, mod-add-mod}
use Prim.Native.Nat.{◌∣◌}
use bsprakt_os.Base.{
  ℕ, ◌+◌, ◌-◌, ◌%◌, ◌<◌, ◌≤◌, ◌≡◌, ◌≢◌, ◌⊎◌, inl, inr, refl, true, false, ltb, if◌then◌else◌, arith,
  ok, ◌∙◌, ap, sym, dec_lt, lt→ltb, Bool-cases,
}
use bsprakt_os.Base.Words.{word, add32, sub32}
use bsprakt_os.Math.{k_min}
use bsprakt_os.Strings.{Memory, k_memcpy}
use bsprakt_os.Strings.Copy.{Apart, copied, k_memcpy-copied}
use bsprakt_os.RingBuffer.{
  RingBuffer, k_ringbuffer_used, k_ringbuffer_unused, capped, k_ringbuffer_write_with_offset,
  k_ringbuffer_write,
}

abbrev pub size : RingBuffer → ℕ
size r = r.mask + 1

-- The buffer has its place in memory and a size that divides the range of the indices, and holds no
-- more than fits.
pub record IsBuffer (r : RingBuffer) : Type 0 where
  pub place : r.bytes ≢ 0
  pub divides : size r ∣ word
  pub small : size r < word
  pub read_word : r.read_index < word
  pub write_word : r.write_index < word
  pub fits : k_ringbuffer_used r ≤ size r

-- The place of the byte that is `i` behind an index.
abbrev pub slot : (size index i : ℕ) → ℕ
slot size index i = (index + i) % size

-- The byte `i` of the queue, the oldest first.
abbrev pub byte_at : RingBuffer → Memory → ℕ → ℕ
byte_at r m i = m (r.bytes + slot (size r) r.read_index i)

wrapped : (x s : ℕ) → x < s → x % s ≡ x
wrapped x s l = mod-eq_of_lt l

pub slot-lem :
    (s x i : ℕ)
    → 0 < s
    → i ≤ s
    → slot s x i ≡ (if ltb (x % s + i) s then x % s + i else x % s + i - s)
slot-lem s x i p l = elim (dec_lt (x % s + i) s) [
  | yes a ↦ rw (lt→ltb (x % s + i) s a) (sym (mod-add-mod x s i) ∙ mod-eq_of_lt a)
  | no a ↦
      let f : ltb (x % s + i) s ≡ false = ground arith in
      let g = mod-lt x p in
      rw f (
        sym (mod-add-mod x s i)
        ∙ mod-eq-sub-mod {n = x % s + i} {m = s} (omega arith)
        ∙ wrapped (x % s + i - s) s (omega (arith, g)))
]

module _ (r : RingBuffer) (w : IsBuffer r) where
  -- The writing index stands behind the bytes in use.
  write_slot : r.write_index % size r ≡ slot (size r) r.read_index (k_ringbuffer_used r)
  unfolding k_ringbuffer_used
  write_slot =
      let e : (r.read_index + k_ringbuffer_used r) % word ≡ r.write_index =
        omega (arith, w.read_word, w.write_word) in
      ap (λ x. x % size r) (sym e)
      ∙ mod-mod_of_dvd (size r) (r.read_index + k_ringbuffer_used r) w.divides

-- The bytes from `src` on do not lie in the buffer.
abbrev pub Outside : RingBuffer → (a n : ℕ) → Type 0
Outside r a n = (r.bytes + size r ≤ a) ⊎ (a + n ≤ r.bytes)

-- `k_ringbuffer_write_with_offset` puts byte `j` of the source in the slot `j` behind the offset.
record Written (r : RingBuffer) (src n start : ℕ) (m m' : Memory) : Type 0 where
  new :
      (j : ℕ)
      → j < n
      → m' (r.bytes + (if ltb (start + j) (size r) then start + j else start + j - size r))
        ≡ m (src + j)
  old :
      (a : ℕ)
      → ltb (start + n) (size r) ≡ true
      → (a < start) ⊎ (start + n ≤ a)
      → m' (r.bytes + a) ≡ m (r.bytes + a)
  old_wrapped :
      (a : ℕ)
      → ltb (start + n) (size r) ≡ false
      → (a < start)
      → start + n - size r ≤ a
      → m' (r.bytes + a) ≡ m (r.bytes + a)

module _ (r : RingBuffer) (src n start : ℕ) (m m1 m2 : Memory) (lt : start < size r)
    (l : n ≤ size r) (o : Outside r src n)
    (p1 : (a : ℕ) → m1 a ≡ copied (r.bytes + start) src (k_min n (size r - start)) m a)
    (p2 : (a : ℕ)
      → m2 a
        ≡ copied r.bytes (src + k_min n (size r - start)) (n - k_min n (size r - start)) m1 a) where
  new_ahead : (j : ℕ) → j < n → start + j < size r → m2 (r.bytes + (start + j)) ≡ m (src + j)
  new_ahead j i f =
      let e : r.bytes + (start + j) - (r.bytes + start) ≡ j = omega arith in
      let q1 : m1 (r.bytes + (start + j)) ≡ m (src + j) =
        p1 (r.bytes + (start + j)) ∙ rw e (ground (arith, f, i)) in
      p2 (r.bytes + (start + j)) ∙ ground (arith, f, i, l, q1)

  new_wrapped :
      (j : ℕ) → j < n → size r ≤ start + j → m2 (r.bytes + (start + j - size r)) ≡ m (src + j)
  new_wrapped j i f =
      let rest = k_min n (size r - start) in
      let x : rest ≡ size r - start = ground (arith, i, f, l) in
      let e : src + rest + (r.bytes + (start + j - size r) - r.bytes) ≡ src + j =
        rw x (omega (arith, f, i, lt)) in
      let q1 : m1 (src + j) ≡ m (src + j) = p1 (src + j) ∙ ground (arith, x, f, i, o, lt) in
      p2 (r.bytes + (start + j - size r)) ∙ rw e (ground (arith, x, f, i, l, lt, q1))

  pieces-Written : Written r src n start m m2
  pieces-Written = record {
    new = λ j i. elim (dec_lt (start + j) (size r)) [
      | yes f ↦ rw (lt→ltb (start + j) (size r) f) (new_ahead j i f)
      | no f ↦
          let g : ltb (start + j) (size r) ≡ false = ground arith in
          rw g (new_wrapped j i (omega arith))
    ];
    old = λ a f c. p2 (r.bytes + a) ∙ ground (arith, p1 (r.bytes + a), f, c, l);
    old_wrapped = λ a f c d. p2 (r.bytes + a) ∙ ground (arith, p1 (r.bytes + a), f, c, d, l);
  }

write-steps :
    (r : RingBuffer) (src n offset d back : ℕ) (m m1 m2 : Memory)
    → sub32 (add32 r.mask 1) (offset % (r.mask + 1)) ≡ d
    → sub32 n (k_min n d) ≡ back
    → k_memcpy (r.bytes + offset % (r.mask + 1)) src (k_min n d) m ≡ ok m1
    → k_memcpy r.bytes (src + k_min n d) back m1 ≡ ok m2
    → k_ringbuffer_write_with_offset r src n offset m ≡ ok m2
unfolding k_ringbuffer_write_with_offset
write-steps r src n offset d back m m1 m2 a b e1 e2 = rw (a, b, e1) e2

write_with_offset-Written :
    (r : RingBuffer) (src n offset : ℕ) (m : Memory)
    → IsBuffer r
    → src ≢ 0
    → n ≤ size r
    → Outside r src n
    → (m' : Memory) × (k_ringbuffer_write_with_offset r src n offset m ≡ ok m')
      × Written r src n (offset % size r) m m'
unfolding k_ringbuffer_write_with_offset
write_with_offset-Written r src n offset m w ne l o =
    let start = offset % size r in
    let lt = mod-lt offset {m = size r} (omega arith) in
    let rest = k_min n (size r - start) in
    let a : Apart (r.bytes + start) src rest = ground (arith, o, lt, l) in
    let (m1, e1, p1) =
      k_memcpy-copied (r.bytes + start) src rest m (ground (arith, w.place)) (inr ne) a in
    let b : Apart r.bytes (src + rest) (n - rest) = ground (arith, o, lt, l) in
    let (m2, e2, p2) =
      k_memcpy-copied r.bytes (src + rest) (n - rest) m1 w.place (inr (ground (arith, ne))) b in
    let c : sub32 (add32 r.mask 1) start ≡ size r - start = omega (arith, w.small, lt) in
    let d : sub32 n rest ≡ n - rest = ground (arith, w.small, l) in
    (
      m2,
      write-steps r src n offset (size r - start) (n - rest) m m1 m2 c d e1 e2,
      pieces-Written r src n start m m1 m2 lt l o p1 p2,
    )

pub slot-shift : (s x u j : ℕ) → slot s (x + u) j ≡ slot s x (u + j)
slot-shift s x u j = ap (λ y. y % s) (omega arith)

unused-rest : (r : RingBuffer) → IsBuffer r → k_ringbuffer_unused r ≡ size r - k_ringbuffer_used r
unfolding k_ringbuffer_unused k_ringbuffer_used
unused-rest r w = omega (arith, w.small, w.fits)

write-run :
    (r : RingBuffer) (src length u : ℕ) (m m' : Memory)
    → k_ringbuffer_unused r ≡ u
    → k_ringbuffer_write_with_offset r src (capped length u) r.write_index m ≡ ok m'
    → k_ringbuffer_write r src length m
      ≡ ok (capped length u, record r { write_index = add32 r.write_index (capped length u) }, m')
unfolding k_ringbuffer_write
write-run r src length u m m' a e = rw (a, e) refl

used-write :
    (r : RingBuffer) (n : ℕ)
    → IsBuffer r
    → n ≤ size r - k_ringbuffer_used r
    → k_ringbuffer_used (record r { write_index = add32 r.write_index n }) ≡ k_ringbuffer_used r + n
unfolding k_ringbuffer_used
used-write r n w l = omega (arith, l, w.small, w.fits, w.read_word, w.write_word)

-- Where the bytes in use lie, seen from the place of the new ones.
module _ (s r0 used n i at start : ℕ) (a : at ≡ (if ltb (r0 + i) s then r0 + i else r0 + i - s))
    (b : start ≡ (if ltb (r0 + used) s then r0 + used else r0 + used - s)) (g : r0 < s)
    (f : i < used) (l : n ≤ s - used) (m : used ≤ s) where
  kept_apart : ltb (start + n) s ≡ true → (at < start) ⊎ (start + n ≤ at)
  kept_apart h = ground (arith, a, b, g, f, l, m, h)

  kept_between : ltb (start + n) s ≡ false → (at < start) × (start + n - s ≤ at)
  kept_between h = ground (arith, a, b, g, f, l, m, h)

module _ (r : RingBuffer) (w : IsBuffer r) (src n : ℕ) (m m' : Memory)
    (l : n ≤ size r - k_ringbuffer_used r) (c : Written r src n (r.write_index % size r) m m') where
  keeps :
      (i : ℕ)
      → i < k_ringbuffer_used r
      → m' (r.bytes + slot (size r) r.read_index i) ≡ m (r.bytes + slot (size r) r.read_index i)
  keeps i f =
      let a = slot-lem (size r) r.read_index i (omega arith) (omega (arith, f, w.fits)) in
      let b =
        write_slot r w
        ∙ slot-lem (size r) r.read_index (k_ringbuffer_used r) (omega arith) w.fits in
      let g = mod-lt r.read_index {m = size r} (omega arith) in
      elim (Bool-cases (ltb (r.write_index % size r + n) (size r))) [
        | inl h ↦ c.old (slot (size r) r.read_index i) h (
            kept_apart (size r) (r.read_index % size r) (k_ringbuffer_used r) n i
              (slot (size r) r.read_index i) (r.write_index % size r) a b g f l (w.fits) h)
        | inr h ↦
            let (x, y) =
              kept_between (size r) (r.read_index % size r) (k_ringbuffer_used r) n i
                (slot (size r) r.read_index i) (r.write_index % size r) a b g f l (w.fits) h in
            c.old_wrapped (slot (size r) r.read_index i) h x y
      ]

  adds :
      (j : ℕ)
      → j < n
      → m' (r.bytes + slot (size r) r.read_index (k_ringbuffer_used r + j)) ≡ m (src + j)
  adds j f =
      let a =
        slot-lem (size r) (r.read_index + k_ringbuffer_used r) j (omega arith)
          (omega (arith, f, l)) in
      let b = write_slot r w in
      let d : slot (size r) r.read_index (k_ringbuffer_used r + j) ≡ (
          if ltb (r.write_index % size r + j) (size r)
          then r.write_index % size r + j
          else r.write_index % size r + j - size r) =
        sym (slot-shift (size r) r.read_index (k_ringbuffer_used r) j)
        ∙ a
        ∙ ap (λ x. if ltb (x + j) (size r) then x + j else x + j - size r) (sym b) in
      ap (λ x. m' (r.bytes + x)) d ∙ c.new j f

-- Writing puts as many bytes as fit behind the ones in use, which stay as they are.
pub k_ringbuffer_write-append :
    (r : RingBuffer) (src length : ℕ) (m : Memory)
    → IsBuffer r
    → src ≢ 0
    → Outside r src length
    → let n = capped length (size r - k_ringbuffer_used r) in
      let r' = record r { write_index = add32 r.write_index n } in
      (m' : Memory) × (k_ringbuffer_write r src length m ≡ ok (n, r', m'))
      × (k_ringbuffer_used r' ≡ k_ringbuffer_used r + n)
      × ((i : ℕ) → i < k_ringbuffer_used r → byte_at r' m' i ≡ byte_at r m i)
      × ((j : ℕ) → j < n → byte_at r' m' (k_ringbuffer_used r + j) ≡ m (src + j))
k_ringbuffer_write-append r src length m w ne o =
    let u = size r - k_ringbuffer_used r in
    let n = capped length u in
    let l : n ≤ u = ground arith in
    let (m', e, c) =
      write_with_offset-Written r src n r.write_index m w ne (omega (arith, l))
        (ground (arith, o)) in
    (
      m',
      write-run r src length u m m' (unused-rest r w) e,
      used-write r n w l,
      keeps r w src n m m' l c,
      adds r w src n m m' l c,
    )
