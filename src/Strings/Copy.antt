-- ===== src/Strings/Copy.antt =====
-- What kernel/lib/kstring.c copies and measures.
use bsprakt_os.Base.{
  ℕ, zero, suc, ◌+◌, ◌-◌, ◌≤◌, ◌<◌, ◌≡◌, ◌≢◌, ◌⊎◌, false, ltb, leb, ◌&&◌, arith, ok, panic,
  if◌then◌else◌, ◌==◌, update, ◌∙◌, ap, ◌↔◌,
}
use bsprakt_os.Strings.{Memory, memcpy_loop, k_memcpy, strlen_loop, k_strlen}

-- Source and destination of a copy of `n` bytes do not overlap.
abbrev pub Apart : ℕ → ℕ → ℕ → Type 0
Apart dst src n = (dst + n ≤ src) ⊎ (src + n ≤ dst)

-- What a copy leaves at an address.
abbrev pub copied : ℕ → ℕ → ℕ → Memory → ℕ → ℕ
copied dst src n m a = if leb dst a && ltb a (dst + n) then m (src + (a - dst)) else m a

memcpy_loop-lem :
    (rounds i dst src : ℕ) (m : Memory) (a : ℕ)
    → Apart dst src (i + rounds)
    → memcpy_loop rounds i dst src m a
      ≡ (if leb (dst + i) a && ltb a (dst + i + rounds) then m (src + (a - dst)) else m a)
unfolding memcpy_loop
memcpy_loop-lem zero i dst src m a w = ground arith
memcpy_loop-lem (suc rounds) i dst src m a w =
    let m' = update m (dst + i) (m (src + i)) in
    let ih = memcpy_loop-lem rounds (i + 1) dst src m' a (ground arith) in ground (arith, ih)

-- `k_memcpy` between ranges that do not overlap copies exactly the `n` bytes and changes no other
-- byte. (With nothing to copy the source may be NULL.)
pub k_memcpy-copied :
    (dst src n : ℕ) (m : Memory)
    → dst ≢ 0
    → (n ≡ 0) ⊎ (src ≢ 0)
    → Apart dst src n
    → (m' : Memory) × (k_memcpy dst src n m ≡ ok m') × ((a : ℕ) → m' a ≡ copied dst src n m a)
unfolding k_memcpy
k_memcpy-copied dst src n m d s w = (
  memcpy_loop n 0 dst src m,
  ground arith,
  λ a. ground (arith, memcpy_loop-lem n 0 dst src m a (ground arith)),
)

-- `k_memcpy` panics exactly when there is something to copy and one of the pointers is NULL.
pub k_memcpy-panic :
    (dst src n : ℕ) (m : Memory)
    → (k_memcpy dst src n m ≡ panic) ↔ ((n ≢ 0) × ((dst ≡ 0) ⊎ (src ≡ 0)))
unfolding k_memcpy
k_memcpy-panic dst src n m = (λ e. ground arith, λ c. ground arith)

-- The address `s` begins a string of `n` characters, the first NUL behind them.
abbrev pub IsString : Memory → ℕ → ℕ → Type 0
IsString m s n = (m (s + n) ≡ 0) × ((i : ℕ) → i < n → m (s + i) ≢ 0)

strlen_loop-lem :
    (fuel : ℕ) (m : Memory) (s n l : ℕ)
    → n < fuel
    → IsString m s n
    → strlen_loop fuel m s l ≡ ok (l + n)
unfolding strlen_loop
strlen_loop-lem zero m s n l f w = absurd (omega arith)
strlen_loop-lem (suc fuel) m s zero l f w = ground (arith, w.0)
strlen_loop-lem (suc fuel) m s (suc n) l f w =
    let z : (m s == 0) ≡ false = ground (arith, w.1 0) in
    let shift : (i : ℕ) → s + 1 + i ≡ s + suc i = λ i. omega arith in
    rw z (
      strlen_loop-lem fuel m (s + 1) n (l + 1) (omega arith)
        (rw (shift n) w.0, λ i j. rw (shift i) (w.1 (suc i) (omega arith)))
      ∙ ap ok (omega arith))

-- `k_strlen` returns the number of characters before the first NUL.
pub k_strlen_lem :
    (fuel : ℕ) (m : Memory) (s n : ℕ) → s ≢ 0 → n < fuel → IsString m s n → k_strlen fuel m s ≡ ok n
unfolding k_strlen
k_strlen_lem fuel m s n ne f w = ground (arith, strlen_loop-lem fuel m s n 0 f w)
