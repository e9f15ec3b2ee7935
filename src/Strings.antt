-- ===== src/Strings.antt =====
-- kernel/lib/kstring.c: strings and memory. A memory is a table of bytes by address.
pub mod Copy
use bsprakt_os.Base.{
  ℕ, zero, suc, ◌+◌, ◌==◌, not, if◌then◌else◌, update, Outcome, ok, out_of_fuel, ◌>>=◌, ◌>>◌,
  verify,
}

abbrev pub Memory : Type 0
Memory = ℕ → ℕ

-- The loop of `k_strlen` from the address `s`.
unfoldable pub strlen_loop : ℕ → Memory → ℕ → ℕ → Outcome ℕ
strlen_loop zero m s length = out_of_fuel
strlen_loop (suc fuel) m s length =
    let rest = strlen_loop fuel m (s + 1) (length + 1) in if m s == 0 then ok length else rest

unfoldable pub k_strlen : ℕ → Memory → ℕ → Outcome ℕ
k_strlen fuel m s = do verify (not (s == 0)); strlen_loop fuel m s 0

-- The loop of `k_memcpy`, with the rounds left and the index `i`.
unfoldable pub memcpy_loop : ℕ → ℕ → ℕ → ℕ → Memory → Memory
memcpy_loop zero i dst src m = m
memcpy_loop (suc rounds) i dst src m =
    memcpy_loop rounds (i + 1) dst src (update m (dst + i) (m (src + i)))

unfoldable pub k_memcpy : ℕ → ℕ → ℕ → Memory → Outcome Memory
k_memcpy dst src n m =
    if n == 0
    then ok (memcpy_loop n 0 dst src m)
    else do verify (not (dst == 0)); verify (not (src == 0)); ok (memcpy_loop n 0 dst src m)
