-- ===== src/Math.antt =====
-- kernel/lib/kmath.c and the macros of include/kernel/lib/kmath.h, on 32-bit `unsigned`
-- and `long`.
pub mod Modulo
pub mod Gcd
use bsprakt_os.Base.{
  ℕ, zero, suc, ◌+◌, ◌-◌, ◌%◌, ltb, leb, not, ◌==◌, if◌then◌else◌, Outcome, ok, ◌>>=◌, ◌>>◌, verify,
}
use bsprakt_os.Base.Words.{uint_max, add32, sub32}
use bsprakt_os.Base.Signed.{ℤ, pos, negsuc, nat_abs, is_negative, neg_ℤ, ◌*ℤ◌, tdiv, tmod, to_long}

abbrev pub k_min : ℕ → ℕ → ℕ
k_min a b = if ltb a b then a else b

abbrev pub k_max : ℕ → ℕ → ℕ
k_max a b = if ltb a b then b else a

unfoldable pub k_modulo_add : ℕ → ℕ → ℕ → ℕ → Outcome ℕ
k_modulo_add a b min max = do
  verify (ltb min max)
  let a' = a % max
  let b' = b % max
  if ltb a' (max - b') then ok (add32 a' b') else ok (add32 (sub32 (add32 a' b') max) min)

unfoldable pub k_modulo_sub : ℕ → ℕ → ℕ → ℕ → Outcome ℕ
k_modulo_sub a b min max = do
  verify (ltb min max)
  let a' = a % max
  let b' = b % max
  let distance = sub32 (k_max a' min) (k_min a' min)
  if ltb distance b' then ok (sub32 max (sub32 b' distance)) else ok (sub32 a' b')

unfoldable pub k_clamp_unsigned : ℕ → ℕ → ℕ → Outcome ℕ
k_clamp_unsigned num min max = do
  verify (ltb min max)
  ok (if ltb num min then min else if ltb max num then max else num)

unfoldable pub k_align8 : ℕ → Outcome ℕ
k_align8 num = do
  verify (leb num (uint_max - 8))
  ok (if not (num % 8 == 0) then sub32 (add32 num 8) (num % 8) else num)

abbrev pub k_abs : ℤ → ℤ
k_abs a = if is_negative a then to_long (neg_ℤ a) else a

-- The loop of `k_gcd`. The remainder gets smaller, so as many rounds as the magnitude of `b` and
-- one more are enough.
unfoldable pub gcd_loop : ℕ → ℤ → ℤ → ℤ
unfolding tmod
gcd_loop zero a b = a
gcd_loop (suc fuel) a b =
    let rest = gcd_loop fuel b (tmod a b) in if nat_abs b == 0 then a else rest

unfoldable pub k_gcd : ℤ → ℤ → ℤ
unfolding gcd_loop to_long
k_gcd a b = gcd_loop (suc (nat_abs (k_abs b))) (k_abs a) (k_abs b)

unfoldable pub k_lcm : ℤ → ℤ → ℤ
unfolding k_gcd tdiv ◌*ℤ◌ to_long
k_lcm a b = to_long (tdiv (k_abs a) (k_gcd a b) *ℤ k_abs b)
