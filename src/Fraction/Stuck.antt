-- ===== src/Fraction/Stuck.antt =====
-- kernel/lib/kfraction.c: sums that are never computed. The common denominator of LONG_MAX and 2
-- does not fit in a `long`, and `k_lcm` gives -2 for it.
use bsprakt_os.Base.{ℕ, zero, suc, ◌≡◌, refl, ◌∙◌, Bool, true, false, ok, out_of_fuel, arith}
use bsprakt_os.Base.Signed.{
  ℤ, pos, negsuc, with_sign, ◌*ℤ◌, tdiv, eqℤ, to_long, fits, to_long-fits, mul_overflow, long_max,
}
use bsprakt_os.Timer.Errors.{success}
use bsprakt_os.Math.{k_gcd, k_lcm}
use bsprakt_os.Math.Gcd.{in_long}
use bsprakt_os.Fraction.{
  Fraction, k_fraction_create, k_fraction_scalar_multiply, scale_loop, overflow_loop, add_loop,
  k_fraction_add, k_fraction_round, k_fraction_compact,
}

lcm-wraps : (k_lcm long_max (pos 2) ≡ negsuc 1) × (k_lcm long_max (negsuc 1) ≡ negsuc 1)
unfolding k_lcm
lcm-wraps = (refl, refl)

abbrev fraction : ℤ → ℤ → Fraction
fraction n d = record { numerator = n; denominator = d }

-- A scaling by 1 or -1 goes well, and the magnitude stays.
fits-unit : (m : ℤ) (s : Bool) → in_long m ≡ true → fits (m *ℤ with_sign s 1) ≡ true
unfolding ◌*ℤ◌
fits-unit (pos n) false h = ground arith
fits-unit (pos zero) true h = refl
fits-unit (pos (suc n)) true h = ground arith
fits-unit (negsuc n) false h = ground arith
fits-unit (negsuc n) true h = ground arith

in_long-unit : (m : ℤ) (s : Bool) → in_long m ≡ true → in_long (m *ℤ with_sign s 1) ≡ true
unfolding ◌*ℤ◌
in_long-unit (pos n) false h = ground arith
in_long-unit (pos zero) true h = refl
in_long-unit (pos (suc n)) true h = ground arith
in_long-unit (negsuc n) false h = ground arith
in_long-unit (negsuc n) true h = ground arith

scale-unit :
    (m d : ℤ) (s : Bool)
    → in_long m ≡ true
    → fits (d *ℤ with_sign s 1) ≡ true
    → k_fraction_scalar_multiply (fraction m d) (with_sign s 1)
      ≡ (success, fraction (m *ℤ with_sign s 1) (d *ℤ with_sign s 1))
unfolding k_fraction_scalar_multiply mul_overflow eqℤ
scale-unit m d false h k =
    rw (fits-unit m false h, k, to_long-fits _ (fits-unit m false h), to_long-fits _ k) refl
scale-unit m d true h k =
    rw (fits-unit m true h, k, to_long-fits _ (fits-unit m true h), to_long-fits _ k) refl

scale_zero :
    (n d : ℤ) → k_fraction_scalar_multiply (fraction n d) (pos 0) ≡ (success, fraction (pos 0) d)
unfolding k_fraction_scalar_multiply eqℤ
scale_zero n d = refl

scale_loop-both :
    (fuel : ℕ) (common : ℤ) (a b c d : Fraction)
    → k_fraction_scalar_multiply a (to_long (tdiv common a.denominator)) ≡ (success, c)
    → k_fraction_scalar_multiply b (to_long (tdiv common b.denominator)) ≡ (success, d)
    → scale_loop (suc fuel) common a b ≡ ok (c, d)
unfolding scale_loop
scale_loop-both fuel common a b c d h k = rw (h, k) refl

quotients :
    (to_long (tdiv (negsuc 1) long_max) ≡ pos 0)
    × (to_long (tdiv (negsuc 1) (pos 2)) ≡ negsuc 0)
    × (to_long (tdiv (negsuc 1) (negsuc 1)) ≡ pos 1)
unfolding tdiv to_long
quotients = (refl, refl, refl)

minus_two : (pos 2 *ℤ negsuc 0 ≡ negsuc 1) × (negsuc 1 *ℤ pos 1 ≡ negsuc 1)
unfolding ◌*ℤ◌
minus_two = (refl, refl)

-- The common denominator -2 makes zero of the first fraction and leaves the denominators different.
scale_loop-two :
    (fuel : ℕ) (n m : ℤ)
    → in_long m ≡ true
    → scale_loop (suc fuel) (negsuc 1) (fraction n long_max) (fraction m (pos 2))
      ≡ ok (fraction (pos 0) long_max, fraction (m *ℤ negsuc 0) (negsuc 1))
scale_loop-two fuel n m h =
    scale_loop-both fuel (negsuc 1) _ _ _ _ (rw (quotients.0) (scale_zero n long_max))
      (rw (quotients.1, ← minus_two.0) (scale-unit m (pos 2) true h (rw (minus_two.0) refl)))

scale_loop-minus_two :
    (fuel : ℕ) (n m : ℤ)
    → in_long m ≡ true
    → scale_loop (suc fuel) (negsuc 1) (fraction n long_max) (fraction m (negsuc 1))
      ≡ ok (fraction (pos 0) long_max, fraction (m *ℤ pos 1) (negsuc 1))
scale_loop-minus_two fuel n m h =
    scale_loop-both fuel (negsuc 1) _ _ _ _ (rw (quotients.0) (scale_zero n long_max)) (
      rw (quotients.2)
        (scale-unit m (negsuc 1) false h (rw (minus_two.1) refl) ∙ rw (minus_two.1) refl))

overflow_loop-differ :
    (fuel : ℕ) (sum : ℤ) (a b : Fraction)
    → eqℤ a.denominator b.denominator ≡ false
    → overflow_loop (suc fuel) sum a b ≡ ok (sum, a, b)
unfolding overflow_loop
overflow_loop-differ fuel sum a b h = rw h refl

differ : (eqℤ long_max (pos 2) ≡ false) × (eqℤ long_max (negsuc 1) ≡ false)
unfolding eqℤ
differ = (refl, refl)

-- A round of the outer loop whose inner loops end at once.
add_loop-round :
    (fuel rounds : ℕ) (sum : ℤ) (a b c d : Fraction)
    → eqℤ a.denominator b.denominator ≡ false
    → scale_loop (suc rounds) (k_lcm a.denominator b.denominator) a b ≡ ok (c, d)
    → eqℤ c.denominator d.denominator ≡ false
    → add_loop (suc fuel) (suc rounds) sum a b ≡ add_loop fuel (suc rounds) sum c d
unfolding add_loop
add_loop-round fuel rounds sum a b c d h s k = rw (h, s, overflow_loop-differ rounds sum c d k) refl

add_loop-zero : (rounds : ℕ) (sum : ℤ) (a b : Fraction) → add_loop zero rounds sum a b ≡ out_of_fuel
unfolding add_loop
add_loop-zero rounds sum a b = refl

-- Without rounds the inner loop does not end.
add_loop-no_rounds :
    (fuel : ℕ) (sum : ℤ) (a b : Fraction)
    → eqℤ a.denominator b.denominator ≡ false
    → add_loop (suc fuel) zero sum a b ≡ out_of_fuel
unfolding add_loop scale_loop
add_loop-no_rounds fuel sum a b h = rw h refl

add_loop-minus_two :
    (fuel rounds : ℕ) (sum n m : ℤ)
    → in_long m ≡ true
    → add_loop fuel (suc rounds) sum (fraction n long_max) (fraction m (negsuc 1)) ≡ out_of_fuel
add_loop-minus_two zero rounds sum n m h = add_loop-zero (suc rounds) sum _ _
add_loop-minus_two (suc fuel) rounds sum n m h =
    add_loop-round fuel rounds sum _ _ _ _ differ.1
      (rw (lcm-wraps.1) (scale_loop-minus_two rounds n m h)) differ.1
    ∙ add_loop-minus_two fuel rounds sum (pos 0) (m *ℤ pos 1) (in_long-unit m false h)

add_loop-two :
    (fuel rounds : ℕ) (sum n m : ℤ)
    → in_long m ≡ true
    → add_loop fuel rounds sum (fraction n long_max) (fraction m (pos 2)) ≡ out_of_fuel
add_loop-two zero rounds sum n m h = add_loop-zero rounds sum _ _
add_loop-two (suc fuel) zero sum n m h = add_loop-no_rounds fuel sum _ _ differ.0
add_loop-two (suc fuel) (suc rounds) sum n m h =
    add_loop-round fuel rounds sum _ _ _ _ differ.0 (rw (lcm-wraps.0) (scale_loop-two rounds n m h))
      differ.1
    ∙ add_loop-minus_two fuel rounds sum (pos 0) (m *ℤ negsuc 0) (in_long-unit m true h)

-- The sum of a fraction over LONG_MAX and a fraction over 2 is never computed, however many rounds
-- the loops have, so long as the second numerator is not LONG_MIN.
pub k_fraction_add-stuck :
    (rounds : ℕ) (n m : ℤ)
    → in_long m ≡ true
    → k_fraction_add rounds (fraction n long_max) (fraction m (pos 2)) ≡ out_of_fuel
unfolding k_fraction_add
k_fraction_add-stuck rounds n m h = rw (add_loop-two rounds rounds (pos 0) n m h) refl

half : k_fraction_create (pos 1) (pos 2) ≡ ok (fraction (pos 1) (pos 2))
unfolding k_fraction_create k_fraction_compact k_gcd tdiv to_long
half = refl

-- Rounding a fraction over LONG_MAX never ends.
pub k_fraction_round-stuck :
    (rounds : ℕ) (n : ℤ) → k_fraction_round rounds (fraction n long_max) ≡ out_of_fuel
unfolding k_fraction_round
k_fraction_round-stuck rounds n = rw (half, k_fraction_add-stuck rounds n (pos 1) refl) refl
