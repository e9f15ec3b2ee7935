-- ===== src/Fraction/Lowest.antt =====
-- kernel/lib/kfraction.c: a new fraction is in lowest terms.
use Prim.Native.Nat.{◌∣◌}
use native.Mathlib.Nat
use bsprakt_os.Base.{
  ℕ, zero, suc, ◌*◌, ◌/◌, ◌<◌, ◌≡◌, refl, ap, subst, ◌==◌, true, false, ok, arith, ltb→lt,
}
use bsprakt_os.Base.Signed.{
  ℤ, pos, negsuc, nat_abs, is_negative, with_sign, ◌*ℤ◌, tdiv, fits, to_long-fits,
  nat_abs-with_sign, fits-with_sign,
}
use bsprakt_os.Math.Gcd.{gcd, in_long, gcd-dvd, dvd-gcd, gcd_pos, k_gcd-gcd}
use bsprakt_os.Fraction.{Fraction, k_fraction_compact, k_fraction_create}

-- The quotient by a number.
abbrev pub over : ℤ → ℕ → ℤ
over a g = with_sign (is_negative a) (nat_abs a / g)

tdiv-over : (a : ℤ) (g : ℕ) → tdiv a (pos g) ≡ over a g
unfolding tdiv
tdiv-over (pos n) g = refl
tdiv-over (negsuc n) g = refl

fits-over : (a : ℤ) (g : ℕ) → in_long a ≡ true → fits (over a g) ≡ true
fits-over a g h =
    fits-with_sign (is_negative a) (nat_abs a / g)
      (omega (arith, Nat.div-le_self (nat_abs a) g, ltb→lt (nat_abs a) 2147483648 h))

pub k_fraction_compact-over :
    (a : Fraction)
    → in_long a.numerator ≡ true
    → in_long a.denominator ≡ true
    → k_fraction_compact a ≡ record {
      numerator = over a.numerator (gcd (nat_abs a.numerator) (nat_abs a.denominator));
      denominator = over a.denominator (gcd (nat_abs a.numerator) (nat_abs a.denominator));
    }
unfolding k_fraction_compact
k_fraction_compact-over a h k =
    rw
      (
        k_gcd-gcd a.numerator a.denominator h k,
        tdiv-over,
        tdiv-over,
        to_long-fits _
            (fits-over a.numerator (gcd (nat_abs a.numerator) (nat_abs a.denominator)) h),
        to_long-fits _
            (fits-over a.denominator (gcd (nat_abs a.numerator) (nat_abs a.denominator)) k),
      )
      refl

pub gcd-div-div : (a b : ℕ) → 0 < b → gcd (a / gcd a b) (b / gcd a b) ≡ 1
gcd-div-div a b h =
    Nat.eq-one_of_dvd-one (Nat.dvd_of_mul-dvd-mul_right r (gcd_pos a b h) (rw Nat.one-mul both))
  where
    r : ℕ
    r = gcd (a / gcd a b) (b / gcd a b)

    lifted : (n : ℕ) → gcd a b ∣ n → r ∣ n / gcd a b → r * gcd a b ∣ n
    lifted n d e =
        subst (◌∣◌ (r * gcd a b)) (Nat.div-mul_cancel (gcd a b) d)
          (Nat.mul-dvd-mul_right r e (gcd a b))

    both : r * gcd a b ∣ gcd a b
    both =
        dvd-gcd (r * gcd a b) a b (lifted a (gcd-dvd a b).0 (gcd-dvd (a / gcd a b) (b / gcd a b)).0)
          (lifted b (gcd-dvd a b).1 (gcd-dvd (a / gcd a b) (b / gcd a b)).1)

over-mul_cancel : (a : ℤ) (g : ℕ) → g ∣ nat_abs a → over a g *ℤ pos g ≡ a
unfolding ◌*ℤ◌
over-mul_cancel (pos n) g d = ap pos (Nat.div-mul_cancel g d)
over-mul_cancel (negsuc n) g d = back (suc n / g) (Nat.div-mul_cancel g d)
  where
    back : (q : ℕ) → q * g ≡ suc n → with_sign true q *ℤ pos g ≡ negsuc n
    back zero e = absurd (omega arith)
    back (suc q) e = ap (with_sign true) e

-- For two `long`s other than LONG_MIN, the second not zero, the new fraction has the same factor
-- taken out of both, and what is left of them has no common divisor but 1.
pub k_fraction_create-lowest :
    (a b : ℤ)
    → in_long a ≡ true
    → in_long b ≡ true
    → 0 < nat_abs b
    → (f : Fraction) × (g : ℕ) × (k_fraction_create a b ≡ ok f)
      × (f.numerator *ℤ pos g ≡ a)
      × (f.denominator *ℤ pos g ≡ b)
      × (gcd (nat_abs f.numerator) (nat_abs f.denominator) ≡ 1)
unfolding k_fraction_create
k_fraction_create-lowest a b h k p = (
  record { numerator = over a g; denominator = over b g },
  g,
  rw (nonzero (nat_abs b) p) (ap ok (k_fraction_compact-over _ h k)),
  over-mul_cancel a g (gcd-dvd (nat_abs a) (nat_abs b)).0,
  over-mul_cancel b g (gcd-dvd (nat_abs a) (nat_abs b)).1,
  rw (nat_abs-with_sign, nat_abs-with_sign) (gcd-div-div (nat_abs a) (nat_abs b) p),
)
  where
    g : ℕ
    g = gcd (nat_abs a) (nat_abs b)

    nonzero : (n : ℕ) → 0 < n → (n == 0) ≡ false
    nonzero n p = ground arith
