-- ===== src/Ktiming/Exact.antt =====
-- kernel/lib/ktiming.c: for which values the conversions are exact, and what the system calls make
-- of them.
use native.Mathlib.Nat
use bsprakt_os.Base.{
  ℕ, ◌*◌, ◌/◌, ◌≤◌, ◌<◌, ◌≡◌, refl, ap, sym, ◌∙◌, ◌==◌, ltb, true, false, ok, arith, lt→ltb,
}
use bsprakt_os.Base.Signed.{pos, tdiv, to_long, to_long-fits, ◌*ℤ◌}
use bsprakt_os.Timer.Errors.{success}
use bsprakt_os.Math.{k_gcd}
use bsprakt_os.Math.Gcd.{gcd, gcd-dvd, gcd_pos}
use bsprakt_os.Fraction.{
  Fraction, k_fraction_create, k_fraction_compact, k_fraction_multiply, k_fraction_to_whole_number,
}
use bsprakt_os.Fraction.Lowest.{k_fraction_compact-over}
use bsprakt_os.Fraction.Products.{over_pos, pos_of_mul, k_fraction_multiply-create}
use bsprakt_os.Timer.{systimer_value}
use bsprakt_os.Kernel.{Kernel}
use bsprakt_os.Syscalls.{syscall_get_time, set_r0}
use bsprakt_os.Ktiming.{ktiming_milliseconds_to_hertz, ktiming_hertz_to_milliseconds, timing}

create-over :
    (n d : ℕ)
    → n < 2147483648
    → d < 2147483648
    → 0 < d
    → k_fraction_create (pos n) (pos d) ≡ ok (over_pos (pos (n / gcd n d)) (d / gcd n d))
unfolding k_fraction_create
create-over n d h k p =
    rw (nonzero d p)
      (ap ok (k_fraction_compact-over (over_pos (pos n) d) (lt→ltb _ _ h) (lt→ltb _ _ k)))
  where
    nonzero : (d : ℕ) → 0 < d → (d == 0) ≡ false
    nonzero d p = ground arith

quotient-lt : (n g bound : ℕ) → n < bound → n / g < bound
quotient-lt n g bound h = omega (arith, Nat.div-le_self n g)

positive : (n d : ℕ) → 0 < d → 0 < d / gcd n d
positive n d p =
    pos_of_mul (d / gcd n d) (gcd n d) (rw (Nat.div-mul_cancel (gcd n d) (gcd-dvd n d).1) p)

-- Two quotients by the same divisor have the quotient of the numbers.
div-div : (n d : ℕ) → 0 < d → n / gcd n d / (d / gcd n d) ≡ n / d
div-div n d p =
    sym (Nat.mul-div-mul_right (n / gcd n d) (d / gcd n d) (gcd_pos n d p))
    ∙ rw
        (Nat.div-mul_cancel (gcd n d) (gcd-dvd n d).0, Nat.div-mul_cancel (gcd n d) (gcd-dvd n d).1)
        refl

whole-over :
    (n d : ℕ)
    → n < 2147483648
    → 0 < d
    → k_fraction_to_whole_number (over_pos (pos (n / gcd n d)) (d / gcd n d)) ≡ pos (n / d)
unfolding k_fraction_to_whole_number tdiv
whole-over n d h p =
    rw (div-div n d p) (to_long-fits (pos (n / d)) (lt→ltb _ _ (quotient-lt n d 2147483648 h)))

-- A fraction n / d times k / 1, and the whole number in it.
product :
    (rounds n d k : ℕ)
    → n * k < 2147483648
    → d < 2147483648
    → 0 < d
    → 0 < rounds
    → (f : Fraction) × (k_fraction_multiply rounds
          (over_pos (pos (n / gcd n d)) (d / gcd n d))
          (over_pos (pos k) 1)
        ≡ ok (success, f))
      × (k_fraction_to_whole_number f ≡ pos (n * k / d))
unfolding ◌*ℤ◌
product rounds n d k h l p r = (
  over_pos (pos (top / gcd top bottom)) (bottom / gcd top bottom),
  rw
      (
        k_fraction_multiply-create rounds (pos (n / gcd n d)) (pos k) (d / gcd n d) 1
            (lt→ltb _ _ top-lt) bottom-lt r,
        create-over top bottom top-lt bottom-lt bottom_pos,
      )
      refl,
  rw (whole-over top bottom top-lt bottom_pos) (ap pos same),
)
  where
    top : ℕ
    top = n / gcd n d * k

    bottom : ℕ
    bottom = d / gcd n d * 1

    top-lt : top < 2147483648
    top-lt = omega (arith, Nat.mul-le-mul_right k (Nat.div-le_self n (gcd n d)))

    bottom-lt : bottom < 2147483648
    bottom-lt = omega (arith, Nat.div-le_self d (gcd n d))

    bottom_pos : 0 < bottom
    bottom_pos = omega (arith, positive n d p)

    same : top / bottom ≡ n * k / d
    same =
        sym (Nat.mul-div-mul_right top bottom (gcd_pos n d p))
        ∙ rw
            (
              Nat.mul_right_comm (n / gcd n d) k (gcd n d),
              Nat.mul-one (d / gcd n d),
              Nat.div-mul_cancel (gcd n d) (gcd-dvd n d).0,
              Nat.div-mul_cancel (gcd n d) (gcd-dvd n d).1,
            )
            refl

whole-constants :
    (k_fraction_create (pos 1000000) (pos 1) ≡ ok (over_pos (pos 1000000) 1))
    × (k_fraction_create (pos 1000) (pos 1) ≡ ok (over_pos (pos 1000) 1))
unfolding k_fraction_create k_fraction_compact k_gcd tdiv to_long
whole-constants = (refl, refl)

small : (n : ℕ) → n < 2147483648 → ltb n 2147483648 ≡ true
small n h = ground arith

-- Up to 2147 milliseconds, the conversion gives a thousand ticks for each, and no error.
pub ktiming_milliseconds_to_hertz-exact :
    (rounds ms : ℕ)
    → ms ≤ 2147
    → 0 < rounds
    → ktiming_milliseconds_to_hertz rounds ms ≡ ok (success, ms * 1000)
unfolding ktiming_milliseconds_to_hertz
ktiming_milliseconds_to_hertz-exact rounds ms h r =
    let (f, m, w) = product rounds ms 1000 1000000 (omega arith) (omega arith) (omega arith) r in
    rw
      (
        small ms (omega arith),
        create-over ms 1000 (omega arith) (omega arith) (omega arith),
        whole-constants.0,
        m,
        w,
      )
      (ap (λ n. ok (success, n)) (omega arith))

-- Up to 2147483 ticks, which is a little more than two seconds, the conversion gives the whole
-- milliseconds in them.
pub ktiming_hertz_to_milliseconds-exact :
    (rounds hz : ℕ)
    → hz ≤ 2147483
    → 0 < rounds
    → ktiming_hertz_to_milliseconds rounds hz ≡ ok (hz / 1000)
unfolding ktiming_hertz_to_milliseconds
ktiming_hertz_to_milliseconds-exact rounds hz h r =
    let (f, m, w) = product rounds hz 1000000 1000 (omega arith) (omega arith) (omega arith) r in
    rw
      (
        small hz (omega arith),
        create-over hz 1000000 (omega arith) (omega arith) (omega arith),
        whole-constants.1,
        m,
        w,
      )
      (ap ok (omega arith))

-- `sys$get_time` returns the whole milliseconds of a counter of at most 2147483 ticks.
pub syscall_get_time-exact :
    (rounds : ℕ) (k : Kernel)
    → (systimer_value k.timer).0 ≤ 2147483
    → 0 < rounds
    → syscall_get_time (timing rounds) k
      ≡ ok (
          set_r0
            ((systimer_value k.timer).0 / 1000)
            (record k { timer = (systimer_value k.timer).1 }))
unfolding syscall_get_time timing
syscall_get_time-exact rounds k h r =
    rw (ktiming_hertz_to_milliseconds-exact rounds (systimer_value k.timer).0 h r) refl
