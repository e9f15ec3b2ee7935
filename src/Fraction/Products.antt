-- ===== src/Fraction/Products.antt =====
-- kernel/lib/kfraction.c: when a product is exact, and that the loop of `k_fraction_multiply` ends.
use native.Mathlib.Nat
use bsprakt_os.Base.{
  ℕ, zero, suc, ◌+◌, ◌-◌, ◌*◌, ◌/◌, ◌%◌, ◌≤◌, ◌<◌, ◌≡◌, refl, ap, ◌==◌, ltb, ◌&&◌, Bool, true,
  false, Option, some, none, Outcome, ok, if◌then◌else◌, ◌>>=◌, arith, lt→ltb, Bool-cases, inl, inr,
  ◌⊎◌,
}
use bsprakt_os.Base.Signed.{
  ℤ, pos, negsuc, nat_abs, is_negative, ◌*ℤ◌, ◌+ℤ◌, tmod, eqℤ, to_long, fits, to_long-fits,
  nat_abs-with_sign, mul_overflow,
}
use bsprakt_os.Timer.Errors.{success, k_einval}
use bsprakt_os.Math.Gcd.{gcd, in_long, gcd-dvd, dvd-gcd, gcd_pos}
use bsprakt_os.Fraction.{
  Fraction, k_fraction_compact, k_fraction_create, k_fraction_downcast_precision, make_even,
  downcast_either, multiply_loop, k_fraction_multiply,
}
use bsprakt_os.Fraction.Lowest.{over, k_fraction_compact-over}

abbrev pub over_pos : ℤ → ℕ → Fraction
over_pos n d = record { numerator = n; denominator = pos d }

-- The numerators and denominators for which a lower precision can be computed.
abbrev pub IsProper : ℤ → ℕ → Type 0
IsProper n d = (nat_abs n < 2147483647) × (0 < d) × (d < 2147483648)

-- The even number next to a number, on the side that `x--` takes.
abbrev even_below : ℤ → ℤ
even_below (pos n) = pos (n - n % 2)
even_below (negsuc n) = negsuc (n + suc n % 2)

make_even-below : (n : ℤ) → nat_abs n < 2147483648 → make_even n ≡ even_below n
unfolding ◌+ℤ◌ tmod to_long
make_even-below (pos n) h = ground arith
make_even-below (negsuc n) h = rw (nat_abs-with_sign true (suc n % 2)) (ground arith)

module _ (n : ℤ) where
  even_below-even : nat_abs (even_below n) % 2 ≡ 0
  even_below-even = ground arith

  even_below-le : nat_abs (even_below n) ≤ nat_abs n + 1
  even_below-le = ground arith

pub pos_of_mul : (q g : ℕ) → 0 < q * g → 0 < q
pos_of_mul zero g h = absurd (omega arith)
pos_of_mul (suc q) g h = omega arith

-- One half at most is left of two even numbers by their common divisor.
halved :
    (a b : ℕ)
    → a % 2 ≡ 0
    → b % 2 ≡ 0
    → 0 < b
    → (a / gcd a b ≤ a / 2) × (0 < b / gcd a b) × (b / gcd a b ≤ b / 2)
halved a b ha hb p = (smaller a ha, quotient, smaller b hb)
  where
    two_le : 2 ≤ gcd a b
    two_le =
        Nat.le_of_dvd (gcd_pos a b p)
          (dvd-gcd 2 a b (Nat.dvd_of_mod-eq-zero 2 ha) (Nat.dvd_of_mod-eq-zero 2 hb))

    smaller : (n : ℕ) → n % 2 ≡ 0 → n / gcd a b ≤ n / 2
    smaller n e =
        Nat.div-le_of_le-mul (gcd a b)
          (omega (arith, Nat.mul-le-mul_right {m = 2} {n = gcd a b} (n / 2) two_le))

    quotient : 0 < b / gcd a b
    quotient =
        pos_of_mul (b / gcd a b) (gcd a b) (rw (Nat.div-mul_cancel (gcd a b) (gcd-dvd a b).1) p)

above-one : (d : ℕ) → 1 < d → (d == 1) ≡ false
above-one d l = ground arith

-- Lowering the precision makes the denominator smaller, unless it is 1.
pub downcast-smaller :
    (n : ℤ) (d : ℕ)
    → IsProper n d
    → 1 < d
    → (n' : ℤ) × (d' : ℕ) × (k_fraction_downcast_precision (over_pos n d) ≡ (true, over_pos n' d'))
      × IsProper n' d'
      × (d' < d)
unfolding k_fraction_downcast_precision eqℤ
downcast-smaller n d h l = (
  over (even_below n) g,
  (d - d % 2) / g,
  rw (above-one d l, make_even-below n (omega arith), make_even-below (pos d) (omega arith))
      (ap (λ f. (true, f))
        (k_fraction_compact-over (over_pos (even_below n) (d - d % 2))
          (lt→ltb _ _ (omega (arith, even_below-le n))) (lt→ltb _ _ (omega arith)))),
  (
    rw (nat_abs-with_sign (is_negative (even_below n)) (nat_abs (even_below n) / g))
        (omega (arith, parts.0, even_below-le n)),
    parts.1,
    omega (arith, parts.2),
  ),
  omega (arith, parts.2),
)
  where
    g : ℕ
    g = gcd (nat_abs (even_below n)) (d - d % 2)

    parts :
        (nat_abs (even_below n) / g ≤ nat_abs (even_below n) / 2)
        × (0 < (d - d % 2) / g)
        × ((d - d % 2) / g ≤ (d - d % 2) / 2)
    parts =
        halved (nat_abs (even_below n)) (d - d % 2) (even_below-even n) (omega arith) (omega arith)

downcast-whole : (n : ℤ) → k_fraction_downcast_precision (over_pos n 1) ≡ (false, over_pos n 1)
unfolding k_fraction_downcast_precision eqℤ
downcast-whole n = refl

-- Whether a product fits, as the loop tests it.
abbrev pub products_fit : ℤ → ℕ → ℤ → ℕ → Bool
products_fit n d m e = fits (n *ℤ m) && ltb (d * e) 2147483648

-- One round of the loop.
multiply_loop-step :
    (fuel : ℕ) (n m : ℤ) (d e : ℕ)
    → multiply_loop (suc fuel) (over_pos n d) (over_pos m e) ≡ (
        if products_fit n d m e
        then ok (some (n *ℤ m, pos (d * e)))
        else elim (downcast_either (over_pos n d) (over_pos m e))
            as (λ _. Outcome (Option (ℤ × ℤ))) [
              | none ↦ ok none
              | some (a, b) ↦ multiply_loop fuel a b
            ])
unfolding multiply_loop mul_overflow
multiply_loop-step fuel n m d e = elim (Bool-cases (fits (n *ℤ m))) [
  | inl first ↦ elim (Bool-cases (ltb (d * e) 2147483648)) [
    | inl second ↦
        rw (first, second, to_long-fits (n *ℤ m) first, to_long-fits (pos (d * e)) second) refl
    | inr second ↦ rw (first, second) refl
  ]
  | inr first ↦ rw first refl
]

-- The loop goes on with fractions of a smaller sum of denominators, or it ends.
downcast_either-smaller :
    (n m : ℤ) (d e : ℕ)
    → IsProper n d
    → IsProper m e
    → (downcast_either (over_pos n d) (over_pos m e) ≡ none)
      ⊎ ((n' : ℤ) × (m' : ℤ) × (d' : ℕ) × (e' : ℕ) × (downcast_either (over_pos n d) (over_pos m e)
            ≡ some (over_pos n' d', over_pos m' e'))
          × IsProper n' d'
          × IsProper m' e'
          × (d' + e' < d + e))
unfolding downcast_either
downcast_either-smaller n m d e h k = elim (one-or-more d h.1) [
  | inl one ↦ rw one (elim (one-or-more e k.1) [
    | inl both ↦ rw (both, downcast-whole n, downcast-whole m) (inl refl)
    | inr more ↦
        let (m', e', v, p, l) = downcast-smaller m e k more in
        rw (downcast-whole n, v) (inr (n, m', 1, e', refl, rw one at h, p, omega arith))
  ])
  | inr more ↦
      let (n', d', v, p, l) = downcast-smaller n d h more in
      rw v (inr (n', m, d', e, refl, p, k, omega arith))
]
  where
    one-or-more : (d : ℕ) → 0 < d → (d ≡ 1) ⊎ (1 < d)
    one-or-more zero p = absurd (omega arith)
    one-or-more (suc zero) p = inl refl
    one-or-more (suc (suc d)) p = inr (omega arith)

multiply_loop-ends :
    (fuel : ℕ) (n m : ℤ) (d e : ℕ)
    → IsProper n d
    → IsProper m e
    → d + e < fuel
    → (multiply_loop fuel (over_pos n d) (over_pos m e) ≡ ok none)
      ⊎ ((p : ℤ) × (q : ℕ) × (multiply_loop fuel (over_pos n d) (over_pos m e)
            ≡ ok (some (p, pos q)))
          × (0 < q))
multiply_loop-ends zero n m d e h k l = absurd (omega arith)
multiply_loop-ends (suc fuel) n m d e h k l = elim (Bool-cases (products_fit n d m e)) [
  | inl fit ↦
      rw (multiply_loop-step fuel n m d e, fit) (inr (n *ℤ m, d * e, refl, Nat.mul-pos h.1 k.1))
  | inr over ↦
      rw (multiply_loop-step fuel n m d e, over)
        (elim (downcast_either-smaller n m d e h k) [
          | inl end ↦ rw end (inl refl)
          | inr (n', m', d', e', v, h', k', s) ↦
              rw v (multiply_loop-ends fuel n' m' d' e' h' k' (omega arith))
        ])
]

nonzero : (q : ℕ) → 0 < q → (q == 0) ≡ false
nonzero q p = ground arith

create-ok : (p : ℤ) (q : ℕ) → 0 < q → (f : Fraction) × (k_fraction_create p (pos q) ≡ ok f)
unfolding k_fraction_create
create-ok p q h = (k_fraction_compact (over_pos p q), rw (nonzero q h) refl)

-- With rounds for the sum of the denominators, a product of fractions with positive denominators
-- is always computed: there is a result without an error, or the error is -K_EINVAL and the result
-- is the first factor. The magnitudes of the numerators are below LONG_MAX.
pub k_fraction_multiply-ends :
    (rounds : ℕ) (n m : ℤ) (d e : ℕ)
    → IsProper n d
    → IsProper m e
    → d + e < rounds
    → (k_fraction_multiply rounds (over_pos n d) (over_pos m e) ≡ ok (k_einval, over_pos n d))
      ⊎ ((f : Fraction) × (k_fraction_multiply rounds (over_pos n d) (over_pos m e)
            ≡ ok (success, f)))
unfolding k_fraction_multiply
k_fraction_multiply-ends rounds n m d e h k l = elim (multiply_loop-ends rounds n m d e h k l) [
  | inl v ↦ rw v (inl refl)
  | inr (p, q, v, s) ↦ let (f, c) = create-ok p q s in rw (v, c) (inr (f, refl))
]

fits-in_long : (a : ℤ) → in_long a ≡ true → fits a ≡ true
fits-in_long (pos n) h = h
fits-in_long (negsuc n) h = ground arith

pub k_fraction_multiply-create :
    (rounds : ℕ) (n m : ℤ) (d e : ℕ)
    → in_long (n *ℤ m) ≡ true
    → d * e < 2147483648
    → 0 < rounds
    → k_fraction_multiply rounds (over_pos n d) (over_pos m e)
      ≡ (k_fraction_create (n *ℤ m) (pos (d * e)) >>= λ f. ok (success, f))
unfolding k_fraction_multiply
k_fraction_multiply-create zero n m d e h k l = absurd (omega arith)
k_fraction_multiply-create (suc rounds) n m d e h k l =
    rw (multiply_loop-step rounds n m d e, fits-in_long (n *ℤ m) h, lt→ltb (d * e) 2147483648 k)
      refl
