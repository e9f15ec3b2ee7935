-- ===== src/Fraction.antt =====
-- kernel/lib/kfraction.c: fractions of two 32-bit `long`s. A result that does not fit wraps round,
-- as in Base/Signed. Loops take their rounds as an argument.
pub mod Lowest
pub mod Products
pub mod Stuck
use bsprakt_os.Base.{
  ℕ, zero, suc, ◌==◌, Bool, true, false, not, ◌||◌, if◌then◌else◌, Option, some, none, Outcome, ok,
  panic, out_of_fuel, ◌>>=◌, ◌>>◌, verify,
}
use bsprakt_os.Base.Signed.{
  ℤ, pos, negsuc, nat_abs, is_negative, neg_ℤ, ◌+ℤ◌, ◌*ℤ◌, tdiv, tmod, ltℤ, eqℤ, long_max, to_long,
  add_overflow, mul_overflow,
}
use bsprakt_os.Timer.Errors.{Status, success, k_einval, k_erange, is_error}
use bsprakt_os.Math.{k_gcd, k_lcm}

pub record Fraction : Type 0 where
  pub numerator : ℤ
  pub denominator : ℤ

unfoldable pub k_fraction_compact : Fraction → Fraction
k_fraction_compact a =
    let factor = k_gcd a.numerator a.denominator in
    record {
      numerator = to_long (tdiv a.numerator factor);
      denominator = to_long (tdiv a.denominator factor);
    }

unfoldable pub k_fraction_create : ℤ → ℤ → Outcome Fraction
k_fraction_create a b = do
  verify (not (nat_abs b == 0))
  ok (k_fraction_compact (record { numerator = a; denominator = b }))

-- k_fraction_from_number
abbrev pub k_fraction_from_number : ℤ → Outcome Fraction
k_fraction_from_number a = k_fraction_create a (pos 1)

unfoldable pub k_fraction_to_whole_number : Fraction → ℤ
k_fraction_to_whole_number a = to_long (tdiv a.numerator a.denominator)

-- `if (x % 2 != 0) x--`
abbrev pub make_even : ℤ → ℤ
make_even x = if nat_abs (tmod x (pos 2)) == 0 then x else to_long (x +ℤ negsuc 0)

-- Whether the precision could be lowered, and the fraction.
unfoldable pub k_fraction_downcast_precision : Fraction → Bool × Fraction
k_fraction_downcast_precision a = if eqℤ a.denominator (pos 1) then (false, a) else (
  true,
  k_fraction_compact
      (record { numerator = make_even a.numerator; denominator = make_even a.denominator }),
)

-- `numerator * (common / denominator)`
abbrev pub scaled_numerator : Fraction → ℤ → ℤ
scaled_numerator a common = to_long (a.numerator *ℤ to_long (tdiv common a.denominator))

unfoldable pub k_fraction_lt : Fraction → Fraction → Bool
k_fraction_lt a b =
    let common = k_lcm a.denominator b.denominator in
    ltℤ (scaled_numerator a common) (scaled_numerator b common)

unfoldable pub k_fraction_eq : Fraction → Fraction → Bool
k_fraction_eq a b =
    let common = k_lcm a.denominator b.denominator in
    eqℤ (scaled_numerator a common) (scaled_numerator b common)

-- The status, and what `out` holds afterwards.
unfoldable pub k_fraction_scalar_multiply : Fraction → ℤ → Status × Fraction
k_fraction_scalar_multiply a scalar =
    if eqℤ scalar (pos 0)
    then (success, record a { numerator = pos 0 })
    else if (mul_overflow a.numerator scalar).0 || (mul_overflow a.denominator scalar).0
    then (k_erange, a)
    else (
      success,
      record {
        numerator = (mul_overflow a.numerator scalar).1;
        denominator = (mul_overflow a.denominator scalar).1;
      },
    )

-- `!downcast(a) && !downcast(b)` is none; otherwise the fractions, of which one is changed.
unfoldable pub downcast_either : Fraction → Fraction → Option (Fraction × Fraction)
downcast_either a b =
    let first = k_fraction_downcast_precision a in
    let second = k_fraction_downcast_precision b in
    if first.0 then some (first.1, b) else if second.0 then some (a, second.1) else none

-- The loop that brings both fractions to the denominator `common`.
unfoldable pub scale_loop : ℕ → ℤ → Fraction → Fraction → Outcome (Fraction × Fraction)
scale_loop zero common a b = out_of_fuel
scale_loop (suc fuel) common a b =
    let first = k_fraction_scalar_multiply a (to_long (tdiv common a.denominator)) in
    let second = k_fraction_scalar_multiply b (to_long (tdiv common b.denominator)) in
    let again = λ (a' : Fraction).
      elim (downcast_either (k_fraction_compact a') (k_fraction_compact b))
        as (λ _. Outcome (Fraction × Fraction)) [
          | none ↦ panic
          | some (c, d) ↦ scale_loop fuel (k_lcm c.denominator d.denominator) c d
        ] in
    if is_error first.0
    then again a
    else if is_error second.0
    then again first.1
    else ok (first.1, second.1)

-- The loop that lowers the precision while the sum overflows. `sum` is what the variable
-- `res_num_add` holds.
unfoldable pub overflow_loop : ℕ → ℤ → Fraction → Fraction → Outcome (ℤ × Fraction × Fraction)
overflow_loop zero sum a b = out_of_fuel
overflow_loop (suc fuel) sum a b =
    let again = elim (downcast_either a b) as (λ _. Outcome (ℤ × Fraction × Fraction)) [
      | none ↦ panic
      | some (c, d) ↦ overflow_loop fuel (add_overflow a.numerator b.numerator).1 c d
    ] in
    if not (eqℤ a.denominator b.denominator)
    then ok (sum, a, b)
    else if (add_overflow a.numerator b.numerator).0
    then again
    else ok ((add_overflow a.numerator b.numerator).1, a, b)

-- The outer loop of `k_fraction_add`. The inner ones have `rounds` rounds each time.
unfoldable pub add_loop : ℕ → ℕ → ℤ → Fraction → Fraction → Outcome (ℤ × Fraction × Fraction)
add_loop zero rounds sum a b = out_of_fuel
add_loop (suc fuel) rounds sum a b =
    let body = λ (sum' : ℤ). (do
      s ← scale_loop rounds (k_lcm a.denominator b.denominator) a b
      t ← overflow_loop rounds sum' s.0 s.1
      add_loop fuel rounds t.0 t.1 t.2) in
    if not (eqℤ a.denominator b.denominator)
    then body sum
    else if (add_overflow a.numerator b.numerator).0
    then body (add_overflow a.numerator b.numerator).1
    else ok ((add_overflow a.numerator b.numerator).1, a, b)

unfoldable pub k_fraction_add : ℕ → Fraction → Fraction → Outcome Fraction
k_fraction_add rounds a b = do
  r ← add_loop rounds rounds (pos 0) a b
  k_fraction_create r.0 r.1.denominator

unfoldable pub k_fraction_change_sign : Fraction → Fraction
k_fraction_change_sign a =
    if is_negative a.denominator
    then record a { denominator = to_long (neg_ℤ a.denominator) }
    else record a { numerator = to_long (neg_ℤ a.numerator) }

unfoldable pub k_fraction_sub : ℕ → Fraction → Fraction → Outcome Fraction
k_fraction_sub rounds a b = k_fraction_add rounds a (k_fraction_change_sign b)

-- The loop of `k_fraction_multiply`: the products, or none where the precision is exhausted.
unfoldable pub multiply_loop : ℕ → Fraction → Fraction → Outcome (Option (ℤ × ℤ))
multiply_loop zero a b = out_of_fuel
multiply_loop (suc fuel) a b =
    let again = elim (downcast_either a b) as (λ _. Outcome (Option (ℤ × ℤ))) [
      | none ↦ ok none
      | some (c, d) ↦ multiply_loop fuel c d
    ] in
    if (mul_overflow a.numerator b.numerator).0 || (mul_overflow a.denominator b.denominator).0
    then again
    else ok (
        some
          ((mul_overflow a.numerator b.numerator).1, (mul_overflow a.denominator b.denominator).1))

-- The error that is stored, and the result.
unfoldable pub k_fraction_multiply : ℕ → Fraction → Fraction → Outcome (Status × Fraction)
k_fraction_multiply rounds a b = multiply_loop rounds a b >>= λ r. elim r [
  | none ↦ ok (k_einval, a)
  | some (n, d) ↦ k_fraction_create n d >>= λ f. ok (success, f)
]

-- k_fraction_multiply_unchecked
abbrev pub k_fraction_multiply_unchecked : ℕ → Fraction → Fraction → Outcome Fraction
k_fraction_multiply_unchecked rounds a b = k_fraction_multiply rounds a b >>= λ r. ok r.1

unfoldable pub k_fraction_floor : Fraction → Outcome Fraction
k_fraction_floor a =
    k_fraction_create (to_long (a.numerator +ℤ neg_ℤ (tmod a.numerator a.denominator)))
      a.denominator

unfoldable pub k_fraction_round : ℕ → Fraction → Outcome Fraction
k_fraction_round rounds a = do
  half ← k_fraction_create (pos 1) (pos 2)
  added ← k_fraction_add rounds a half
  k_fraction_floor added

unfoldable pub k_fraction_project_onto_range : ℕ → Fraction → Fraction → Fraction → Outcome Fraction
k_fraction_project_onto_range rounds a min max = do
  verify (not (ltℤ a.denominator a.numerator))
  verify (not (k_fraction_lt max min))
  diff ← k_fraction_sub rounds max min
  scaled ← k_fraction_multiply_unchecked rounds a diff
  k_fraction_add rounds scaled min

unfoldable pub k_project_long_onto_range : ℕ → ℤ → ℤ → ℤ → Outcome ℤ
k_project_long_onto_range rounds a min max = do
  f_scale ← k_fraction_create a long_max
  f_min ← k_fraction_from_number min
  f_max ← k_fraction_from_number max
  f_projected ← k_fraction_project_onto_range rounds f_scale f_min f_max
  f_rounded ← k_fraction_round rounds f_projected
  ok (k_fraction_to_whole_number f_rounded)
