-- ===== src/Base/Signed.antt =====
-- The 32-bit `long` and `int`: integers, with the two's complement that the compiled code leaves
-- where a result does not fit.
use Prim.Native.Nat.{ℕ, zero, suc, ◌+◌, ◌-◌, ◌*◌, ◌/◌, ◌%◌, ◌<◌}
use mathlib.Core.Path.{◌≡◌, refl}
use mathlib.Core.Bool.{Bool, true, false, not}
use native.Mathlib.Omega.{arith}
use bsprakt_os.Base.Tests.{ltb, leb, ◌==◌, if◌then◌else◌}
use bsprakt_os.Base.Words.{word}

-- `negsuc n` is -(n + 1).
pub data ℤ : Type 0 where
  pos : ℕ → ℤ
  negsuc : ℕ → ℤ

abbrev pub nat_abs : ℤ → ℕ
nat_abs (pos n) = n
nat_abs (negsuc n) = suc n

abbrev pub is_negative : ℤ → Bool
is_negative (pos n) = false
is_negative (negsuc n) = true

-- The number with a sign and a magnitude.
abbrev pub with_sign : Bool → ℕ → ℤ
with_sign false n = pos n
with_sign true zero = pos zero
with_sign true (suc n) = negsuc n

abbrev differ : Bool → Bool → Bool
differ true b = not b
differ false b = b

abbrev pub neg_ℤ : ℤ → ℤ
neg_ℤ a = with_sign (not (is_negative a)) (nat_abs a)

abbrev pos_part : ℤ → ℕ
pos_part (pos n) = n
pos_part (negsuc n) = 0

abbrev neg_part : ℤ → ℕ
neg_part (pos n) = 0
neg_part (negsuc n) = suc n

abbrev sub_ℕ : ℕ → ℕ → ℤ
sub_ℕ a b = if leb b a then pos (a - b) else negsuc (b - a - 1)

infixl 65 ◌+ℤ◌
infixl 70 ◌*ℤ◌
unfoldable pub ◌+ℤ◌ : ℤ → ℤ → ℤ
a +ℤ b = sub_ℕ (pos_part a + pos_part b) (neg_part a + neg_part b)

unfoldable pub ◌*ℤ◌ : ℤ → ℤ → ℤ
a *ℤ b = with_sign (differ (is_negative a) (is_negative b)) (nat_abs a * nat_abs b)

-- C division rounds towards zero, and the remainder has the sign of the dividend. A division by
-- zero gives zero, as the division of the processor does.
unfoldable pub tdiv : ℤ → ℤ → ℤ
tdiv a b = with_sign (differ (is_negative a) (is_negative b)) (nat_abs a / nat_abs b)

unfoldable pub tmod : ℤ → ℤ → ℤ
tmod a b = with_sign (is_negative a) (nat_abs a % nat_abs b)

unfoldable pub ltℤ : ℤ → ℤ → Bool
ltℤ (pos m) (pos n) = ltb m n
ltℤ (pos m) (negsuc n) = false
ltℤ (negsuc m) (pos n) = true
ltℤ (negsuc m) (negsuc n) = ltb n m

unfoldable pub eqℤ : ℤ → ℤ → Bool
eqℤ (pos m) (pos n) = m == n
eqℤ (pos m) (negsuc n) = false
eqℤ (negsuc m) (pos n) = false
eqℤ (negsuc m) (negsuc n) = m == n

-- LONG_MAX and LONG_MIN
abbrev pub long_max : ℤ
long_max = pos 2147483647

abbrev pub long_min : ℤ
long_min = negsuc 2147483647

abbrev pub fits : ℤ → Bool
fits (pos n) = ltb n 2147483648
fits (negsuc n) = ltb n 2147483648

-- The word that stands for an integer, and the integer that a word stands for.
abbrev pub to_word : ℤ → ℕ
to_word (pos n) = n % word
to_word (negsuc n) = word - 1 - n % word

abbrev pub of_word : ℕ → ℤ
of_word w = if ltb w 2147483648 then pos w else negsuc (word - 1 - w)

unfoldable pub to_long : ℤ → ℤ
to_long a = of_word (to_word a)

-- __builtin_add_overflow and __builtin_mul_overflow: whether the result does not fit, and what is
-- stored.
unfoldable pub add_overflow : ℤ → ℤ → Bool × ℤ
unfolding ◌+ℤ◌ to_long
add_overflow a b = (not (fits (a +ℤ b)), to_long (a +ℤ b))

unfoldable pub mul_overflow : ℤ → ℤ → Bool × ℤ
unfolding ◌*ℤ◌ to_long
mul_overflow a b = (not (fits (a *ℤ b)), to_long (a *ℤ b))

pub to_long-fits : (a : ℤ) → fits a ≡ true → to_long a ≡ a
unfolding to_long
to_long-fits (pos n) h = ground arith
to_long-fits (negsuc n) h = ground arith

pub nat_abs-with_sign : (s : Bool) (n : ℕ) → nat_abs (with_sign s n) ≡ n
nat_abs-with_sign false n = refl
nat_abs-with_sign true zero = refl
nat_abs-with_sign true (suc n) = refl

pub fits-with_sign : (s : Bool) (n : ℕ) → n < 2147483648 → fits (with_sign s n) ≡ true
fits-with_sign false n h = ground arith
fits-with_sign true zero h = refl
fits-with_sign true (suc n) h = ground arith
