-- ===== src/Math/Gcd.antt =====
-- kernel/lib/kmath.c: the greatest common divisor and the least common multiple.
use bsprakt_os.Base.{
  ℕ, zero, suc, ◌+◌, ◌*◌, ◌/◌, ◌%◌, ◌<◌, ◌≡◌, refl, ap, sym, ◌∙◌, subst, ◌==◌, ltb, Bool, true,
  false, if◌then◌else◌, arith, Bool-cases, inl, inr,
}
use Prim.Native.Nat.{◌∣◌}
use native.Mathlib.Nat
use bsprakt_os.Base.Signed.{ℤ, pos, negsuc, nat_abs, ◌*ℤ◌, tdiv, tmod, to_long, to_long-fits}
use bsprakt_os.Math.{k_abs, gcd_loop, k_gcd, k_lcm}

-- Euclid's algorithm on numbers, with enough rounds.
euclid : ℕ → ℕ → ℕ → ℕ
euclid zero a b = a
euclid (suc fuel) a b = let rest = euclid fuel b (a % b) in if b == 0 then a else rest

-- The greatest common divisor of two numbers.
unfoldable pub gcd : ℕ → ℕ → ℕ
unfolding euclid
gcd a b = euclid (suc b) a b

-- A `long` whose magnitude is a `long` too.
abbrev pub in_long : ℤ → Bool
in_long a = ltb (nat_abs a) 2147483648

k_abs-nat_abs : (a : ℤ) → in_long a ≡ true → k_abs a ≡ pos (nat_abs a)
k_abs-nat_abs (pos n) h = refl
k_abs-nat_abs (negsuc n) h = to_long-fits (pos (suc n)) h

gcd_loop-euclid : (fuel a b : ℕ) → gcd_loop fuel (pos a) (pos b) ≡ pos (euclid fuel a b)
unfolding gcd_loop tmod euclid
gcd_loop-euclid zero a b = refl
gcd_loop-euclid (suc fuel) a b = elim (Bool-cases (b == 0)) [
  | inl e ↦ rw e refl
  | inr e ↦ rw e (gcd_loop-euclid fuel b (a % b))
]

pub k_gcd-gcd :
    (a b : ℤ) → in_long a ≡ true → in_long b ≡ true → k_gcd a b ≡ pos (gcd (nat_abs a) (nat_abs b))
unfolding k_gcd gcd
k_gcd-gcd a b h k =
    rw (k_abs-nat_abs a h, k_abs-nat_abs b k)
      (gcd_loop-euclid (suc (nat_abs b)) (nat_abs a) (nat_abs b))

euclid-dvd : (fuel a b : ℕ) → b < fuel → (euclid fuel a b ∣ a) × (euclid fuel a b ∣ b)
unfolding euclid
euclid-dvd zero a b h = absurd (omega arith)
euclid-dvd (suc fuel) a b h = elim (Bool-cases (b == 0)) [
  | inl e ↦ rw e (Nat.dvd_refl a, subst (λ (n : ℕ). a ∣ n) (sym (is-zero b e)) (Nat.dvd-zero a))
  | inr e ↦ rw e (
      let (left, right) = euclid-dvd fuel b (a % b) (below a b fuel e h) in
      ((Nat.dvd-mod_iff _ left).0 right, left))
]
  where
    is-zero : (b : ℕ) → (b == 0) ≡ true → b ≡ 0
    is-zero b e = ground arith

    below : (a b fuel : ℕ) → (b == 0) ≡ false → b < suc fuel → a % b < fuel
    below a b fuel e h = grind arith

dvd-euclid : (k fuel a b : ℕ) → k ∣ a → k ∣ b → k ∣ euclid fuel a b
unfolding euclid
dvd-euclid k zero a b l r = l
dvd-euclid k (suc fuel) a b l r = elim (Bool-cases (b == 0)) [
  | inl e ↦ rw e l
  | inr e ↦ rw e (dvd-euclid k fuel b (a % b) r ((Nat.dvd-mod_iff k r).1 l))
]

pub gcd-dvd : (a b : ℕ) → (gcd a b ∣ a) × (gcd a b ∣ b)
unfolding gcd
gcd-dvd a b = euclid-dvd (suc b) a b (omega arith)

pub dvd-gcd : (k a b : ℕ) → k ∣ a → k ∣ b → k ∣ gcd a b
unfolding gcd
dvd-gcd k a b = dvd-euclid k (suc b) a b

-- For two `long`s other than LONG_MIN, the result is a common divisor of their magnitudes that all
-- common divisors divide; the loop ends.
pub k_gcd-greatest :
    (a b : ℤ)
    → in_long a ≡ true
    → in_long b ≡ true
    → (d : ℕ) × (k_gcd a b ≡ pos d)
      × (d ∣ nat_abs a)
      × (d ∣ nat_abs b)
      × ((k : ℕ) → k ∣ nat_abs a → k ∣ nat_abs b → k ∣ d)
k_gcd-greatest a b h k = (
  gcd (nat_abs a) (nat_abs b),
  k_gcd-gcd a b h k,
  (gcd-dvd (nat_abs a) (nat_abs b)).0,
  (gcd-dvd (nat_abs a) (nat_abs b)).1,
  λ m. dvd-gcd m (nat_abs a) (nat_abs b),
)

dvd-mul-mod : (k n a b : ℕ) → k ∣ n * a → k ∣ n * b → k ∣ n * (a % b)
dvd-mul-mod k n a b l r =
    (Nat.dvd-add_iff_right k (Nat.dvd-mul_right_of_dvd k r (a / b))).1
      (subst (λ (t : ℕ). k ∣ t) split l)
  where
    split : n * a ≡ n * b * (a / b) + n * (a % b)
    split = rw (Nat.mul_assoc, ← Nat.mul-add, Nat.div-add-mod) refl

dvd-mul-euclid : (k n fuel a b : ℕ) → k ∣ n * a → k ∣ n * b → k ∣ n * euclid fuel a b
unfolding euclid
dvd-mul-euclid k n zero a b l r = l
dvd-mul-euclid k n (suc fuel) a b l r = elim (Bool-cases (b == 0)) [
  | inl e ↦ rw e l
  | inr e ↦ rw e (dvd-mul-euclid k n fuel b (a % b) r (dvd-mul-mod k n a b l r))
]

dvd-mul-gcd : (k n a b : ℕ) → k ∣ n * a → k ∣ n * b → k ∣ n * gcd a b
unfolding gcd
dvd-mul-gcd k n a b = dvd-mul-euclid k n (suc b) a b

-- The least common multiple of two numbers.
abbrev pub lcm : ℕ → ℕ → ℕ
lcm a b = a / gcd a b * b

pub gcd_pos : (a b : ℕ) → 0 < b → 0 < gcd a b
gcd_pos a b h = Nat.pos_of_dvd_of_pos (gcd-dvd a b).1 h

lcm-mul-gcd : (a b : ℕ) → lcm a b * gcd a b ≡ a * b
lcm-mul-gcd a b =
    rw (Nat.mul_right_comm (a / gcd a b) b (gcd a b), Nat.div-mul_cancel (gcd a b) (gcd-dvd a b).0)
      refl

dvd-lcm : (a b : ℕ) → a ∣ lcm a b
dvd-lcm a b = subst (λ (t : ℕ). a ∣ t) (sym regroup) (Nat.dvd-mul_right a (b / gcd a b))
  where
    regroup : lcm a b ≡ a * (b / gcd a b)
    regroup =
        Nat.mul_comm (a / gcd a b) b
        ∙ sym (Nat.mul-div_assoc (gcd a b) b (gcd-dvd a b).0)
        ∙ ap (λ t. t / gcd a b) (Nat.mul_comm b a)
        ∙ Nat.mul-div_assoc (gcd a b) a (gcd-dvd a b).1

lcm-dvd : (a b n : ℕ) → 0 < b → a ∣ n → b ∣ n → lcm a b ∣ n
lcm-dvd a b n h l r =
    Nat.dvd_of_mul-dvd-mul_right (lcm a b) (gcd_pos a b h)
      (subst (λ (t : ℕ). t ∣ n * gcd a b) (sym (lcm-mul-gcd a b)) both)
  where
    both : a * b ∣ n * gcd a b
    both =
        dvd-mul-gcd (a * b) n a b
          (subst (λ (t : ℕ). t ∣ n * a) (Nat.mul_comm b a) (Nat.mul-dvd-mul_right b r a))
          (Nat.mul-dvd-mul_right a l b)

-- For two `long`s other than LONG_MIN, the second not zero, the result is the least common
-- multiple of their magnitudes, as far as that is a `long`: a greater one wraps round.
pub k_lcm-least :
    (a b : ℤ)
    → in_long a ≡ true
    → in_long b ≡ true
    → 0 < nat_abs b
    → (m : ℕ) × (k_lcm a b ≡ to_long (pos m))
      × (nat_abs a ∣ m)
      × (nat_abs b ∣ m)
      × ((k : ℕ) → nat_abs a ∣ k → nat_abs b ∣ k → m ∣ k)
unfolding k_lcm tdiv ◌*ℤ◌
k_lcm-least a b h k p = (
  lcm (nat_abs a) (nat_abs b),
  rw (k_gcd-gcd a b h k, k_abs-nat_abs a h, k_abs-nat_abs b k) refl,
  dvd-lcm (nat_abs a) (nat_abs b),
  Nat.dvd-mul_left (nat_abs b) (nat_abs a / gcd (nat_abs a) (nat_abs b)),
  λ n. lcm-dvd (nat_abs a) (nat_abs b) n p,
)
