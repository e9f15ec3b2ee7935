-- ===== src/Math/Modulo.antt =====
-- What the operations of kernel/lib/kmath.c compute.
use native.Mathlib.Nat.{mod-lt, mod-eq_of_lt, mod-eq-sub-mod, add-mod}
use bsprakt_os.Base.{
  dec_lt, lt→ltb, ◌∙◌, ℕ, ◌+◌, ◌-◌, ◌*◌, ◌/◌, ◌%◌, ◌^◌, ◌≤◌, ◌<◌, ◌≡◌, false, ltb, arith, ok, panic,
  if◌then◌else◌,
}
use bsprakt_os.Base.Words.{uint_max}
use bsprakt_os.Math.{k_modulo_add, k_modulo_sub, k_clamp_unsigned, k_align8}

-- A sum of two residues, reduced once.
mod-of-sum :
    (a b max : ℕ)
    → a < max
    → b < max
    → (a + b) % max ≡ (if ltb (a + b) max then a + b else a + b - max)
mod-of-sum a b max p q = elim (dec_lt (a + b) max) [
  | yes l ↦ rw (lt→ltb (a + b) max l) (mod-eq_of_lt l)
  | no g ↦
      let f : ltb (a + b) max ≡ false = ground arith in
      rw f (
        mod-eq-sub-mod {n = a + b} {m = max} (omega arith)
        ∙ mod-eq_of_lt {n = a + b - max} {m = max} (omega arith))
]

-- `k_modulo_add` with lower bound 0 is addition modulo `max`, with no wrap of the 32-bit sum.
pub k_modulo_add_lem :
    (a b max : ℕ) → 0 < max → max < 2 ^ 32 → k_modulo_add a b 0 max ≡ ok ((a + b) % max)
unfolding k_modulo_add
k_modulo_add_lem a b max p q =
    let ra = mod-lt a p in
    let rb = mod-lt b p in
    let e = mod-of-sum (a % max) (b % max) max ra rb in ground (arith, e, add-mod a b max)

-- `k_modulo_sub` with lower bound 0 is subtraction modulo `max`.
pub k_modulo_sub_lem :
    (a b max : ℕ)
    → 0 < max
    → max < 2 ^ 32
    → k_modulo_sub a b 0 max ≡ ok ((a % max + max - b % max) % max)
unfolding k_modulo_sub
k_modulo_sub_lem a b max p q =
    let ra = mod-lt a p in
    let rb = mod-lt b p in
    elim (dec_lt (a % max) (b % max)) [
      | yes l ↦ ground (arith, mod-eq_of_lt {n = a % max + max - b % max} {m = max} (omega arith))
      | no g ↦ ground (
        arith,
        mod-eq-sub-mod {n = a % max + max - b % max} {m = max} (omega arith),
        mod-eq_of_lt {n = a % max + max - b % max - max} {m = max} (omega arith),
      )
    ]

-- The result is the least multiple of eight that is not below `num`; the kernel panics exactly when
-- `num` is above UINT_MAX - 8.
pub k_align8_lem :
    (num : ℕ) → k_align8 num ≡ (if ltb (uint_max - 8) num then panic else ok ((num + 7) / 8 * 8))
unfolding k_align8
k_align8_lem num = ground arith

-- `k_clamp_unsigned` panics on an empty range, and otherwise returns a value in the range.
pub k_clamp_unsigned_bounds :
    (num min max r : ℕ) → k_clamp_unsigned num min max ≡ ok r → (min ≤ r) × (r ≤ max)
unfolding k_clamp_unsigned
k_clamp_unsigned_bounds num min max r e = ground arith
