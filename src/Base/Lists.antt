-- ===== src/Base/Lists.antt =====
-- Lists over the native numbers, and sets of numbers as lists.
use Prim.Native.Nat.{ℕ, zero, suc, ◌+◌, ◌≤◌, ◌<◌}
use mathlib.Core.Path.{◌≡◌, refl, ap}
use mathlib.Core.Logic.{◌≢◌}
use mathlib.Core.Bool.{Bool, true, false, not, ◌&&◌, ◌||◌, or_assoc}
use mathlib.Core.List.{List, [], ◌∷◌, ◌++◌}
use native.Mathlib.Omega.{arith}
use bsprakt_os.Base.Tests.{◌==◌, if◌then◌else◌}

module _ {ℓ} {A : Type ℓ} where
  abbrev pub length : List A → ℕ
  length [] = 0
  length (x ∷ xs) = suc (length xs)

  abbrev pub get_or : List A → ℕ → A → A
  get_or [] i d = d
  get_or (x ∷ xs) zero d = x
  get_or (x ∷ xs) (suc i) d = get_or xs i d

  abbrev pub set : List A → ℕ → A → List A
  set [] i v = []
  set (x ∷ xs) zero v = v ∷ xs
  set (x ∷ xs) (suc i) v = x ∷ set xs i v

  abbrev pub take : ℕ → List A → List A
  take zero xs = []
  take (suc n) [] = []
  take (suc n) (x ∷ xs) = x ∷ take n xs

  abbrev pub drop : ℕ → List A → List A
  drop zero xs = xs
  drop (suc n) [] = []
  drop (suc n) (x ∷ xs) = drop n xs

  pub length-append : (xs ys : List A) → length (xs ++ ys) ≡ length xs + length ys
  length-append [] ys = omega arith
  length-append (x ∷ xs) ys = omega (arith, length-append xs ys)

  pub length-set : (xs : List A) (i : ℕ) (v : A) → length (set xs i v) ≡ length xs
  length-set [] i v = refl
  length-set (x ∷ xs) zero v = refl
  length-set (x ∷ xs) (suc i) v = ap suc (length-set xs i v)

-- Membership as a test, so that it computes and tactics read it.
abbrev pub has : ℕ → List ℕ → Bool
has a [] = false
has a (x ∷ xs) = (a == x) || has a xs

infix 40 ◌∈◌ ◌∉◌
abbrev pub ◌∈◌ : ℕ → List ℕ → Type 0
a ∈ xs = has a xs ≡ true

abbrev pub ◌∉◌ : ℕ → List ℕ → Type 0
a ∉ xs = has a xs ≡ false

-- No entry occurs twice.
abbrev pub distinct : List ℕ → Bool
distinct [] = true
distinct (x ∷ xs) = not (has x xs) && distinct xs

-- The list without the first occurrence of an entry.
abbrev pub erase : ℕ → List ℕ → List ℕ
erase a [] = []
erase a (x ∷ xs) = if a == x then xs else x ∷ erase a xs

pub has-append : (a : ℕ) (xs ys : List ℕ) → has a (xs ++ ys) ≡ (has a xs || has a ys)
has-append a [] ys = refl
has-append a (x ∷ xs) ys = rw (has-append a xs ys, or_assoc)

pub not-mem-erase_of_ne : (b a : ℕ) (xs : List ℕ) → b ≢ a → has b (erase a xs) ≡ has b xs
not-mem-erase_of_ne b a [] ne = refl
not-mem-erase_of_ne b a (x ∷ xs) ne = ground (arith, not-mem-erase_of_ne b a xs)

pub not-mem-erase : (a : ℕ) (xs : List ℕ) → distinct xs ≡ true → a ∉ erase a xs
not-mem-erase a [] d = refl
not-mem-erase a (x ∷ xs) d = ground (arith, not-mem-erase a xs)

pub mem-of-mem-erase : (b a : ℕ) (xs : List ℕ) → b ∈ erase a xs → b ∈ xs
mem-of-mem-erase b a [] h = h
mem-of-mem-erase b a (x ∷ xs) h = ground (arith, mem-of-mem-erase b a xs)

pub distinct-erase : (a : ℕ) (xs : List ℕ) → distinct xs ≡ true → distinct (erase a xs) ≡ true
distinct-erase a [] d = refl
distinct-erase a (x ∷ xs) d = ground (arith, distinct-erase a xs, mem-of-mem-erase x a xs)

pub distinct-snoc :
    (a : ℕ) (xs : List ℕ) → distinct xs ≡ true → a ∉ xs → distinct (xs ++ a ∷ []) ≡ true
distinct-snoc a [] d out = refl
distinct-snoc a (x ∷ xs) d out = ground (arith, distinct-snoc a xs, has-append x xs (a ∷ []))

pub erase-append : (a : ℕ) (xs ys : List ℕ) → a ∉ xs → erase a (xs ++ a ∷ ys) ≡ xs ++ ys
erase-append a [] ys out = ground arith
erase-append a (x ∷ xs) ys out = ground (arith, erase-append a xs ys)

length-erase : (a : ℕ) (xs : List ℕ) → length xs ≤ suc (length (erase a xs))
length-erase a [] = omega arith
length-erase a (x ∷ xs) = ground (arith, length-erase a xs)

-- A list of different numbers below `n` has at most `n` of them.
pub length-le_of_distinct :
    (n : ℕ) (xs : List ℕ) → distinct xs ≡ true → ((a : ℕ) → a ∈ xs → a < n) → length xs ≤ n
length-le_of_distinct zero [] d h = omega arith
length-le_of_distinct zero (x ∷ xs) d h = absurd (omega (arith, h x (ground arith)))
length-le_of_distinct (suc n) xs d h = omega (
  arith,
  length-erase n xs,
  length-le_of_distinct n (erase n xs) (distinct-erase n xs d)
      λ a i. ground (arith, h a, mem-of-mem-erase a n xs, not-mem-erase n xs d),
)
