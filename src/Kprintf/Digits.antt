-- ===== src/Kprintf/Digits.antt =====
-- kernel/lib/kprintf.c: the digits that `kprintf_base_less_eq_16_to_ascii` writes, and the number
-- that they stand for.
use bsprakt_os.Base.{
  ℕ, zero, suc, ◌+◌, ◌-◌, ◌*◌, ◌/◌, ◌%◌, ◌^◌, ◌≤◌, ◌<◌, ◌≡◌, refl, ap, ◌∙◌, ◌==◌, leb, Bool, true,
  false, if◌then◌else◌, List, [], ◌∷◌, ◌++◌, length, ok, arith, Bool-cases, inl, inr,
}
use mathlib.Core.List.{append_assoc}
use native.Mathlib.Nat.{
  lt_of_lt_of_le, mul-le-mul_left, div-lt_iff_lt-mul, mod-eq_of_lt, div-add-mod, pow-suc,
}
use bsprakt_os.Ascii.{k_to_ascii_hexadecimal_digit}
use bsprakt_os.Console.{ascii_loop, kprintf_base_less_eq_16_to_ascii, max_number_print_width}

-- The character of a digit, and the digit of a character.
abbrev pub hex : ℕ → ℕ
hex d = if leb d 9 then d + b'0' else d + b'a' - 10

abbrev pub digit_value : ℕ → ℕ
digit_value ch = if leb ch b'9' then ch - b'0' else ch + 10 - b'a'

-- The number that digits stand for, the least significant first.
abbrev pub value : ℕ → List ℕ → ℕ
value base [] = 0
value base (ch ∷ chars) = digit_value ch + base * value base chars

-- Whether the most significant digit is a zero.
abbrev pub leading_zero : List ℕ → Bool
leading_zero [] = false
leading_zero (ch ∷ []) = ch == b'0'
leading_zero (ch ∷ (d ∷ chars)) = leading_zero (d ∷ chars)

digits_of : ℕ → ℕ → ℕ → List ℕ
digits_of zero num base = hex (num % base) ∷ []
digits_of (suc room) num base =
    let rest = digits_of room (num / base) base in
    hex (num % base) ∷ (if num / base == 0 then [] else rest)

to_ascii-hex : (d : ℕ) → d < 16 → k_to_ascii_hexadecimal_digit d ≡ ok (hex d)
unfolding k_to_ascii_hexadecimal_digit
to_ascii-hex d h = ground arith

digit_value-hex : (d : ℕ) → d < 16 → digit_value (hex d) ≡ d
digit_value-hex d h = ground arith

mod-lt-16 : (num base : ℕ) → 1 < base → base ≤ 16 → num % base < 16
mod-lt-16 num base l h = grind arith

ascii_loop-digits :
    (room num base : ℕ) (out : List ℕ)
    → 1 < base
    → base ≤ 16
    → ascii_loop room num base out ≡ ok (out ++ digits_of room num base)
unfolding ascii_loop digits_of
ascii_loop-digits zero num base out l h =
    rw (to_ascii-hex (num % base) (mod-lt-16 num base l h)) refl
ascii_loop-digits (suc room) num base out l h = elim (Bool-cases (num / base == 0)) [
  | inl e ↦ rw (to_ascii-hex (num % base) (mod-lt-16 num base l h), e) refl
  | inr e ↦
      rw (to_ascii-hex (num % base) (mod-lt-16 num base l h), e)
        (ascii_loop-digits room (num / base) base (out ++ hex (num % base) ∷ []) l h
          ∙ ap ok (append_assoc out (hex (num % base) ∷ []) (digits_of room (num / base) base)))
]

doubled : (base room : ℕ) → 1 < base → 2 ^ suc room ≤ 2 ^ room * base
doubled base room l = omega (arith, mul-le-mul_left {m = 2} {n = base} (2 ^ room) l, pow-suc 2 room)

half : (num base room : ℕ) → 1 < base → num < 2 ^ suc room → num / base < 2 ^ room
half num base room l h =
    (div-lt_iff_lt-mul (omega arith)).1 (lt_of_lt_of_le h (doubled base room l))

length-digits_of : (room num base : ℕ) → length (digits_of room num base) ≤ suc room
unfolding digits_of
length-digits_of zero num base = omega arith
length-digits_of (suc room) num base = ground (arith, length-digits_of room (num / base) base)

small-value :
    (num base : ℕ) → 1 < base → base ≤ 16 → num < base → value base (hex (num % base) ∷ []) ≡ num
small-value num base l h s =
    rw (digit_value-hex (num % base) (mod-lt-16 num base l h), mod-eq_of_lt s) (omega arith)

value-digits_of :
    (room num base : ℕ)
    → 1 < base
    → base ≤ 16
    → num < 2 ^ suc room
    → value base (digits_of room num base) ≡ num
unfolding digits_of
value-digits_of zero num base l h b = small-value num base l h (omega arith)
value-digits_of (suc room) num base l h b = elim (Bool-cases (num / base == 0)) [
  | inl e ↦ rw e (small-value num base l h (grind arith))
  | inr e ↦
      rw
        (
          e,
          digit_value-hex (num % base) (mod-lt-16 num base l h),
          value-digits_of room (num / base) base l h (half num base (suc room) l b),
        )
        (omega (arith, div-add-mod num base))
]

leading-digits_of :
    (room num base ch : ℕ)
    → leading_zero (ch ∷ digits_of room num base) ≡ leading_zero (digits_of room num base)
unfolding digits_of
leading-digits_of zero num base ch = refl
leading-digits_of (suc room) num base ch = refl

small-leading :
    (num base : ℕ) → 1 < base → base ≤ 16 → num < base → (hex (num % base) == b'0') ≡ (num == 0)
small-leading num base l h s = rw (mod-eq_of_lt s) (ground arith)

leading_zero-digits_of :
    (room num base : ℕ)
    → 1 < base
    → base ≤ 16
    → num < 2 ^ suc room
    → leading_zero (digits_of room num base) ≡ (num == 0)
unfolding digits_of
leading_zero-digits_of zero num base l h b = small-leading num base l h (omega arith)
leading_zero-digits_of (suc room) num base l h b = elim (Bool-cases (num / base == 0)) [
  | inl e ↦ rw e (small-leading num base l h (grind arith))
  | inr e ↦
      rw
        (
          e,
          leading-digits_of room (num / base) base (hex (num % base)),
          leading_zero-digits_of room (num / base) base l h (half num base (suc room) l b),
        )
        (grind arith)
]

within : (base : ℕ) → base ≤ 16 → leb base 16 ≡ true
within base h = ground arith

-- In a base from 2 to 16, at most 32 characters are written for a word; they stand for that word
-- in the base, and they begin with a zero only if the word is zero.
pub kprintf_base_less_eq_16_to_ascii-value :
    (num base : ℕ)
    → 1 < base
    → base ≤ 16
    → num < 2 ^ 32
    → (digits : List ℕ) × (kprintf_base_less_eq_16_to_ascii num base max_number_print_width
        ≡ ok digits)
      × (value base digits ≡ num)
      × (length digits ≤ max_number_print_width)
      × (leading_zero digits ≡ (num == 0))
unfolding kprintf_base_less_eq_16_to_ascii
kprintf_base_less_eq_16_to_ascii-value num base l h b = (
  digits_of 31 num base,
  rw (within base h) (ascii_loop-digits 31 num base [] l h),
  value-digits_of 31 num base l h b,
  length-digits_of 31 num base,
  leading_zero-digits_of 31 num base l h b,
)
