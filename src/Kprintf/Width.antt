-- ===== src/Kprintf/Width.antt =====
-- kernel/lib/kprintf.c: how the width in a format is read.
use bsprakt_os.Base.{
  ℕ, zero, suc, ◌+◌, ◌-◌, ◌*◌, ◌≤◌, ◌<◌, ◌≡◌, refl, ap, sym, ◌∙◌, ltb, leb, Bool, true, false,
  if◌then◌else◌, List, [], ◌∷◌, length, ok, arith, Bool-cases, inl, inr, leb→le,
}
use native.Mathlib.Nat.{add-zero}
use bsprakt_os.Strings.{Memory}
use bsprakt_os.Ascii.{k_is_ascii_decimal_digit, k_parse_ascii_decimal_digit}
use bsprakt_os.Kprintf.{PrintState, advance, pad_width_loop, kprintf_set_pad_width}

-- The characters from the address `p` on.
abbrev pub Holds : Memory → ℕ → List ℕ → Type 0
Holds m p [] = Unit {0}
Holds m p (ch ∷ text) = (m p ≡ ch) × Holds m (p + 1) text

abbrev pub All : (ℕ → Bool) → List ℕ → Type 0
All test [] = Unit {0}
All test (ch ∷ text) = (test ch ≡ true) × All test text

-- The number of decimal digits, the most significant first, behind digits that stand for `n`.
abbrev pub decimal : ℕ → List ℕ → ℕ
decimal n [] = n
decimal n (ch ∷ text) = decimal (n * 10 + (ch - b'0')) text

-- How many digits are read before the number exceeds 255.
abbrev pub in_range : ℕ → List ℕ → ℕ
in_range n [] = 0
in_range n (ch ∷ text) =
    let next = n * 10 + (ch - b'0') in
    let rest = in_range next text in if leb next 255 then suc rest else 0

abbrev pub moved : ℕ → PrintState → PrintState
moved n state = record state { position = state.position + n }

-- What reading a width comes to.
abbrev pub width_of : ℕ → List ℕ → PrintState → Bool × PrintState
width_of n text state =
    if leb (decimal n text) 255
    then (true, record (moved (length text) state) { pad_width = decimal n text })
    else (false, moved (in_range n text) state)

decimal-le : (n : ℕ) (text : List ℕ) → n ≤ decimal n text
decimal-le n [] = omega arith
decimal-le n (ch ∷ text) = omega (arith, decimal-le (n * 10 + (ch - b'0')) text)

width_of-step :
    (n ch : ℕ) (text : List ℕ) (state : PrintState)
    → leb (n * 10 + (ch - b'0')) 255 ≡ true
    → width_of (n * 10 + (ch - b'0')) text (advance state) ≡ width_of n (ch ∷ text) state
width_of-step n ch text state h = ground arith

width_of-stop :
    (n ch : ℕ) (text : List ℕ) (state : PrintState)
    → leb (n * 10 + (ch - b'0')) 255 ≡ false
    → width_of n (ch ∷ text) state ≡ (false, state)
width_of-stop n ch text state h = ground (arith, decimal-le (n * 10 + (ch - b'0')) text)

pub shift : (p n : ℕ) → p + 1 + n ≡ p + suc n
shift p n = omega arith

parse-digit :
    (ch : ℕ) → k_is_ascii_decimal_digit ch ≡ true → k_parse_ascii_decimal_digit ch ≡ ok (ch - b'0')
unfolding k_is_ascii_decimal_digit k_parse_ascii_decimal_digit
parse-digit ch h = rw h refl

-- The first round, where the character is a digit.
pad_width_loop-digit :
    (fuel n ch : ℕ) (m : Memory) (state : PrintState)
    → m state.position ≡ ch
    → k_is_ascii_decimal_digit ch ≡ true
    → pad_width_loop (suc fuel) m n state ≡ (
        if ltb 255 (n * 10 + (ch - b'0'))
        then ok (false, state)
        else pad_width_loop fuel m (n * 10 + (ch - b'0')) (advance state))
unfolding pad_width_loop
pad_width_loop-digit fuel n ch m state e d = rw (e, d, parse-digit ch d) refl

not-lt : (n : ℕ) → leb n 255 ≡ true → ltb 255 n ≡ false
not-lt n h = ground arith

lt_of_not_le : (n : ℕ) → leb n 255 ≡ false → ltb 255 n ≡ true
lt_of_not_le n h = ground arith

here :
    (m : Memory) (p : ℕ)
    → k_is_ascii_decimal_digit (m (p + 0)) ≡ false
    → k_is_ascii_decimal_digit (m p) ≡ false
here m p e = rw add-zero at e

behind :
    (m : Memory) (p n : ℕ)
    → k_is_ascii_decimal_digit (m (p + suc n)) ≡ false
    → k_is_ascii_decimal_digit (m (p + 1 + n)) ≡ false
behind m p n e = rw (shift p n) e

pad_width_loop-width_of :
    (text : List ℕ) (fuel n : ℕ) (m : Memory) (state : PrintState)
    → n ≤ 255
    → All k_is_ascii_decimal_digit text
    → Holds m state.position text
    → k_is_ascii_decimal_digit (m (state.position + length text)) ≡ false
    → length text < fuel
    → pad_width_loop fuel m n state ≡ ok (width_of n text state)
unfolding pad_width_loop
pad_width_loop-width_of text zero n m state l a h e f = absurd (omega arith)
pad_width_loop-width_of [] (suc fuel) n m state l a h e f =
    rw (here m state.position e) (ground arith)
pad_width_loop-width_of (ch ∷ text) (suc fuel) n m state l a h e f =
    pad_width_loop-digit fuel n ch m state h.0 a.0
    ∙ elim (Bool-cases (leb (n * 10 + (ch - b'0')) 255)) [
      | inl small ↦ rw (not-lt _ small) (
          pad_width_loop-width_of text fuel (n * 10 + (ch - b'0')) m (advance state)
            (leb→le _ _ small) a.1 h.1 (behind m state.position (length text) e) (omega arith)
          ∙ ap ok (width_of-step n ch text state small))
      | inr large ↦ rw (lt_of_not_le _ large) (ap ok (sym (width_of-stop n ch text state large)))
    ]

-- A width of decimal digits is read as their number and leaves the position behind them. Where the
-- number is above 255 there is an error, and the position is at the first digit that made it so.
pub kprintf_set_pad_width-width_of :
    (text : List ℕ) (fuel : ℕ) (m : Memory) (state : PrintState)
    → All k_is_ascii_decimal_digit text
    → Holds m state.position text
    → k_is_ascii_decimal_digit (m (state.position + length text)) ≡ false
    → length text < fuel
    → kprintf_set_pad_width fuel m state ≡ ok (width_of 0 text state)
unfolding kprintf_set_pad_width
kprintf_set_pad_width-width_of text fuel m state =
    pad_width_loop-width_of text fuel 0 m state (omega arith)
