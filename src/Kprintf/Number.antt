-- ===== src/Kprintf/Number.antt =====
-- kernel/lib/kprintf.c: what `kprintf_format_and_output_number` sends, and the room that it needs.
use bsprakt_os.Base.{
  ℕ, zero, suc, ◌+◌, ◌-◌, ◌≤◌, ◌<◌, ◌^◌, ◌≡◌, refl, ap, sym, ◌∙◌, ◌==◌, ltb, Bool, true, false,
  if◌then◌else◌, List, [], ◌∷◌, ◌++◌, append-nil, length, length-append, ok, ◌>>=◌, arith,
  bind_assoc, bind_congr, bind_ok, ◌↔◌,
}
use mathlib.Core.List.{append_assoc, reverse, reverse-append, reverse-cons}
use bsprakt_os.Pl001.{Uart}
use bsprakt_os.Console.{
  Console, written, send, send_all, kprintf_base_less_eq_16_to_ascii, output_backwards,
  max_number_print_width,
}
use bsprakt_os.Kprintf.{
  PrintState, in_buffer, fill, fill_to, reduced_width, prefix, number_buffer,
  kprintf_format_and_output_number,
}
use bsprakt_os.Kprintf.Digits.{value, leading_zero, kprintf_base_less_eq_16_to_ascii-value}

-- `n` times the character `ch`.
abbrev pub repeat : ℕ → ℕ → List ℕ
repeat zero ch = []
repeat (suc n) ch = ch ∷ repeat n ch

abbrev pub sign : Bool → List ℕ
sign is_negative = if is_negative then b'-' ∷ [] else []

-- 0x for base 16, 0b for base 2, and a zero for another base.
abbrev pub base_mark : Bool → ℕ → List ℕ
base_mark hash base = if hash then reverse (prefix base) else []

abbrev zeros : ℕ → Bool → PrintState → ℕ
zeros n is_negative state = if state.zeropad then reduced_width is_negative state - n else 0

-- How many characters come after the blanks.
abbrev pub inner : ℕ → ℕ → Bool → PrintState → ℕ
inner n base is_negative state =
    length (sign is_negative)
    + (length (base_mark state.hash base) + (zeros n is_negative state + n))

fill-repeat : (n ch : ℕ) (buffer : List ℕ) → fill n ch buffer ≡ buffer ++ repeat n ch
unfolding fill
fill-repeat zero ch buffer = sym (append-nil buffer)
fill-repeat (suc n) ch buffer =
    fill-repeat n ch (buffer ++ ch ∷ []) ∙ append_assoc buffer (ch ∷ []) (repeat n ch)

length-repeat : (n ch : ℕ) → length (repeat n ch) ≡ n
length-repeat zero ch = refl
length-repeat (suc n) ch = ap suc (length-repeat n ch)

repeat-snoc : (n ch : ℕ) → repeat n ch ++ ch ∷ [] ≡ ch ∷ repeat n ch
repeat-snoc zero ch = refl
repeat-snoc (suc n) ch = ap (λ xs. ch ∷ xs) (repeat-snoc n ch)

reverse-repeat : (n ch : ℕ) → reverse (repeat n ch) ≡ repeat n ch
reverse-repeat zero ch = refl
reverse-repeat (suc n) ch = rw (reverse-cons, reverse-repeat n ch) (repeat-snoc n ch)

length-reverse : (xs : List ℕ) → length (reverse xs) ≡ length xs
length-reverse [] = refl
length-reverse (x ∷ xs) = rw (reverse-cons, length-append, length-reverse xs) (omega arith)

send_all-append :
    (c : Console) (xs ys : List ℕ) (u : Uart)
    → send_all c (xs ++ ys) u ≡ (send_all c xs u >>= λ u'. send_all c ys u')
send_all-append c [] ys u = refl
send_all-append c (x ∷ xs) ys u =
    bind_congr (send c x u) _ _ (λ u'. send_all-append c xs ys u')
    ∙ sym (bind_assoc (send c x u) (send_all c xs) (send_all c ys))

output_backwards-send_all :
    (c : Console) (buffer : List ℕ) (u : Uart)
    → output_backwards c buffer u ≡ send_all c (reverse buffer) u
unfolding output_backwards
output_backwards-send_all c [] u = refl
output_backwards-send_all c (ch ∷ buffer) u =
    rw
      (
        reverse-cons,
        send_all-append c (reverse buffer) (ch ∷ []) u,
        output_backwards-send_all c buffer u,
      )
      (bind_congr (send_all c (reverse buffer) u) _ _ (λ u'. sym (bind_ok (send c ch u'))))

-- The four stages of the buffer, read from its end.
reverse-padded :
    (zeropad : Bool) (width : ℕ) (digits : List ℕ)
    → reverse (if zeropad then fill_to width b'0' digits else digits)
      ≡ repeat (if zeropad then width - length digits else 0) b'0' ++ reverse digits
reverse-padded false width digits = refl
reverse-padded true width digits =
    rw (fill-repeat, reverse-append, reverse-repeat (width - length digits) b'0') refl

reverse-hashed :
    (hash : Bool) (base : ℕ) (xs : List ℕ)
    → reverse (if hash then xs ++ prefix base else xs) ≡ base_mark hash base ++ reverse xs
reverse-hashed false base xs = refl
reverse-hashed true base xs = reverse-append xs (prefix base)

reverse-signed :
    (is_negative : Bool) (xs : List ℕ)
    → reverse (if is_negative then xs ++ b'-' ∷ [] else xs) ≡ sign is_negative ++ reverse xs
reverse-signed false xs = refl
reverse-signed true xs = reverse-append xs (b'-' ∷ [])

reverse-fill_to :
    (width ch : ℕ) (xs : List ℕ)
    → reverse (fill_to width ch xs) ≡ repeat (width - length (reverse xs)) ch ++ reverse xs
reverse-fill_to width ch xs =
    rw (fill-repeat, reverse-append, reverse-repeat (width - length xs) ch, length-reverse xs) refl

module _ (digits : List ℕ) (base : ℕ) (is_negative : Bool) (state : PrintState) where
  -- The characters of a number from the first blank on.
  abbrev pub number_text : List ℕ
  number_text =
      repeat (reduced_width is_negative state - inner (length digits) base is_negative state) b' '
      ++ (sign is_negative
          ++ (base_mark state.hash base
              ++ (repeat (zeros (length digits) is_negative state) b'0' ++ reverse digits)))

  length-inner :
      length (
        sign is_negative
        ++ (base_mark state.hash base
            ++ (repeat (zeros (length digits) is_negative state) b'0' ++ reverse digits)))
      ≡ inner (length digits) base is_negative state
  length-inner =
      rw (length-append, length-append, length-append, length-repeat, length-reverse) refl

  reverse-number_buffer : reverse (number_buffer digits base is_negative state) ≡ number_text
  unfolding number_buffer
  reverse-number_buffer =
      rw (reverse-fill_to, reverse-signed, reverse-hashed, reverse-padded, length-inner) refl

  length-number_buffer :
      length (number_buffer digits base is_negative state)
      ≡ (reduced_width is_negative state - inner (length digits) base is_negative state)
        + inner (length digits) base is_negative state
  length-number_buffer =
      sym (length-reverse (number_buffer digits base is_negative state))
      ∙ rw reverse-number_buffer (
          length-append
            (repeat (reduced_width is_negative state - inner (length digits) base is_negative state)
              b' ')
            _
          ∙ rw (length-repeat, length-inner) refl)

reduced_width-le : (is_negative : Bool) (state : PrintState) → reduced_width is_negative state ≤ 32
reduced_width-le is_negative state = ground arith

length-base_mark : (hash : Bool) (base : ℕ) → length (base_mark hash base) ≤ 2
length-base_mark false base = omega arith
length-base_mark true base = rw (length-reverse (prefix base)) (ground arith)

fitting :
    (n base : ℕ) (is_negative : Bool) (state : PrintState)
    → n ≤ 32
    → (reduced_width is_negative state
          - inner n base is_negative state
          + inner n base is_negative state
        ≤ 32)
      ↔ (n + length (base_mark state.hash base) + length (sign is_negative) ≤ 32)
fitting n base is_negative state h = (
  ground (arith, length-base_mark state.hash base),
  ground (arith, length-base_mark state.hash base),
)

-- The characters of a number stay within the array of 32 exactly if its digits do so together with
-- the mark of the base and the sign, whatever the width.
pub number_buffer-fits :
    (digits : List ℕ) (base : ℕ) (is_negative : Bool) (state : PrintState)
    → length digits ≤ max_number_print_width
    → (length (number_buffer digits base is_negative state) ≤ max_number_print_width) ↔ (
        length digits + length (base_mark state.hash base) + length (sign is_negative)
        ≤ max_number_print_width)
number_buffer-fits digits base is_negative state h =
    rw (length-number_buffer digits base is_negative state)
      (fitting (length digits) base is_negative state h)

in_buffer-le : (buffer : List ℕ) → length buffer ≤ max_number_print_width → in_buffer buffer ≡ ok tt
in_buffer-le buffer h = ground arith

small : (base : ℕ) → base ≤ 16 → ltb 16 base ≡ false
small base h = ground arith

-- A word in a base from 2 to 16 whose digits, mark of the base and sign are together at most 32
-- characters is sent as blanks, a minus sign, the mark, zeros and its digits, the most significant
-- first: the digits stand for the word and begin with a zero only if it is zero. The count returned
-- is the number of characters sent.
pub kprintf_format_and_output_number-text :
    (c : Console) (num base : ℕ) (is_negative : Bool) (state : PrintState) (u : Uart)
    → 1 < base
    → base ≤ 16
    → num < 2 ^ 32
    → (digits : List ℕ)
    → kprintf_base_less_eq_16_to_ascii num base max_number_print_width ≡ ok digits
    → length digits + length (base_mark state.hash base) + length (sign is_negative)
      ≤ max_number_print_width
    → (value base digits ≡ num)
      × (leading_zero digits ≡ (num == 0))
      × (kprintf_format_and_output_number c num base is_negative state u ≡ (
          send_all c (number_text digits base is_negative state) u >>= λ u'.
          ok (written (length (number_text digits base is_negative state)), u')))
unfolding kprintf_format_and_output_number
kprintf_format_and_output_number-text c num base is_negative state u l h b digits e f =
    let (found, a, v, n, z) = kprintf_base_less_eq_16_to_ascii-value num base l h b in
    let same : found ≡ digits = cc in
    let room = (number_buffer-fits digits base is_negative state (omega arith)).1 f in
    (
      rw (← same) v,
      rw (← same) z,
      rw
          (
            small base h,
            e,
            in_buffer-le (number_buffer digits base is_negative state) room,
            output_backwards-send_all,
            ← length-reverse (number_buffer digits base is_negative state),
            reverse-number_buffer digits base is_negative state,
          )
          refl,
    )
