-- ===== src/Kprintf.antt =====
-- kernel/lib/kprintf.c: formatted output over the serial interface. A `va_list` is a stream of
-- words, of which each `va_arg` takes the next.
pub mod Digits
pub mod Format
pub mod Number
pub mod Width
use bsprakt_os.Base.{
  ℕ, zero, suc, ◌+◌, ◌-◌, ◌*◌, ◌%◌, ◌==◌, Bool, true, false, ◌&&◌, ltb, leb, if◌then◌else◌, List,
  [], ◌∷◌, ◌++◌, length, Outcome, ok, out_of_fuel, ◌>>=◌, ◌>>◌, undefined,
}
use bsprakt_os.Base.Words.{sub32}
use bsprakt_os.Strings.{Memory}
use bsprakt_os.Pl001.{Uart}
use bsprakt_os.Ascii.{k_is_ascii_decimal_digit, k_parse_ascii_decimal_digit}
use bsprakt_os.Console.{
  max_number_print_width, Console, send, send_all, kprintf_base_less_eq_16_to_ascii,
  output_backwards, kwarnln, base_message, dangling_message, zero_padding_message,
  specifier_message, width_message, Written, refused, written, invalid,
}

-- SAFE_DECREMENT, as the new value.
abbrev pub safe_decrement : ℕ → ℕ → ℕ
safe_decrement a b = if ltb b a then a - b else 0

-- kprintf_state, with the two flags apart.
pub record PrintState : Type 0 where
  pub arguments : ℕ → ℕ
  pub position : ℕ
  pub zeropad : Bool
  pub hash : Bool
  pub pad_width : ℕ

unfoldable pub kprintf_output_literal_percent : Console → Uart → Outcome (ℕ × Uart)
kprintf_output_literal_percent c u = do u' ← send c b'%' u; ok (1, u')

unfoldable pub kprintf_output_character : Console → ℕ → Uart → Outcome (ℕ × Uart)
kprintf_output_character c ch u = do u' ← send c ch u; ok (1, u')

-- The loop over the text at `str`.
unfoldable pub output_text : ℕ → Console → ℕ → ℕ → Uart → Outcome (ℕ × Uart)
output_text zero c str chars_written u = out_of_fuel
output_text (suc fuel) c str chars_written u =
    let rest = (do
      u' ← send c (c.memory str) u
      output_text fuel c (str + 1) (chars_written + 1) u') in
    if c.memory str == 0 then ok (chars_written, u) else rest

-- The loop that sends blanks until `width` characters are written, with the rounds left.
unfoldable pub output_blanks : ℕ → Console → ℕ → Uart → Outcome (ℕ × Uart)
output_blanks zero c chars_written u = ok (chars_written, u)
output_blanks (suc rounds) c chars_written u = do
  u' ← send c b' ' u
  output_blanks rounds c (chars_written + 1) u'

unfoldable pub kprintf_output_string : Console → ℕ → PrintState → Uart → Outcome (ℕ × Uart)
kprintf_output_string c str state u = do
  r ← output_text c.rounds c str 0 u
  output_blanks (state.pad_width - r.0) c r.0 r.1

-- `while (length < width) buffer[length++] = ch`, with the rounds left.
unfoldable pub fill : ℕ → ℕ → List ℕ → List ℕ
fill zero ch buffer = buffer
fill (suc rounds) ch buffer = fill rounds ch (buffer ++ ch ∷ [])

abbrev pub fill_to : ℕ → ℕ → List ℕ → List ℕ
fill_to width ch buffer = fill (width - length buffer) ch buffer

-- The width after the first two tests of `kprintf_format_and_output_number`.
abbrev pub reduced_width : Bool → PrintState → ℕ
reduced_width is_negative state =
    let clipped =
      if ltb max_number_print_width state.pad_width
      then max_number_print_width
      else state.pad_width in
    if state.zeropad
    then (let hashed = if state.hash then safe_decrement clipped 2 else clipped in
        if is_negative then safe_decrement hashed 1 else hashed)
    else clipped

-- What `flag_hash` puts into the buffer.
abbrev pub prefix : ℕ → List ℕ
prefix base =
    if base == 16 then b'x' ∷ b'0' ∷ [] else if base == 2 then b'b' ∷ b'0' ∷ [] else b'0' ∷ []

-- What the code writes into its array before the output begins; `in_buffer` tells whether the array
-- has room for it.
unfoldable pub number_buffer : List ℕ → ℕ → Bool → PrintState → List ℕ
number_buffer digits base is_negative state =
    let width = reduced_width is_negative state in
    let padded = if state.zeropad then fill_to width b'0' digits else digits in
    let hashed = if state.hash then padded ++ prefix base else padded in
    let signed = if is_negative then hashed ++ b'-' ∷ [] else hashed in fill_to width b' ' signed

-- The array has MAX_NUMBER_PRINT_WIDTH characters, and C leaves open what a write past them does.
abbrev pub in_buffer : List ℕ → Outcome (Unit {0})
in_buffer buffer = if ltb max_number_print_width (length buffer) then undefined else ok tt

unfoldable pub kprintf_format_and_output_number :
    Console → ℕ → ℕ → Bool → PrintState → Uart → Outcome (Written × Uart)
kprintf_format_and_output_number c num base is_negative state u =
    if ltb 16 base then (kwarnln c (base_message c base) u >>= λ u'. ok (invalid, u')) else do
      digits ← kprintf_base_less_eq_16_to_ascii num base max_number_print_width
      let buffer = number_buffer digits base is_negative state
      in_buffer buffer
      u' ← output_backwards c buffer u
      ok (written (length buffer), u')

-- What is left of a `PrintState` after a flag, a width or an argument.
abbrev pub advance : PrintState → PrintState
advance state = record state { position = state.position + 1 }

abbrev pub take_argument : PrintState → PrintState
take_argument state = record state { arguments = λ i. state.arguments (suc i) }

abbrev pub counted : Outcome (ℕ × Uart) → Outcome (Written × Uart)
counted o = o >>= λ r. ok (written r.0, r.1)

-- The number cases of the switch, for an argument with its sign taken apart.
abbrev pub output_number :
    Console → ℕ → ℕ → Bool → PrintState → Uart → Outcome (Written × PrintState × Uart)
output_number c num base is_negative state u =
    kprintf_format_and_output_number c num base is_negative state u >>= λ r.
    ok (r.0, take_argument state, r.1)

-- The text and character cases, which leave the state with or without one argument less.
abbrev pub with_state : PrintState → Outcome (ℕ × Uart) → Outcome (Written × PrintState × Uart)
with_state state o = o >>= λ r. ok (written r.0, state, r.1)

-- An `int` is negative if bit 31 of its word is set.
abbrev pub is_negative_word : ℕ → Bool
is_negative_word num = leb 2147483648 num

unfoldable pub kprintf_handle_format_specifier :
    Console → PrintState → Uart → Outcome (Written × PrintState × Uart)
kprintf_handle_format_specifier c state u =
    let specifier = c.memory state.position in
    let argument = state.arguments 0 in
    if specifier == 0
    then refused c (send_all c dangling_message) state u
    else if specifier == b'p' && state.zeropad
    then refused c (send_all c zero_padding_message) state u
    else if specifier == b'%'
    then with_state state (kprintf_output_literal_percent c u)
    else if specifier == b'c'
    then with_state (take_argument state) (kprintf_output_character c (argument % 256) u)
    else if specifier == b's'
    then with_state (take_argument state) (kprintf_output_string c argument state u)
    else if specifier == b'b'
    then output_number c argument 2 false state u
    else if specifier == b'x'
    then output_number c argument 16 false state u
    else if specifier == b'p'
    then output_number c argument 16 false (record state { hash = true }) u
    else if specifier == b'u'
    then output_number c argument 10 false state u
    else if specifier == b'i'
    then output_number c (if is_negative_word argument then sub32 0 argument else argument) 10
        (is_negative_word argument) state u
    else refused c (send_all c (specifier_message specifier)) state u

-- The loop over the flags.
unfoldable pub kprintf_set_flags : ℕ → Memory → PrintState → Outcome PrintState
kprintf_set_flags zero m state = out_of_fuel
kprintf_set_flags (suc fuel) m state =
    let ch = m state.position in
    let zeros = kprintf_set_flags fuel m (advance (record state { zeropad = true })) in
    let hashes = kprintf_set_flags fuel m (advance (record state { hash = true })) in
    if ch == b'0' then zeros else if ch == b'#' then hashes else ok state

-- The loop over the digits of the width, with what is converted so far.
unfoldable pub pad_width_loop : ℕ → Memory → ℕ → PrintState → Outcome (Bool × PrintState)
pad_width_loop zero m converted state = out_of_fuel
pad_width_loop (suc fuel) m converted state =
    let rest = (do
      digit ← k_parse_ascii_decimal_digit (m state.position)
      let next = converted * 10 + digit
      let go_on = pad_width_loop fuel m next (advance state)
      if ltb 255 next then ok (false, state) else go_on) in
    if k_is_ascii_decimal_digit (m state.position)
    then rest
    else ok (true, record state { pad_width = converted })

-- Whether there was no error, and the state. The warning that comes before the error is sent in
-- `print_specifier`.
unfoldable pub kprintf_set_pad_width : ℕ → Memory → PrintState → Outcome (Bool × PrintState)
kprintf_set_pad_width fuel m state = pad_width_loop fuel m 0 state

unfoldable pub kprintf_initialize_state : (ℕ → ℕ) → ℕ → PrintState
kprintf_initialize_state arguments format = record {
  arguments = arguments;
  position = format;
  zeropad = false;
  hash = false;
  pad_width = 0;
}

unfoldable pub kprintf_reset_state : PrintState → PrintState
kprintf_reset_state state = record state { zeropad = false; hash = false; pad_width = 0 }

-- A format specifier behind its percent sign: the flags, the width and the output.
unfoldable pub print_specifier : Console → PrintState → Uart → Outcome (Written × PrintState × Uart)
print_specifier c state u = do
  flagged ← kprintf_set_flags c.rounds c.memory (advance state)
  r ← kprintf_set_pad_width c.rounds c.memory flagged
  if r.0
      then kprintf_handle_format_specifier c r.1 u
      else refused c (send_all c width_message) r.1 u

-- The loop of `kprintf`.
unfoldable pub print_loop :
    ℕ → Console → ℕ → PrintState → Uart → Outcome (Written × PrintState × Uart)
print_loop zero c chars_written state u = out_of_fuel
print_loop (suc fuel) c chars_written state u =
    let specifier = (do
      r ← print_specifier c state u
      elim (r.0) [
        | invalid ↦ ok (invalid, r.1, r.2)
        | written n ↦ print_loop fuel c (chars_written + n) (advance (kprintf_reset_state r.1)) r.2
      ]) in
    let plain = (do
      u' ← send c (c.memory state.position) u
      print_loop fuel c (chars_written + 1) (advance state) u') in
    if c.memory state.position == 0
    then ok (written chars_written, state, u)
    else if c.memory state.position == b'%'
    then specifier
    else plain

unfoldable pub kprintf : Console → ℕ → (ℕ → ℕ) → Uart → Outcome (Written × Uart)
kprintf c format arguments u =
    print_loop c.rounds c 0 (kprintf_initialize_state arguments format) u >>= λ r. ok (r.0, r.2)
