-- ===== src/Console.antt =====
-- kernel/lib/kprintf.c and include/kernel/lib/kdebug.h: characters sent over the serial interface,
-- the digits of a number, and the warnings of kprintf.c, whose LOG_LABEL is kprintf.
use bsprakt_os.Base.{
  ℕ, zero, suc, ◌-◌, ◌/◌, ◌%◌, ◌==◌, leb, if◌then◌else◌, List, [], ◌∷◌, ◌++◌, Outcome, ok, ◌>>=◌,
  ◌>>◌, verify,
}
use bsprakt_os.Strings.{Memory}
use bsprakt_os.Pl001.{Uart, pl001_send}
use bsprakt_os.Kcolor.{RgbColor, k_hsl_to_rgb}
use bsprakt_os.Base.Signed.{pos, nat_abs}
use bsprakt_os.Hash.{k_hash_string_with_seed}
use bsprakt_os.Math.{k_clamp_unsigned}
use bsprakt_os.Fraction.{k_project_long_onto_range}
use bsprakt_os.Ascii.{k_to_ascii_hexadecimal_digit}

abbrev pub max_number_print_width : ℕ
max_number_print_width = 32

-- What an output needs besides its state: the memory that holds the texts, a bound on the loops
-- along a text, a bound on the wait before each character, and the static variable module_color,
-- the colour in which warnings show LOG_LABEL, as `initialise_module_color` leaves it.
pub record Console : Type 0 where
  pub memory : Memory
  pub rounds : ℕ
  pub send_rounds : ℕ
  pub module_color : RgbColor

-- What a function with `int` or `size_t` result returns: a count, or -K_EINVAL.
pub data Written : Type 0 where
  written : ℕ → Written
  invalid : Written

abbrev pub send : Console → ℕ → Uart → Outcome Uart
send c ch u = pl001_send c.send_rounds ch u

-- Characters sent one after the other.
abbrev pub send_all : Console → List ℕ → Uart → Outcome Uart
send_all c [] u = ok u
send_all c (ch ∷ text) u = send c ch u >>= λ u'. send_all c text u'

-- The do-while loop, with the characters of the buffer and the rounds that may follow this one.
unfoldable pub ascii_loop : ℕ → ℕ → ℕ → List ℕ → Outcome (List ℕ)
ascii_loop zero num base out = do
  digit ← k_to_ascii_hexadecimal_digit (num % base)
  ok (out ++ digit ∷ [])
ascii_loop (suc room) num base out = do
  digit ← k_to_ascii_hexadecimal_digit (num % base)
  let rest = ascii_loop room (num / base) base (out ++ digit ∷ [])
  if num / base == 0 then ok (out ++ digit ∷ []) else rest

unfoldable pub kprintf_base_less_eq_16_to_ascii : ℕ → ℕ → ℕ → Outcome (List ℕ)
kprintf_base_less_eq_16_to_ascii num base max_length = do
  verify (leb base 16)
  ascii_loop (max_length - 1) num base []

-- The last loop sends the buffer from its end.
unfoldable pub output_backwards : Console → List ℕ → Uart → Outcome Uart
output_backwards c [] u = ok u
output_backwards c (ch ∷ buffer) u = do u' ← output_backwards c buffer u; send c ch u'

-- `%u` for a number, without a flag and a width.
abbrev pub send_decimal : Console → ℕ → Uart → Outcome Uart
send_decimal c num u = do
  digits ← kprintf_base_less_eq_16_to_ascii num 10 max_number_print_width
  output_backwards c digits u

abbrev debug_warning_color : RgbColor
debug_warning_color = record { red = 249; green = 115; blue = 31 }

-- INITIALISE_MODULE_COLOR_ONCE for the LOG_LABEL at `label`: the colour that it gives.
unfoldable pub initialise_module_color : ℕ → Memory → ℕ → Outcome RgbColor
initialise_module_color rounds m label = do
  hue_word ← k_hash_string_with_seed rounds m label 0xf9136546
  hue_hash ← k_clamp_unsigned hue_word 0 2147483647
  saturation_word ← k_hash_string_with_seed rounds m label 0x70b5bb43
  saturation_hash ← k_clamp_unsigned saturation_word 0 2147483647
  lightness_word ← k_hash_string_with_seed rounds m label 0x8a4ef7c5
  lightness_hash ← k_clamp_unsigned lightness_word 0 2147483647
  hue ← k_project_long_onto_range rounds (pos hue_hash) (pos 0) (pos 359)
  saturation ← k_project_long_onto_range rounds (pos saturation_hash) (pos 70) (pos 90)
  lightness ← k_project_long_onto_range rounds (pos lightness_hash) (pos 50) (pos 80)
  k_hsl_to_rgb rounds
      (record { hue = nat_abs hue; saturation = nat_abs saturation; lightness = nat_abs lightness })

-- PRINT_COLORED: the escape sequence of the colour, the text, and ESC_RESET_COLOR.
abbrev pub print_colored : Console → List ℕ → RgbColor → Uart → Outcome Uart
print_colored c str color u = do
  u1 ← send_all c (27 ∷ b'[' ∷ b'3' ∷ b'8' ∷ b';' ∷ b'2' ∷ b';' ∷ []) u
  u2 ← send_decimal c color.red u1
  u3 ← send c b';' u2
  u4 ← send_decimal c color.green u3
  u5 ← send c b';' u4
  u6 ← send_decimal c color.blue u5
  u7 ← send c b'm' u6
  u8 ← send_all c str u7
  send_all c (27 ∷ b'[' ∷ b'0' ∷ b'm' ∷ []) u8

-- kwarnln: the word WARNING, the label of the file, the message and the end of the line.
unfoldable pub kwarnln : Console → (Uart → Outcome Uart) → Uart → Outcome Uart
kwarnln c message u = do
  u1 ←
      print_colored c (b'[' ∷ b'W' ∷ b'A' ∷ b'R' ∷ b'N' ∷ b'I' ∷ b'N' ∷ b'G' ∷ b']' ∷ b' ' ∷ [])
        debug_warning_color u
  u2 ←
      print_colored c (b'(' ∷ b'k' ∷ b'p' ∷ b'r' ∷ b'i' ∷ b'n' ∷ b't' ∷ b'f' ∷ b')' ∷ b' ' ∷ [])
        c.module_color u1
  u3 ← message u2
  send c 10 u3

abbrev pub base_message : Console → ℕ → Uart → Outcome Uart
base_message c base u = do
  u1 ← send_all c (b'B' ∷ b'a' ∷ b's' ∷ b'e' ∷ b' ' ∷ []) u
  u2 ← send_decimal c base u1
  send_all c
      (b' ' ∷ b'i' ∷ b's' ∷ b' ' ∷ b'g' ∷ b'r' ∷ b'e' ∷ b'a' ∷ b't' ∷ b'e' ∷ b'r' ∷ b' ' ∷ b't'
        ∷ b'h' ∷ b'a' ∷ b'n' ∷ b' ' ∷ b't' ∷ b'h' ∷ b'e' ∷ b' ' ∷ b'a' ∷ b'l' ∷ b'l' ∷ b'o' ∷ b'w'
        ∷ b'e' ∷ b'd' ∷ b' ' ∷ b'm' ∷ b'a' ∷ b'x' ∷ b'i' ∷ b'm' ∷ b'u' ∷ b'm' ∷ b' ' ∷ b'o' ∷ b'f'
        ∷ b' ' ∷ b'1' ∷ b'6' ∷ b'.' ∷ [])
      u2

abbrev pub dangling_message : List ℕ
dangling_message =
    b'D' ∷ b'a' ∷ b'n' ∷ b'g' ∷ b'l' ∷ b'i' ∷ b'n' ∷ b'g' ∷ b' ' ∷ b'%' ∷ b' ' ∷ b'i' ∷ b's' ∷ b' '
    ∷ b'n' ∷ b'o' ∷ b't' ∷ b' ' ∷ b'a' ∷ b'l' ∷ b'l' ∷ b'o' ∷ b'w' ∷ b'e' ∷ b'd' ∷ b'.' ∷ []

abbrev pub zero_padding_message : List ℕ
zero_padding_message =
    b'Z' ∷ b'e' ∷ b'r' ∷ b'o' ∷ b'-' ∷ b'p' ∷ b'a' ∷ b'd' ∷ b'd' ∷ b'i' ∷ b'n' ∷ b'g' ∷ b' ' ∷ b'c'
    ∷ b'a' ∷ b'n' ∷ b'\'' ∷ b't' ∷ b' ' ∷ b'b' ∷ b'e' ∷ b' ' ∷ b'u' ∷ b's' ∷ b'e' ∷ b'd' ∷ b' '
    ∷ b'w' ∷ b'i' ∷ b't' ∷ b'h' ∷ b' ' ∷ b'f' ∷ b'o' ∷ b'r' ∷ b'm' ∷ b'a' ∷ b't' ∷ b' ' ∷ b's'
    ∷ b'p' ∷ b'e' ∷ b'c' ∷ b'i' ∷ b'f' ∷ b'i' ∷ b'e' ∷ b'r' ∷ b' ' ∷ b'%' ∷ b'p' ∷ b'.' ∷ []

abbrev pub specifier_message : ℕ → List ℕ
specifier_message ch =
    b'k' ∷ b'p' ∷ b'r' ∷ b'i' ∷ b'n' ∷ b't' ∷ b'f' ∷ b' ' ∷ b'd' ∷ b'o' ∷ b'e' ∷ b's' ∷ b'n' ∷ b'\''
    ∷ b't' ∷ b' ' ∷ b's' ∷ b'u' ∷ b'p' ∷ b'p' ∷ b'o' ∷ b'r' ∷ b't' ∷ b' ' ∷ b'f' ∷ b'o' ∷ b'r'
    ∷ b'm' ∷ b'a' ∷ b't' ∷ b' ' ∷ b's' ∷ b'p' ∷ b'e' ∷ b'c' ∷ b'i' ∷ b'f' ∷ b'i' ∷ b'e' ∷ b'r'
    ∷ b' ' ∷ b'%' ∷ ch ∷ b'.' ∷ []

abbrev pub width_message : List ℕ
width_message =
    b'S' ∷ b'p' ∷ b'e' ∷ b'c' ∷ b'i' ∷ b'f' ∷ b'i' ∷ b'e' ∷ b'd' ∷ b' ' ∷ b'f' ∷ b'i' ∷ b'e' ∷ b'l'
    ∷ b'd' ∷ b' ' ∷ b'w' ∷ b'i' ∷ b'd' ∷ b't' ∷ b'h' ∷ b' ' ∷ b'i' ∷ b's' ∷ b' ' ∷ b't' ∷ b'o'
    ∷ b'o' ∷ b' ' ∷ b'b' ∷ b'i' ∷ b'g' ∷ b' ' ∷ b't' ∷ b'o' ∷ b' ' ∷ b'b' ∷ b'e' ∷ b' ' ∷ b's'
    ∷ b't' ∷ b'o' ∷ b'r' ∷ b'e' ∷ b'd' ∷ b' ' ∷ b'i' ∷ b'n' ∷ b' ' ∷ b'a' ∷ b'n' ∷ b' ' ∷ b'u'
    ∷ b'i' ∷ b'n' ∷ b't' ∷ b'8' ∷ b'_' ∷ b't' ∷ b'.' ∷ []

-- A warning, and then -K_EINVAL.
abbrev pub refused {ℓ} :
    {A : Type ℓ} → Console → (Uart → Outcome Uart) → A → Uart → Outcome (Written × A × Uart)
refused c message state u = kwarnln c message u >>= λ u'. ok (invalid, state, u')
