-- ===== src/Ascii.antt =====
-- kernel/lib/kascii.c: tests and conversions of characters, which are bytes.
use bsprakt_os.Base.{ℕ, ◌+◌, ◌-◌, ltb, leb, Bool, ◌&&◌, if◌then◌else◌, Outcome, ok, ◌>>◌, verify}

unfoldable pub k_is_ascii_decimal_digit : ℕ → Bool
k_is_ascii_decimal_digit ch = leb b'0' ch && leb ch b'9'

unfoldable pub k_parse_ascii_decimal_digit : ℕ → Outcome ℕ
k_parse_ascii_decimal_digit ch = do verify (leb b'0' ch && leb ch b'9'); ok (ch - b'0')

unfoldable pub k_to_ascii_hexadecimal_digit : ℕ → Outcome ℕ
k_to_ascii_hexadecimal_digit n = do
  verify (leb n 15)
  if leb n 9 then ok (n + b'0') else ok (n + b'a' - 10)

unfoldable pub k_is_uppercase : ℕ → Bool
k_is_uppercase ch = ltb 64 ch && ltb ch 91
