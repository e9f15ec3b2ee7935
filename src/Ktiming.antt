-- ===== src/Ktiming.antt =====
-- kernel/lib/ktiming.c: conversions between milliseconds and ticks of the system timer.
pub mod Exact
pub mod Stall
use bsprakt_os.Base.{ℕ, if◌then◌else◌, Outcome, ok, ◌>>=◌}
use bsprakt_os.Base.Signed.{ℤ, pos, of_word, to_word}
use bsprakt_os.Timer.Errors.{Status, success, is_error}
use bsprakt_os.Fraction.{
  Fraction, k_fraction_create, k_fraction_multiply, k_fraction_multiply_unchecked,
  k_fraction_to_whole_number,
}
use bsprakt_os.Syscalls.{Timing}

-- The error that is stored, and the ticks. A `size_t` becomes a `long` as an argument.
unfoldable pub ktiming_milliseconds_to_hertz : ℕ → ℕ → Outcome (Status × ℕ)
ktiming_milliseconds_to_hertz rounds ms = do
  s ← k_fraction_create (of_word ms) (pos 1000)
  freq ← k_fraction_create (pos 1000000) (pos 1)
  hz ← k_fraction_multiply rounds s freq
  if is_error hz.0 then ok (hz.0, 0) else ok (hz.0, to_word (k_fraction_to_whole_number hz.1))

unfoldable pub ktiming_hertz_to_milliseconds : ℕ → ℕ → Outcome ℕ
ktiming_hertz_to_milliseconds rounds hz = do
  s ← k_fraction_create (of_word hz) (pos 1000000)
  thousand ← k_fraction_create (pos 1000) (pos 1)
  ms ← k_fraction_multiply_unchecked rounds s thousand
  ok (to_word (k_fraction_to_whole_number ms))

-- The conversions that the system calls use.
unfoldable pub timing : ℕ → Timing
timing rounds = record {
  milliseconds_to_hertz = ktiming_milliseconds_to_hertz rounds;
  hertz_to_milliseconds = ktiming_hertz_to_milliseconds rounds;
}
