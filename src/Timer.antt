-- ===== src/Timer.antt =====
-- arch/bsp/systimer.c: the system timer with its two compare registers, one for scheduling and one
-- for the stalled threads. The counter CLO runs while the kernel runs, so each read takes the next
-- value of a stream. Writing a bit of CS clears the pending match of that bit, as documented.
pub mod Errors
use bsprakt_os.Base.{ℕ, zero, suc, ◌+◌, Bool, true, false, ltb, if◌then◌else◌}
use bsprakt_os.Base.Words.{add32}
use bsprakt_os.Timer.Errors.{Status, success, k_einval}

pub record Timer : Type 0 where
  pub clo : ℕ → ℕ
  pub c1 : ℕ
  pub c3 : ℕ
  pub m1 : Bool
  pub m3 : Bool

-- config.h and the #defines of systimer.c and systimer.h
abbrev pub timer_interval : ℕ
timer_interval = 1_000_000

abbrev pub toctou_pad : ℕ
toctou_pad = 20

abbrev pub systimer_frequency_hz : ℕ
systimer_frequency_hz = 1_000_000

unfoldable pub systimer_pending : Timer → Bool
systimer_pending t = t.m1

unfoldable pub systimer_value : Timer → ℕ × Timer
systimer_value t = (t.clo 0, record t { clo = λ k. t.clo (suc k) })

unfoldable pub systimer_reset : Timer → Timer
unfolding systimer_value
systimer_reset t =
    let (now, t') = systimer_value (record t { m1 = false }) in
    record t' { c1 = add32 now timer_interval }

unfoldable pub stalltimer_pending : Timer → Bool
stalltimer_pending t = t.m3

unfoldable pub stalltimer_reset_pending_interrupt : Timer → Timer
stalltimer_reset_pending_interrupt t = record t { m3 = false }

unfoldable pub stalltimer_interrupt_at : ℕ → Timer → Status × Timer
unfolding systimer_value
stalltimer_interrupt_at hz t =
    let (now, t') = systimer_value (record t { m3 = false }) in
    if ltb (add32 now toctou_pad) hz then (success, record t' { c3 = hz }) else (k_einval, t')
