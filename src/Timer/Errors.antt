-- ===== src/Timer/Errors.antt =====
-- include/kernel/lib/kerror.h: an `int` that is 0 or a negated error code.
use mathlib.Core.Bool.{Bool, true, false}

pub data Status : Type 0 where
  success : Status
  k_einval : Status
  k_erange : Status
  k_ebusy : Status

-- The test `< 0`.
abbrev pub is_error : Status → Bool
is_error success = false
is_error _ = true
