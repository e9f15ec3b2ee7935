-- ===== src/Base/Words.antt =====
-- 32-bit machine words as native numbers.
use Prim.Native.Nat.{ℕ, ◌+◌, ◌-◌, ◌*◌, ◌/◌, ◌%◌, ◌^◌}

abbrev pub word : ℕ
word = 2 ^ 32

-- UINT_MAX
abbrev pub uint_max : ℕ
uint_max = 0xffff_ffff

-- unsigned a + b, a - b and a * b
abbrev pub add32 : ℕ → ℕ → ℕ
add32 a b = (a + b) % word

abbrev pub sub32 : ℕ → ℕ → ℕ
sub32 a b = (a + word - b) % word

abbrev pub mul32 : ℕ → ℕ → ℕ
mul32 a b = a * b % word

-- The bit `k` of a word.
abbrev pub bit : ℕ → ℕ → ℕ
bit w k = w / 2 ^ k % 2

-- w & ~(1 << k) and w | 1 << k
abbrev pub clear_bit : ℕ → ℕ → ℕ
clear_bit w k = w - bit w k * 2 ^ k

abbrev pub set_bit : ℕ → ℕ → ℕ
set_bit w k = clear_bit w k + 2 ^ k
