-- ===== src/Hash.antt =====
-- kernel/lib/khash.c: the Jenkins hash of a key in memory, on 32-bit words.
pub mod Key
use Prim.Native.Nat.{bit_xor}
use bsprakt_os.Base.{
  ℕ, zero, suc, ◌+◌, ◌-◌, ◌*◌, ◌/◌, ◌%◌, ◌^◌, ltb, if◌then◌else◌, Outcome, ok, ◌>>=◌,
}
use bsprakt_os.Base.Words.{word, add32, sub32}
use bsprakt_os.Strings.{Memory, k_strlen}

-- The three words that are mixed.
pub record Mix : Type 0 where
  pub a : ℕ
  pub b : ℕ
  pub c : ℕ

abbrev pub shift_right : ℕ → ℕ → ℕ
shift_right w k = w / 2 ^ k

abbrev pub shift_left : ℕ → ℕ → ℕ
shift_left w k = w * 2 ^ k % word

-- x -= y; x -= z; x ^= t
abbrev pub fold : (x y z t : ℕ) → ℕ
fold x y z t = bit_xor (sub32 (sub32 x y) z) t

-- Three lines of K_HASH_JEN_MIX, with the shifts of each.
unfoldable pub mix_lines : (p q s : ℕ) → Mix → Mix
mix_lines p q s m =
    let a = fold m.a m.b m.c (shift_right m.c p) in
    let b = fold m.b m.c a (shift_left a q) in
    record { a = a; b = b; c = fold m.c a b (shift_right b s) }

unfoldable pub k_hash_jen_mix : Mix → Mix
k_hash_jen_mix m = mix_lines 3 10 15 (mix_lines 12 16 5 (mix_lines 13 8 13 m))

-- Four bytes of the key, least significant first.
abbrev pub four : (ℕ → ℕ) → ℕ → ℕ
four key i = key i + key (i + 1) * 2 ^ 8 + key (i + 2) * 2 ^ 16 + key (i + 3) * 2 ^ 24

-- A round of the loop, on the bytes `key` from the current position.
unfoldable pub mix_block : (ℕ → ℕ) → Mix → Mix
mix_block key m =
    k_hash_jen_mix (record {
      a = add32 m.a (four key 0);
      b = add32 m.b (four key 4);
      c = add32 m.c (four key 8);
    })

-- The loop, with the rounds left, from the position `i`; the length is 12 times the rounds and the
-- rest.
unfoldable pub mix_blocks : ℕ → (ℕ → ℕ) → ℕ → Mix → Mix
mix_blocks zero key i m = m
mix_blocks (suc rounds) key i m = mix_blocks rounds key (i + 12) (mix_block (λ j. key (i + j)) m)

-- The byte `j` of the rest, where the switch adds one.
abbrev pub rest_byte : (ℕ → ℕ) → (rest j : ℕ) → ℕ
rest_byte key rest j = if ltb j rest then key j else 0

-- The switch, which falls through from the number of bytes that are left.
unfoldable pub mix_rest : (ℕ → ℕ) → ℕ → Mix → Mix
mix_rest key rest m = record {
  a = add32 m.a (
      rest_byte key rest 0
      + rest_byte key rest 1 * 2 ^ 8
      + rest_byte key rest 2 * 2 ^ 16
      + rest_byte key rest 3 * 2 ^ 24);
  b = add32 m.b (
      rest_byte key rest 4
      + rest_byte key rest 5 * 2 ^ 8
      + rest_byte key rest 6 * 2 ^ 16
      + rest_byte key rest 7 * 2 ^ 24);
  c = add32 m.c (
      rest_byte key rest 8 * 2 ^ 8
      + rest_byte key rest 9 * 2 ^ 16
      + rest_byte key rest 10 * 2 ^ 24);
}

abbrev pub start : ℕ → Mix
start seed = record { a = 0x9e3779b9; b = 0x9e3779b9; c = seed }

unfoldable pub k_hash_jen : Memory → (key keylen seed : ℕ) → ℕ
k_hash_jen m key keylen seed =
    let mixed = mix_blocks (keylen / 12) (λ j. m (key + j)) 0 (start seed) in
    let rest : ℕ → ℕ = λ j. m (key + (keylen / 12 * 12 + j)) in
    (k_hash_jen_mix (mix_rest rest (keylen % 12) (record mixed { c = add32 mixed.c keylen }))).c

unfoldable pub k_hash_string_with_seed : ℕ → Memory → (str seed : ℕ) → Outcome ℕ
k_hash_string_with_seed fuel m str seed = do
  length ← k_strlen fuel m str
  ok (k_hash_jen m str length seed)

unfoldable pub k_hash_string : ℕ → Memory → ℕ → Outcome ℕ
k_hash_string fuel m str = k_hash_string_with_seed fuel m str 0xfeedbeef
