-- ===== src/Hash/Key.antt =====
-- kernel/lib/khash.c: what a hash depends on.
use bsprakt_os.Base.{
  ℕ, zero, suc, ◌+◌, ◌*◌, ◌/◌, ◌%◌, ◌<◌, ◌≡◌, refl, ltb, arith, ap, ◌∙◌, ltb→lt, Bool-cases, inl,
  inr,
}
use bsprakt_os.Strings.{Memory}
use bsprakt_os.Hash.{
  mix_lines, start, Mix, mix_block, mix_blocks, mix_rest, rest_byte, k_hash_jen, k_hash_jen_mix,
}

mix_block-same :
    (f g : ℕ → ℕ) (m : Mix) → ((j : ℕ) → j < 12 → f j ≡ g j) → mix_block f m ≡ mix_block g m
unfolding mix_block
mix_block-same f g m e =
    rw
      (
        e 0 (omega arith),
        e 1 (omega arith),
        e 2 (omega arith),
        e 3 (omega arith),
        e 4 (omega arith),
        e 5 (omega arith),
        e 6 (omega arith),
        e 7 (omega arith),
        e 8 (omega arith),
        e 9 (omega arith),
        e 10 (omega arith),
        e 11 (omega arith),
      )
      refl

mix_blocks-same :
    (rounds i : ℕ) (f g : ℕ → ℕ) (m : Mix)
    → ((j : ℕ) → j < i + rounds * 12 → f j ≡ g j)
    → mix_blocks rounds f i m ≡ mix_blocks rounds g i m
unfolding mix_blocks
mix_blocks-same zero i f g m e = refl
mix_blocks-same (suc rounds) i f g m e =
    ap (mix_blocks rounds f (i + 12))
      (mix_block-same (λ j. f (i + j)) (λ j. g (i + j)) m (λ j l. e (i + j) (omega (arith, l))))
    ∙ mix_blocks-same rounds (i + 12) f g (mix_block (λ j. g (i + j)) m)
        (λ j l. e j (omega (arith, l)))

rest_byte-same :
    (f g : ℕ → ℕ) (rest : ℕ)
    → ((j : ℕ) → j < rest → f j ≡ g j)
    → (j : ℕ) → rest_byte f rest j ≡ rest_byte g rest j
rest_byte-same f g rest e j = elim (Bool-cases (ltb j rest)) [
  | inl l ↦ rw l (e j (ltb→lt j rest l))
  | inr n ↦ rw n refl
]

mix_rest-same :
    (f g : ℕ → ℕ) (rest : ℕ) (m : Mix)
    → ((j : ℕ) → rest_byte f rest j ≡ rest_byte g rest j)
    → mix_rest f rest m ≡ mix_rest g rest m
unfolding mix_rest
mix_rest-same f g rest m e = rw (e 0, e 1, e 2, e 3, e 4, e 5, e 6, e 7, e 8, e 9, e 10) refl

-- A hash depends on the bytes of its key only: two memories that agree on them give the same hash.
pub k_hash_jen-same :
    (m n : Memory) (key keylen seed : ℕ)
    → ((j : ℕ) → j < keylen → m (key + j) ≡ n (key + j))
    → k_hash_jen m key keylen seed ≡ k_hash_jen n key keylen seed
unfolding k_hash_jen k_hash_jen_mix mix_lines
k_hash_jen-same m n key keylen seed e =
    rw
      (mix_blocks-same (keylen / 12) 0 (λ j. m (key + j)) (λ j. n (key + j)) (start seed)
        (λ j l. e j (omega (arith, l))))
      (ap (λ x. (k_hash_jen_mix x).c)
        (mix_rest-same (λ j. m (key + (keylen / 12 * 12 + j)))
          (λ j. n (key + (keylen / 12 * 12 + j))) (keylen % 12) _
          (rest_byte-same _ _ (keylen % 12) (λ j l. e (keylen / 12 * 12 + j) (omega (arith, l))))))
