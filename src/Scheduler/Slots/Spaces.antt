-- ===== src/Scheduler/Slots/Spaces.antt =====
-- kernel/scheduler.c: the search for an address space without threads.
use bsprakt_os.Base.{
  ℕ, zero, suc, ◌+◌, ◌≤◌, ◌<◌, ◌≡◌, ◌≢◌, ◌⊎◌, inl, inr, refl, subst, List, [], ◌∷◌, arith, some,
  none, ok, ℕ_discrete,
}
use bsprakt_os.IntrusiveList.{Ptr}
use bsprakt_os.IntrusiveList.Store.{Lists, IsStore}
use bsprakt_os.Kernel.{Kernel, address_spaces, address_space_count}
use bsprakt_os.Scheduler.{find_empty_address_space}
use bsprakt_os.Scheduler.Lists.{empty_at}
use bsprakt_os.Scheduler.Threads.{IsHead-space}

-- The loop finds the first address space without a thread.
pub find_empty_address_space-first :
    (rounds i : ℕ) (k : Kernel) (l : Lists)
    → IsStore k.nodes l
    → i + rounds ≤ address_space_count
    → ((find_empty_address_space rounds i k ≡ ok none)
        × ((j : ℕ) → i ≤ j → j < i + rounds → l (address_spaces j) ≢ []))
      ⊎ ((space : ℕ) × (find_empty_address_space rounds i k ≡ ok (some space))
          × (space < i + rounds)
          × (l (address_spaces space) ≡ [])
          × ((j : ℕ) → i ≤ j → j < space → l (address_spaces j) ≢ []))
unfolding find_empty_address_space
find_empty_address_space-first zero i k l s c = inl (refl, λ j x y. absurd (omega arith))
find_empty_address_space-first (suc rounds) i k l s c =
    space-cases (l (address_spaces i)) refl
      (find_empty_address_space-first rounds (i + 1) k l s (omega arith))
  where
    after :
        (j : ℕ)
        → l (address_spaces i) ≢ []
        → (i + 1 ≤ j → l (address_spaces j) ≢ [])
        → i ≤ j
        → l (address_spaces j) ≢ []
    after j u f a = elim (ℕ_discrete i j) [
      | yes e ↦ subst (λ j. l (address_spaces j) ≢ []) e u
      | no ne ↦ f (ground arith)
    ]

    space-cases :
        (xs : List Ptr)
        → l (address_spaces i) ≡ xs
        → ((find_empty_address_space rounds (i + 1) k ≡ ok none)
            × ((j : ℕ) → i + 1 ≤ j → j < i + 1 + rounds → l (address_spaces j) ≢ []))
          ⊎ ((space : ℕ) × (find_empty_address_space rounds (i + 1) k ≡ ok (some space))
              × (space < i + 1 + rounds)
              × (l (address_spaces space) ≡ [])
              × ((j : ℕ) → i + 1 ≤ j → j < space → l (address_spaces j) ≢ []))
        → ((find_empty_address_space (suc rounds) i k ≡ ok none)
            × ((j : ℕ) → i ≤ j → j < i + suc rounds → l (address_spaces j) ≢ []))
          ⊎ ((space : ℕ) × (find_empty_address_space (suc rounds) i k ≡ ok (some space))
              × (space < i + suc rounds)
              × (l (address_spaces space) ≡ [])
              × ((j : ℕ) → i ≤ j → j < space → l (address_spaces j) ≢ []))
    space-cases [] e r =
        rw (empty_at s (address_spaces i) (IsHead-space i (omega arith)) [] e)
          (inr (i, refl, omega arith, e, λ j a b. absurd (omega arith)))
    space-cases (n ∷ xs) e (inl (f, u)) =
        rw (empty_at s (address_spaces i) (IsHead-space i (omega arith)) (n ∷ xs) e)
          (inl (f, λ j a b. after j (λ z. cc (e, z)) (λ d. u j d (omega arith)) a))
    space-cases (n ∷ xs) e (inr (space, f, b, v, u)) =
        rw (empty_at s (address_spaces i) (IsHead-space i (omega arith)) (n ∷ xs) e)
          (inr (space, f, omega arith, v, λ j a lt. after j (λ z. cc (e, z)) (λ d. u j d lt) a))
