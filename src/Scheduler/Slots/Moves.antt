-- ===== src/Scheduler/Slots/Moves.antt =====
-- kernel/scheduler.c: a round of the scheduler keeps every thread in its place.
use bsprakt_os.Base.{
  ℕ, ℕ_discrete, refl, ◌≤◌, ◌<◌, ◌≡◌, ◌⊎◌, inl, inr, sym, subst, ◌∙◌, Bool, List, [], ◌∷◌, ◌++◌,
  arith, ◌∈◌, ◌∉◌, update,
}
use bsprakt_os.IntrusiveList.{Ptr}
use bsprakt_os.IntrusiveList.Store.{Lists}
use bsprakt_os.Kernel.{
  Kernel, Tcb, ready_list, running_list, finished_list, address_spaces, scheduler_node,
  addrspace_node, user_thread_count,
}
use bsprakt_os.Scheduler.Integrity.{IsThread, IsThreads}
use bsprakt_os.Scheduler.Switch.{Switched, kept, saved}
use bsprakt_os.Scheduler.Rounds.{saved-same, IsThreads-saved}
use bsprakt_os.Scheduler.Slots.{IsMember, IsPlaced}
use bsprakt_os.Scheduler.Slots.State.{IsKernel}

-- A change that leaves the finished threads, the address spaces and the slots alone.
module _ (blocks blocks' : ℕ → Tcb) (used : ℕ → ℕ → Bool) (l l' : Lists)
    (w : IsPlaced blocks used l) (t : IsThreads blocks' l')
    (pids : (n : ℕ) → (blocks' n).pid ≡ (blocks n).pid)
    (slots : (n : ℕ) → (blocks' n).pid_slot ≡ (blocks n).pid_slot)
    (rest : (p : Ptr) → finished_list ≤ p → l' p ≡ l p) where
  old_place : (n : ℕ) → IsMember blocks' used l' n → IsMember blocks used l n
  old_place n m = (
    omega (arith, m.0, pids n),
    omega (arith, m.1, slots n),
    subst (λ p. addrspace_node n ∈ l (address_spaces p)) (pids n)
        (subst (λ xs. addrspace_node n ∈ xs) (rest (address_spaces (blocks' n).pid) (omega arith))
          m.2),
    cc (m.3, pids n, slots n),
  )

  new_place : (n : ℕ) → IsMember blocks used l n → IsMember blocks' used l' n
  new_place n m = (
    omega (arith, m.0, pids n),
    omega (arith, m.1, slots n),
    subst (λ p. addrspace_node n ∈ l' (address_spaces p)) (sym (pids n))
        (subst (λ xs. addrspace_node n ∈ xs)
          (sym (rest (address_spaces (blocks n).pid) (omega arith))) m.2),
    cc (m.3, pids n, slots n),
  )

  finished_same : l' finished_list ≡ l finished_list
  finished_same = rest finished_list (omega arith)

  pub IsPlaced-same : IsPlaced blocks' used l'
  IsPlaced-same = record {
    finished = λ n i. w.finished n (subst (λ xs. n ∈ xs) finished_same i);
    somewhere = λ n h. place n (w.somewhere n h);
    different = λ a b h g m o x y.
        w.different a b h g (old_place a m) (old_place b o) (sym (pids a) ∙ x ∙ pids b)
          (sym (slots a) ∙ y ∙ slots b);
    outside = outside;
  }
    where
      place :
          (n : ℕ)
          → (scheduler_node n ∈ l finished_list) ⊎ IsMember blocks used l n
          → (scheduler_node n ∈ l' finished_list) ⊎ IsMember blocks' used l' n
      place n (inl i) = inl (subst (λ xs. scheduler_node n ∈ xs) (sym finished_same) i)
      place n (inr m) = inr (new_place n m)

      no_thread : (n : ℕ) (p : Ptr) → p ≤ finished_list → addrspace_node n ∈ l' p → ⊥
      no_thread n p h i = absurd (ground (arith, t p (addrspace_node n) h i))

      outside :
          (n : ℕ)
          → n < user_thread_count
          → scheduler_node n ∈ l' finished_list
          → (p : Ptr) → addrspace_node n ∉ l' p
      outside n h i p =
          let j = subst (λ xs. scheduler_node n ∈ xs) finished_same i in
          ground (arith, w.outside n h j p, rest p, no_thread n p)

-- The switch to the first ready thread keeps the invariant of the threads.
pub Switched-IsKernel :
    (k k' : Kernel) (l : Lists) (n : Ptr) (rest q : List Ptr)
    → IsThreads k.blocks l
    → IsPlaced k.blocks k.slots_used l
    → l ready_list ≡ n ∷ rest
    → l running_list ≡ q
    → Switched k l n rest q k'
    → IsKernel k' (update (update l ready_list (rest ++ kept q)) running_list (n ∷ []))
Switched-IsKernel k k' l n rest q t w e f s =
    let l' = update (update l ready_list (rest ++ kept q)) running_list (n ∷ []) in
    let t' = IsThreads-saved k l n rest q e f t in
    record {
      store = s.lists;
      threads = subst (λ b. IsThreads b l') (sym s.blocks) t';
      placed =
          subst (λ b. IsPlaced b k'.slots_used l') (sym s.blocks)
            (subst (λ u. IsPlaced (saved k q) u l') (sym s.slots)
              (IsPlaced-same k.blocks (saved k q) k.slots_used l l' w t' (λ t. (saved-same k q t).2)
                (λ t. (saved-same k q t).3) (λ p h. ground arith)));
    }

-- The idle thread joins the ready list.
pub IsThreads-ready :
    (blocks : ℕ → Tcb) (l : Lists) (n : Ptr)
    → IsThread blocks n
    → IsThreads blocks l
    → IsThreads blocks (update l ready_list (n ∷ []))
IsThreads-ready blocks l n i t p m le j = elim (ℕ_discrete p ready_list) [
  | yes b ↦ subst (IsThread blocks) (ground (arith, j, b)) i
  | no nb ↦ t p m le (ground (arith, j, nb))
]

pub IsPlaced-ready :
    (blocks : ℕ → Tcb) (used : ℕ → ℕ → Bool) (l : Lists) (n : Ptr)
    → IsThread blocks n
    → IsThreads blocks l
    → IsPlaced blocks used l
    → IsPlaced blocks used (update l ready_list (n ∷ []))
IsPlaced-ready blocks used l n i t w =
    IsPlaced-same blocks blocks used l (update l ready_list (n ∷ [])) w
      (IsThreads-ready blocks l n i t) (λ t. refl) (λ t. refl) (λ p h. ground arith)
