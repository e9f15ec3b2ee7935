-- ===== src/Scheduler/Slots/Ended.antt =====
-- kernel/scheduler.c: the end of a thread keeps every thread in its place.
use bsprakt_os.Base.{
  ℕ, ◌<◌, ◌≡◌, ◌≢◌, ◌⊎◌, inl, inr, sym, subst, Bool, true, false, ◌∷◌, arith, ◌∈◌, ◌∉◌, has,
  distinct, update, Bool-cases, ℕ_discrete, not-mem-erase, not-mem-erase_of_ne, mem-of-mem-erase,
}
use bsprakt_os.IntrusiveList.{Ptr}
use bsprakt_os.IntrusiveList.Store.{Lists, InNone}
use bsprakt_os.Kernel.{
  Tcb, finished_list, address_spaces, scheduler_node, addrspace_node, container_of,
  user_thread_count,
}
use bsprakt_os.Scheduler.Threads.{ended}
use bsprakt_os.Scheduler.Slots.{IsMember, IsPlaced}

abbrev given_back : (ℕ → ℕ → Bool) → ℕ → ℕ → ℕ → ℕ → Bool
given_back used pid slot = update used pid (update (used pid) slot false)

module _ (blocks : ℕ → Tcb) (used : ℕ → ℕ → Bool) (l : Lists) (tid : ℕ) (w : IsPlaced blocks used l)
    (ht : tid < user_thread_count) (m : IsMember blocks used l tid)
    (once : distinct (l (address_spaces (blocks tid).pid)) ≡ true)
    (only : (p : Ptr) → addrspace_node tid ∈ l p → p ≡ address_spaces (blocks tid).pid) where
  abbrev pid : ℕ
  pid = (blocks tid).pid

  abbrev slot : ℕ
  slot = (blocks tid).pid_slot

  abbrev Member' : ℕ → Type 0
  Member' = IsMember blocks (given_back used pid slot) (ended pid tid l)

  old-IsMember : (t : ℕ) → Member' t → IsMember blocks used l t
  old-IsMember t a = (
    a.0,
    a.1,
    ground (
      arith,
      a.2,
      mem-of-mem-erase (addrspace_node t) (addrspace_node tid) (l (address_spaces pid)),
    ),
    ground (arith, a.3),
  )

  kept_member : (t : ℕ) → t < user_thread_count → t ≢ tid → IsMember blocks used l t → Member' t
  kept_member t h ne a = (
    a.0,
    a.1,
    ground (
      arith,
      a.2,
      ne,
      not-mem-erase_of_ne (addrspace_node t) (addrspace_node tid) (l (address_spaces pid)),
    ),
    ground (arith, a.3, ne, w.different t tid h ht a m),
  )

  somewhere :
      (t : ℕ)
      → t < user_thread_count
      → (scheduler_node t ∈ scheduler_node tid ∷ l finished_list) ⊎ Member' t
  somewhere t h = cases (ℕ_discrete t tid) (w.somewhere t h)
    where
      cases :
          Dec (t ≡ tid)
          → (scheduler_node t ∈ l finished_list) ⊎ IsMember blocks used l t
          → (scheduler_node t ∈ scheduler_node tid ∷ l finished_list) ⊎ Member' t
      cases (yes x) n = inl (ground (arith, x))
      cases (no x) (inl i) = inl (ground (arith, i))
      cases (no x) (inr n) = inr (kept_member t h x n)

  absent : (q : Ptr) → q ≢ address_spaces pid → addrspace_node tid ∉ l q
  absent q ne = elim (Bool-cases (has (addrspace_node tid) (l q))) [
    | inl i ↦ absurd (ne (only q i))
    | inr o ↦ o
  ]

  gone : (q : Ptr) → addrspace_node tid ∉ ended pid tid l q
  gone q = ground (
    arith,
    absent q,
    absent finished_list,
    not-mem-erase (addrspace_node tid) (l (address_spaces pid)) once,
  )

  outside :
      (t : ℕ)
      → t < user_thread_count
      → scheduler_node t ∈ scheduler_node tid ∷ l finished_list
      → (p : Ptr) → addrspace_node t ∉ ended pid tid l p
  outside t h i p = cases (ℕ_discrete t tid)
    where
      others : t ≢ tid → InNone (addrspace_node t) l → addrspace_node t ∉ ended pid tid l p
      others ne o = ground (
        arith,
        o finished_list,
        o p,
        o (address_spaces pid),
        not-mem-erase_of_ne (addrspace_node t) (addrspace_node tid) (l (address_spaces pid)),
        ne,
      )

      cases : Dec (t ≡ tid) → addrspace_node t ∉ ended pid tid l p
      cases (yes x) = subst (λ t. addrspace_node t ∉ ended pid tid l p) (sym x) (gone p)
      cases (no x) = others x (w.outside t h (ground (arith, i, x)))

  finished :
      (n : Ptr)
      → n ∈ scheduler_node tid ∷ l finished_list
      → (n ≡ scheduler_node (container_of n)) × (container_of n < user_thread_count)
  finished n i = cases (ℕ_discrete n (scheduler_node tid))
    where
      cases :
          Dec (n ≡ scheduler_node tid)
          → (n ≡ scheduler_node (container_of n)) × (container_of n < user_thread_count)
      cases (yes x) = omega arith
      cases (no x) = w.finished n (ground (arith, i, x))

  pub IsPlaced-ended : IsPlaced blocks (given_back used pid slot) (ended pid tid l)
  IsPlaced-ended = record {
    finished = finished;
    somewhere = somewhere;
    different = λ s t k h a b. w.different s t k h (old-IsMember s a) (old-IsMember t b);
    outside = outside;
  }
