-- ===== src/Scheduler/Slots.antt =====
-- kernel/scheduler.c: the threads of the address spaces and their slots. There are as many slots as
-- user threads, so that a free slot stands for a finished thread.
pub mod Kept
pub mod Ended
pub mod State
pub mod Moves
pub mod Spaces
use bsprakt_os.Base.{
  ℕ, zero, suc, ◌+◌, ◌*◌, ◌≤◌, ◌<◌, ◌≡◌, ◌≢◌, ◌⊎◌, inl, inr, refl, sym, ap, subst, ◌∙◌, Bool, true,
  false, not, ◌||◌, ◌&&◌, List, [], ◌∷◌, arith, ◌∈◌, ◌∉◌, has, distinct, length, ◌==◌,
  length-le_of_distinct, if◌then◌else◌, Option, some, none, Bool-cases, ℕ_discrete,
}
use bsprakt_os.IntrusiveList.{Ptr}
use bsprakt_os.IntrusiveList.Store.{Lists, InNone}
use bsprakt_os.Kernel.{
  Kernel, Tcb, finished_list, address_spaces, scheduler_node, addrspace_node, container_of,
  user_thread_count, address_space_count, threads_per_address_space,
}
use bsprakt_os.Scheduler.{find_empty_slot, scheduler_find_first_empty_slot_in_address_space}

-- Thread `t` is in the list of the address space of the block `b`, and the slot there is used.
abbrev pub Sits : (ℕ → ℕ → Bool) → Lists → ℕ → Tcb → Type 0
Sits used l t b =
    (b.pid < address_space_count)
    × (b.pid_slot < threads_per_address_space)
    × (addrspace_node t ∈ l (address_spaces b.pid))
    × (used b.pid b.pid_slot ≡ true)

abbrev pub IsMember : (ℕ → Tcb) → (ℕ → ℕ → Bool) → Lists → ℕ → Type 0
IsMember blocks used l t = Sits used l t (blocks t)

-- Every user thread is finished and in no address space, or it has a slot of its own.
pub record IsPlaced (blocks : ℕ → Tcb) (used : ℕ → ℕ → Bool) (l : Lists) : Type 0 where
  pub finished :
      (n : Ptr)
      → n ∈ l finished_list
      → (n ≡ scheduler_node (container_of n)) × (container_of n < user_thread_count)
  pub somewhere :
      (t : ℕ)
      → t < user_thread_count
      → (scheduler_node t ∈ l finished_list) ⊎ IsMember blocks used l t
  pub different :
      (s t : ℕ)
      → s < user_thread_count
      → t < user_thread_count
      → IsMember blocks used l s
      → IsMember blocks used l t
      → (blocks s).pid ≡ (blocks t).pid
      → (blocks s).pid_slot ≡ (blocks t).pid_slot
      → s ≡ t
  pub outside :
      (t : ℕ)
      → t < user_thread_count
      → scheduler_node t ∈ l finished_list
      → InNone (addrspace_node t) l

-- A number for each slot.
abbrev code : ℕ → ℕ → ℕ
code pid slot = threads_per_address_space * pid + slot

-- The numbers of the slots of the threads below `n`.
codes : (ℕ → Tcb) → ℕ → List ℕ
codes blocks zero = []
codes blocks (suc t) = code (blocks t).pid (blocks t).pid_slot ∷ codes blocks t

length-codes : (blocks : ℕ → Tcb) (n : ℕ) → length (codes blocks n) ≡ n
unfolding codes
length-codes blocks zero = refl
length-codes blocks (suc n) = ap suc (length-codes blocks n)

-- A number that is that of no thread below `n`.
fresh :
    (blocks : ℕ → Tcb) (c n : ℕ)
    → ((t : ℕ) → t < n → c ≢ code (blocks t).pid (blocks t).pid_slot)
    → c ∉ codes blocks n
unfolding codes
fresh blocks c zero h = refl
fresh blocks c (suc n) h = ground (arith, h n, fresh blocks c n (λ t l. h t (omega arith)))

module _ (blocks : ℕ → Tcb) (used : ℕ → ℕ → Bool) (l : Lists) (w : IsPlaced blocks used l)
    (e : l finished_list ≡ []) where
  all_members : (t : ℕ) → t < user_thread_count → IsMember blocks used l t
  all_members t h = placed (w.somewhere t h)
    where
      placed :
          (scheduler_node t ∈ l finished_list) ⊎ IsMember blocks used l t → IsMember blocks used l t
      placed (inl i) =
          absurd (subst (λ xs. scheduler_node t ∈ xs → ⊥) (sym e) (λ j. ground (arith, j)) i)
      placed (inr m) = m

  own :
      (n t : ℕ)
      → n < user_thread_count
      → t < n
      → code (blocks n).pid (blocks n).pid_slot ≢ code (blocks t).pid (blocks t).pid_slot
  own n t h lt c =
      let a = all_members n h in
      let b = all_members t (omega arith) in
      absurd (
        omega (
          arith,
          w.different n t h (omega arith) a b (omega (arith, a.1, b.1)) (omega (arith, a.1, b.1)),
        ))

  distinct-codes : (n : ℕ) → n ≤ user_thread_count → distinct (codes blocks n) ≡ true
  unfolding codes
  distinct-codes zero h = refl
  distinct-codes (suc n) h =
      rw
        (
          fresh blocks (code (blocks n).pid (blocks n).pid_slot) n (λ t lt. own n t h lt),
          distinct-codes n (omega arith),
        )
        refl

  small-codes : (n c : ℕ) → n ≤ user_thread_count → c ∈ codes blocks n → c < user_thread_count
  unfolding codes
  small-codes zero c h i = ground (arith, i)
  small-codes (suc n) c h i = ground (arith, i, small-codes n c, all_members n)

  -- Every slot is that of a thread while no thread is finished.
  all_used :
      (pid slot : ℕ)
      → pid < address_space_count
      → slot < threads_per_address_space
      → ((t : ℕ)
          → t < user_thread_count
          → IsMember blocks used l t
          → (blocks t).pid ≡ pid
          → (blocks t).pid_slot ≡ slot
          → ⊥)
      → ⊥
  all_used pid slot hp hs u = absurd (
      omega (
        arith,
        length-codes blocks user_thread_count,
        length-le_of_distinct user_thread_count (code pid slot ∷ codes blocks user_thread_count)
            (rw
              (
                fresh blocks (code pid slot) user_thread_count free,
                distinct-codes user_thread_count (omega arith),
              )
              refl)
            within,
      ))
    where
      free :
          (t : ℕ) → t < user_thread_count → code pid slot ≢ code (blocks t).pid (blocks t).pid_slot
      free t h c = let m = all_members t h in u t h m (omega (arith, m.1)) (omega (arith, m.1))

      within : (c : ℕ) → c ∈ code pid slot ∷ codes blocks user_thread_count → c < user_thread_count
      within c i = ground (arith, i, small-codes user_thread_count c)

-- A slot that no thread has stands for a finished thread.
pub free_slot-finished :
    (blocks : ℕ → Tcb) (used : ℕ → ℕ → Bool) (l : Lists) (pid slot : ℕ)
    → IsPlaced blocks used l
    → pid < address_space_count
    → slot < threads_per_address_space
    → ((t : ℕ)
        → t < user_thread_count
        → IsMember blocks used l t
        → (blocks t).pid ≡ pid
        → (blocks t).pid_slot ≡ slot
        → ⊥)
    → (tid : ℕ) × (rest : List Ptr) × (tid < user_thread_count)
      × (l finished_list ≡ scheduler_node tid ∷ rest)
free_slot-finished blocks used l pid slot w hp hs u = first (l finished_list) refl
  where
    first :
        (xs : List Ptr)
        → l finished_list ≡ xs
        → (tid : ℕ) × (rest : List Ptr) × (tid < user_thread_count)
          × (l finished_list ≡ scheduler_node tid ∷ rest)
    first [] e = absurd (all_used blocks used l w e pid slot hp hs u)
    first (n ∷ rest) e =
        let i : n ∈ l finished_list = subst (λ xs. n ∈ xs) (sym e) (ground arith) in
        let (a, b) = w.finished n i in (container_of n, rest, b, e ∙ ap (λ x. x ∷ rest) a)

-- The loop finds the first free slot.
pub find_empty_slot-first :
    (rounds i pid : ℕ) (k : Kernel)
    → ((find_empty_slot rounds i pid k ≡ none)
        × ((j : ℕ) → i ≤ j → j < i + rounds → k.slots_used pid j ≡ true))
      ⊎ ((slot : ℕ) × (find_empty_slot rounds i pid k ≡ some slot)
          × (slot < i + rounds)
          × (k.slots_used pid slot ≡ false)
          × ((j : ℕ) → i ≤ j → j < slot → k.slots_used pid j ≡ true))
unfolding find_empty_slot
find_empty_slot-first zero i pid k = inl (refl, λ j a b. absurd (omega arith))
find_empty_slot-first (suc rounds) i pid k = elim (Bool-cases (k.slots_used pid i)) [
  | inl u ↦ rw u (elim (find_empty_slot-first rounds (i + 1) pid k) [
    | inl (e, f) ↦ inl (e, λ j a b. after i j (i + suc rounds) u (λ c. f j c (omega arith)) a)
    | inr (slot, e, b, v, f) ↦
        inr (slot, e, omega arith, v, λ j a c. after i j slot u (λ d. f j d c) a)
  ])
  | inr u ↦ rw u (inr (i, refl, omega arith, u, λ j a b. absurd (omega arith)))
]
  where
    after :
        (i j bound : ℕ)
        → k.slots_used pid i ≡ true
        → (i + 1 ≤ j → k.slots_used pid j ≡ true)
        → i ≤ j
        → k.slots_used pid j ≡ true
    after i j bound u f a = elim (ℕ_discrete i j) [
      | yes e ↦ subst (λ j. k.slots_used pid j ≡ true) e u
      | no ne ↦ f (ground arith)
    ]
