-- ===== src/Scheduler/Slots/State.antt =====
-- kernel/scheduler.c: the invariant of the threads, and that creations and the end of a thread keep
-- it.
use bsprakt_os.Base.{
  ℕ, ◌<◌, ◌≡◌, ◌⊎◌, inl, inr, refl, sym, subst, ◌∙◌, false, List, [], ◌∷◌, ◌++◌, arith, ◌∈◌,
  has-append, ok, update, ℕ_discrete,
}
use bsprakt_os.IntrusiveList.{Ptr}
use bsprakt_os.IntrusiveList.Store.{Lists, IsStore, InNone}
use bsprakt_os.Kernel.{
  Kernel, Tcb, ready_list, running_list, finished_list, address_spaces, scheduler_node,
  addrspace_node, container_of, user_thread_count, address_space_count, threads_per_address_space,
}
use bsprakt_os.Scheduler.{new_tcb, scheduler_cleanup_thread}
use bsprakt_os.Scheduler.Lists.{once_at}
use bsprakt_os.Scheduler.Integrity.{IsThread, IsThreads}
use bsprakt_os.Scheduler.Threads.{
  created, ended, Created, IsHead-finished, IsHead-space, stack_start,
  scheduler_cleanup_thread-ended,
}
use bsprakt_os.Scheduler.Slots.{IsMember, IsPlaced}
use bsprakt_os.Scheduler.Slots.Kept.{IsPlaced-created}
use bsprakt_os.Scheduler.Slots.Ended.{IsPlaced-ended}

-- The lists are intact, their nodes are those of threads, and every thread is in its place.
pub record IsKernel (k : Kernel) (l : Lists) : Type 0 where
  pub store : IsStore k.nodes l
  pub threads : IsThreads k.blocks l
  pub placed : IsPlaced k.blocks k.slots_used l

module _ (blocks : ℕ → Tcb) (l : Lists) (pid tid : ℕ) (rest : List Ptr) (tcb : Tcb)
    (t : IsThreads blocks l) (e : l finished_list ≡ scheduler_node tid ∷ rest)
    (same : tcb.tid ≡ (blocks tid).tid) where
  renumbered : (n : Ptr) → IsThread blocks n → IsThread (update blocks tid tcb) n
  renumbered n i = (i.0, numbers (container_of n) ∙ i.1, i.2)
    where
      numbers : (c : ℕ) → (update blocks tid tcb c).tid ≡ (blocks c).tid
      numbers c = ground (arith, same)

  from_finished : (n : Ptr) → n ∈ scheduler_node tid ∷ rest → IsThread blocks n
  from_finished n i = t finished_list n (omega arith) (subst (λ xs. n ∈ xs) (sym e) i)

  IsThreads-created : IsThreads (update blocks tid tcb) (created pid tid rest l)
  IsThreads-created p n le i =
      renumbered n (cases (ℕ_discrete p ready_list) (ℕ_discrete p finished_list))
    where
      in_ready :
          n ∈ l ready_list ++ scheduler_node tid ∷ []
          → Dec (n ≡ scheduler_node tid)
          → IsThread blocks n
      in_ready j (yes x) = from_finished n (ground (arith, x))
      in_ready j (no x) =
          t ready_list n (omega arith)
            (ground (arith, j, x, has-append n (l ready_list) (scheduler_node tid ∷ [])))

      cases : Dec (p ≡ ready_list) → Dec (p ≡ finished_list) → IsThread blocks n
      cases (yes x) b = in_ready (ground (arith, i, x)) (ℕ_discrete n (scheduler_node tid))
      cases (no x) (yes y) = from_finished n (ground (arith, i, x, y))
      cases (no x) (no y) = t p n le (ground (arith, i, x, y, le))

pub IsThreads-ended :
    (blocks : ℕ → Tcb) (pid tid : ℕ) (l : Lists)
    → scheduler_node tid ∈ l running_list
    → IsThreads blocks l
    → IsThreads blocks (ended pid tid l)
IsThreads-ended blocks pid tid l i t p n le j = elim (ℕ_discrete p finished_list) [
  | yes a ↦ elim (ℕ_discrete n (scheduler_node tid)) [
    | yes b ↦
        subst (IsThread blocks) (ground (arith, b))
          (t running_list (scheduler_node tid) (omega arith) i)
    | no nb ↦ t finished_list n (omega arith) (ground (arith, a, nb, j))
  ]
  | no na ↦ t p n le (ground (arith, na, j, le))
]

module _ (k : Kernel) (l : Lists) (w : IsKernel k l) where
  -- A creation keeps the invariant, if its slot is free.
  pub created-IsKernel :
      (exit_thread pid slot func args args_size tid : ℕ) (rest : List Ptr) (k' : Kernel)
      → pid < address_space_count
      → slot < threads_per_address_space
      → tid < user_thread_count
      → l finished_list ≡ scheduler_node tid ∷ rest
      → ((t : ℕ)
          → t < user_thread_count
          → IsMember k.blocks k.slots_used l t
          → (k.blocks t).pid ≡ pid
          → (k.blocks t).pid_slot ≡ slot
          → ⊥)
      → Created k l exit_thread pid slot func args args_size tid rest k'
      → IsKernel k' (created pid tid rest l)
  created-IsKernel exit_thread pid slot func args args_size tid rest k' hp hs ht e free c =
      let tcb = new_tcb (k.blocks tid) pid slot func (stack_start slot args_size) exit_thread in
      record {
        store = c.lists;
        threads =
            subst (λ b. IsThreads b (created pid tid rest l)) (sym c.block)
              (IsThreads-created k.blocks l pid tid rest tcb w.threads e refl);
        placed =
            subst (λ b. IsPlaced b k'.slots_used (created pid tid rest l)) (sym c.block)
              (subst (λ u. IsPlaced (update k.blocks tid tcb) u (created pid tid rest l))
                (sym c.slots)
                (IsPlaced-created k.blocks k.slots_used l pid slot tid rest tcb w.placed hp hs ht e
                  (once_at w.store finished_list IsHead-finished (scheduler_node tid) rest e) refl
                  refl free));
      }

  -- The node of a finished thread in an address space is in none.
  pub finished-InNone :
      (tid : ℕ) (rest : List Ptr)
      → tid < user_thread_count
      → l finished_list ≡ scheduler_node tid ∷ rest
      → InNone (addrspace_node tid) l
  finished-InNone tid rest h e =
      w.placed.outside tid h (subst (λ xs. scheduler_node tid ∈ xs) (sym e) (ground arith))

  pub running-IsMember :
      (tid : ℕ)
      → tid < user_thread_count
      → scheduler_node tid ∈ l running_list
      → IsMember k.blocks k.slots_used l tid
  running-IsMember tid h i = placed (w.placed.somewhere tid h)
    where
      placed :
          (scheduler_node tid ∈ l finished_list) ⊎ IsMember k.blocks k.slots_used l tid
          → IsMember k.blocks k.slots_used l tid
      placed (inl j) =
          absurd (omega (arith, w.store.apart running_list finished_list (scheduler_node tid) i j))
      placed (inr m) = m

  -- With a user thread running, `scheduler_cleanup_thread` does not panic. The thread leaves its
  -- address space and becomes the first finished one, its slot is free, no control block changes, and
  -- the lists are intact and every thread is in its place again.
  pub scheduler_cleanup_thread-IsKernel :
      (tid : ℕ)
      → tid < user_thread_count
      → l running_list ≡ scheduler_node tid ∷ []
      → (k' : Kernel) × (scheduler_cleanup_thread k ≡ ok k')
        × IsKernel k' (ended (k.blocks tid).pid tid l)
        × (k'.slots_used (k.blocks tid).pid (k.blocks tid).pid_slot ≡ false)
        × (k'.blocks ≡ k.blocks)
  scheduler_cleanup_thread-IsKernel tid h e =
      let i : scheduler_node tid ∈ l running_list =
        subst (λ xs. scheduler_node tid ∈ xs) (sym e) (ground arith) in
      let m = running-IsMember tid h i in
      let (g, f, s) = scheduler_cleanup_thread-ended k l tid w.store e m.0 m.2 in
      let pid = (k.blocks tid).pid in
      (
        record k {
          nodes = g;
          slots_used =
              update k.slots_used pid (update (k.slots_used pid) (k.blocks tid).pid_slot false);
        },
        f,
        record {
          store = s;
          threads = IsThreads-ended k.blocks pid tid l i w.threads;
          placed =
              IsPlaced-ended k.blocks k.slots_used l tid w.placed h m
                (w.store.rings (address_spaces pid) (IsHead-space pid m.0)).once
                (λ p j. w.store.apart p (address_spaces pid) (addrspace_node tid) j m.2);
        },
        ground arith,
        refl,
      )
