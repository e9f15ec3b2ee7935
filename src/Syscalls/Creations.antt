-- ===== src/Syscalls/Creations.antt =====
-- kernel/syscall_impl.c: the calls that create a thread or a process, from the invariant of the
-- threads. Their arguments are in registers 0 to 2.
use bsprakt_os.Scheduler.Slots.Spaces.{find_empty_address_space-first}
use bsprakt_os.Base.{
  ℕ, ◌≤◌, ◌<◌, ◌≡◌, ◌≢◌, ◌⊎◌, inl, inr, refl, sym, ap, subst, ◌∙◌, ltb, true, false, List, [], ◌∷◌,
  arith, ◌∈◌, Option, some, none, Outcome, ok,
}
use bsprakt_os.Strings.Copy.{Apart, copied}
use bsprakt_os.IntrusiveList.{Ptr}
use bsprakt_os.IntrusiveList.Store.{Lists}
use bsprakt_os.Timer.Errors.{k_ebusy}
use bsprakt_os.Mmu.Layout.{stack_size, mib}
use bsprakt_os.Kernel.{
  Kernel, running_list, finished_list, address_spaces, scheduler_node, addrspace_node,
  user_thread_count, address_space_count, threads_per_address_space,
}
use bsprakt_os.Scheduler.{
  scheduler_get_running_thread, scheduler_create_thread, scheduler_create_process,
  scheduler_find_first_empty_slot_in_address_space, scheduler_find_first_empty_address_space,
}
use bsprakt_os.Scheduler.Threads.{
  Created, created, kernel_stack_start, process_data, process_image,
  scheduler_create_thread-Created, scheduler_create_process-Created,
}
use bsprakt_os.Scheduler.Slots.{IsMember, find_empty_slot-first, free_slot-finished}
use bsprakt_os.Scheduler.Slots.State.{IsKernel, created-IsKernel, finished-InNone, running-IsMember}
use bsprakt_os.Syscalls.{syscall_create_thread, syscall_create_process, set_r0, error_word}
use bsprakt_os.Syscalls.Waits.{get_running_thread-ok}

-- Arguments that a creation takes: they fit on a stack, they are not NULL if there are any, and
-- they do not overlap the stack that they are copied to.
pub record IsGiven (args args_size : ℕ) : Type 0 where
  pub fits : args_size ≤ stack_size
  pub given : (args_size ≡ 0) ⊎ (args ≢ 0)
  pub apart :
      (t : ℕ) → t < user_thread_count → Apart (kernel_stack_start t args_size) args args_size

-- What `sys$create_thread` does with the slot that was found, and `sys$create_process` with the
-- address space.
abbrev slot_found : (exit_thread me : ℕ) → Kernel → Option ℕ → Outcome Kernel
slot_found exit_thread me k found = elim found [
  | none ↦ ok (set_r0 (error_word k_ebusy) k)
  | some slot ↦
      scheduler_create_thread exit_thread me slot (k.frame.general 0) (k.frame.general 1)
        (k.frame.general 2) k
]

thread-steps :
    (exit_thread me slot : ℕ) (k k' : Kernel)
    → ltb stack_size (k.frame.general 2) ≡ false
    → scheduler_get_running_thread k ≡ ok me
    → scheduler_find_first_empty_slot_in_address_space (k.blocks me).pid k ≡ some slot
    → scheduler_create_thread exit_thread me slot
        (k.frame.general 0)
        (k.frame.general 1)
        (k.frame.general 2)
        k
      ≡ ok k'
    → syscall_create_thread exit_thread k ≡ ok k'
unfolding syscall_create_thread
thread-steps exit_thread me slot k k' a b c d = rw (a, b) (ap (slot_found exit_thread me k) c ∙ d)

thread-busy :
    (exit_thread me : ℕ) (k : Kernel)
    → ltb stack_size (k.frame.general 2) ≡ false
    → scheduler_get_running_thread k ≡ ok me
    → scheduler_find_first_empty_slot_in_address_space (k.blocks me).pid k ≡ none
    → syscall_create_thread exit_thread k ≡ ok (set_r0 (error_word k_ebusy) k)
unfolding syscall_create_thread
thread-busy exit_thread me k a b c = rw (a, b) (ap (slot_found exit_thread me k) c)

-- No thread has a slot that is not used, or one in an address space without threads.
unused :
    (k : Kernel) (l : Lists) (pid slot : ℕ)
    → k.slots_used pid slot ≡ false
    → (t : ℕ) → t < user_thread_count
    → IsMember k.blocks k.slots_used l t
    → (k.blocks t).pid ≡ pid
    → (k.blocks t).pid_slot ≡ slot
    → ⊥
unused k l pid slot v t h m x y = cc (m.3, v, x, y)

empty_space :
    (k : Kernel) (l : Lists) (pid slot : ℕ)
    → l (address_spaces pid) ≡ []
    → (t : ℕ) → t < user_thread_count
    → IsMember k.blocks k.slots_used l t
    → (k.blocks t).pid ≡ pid
    → (k.blocks t).pid_slot ≡ slot
    → ⊥
empty_space k l pid slot v t h m x y =
    let i = subst (λ p. addrspace_node t ∈ l (address_spaces p)) x m.2 in
    let j : addrspace_node t ∈ [] = subst (λ xs. addrspace_node t ∈ xs) v i in ground (arith, j)

not-large : (size : ℕ) → size ≤ stack_size → ltb stack_size size ≡ false
not-large size h = ground arith

-- `sys$create_thread` with a user thread running and arguments that can be taken never panics. If
-- all slots of the caller's address space are used, it returns -K_EBUSY and changes nothing else.
-- Otherwise a thread is finished: the first one is created in the first free slot, and the
-- invariant of the threads holds again.
pub syscall_create_thread-cases :
    (exit_thread me : ℕ) (k : Kernel) (l : Lists)
    → IsKernel k l
    → me < user_thread_count
    → l running_list ≡ scheduler_node me ∷ []
    → IsGiven (k.frame.general 1) (k.frame.general 2)
    → ((syscall_create_thread exit_thread k ≡ ok (set_r0 (error_word k_ebusy) k))
        × ((j : ℕ) → j < threads_per_address_space → k.slots_used (k.blocks me).pid j ≡ true))
      ⊎ ((slot tid : ℕ) × (rest : List Ptr) × (k' : Kernel) × (syscall_create_thread exit_thread k
            ≡ ok k')
          × (k.slots_used (k.blocks me).pid slot ≡ false)
          × ((j : ℕ) → j < slot → k.slots_used (k.blocks me).pid j ≡ true)
          × (l finished_list ≡ scheduler_node tid ∷ rest)
          × Created k l exit_thread
              (k.blocks me).pid
              slot
              (k.frame.general 0)
              (k.frame.general 1)
              (k.frame.general 2)
              tid
              rest
              k'
          × IsKernel k' (created (k.blocks me).pid tid rest l))
unfolding scheduler_find_first_empty_slot_in_address_space
syscall_create_thread-cases exit_thread me k l w hm e g =
    let i : scheduler_node me ∈ l running_list =
      subst (λ xs. scheduler_node me ∈ xs) (sym e) (ground arith) in
    let pid = (k.blocks me).pid in
    let hp = (running-IsMember k l w me hm i).0 in
    let running = get_running_thread-ok k l me [] w.store e in
    let small = not-large (k.frame.general 2) g.fits in
    elim (find_empty_slot-first threads_per_address_space 0 pid k) [
      | inl (f, u) ↦
          inl (thread-busy exit_thread me k small running f, λ j h. u j (omega arith) (omega arith))
      | inr (slot, f, h, v, u) ↦
          let (tid, rest, ht, first) =
            free_slot-finished k.blocks k.slots_used l pid slot w.placed hp (omega arith)
              (unused k l pid slot v) in
          let (k', c, d) =
            scheduler_create_thread-Created k l exit_thread pid slot (k.frame.general 0)
              (k.frame.general 1) (k.frame.general 2) tid rest w.store hp (omega arith) first
              (finished-InNone k l w tid rest ht first) g.fits g.given (g.apart tid ht) me refl in
          inr (
            slot,
            tid,
            rest,
            k',
            thread-steps exit_thread me slot k k' small running f c,
            v,
            λ j b. u j (omega arith) b,
            first,
            d,
            created-IsKernel k l w exit_thread pid slot (k.frame.general 0) (k.frame.general 1)
                (k.frame.general 2) tid rest k' hp (omega arith) ht first (unused k l pid slot v) d,
          )
    ]

abbrev space_found : (exit_thread : ℕ) → Kernel → Option ℕ → Outcome Kernel
space_found exit_thread k found = elim found [
  | none ↦ ok (set_r0 (error_word k_ebusy) k)
  | some space ↦
      scheduler_create_process exit_thread space (k.frame.general 0) (k.frame.general 1)
        (k.frame.general 2) k
]

process-steps :
    (exit_thread : ℕ) (found : Option ℕ) (k k' : Kernel)
    → ltb stack_size (k.frame.general 2) ≡ false
    → scheduler_find_first_empty_address_space k ≡ ok found
    → space_found exit_thread k found ≡ ok k'
    → syscall_create_process exit_thread k ≡ ok k'
unfolding syscall_create_process
process-steps exit_thread found k k' a b c = rw (a, b) c

-- The invariant does not speak of memory.
with_memory :
    (k : Kernel) (l : Lists) (m : ℕ → ℕ) → IsKernel k l → IsKernel (record k { memory = m }) l
with_memory k l m w = record { store = w.store; threads = w.threads; placed = w.placed }

-- `sys$create_process` with arguments that can be taken never panics. If every address space has a
-- thread, it returns -K_EBUSY and changes nothing else. Otherwise a thread is finished: the first
-- one is created in slot 0 of the first address space without threads, which gets a fresh copy of
-- the data image, and the invariant of the threads holds again.
pub syscall_create_process-cases :
    (exit_thread : ℕ) (k : Kernel) (l : Lists)
    → IsKernel k l
    → IsGiven (k.frame.general 1) (k.frame.general 2)
    → ((syscall_create_process exit_thread k ≡ ok (set_r0 (error_word k_ebusy) k))
        × ((j : ℕ) → j < address_space_count → l (address_spaces j) ≢ []))
      ⊎ ((space tid : ℕ) × (rest : List Ptr) × (m : ℕ → ℕ) × (k' : Kernel) × (syscall_create_process
              exit_thread k
            ≡ ok k')
          × (l (address_spaces space) ≡ [])
          × ((j : ℕ) → j < space → l (address_spaces j) ≢ [])
          × (l finished_list ≡ scheduler_node tid ∷ rest)
          × ((a : ℕ) → m a ≡ copied (process_data space) process_image mib k.memory a)
          × Created
              (record k { memory = m })
              l
              exit_thread
              space
              0
              (k.frame.general 0)
              (k.frame.general 1)
              (k.frame.general 2)
              tid
              rest
              k'
          × IsKernel k' (created space tid rest l))
unfolding scheduler_find_first_empty_address_space
syscall_create_process-cases exit_thread k l w g =
    let small = not-large (k.frame.general 2) g.fits in
    elim (find_empty_address_space-first address_space_count 0 k l w.store (omega arith)) [
      | inl (f, u) ↦
          inl (
            process-steps exit_thread none k _ small f refl,
            λ j h. u j (omega arith) (omega arith),
          )
      | inr (space, f, h, v, u) ↦
          let hp : space < address_space_count = omega arith in
          let (tid, rest, ht, first) =
            free_slot-finished k.blocks k.slots_used l space 0 w.placed hp (omega arith)
              (empty_space k l space 0 v) in
          let (m, q, k', c, d) =
            scheduler_create_process-Created k l exit_thread space (k.frame.general 0)
              (k.frame.general 1) (k.frame.general 2) tid rest w.store hp (omega arith) first
              (finished-InNone k l w tid rest ht first) g.fits g.given (g.apart tid ht) in
          inr (
            space,
            tid,
            rest,
            m,
            k',
            process-steps exit_thread (some space) k k' small f c,
            v,
            λ j b. u j (omega arith) b,
            first,
            q,
            d,
            created-IsKernel (record k { memory = m }) l (with_memory k l m w) exit_thread space 0
                (k.frame.general 0) (k.frame.general 1) (k.frame.general 2) tid rest k' hp
                (omega arith) ht first (empty_space k l space 0 v) d,
          )
    ]
