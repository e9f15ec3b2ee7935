-- ===== src/Scheduler/Threads.antt =====
-- kernel/scheduler.c: how threads are created and end.
use bsprakt_os.Base.{
  ℕ, ◌+◌, ◌-◌, ◌*◌, ◌/◌, ◌<◌, ◌≤◌, ◌≡◌, ◌≢◌, ◌⊎◌, inl, inr, refl, true, false, List, [], ◌∷◌, ◌++◌,
  arith, ◌∈◌, ok, ◌==◌, update, erase, ◌∙◌,
}
use bsprakt_os.IntrusiveList.{
  Ptr, Heap, k_get_first_node, k_remove_node_from_list, k_transfer_list_node,
}
use bsprakt_os.IntrusiveList.Store.{
  IsHead, Lists, IsStore, IsStore-pointwise, InNone, append_first_lem, remove_lem,
  transfer_first_lem,
}
use bsprakt_os.Math.{k_align8}
use bsprakt_os.Math.Modulo.{k_align8_lem}
use bsprakt_os.Strings.{k_memcpy, Memory}
use bsprakt_os.Strings.Copy.{copied, Apart, k_memcpy-copied}
use bsprakt_os.Mmu.Layout.{
  mib, stack_size, ubss_udata_section_start_address, ubss_udata_kernel_original_map_start_address,
  virtual_process_stacks_top_address, user_stack_kernel_only_mapping_start_address,
}
use bsprakt_os.Kernel.{
  Kernel, ready_list, running_list, finished_list, address_spaces, scheduler_node, addrspace_node,
  container_of, address_space_count,
}
use bsprakt_os.Scheduler.{
  scheduler_get_address_space_list, enlist, start_thread, scheduler_create_process,
  scheduler_create_thread, new_tcb, started, scheduler_cleanup_thread,
}
use bsprakt_os.Scheduler.Lists.{first_at, empty_at}
use bsprakt_os.Scheduler.Waiting.{IsHead-ready, advance}

pub IsHead-finished : IsHead finished_list
IsHead-finished = omega arith

pub IsHead-running : IsHead running_list
IsHead-running = omega arith

pub IsHead-space : (pid : ℕ) → pid < address_space_count → IsHead (address_spaces pid)
IsHead-space pid h = omega arith

pub container_of-scheduler_node : (tid : ℕ) → container_of (scheduler_node tid) ≡ tid
container_of-scheduler_node tid = omega arith

pub address_space_list-ok :
    (pid : ℕ)
    → pid < address_space_count
    → scheduler_get_address_space_list pid ≡ ok (address_spaces pid)
unfolding scheduler_get_address_space_list
address_space_list-ok pid h = ground arith

-- The lists after thread `tid` has become a ready thread of address space `pid`.
abbrev pub created : ℕ → ℕ → List Ptr → Lists → Lists
created pid tid rest l =
    update
      (update (update l (address_spaces pid) (addrspace_node tid ∷ l (address_spaces pid)))
        finished_list rest)
      ready_list (l ready_list ++ scheduler_node tid ∷ [])

module _ (k : Kernel) (l : Lists) (pid tid : ℕ) (rest : List Ptr) (s : IsStore k.nodes l)
    (hp : pid < address_space_count) (ht : tid < 33)
    (e : l finished_list ≡ scheduler_node tid ∷ rest) (o : InNone (addrspace_node tid) l) where
  enlist-created : (g : Heap) × (enlist pid tid k.nodes ≡ ok g) × IsStore g (created pid tid rest l)
  unfolding enlist
  enlist-created =
      let p = address_spaces pid in
      let a = addrspace_node tid in
      let (h, f, t) = append_first_lem s p a (IsHead-space pid hp) (omega arith) o in
      let ne : (finished_list == p) ≡ false = ground arith in
      let nr : (ready_list == p) ≡ false = ground arith in
      let (g, j, w) =
        advance finished_list ready_list (scheduler_node tid) rest IsHead-finished IsHead-ready
          (omega arith) t (rw ne e) in
      (g, rw (address_space_list-ok pid hp, f, j), IsStore-pointwise (λ q. ground (arith, nr)) w)

abbrev pub aligned : ℕ → ℕ
aligned size = (size + 7) / 8 * 8

-- Where the stack of a new thread starts, in its own address space and in the kernel's.
abbrev pub stack_start : ℕ → ℕ → ℕ
stack_start slot args_size =
    virtual_process_stacks_top_address - slot * stack_size - aligned args_size

abbrev pub kernel_stack_start : ℕ → ℕ → ℕ
kernel_stack_start tid args_size =
    user_stack_kernel_only_mapping_start_address + (tid + 1) * mib - aligned args_size

-- What a creation has done, when thread `tid` was the first finished one.
pub record Created (k : Kernel) (l : Lists) (exit_thread pid slot func args args_size tid : ℕ)
    (rest : List Ptr) (k' : Kernel) : Type 0 where
  pub lists : IsStore k'.nodes (created pid tid rest l)
  pub block :
      k'.blocks
      ≡ update k.blocks tid
          (new_tcb (k.blocks tid) pid slot func (stack_start slot args_size) exit_thread)
  pub slots : k'.slots_used ≡ update k.slots_used pid (update (k.slots_used pid) slot true)
  pub handles : k'.process_stack_handles pid slot ≡ (k.blocks tid).stack_handle
  pub arguments :
      (a : ℕ) → k'.memory a ≡ copied (kernel_stack_start tid args_size) args args_size k.memory a

start_thread-ok :
    (k : Kernel) (exit_thread pid slot func args args_size tid size : ℕ) (n : Ptr) (g : Heap)
    (m : Memory)
    → k_get_first_node k.nodes finished_list ≡ ok n
    → container_of n ≡ tid
    → enlist pid tid k.nodes ≡ ok g
    → k_align8 args_size ≡ ok size
    → k_memcpy
        (user_stack_kernel_only_mapping_start_address + (tid + 1) * mib - size)
        args
        args_size
        k.memory
      ≡ ok m
    → start_thread exit_thread pid slot func args args_size k
      ≡ ok (
          started exit_thread pid slot func
            (virtual_process_stacks_top_address - slot * stack_size - size)
            tid
            g
            m
            k)
unfolding start_thread
start_thread-ok k exit_thread pid slot func args args_size tid size n g m a b c d e =
    rw (a, b, c, d, e)

module _ (k : Kernel) (l : Lists) (exit_thread pid slot func args args_size tid : ℕ)
    (rest : List Ptr) (s : IsStore k.nodes l) (hp : pid < address_space_count) (ht : tid < 33)
    (e : l finished_list ≡ scheduler_node tid ∷ rest) (o : InNone (addrspace_node tid) l)
    (fits : args_size ≤ stack_size) (given : (args_size ≡ 0) ⊎ (args ≢ 0))
    (apart : Apart (kernel_stack_start tid args_size) args args_size) where
  align-ok : k_align8 args_size ≡ ok (aligned args_size)
  align-ok = k_align8_lem args_size ∙ ground arith

  pub start_thread-Created :
      (k' : Kernel) × (start_thread exit_thread pid slot func args args_size k ≡ ok k')
      × Created k l exit_thread pid slot func args args_size tid rest k'
  unfolding start_thread
  start_thread-Created =
      let c = container_of-scheduler_node tid in
      let (g, f, w) = enlist-created k l pid tid rest s hp ht e o in
      let (m, j, q) =
        k_memcpy-copied (kernel_stack_start tid args_size) args args_size k.memory (omega arith)
          given apart in
      (
        started exit_thread pid slot func (stack_start slot args_size) tid g m k,
        start_thread-ok k exit_thread pid slot func args args_size tid (aligned args_size)
            (scheduler_node tid) g m
            (first_at s finished_list IsHead-finished (scheduler_node tid) rest e) c f align-ok j,
        record { lists = w; block = refl; slots = refl; handles = ground arith; arguments = q },
      )

  -- `scheduler_create_thread` does not panic while a finished thread is left: the first of them
  -- becomes the last ready thread, with the caller's address space and the given slot, a stack
  -- pointer below its arguments, and a copy of these on its stack; no other block changes.
  pub scheduler_create_thread-Created :
      (caller : ℕ)
      → (k.blocks caller).pid ≡ pid
      → (k' : Kernel) × (scheduler_create_thread exit_thread caller slot func args args_size k
          ≡ ok k')
        × Created k l exit_thread pid slot func args args_size tid rest k'
  unfolding scheduler_create_thread
  scheduler_create_thread-Created caller c =
      let (k', f, w) = start_thread-Created in
      (k', rw (empty_at s finished_list IsHead-finished (scheduler_node tid ∷ rest) e, c) f, w)

-- Where the data of a process lies, and the image that it starts from.
abbrev pub process_data : ℕ → ℕ
process_data pid = ubss_udata_section_start_address + (pid + 1) * mib

abbrev pub process_image : ℕ
process_image = ubss_udata_kernel_original_map_start_address

pub scheduler_create_process-Created :
    (k : Kernel) (l : Lists) (exit_thread pid func args args_size tid : ℕ) (rest : List Ptr)
    → IsStore k.nodes l
    → pid < address_space_count
    → tid < 33
    → l finished_list ≡ scheduler_node tid ∷ rest
    → InNone (addrspace_node tid) l
    → args_size ≤ stack_size
    → (args_size ≡ 0) ⊎ (args ≢ 0)
    → Apart (kernel_stack_start tid args_size) args args_size
    → (m : Memory) × ((a : ℕ) → m a ≡ copied (process_data pid) process_image mib k.memory a)
      × (k' : Kernel) × (scheduler_create_process exit_thread pid func args args_size k ≡ ok k')
      × Created (record k { memory = m }) l exit_thread pid 0 func args args_size tid rest k'
unfolding scheduler_create_process
scheduler_create_process-Created k l exit_thread pid func args args_size tid rest s hp ht e o fits
      given apart =
    let (m, j, q) =
      k_memcpy-copied (process_data pid) process_image mib k.memory (omega arith)
        (inr (omega arith)) (inl (omega arith)) in
    let (k', f, w) =
      start_thread-Created (record k { memory = m }) l exit_thread pid 0 func args args_size tid
        rest s hp ht e o fits given apart in
    (m, q, k', rw (empty_at s finished_list IsHead-finished (scheduler_node tid ∷ rest) e, j) f, w)

-- The lists after the running thread `tid` has ended.
abbrev pub ended : ℕ → ℕ → Lists → Lists
ended pid tid l =
    update
      (update (update l (address_spaces pid) (erase (addrspace_node tid) (l (address_spaces pid))))
        running_list [])
      finished_list (scheduler_node tid ∷ l finished_list)

cleanup-ok :
    (k : Kernel) (tid pid : ℕ) (n p : Ptr) (h g : Heap)
    → k_get_first_node k.nodes running_list ≡ ok n
    → container_of n ≡ tid
    → (k.blocks tid).pid ≡ pid
    → scheduler_get_address_space_list pid ≡ ok p
    → k_remove_node_from_list k.nodes p (addrspace_node tid) ≡ ok h
    → k_transfer_list_node h running_list finished_list n ≡ ok g
    → scheduler_cleanup_thread k
      ≡ ok (record k {
        nodes = g;
        slots_used =
            update k.slots_used pid (update (k.slots_used pid) (k.blocks tid).pid_slot false);
      })
unfolding scheduler_cleanup_thread
cleanup-ok k tid pid n p h g a b c d e f = rw (a, b, c, d, e, f)

-- `scheduler_cleanup_thread` does not panic on a running thread that is in the list of its address
-- space: it leaves that list, becomes the first finished thread and gives its slot back.
pub scheduler_cleanup_thread-ended :
    (k : Kernel) (l : Lists) (tid : ℕ)
    → IsStore k.nodes l
    → l running_list ≡ scheduler_node tid ∷ []
    → (k.blocks tid).pid < address_space_count
    → addrspace_node tid ∈ l (address_spaces (k.blocks tid).pid)
    → let pid = (k.blocks tid).pid in
      (g : Heap) × (scheduler_cleanup_thread k
        ≡ ok (record k {
          nodes = g;
          slots_used =
              update k.slots_used pid (update (k.slots_used pid) (k.blocks tid).pid_slot false);
        }))
      × IsStore g (ended pid tid l)
unfolding scheduler_cleanup_thread
scheduler_cleanup_thread-ended k l tid s e hp i =
    let pid = (k.blocks tid).pid in
    let p = address_spaces pid in
    let c = container_of-scheduler_node tid in
    let (h, a, t) = remove_lem s p (addrspace_node tid) (IsHead-space pid hp) i in
    let nr : (running_list == p) ≡ false = ground arith in
    let nf : (finished_list == p) ≡ false = ground arith in
    let m : scheduler_node tid ∈ update l p (erase (addrspace_node tid) (l p)) running_list =
      ground (arith, nr, e) in
    let (g, f, w) =
      transfer_first_lem t running_list finished_list (scheduler_node tid) IsHead-running
        IsHead-finished (omega arith) m in
    (
      g,
      cleanup-ok k tid pid (scheduler_node tid) p h g
          (first_at s running_list IsHead-running (scheduler_node tid) [] e) c refl
          (address_space_list-ok pid hp) a f,
      IsStore-pointwise (λ q. ground (arith, nr, nf, e)) w,
    )
