-- ===== src/Scheduler/Boot.antt =====
-- `scheduler_initialise` of kernel/scheduler.c. `tables` is the address of the second level tables,
-- `halt` that of `halt_cpu`, `exit_thread` that of `sys$exit_thread`, `user_main` that of the first
-- program.
pub mod Circle
pub mod State
use bsprakt_os.Base.{ℕ, zero, suc, ◌+◌, ◌*◌, update, Outcome, ok, ◌>>=◌}
use bsprakt_os.IntrusiveList.{Ptr, Heap, set_next, set_previous, null}
use bsprakt_os.Math.{k_modulo_add, k_modulo_sub}
use bsprakt_os.Mmu.Init.{get_nth_stack_handle}
use bsprakt_os.Mmu.Layout.{idle_thread_sp}
use bsprakt_os.Kernel.{
  Kernel, Tcb, user_thread_count, idle_thread_index, address_space_count, scheduler_node,
  addrspace_node,
}
use bsprakt_os.Scheduler.{set_tcb, scheduler_create_process}

abbrev pub psr_mode_system : ℕ
psr_mode_system = 0x1f

abbrev pub scheduler_get_idle_thread : ℕ
scheduler_get_idle_thread = idle_thread_index

-- `n->previous = n; n->next = n`
abbrev pub self_link : Heap → Ptr → Heap
self_link h n = set_next (set_previous h n n) n n

unfoldable pub scheduler_initialise_idle_thread_context : ℕ → Kernel → Kernel
scheduler_initialise_idle_thread_context halt k =
    let t = k.blocks idle_thread_index in
    set_tcb k idle_thread_index (record t {
      pid = address_space_count;
      tid = idle_thread_index;
      cpsr = psr_mode_system;
      regs = record (t.regs) { sp = idle_thread_sp; lr = halt; pc = halt };
    })

-- The links that a round of the loop writes for block `i`, between its neighbours.
abbrev pub linked : Heap → (i before after : ℕ) → Heap
linked h i before after =
    self_link
      (set_next (set_previous h (scheduler_node i) (scheduler_node before)) (scheduler_node i)
        (scheduler_node after))
      (addrspace_node i)

-- The loop of `scheduler_initialise`, with the rounds left.
unfoldable pub initialise_blocks : (tables rounds i : ℕ) → Kernel → Outcome Kernel
initialise_blocks tables zero i k = ok k
initialise_blocks tables (suc rounds) i k = do
  before ← k_modulo_sub i 1 0 user_thread_count
  after ← k_modulo_add i 1 0 user_thread_count
  handle ← get_nth_stack_handle tables i
  initialise_blocks tables rounds (i + 1) (
      set_tcb (record k { nodes = linked k.nodes i before after }) i
        (record (k.blocks i) { tid = i; stack_handle = handle }))

unfoldable pub scheduler_initialise :
    (tables halt exit_thread user_main : ℕ) → Kernel → Outcome Kernel
scheduler_initialise tables halt exit_thread user_main k = do
  k' ← initialise_blocks tables user_thread_count 0 k
  let idle = scheduler_get_idle_thread
  let h = self_link (self_link k'.nodes (scheduler_node idle)) (addrspace_node idle)
  scheduler_create_process exit_thread 0 user_main null 0
      (scheduler_initialise_idle_thread_context halt (record k' { nodes = h }))
