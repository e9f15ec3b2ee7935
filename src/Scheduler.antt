-- ===== src/Scheduler.antt =====
-- kernel/scheduler.c: threads, their address spaces and the lists that they wait in.
pub mod RoundRobin
pub mod Lists
pub mod Waiting
pub mod Overdue
pub mod Threads
pub mod Switch
pub mod Mapping
pub mod Walk
pub mod Integrity
pub mod Rounds
pub mod Slots
pub mod Stalls
pub mod Boot
use bsprakt_os.Base.{
  ℕ, zero, suc, ◌+◌, ◌-◌, ◌*◌, Bool, true, false, not, ◌==◌, ltb, leb, if◌then◌else◌, update,
  Option, some, none, Outcome, ok, out_of_fuel, ◌>>=◌, ◌>>◌, verify,
}
use bsprakt_os.Base.Words.{add32}
use bsprakt_os.IntrusiveList.{
  Ptr, Heap, k_is_list_empty, k_get_first_node, k_get_last_node, k_remove_node_from_list,
  k_append_node_to_list, k_insert_sorted, k_transfer_list_node,
}
use bsprakt_os.Math.{k_align8}
use bsprakt_os.Strings.{k_memcpy, Memory}
use bsprakt_os.Timer.{systimer_value, stalltimer_interrupt_at, stalltimer_reset_pending_interrupt}
use bsprakt_os.Timer.Errors.{Status, success, is_error}
use bsprakt_os.Mmu.Layout.{
  mib, stack_size, ubss_udata_section_start_address, ubss_udata_kernel_original_map_start_address,
  virtual_process_stacks_top_address, user_stack_kernel_only_mapping_start_address,
}
use bsprakt_os.Kernel.{
  Registers, Tcb, Kernel, address_space_count, threads_per_address_space, ready_list,
  stall_waiting_list, input_waiting_list, running_list, finished_list, address_spaces,
  scheduler_node, addrspace_node, container_of,
}

-- The fuel of a loop along a list: more than the nodes that there are.
abbrev pub list_rounds : ℕ
list_rounds = 83

-- `scheduling_type`
pub data SchedulingType : Type 0 where
  normal forced : SchedulingType

abbrev pub psr_mode_user : ℕ
psr_mode_user = 0x10

unfoldable pub scheduler_get_address_space_list : ℕ → Outcome Ptr
scheduler_get_address_space_list address_space = do
  verify (ltb address_space address_space_count)
  ok (address_spaces address_space)

-- The loop of `scheduler_find_first_empty_address_space`, with the rounds left.
unfoldable pub find_empty_address_space : ℕ → ℕ → Kernel → Outcome (Option ℕ)
find_empty_address_space zero i k = ok none
find_empty_address_space (suc rounds) i k =
    let rest = find_empty_address_space rounds (i + 1) k in
    do empty ← k_is_list_empty k.nodes (address_spaces i); if empty then ok (some i) else rest

unfoldable pub scheduler_find_first_empty_address_space : Kernel → Outcome (Option ℕ)
scheduler_find_first_empty_address_space = find_empty_address_space address_space_count 0

-- The loop of `scheduler_find_first_empty_slot_in_address_space`, with the rounds left.
unfoldable pub find_empty_slot : ℕ → ℕ → ℕ → Kernel → Option ℕ
find_empty_slot zero i address_space k = none
find_empty_slot (suc rounds) i address_space k =
    if not (k.slots_used address_space i)
    then some i
    else find_empty_slot rounds (i + 1) address_space k

unfoldable pub scheduler_find_first_empty_slot_in_address_space : ℕ → Kernel → Option ℕ
scheduler_find_first_empty_slot_in_address_space = find_empty_slot threads_per_address_space 0

unfoldable pub scheduler_get_running_thread : Kernel → Outcome ℕ
scheduler_get_running_thread k = do
  empty ← k_is_list_empty k.nodes running_list
  verify (not empty)
  first ← k_get_first_node k.nodes running_list
  ok (container_of first)

abbrev pub set_tcb : Kernel → ℕ → Tcb → Kernel
set_tcb k tid t = record k { blocks = update k.blocks tid t }

unfoldable pub scheduler_save_thread_context : ℕ → Kernel → Kernel
scheduler_save_thread_context tid k = set_tcb k tid (record (k.blocks tid) { regs = saved })
  where
    saved : Registers
    saved = record { general = k.frame.general; sp = k.sp_usr; lr = k.lr_usr; pc = k.frame.lr }

unfoldable pub scheduler_switch_thread : ℕ → Kernel → Kernel
scheduler_switch_thread tid k = record k {
  frame = record (k.frame) { general = t.regs.general; lr = t.regs.pc };
  spsr = t.cpsr;
  sp_usr = t.regs.sp;
  lr_usr = t.regs.lr;
}
  where
    t : Tcb
    t = k.blocks tid

-- The pattern that moves a node to the end of another list.
unfoldable pub move_to_end : Ptr → Ptr → Ptr → Heap → Outcome Heap
move_to_end from to n h = do
  empty ← k_is_list_empty h to
  if empty
      then k_transfer_list_node h from to n
      else do last ← k_get_last_node h to; k_transfer_list_node h from last n

-- The list changes of `scheduler_create_process` and `scheduler_create_thread`: thread `tid`
-- becomes a member of the address space, and then ready.
unfoldable pub enlist : ℕ → ℕ → Heap → Outcome Heap
enlist address_space tid h = do
  space ← scheduler_get_address_space_list address_space
  h' ← k_append_node_to_list h space (addrspace_node tid)
  move_to_end finished_list ready_list (scheduler_node tid) h'

-- The control block of a new thread, with the slot that it gets and its stack pointer.
abbrev pub new_tcb : Tcb → (pid slot func sp exit_thread : ℕ) → Tcb
new_tcb t pid slot func sp exit_thread = record t {
  pid = pid;
  pid_slot = slot;
  cpsr = psr_mode_user;
  regs = record { general = update t.regs.general 0 sp; sp = sp; lr = exit_thread; pc = func };
}

-- The state after the assignments of a creation.
abbrev pub started : (exit_thread pid slot func sp tid : ℕ) → Heap → Memory → Kernel → Kernel
started exit_thread pid slot func sp tid nodes memory k = record k {
  nodes = nodes;
  memory = memory;
  process_stack_handles =
      update k.process_stack_handles pid
        (update (k.process_stack_handles pid) slot (k.blocks tid).stack_handle);
  slots_used = update k.slots_used pid (update (k.slots_used pid) slot true);
  blocks = update k.blocks tid (new_tcb (k.blocks tid) pid slot func sp exit_thread);
}

-- What both creations do once the memory of the process is in place; `exit_thread` is the address
-- of `sys$exit_thread`.
unfoldable pub start_thread :
    (exit_thread pid slot func args args_size : ℕ) → Kernel → Outcome Kernel
start_thread exit_thread pid slot func args args_size k = do
  first ← k_get_first_node k.nodes finished_list
  nodes ← enlist pid (container_of first) k.nodes
  size ← k_align8 args_size
  memory ←
      k_memcpy
        (user_stack_kernel_only_mapping_start_address + (container_of first + 1) * mib - size) args
        args_size k.memory
  ok (
      started exit_thread pid slot func
        (virtual_process_stacks_top_address - slot * stack_size - size) (container_of first) nodes
        memory k)

unfoldable pub scheduler_create_process :
    (exit_thread address_space func args args_size : ℕ) → Kernel → Outcome Kernel
scheduler_create_process exit_thread address_space func args args_size k = do
  empty ← k_is_list_empty k.nodes finished_list
  verify (not empty)
  memory ←
      k_memcpy (ubss_udata_section_start_address + (address_space + 1) * mib)
        ubss_udata_kernel_original_map_start_address mib k.memory
  start_thread exit_thread address_space 0 func args args_size (record k { memory = memory })

unfoldable pub scheduler_create_thread :
    (exit_thread caller process_slot func args args_size : ℕ) → Kernel → Outcome Kernel
scheduler_create_thread exit_thread caller process_slot func args args_size k = do
  empty ← k_is_list_empty k.nodes finished_list
  verify (not empty)
  start_thread exit_thread (k.blocks caller).pid process_slot func args args_size k

unfoldable pub scheduler_cleanup_thread : Kernel → Outcome Kernel
scheduler_cleanup_thread k = do
  me ← k_get_first_node k.nodes running_list
  let tid = container_of me
  let pid = (k.blocks tid).pid
  let slot = (k.blocks tid).pid_slot
  space ← scheduler_get_address_space_list pid
  h ← k_remove_node_from_list k.nodes space (addrspace_node tid)
  h' ← k_transfer_list_node h running_list finished_list me
  ok (record k {
    nodes = h';
    slots_used = update k.slots_used pid (update (k.slots_used pid) slot false);
  })

-- With a node in hand instead of a thread: `(k_node *)thread` is its `scheduler_node`.
unfoldable pub scheduler_ignore_thread_until_character_input : ℕ → Kernel → Outcome Kernel
scheduler_ignore_thread_until_character_input tid k = do
  h ← move_to_end ready_list input_waiting_list (scheduler_node tid) k.nodes
  ok (record k { nodes = h })

unfoldable pub scheduler_stall_cmp : (ℕ → Tcb) → Ptr → Ptr → Bool
scheduler_stall_cmp blocks a b =
    leb (blocks (container_of a)).stall_until (blocks (container_of b)).stall_until

unfoldable pub scheduler_adjust_stall_timer : Kernel → Outcome (Status × Kernel)
scheduler_adjust_stall_timer k = do
  empty ← k_is_list_empty k.nodes stall_waiting_list
  if empty
      then ok (success, record k { timer = stalltimer_reset_pending_interrupt k.timer })
      else do
        first ← k_get_first_node k.nodes stall_waiting_list
        let r = stalltimer_interrupt_at (k.blocks (container_of first)).stall_until k.timer
        ok (r.0, record k { timer = r.1 })

-- The loop of `scheduler_unblock_overdue_waiting_threads`; every round takes a thread from the list.
unfoldable pub unblock_overdue : ℕ → Kernel → Outcome Kernel
unblock_overdue zero k = out_of_fuel
unblock_overdue (suc fuel) k = do
  r ← scheduler_adjust_stall_timer k
  let rest = (do
    first ← k_get_first_node r.1.nodes stall_waiting_list
    h ← move_to_end stall_waiting_list ready_list first r.1.nodes
    unblock_overdue fuel (record (r.1) { nodes = h }))
  if is_error r.0 then rest else ok r.1

unfoldable pub scheduler_unblock_overdue_waiting_threads : Kernel → Outcome Kernel
scheduler_unblock_overdue_waiting_threads = unblock_overdue list_rounds

-- The list changes of `scheduler_ignore_thread_until_timer_match`.
unfoldable pub stall : ℕ → Kernel → Outcome Kernel
stall tid k = do
  h ← k_remove_node_from_list k.nodes ready_list (scheduler_node tid)
  h' ←
      k_insert_sorted list_rounds h stall_waiting_list (scheduler_node tid)
        (scheduler_stall_cmp k.blocks)
  ok (record k { nodes = h' })

unfoldable pub scheduler_ignore_thread_until_timer_match : ℕ → ℕ → Kernel → Outcome Kernel
scheduler_ignore_thread_until_timer_match tid match_in k = do
  let (now, timer) = systimer_value k.timer
  let t = record (k.blocks tid) { stall_until = add32 now match_in }
  k' ← stall tid (set_tcb (record k { timer = timer }) tid t)
  first ← k_get_first_node k'.nodes stall_waiting_list
  let adjusted = (do
    r ← scheduler_adjust_stall_timer k'
    if is_error r.0 then scheduler_unblock_overdue_waiting_threads r.1 else ok r.1)
  if scheduler_node tid == first then adjusted else ok k'

unfoldable pub scheduler_exists_input_waiting_thread : Kernel → Outcome Bool
scheduler_exists_input_waiting_thread k = do
  empty ← k_is_list_empty k.nodes input_waiting_list
  ok (not empty)

-- `regs.general[0] = value` of a thread.
abbrev pub set_result : ℕ → ℕ → Kernel → Kernel
set_result tid value k =
    let t = k.blocks tid in
    set_tcb k tid (record t { regs = record (t.regs) { general = update t.regs.general 0 value } })

unfoldable pub scheduler_unblock_first_input_waiting_thread : ℕ → Kernel → Outcome Kernel
scheduler_unblock_first_input_waiting_thread ch k = do
  first ← k_get_first_node k.nodes input_waiting_list
  h ← move_to_end input_waiting_list ready_list first k.nodes
  ok (set_result (container_of first) ch (record k { nodes = h }))
