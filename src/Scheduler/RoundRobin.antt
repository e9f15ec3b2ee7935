-- ===== src/Scheduler/RoundRobin.antt =====
-- `scheduler_round_robin` of kernel/scheduler.c, and the check of the lists at its end.
use bsprakt_os.Base.{
  ℕ, zero, suc, ◌+◌, ◌-◌, ◌*◌, ◌/◌, Bool, true, false, not, ◌==◌, ltb, if◌then◌else◌, update,
  Option, some, none, Outcome, ok, out_of_fuel, ◌>>=◌, ◌>>◌, verify, List, [], ◌∷◌,
}
use bsprakt_os.IntrusiveList.{
  Ptr, Heap, k_is_list_empty, k_is_list_node, k_get_first_node, k_get_last_node,
  k_remove_node_from_list, k_append_node_to_list, k_transfer_list_node,
}
use bsprakt_os.Mmu.{l1_section_set_base_address, l1_table_size}
use bsprakt_os.Mmu.Layout.{
  mib, ubss_udata_section_start_address, virtual_process_stacks_top_address,
}
use bsprakt_os.Kernel.{
  Kernel, thread_count, idle_thread_index, threads_per_address_space, ready_list,
  stall_waiting_list, input_waiting_list, running_list, finished_list, scheduler_node, container_of,
}
use bsprakt_os.Scheduler.{
  SchedulingType, normal, forced, scheduler_save_thread_context, scheduler_switch_thread,
  scheduler_stall_cmp, list_rounds,
}

-- The test by which the running thread goes on.
unfoldable pub goes_on : SchedulingType → Heap → Outcome Bool
goes_on forced h = ok false
goes_on normal h = do
  ready_empty ← k_is_list_empty h ready_list
  if not ready_empty
      then ok false
      else do running_empty ← k_is_list_empty h running_list; ok (not running_empty)

-- The idle thread stands in where no thread is ready.
unfoldable pub with_idle : Heap → Outcome Heap
with_idle h = do
  empty ← k_is_list_empty h ready_list
  if empty then k_append_node_to_list h ready_list (scheduler_node idle_thread_index) else ok h

-- The running thread, if there is one, leaves the running list; unless it is the idle thread it is
-- saved and put at the end of the ready list.
unfoldable pub retire_running : Kernel → Outcome (Option ℕ × Kernel)
retire_running k = do
  empty ← k_is_list_empty k.nodes running_list
  if empty then ok (none, k) else do
    first ← k_get_first_node k.nodes running_list
    h ← k_remove_node_from_list k.nodes running_list first
    let tid = container_of first
    if tid == idle_thread_index then ok (some tid, record k { nodes = h }) else do
      last ← k_get_last_node h ready_list
      h' ← k_append_node_to_list h last first
      ok (some tid, scheduler_save_thread_context tid (record k { nodes = h' }))

-- The loop that maps the stacks of address space `pid`, with the rounds left.
unfoldable pub map_stacks : ℕ → ℕ → ℕ → Kernel → Outcome Kernel
map_stacks zero i pid k = ok k
map_stacks (suc rounds) i pid k = do
  let index = virtual_process_stacks_top_address / mib - (i + 1)
  verify (ltb index l1_table_size)
  map_stacks rounds (i + 1) pid
      (record k { l1_table = update k.l1_table index (k.process_stack_handles pid i) })

-- The address space of the next thread is mapped, if it is another one.
unfoldable pub map_process : Option ℕ → ℕ → Kernel → Outcome Kernel
map_process running next k =
    let pid = (k.blocks next).pid in
    let index = ubss_udata_section_start_address / mib in
    let mapped = (do
      verify (ltb index l1_table_size)
      entry ←
          l1_section_set_base_address (k.l1_table index)
            (ubss_udata_section_start_address + (pid + 1) * mib)
      map_stacks threads_per_address_space 0 pid
          (record k { l1_table = update k.l1_table index entry })) in
    elim running [ none ↦ mapped | some tid ↦ if (k.blocks tid).pid == pid then ok k else mapped ]

-- The walk of `scheduler_verify_thread_list_integrity` round one list; `checked` are the threads
-- that were met.
unfoldable pub verify_list : ℕ → Kernel → Ptr → Ptr → (ℕ → Bool) → Outcome (ℕ → Bool)
verify_list zero k start current checked = out_of_fuel
verify_list (suc fuel) k start current checked = do
  node ← k_is_list_node k.nodes current
  verify node
  verify (current == k.nodes.next (k.nodes.previous current))
  verify (current == k.nodes.previous (k.nodes.next current))
  let tid = (k.blocks (container_of current)).tid
  verify (ltb tid thread_count)
  verify (not (checked tid))
  let checked' = update checked tid true
  let rest = verify_list fuel k start (k.nodes.next current) checked'
  if k.nodes.next current == start then ok checked' else rest

-- The walk along the stalled threads, which must be in order.
unfoldable pub verify_order : ℕ → Kernel → Ptr → Ptr → Outcome (Unit {0})
verify_order zero k current last = out_of_fuel
verify_order (suc fuel) k current last =
    let rest = (do
      verify (scheduler_stall_cmp k.blocks current (k.nodes.next current))
      verify_order fuel k (k.nodes.next current) last) in
    if current == last then ok tt else rest

unfoldable pub verify_lists : Kernel → List Ptr → (ℕ → Bool) → Outcome (Unit {0})
verify_lists k [] checked = ok tt
verify_lists k (list ∷ lists) checked = do
  empty ← k_is_list_empty k.nodes list
  if empty then verify_lists k lists checked else do
    first ← k_get_first_node k.nodes list
    checked' ← verify_list list_rounds k first first checked
    if not (list == stall_waiting_list) then verify_lists k lists checked' else do
      last ← k_get_last_node k.nodes list
      verify_order list_rounds k first last
      verify_lists k lists checked'

unfoldable pub scheduler_verify_thread_list_integrity : Kernel → Outcome (Unit {0})
scheduler_verify_thread_list_integrity k =
    verify_lists k
      (running_list ∷ ready_list ∷ input_waiting_list ∷ stall_waiting_list ∷ finished_list ∷ [])
      (λ _. false)

-- From the choice of the next thread on, once some thread is ready.
unfoldable pub dispatch_next : Kernel → Outcome Kernel
dispatch_next k = do
  first ← k_get_first_node k.nodes ready_list
  let next = container_of first
  r ← retire_running k
  k' ← map_process r.0 next r.1
  h ← k_transfer_list_node k'.nodes ready_list running_list first
  ok (scheduler_switch_thread next (record k' { nodes = h }))

unfoldable pub switch_to_next : Kernel → Outcome Kernel
switch_to_next k = do h ← with_idle k.nodes; dispatch_next (record k { nodes = h })

unfoldable pub scheduler_round_robin : SchedulingType → Kernel → Outcome Kernel
scheduler_round_robin type k = do
  on ← goes_on type k.nodes
  if on then ok k else do k' ← switch_to_next k; scheduler_verify_thread_list_integrity k'; ok k'
