-- ===== src/Scheduler/Boot/State.antt =====
-- What `scheduler_initialise` of kernel/scheduler.c establishes.
use bsprakt_os.Base.{
  ℕ, zero, suc, ◌+◌, ◌*◌, ◌%◌, ◌<◌, ◌≡◌, inl, inr, refl, ◌&&◌, ◌==◌, leb, ltb, if◌then◌else◌, arith,
  ok, update, ap, ◌∙◌, ◌∈◌,
}
use bsprakt_os.IntrusiveList.{Ptr, Heap, null}
use bsprakt_os.IntrusiveList.Store.{IsStore}
use bsprakt_os.Math.{k_modulo_add, k_modulo_sub}
use bsprakt_os.Math.Modulo.{k_modulo_add_lem, k_modulo_sub_lem}
use bsprakt_os.Mmu.{get_stack_handle, l2_handle_set_table_address}
use bsprakt_os.Mmu.Layout.{kib}
use bsprakt_os.Mmu.Init.{get_nth_stack_handle}
use bsprakt_os.Mmu.Tables.{stack_handle}
use bsprakt_os.Kernel.{
  Kernel, Tcb, finished_list, scheduler_node, addrspace_node, idle_thread_index, thread_count,
  user_thread_count, address_spaces, container_of,
}
use bsprakt_os.Scheduler.{set_tcb, scheduler_create_process}
use bsprakt_os.Scheduler.Integrity.{IsThreads}
use bsprakt_os.Scheduler.Slots.State.{IsKernel, created-IsKernel}
use bsprakt_os.Scheduler.Threads.{created, Created, scheduler_create_process-Created}
use bsprakt_os.Scheduler.Boot.{
  linked, self_link, initialise_blocks, scheduler_initialise,
  scheduler_initialise_idle_thread_context,
}
use bsprakt_os.Scheduler.Boot.Circle.{
  next_node, previous_node, nodes_from, first_lists, IsBoot, IsBoot-IsStore, all_nodes-cons,
  mem-all_nodes,
}

get_nth_stack_handle-ok :
    (tables n : ℕ) → tables % kib ≡ 0 → get_nth_stack_handle tables n ≡ ok (stack_handle tables n)
unfolding get_nth_stack_handle get_stack_handle l2_handle_set_table_address
get_nth_stack_handle-ok tables n a = ground (arith, a)

-- What the loop has done from thread `i` on.
record Initialised (i : ℕ) (k k' : Kernel) : Type 0 where
  next :
      (p : Ptr)
      → k'.nodes.next p ≡ (if leb (16 + 2 * i) p && ltb p 80 then next_node p else k.nodes.next p)
  previous :
      (p : Ptr)
      → k'.nodes.previous p
        ≡ (if leb (16 + 2 * i) p && ltb p 80 then previous_node p else k.nodes.previous p)
  numbers : (t : ℕ) → (k'.blocks t).tid ≡ (if leb i t && ltb t 32 then t else (k.blocks t).tid)

abbrev round_of : ℕ → ℕ → Kernel → Kernel
round_of tables i k =
    set_tcb (record k { nodes = linked k.nodes i ((i + 31) % 32) ((i + 1) % 32) }) i
      (record (k.blocks i) { tid = i; stack_handle = stack_handle tables i })

initialise_blocks-step :
    (tables rounds i : ℕ) (k : Kernel)
    → tables % kib ≡ 0
    → i < 32
    → initialise_blocks tables (suc rounds) i k
      ≡ initialise_blocks tables rounds (i + 1) (round_of tables i k)
unfolding initialise_blocks
initialise_blocks-step tables rounds i k a l =
    let b : k_modulo_sub i 1 0 32 ≡ ok ((i + 31) % 32) =
      k_modulo_sub_lem i 1 32 (omega arith) (omega arith) ∙ ap ok (omega (arith, l)) in
    let c : k_modulo_add i 1 0 32 ≡ ok ((i + 1) % 32) =
      k_modulo_add_lem i 1 32 (omega arith) (omega arith) in
    rw (b, c, get_nth_stack_handle-ok tables i a) refl

initialise_blocks-Initialised :
    (tables rounds i : ℕ) (k : Kernel)
    → tables % kib ≡ 0
    → i + rounds ≡ 32
    → (k' : Kernel) × (initialise_blocks tables rounds i k ≡ ok k') × Initialised i k k'
unfolding initialise_blocks
initialise_blocks-Initialised tables zero i k a e = (
  k,
  refl,
  record {
    next = λ p. ground (arith, e);
    previous = λ p. ground (arith, e);
    numbers = λ t. ground (arith, e);
  },
)
initialise_blocks-Initialised tables (suc rounds) i k a e =
    let (k', f, w) =
      initialise_blocks-Initialised tables rounds (i + 1) (round_of tables i k) a
        (omega (arith, e)) in
    (
      k',
      initialise_blocks-step tables rounds i k a (omega (arith, e)) ∙ f,
      record {
        next = λ p. ground (arith, w.next p, e);
        previous = λ p. ground (arith, w.previous p, e);
        numbers = λ t. ground (arith, w.numbers t, e);
      },
    )

-- The block of the idle thread, and the heap, before the first process.
abbrev prepared : (halt : ℕ) → Kernel → Kernel
prepared halt k = scheduler_initialise_idle_thread_context halt (record k {
  nodes =
      self_link (self_link k.nodes (scheduler_node idle_thread_index))
        (addrspace_node idle_thread_index);
})

-- The static heads of the lists: all empty but that of the finished threads.
pub record IsStatic (h : Heap) : Type 0 where
  pub next : (p : Ptr) → p < 16 → h.next p ≡ (if p == finished_list then scheduler_node 0 else null)
  pub previous : (p : Ptr) → p < 16 → h.previous p ≡ null

prepared-IsBoot :
    (halt : ℕ) (k k' : Kernel)
    → IsStatic k.nodes
    → Initialised 0 k k'
    → IsBoot (prepared halt k').nodes
unfolding scheduler_initialise_idle_thread_context
prepared-IsBoot halt k k' b w = record {
  heads = λ p l. ground (arith, l, w.next p, b.next p);
  heads_previous = λ p l. ground (arith, l, w.previous p, b.previous p);
  circle_next = λ p l m. ground (arith, l, m, w.next p);
  circle_previous = λ p l m. ground (arith, l, m, w.previous p);
  idle = λ p l m. ground (arith, l, m);
}

prepared-numbers :
    (halt : ℕ) (k k' : Kernel) (t : ℕ)
    → t < thread_count
    → Initialised 0 k k'
    → ((prepared halt k').blocks t).tid ≡ t
unfolding scheduler_initialise_idle_thread_context
prepared-numbers halt k k' t l w = ground (arith, l, w.numbers t)

initialise-steps :
    (tables halt exit_thread user_main : ℕ) (k k' k'' : Kernel)
    → initialise_blocks tables 32 0 k ≡ ok k'
    → scheduler_create_process exit_thread 0 user_main null 0 (prepared halt k') ≡ ok k''
    → scheduler_initialise tables halt exit_thread user_main k ≡ ok k''
unfolding scheduler_initialise
initialise-steps tables halt exit_thread user_main k k' k'' a b = rw a b

created-numbers :
    (k k' : Kernel) (t : ℕ) (first : Tcb)
    → k'.blocks ≡ update k.blocks 0 first
    → first.tid ≡ (k.blocks 0).tid
    → (k.blocks t).tid ≡ t
    → (k'.blocks t).tid ≡ t
created-numbers k k' t first e f g = ap (λ b. (b t).tid) e ∙ ground (arith, f, g)

no_space : (n : Ptr) (pid : ℕ) → n ∈ first_lists (address_spaces pid) → ⊥
no_space n pid i = absurd (ground (arith, i))

in_circle :
    (p n : Ptr)
    → n ∈ first_lists p
    → (n ≡ scheduler_node (container_of n)) × (container_of n < user_thread_count)
in_circle p n i = (ground (arith, i, mem-all_nodes n), ground (arith, i, mem-all_nodes n))

-- The lists before the first process: every user thread is finished.
prepared-IsThreads :
    (halt : ℕ) (k k' : Kernel)
    → Initialised 0 k k'
    → IsThreads (prepared halt k').blocks first_lists
prepared-IsThreads halt k k' w p n le i =
    let f : (n ≡ scheduler_node (container_of n)) × (container_of n < user_thread_count) =
      in_circle p n i in
    (f.0, prepared-numbers halt k k' (container_of n) (omega (arith, f.1)) w, omega (arith, f.1))

prepared-IsKernel :
    (halt : ℕ) (k k' : Kernel)
    → IsStatic k.nodes
    → Initialised 0 k k'
    → IsKernel (prepared halt k') first_lists
prepared-IsKernel halt k k' b w = record {
  store = IsBoot-IsStore (prepared halt k').nodes (prepared-IsBoot halt k k' b w);
  threads = prepared-IsThreads halt k k' w;
  placed = record {
    finished = in_circle finished_list;
    somewhere = λ t h. inl (ground (arith, h, mem-all_nodes (scheduler_node t)));
    different = λ s t h g m o x y.
        absurd (no_space (addrspace_node s) (((prepared halt k').blocks s).pid) m.2);
    outside = λ t h i p. ground (arith, mem-all_nodes (addrspace_node t));
  };
}

-- What `scheduler_initialise` establishes, with the block of the first thread.
scheduler_initialise-Created :
    (tables halt exit_thread user_main : ℕ) (k : Kernel)
    → tables % kib ≡ 0
    → IsStatic k.nodes
    → (k0 k' : Kernel) × (scheduler_initialise tables halt exit_thread user_main k ≡ ok k')
      × IsKernel k0 first_lists
      × ((t : ℕ) → t < thread_count → (k0.blocks t).tid ≡ t)
      × Created k0 first_lists exit_thread 0 0 user_main null 0 0 (nodes_from 31 1) k'
scheduler_initialise-Created tables halt exit_thread user_main k a b =
    let (k1, e, w) = initialise_blocks-Initialised tables 32 0 k a refl in
    let s = IsBoot-IsStore (prepared halt k1).nodes (prepared-IsBoot halt k k1 b w) in
    let (m, same, k2, f, c) =
      scheduler_create_process-Created (prepared halt k1) first_lists exit_thread 0 user_main null 0
        0 (nodes_from 31 1) s (omega arith) (omega arith) all_nodes-cons
        (λ p. ground (arith, mem-all_nodes (addrspace_node 0))) (omega arith) (inl refl)
        (inr (omega arith)) in
    let i = prepared-IsKernel halt k k1 b w in
    (
      record (prepared halt k1) { memory = m },
      k2,
      initialise-steps tables halt exit_thread user_main k k1 k2 e f,
      record { store = i.store; threads = i.threads; placed = i.placed },
      λ t l. prepared-numbers halt k k1 t l w,
      c,
    )

-- `scheduler_initialise` ends without a panic. All lists are intact then: the first thread is ready
-- and alone in address space 0, the other user threads are finished, in the order of their numbers,
-- and no other list has a node; every thread knows its number.
pub scheduler_initialise-IsStore :
    (tables halt exit_thread user_main : ℕ) (k : Kernel)
    → tables % kib ≡ 0
    → IsStatic k.nodes
    → (k' : Kernel) × (scheduler_initialise tables halt exit_thread user_main k ≡ ok k')
      × IsStore k'.nodes (created 0 0 (nodes_from 31 1) first_lists)
      × ((t : ℕ) → t < thread_count → (k'.blocks t).tid ≡ t)
scheduler_initialise-IsStore tables halt exit_thread user_main k a b =
    let (k0, k2, f, i, n, c) =
      scheduler_initialise-Created tables halt exit_thread user_main k a b in
    (k2, f, c.lists, λ t l. created-numbers k0 k2 t _ c.block refl (n t l))

-- `scheduler_initialise` establishes the invariant of the threads: without a panic it ends with the
-- first thread ready and alone in address space 0, the other user threads finished in the order of
-- their numbers, and every one in its place; the idle thread knows its number.
pub scheduler_initialise-IsKernel :
    (tables halt exit_thread user_main : ℕ) (k : Kernel)
    → tables % kib ≡ 0
    → IsStatic k.nodes
    → (k' : Kernel) × (scheduler_initialise tables halt exit_thread user_main k ≡ ok k')
      × IsKernel k' (created 0 0 (nodes_from 31 1) first_lists)
      × ((k'.blocks idle_thread_index).tid ≡ idle_thread_index)
scheduler_initialise-IsKernel tables halt exit_thread user_main k a b =
    let (k0, k2, f, i, n, c) =
      scheduler_initialise-Created tables halt exit_thread user_main k a b in
    (
      k2,
      f,
      created-IsKernel k0 first_lists i exit_thread 0 0 user_main null 0 0 (nodes_from 31 1) k2
          (omega arith) (omega arith) (omega arith) all_nodes-cons
          (λ t h m x y. no_space (addrspace_node t) ((k0.blocks t).pid) m.2) c,
      created-numbers k0 k2 idle_thread_index _ c.block refl (n idle_thread_index (omega arith)),
    )
