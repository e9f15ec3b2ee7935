-- ===== src/Scheduler/Switch.antt =====
-- kernel/scheduler.c: the switch from the running thread to the next one.
use bsprakt_os.Base.{
  ℕ, ◌≡◌, inl, inr, refl, true, false, Option, none, some, List, [], ◌∷◌, ◌++◌, arith, ◌∈◌, ok,
  ◌==◌, update, erase, subst, sym, ap, ◌∙◌, if◌then◌else◌, Bool-cases, append-nil,
}
use bsprakt_os.IntrusiveList.{
  Ptr, Heap, k_get_first_node, k_transfer_list_node, k_is_list_empty, k_remove_node_from_list,
  k_append_node_to_list, k_get_last_node,
}
use bsprakt_os.IntrusiveList.Chain.{last_of, last_of-mem}
use bsprakt_os.IntrusiveList.Store.{
  Lists, IsStore, IsStore-pointwise, InNone, InNone-erase, append_first_lem, append_behind_lem,
  remove_lem, transfer_first_lem,
}
use bsprakt_os.Kernel.{
  Kernel, Tcb, ready_list, running_list, scheduler_node, container_of, idle_thread_index,
}
use bsprakt_os.Scheduler.{scheduler_save_thread_context, scheduler_switch_thread}
use bsprakt_os.Scheduler.RoundRobin.{
  retire_running, map_process, dispatch_next, switch_to_next, with_idle,
}
use bsprakt_os.Scheduler.Mapping.{Mapped, map_process-Mapped}
use bsprakt_os.Scheduler.Lists.{first_at, empty_at, last_at, behind_last}
use bsprakt_os.Scheduler.Waiting.{IsHead-ready}
use bsprakt_os.Scheduler.Threads.{IsHead-running}

-- What of the running list goes back to the ready list: the idle thread does not.
abbrev pub kept : List Ptr → List Ptr
kept [] = []
kept (x ∷ xs) = if container_of x == idle_thread_index then [] else x ∷ []

-- The lists after the running thread has been taken off.
abbrev pub retired : List Ptr → Lists → Lists
retired q l = update (update l running_list []) ready_list (l ready_list ++ kept q)

-- The control blocks then: the thread that goes back has the registers of the interrupted code.
abbrev pub saved : Kernel → List Ptr → ℕ → Tcb
saved k [] = k.blocks
saved k (x ∷ xs) =
    if container_of x == idle_thread_index
    then k.blocks
    else (scheduler_save_thread_context (container_of x) k).blocks

abbrev pub runner : List Ptr → Option ℕ
runner [] = none
runner (x ∷ xs) = some (container_of x)

-- At most one thread runs.
abbrev pub IsSingle : List Ptr → Type 0
IsSingle [] = Unit {0}
IsSingle (x ∷ xs) = xs ≡ []

-- Saving a thread does not read the lists.
saved-nodes : (k : Kernel) (h : Heap) (q : List Ptr) → saved (record k { nodes = h }) q ≡ saved k q
unfolding scheduler_save_thread_context
saved-nodes k h [] = refl
saved-nodes k h (x ∷ xs) = refl

retire-idle :
    (k : Kernel) (x : Ptr) (h : Heap)
    → k_is_list_empty k.nodes running_list ≡ ok false
    → k_get_first_node k.nodes running_list ≡ ok x
    → k_remove_node_from_list k.nodes running_list x ≡ ok h
    → (container_of x == idle_thread_index) ≡ true
    → retire_running k ≡ ok (some (container_of x), record k { nodes = h })
unfolding retire_running
retire-idle k x h a b c d = rw (a, b, c, d)

retire-user :
    (k : Kernel) (x last : Ptr) (h g : Heap)
    → k_is_list_empty k.nodes running_list ≡ ok false
    → k_get_first_node k.nodes running_list ≡ ok x
    → k_remove_node_from_list k.nodes running_list x ≡ ok h
    → (container_of x == idle_thread_index) ≡ false
    → k_get_last_node h ready_list ≡ ok last
    → k_append_node_to_list h last x ≡ ok g
    → retire_running k
      ≡ ok (
        some (container_of x),
        scheduler_save_thread_context (container_of x) (record k { nodes = g }),
      )
unfolding retire_running
retire-user k x last h g a b c d e f = rw (a, b, c, d, e, f)

retire_running-retired :
    (k : Kernel) (l : Lists) (n : Ptr) (rest q : List Ptr)
    → IsStore k.nodes l
    → l ready_list ≡ n ∷ rest
    → l running_list ≡ q
    → IsSingle q
    → (g : Heap) × (retire_running k ≡ ok (runner q, record k { nodes = g; blocks = saved k q }))
      × IsStore g (retired q l)
unfolding retire_running scheduler_save_thread_context
retire_running-retired k l n rest [] s e f o = (
  k.nodes,
  rw (empty_at s running_list IsHead-running [] f),
  IsStore-pointwise (λ p. ground (arith, append-nil (l ready_list))) s,
)
retire_running-retired k l n rest (x ∷ xs) s e f o =
    let i : x ∈ l running_list = subst (λ t. x ∈ t) (sym f) (ground arith) in
    let (h, a, t) = remove_lem s running_list x IsHead-running i in
    let b = empty_at s running_list IsHead-running (x ∷ xs) f in
    let c = first_at s running_list IsHead-running x xs f in
    let z : erase x (l running_list) ≡ [] = ground (arith, f, o) in
    elim (Bool-cases (container_of x == idle_thread_index)) [
      | inl idle ↦ (
        h,
        rw idle (retire-idle k x h b c a idle),
        IsStore-pointwise (λ p. ground (arith, z, idle, append-nil (l ready_list))) t,
      )
      | inr user ↦
          let d = last_at t ready_list IsHead-ready n rest e in
          let m : last_of n rest ∈ l ready_list =
            subst (λ u. last_of n rest ∈ u) (sym e) (last_of-mem n rest) in
          let (g, j, w) =
            append_behind_lem t ready_list x IsHead-ready (last_of n rest) m
              (s.nodes running_list x i) (InNone-erase s running_list x IsHead-running i) in
          (
            g,
            rw user (retire-user k x (last_of n rest) h g b c a user d j),
            IsStore-pointwise
                (λ p. ground (arith, z, user, behind_last t ready_list IsHead-ready x n rest e)) w,
          )
    ]

-- What the switch has done when `n` was the first ready thread and `q` the running ones: `n` runs,
-- with its registers in the frame and the banked registers; a user thread that ran is the last ready
-- one, with its registers saved; the table shows the address space of `n`.
pub record Switched (k : Kernel) (l : Lists) (n : Ptr) (rest q : List Ptr) (k' : Kernel)
    : Type 0 where
  pub lists : IsStore k'.nodes (update (update l ready_list (rest ++ kept q)) running_list (n ∷ []))
  pub blocks : k'.blocks ≡ saved k q
  pub slots : k'.slots_used ≡ k.slots_used
  pub pending : k'.irq_pending_2 ≡ k.irq_pending_2
  pub general : k'.frame.general ≡ (saved k q (container_of n)).regs.general
  pub return_to : k'.frame.lr ≡ (saved k q (container_of n)).regs.pc
  pub mode : k'.spsr ≡ (saved k q (container_of n)).cpsr
  pub stack : k'.sp_usr ≡ (saved k q (container_of n)).regs.sp
  pub link : k'.lr_usr ≡ (saved k q (container_of n)).regs.lr
  pub table :
      Mapped (runner q) (container_of n) (saved k q) k.process_stack_handles k.l1_table k'.l1_table

dispatch-ok :
    (k r k' : Kernel) (n : Ptr) (run : Option ℕ) (h : Heap)
    → k_get_first_node k.nodes ready_list ≡ ok n
    → retire_running k ≡ ok (run, r)
    → map_process run (container_of n) r ≡ ok k'
    → k_transfer_list_node k'.nodes ready_list running_list n ≡ ok h
    → dispatch_next k ≡ ok (scheduler_switch_thread (container_of n) (record k' { nodes = h }))
unfolding dispatch_next
dispatch-ok k r k' n run h a b c d = rw (a, b, c, d)

pub dispatch_next-Switched :
    (k : Kernel) (l : Lists) (n : Ptr) (rest q : List Ptr)
    → IsStore k.nodes l
    → l ready_list ≡ n ∷ rest
    → l running_list ≡ q
    → IsSingle q
    → (k' : Kernel) × (dispatch_next k ≡ ok k') × Switched k l n rest q k'
unfolding scheduler_switch_thread
dispatch_next-Switched k l n rest q s e f o =
    let (g, a, w) = retire_running-retired k l n rest q s e f o in
    let (t, b, m) =
      map_process-Mapped (runner q) (container_of n) (record k { nodes = g; blocks = saved k q }) in
    let i : n ∈ retired q l ready_list = ground (arith, e) in
    let (h, c, u) =
      transfer_first_lem w ready_list running_list n IsHead-ready IsHead-running (omega arith) i in
    (
      scheduler_switch_thread (container_of n)
          (record k { nodes = h; blocks = saved k q; l1_table = t }),
      dispatch-ok k (record k { nodes = g; blocks = saved k q })
          (record k { nodes = g; blocks = saved k q; l1_table = t }) n (runner q) h
          (first_at s ready_list IsHead-ready n rest e) a b c,
      record {
        lists = IsStore-pointwise (λ p. ground (arith, e)) u;
        blocks = refl;
        slots = refl;
        pending = refl;
        general = refl;
        return_to = refl;
        mode = refl;
        stack = refl;
        link = refl;
        table = m;
      },
    )

-- With a thread ready, `scheduler_round_robin` switches to the first one.
pub switch_to_next-ready :
    (k : Kernel) (l : Lists) (n : Ptr) (rest q : List Ptr)
    → IsStore k.nodes l
    → l ready_list ≡ n ∷ rest
    → l running_list ≡ q
    → IsSingle q
    → (k' : Kernel) × (switch_to_next k ≡ ok k') × Switched k l n rest q k'
unfolding switch_to_next with_idle
switch_to_next-ready k l n rest q s e f o =
    let (k', a, w) = dispatch_next-Switched k l n rest q s e f o in
    (k', rw (empty_at s ready_list IsHead-ready (n ∷ rest) e) a, w)

-- With no thread ready, it switches to the idle thread, if that one is in no list.
pub switch_to_next-idle :
    (k : Kernel) (l : Lists) (q : List Ptr)
    → IsStore k.nodes l
    → l ready_list ≡ []
    → l running_list ≡ q
    → IsSingle q
    → InNone (scheduler_node idle_thread_index) l
    → (k' : Kernel) × (switch_to_next k ≡ ok k')
      × Switched k
          (update l ready_list (scheduler_node idle_thread_index ∷ []))
          (scheduler_node idle_thread_index)
          []
          q
          k'
unfolding switch_to_next with_idle
switch_to_next-idle k l q s e f o out =
    let n = scheduler_node idle_thread_index in
    let (h, a, t) = append_first_lem s ready_list n IsHead-ready (omega arith) out in
    let t' = subst (λ xs. IsStore h (update l ready_list (n ∷ xs))) e t in
    let (k', b, w) =
      dispatch_next-Switched (record k { nodes = h }) (update l ready_list (n ∷ [])) n [] q t' refl
        f o in
    (
      k',
      rw (empty_at s ready_list IsHead-ready [] e, a) b,
      record {
        lists = w.lists;
        blocks = w.blocks ∙ saved-nodes k h q;
        slots = w.slots;
        pending = w.pending;
        general = w.general ∙ ap (λ b. (b (container_of n)).regs.general) (saved-nodes k h q);
        return_to = w.return_to ∙ ap (λ b. (b (container_of n)).regs.pc) (saved-nodes k h q);
        mode = w.mode ∙ ap (λ b. (b (container_of n)).cpsr) (saved-nodes k h q);
        stack = w.stack ∙ ap (λ b. (b (container_of n)).regs.sp) (saved-nodes k h q);
        link = w.link ∙ ap (λ b. (b (container_of n)).regs.lr) (saved-nodes k h q);
        table =
            subst
              (λ b.
                Mapped (runner q) (container_of n) b k.process_stack_handles k.l1_table k'.l1_table)
              (saved-nodes k h q) w.table;
      },
    )
