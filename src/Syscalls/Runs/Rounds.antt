-- ===== src/Syscalls/Runs/Rounds.antt =====
-- kernel/scheduler.c: a normal round keeps what holds between two entries of the kernel.
use bsprakt_os.Base.{
  ℕ, ◌<◌, ◌≡◌, ◌⊎◌, inl, inr, refl, sym, ap, subst, ◌∙◌, List, [], ◌∷◌, ◌++◌, arith, ◌∈◌, ◌∉◌, ok,
  update, has-append, ℕ_discrete,
}
use bsprakt_os.IntrusiveList.{Ptr}
use bsprakt_os.IntrusiveList.Ring.Order.{ordered}
use bsprakt_os.IntrusiveList.Store.{Lists, InNone}
use bsprakt_os.Kernel.{
  Kernel, ready_list, running_list, stall_waiting_list, idle_thread_index, scheduler_node,
  user_thread_count,
}
use bsprakt_os.Scheduler.{SchedulingType, forced, normal, scheduler_stall_cmp}
use bsprakt_os.Scheduler.RoundRobin.{scheduler_round_robin}
use bsprakt_os.Scheduler.Switch.{Switched, IsSingle, kept}
use bsprakt_os.Scheduler.Integrity.{IsThread}
use bsprakt_os.Scheduler.Rounds.{
  idle_node, saved-same, scheduler_round_robin-Switched, scheduler_round_robin-idle,
  scheduler_round_robin-goes_on, Gives,
}
use bsprakt_os.Scheduler.Slots.State.{IsKernel}
use bsprakt_os.Scheduler.Slots.Moves.{Switched-IsKernel, IsThreads-ready, IsPlaced-ready}
use bsprakt_os.Syscalls.Waits.{kept-user}
use bsprakt_os.Syscalls.Runs.System.{IsSystem, ok_injective, checked, idle-InNone}

abbrev switched : Lists → Ptr → List Ptr → List Ptr → Lists
switched l n rest q = update (update l ready_list (rest ++ kept q)) running_list (n ∷ [])

-- After a switch from the running thread the idle thread is in no list.
idle-switched :
    (k : Kernel) (l : Lists) (n : Ptr) (rest q : List Ptr)
    → IsSystem k l
    → l ready_list ≡ n ∷ rest
    → l running_list ≡ q
    → InNone idle_node (switched l n rest q)
idle-switched k l n rest q w e f = cases w.idle_place
  where
    ready : idle_node ∉ l ready_list → idle_node ∉ n ∷ rest
    ready o = subst (λ xs. idle_node ∉ xs) e o

    cases :
        InNone idle_node l ⊎ (l running_list ≡ idle_node ∷ [])
        → InNone idle_node (switched l n rest q)
    cases (inl o) p = ground (
      arith,
      o p,
      ready (o ready_list),
      has-append idle_node rest (kept q),
      not_kept q (subst (λ xs. idle_node ∉ xs) f (o running_list)),
    )
      where
        not_kept : (q : List Ptr) → idle_node ∉ q → idle_node ∉ kept q
        not_kept [] h = h
        not_kept (x ∷ xs) h = ground (arith, h)
    cases (inr r) p =
        let i : idle_node ∈ l running_list = subst (λ q. idle_node ∈ q) (sym r) (ground arith) in
        let g : kept q ≡ [] = ap kept (sym f ∙ r) in
        let no : (p : Ptr) → p ≡ running_list ⊎ (idle_node ∉ l p) = λ p.
          elim (ℕ_discrete p running_list) [
            | yes a ↦ inl a
            | no a ↦ inr (ground (arith, a, w.kernel.store.apart p running_list idle_node, i))
          ] in
        ground (arith, no p, no ready_list, ready, has-append idle_node rest (kept q), g)

-- The lists after a switch, in which the idle thread is in no list or the one that runs.
Switched-IsSystem :
    (k k' : Kernel) (l : Lists) (n : Ptr) (rest q : List Ptr)
    → (k.blocks idle_thread_index).tid ≡ idle_thread_index
    → IsKernel k' (switched l n rest q)
    → Switched k l n rest q k'
    → InNone idle_node (switched l n rest q) ⊎ (n ≡ idle_node)
    → IsSystem k' (switched l n rest q)
Switched-IsSystem k k' l n rest q i w s o = record {
  kernel = w;
  single = refl;
  idle_number =
      ap (λ b. (b idle_thread_index).tid) s.blocks ∙ (saved-same k q idle_thread_index).0 ∙ i;
  idle_place = elim o [ inl a ↦ inl a | inr b ↦ inr (ap (λ n. n ∷ []) b) ];
}

idle-IsThread : (k : Kernel) (l : Lists) → IsSystem k l → IsThread k.blocks idle_node
idle-IsThread k l w = (refl, w.idle_number, omega arith)

-- A round that ends with the idle thread.
idle_round-IsSystem :
    (type : SchedulingType) (k k' : Kernel) (l : Lists) (q : List Ptr)
    → IsSystem k l
    → l ready_list ≡ []
    → l running_list ≡ q
    → Gives type q
    → InNone idle_node l
    → scheduler_round_robin type k ≡ ok k'
    → IsSystem k' (switched (update l ready_list (idle_node ∷ [])) idle_node [] q)
idle_round-IsSystem type k k' l q w a b g o e =
    let idle = idle-IsThread k l w in
    let (k1, s, f) =
      scheduler_round_robin-idle type k l q w.kernel.store w.kernel.threads idle a b
        (subst IsSingle b w.single) g o in
    let l1 = update l ready_list (idle_node ∷ []) in
    let m =
      Switched-IsKernel k k1 l1 idle_node [] q
        (IsThreads-ready k.blocks l idle_node idle w.kernel.threads)
        (IsPlaced-ready k.blocks k.slots_used l idle_node idle w.kernel.threads w.kernel.placed)
        refl b s in
    subst (λ k. IsSystem k (switched l1 idle_node [] q))
      (checked (ordered (scheduler_stall_cmp k.blocks) (l stall_waiting_list)) (sym f ∙ e))
      (Switched-IsSystem k k1 l1 idle_node [] q w.idle_number m s (inr refl))

-- A round that ends with the first ready thread.
ready_round-IsSystem :
    (type : SchedulingType) (k k' : Kernel) (l : Lists) (n : Ptr) (rest q : List Ptr)
    → IsSystem k l
    → l ready_list ≡ n ∷ rest
    → l running_list ≡ q
    → scheduler_round_robin type k ≡ ok k'
    → IsSystem k' (switched l n rest q)
ready_round-IsSystem type k k' l n rest q w a b e =
    let (k1, s, f) =
      scheduler_round_robin-Switched type k l n rest q w.kernel.store w.kernel.threads a b
        (subst IsSingle b w.single) in
    subst (λ k. IsSystem k (switched l n rest q))
      (checked (ordered (scheduler_stall_cmp k.blocks) (l stall_waiting_list)) (sym f ∙ e))
      (Switched-IsSystem k k1 l n rest q w.idle_number
        (Switched-IsKernel k k1 l n rest q w.kernel.threads w.kernel.placed a b s) s
        (inl (idle-switched k l n rest q w a b)))

-- A normal round that returns keeps the invariant.
pub round-IsSystem :
    (k k' : Kernel) (l : Lists)
    → IsSystem k l
    → scheduler_round_robin normal k ≡ ok k'
    → (l' : Lists) × IsSystem k' l'
round-IsSystem k k' l w e = cases (l ready_list) refl (l running_list) refl
  where
    loose :
        InNone idle_node l ⊎ (l running_list ≡ idle_node ∷ [])
        → l running_list ≡ []
        → InNone idle_node l
    loose (inl o) f = o
    loose (inr r) f = cc (r, f)

    cases :
        (r : List Ptr)
        → l ready_list ≡ r
        → (q : List Ptr) → l running_list ≡ q
        → (l' : Lists) × IsSystem k' l'
    cases [] a [] b = (_, idle_round-IsSystem normal k k' l [] w a b refl (loose w.idle_place b) e)
    cases [] a (x ∷ xs) b = (
      l,
      subst (λ k. IsSystem k l)
          (ok_injective (sym (scheduler_round_robin-goes_on k l x xs w.kernel.store a b) ∙ e)) w,
    )
    cases (n ∷ rest) a q b = (_, ready_round-IsSystem normal k k' l n rest q w a b e)

-- So does a forced round while user thread `me` runs, which is ready then.
pub forced-IsSystem :
    (k k' : Kernel) (l : Lists) (me : ℕ)
    → IsSystem k l
    → me < user_thread_count
    → l running_list ≡ scheduler_node me ∷ []
    → scheduler_round_robin forced k ≡ ok k'
    → (l' : Lists) × IsSystem k' l' × (scheduler_node me ∈ l' ready_list)
forced-IsSystem k k' l me w h r e = cases (l ready_list) refl
  where
    goes_back : (rest : List Ptr) → scheduler_node me ∈ rest ++ kept (scheduler_node me ∷ [])
    goes_back rest =
        subst (λ ys. scheduler_node me ∈ rest ++ ys) (sym (kept-user me (omega arith)))
          (ground (arith, has-append (scheduler_node me) rest (scheduler_node me ∷ [])))

    cases :
        (xs : List Ptr)
        → l ready_list ≡ xs
        → (l' : Lists) × IsSystem k' l' × (scheduler_node me ∈ l' ready_list)
    cases [] a = (
      switched (update l ready_list (idle_node ∷ [])) idle_node [] (scheduler_node me ∷ []),
      idle_round-IsSystem forced k k' l (scheduler_node me ∷ []) w a r tt (idle-InNone k l me w h r)
          e,
      goes_back [],
    )
    cases (n ∷ rest) a = (
      switched l n rest (scheduler_node me ∷ []),
      ready_round-IsSystem forced k k' l n rest (scheduler_node me ∷ []) w a r e,
      goes_back rest,
    )
