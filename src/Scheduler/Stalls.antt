-- ===== src/Scheduler/Stalls.antt =====
-- kernel/scheduler.c: a stall and the round that follows it.
use bsprakt_os.Base.{
  ℕ, ◌≡◌, true, List, ◌∷◌, arith, ◌∈◌, ok, ◌==◌, leb, update, erase, subst, sym, ap, ◌∙◌, ◌>>=◌,
  ◌>>◌, verify, ℕ_discrete, Bool-cases, inl, inr, Outcome, mem-of-mem-erase,
}
use bsprakt_os.IntrusiveList.{Ptr}
use bsprakt_os.IntrusiveList.Ring.Insert.{inserted, mem-inserted}
use bsprakt_os.IntrusiveList.Ring.Order.{ordered, IsOrder, inserted-ordered}
use bsprakt_os.IntrusiveList.Store.{Lists, IsStore}
use bsprakt_os.Kernel.{Kernel, Tcb, ready_list, running_list, stall_waiting_list, scheduler_node}
use bsprakt_os.Scheduler.{SchedulingType, scheduler_stall_cmp, stall}
use bsprakt_os.Scheduler.RoundRobin.{scheduler_round_robin}
use bsprakt_os.Scheduler.Waiting.{stall-inserted, deadline}
use bsprakt_os.Scheduler.Threads.{container_of-scheduler_node}
use bsprakt_os.Scheduler.Switch.{IsSingle}
use bsprakt_os.Scheduler.Integrity.{IsThreads}
use bsprakt_os.Scheduler.Rounds.{scheduler_round_robin-Switched}

stall_cmp-IsOrder : (blocks : ℕ → Tcb) → IsOrder (scheduler_stall_cmp blocks)
unfolding scheduler_stall_cmp
stall_cmp-IsOrder blocks = record {
  total = λ a b e. ground arith;
  trans = λ a b c e f. ground arith;
}

-- The lists after a stall.
abbrev pub stalled : Kernel → ℕ → Lists → Lists
stalled k tid l =
    update (update l ready_list (erase (scheduler_node tid) (l ready_list))) stall_waiting_list
      (inserted (scheduler_stall_cmp k.blocks) (scheduler_node tid) (l stall_waiting_list))

IsThreads-stalled :
    (k : Kernel) (tid : ℕ) (l : Lists)
    → scheduler_node tid ∈ l ready_list
    → IsThreads k.blocks l
    → IsThreads k.blocks (stalled k tid l)
IsThreads-stalled k tid l i t p n le j = elim (ℕ_discrete p stall_waiting_list) [
  | yes a ↦
      let c =
        mem-inserted (scheduler_stall_cmp k.blocks) n (scheduler_node tid) (l stall_waiting_list) in
      elim (Bool-cases (n == scheduler_node tid)) [
        | inl d ↦ t ready_list n (omega arith) (ground (arith, d, i))
        | inr d ↦ t stall_waiting_list n (omega arith) (ground (arith, a, j, c, d))
      ]
  | no na ↦ elim (ℕ_discrete p ready_list) [
    | yes b ↦
        t ready_list n (omega arith)
          (mem-of-mem-erase n (scheduler_node tid) (l ready_list) (ground (arith, j, b)))
    | no nb ↦ t p n le (ground (arith, j, na, nb))
  ]
]

then_round :
    (type : SchedulingType) (tid : ℕ) (k k' : Kernel) (o : Outcome Kernel)
    → stall tid k ≡ ok k'
    → scheduler_round_robin type k' ≡ o
    → (stall tid k >>= λ k'. scheduler_round_robin type k') ≡ o
then_round type tid k k' o a b = rw a b

-- When the stalled threads were in order, the round after a stall returns if the thread's deadline
-- does not lie before that of the first stalled one, and panics otherwise: the list is no longer in
-- order then. Another thread is ready.
pub stall-round_robin :
    (type : SchedulingType) (k : Kernel) (l : Lists) (tid : ℕ) (x : Ptr) (xs : List Ptr) (n : Ptr)
    (rest q : List Ptr)
    → IsStore k.nodes l
    → IsThreads k.blocks l
    → scheduler_node tid ∈ l ready_list
    → erase (scheduler_node tid) (l ready_list) ≡ n ∷ rest
    → l running_list ≡ q
    → IsSingle q
    → l stall_waiting_list ≡ x ∷ xs
    → ordered (scheduler_stall_cmp k.blocks) (x ∷ xs) ≡ true
    → (k' : Kernel) × ((stall tid k >>= λ k'. scheduler_round_robin type k')
        ≡ verify (leb (deadline k x) (k.blocks tid).stall_until) >> ok k')
unfolding scheduler_stall_cmp
stall-round_robin type k l tid x xs n rest q s t i e f o st or =
    let (g, a, w) = stall-inserted k l tid s i in
    let k1 = record k { nodes = g } in
    let (k', u, b) =
      scheduler_round_robin-Switched type k1 (stalled k tid l) n rest q w
        (IsThreads-stalled k tid l i t) e f o in
    let c =
      inserted-ordered (scheduler_stall_cmp k.blocks) (stall_cmp-IsOrder k.blocks)
        (scheduler_node tid) x xs or in
    let d : ordered (scheduler_stall_cmp k.blocks)
          (inserted (scheduler_stall_cmp k.blocks) (scheduler_node tid) (l stall_waiting_list))
        ≡ leb (deadline k x) (k.blocks tid).stall_until =
      subst
        (λ ys.
          ordered (scheduler_stall_cmp k.blocks)
            (inserted (scheduler_stall_cmp k.blocks) (scheduler_node tid) ys)
          ≡ scheduler_stall_cmp k.blocks x (scheduler_node tid))
        (sym st) c
      ∙ ap (λ t. leb (deadline k x) (k.blocks t).stall_until) (container_of-scheduler_node tid) in
    (
      k',
      then_round type tid k k1 (verify (leb (deadline k x) (k.blocks tid).stall_until) >> ok k') a
          (b ∙ ap (λ o. verify o >> ok k') d),
    )
