-- ===== src/Syscalls/Exit.antt =====
-- kernel/syscall_impl.c: the end of a thread.
use bsprakt_os.Base.{
  ℕ, ◌<◌, ◌≡◌, refl, Bool, false, List, [], ◌∷◌, arith, ◌∈◌, ok, update, Outcome, ◌>>◌, verify,
  subst,
}
use bsprakt_os.IntrusiveList.{Ptr}
use bsprakt_os.IntrusiveList.Ring.Order.{ordered}
use bsprakt_os.IntrusiveList.Store.{Lists, IsStore}
use bsprakt_os.Kernel.{
  Kernel, ready_list, running_list, stall_waiting_list, address_spaces, scheduler_node,
  addrspace_node, address_space_count,
}
use bsprakt_os.Scheduler.{normal, scheduler_stall_cmp, scheduler_cleanup_thread}
use bsprakt_os.Scheduler.RoundRobin.{scheduler_round_robin}
use bsprakt_os.Scheduler.Switch.{Switched}
use bsprakt_os.Scheduler.Threads.{ended, scheduler_cleanup_thread-ended}
use bsprakt_os.Scheduler.Integrity.{IsThreads}
use bsprakt_os.Scheduler.Slots.State.{IsThreads-ended}
use bsprakt_os.Scheduler.Rounds.{scheduler_round_robin-Switched}
use bsprakt_os.Syscalls.{syscall_exit_thread, reset_timer}

-- The slots after thread `tid` has given its own back.
abbrev pub freed : Kernel → ℕ → ℕ → ℕ → Bool
freed k tid =
    let pid = (k.blocks tid).pid in
    update k.slots_used pid (update (k.slots_used pid) (k.blocks tid).pid_slot false)

exit-steps :
    (k k1 k2 : Kernel) (o : Outcome (Unit {0}))
    → scheduler_cleanup_thread k ≡ ok k1
    → scheduler_round_robin normal k1 ≡ o >> ok k2
    → syscall_exit_thread k ≡ o >> ok (reset_timer k2)
unfolding syscall_exit_thread
exit-steps k k1 k2 (ok tt) a b = rw (a, b) refl
exit-steps k k1 k2 Outcome.panic a b = rw (a, b) refl
exit-steps k k1 k2 Outcome.out_of_fuel a b = rw (a, b) refl
exit-steps k k1 k2 Outcome.undefined a b = rw (a, b) refl

-- `sys$exit_thread` with another thread ready: the caller becomes the first finished thread, leaves
-- its address space and gives its slot back, and the first ready thread runs. (If the stalled
-- threads are not in order, the check at the end of the round panics.)
pub syscall_exit_thread-Switched :
    (k : Kernel) (l : Lists) (tid : ℕ) (n : Ptr) (rest : List Ptr)
    → IsStore k.nodes l
    → IsThreads k.blocks l
    → l running_list ≡ scheduler_node tid ∷ []
    → (k.blocks tid).pid < address_space_count
    → addrspace_node tid ∈ l (address_spaces (k.blocks tid).pid)
    → l ready_list ≡ n ∷ rest
    → (k1 k2 : Kernel) × (k1.slots_used ≡ freed k tid)
      × Switched k1 (ended (k.blocks tid).pid tid l) n rest [] k2
      × (syscall_exit_thread k
          ≡ verify (ordered (scheduler_stall_cmp k.blocks) (l stall_waiting_list))
            >> ok (reset_timer k2))
syscall_exit_thread-Switched k l tid n rest s t e hp i r =
    let (g, a, w) = scheduler_cleanup_thread-ended k l tid s e hp i in
    let k1 = record k { nodes = g; slots_used = freed k tid } in
    let m : scheduler_node tid ∈ l running_list = ground (arith, e) in
    let (k2, u, b) =
      scheduler_round_robin-Switched normal k1 (ended (k.blocks tid).pid tid l) n rest [] w
        (IsThreads-ended k.blocks (k.blocks tid).pid tid l m t) (ground (arith, r)) refl tt in
    let q : ended (k.blocks tid).pid tid l stall_waiting_list ≡ l stall_waiting_list =
      ground arith in
    (
      k1,
      k2,
      refl,
      u,
      exit-steps k k1 k2 (verify (ordered (scheduler_stall_cmp k.blocks) (l stall_waiting_list))) a
          (subst
            (λ xs.
              scheduler_round_robin normal k1
              ≡ verify (ordered (scheduler_stall_cmp k.blocks) xs) >> ok k2)
            q b),
    )
