-- ===== src/Tests/Rounds.antt =====
-- Runs of the rounds and the waiting of kernel/scheduler.c.
use bsprakt_os.Base.{◌≡◌, refl, none, [], ◌∷◌, ok, leb, verify, ◌>>◌, ◌>>=◌}
use bsprakt_os.IntrusiveList.{Ptr, Heap}
use bsprakt_os.IntrusiveList.Ring.Order.{ordered}
use bsprakt_os.IntrusiveList.Store.{IsStore}
use bsprakt_os.Kernel.{Kernel}
use bsprakt_os.Scheduler.{
  normal, forced, stall, scheduler_stall_cmp, scheduler_unblock_overdue_waiting_threads,
}
use bsprakt_os.Scheduler.RoundRobin.{
  scheduler_round_robin, scheduler_verify_thread_list_integrity, map_process,
}
use bsprakt_os.Scheduler.Switch.{Switched}
use bsprakt_os.Scheduler.Mapping.{Mapped, map_process-Mapped}
use bsprakt_os.Scheduler.Waiting.{stall-inserted}
use bsprakt_os.Scheduler.Overdue.{Unblocked, scheduler_unblock_overdue_waiting_threads-Unblocked}
use bsprakt_os.Scheduler.Integrity.{scheduler_verify_thread_list_integrity-ordered}
use bsprakt_os.Scheduler.Stalls.{stall-round_robin, stalled}
use bsprakt_os.Scheduler.Rounds.{scheduler_round_robin-Switched}
use bsprakt_os.Tests.Scene.{
  kernel_with, kernel_on, pair_lists, block, lists_of, busy, busy-IsStore, busy-IsThreads, pair,
  pair-IsStore, pair-IsThreads,
}

switch_example :
    (k' : Kernel) × Switched (kernel_with busy) (lists_of busy) 18 [] (16 ∷ []) k'
    × (scheduler_round_robin normal (kernel_with busy)
        ≡ verify (ordered (scheduler_stall_cmp block) (20 ∷ [])) >> ok k')
switch_example =
    scheduler_round_robin-Switched normal (kernel_with busy) (lists_of busy) 18 [] (16 ∷ [])
      busy-IsStore busy-IsThreads refl refl refl

check_example :
    scheduler_verify_thread_list_integrity (kernel_with busy)
    ≡ verify (ordered (scheduler_stall_cmp block) (20 ∷ []))
check_example =
    scheduler_verify_thread_list_integrity-ordered (kernel_with busy) (lists_of busy) busy-IsStore
      busy-IsThreads

overdue_example :
    (k' : Kernel) × (scheduler_unblock_overdue_waiting_threads (kernel_with busy) ≡ ok k')
    × Unblocked (lists_of busy) (20 ∷ []) (kernel_with busy) k'
overdue_example =
    scheduler_unblock_overdue_waiting_threads-Unblocked (kernel_with busy) (lists_of busy)
      busy-IsStore

stall_example :
    (g : Heap) × (stall 1 (kernel_with busy) ≡ ok (record (kernel_with busy) { nodes = g }))
    × IsStore g (stalled (kernel_with busy) 1 (lists_of busy))
stall_example = stall-inserted (kernel_with busy) (lists_of busy) 1 busy-IsStore refl

mapping_example :
    (t : Ptr → Ptr) × (map_process none 1 (kernel_with busy)
      ≡ ok (record (kernel_with busy) { l1_table = t }))
    × Mapped none 1 block (λ pid slot. 0) (λ m. 0) t
mapping_example = map_process-Mapped none 1 (kernel_with busy)

-- Thread 1 is to sleep until 101, thread 2 sleeps until 102, thread 3 is ready and next.
early_example :
    (k' : Kernel) × ((stall 1 (kernel_on pair) >>= λ k'. scheduler_round_robin forced k')
      ≡ verify (leb 102 101) >> ok k')
early_example =
    stall-round_robin forced (kernel_on pair) pair_lists 1 20 [] 22 [] [] pair-IsStore
      pair-IsThreads refl refl refl tt refl refl
