-- ===== src/Syscalls/Runs.antt =====
-- What system calls and rounds of kernel/syscall_impl.c and kernel/scheduler.c keep along a run of the
-- kernel.
pub mod System
pub mod Rounds
pub mod Calls
pub mod Moves
pub mod Waits
pub mod Stalls
pub mod Dispatch
use bsprakt_os.Base.{ℕ, ◌<◌, ◌%◌, ◌≡◌, ◌⊎◌, true, ok}
use bsprakt_os.Mmu.Layout.{kib}
use bsprakt_os.Kernel.{Kernel, user_thread_count}
use bsprakt_os.Scheduler.{
  normal, scheduler_get_running_thread, scheduler_exists_input_waiting_thread,
  scheduler_unblock_first_input_waiting_thread, scheduler_unblock_overdue_waiting_threads,
}
use bsprakt_os.Scheduler.RoundRobin.{scheduler_round_robin}
use bsprakt_os.Scheduler.Boot.{scheduler_initialise}
use bsprakt_os.Scheduler.Boot.State.{IsStatic}
use bsprakt_os.Syscalls.{
  Host, dispatch_syscall, syscall_create_process_no, syscall_create_thread_no,
}
use bsprakt_os.Timer.Errors.{Status}
use bsprakt_os.Syscalls.Creations.{IsGiven}

-- A user thread runs: only then there are calls.
pub record IsUser (k : Kernel) (me : ℕ) : Type 0 where
  pub runs : scheduler_get_running_thread k ≡ ok me
  pub user : me < user_thread_count

-- The scheduler's own state is the same. User code, the devices and the entry into the kernel
-- change registers, memory and the devices only.
pub record IsSame (k k' : Kernel) : Type 0 where
  pub nodes : k'.nodes ≡ k.nodes
  pub blocks : k'.blocks ≡ k.blocks
  pub slots : k'.slots_used ≡ k.slots_used

-- The call takes arguments for a new thread.
abbrev pub IsCreation : ℕ → Type 0
IsCreation syscall_no =
    (syscall_no ≡ syscall_create_process_no) ⊎ (syscall_no ≡ syscall_create_thread_no)
