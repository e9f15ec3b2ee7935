-- ===== src/Interrupts/Runs.antt =====
-- Runs of the kernel: the start of kernel/scheduler.c, and then the handlers of kernel/interrupt.c in
-- any order.
pub mod Handlers
pub mod Reachable
use bsprakt_os.Base.{ℕ, ◌%◌, ◌≡◌, true, ok}
use bsprakt_os.Base.Words.{sub32}
use bsprakt_os.Mmu.Layout.{kib}
use bsprakt_os.Kernel.{Kernel}
use bsprakt_os.Scheduler.Boot.{scheduler_initialise}
use bsprakt_os.Scheduler.Boot.State.{IsStatic}
use bsprakt_os.RegisterDump.{InterruptType}
use bsprakt_os.Syscalls.{Host, get_syscall_no}
use bsprakt_os.Syscalls.Creations.{IsGiven}
use bsprakt_os.Syscalls.Runs.{IsUser, IsSame, IsCreation}
use bsprakt_os.Interrupts.{
  from_user, fault_interrupt_handler, software_interrupt_handler, irq_interrupt_handler,
}

-- In user mode a user thread runs: the idle thread is in system mode.
abbrev pub IsFromThread : Kernel → Type 0
IsFromThread k = from_user k ≡ true → (me : ℕ) × IsUser k me

-- The number of the system call that an interrupt asks for.
abbrev pub call_of : Kernel → ℕ
call_of k = get_syscall_no k.memory (sub32 k.frame.lr 4)

-- The kernels that come out of a start. A step is an interrupt whose handler has returned, or what
-- happens outside of the kernel.
pub data Run (host : Host) (tables halt user_main : ℕ) : Kernel → Type 0 where
  start :
      {k' : Kernel} (k : Kernel)
      → tables % kib ≡ 0
      → IsStatic k.nodes
      → scheduler_initialise tables halt host.exit_thread user_main k ≡ ok k'
      → Run host tables halt user_main k'
  outside :
      {k k' : Kernel}
      → Run host tables halt user_main k
      → IsSame k k'
      → Run host tables halt user_main k'
  software :
      {k k' : Kernel}
      → Run host tables halt user_main k
      → IsFromThread k
      → (IsCreation (call_of k) → IsGiven (k.frame.general 1) (k.frame.general 2))
      → software_interrupt_handler host k ≡ ok k'
      → Run host tables halt user_main k'
  fault :
      {k k' : Kernel} (type : InterruptType)
      → Run host tables halt user_main k
      → IsFromThread k
      → fault_interrupt_handler host type k ≡ ok k'
      → Run host tables halt user_main k'
  irq :
      {k k' : Kernel} (fuel : ℕ)
      → Run host tables halt user_main k
      → irq_interrupt_handler fuel k ≡ ok k'
      → Run host tables halt user_main k'
