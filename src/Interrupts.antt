-- ===== src/Interrupts.antt =====
-- kernel/interrupt.c: the interrupt handlers.
pub mod Aborts
pub mod Runs
use bsprakt_os.Base.{
  ℕ, zero, suc, ◌%◌, ◌==◌, Bool, not, ◌&&◌, if◌then◌else◌, Outcome, ok, panic, out_of_fuel, ◌>>=◌,
  ◌>>◌, verify,
}
use bsprakt_os.Base.Words.{bit, sub32}
use bsprakt_os.Timer.{stalltimer_pending, systimer_pending}
use bsprakt_os.Timer.Errors.{is_error}
use bsprakt_os.Kernel.{Kernel}
use bsprakt_os.Pl001.{pl001_receive, pl001_has_unread_character, pl001_read}
use bsprakt_os.RegisterDump.{InterruptType, software, dump_registers}
use bsprakt_os.Scheduler.{
  normal, psr_mode_user, scheduler_unblock_overdue_waiting_threads,
  scheduler_exists_input_waiting_thread, scheduler_unblock_first_input_waiting_thread,
}
use bsprakt_os.Scheduler.RoundRobin.{scheduler_round_robin}
use bsprakt_os.Syscalls.{
  Host, dispatch_syscall, is_valid_syscall, get_syscall_no, syscall_exit_thread_no, reset_timer,
}

-- (get_spsr() & psr_mode) == psr_mode_user
abbrev pub from_user : Kernel → Bool
from_user k = k.spsr % 32 == psr_mode_user

-- VERIFY(dispatch_syscall(regs, SYSCALL_EXIT_THREAD_NO) >= 0)
unfoldable pub exit_running_thread : Host → Kernel → Outcome Kernel
exit_running_thread host k = do
  r ← dispatch_syscall host syscall_exit_thread_no k
  verify (not (is_error r.0))
  ok r.1

-- The reset, undefined instruction, prefetch abort and data abort handlers: they differ in the type
-- of the interrupt.
unfoldable pub fault_interrupt_handler : Host → InterruptType → Kernel → Outcome Kernel
fault_interrupt_handler host type k = do
  dump_registers type k
  if from_user k then exit_running_thread host k else panic

-- The end of `software_interrupt_handler`, where the call was not served.
unfoldable pub refuse_syscall : Host → Kernel → Outcome Kernel
refuse_syscall host k = do
  dump_registers software k
  if not (from_user k) then panic else exit_running_thread host k

unfoldable pub software_interrupt_handler : Host → Kernel → Outcome Kernel
software_interrupt_handler host k =
    let svc_address = sub32 k.frame.lr 4 in
    if from_user k && is_valid_syscall k.memory svc_address
    then dispatch_syscall host (get_syscall_no k.memory svc_address) k
      >>= (λ r. if not (is_error r.0) then ok r.1 else refuse_syscall host r.1)
    else refuse_syscall host k

-- The loop that hands out characters.
unfoldable pub hand_out : ℕ → Kernel → Outcome Kernel
hand_out zero k = out_of_fuel
hand_out (suc fuel) k = do
  waiting ← scheduler_exists_input_waiting_thread k
  let rest = (do
    r ← pl001_read k.uart k.memory
    k' ← scheduler_unblock_first_input_waiting_thread r.0 (record k { uart = r.1; memory = r.2 })
    hand_out fuel k')
  if waiting && pl001_has_unread_character k.uart then rest else ok k

-- UART_pending is bit 25 of IRQ_pending_2.
unfoldable pub receive_pending : Kernel → Outcome Kernel
receive_pending k =
    if bit k.irq_pending_2 25 == 1
    then pl001_receive k.uart k.memory >>= (λ r. ok (record k { uart = r.0; memory = r.1 }))
    else ok k

unfoldable pub irq_interrupt_handler : ℕ → Kernel → Outcome Kernel
irq_interrupt_handler fuel k = do
  k1 ← if stalltimer_pending k.timer then scheduler_unblock_overdue_waiting_threads k else ok k
  k2 ←
      if systimer_pending k1.timer
      then scheduler_round_robin normal k1 >>= (λ k'. ok (reset_timer k'))
      else ok k1
  k3 ← receive_pending k2
  hand_out fuel k3
