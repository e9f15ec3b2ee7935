-- ===== src/Interrupts/Aborts.antt =====
-- kernel/interrupt.c: what a fault does.
use bsprakt_os.Base.{
  Bool, ◌&&◌, ◌∙◌, ◌≡◌, refl, true, false, not, if◌then◌else◌, Outcome, ok, panic, out_of_fuel,
  undefined, ◌>>=◌, ◌>>◌, verify, ap,
}
use bsprakt_os.Timer.Errors.{is_error}
use bsprakt_os.Kernel.{Kernel}
use bsprakt_os.Syscalls.{Host, done, dispatch_syscall, syscall_exit_thread}
use bsprakt_os.RegisterDump.{InterruptType, software, is_dumped, dump_registers-is_dumped}
use bsprakt_os.Interrupts.{from_user, exit_running_thread, fault_interrupt_handler, refuse_syscall}

served : (o : Outcome Kernel) → (done o >>= λ r. verify (not (is_error r.0)) >> ok r.1) ≡ o
served (ok k) = refl
served panic = refl
served out_of_fuel = refl
served undefined = refl

pub exit_running_thread-exit :
    (host : Host) (k : Kernel) → exit_running_thread host k ≡ syscall_exit_thread k
unfolding exit_running_thread dispatch_syscall
exit_running_thread-exit host k = served (syscall_exit_thread k)

-- What a handler does after its dump.
dumped :
    (a b : Bool) (o : Outcome Kernel)
    → (verify a >> (if b then o else panic)) ≡ (if a && b then o else panic)
dumped true b o = refl
dumped false b o = refl

-- A software interrupt that is not served ends the running thread too.
pub refuse-exit :
    (host : Host) (k : Kernel)
    → refuse_syscall host k
      ≡ (if is_dumped software k && from_user k then syscall_exit_thread k else panic)
unfolding refuse_syscall
refuse-exit host k =
    rw (dump_registers-is_dumped software k, exit_running_thread-exit host k)
      (ap (λ o. verify (is_dumped software k) >> o) (swapped (from_user k))
        ∙ dumped (is_dumped software k) (from_user k) (syscall_exit_thread k))
  where
    swapped :
        (b : Bool)
        → (if not b then panic else syscall_exit_thread k)
          ≡ (if b then syscall_exit_thread k else panic)
    swapped true = refl
    swapped false = refl

-- A reset, an undefined instruction, a prefetch abort or a data abort of user code ends the running
-- thread as `sys$exit_thread` does, if the dump before it has a name for everything: the fault status
-- of an abort (a prefetch status without bit 10 other than 0, 4 and 10, a data status other than 0
-- and 10) and the mode in every status register. In all other cases the kernel panics.
pub faults-exit :
    (host : Host) (type : InterruptType) (k : Kernel)
    → fault_interrupt_handler host type k
      ≡ (if is_dumped type k && from_user k then syscall_exit_thread k else panic)
unfolding fault_interrupt_handler
faults-exit host type k =
    rw (dump_registers-is_dumped type k, exit_running_thread-exit host k)
      (dumped (is_dumped type k) (from_user k) (syscall_exit_thread k))
