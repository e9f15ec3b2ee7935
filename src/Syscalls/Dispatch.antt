-- ===== src/Syscalls/Dispatch.antt =====
-- kernel/syscall_impl.c: which numbers are system calls, and the calls that are refused.
use bsprakt_os.Base.{
  ℕ, ◌<◌, ◌≡◌, refl, Bool, true, false, not, ◌||◌, ◌==◌, ltb, if◌then◌else◌, arith, Outcome, ok,
}
use bsprakt_os.Timer.Errors.{Status, k_einval, is_error}
use bsprakt_os.Mmu.Layout.{stack_size}
use bsprakt_os.Kernel.{Kernel}
use bsprakt_os.Syscalls.{
  Host, dispatch_syscall, is_valid_syscall_no, done, set_r0, error_word, syscall_create_process,
  syscall_create_thread, syscall_read_character, syscall_output_character, syscall_stall_thread,
  syscall_exit_thread, syscall_get_time, syscall_get_thread_id,
}

done-status :
    (o : Outcome Kernel) (s : Status) (k : Kernel) → done o ≡ ok (s, k) → is_error s ≡ false
done-status (ok k) s k' e = ground (arith, e)
done-status Outcome.panic s k' e = cc
done-status Outcome.out_of_fuel s k' e = cc
done-status Outcome.undefined s k' e = cc

module _ (s : Status) (k' : Kernel) where
  Ends : Outcome (Status × Kernel) → Bool → Type 0
  Ends o valid = o ≡ ok (s, k') → is_error s ≡ not valid

  -- One comparison of the switch.
  case-Ends :
      (b : Bool) (o : Outcome Kernel) (rest : Outcome (Status × Kernel)) (valid : Bool)
      → Ends rest valid
      → Ends (if b then done o else rest) (b || valid)
  unfolding Ends
  case-Ends true o rest valid r e = done-status o s k' e
  case-Ends false o rest valid r e = r e

  last-Ends :
      (b : Bool) (o : Outcome Kernel) (k : Kernel) → Ends (if b then done o else ok (k_einval, k)) b
  unfolding Ends
  last-Ends true o k e = done-status o s k' e
  last-Ends false o k e = ground (arith, e)

-- Whenever `dispatch_syscall` returns, it reports an error exactly for the numbers that are no
-- system calls.
pub dispatch_syscall-is_error :
    (host : Host) (n : ℕ) (k k' : Kernel) (s : Status)
    → dispatch_syscall host n k ≡ ok (s, k')
    → is_error s ≡ not (is_valid_syscall_no n)
unfolding dispatch_syscall is_valid_syscall_no Ends
dispatch_syscall-is_error host n k k' s =
    let r1 = last-Ends s k' (n == 8) (syscall_get_thread_id k) k in
    let r2 = case-Ends s k' (n == 7) (syscall_get_time host.timing k) _ _ r1 in
    let r3 = case-Ends s k' (n == 6) (syscall_exit_thread k) _ _ r2 in
    let r4 = case-Ends s k' (n == 5) (syscall_stall_thread host.timing k) _ _ r3 in
    let r5 = case-Ends s k' (n == 4) (syscall_create_thread host.exit_thread k) _ _ r4 in
    let r6 = case-Ends s k' (n == 3) (syscall_create_process host.exit_thread k) _ _ r5 in
    let r7 = case-Ends s k' (n == 2) (syscall_output_character host.send_rounds k) _ _ r6 in
    let r8 = case-Ends s k' (n == 1) (syscall_read_character k) _ _ r7 in r8

-- A number that is no system call changes nothing.
pub dispatch_syscall-unknown :
    (host : Host) (n : ℕ) (k : Kernel)
    → is_valid_syscall_no n ≡ false
    → dispatch_syscall host n k ≡ ok (k_einval, k)
unfolding dispatch_syscall is_valid_syscall_no
dispatch_syscall-unknown host n k e = ground (arith, e)

-- Both creations refuse arguments that do not fit a stack: the caller gets the error K_EINVAL, and
-- nothing else changes.
pub creations-einval :
    (exit_thread : ℕ) (k : Kernel)
    → stack_size < k.frame.general 2
    → (syscall_create_process exit_thread k ≡ ok (set_r0 (error_word k_einval) k))
      × (syscall_create_thread exit_thread k ≡ ok (set_r0 (error_word k_einval) k))
unfolding syscall_create_process syscall_create_thread
creations-einval exit_thread k l =
    let e : ltb stack_size (k.frame.general 2) ≡ true = ground (arith, l) in (rw e refl, rw e refl)
