-- ===== src/Interrupts/Runs/Handlers.antt =====
-- kernel/interrupt.c: every handler keeps what holds between two entries of the kernel.
use bsprakt_os.Base.{
  ℕ, zero, suc, ◌≡◌, inl, inr, refl, sym, ap, subst, ◌∙◌, Bool, true, false, not, ◌&&◌, ◌==◌, arith,
  if◌then◌else◌, ok, panic, ◌>>=◌, bind-ok,
}
use bsprakt_os.Base.Words.{sub32, bit}
use bsprakt_os.IntrusiveList.Store.{Lists}
use bsprakt_os.Timer.{stalltimer_pending, systimer_pending}
use bsprakt_os.Timer.Errors.{is_error}
use bsprakt_os.Kernel.{Kernel}
use bsprakt_os.Pl001.{pl001_receive, pl001_has_unread_character, pl001_read}
use bsprakt_os.Scheduler.{
  normal, scheduler_unblock_overdue_waiting_threads, scheduler_exists_input_waiting_thread,
  scheduler_unblock_first_input_waiting_thread,
}
use bsprakt_os.Scheduler.RoundRobin.{scheduler_round_robin}
use bsprakt_os.Syscalls.{
  Host, dispatch_syscall, is_valid_syscall, is_valid_syscall_no, syscall_exit_thread, reset_timer,
}
use bsprakt_os.Syscalls.Creations.{IsGiven}
use bsprakt_os.Syscalls.Dispatch.{dispatch_syscall-is_error}
use bsprakt_os.Syscalls.Runs.{IsSame, IsCreation}
use bsprakt_os.Syscalls.Runs.System.{IsSystem, IsSystem-same, ok_injective, branches}
use bsprakt_os.Syscalls.Runs.Rounds.{round-IsSystem}
use bsprakt_os.Syscalls.Runs.Calls.{exit-IsSystem}
use bsprakt_os.Syscalls.Runs.Waits.{input-IsSystem, overdue-IsSystem}
use bsprakt_os.Syscalls.Runs.Dispatch.{call-IsSystem}
use bsprakt_os.Interrupts.{
  from_user, fault_interrupt_handler, software_interrupt_handler, irq_interrupt_handler, hand_out,
  receive_pending,
}
use bsprakt_os.RegisterDump.{InterruptType, software, is_dumped}
use bsprakt_os.Interrupts.Aborts.{faults-exit, refuse-exit}
use bsprakt_os.Interrupts.Runs.{IsFromThread, call_of}

-- The end of the running user thread, or a panic.
exit_or_panic-IsSystem :
    (b : Bool) (k k' : Kernel) (l : Lists)
    → IsSystem k l
    → IsFromThread k
    → (if b && from_user k then syscall_exit_thread k else panic) ≡ ok k'
    → (l' : Lists) × IsSystem k' l'
exit_or_panic-IsSystem b k k' l w u e = elim (branches (b && from_user k) e) [
  | inl (a, c) ↦ let (me, v) = u (right b c) in exit-IsSystem me k k' l w v a
  | inr (a, c) ↦ absurd (cc a)
]
  where
    right : (b : Bool) → (b && from_user k) ≡ true → from_user k ≡ true
    right true c = c
    right false c = cc c

pub fault-IsSystem :
    (host : Host) (type : InterruptType) (k k' : Kernel) (l : Lists)
    → IsSystem k l
    → IsFromThread k
    → fault_interrupt_handler host type k ≡ ok k'
    → (l' : Lists) × IsSystem k' l'
fault-IsSystem host type k k' l w u e =
    exit_or_panic-IsSystem (is_dumped type k) k k' l w u (sym (faults-exit host type k) ∙ e)

valid_number :
    (k : Kernel)
    → (from_user k && is_valid_syscall k.memory (sub32 k.frame.lr 4)) ≡ true
    → (from_user k ≡ true) × (is_valid_syscall_no (call_of k) ≡ true)
unfolding is_valid_syscall
valid_number k e = (ground (arith, e), ground (arith, e))

pub software-IsSystem :
    (host : Host) (k k' : Kernel) (l : Lists)
    → IsSystem k l
    → IsFromThread k
    → (IsCreation (call_of k) → IsGiven (k.frame.general 1) (k.frame.general 2))
    → software_interrupt_handler host k ≡ ok k'
    → (l' : Lists) × IsSystem k' l'
unfolding software_interrupt_handler
software-IsSystem host k k' l w u g e =
    elim (branches (from_user k && is_valid_syscall k.memory (sub32 k.frame.lr 4)) e) [
      | inl (a, b) ↦
          let (v, n) = valid_number k b in
          let (me, x) = u v in
          let (r, c, d) = bind-ok (dispatch_syscall host (call_of k) k) a in
          let f : is_error r.0 ≡ false =
            dispatch_syscall-is_error host (call_of k) k r.1 r.0 c ∙ ap not n in
          let (l', w') = call-IsSystem host me k r.1 l w x (call_of k) r.0 g c in
          elim (branches (not (is_error r.0)) d) [
            | inl (p, q) ↦ (l', subst (λ k. IsSystem k l') (ok_injective p) w')
            | inr (p, q) ↦ absurd (ground (arith, f, q))
          ]
      | inr (a, b) ↦
          exit_or_panic-IsSystem (is_dumped software k) k k' l w u (sym (refuse-exit host k) ∙ a)
    ]

-- Characters are handed out in rounds.
hand_out-IsSystem :
    (fuel : ℕ) (k k' : Kernel) (l : Lists)
    → IsSystem k l
    → hand_out fuel k ≡ ok k'
    → (l' : Lists) × IsSystem k' l'
unfolding hand_out scheduler_exists_input_waiting_thread
hand_out-IsSystem zero k k' l w e = absurd (cc e)
hand_out-IsSystem (suc fuel) k k' l w e =
    let (waiting, a, e1) = bind-ok (scheduler_exists_input_waiting_thread k) e in
    elim (branches (waiting && pl001_has_unread_character k.uart) e1) [
      | inl (e2, b) ↦
          let (r, c, e3) = bind-ok (pl001_read k.uart k.memory) e2 in
          let k1 = record k { uart = r.1; memory = r.2 } in
          let (k2, d, e4) = bind-ok (scheduler_unblock_first_input_waiting_thread r.0 k1) e3 in
          let t : waiting ≡ true = ground (arith, b) in
          let w1 = IsSystem-same k k1 l w (record { nodes = refl; blocks = refl; slots = refl }) in
          let (l2, w2) = input-IsSystem r.0 k1 k2 l w1 (a ∙ ap ok t) d in
          hand_out-IsSystem fuel k2 k' l2 w2 e4
      | inr (e2, b) ↦ (l, subst (λ k. IsSystem k l) (ok_injective e2) w)
    ]

receive_pending-IsSame : (k k' : Kernel) → receive_pending k ≡ ok k' → IsSame k k'
unfolding receive_pending
receive_pending-IsSame k k' e = elim (branches (bit k.irq_pending_2 25 == 1) e) [
  | inl (a, b) ↦
      let (r, c, d) = bind-ok (pl001_receive k.uart k.memory) a in
      subst (IsSame k) (ok_injective d) (record { nodes = refl; blocks = refl; slots = refl })
  | inr (a, b) ↦
      subst (IsSame k) (ok_injective a) (record { nodes = refl; blocks = refl; slots = refl })
]

overdue_if :
    (b : Bool) (k k' : Kernel) (l : Lists)
    → IsSystem k l
    → (if b then scheduler_unblock_overdue_waiting_threads k else ok k) ≡ ok k'
    → (l' : Lists) × IsSystem k' l'
overdue_if true k k' l w e = overdue-IsSystem k k' l w e
overdue_if false k k' l w e = (l, subst (λ k. IsSystem k l) (ok_injective e) w)

round_if :
    (b : Bool) (k k' : Kernel) (l : Lists)
    → IsSystem k l
    → (if b then scheduler_round_robin normal k >>= (λ k'. ok (reset_timer k')) else ok k) ≡ ok k'
    → (l' : Lists) × IsSystem k' l'
round_if true k k' l w e =
    let (k1, a, d) = bind-ok (scheduler_round_robin normal k) e in
    let (l1, w1) = round-IsSystem k k1 l w a in
    (
      l1,
      subst (λ k. IsSystem k l1) (ok_injective d)
          (IsSystem-same k1 (reset_timer k1) l1 w1
            (record { nodes = refl; blocks = refl; slots = refl })),
    )
round_if false k k' l w e = (l, subst (λ k. IsSystem k l) (ok_injective e) w)

pub irq-IsSystem :
    (fuel : ℕ) (k k' : Kernel) (l : Lists)
    → IsSystem k l
    → irq_interrupt_handler fuel k ≡ ok k'
    → (l' : Lists) × IsSystem k' l'
unfolding irq_interrupt_handler
irq-IsSystem fuel k k' l w e =
    let (k1, a, e1) =
      bind-ok
        (if stalltimer_pending k.timer then scheduler_unblock_overdue_waiting_threads k else ok k)
        e in
    let (l1, w1) = overdue_if (stalltimer_pending k.timer) k k1 l w a in
    let (k2, b, e2) =
      bind-ok
        (if systimer_pending k1.timer
          then scheduler_round_robin normal k1 >>= (λ k'. ok (reset_timer k'))
          else ok k1)
        e1 in
    let (l2, w2) = round_if (systimer_pending k1.timer) k1 k2 l1 w1 b in
    let (k3, c, e3) = bind-ok (receive_pending k2) e2 in
    hand_out-IsSystem fuel k3 k' l2 (IsSystem-same k2 k3 l2 w2 (receive_pending-IsSame k2 k3 c)) e3
