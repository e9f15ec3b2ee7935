-- ===== src/Syscalls/Runs/Stalls.antt =====
-- kernel/scheduler.c and kernel/syscall_impl.c: a thread that begins to wait for the timer keeps what
-- holds between two entries of the kernel.
use bsprakt_os.Base.{
  ℕ, ◌≡◌, inl, inr, refl, sym, subst, ◌∙◌, List, [], ◌∷◌, arith, ◌∈◌, ◌==◌, Outcome, ok, bind-ok,
  ◌>>=◌, if◌then◌else◌,
}
use bsprakt_os.Base.Words.{add32}
use bsprakt_os.IntrusiveList.{Ptr, k_get_first_node}
use bsprakt_os.IntrusiveList.Store.{Lists}
use bsprakt_os.Timer.{systimer_value}
use bsprakt_os.Timer.Errors.{Status, is_error, k_einval}
use bsprakt_os.Kernel.{Kernel, ready_list, stall_waiting_list, scheduler_node}
use bsprakt_os.Scheduler.{
  forced, stall, set_tcb, scheduler_adjust_stall_timer, scheduler_get_running_thread,
  scheduler_unblock_overdue_waiting_threads, scheduler_ignore_thread_until_timer_match,
}
use bsprakt_os.Scheduler.RoundRobin.{scheduler_round_robin}
use bsprakt_os.Scheduler.Waiting.{stall-inserted, adjust-nil, adjust-cons}
use bsprakt_os.Scheduler.Stalls.{stalled}
use bsprakt_os.Syscalls.{Timing, syscall_stall_thread, reset_timer, set_r0, error_word}
use bsprakt_os.Syscalls.Runs.{IsUser, IsSame}
use bsprakt_os.Syscalls.Runs.System.{
  IsSystem, IsSystem-same, IsUser-running, ok_injective, branches,
}
use bsprakt_os.Syscalls.Runs.Rounds.{forced-IsSystem}
use bsprakt_os.Syscalls.Runs.Moves.{IsSameThreads, IsSystem-moves}
use bsprakt_os.Syscalls.Runs.Waits.{Within-stalled, overdue-IsSystem}

-- Setting the timer changes nothing of the scheduler's own state.
adjust-IsSame :
    (k : Kernel) (l : Lists) (r : Status × Kernel)
    → IsSystem k l
    → scheduler_adjust_stall_timer k ≡ ok r
    → IsSame k r.1
adjust-IsSame k l r w e = cases (l stall_waiting_list) refl
  where
    same : (t : Status × Kernel) → scheduler_adjust_stall_timer k ≡ ok t → t ≡ r
    same t f = cc (e, f)

    cases : (xs : List Ptr) → l stall_waiting_list ≡ xs → IsSame k r.1
    cases [] a =
        subst (λ t. IsSame k t.1) (same _ (adjust-nil k l w.kernel.store a))
          (record { nodes = refl; blocks = refl; slots = refl })
    cases (n ∷ rest) a =
        subst (λ t. IsSame k t.1) (same _ (adjust-cons k l n rest w.kernel.store a))
          (record { nodes = refl; blocks = refl; slots = refl })

-- The end of `scheduler_ignore_thread_until_timer_match` for a thread that is the first to wake.
abbrev adjusted : Kernel → Outcome Kernel
adjusted k = do
  r ← scheduler_adjust_stall_timer k
  if is_error r.0 then scheduler_unblock_overdue_waiting_threads r.1 else ok r.1

adjusted-IsSystem :
    (k k' : Kernel) (l : Lists) → IsSystem k l → adjusted k ≡ ok k' → (l' : Lists) × IsSystem k' l'
adjusted-IsSystem k k' l w e =
    let (r, a, e1) = bind-ok (scheduler_adjust_stall_timer k) e in
    let w' = IsSystem-same k r.1 l w (adjust-IsSame k l r w a) in
    elim (branches (is_error r.0) e1) [
      | inl (x, _) ↦ overdue-IsSystem r.1 k' l w' x
      | inr (x, _) ↦ (l, subst (λ k. IsSystem k l) (ok_injective x) w')
    ]

pub timer_match-IsSystem :
    (tid hz : ℕ) (k k' : Kernel) (l : Lists)
    → IsSystem k l
    → scheduler_node tid ∈ l ready_list
    → scheduler_ignore_thread_until_timer_match tid hz k ≡ ok k'
    → (l' : Lists) × IsSystem k' l'
unfolding scheduler_ignore_thread_until_timer_match
timer_match-IsSystem tid hz k k' l w i e =
    let k1 =
      set_tcb (record k { timer = (systimer_value k.timer).1 }) tid
        (record (k.blocks tid) { stall_until = add32 (systimer_value k.timer).0 hz }) in
    let (k2, a, e1) = bind-ok (stall tid k1) e in
    let (first, b, e2) = bind-ok (k_get_first_node k2.nodes stall_waiting_list) e1 in
    let (g, f, s) = stall-inserted k1 l tid w.kernel.store i in
    let l2 = stalled k1 tid l in
    let same : IsSameThreads k (record k1 { nodes = g }) = record {
      tids = λ t. ground arith;
      pids = λ t. ground arith;
      pid_slots = λ t. ground arith;
      slots = refl;
    } in
    let w2 : IsSystem k2 l2 =
      subst (λ k. IsSystem k l2) (ok_injective (sym f ∙ a))
        (IsSystem-moves k (record k1 { nodes = g }) l l2 w s same (Within-stalled k1 l tid i)) in
    elim (branches (scheduler_node tid == first) e2) [
      | inl (x, _) ↦ adjusted-IsSystem k2 k' l2 w2 x
      | inr (x, _) ↦ (l2, subst (λ k. IsSystem k l2) (ok_injective x) w2)
    ]

-- What `sys$stall_thread` does with the converted time.
abbrev converted : Kernel → ℕ → Status × ℕ → Outcome Kernel
converted k tid c =
    if is_error c.0
    then ok (set_r0 (error_word k_einval) k)
    else scheduler_ignore_thread_until_timer_match tid c.1 k

converted-IsSystem :
    (tid : ℕ) (c : Status × ℕ) (k k' : Kernel) (l : Lists)
    → IsSystem k l
    → scheduler_node tid ∈ l ready_list
    → converted k tid c ≡ ok k'
    → (l' : Lists) × IsSystem k' l'
converted-IsSystem tid c k k' l w i e = elim (branches (is_error c.0) e) [
  | inl (x, _) ↦ (
    l,
    subst (λ k. IsSystem k l) (ok_injective x)
        (IsSystem-same k (set_r0 (error_word k_einval) k) l w
          (record { nodes = refl; blocks = refl; slots = refl })),
  )
  | inr (x, _) ↦ timer_match-IsSystem tid c.1 k k' l w i x
]

-- `sys$stall_thread` keeps the invariant.
pub stall_thread-IsSystem :
    (timing : Timing) (me : ℕ) (k k' : Kernel) (l : Lists)
    → IsSystem k l
    → IsUser k me
    → syscall_stall_thread timing k ≡ ok k'
    → (l' : Lists) × IsSystem k' l'
unfolding syscall_stall_thread
stall_thread-IsSystem timing me k k' l w u e =
    let r = IsUser-running k l me w u in
    let (tid, a, e1) = bind-ok (scheduler_get_running_thread k) e in
    let (k1, b, e2) = bind-ok (scheduler_round_robin forced k) e1 in
    let t : tid ≡ me = cc (a, u.runs) in
    let (l1, w1, i) = forced-IsSystem k k1 l me w u.user r b in
    let k2 = reset_timer k1 in
    let w2 = IsSystem-same k1 k2 l1 w1 (record { nodes = refl; blocks = refl; slots = refl }) in
    elim (branches (k.frame.general 0 == 0) e2) [
      | inl (z, _) ↦ (l1, subst (λ k. IsSystem k l1) (ok_injective z) w2)
      | inr (z, _) ↦
          let (c, _, e3) = bind-ok (timing.milliseconds_to_hertz (k.frame.general 0)) z in
          converted-IsSystem tid c k2 k' l1 w2
            (subst (λ t. scheduler_node t ∈ l1 ready_list) (sym t) i) e3
    ]
