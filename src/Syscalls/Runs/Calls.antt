-- ===== src/Syscalls/Runs/Calls.antt =====
-- kernel/syscall_impl.c: creations and the end of a thread keep what holds between two entries of the
-- kernel.
use bsprakt_os.Base.{
  ℕ, ◌<◌, ◌≡◌, inl, inr, refl, sym, ap, subst, ◌∙◌, List, [], ◌∷◌, arith, ◌∈◌, ◌∉◌, ok, has-append,
  bind-ok, mem-of-mem-erase,
}
use bsprakt_os.IntrusiveList.{Ptr}
use bsprakt_os.IntrusiveList.Store.{Lists, InNone}
use bsprakt_os.Timer.Errors.{k_ebusy}
use bsprakt_os.Kernel.{
  Kernel, ready_list, running_list, finished_list, scheduler_node, addrspace_node, address_spaces,
  idle_thread_index, user_thread_count,
}
use bsprakt_os.Scheduler.{normal, scheduler_cleanup_thread}
use bsprakt_os.Scheduler.RoundRobin.{scheduler_round_robin}
use bsprakt_os.Scheduler.Threads.{created, ended, Created}
use bsprakt_os.Scheduler.Switch.{IsSingle}
use bsprakt_os.Scheduler.Rounds.{idle_node}
use bsprakt_os.Scheduler.Slots.State.{IsKernel, scheduler_cleanup_thread-IsKernel}
use bsprakt_os.Syscalls.{
  syscall_create_thread, syscall_create_process, syscall_exit_thread, reset_timer, set_r0,
  error_word,
}
use bsprakt_os.Syscalls.Creations.{
  IsGiven, syscall_create_thread-cases, syscall_create_process-cases,
}
use bsprakt_os.Syscalls.Runs.{IsUser}
use bsprakt_os.Syscalls.Runs.System.{
  IsSystem, ok_injective, IsSystem-same, IsUser-running, idle-InNone,
}
use bsprakt_os.Syscalls.Runs.Rounds.{round-IsSystem}

-- The idle thread is not created.
not_idle :
    (k : Kernel) (l : Lists) (tid : ℕ) (rest : List Ptr)
    → IsKernel k l
    → l finished_list ≡ scheduler_node tid ∷ rest
    → tid < user_thread_count
not_idle k l tid rest w e =
    let i : scheduler_node tid ∈ l finished_list =
      subst (λ q. scheduler_node tid ∈ q) (sym e) (ground arith) in
    omega (arith, w.placed.finished (scheduler_node tid) i)

idle-created :
    (l : Lists) (pid tid : ℕ) (rest : List Ptr)
    → l finished_list ≡ scheduler_node tid ∷ rest
    → tid < user_thread_count
    → InNone idle_node l
    → InNone idle_node (created pid tid rest l)
idle-created l pid tid rest e h o p =
    let f : idle_node ∉ scheduler_node tid ∷ rest =
      subst (λ q. idle_node ∉ q) e (o finished_list) in
    ground (
      arith,
      h,
      f,
      o p,
      o ready_list,
      o (address_spaces pid),
      has-append idle_node (l ready_list) (scheduler_node tid ∷ []),
    )

Created-IsSystem :
    (k k' : Kernel) (l : Lists) (exit_thread pid slot func args args_size tid : ℕ) (rest : List Ptr)
    → IsSystem k l
    → InNone idle_node l
    → l finished_list ≡ scheduler_node tid ∷ rest
    → Created k l exit_thread pid slot func args args_size tid rest k'
    → IsKernel k' (created pid tid rest l)
    → IsSystem k' (created pid tid rest l)
Created-IsSystem k k' l exit_thread pid slot func args args_size tid rest w o e c m =
    let h = not_idle k l tid rest w.kernel e in
    let same : created pid tid rest l running_list ≡ l running_list = ground arith in
    record {
      kernel = m;
      single = subst IsSingle (sym same) w.single;
      idle_number = ap (λ b. (b idle_thread_index).tid) c.block ∙ ground (arith, h, w.idle_number);
      idle_place = inl (idle-created l pid tid rest e h o);
    }

pub create_thread-IsSystem :
    (exit_thread me : ℕ) (k k' : Kernel) (l : Lists)
    → IsSystem k l
    → IsUser k me
    → IsGiven (k.frame.general 1) (k.frame.general 2)
    → syscall_create_thread exit_thread k ≡ ok k'
    → (l' : Lists) × IsSystem k' l'
create_thread-IsSystem exit_thread me k k' l w u g e =
    let r = IsUser-running k l me w u in
    let o = idle-InNone k l me w u.user r in
    elim (syscall_create_thread-cases exit_thread me k l w.kernel u.user r g) [
      | inl (f, _) ↦ (
        l,
        subst (λ k. IsSystem k l) (ok_injective (sym f ∙ e))
            (IsSystem-same k (set_r0 (error_word k_ebusy) k) l w
              (record { nodes = refl; blocks = refl; slots = refl })),
      )
      | inr (slot, tid, rest, k1, f, _, _, first, c, m) ↦
          let pid = (k.blocks me).pid in
          (
            created pid tid rest l,
            subst (λ k. IsSystem k (created pid tid rest l)) (ok_injective (sym f ∙ e))
                (Created-IsSystem k k1 l exit_thread pid slot (k.frame.general 0)
                  (k.frame.general 1) (k.frame.general 2) tid rest w o first c m),
          )
    ]

pub create_process-IsSystem :
    (exit_thread me : ℕ) (k k' : Kernel) (l : Lists)
    → IsSystem k l
    → IsUser k me
    → IsGiven (k.frame.general 1) (k.frame.general 2)
    → syscall_create_process exit_thread k ≡ ok k'
    → (l' : Lists) × IsSystem k' l'
create_process-IsSystem exit_thread me k k' l w u g e =
    let o = idle-InNone k l me w u.user (IsUser-running k l me w u) in
    elim (syscall_create_process-cases exit_thread k l w.kernel g) [
      | inl (f, _) ↦ (
        l,
        subst (λ k. IsSystem k l) (ok_injective (sym f ∙ e))
            (IsSystem-same k (set_r0 (error_word k_ebusy) k) l w
              (record { nodes = refl; blocks = refl; slots = refl })),
      )
      | inr (space, tid, rest, mem, k1, f, _, _, first, _, c, m) ↦
          let k0 = record k { memory = mem } in
          (
            created space tid rest l,
            subst (λ k. IsSystem k (created space tid rest l)) (ok_injective (sym f ∙ e))
                (Created-IsSystem k0 k1 l exit_thread space 0 (k.frame.general 0)
                  (k.frame.general 1) (k.frame.general 2) tid rest
                  (IsSystem-same k k0 l w (record { nodes = refl; blocks = refl; slots = refl })) o
                  first c m),
          )
    ]

idle-ended :
    (l : Lists) (pid tid : ℕ)
    → tid < user_thread_count
    → InNone idle_node l
    → InNone idle_node (ended pid tid l)
idle-ended l pid tid h o p = ground (
  arith,
  h,
  o p,
  o finished_list,
  mem-of-mem-erase idle_node (addrspace_node tid) (l (address_spaces pid)),
  o (address_spaces pid),
)

pub exit-IsSystem :
    (me : ℕ) (k k' : Kernel) (l : Lists)
    → IsSystem k l
    → IsUser k me
    → syscall_exit_thread k ≡ ok k'
    → (l' : Lists) × IsSystem k' l'
unfolding syscall_exit_thread
exit-IsSystem me k k' l w u e =
    let r = IsUser-running k l me w u in
    let o = idle-InNone k l me w u.user r in
    let (k1, f, m, _, b) = scheduler_cleanup_thread-IsKernel k l w.kernel me u.user r in
    let pid = (k.blocks me).pid in
    let (k2, a, c) = bind-ok (scheduler_cleanup_thread k) e in
    let (k3, d, q) = bind-ok (scheduler_round_robin normal k2) c in
    let w1 : IsSystem k1 (ended pid me l) = record {
      kernel = m;
      single = tt;
      idle_number = ap (λ b. (b idle_thread_index).tid) b ∙ w.idle_number;
      idle_place = inl (idle-ended l pid me u.user o);
    } in
    let (l3, w3) =
      round-IsSystem k2 k3 (ended pid me l)
        (subst (λ k. IsSystem k (ended pid me l)) (ok_injective (sym f ∙ a)) w1) d in
    (
      l3,
      subst (λ k. IsSystem k l3) (ok_injective q)
          (IsSystem-same k3 (reset_timer k3) l3 w3
            (record { nodes = refl; blocks = refl; slots = refl })),
    )
