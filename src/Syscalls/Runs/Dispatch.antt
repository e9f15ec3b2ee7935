-- ===== src/Syscalls/Runs/Dispatch.antt =====
-- kernel/syscall_impl.c: every system call keeps what holds between two entries of the kernel.
use bsprakt_os.Base.{ℕ, ◌%◌, ◌≡◌, inl, inr, refl, subst, ◌∙◌, arith, ok, Outcome, bind-ok, ◌==◌, ap}
use bsprakt_os.IntrusiveList.Store.{Lists}
use bsprakt_os.Timer.{systimer_value}
use bsprakt_os.Timer.Errors.{Status}
use bsprakt_os.Pl001.{pl001_send}
use bsprakt_os.Kernel.{Kernel}
use bsprakt_os.Scheduler.{scheduler_get_running_thread}
use bsprakt_os.Syscalls.{
  Timing, Host, dispatch_syscall, done, syscall_output_character, syscall_get_time,
  syscall_get_thread_id, syscall_read_character_no, syscall_output_character_no,
  syscall_create_process_no, syscall_create_thread_no, syscall_stall_thread_no,
  syscall_exit_thread_no, syscall_get_time_no, syscall_get_thread_id_no,
}
use bsprakt_os.Syscalls.Creations.{IsGiven}
use bsprakt_os.Syscalls.Runs.{IsUser, IsSame, IsCreation}
use bsprakt_os.Syscalls.Runs.System.{IsSystem, ok_injective, branches, IsSystem-same}
use bsprakt_os.Syscalls.Runs.Calls.{create_thread-IsSystem, create_process-IsSystem, exit-IsSystem}
use bsprakt_os.Syscalls.Runs.Waits.{read_character-IsSystem}
use bsprakt_os.Syscalls.Runs.Stalls.{stall_thread-IsSystem}

-- The calls that leave the scheduler's own state alone.
output_character-IsSame :
    (fuel : ℕ) (k k' : Kernel) → syscall_output_character fuel k ≡ ok k' → IsSame k k'
unfolding syscall_output_character
output_character-IsSame fuel k k' e =
    let (u, _, f) = bind-ok (pl001_send fuel (k.frame.general 0 % 256) k.uart) e in
    subst (IsSame k) (ok_injective f) (record { nodes = refl; blocks = refl; slots = refl })

get_time-IsSame :
    (timing : Timing) (k k' : Kernel) → syscall_get_time timing k ≡ ok k' → IsSame k k'
unfolding syscall_get_time
get_time-IsSame timing k k' e =
    let (ms, _, f) = bind-ok (timing.hertz_to_milliseconds (systimer_value k.timer).0) e in
    subst (IsSame k) (ok_injective f) (record { nodes = refl; blocks = refl; slots = refl })

get_thread_id-IsSame : (k k' : Kernel) → syscall_get_thread_id k ≡ ok k' → IsSame k k'
unfolding syscall_get_thread_id
get_thread_id-IsSame k k' e =
    let (tid, _, f) = bind-ok (scheduler_get_running_thread k) e in
    subst (IsSame k) (ok_injective f) (record { nodes = refl; blocks = refl; slots = refl })

-- A call that is done has come to its kernel.
done-ok :
    {status : Status} {k' : Kernel} (o : Outcome Kernel) → done o ≡ ok (status, k') → o ≡ ok k'
done-ok o e = let (k, f, g) = bind-ok o e in f ∙ ap (λ r. ok r.1) (ok_injective g)

module _ (host : Host) (me : ℕ) (k k' : Kernel) (l : Lists) (w : IsSystem k l)
    (u : IsUser k me) where
  by_same : IsSame k k' → (l' : Lists) × IsSystem k' l'
  by_same s = (l, IsSystem-same k k' l w s)

  -- A system call that returns keeps the invariant.
  pub call-IsSystem :
      (syscall_no : ℕ) (status : Status)
      → (IsCreation syscall_no → IsGiven (k.frame.general 1) (k.frame.general 2))
      → dispatch_syscall host syscall_no k ≡ ok (status, k')
      → (l' : Lists) × IsSystem k' l'
  unfolding dispatch_syscall
  call-IsSystem syscall_no status g e =
      elim (branches (syscall_no == syscall_read_character_no) e) [
        | inl (a, _) ↦ read_character-IsSystem me k k' l w u (done-ok _ a)
        | inr (a, _) ↦ elim (branches (syscall_no == syscall_output_character_no) a) [
          | inl (a, _) ↦ by_same (output_character-IsSame host.send_rounds k k' (done-ok _ a))
          | inr (a, _) ↦ elim (branches (syscall_no == syscall_create_process_no) a) [
            | inl (a, b) ↦
                create_process-IsSystem host.exit_thread me k k' l w u (g (inl (ground (arith, b))))
                  (done-ok _ a)
            | inr (a, _) ↦ elim (branches (syscall_no == syscall_create_thread_no) a) [
              | inl (a, b) ↦
                  create_thread-IsSystem host.exit_thread me k k' l w u
                    (g (inr (ground (arith, b)))) (done-ok _ a)
              | inr (a, _) ↦ elim (branches (syscall_no == syscall_stall_thread_no) a) [
                | inl (a, _) ↦ stall_thread-IsSystem host.timing me k k' l w u (done-ok _ a)
                | inr (a, _) ↦ elim (branches (syscall_no == syscall_exit_thread_no) a) [
                  | inl (a, _) ↦ exit-IsSystem me k k' l w u (done-ok _ a)
                  | inr (a, _) ↦ elim (branches (syscall_no == syscall_get_time_no) a) [
                    | inl (a, _) ↦ by_same (get_time-IsSame host.timing k k' (done-ok _ a))
                    | inr (a, _) ↦ elim (branches (syscall_no == syscall_get_thread_id_no) a) [
                      | inl (a, _) ↦ by_same (get_thread_id-IsSame k k' (done-ok _ a))
                      | inr (a, _) ↦
                          (l, subst (λ k. IsSystem k l) (ap (λ r. r.1) (ok_injective a)) w)
                    ]
                  ]
                ]
              ]
            ]
          ]
        ]
      ]
