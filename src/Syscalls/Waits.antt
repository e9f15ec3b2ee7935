-- ===== src/Syscalls/Waits.antt =====
-- kernel/syscall_impl.c: the calls after which the thread waits.
use bsprakt_os.Base.{
  ℕ, ◌<◌, ◌≡◌, ◌≢◌, refl, true, false, List, [], ◌∷◌, ◌++◌, arith, ◌∈◌, ◌∉◌, ok, update, ◌==◌,
  erase, erase-append, append-nil, has, has-append, ◌>>◌, verify, subst, sym, ap, ◌∙◌, Bool-cases,
  inl, inr,
}
use bsprakt_os.IntrusiveList.{Ptr, Heap}
use bsprakt_os.IntrusiveList.Ring.Order.{ordered}
use bsprakt_os.IntrusiveList.Store.{Lists, IsStore, IsStore-pointwise}
use bsprakt_os.Kernel.{
  Kernel, ready_list, running_list, stall_waiting_list, input_waiting_list, scheduler_node,
  idle_thread_index,
}
use bsprakt_os.Timer.Errors.{Status, is_error, k_einval}
use bsprakt_os.Scheduler.{
  forced, scheduler_stall_cmp, scheduler_save_thread_context, scheduler_get_running_thread,
  scheduler_ignore_thread_until_character_input,
}
use bsprakt_os.Scheduler.RoundRobin.{scheduler_round_robin}
use bsprakt_os.Scheduler.Lists.{empty_at, first_at}
use bsprakt_os.Scheduler.Waiting.{ignore_until_input-moved}
use bsprakt_os.Scheduler.Switch.{Switched, kept, saved}
use bsprakt_os.Scheduler.Threads.{IsHead-running, container_of-scheduler_node}
use bsprakt_os.Scheduler.Integrity.{IsThreads}
use bsprakt_os.Scheduler.Rounds.{scheduler_round_robin-Switched}
use bsprakt_os.Syscalls.{
  Timing, syscall_read_character, syscall_stall_thread, reset_timer, set_r0, error_word,
}

pub get_running_thread-ok :
    (k : Kernel) (l : Lists) (tid : ℕ) (xs : List Ptr)
    → IsStore k.nodes l
    → l running_list ≡ scheduler_node tid ∷ xs
    → scheduler_get_running_thread k ≡ ok tid
unfolding scheduler_get_running_thread
get_running_thread-ok k l tid xs s e =
    rw
      (
        empty_at s running_list IsHead-running (scheduler_node tid ∷ xs) e,
        first_at s running_list IsHead-running (scheduler_node tid) xs e,
      )
      (ap ok (container_of-scheduler_node tid))

-- The lists after the running thread has gone to the end of another list and `n` runs.
abbrev pub waiting_in : Ptr → ℕ → Ptr → List Ptr → Lists → Lists
waiting_in list tid n rest l =
    update (update (update l ready_list rest) running_list (n ∷ [])) list
      (l list ++ scheduler_node tid ∷ [])

read-steps :
    (k k1 : Kernel) (tid : ℕ) (g : Heap)
    → scheduler_get_running_thread k ≡ ok tid
    → scheduler_round_robin forced k ≡ ok k1
    → scheduler_ignore_thread_until_character_input tid (reset_timer k1)
      ≡ ok (record (reset_timer k1) { nodes = g })
    → syscall_read_character k ≡ ok (record (reset_timer k1) { nodes = g })
unfolding syscall_read_character
read-steps k k1 tid g a b c = rw (a, b, c) refl

stall-steps :
    (k k1 : Kernel) (timing : Timing) (status : Status) (hz tid : ℕ)
    → scheduler_get_running_thread k ≡ ok tid
    → scheduler_round_robin forced k ≡ ok k1
    → k.frame.general 0 ≢ 0
    → timing.milliseconds_to_hertz (k.frame.general 0) ≡ ok (status, hz)
    → is_error status ≡ true
    → syscall_stall_thread timing k ≡ ok (set_r0 (error_word k_einval) (reset_timer k1))
unfolding syscall_stall_thread
stall-steps k k1 timing status hz tid a b ne c err =
    let z : (k.frame.general 0 == 0) ≡ false = ground (arith, ne) in rw (a, b, z, c, err) refl

pub kept-user :
    (tid : ℕ) → tid < idle_thread_index → kept (scheduler_node tid ∷ []) ≡ scheduler_node tid ∷ []
kept-user tid lt = ground (arith, container_of-scheduler_node tid)

module _ (k : Kernel) (l : Lists) (tid : ℕ) (n : Ptr) (rest : List Ptr) (s : IsStore k.nodes l)
    (t : IsThreads k.blocks l) (lt : tid < idle_thread_index)
    (e : l running_list ≡ scheduler_node tid ∷ []) (r : l ready_list ≡ n ∷ rest)
    (o : ordered (scheduler_stall_cmp k.blocks) (l stall_waiting_list) ≡ true) where
  pub switched :
      (k1 : Kernel) × Switched k l n rest (scheduler_node tid ∷ []) k1
      × (scheduler_round_robin forced k ≡ ok k1)
  switched =
      let (k1, w, b) =
        scheduler_round_robin-Switched forced k l n rest (scheduler_node tid ∷ []) s t r e refl in
      (k1, w, b ∙ ap (λ v. verify v >> ok k1) o)

  not_ready : scheduler_node tid ∉ n ∷ rest
  not_ready = elim (Bool-cases (has (scheduler_node tid) (n ∷ rest))) [
    | inl i ↦ absurd (
        ground (
          arith,
          s.apart ready_list running_list (scheduler_node tid)
              (subst (λ xs. scheduler_node tid ∈ xs) (sym r) i)
              (subst (λ xs. scheduler_node tid ∈ xs) (sym e) (ground arith)),
        ))
    | inr i ↦ i
  ]

  pub again : erase (scheduler_node tid) (rest ++ scheduler_node tid ∷ []) ≡ rest
  again = erase-append (scheduler_node tid) rest [] (ground (arith, not_ready)) ∙ append-nil rest

  -- `sys$read_character` with another thread ready: the caller waits at the end of the list of
  -- threads that wait for input, and the first ready thread runs. Stalled threads are in order.
  pub syscall_read_character-waits :
      (k1 : Kernel) × (g : Heap) × Switched k l n rest (scheduler_node tid ∷ []) k1
      × (syscall_read_character k ≡ ok (record (reset_timer k1) { nodes = g }))
      × IsStore g (waiting_in input_waiting_list tid n rest l)
  syscall_read_character-waits =
      let (k1, w, b) = switched in
      let u : IsStore k1.nodes
          (update (update l ready_list (rest ++ scheduler_node tid ∷ [])) running_list (n ∷ [])) =
        subst
          (λ xs. IsStore k1.nodes (update (update l ready_list (rest ++ xs)) running_list (n ∷ [])))
          (kept-user tid lt) w.lists in
      let (g, a, v) =
        ignore_until_input-moved (reset_timer k1)
          (update (update l ready_list (rest ++ scheduler_node tid ∷ [])) running_list (n ∷ [])) tid
          u (ground (arith, has-append (scheduler_node tid) rest (scheduler_node tid ∷ []))) in
      (
        k1,
        g,
        w,
        read-steps k k1 tid g (get_running_thread-ok k l tid [] s e) b a,
        IsStore-pointwise (λ p. ground (arith, again)) v,
      )

  saved_r0 : (saved k (scheduler_node tid ∷ []) tid).regs.general ≡ k.frame.general
  unfolding scheduler_save_thread_context
  saved_r0 = ground (arith, container_of-scheduler_node tid)

  -- `sys$stall_thread` of a user thread with another thread ready, the stalled threads in order and a
  -- time other than 0 that cannot be converted: the error code goes to register 0 of the thread that
  -- runs next, and the caller, which is ready again, keeps its own.
  pub syscall_stall_thread-einval :
      (timing : Timing) (status : Status) (hz : ℕ)
      → k.frame.general 0 ≢ 0
      → timing.milliseconds_to_hertz (k.frame.general 0) ≡ ok (status, hz)
      → is_error status ≡ true
      → (k1 : Kernel) × Switched k l n rest (scheduler_node tid ∷ []) k1
        × (syscall_stall_thread timing k ≡ ok (set_r0 (error_word k_einval) (reset_timer k1)))
        × ((k1.blocks tid).regs.general 0 ≡ k.frame.general 0)
  syscall_stall_thread-einval timing status hz ne c err =
      let (k1, w, b) = switched in
      (
        k1,
        w,
        stall-steps k k1 timing status hz tid (get_running_thread-ok k l tid [] s e) b ne c err,
        ap (λ f. (f tid).regs.general 0) w.blocks ∙ ap (λ f. f 0) saved_r0,
      )
