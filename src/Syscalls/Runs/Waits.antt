-- ===== src/Syscalls/Runs/Waits.antt =====
-- kernel/scheduler.c and kernel/syscall_impl.c: threads that begin to wait and threads that are woken
-- keep what holds between two entries of the kernel.
use bsprakt_os.Base.{
  ℕ, ◌<◌, ◌≤◌, ◌≡◌, inl, inr, refl, sym, ap, subst, ◌∙◌, true, List, [], ◌∷◌, ◌++◌, arith, ◌∈◌,
  update, has, has-append, Bool-cases, erase, mem-of-mem-erase, ℕ_discrete, ok, bind-ok,
}
use bsprakt_os.IntrusiveList.{Ptr, k_is_list_empty}
use bsprakt_os.IntrusiveList.Ring.Insert.{mem-inserted}
use bsprakt_os.IntrusiveList.Store.{Lists}
use bsprakt_os.Kernel.{
  Kernel, ready_list, stall_waiting_list, input_waiting_list, running_list, finished_list,
  scheduler_node, container_of,
}
use bsprakt_os.Scheduler.{
  forced, set_result, scheduler_stall_cmp, scheduler_get_running_thread,
  scheduler_exists_input_waiting_thread, scheduler_unblock_first_input_waiting_thread,
  scheduler_unblock_overdue_waiting_threads, scheduler_ignore_thread_until_character_input,
}
use bsprakt_os.Scheduler.RoundRobin.{scheduler_round_robin}
use bsprakt_os.Scheduler.Lists.{moved, empty_at}
use bsprakt_os.Scheduler.Waiting.{
  IsHead-input, advanced, unblock_first-advanced, ignore_until_input-moved,
}
use bsprakt_os.Scheduler.Overdue.{awake, scheduler_unblock_overdue_waiting_threads-Unblocked}
use bsprakt_os.Scheduler.Stalls.{stalled}
use bsprakt_os.Syscalls.{syscall_read_character, reset_timer}
use bsprakt_os.Syscalls.Runs.{IsUser}
use bsprakt_os.Syscalls.Runs.System.{IsSystem, IsUser-running, ok_injective}
use bsprakt_os.Syscalls.Runs.Rounds.{forced-IsSystem}
use bsprakt_os.Syscalls.Runs.Moves.{same_blocks, Within, IsSystem-moves}

Within-moved :
    (l : Lists) (from to n : Ptr)
    → from < running_list
    → to < running_list
    → n ∈ l from
    → Within l (moved from to n l)
Within-moved l from to n hf ht i = (origin, λ p h. ground arith)
  where
    origin :
        (p m : Ptr)
        → p ≤ finished_list
        → m ∈ moved from to n l p
        → (q : Ptr) × (q ≤ finished_list) × (m ∈ l q)
    origin p m h j = elim (ℕ_discrete p to) [
      | yes a ↦ elim (ℕ_discrete m n) [
        | yes b ↦ (from, omega arith, subst (λ m. m ∈ l from) (sym b) i)
        | no b ↦ (to, omega arith, ground (arith, a, b, j, has-append m (l to) (n ∷ [])))
      ]
      | no a ↦ elim (ℕ_discrete p from) [
        | yes b ↦ (from, omega arith, mem-of-mem-erase m n (l from) (ground (arith, a, b, j)))
        | no b ↦ (p, h, ground (arith, a, b, j))
      ]
    ]

pub Within-stalled :
    (k : Kernel) (l : Lists) (tid : ℕ)
    → scheduler_node tid ∈ l ready_list
    → Within l (stalled k tid l)
Within-stalled k l tid i = (origin, λ p h. ground arith)
  where
    origin :
        (p m : Ptr)
        → p ≤ finished_list
        → m ∈ stalled k tid l p
        → (q : Ptr) × (q ≤ finished_list) × (m ∈ l q)
    origin p m h j = elim (ℕ_discrete p stall_waiting_list) [
      | yes a ↦
          let c =
            mem-inserted (scheduler_stall_cmp k.blocks) m (scheduler_node tid)
              (l stall_waiting_list) in
          elim (ℕ_discrete m (scheduler_node tid)) [
            | yes b ↦ (ready_list, omega arith, subst (λ m. m ∈ l ready_list) (sym b) i)
            | no b ↦ (stall_waiting_list, omega arith, ground (arith, a, b, c, j))
          ]
      | no a ↦ elim (ℕ_discrete p ready_list) [
        | yes b ↦ (
          ready_list,
          omega arith,
          mem-of-mem-erase m (scheduler_node tid) (l ready_list) (ground (arith, a, b, j)),
        )
        | no b ↦ (p, h, ground (arith, a, b, j))
      ]
    ]

Within-awake :
    (l : Lists) (woken rest : List Ptr)
    → l stall_waiting_list ≡ woken ++ rest
    → Within l (awake woken rest l)
Within-awake l woken rest e = (origin, λ p h. ground arith)
  where
    slept : (m : Ptr) → m ∈ woken ++ rest → m ∈ l stall_waiting_list
    slept m i = subst (λ xs. m ∈ xs) (sym e) i

    origin :
        (p m : Ptr)
        → p ≤ finished_list
        → m ∈ awake woken rest l p
        → (q : Ptr) × (q ≤ finished_list) × (m ∈ l q)
    origin p m h j = elim (ℕ_discrete p ready_list) [
      | yes a ↦ elim (Bool-cases (has m woken)) [
        | inl b ↦
            (stall_waiting_list, omega arith, slept m (ground (arith, b, has-append m woken rest)))
        | inr b ↦
            (ready_list, omega arith, ground (arith, a, b, j, has-append m (l ready_list) woken))
      ]
      | no a ↦ elim (ℕ_discrete p stall_waiting_list) [
        | yes b ↦ (
          stall_waiting_list,
          omega arith,
          slept m (ground (arith, a, b, j, has-append m woken rest)),
        )
        | no b ↦ (p, h, ground (arith, a, b, j))
      ]
    ]

-- Waking the overdue threads keeps the invariant.
pub overdue-IsSystem :
    (k k' : Kernel) (l : Lists)
    → IsSystem k l
    → scheduler_unblock_overdue_waiting_threads k ≡ ok k'
    → (l' : Lists) × IsSystem k' l'
overdue-IsSystem k k' l w e =
    let (k1, f, u) = scheduler_unblock_overdue_waiting_threads-Unblocked k l w.kernel.store in
    let l' = awake u.woken u.rest l in
    (
      l',
      subst (λ k. IsSystem k l') (ok_injective (sym f ∙ e))
          (IsSystem-moves k k1 l l' w u.lists (same_blocks k k1 u.blocks u.slots)
            (Within-awake l u.woken u.rest u.split)),
    )

-- So does a character for the thread that has waited longest.
pub input-IsSystem :
    (ch : ℕ) (k k' : Kernel) (l : Lists)
    → IsSystem k l
    → scheduler_exists_input_waiting_thread k ≡ ok true
    → scheduler_unblock_first_input_waiting_thread ch k ≡ ok k'
    → (l' : Lists) × IsSystem k' l'
unfolding scheduler_exists_input_waiting_thread
input-IsSystem ch k k' l w x e = cases (l input_waiting_list) refl
  where
    cases : (xs : List Ptr) → l input_waiting_list ≡ xs → (l' : Lists) × IsSystem k' l'
    cases [] a =
        let (b, c, d) = bind-ok (k_is_list_empty k.nodes input_waiting_list) x in
        let f = empty_at w.kernel.store input_waiting_list IsHead-input [] a in
        absurd (cc (c, d, f))
    cases (n ∷ rest) a =
        let (g, f, s) = unblock_first-advanced k l n rest ch w.kernel.store a in
        let k1 = set_result (container_of n) ch (record k { nodes = g }) in
        let l' = advanced input_waiting_list ready_list n rest l in
        (
          l',
          subst (λ k. IsSystem k l') (ok_injective (sym f ∙ e))
              (IsSystem-moves k k1 l l' w s
                (record {
                  tids = λ t. ground arith;
                  pids = λ t. ground arith;
                  pid_slots = λ t. ground arith;
                  slots = refl;
                })
                (Within-advanced n rest a)),
        )
      where
        Within-advanced :
            (n : Ptr) (rest : List Ptr)
            → l input_waiting_list ≡ n ∷ rest
            → Within l (advanced input_waiting_list ready_list n rest l)
        Within-advanced n rest a =
            let i : n ∈ l input_waiting_list = subst (λ xs. n ∈ xs) (sym a) (ground arith) in
            let f : erase n (l input_waiting_list) ≡ rest = ap (erase n) a ∙ ground arith in
            subst
              (λ xs.
                Within l
                  (update (update l input_waiting_list xs) ready_list (l ready_list ++ n ∷ [])))
              f (Within-moved l input_waiting_list ready_list n (omega arith) (omega arith) i)

-- So does `sys$read_character`, after which the caller waits.
pub read_character-IsSystem :
    (me : ℕ) (k k' : Kernel) (l : Lists)
    → IsSystem k l
    → IsUser k me
    → syscall_read_character k ≡ ok k'
    → (l' : Lists) × IsSystem k' l'
unfolding syscall_read_character
read_character-IsSystem me k k' l w u e =
    let r = IsUser-running k l me w u in
    let (tid, a, e1) = bind-ok (scheduler_get_running_thread k) e in
    let (k1, b, e2) = bind-ok (scheduler_round_robin forced k) e1 in
    let t : tid ≡ me = cc (a, u.runs) in
    let (l1, w1, i) = forced-IsSystem k k1 l me w u.user r b in
    let (g, f, s) = ignore_until_input-moved (reset_timer k1) l1 me w1.kernel.store i in
    let k2 = record (reset_timer k1) { nodes = g } in
    let l2 = moved ready_list input_waiting_list (scheduler_node me) l1 in
    let e3 =
      subst (λ t. scheduler_ignore_thread_until_character_input t (reset_timer k1) ≡ ok k') t e2 in
    (
      l2,
      subst (λ k. IsSystem k l2) (ok_injective (sym f ∙ e3))
          (IsSystem-moves k1 k2 l1 l2 w1 s (same_blocks k1 k2 refl refl) (
            Within-moved l1 ready_list input_waiting_list (scheduler_node me) (omega arith)
              (omega arith) i)),
    )
