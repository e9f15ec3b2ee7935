-- ===== src/Ktiming/Stall.antt =====
-- kernel/syscall_impl.c and kernel/lib/ktiming.c: how long `sys$stall_thread` makes a thread wait.
use bsprakt_os.Base.{
  if◌then◌else◌, Bool, Bool-cases, inl, inr, ℕ, ◌*◌, ◌≡◌, ◌≢◌, ◌≤◌, ◌<◌, refl, true, false, List,
  [], ◌∷◌, ◌++◌, arith, ◌∈◌, ok, update, ◌==◌, has-append, subst, sym,
}
use bsprakt_os.Base.Words.{add32}
use bsprakt_os.IntrusiveList.{Ptr, Heap, k_get_first_node}
use bsprakt_os.IntrusiveList.Ring.Insert.{inserted}
use bsprakt_os.IntrusiveList.Ring.Order.{ordered}
use bsprakt_os.IntrusiveList.Store.{Lists, IsStore, IsStore-pointwise}
use bsprakt_os.Timer.{systimer_value}
use bsprakt_os.Kernel.{
  Kernel, ready_list, running_list, stall_waiting_list, scheduler_node, idle_thread_index,
}
use bsprakt_os.Scheduler.{
  forced, stall, set_tcb, scheduler_stall_cmp, scheduler_get_running_thread,
  scheduler_ignore_thread_until_timer_match,
}
use bsprakt_os.Scheduler.RoundRobin.{scheduler_round_robin}
use bsprakt_os.Scheduler.Lists.{first_at}
use bsprakt_os.Scheduler.Waiting.{IsHead-stall, stall-inserted}
use bsprakt_os.Scheduler.Switch.{Switched}
use bsprakt_os.Scheduler.Integrity.{IsThreads}
use bsprakt_os.Syscalls.{syscall_stall_thread, reset_timer}
use bsprakt_os.Syscalls.Waits.{get_running_thread-ok, switched, kept-user, again}
use bsprakt_os.Ktiming.{timing}
use bsprakt_os.Ktiming.Exact.{ktiming_milliseconds_to_hertz-exact}

-- The kernel once the counter is read and the time of waking noted.
abbrev noted : ℕ → ℕ → Kernel → Kernel
noted tid hz k =
    set_tcb (record k { timer = (systimer_value k.timer).1 }) tid
      (record (k.blocks tid) { stall_until = add32 (systimer_value k.timer).0 hz })

-- A thread behind the first stalled one only goes into the list.
behind-first :
    (tid hz : ℕ) (k : Kernel) (g : Heap) (x : Ptr)
    → stall tid (noted tid hz k) ≡ ok (record (noted tid hz k) { nodes = g })
    → k_get_first_node g stall_waiting_list ≡ ok x
    → (scheduler_node tid == x) ≡ false
    → scheduler_ignore_thread_until_timer_match tid hz k
      ≡ ok (record (noted tid hz k) { nodes = g })
unfolding scheduler_ignore_thread_until_timer_match
behind-first tid hz k g x a b c = rw (a, b, c) refl

stall-steps :
    (rounds tid : ℕ) (k k1 k2 : Kernel)
    → scheduler_get_running_thread k ≡ ok tid
    → scheduler_round_robin forced k ≡ ok k1
    → 0 < k.frame.general 0
    → k.frame.general 0 ≤ 2147
    → 0 < rounds
    → scheduler_ignore_thread_until_timer_match tid (k.frame.general 0 * 1000) (reset_timer k1)
      ≡ ok k2
    → syscall_stall_thread (timing rounds) k ≡ ok k2
unfolding syscall_stall_thread timing
stall-steps rounds tid k k1 k2 a b p h f c =
    let z : (k.frame.general 0 == 0) ≡ false = ground (arith, p) in
    rw (a, b, z, ktiming_milliseconds_to_hertz-exact rounds (k.frame.general 0) h f) c

either :
    (b : Bool) (x : Ptr) (xs ys : List Ptr)
    → (zs : List Ptr) × ((if b then x ∷ xs else x ∷ ys) ≡ x ∷ zs)
either true x xs ys = (xs, refl)
either false x xs ys = (ys, refl)

-- The first node of a list that is not empty stays the first.
inserted-first :
    (cmp : Ptr → Ptr → Bool) (n x : Ptr) (xs : List Ptr)
    → (ys : List Ptr) × (inserted cmp n (x ∷ xs) ≡ x ∷ ys)
inserted-first cmp n x xs = either (cmp x n) x _ _

-- The running thread is not a stalled one.
not-stalled :
    (k : Kernel) (l : Lists) (tid : ℕ) (x : Ptr) (xs : List Ptr)
    → IsStore k.nodes l
    → l running_list ≡ scheduler_node tid ∷ []
    → l stall_waiting_list ≡ x ∷ xs
    → (scheduler_node tid == x) ≡ false
not-stalled k l tid x xs s e st = elim (Bool-cases (scheduler_node tid == x)) [
  | inl c ↦ absurd (
      ground (
        arith,
        s.apart stall_waiting_list running_list x (subst (λ ys. x ∈ ys) (sym st) (ground arith))
            (subst (λ ys. x ∈ ys) (sym e) (ground (arith, c))),
      ))
  | inr c ↦ c
]

-- `sys$stall_thread` of a user thread for 1 to 2147 milliseconds, with another thread ready and
-- other threads stalled, which are in order: the first ready thread runs, and the caller is put
-- among the stalled ones as `k_insert_sorted` does, behind the first one. It is to wake a thousand
-- ticks for each millisecond after the counter's reading at that time, that is after the switch and
-- the new start of the time slice. The other control blocks stay as the switch left them.
pub syscall_stall_thread-stalled :
    (rounds tid : ℕ) (k : Kernel) (l : Lists) (n x : Ptr) (rest xs : List Ptr)
    → IsStore k.nodes l
    → IsThreads k.blocks l
    → tid < idle_thread_index
    → l running_list ≡ scheduler_node tid ∷ []
    → l ready_list ≡ n ∷ rest
    → l stall_waiting_list ≡ x ∷ xs
    → ordered (scheduler_stall_cmp k.blocks) (l stall_waiting_list) ≡ true
    → 0 < k.frame.general 0
    → k.frame.general 0 ≤ 2147
    → 0 < rounds
    → (k1 k' : Kernel) × Switched k l n rest (scheduler_node tid ∷ []) k1
      × (syscall_stall_thread (timing rounds) k ≡ ok k')
      × ((k'.blocks tid).stall_until
          ≡ add32 (systimer_value (reset_timer k1).timer).0 (k.frame.general 0 * 1000))
      × ((other : ℕ) → other ≢ tid → k'.blocks other ≡ k1.blocks other)
      × IsStore k'.nodes (
          update
            (update (update l ready_list rest) running_list (n ∷ []))
            stall_waiting_list
            (inserted (scheduler_stall_cmp k'.blocks) (scheduler_node tid) (x ∷ xs)))
syscall_stall_thread-stalled rounds tid k l n x rest xs s t lt e r st o p h f =
    let (k1, w, b) = switched k l tid n rest s t lt e r o in
    let hz = k.frame.general 0 * 1000 in
    let l1 : Lists =
      update (update l ready_list (rest ++ scheduler_node tid ∷ [])) running_list (n ∷ []) in
    let u : IsStore k1.nodes l1 =
      subst
        (λ xs. IsStore k1.nodes (update (update l ready_list (rest ++ xs)) running_list (n ∷ [])))
        (kept-user tid lt) w.lists in
    let k2 = noted tid hz (reset_timer k1) in
    let (g, a, v) =
      stall-inserted k2 l1 tid u
        (ground (arith, has-append (scheduler_node tid) rest (scheduler_node tid ∷ []))) in
    let v' : IsStore g (
        update (update (update l ready_list rest) running_list (n ∷ [])) stall_waiting_list
          (inserted (scheduler_stall_cmp k2.blocks) (scheduler_node tid) (x ∷ xs))) =
      IsStore-pointwise (λ p. ground (arith, again k l tid n rest s t lt e r o, st)) v in
    let (_, first) = inserted-first (scheduler_stall_cmp k2.blocks) (scheduler_node tid) x xs in
    (
      k1,
      record k2 { nodes = g },
      w,
      stall-steps rounds tid k k1 (record k2 { nodes = g }) (get_running_thread-ok k l tid [] s e) b
          p h f
          (behind-first tid hz (reset_timer k1) g x a
            (first_at v' stall_waiting_list IsHead-stall x _ first)
            (not-stalled k l tid x xs s e st)),
      ground arith,
      (λ other ne. ground (arith, ne)),
      v',
    )
