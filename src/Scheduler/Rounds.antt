-- ===== src/Scheduler/Rounds.antt =====
-- kernel/scheduler.c: `scheduler_round_robin` as a whole.
use bsprakt_os.Base.{
  ℕ, ◌≡◌, inl, inr, refl, false, List, [], ◌∷◌, ◌++◌, arith, ◌∈◌, ok, ◌==◌, update, subst, sym, ap,
  ◌∙◌, Bool-cases, has, has-append, ◌>>◌, verify, Outcome, ℕ_discrete,
}
use bsprakt_os.IntrusiveList.{Ptr}
use bsprakt_os.IntrusiveList.Ring.Order.{ordered}
use bsprakt_os.IntrusiveList.Store.{Lists, IsStore, InNone}
use bsprakt_os.Kernel.{
  Kernel, ready_list, running_list, stall_waiting_list, scheduler_node, container_of,
  idle_thread_index,
}
use bsprakt_os.Scheduler.{
  SchedulingType, normal, forced, scheduler_stall_cmp, scheduler_save_thread_context,
}
use bsprakt_os.Scheduler.RoundRobin.{
  goes_on, switch_to_next, scheduler_round_robin, scheduler_verify_thread_list_integrity,
}
use bsprakt_os.Scheduler.Lists.{empty_at}
use bsprakt_os.Scheduler.Waiting.{IsHead-ready}
use bsprakt_os.Scheduler.Threads.{IsHead-running}
use bsprakt_os.Scheduler.Switch.{
  kept, saved, IsSingle, Switched, switch_to_next-ready, switch_to_next-idle,
}
use bsprakt_os.Scheduler.Integrity.{
  IsThread, IsThreads, scheduler_verify_thread_list_integrity-ordered,
}

-- Saving the context changes registers only.
pub saved-same :
    (k : Kernel) (q : List Ptr) (t : ℕ)
    → ((saved k q t).tid ≡ (k.blocks t).tid)
      × ((saved k q t).stall_until ≡ (k.blocks t).stall_until)
      × ((saved k q t).pid ≡ (k.blocks t).pid)
      × ((saved k q t).pid_slot ≡ (k.blocks t).pid_slot)
unfolding scheduler_save_thread_context
saved-same k [] t = (refl, refl, refl, refl)
saved-same k (x ∷ xs) t = elim (Bool-cases (container_of x == idle_thread_index)) [
  | inl e ↦ rw e (refl, refl, refl, refl)
  | inr e ↦ rw e (ground arith, ground arith, ground arith, ground arith)
]

saved-cmp :
    (k : Kernel) (q xs : List Ptr)
    → ordered (scheduler_stall_cmp (saved k q)) xs ≡ ordered (scheduler_stall_cmp k.blocks) xs
unfolding scheduler_stall_cmp
saved-cmp k q [] = refl
saved-cmp k q (x ∷ []) = refl
saved-cmp k q (x ∷ y ∷ ys) =
    rw
      (
        (saved-same k q (container_of x)).1,
        (saved-same k q (container_of y)).1,
        saved-cmp k q (y ∷ ys),
      )
      refl

kept-mem : (q : List Ptr) (n : Ptr) → n ∈ kept q → n ∈ q
kept-mem [] n i = i
kept-mem (x ∷ xs) n i = ground (arith, i)

IsThread-saved :
    (k : Kernel) (q : List Ptr) (m : Ptr) → IsThread k.blocks m → IsThread (saved k q) m
IsThread-saved k q m (a, b, c) = (a, (saved-same k q (container_of m)).0 ∙ b, c)

module _ (k : Kernel) (l : Lists) (n : Ptr) (rest q : List Ptr) (e : l ready_list ≡ n ∷ rest)
    (f : l running_list ≡ q) (t : IsThreads k.blocks l) where
  pub IsThreads-saved :
      IsThreads (saved k q) (update (update l ready_list (rest ++ kept q)) running_list (n ∷ []))
  IsThreads-saved p m le i = elim (ℕ_discrete p running_list) [
    | yes a ↦ ready_of (ground (arith, a, i))
    | no na ↦ elim (ℕ_discrete p ready_list) [
      | yes b ↦ elim (Bool-cases (has m (kept q))) [
        | inl c ↦
            IsThread-saved k q m
              (t running_list m (omega arith) (subst (λ ys. m ∈ ys) (sym f) (kept-mem q m c)))
        | inr c ↦ ready_of (ground (arith, has-append m rest (kept q), i, b, c))
      ]
      | no nb ↦ IsThread-saved k q m (t p m le (ground (arith, i, na, nb)))
    ]
  ]
    where
      ready_of : m ∈ n ∷ rest → IsThread (saved k q) m
      ready_of j =
          IsThread-saved k q m (t ready_list m (omega arith) (subst (λ ys. m ∈ ys) (sym e) j))

  -- After the switch the check of the lists comes to the order of the stalled threads.
  check-Switched :
      (k' : Kernel)
      → Switched k l n rest q k'
      → scheduler_verify_thread_list_integrity k'
        ≡ verify (ordered (scheduler_stall_cmp k.blocks) (l stall_waiting_list))
  check-Switched k' w =
      let a =
        scheduler_verify_thread_list_integrity-ordered k'
          (update (update l ready_list (rest ++ kept q)) running_list (n ∷ [])) w.lists
          (subst
            (λ b. IsThreads b (update (update l ready_list (rest ++ kept q)) running_list (n ∷ [])))
            (sym w.blocks) IsThreads-saved) in
      a
      ∙ ap verify (
          subst
            (λ b.
              ordered (scheduler_stall_cmp b) (l stall_waiting_list)
              ≡ ordered (scheduler_stall_cmp k.blocks) (l stall_waiting_list))
            (sym w.blocks) (saved-cmp k q (l stall_waiting_list)))

-- A round is a switch and the check of the lists.
switch_and_check :
    (type : SchedulingType) (k k' : Kernel) (o : Outcome (Unit {0}))
    → goes_on type k.nodes ≡ ok false
    → switch_to_next k ≡ ok k'
    → scheduler_verify_thread_list_integrity k' ≡ o
    → scheduler_round_robin type k ≡ o >> ok k'
unfolding scheduler_round_robin
switch_and_check type k k' o a b c = rw (a, b, c) refl

-- On a normal round the running thread goes on as long as no other is ready.
pub scheduler_round_robin-goes_on :
    (k : Kernel) (l : Lists) (x : Ptr) (xs : List Ptr)
    → IsStore k.nodes l
    → l ready_list ≡ []
    → l running_list ≡ x ∷ xs
    → scheduler_round_robin normal k ≡ ok k
unfolding scheduler_round_robin goes_on
scheduler_round_robin-goes_on k l x xs s e f =
    rw (empty_at s ready_list IsHead-ready [] e, empty_at s running_list IsHead-running (x ∷ xs) f)
      refl

goes_on-ready :
    (type : SchedulingType) (k : Kernel) (l : Lists) (n : Ptr) (rest : List Ptr)
    → IsStore k.nodes l
    → l ready_list ≡ n ∷ rest
    → goes_on type k.nodes ≡ ok false
unfolding goes_on
goes_on-ready forced k l n rest s e = refl
goes_on-ready normal k l n rest s e = rw (empty_at s ready_list IsHead-ready (n ∷ rest) e) refl

-- On intact lists of threads with one ready and at most one running, a round of either kind ends: it
-- has switched to the first ready thread, and then it returns when the stalled threads stand in order
-- of their wake-up times and panics when they do not.
pub scheduler_round_robin-Switched :
    (type : SchedulingType) (k : Kernel) (l : Lists) (n : Ptr) (rest q : List Ptr)
    → IsStore k.nodes l
    → IsThreads k.blocks l
    → l ready_list ≡ n ∷ rest
    → l running_list ≡ q
    → IsSingle q
    → (k' : Kernel) × Switched k l n rest q k'
      × (scheduler_round_robin type k
          ≡ verify (ordered (scheduler_stall_cmp k.blocks) (l stall_waiting_list)) >> ok k')
scheduler_round_robin-Switched type k l n rest q s t e f o =
    let (k', a, w) = switch_to_next-ready k l n rest q s e f o in
    (
      k',
      w,
      switch_and_check type k k'
          (verify (ordered (scheduler_stall_cmp k.blocks) (l stall_waiting_list)))
          (goes_on-ready type k l n rest s e) a (check-Switched k l n rest q e f t k' w),
    )

abbrev pub idle_node : Ptr
idle_node = scheduler_node idle_thread_index

-- Whether the round ends with a switch although no thread is ready.
abbrev pub Gives : SchedulingType → List Ptr → Type 0
Gives normal q = q ≡ []
Gives forced q = Unit {0}

goes_on-idle :
    (type : SchedulingType) (k : Kernel) (l : Lists) (q : List Ptr)
    → IsStore k.nodes l
    → l ready_list ≡ []
    → l running_list ≡ q
    → Gives type q
    → goes_on type k.nodes ≡ ok false
unfolding goes_on
goes_on-idle forced k l q s e f g = refl
goes_on-idle normal k l q s e f g =
    rw (empty_at s ready_list IsHead-ready [] e, empty_at s running_list IsHead-running [] (f ∙ g))
      refl

-- With no thread ready, and none running or the round forced, the idle thread runs next, unless it
-- is in a list already.
pub scheduler_round_robin-idle :
    (type : SchedulingType) (k : Kernel) (l : Lists) (q : List Ptr)
    → IsStore k.nodes l
    → IsThreads k.blocks l
    → IsThread k.blocks idle_node
    → l ready_list ≡ []
    → l running_list ≡ q
    → IsSingle q
    → Gives type q
    → InNone idle_node l
    → (k' : Kernel) × Switched k (update l ready_list (idle_node ∷ [])) idle_node [] q k'
      × (scheduler_round_robin type k
          ≡ verify (ordered (scheduler_stall_cmp k.blocks) (l stall_waiting_list)) >> ok k')
scheduler_round_robin-idle type k l q s t ti e f o g out =
    let (k', a, w) = switch_to_next-idle k l q s e f o out in
    let t' : IsThreads k.blocks (update l ready_list (idle_node ∷ [])) = λ p n le i.
      elim (ℕ_discrete p ready_list) [
        | yes b ↦ subst (IsThread k.blocks) (ground (arith, i, b)) ti
        | no nb ↦ t p n le (ground (arith, i, nb))
      ] in
    (
      k',
      w,
      switch_and_check type k k'
          (verify (ordered (scheduler_stall_cmp k.blocks) (l stall_waiting_list)))
          (goes_on-idle type k l q s e f g) a
          (check-Switched k (update l ready_list (idle_node ∷ [])) idle_node [] q refl f t' k' w),
    )
