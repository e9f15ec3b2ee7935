-- ===== src/Syscalls/Runs/System.antt =====
-- kernel/scheduler.c: what holds between two entries of the kernel.
use bsprakt_os.Base.{
  ℕ, ◌<◌, ◌≡◌, ◌⊎◌, inl, inr, refl, sym, ap, subst, ◌∙◌, List, [], ◌∷◌, arith, ◌∈◌, ok, Outcome,
  verify, ◌>>◌, Bool, true, false, if◌then◌else◌,
}
use bsprakt_os.IntrusiveList.{Ptr}
use bsprakt_os.IntrusiveList.Store.{Lists, InNone, IsStore}
use bsprakt_os.Kernel.{
  Kernel, running_list, scheduler_node, container_of, idle_thread_index, user_thread_count,
}
use bsprakt_os.Scheduler.{scheduler_get_running_thread}
use bsprakt_os.Scheduler.Lists.{empty_at}
use bsprakt_os.Scheduler.Threads.{IsHead-running}
use bsprakt_os.Scheduler.Switch.{IsSingle}
use bsprakt_os.Scheduler.Rounds.{idle_node}
use bsprakt_os.Scheduler.Integrity.{IsThreads}
use bsprakt_os.Scheduler.Slots.{IsPlaced}
use bsprakt_os.Scheduler.Slots.State.{IsKernel}
use bsprakt_os.Syscalls.Waits.{get_running_thread-ok}
use bsprakt_os.Syscalls.Runs.{IsSame, IsUser}

-- The invariant of the threads; at most one thread runs, and the idle thread runs or is in no list.
pub record IsSystem (k : Kernel) (l : Lists) : Type 0 where
  pub kernel : IsKernel k l
  pub single : IsSingle (l running_list)
  pub idle_number : (k.blocks idle_thread_index).tid ≡ idle_thread_index
  pub idle_place : InNone idle_node l ⊎ (l running_list ≡ idle_node ∷ [])

pub ok_injective {ℓ} : {A : Type ℓ} {x y : A} → ok x ≡ ok y → x ≡ y
ok_injective e = cc e

-- The branch that a test has taken.
pub branches {ℓ} :
    {A : Type ℓ} {x y z : A} (b : Bool)
    → (if b then x else y) ≡ z
    → ((x ≡ z) × (b ≡ true)) ⊎ ((y ≡ z) × (b ≡ false))
branches true e = inl (e, refl)
branches false e = inr (e, refl)

-- A check that has returned does not change the state.
pub checked : {k k' : Kernel} (b : Bool) → (verify b >> ok k) ≡ ok k' → k ≡ k'
checked true e = ok_injective e
checked false e = cc e

pub IsSystem-same : (k k' : Kernel) (l : Lists) → IsSystem k l → IsSame k k' → IsSystem k' l
IsSystem-same k k' l w s = record {
  kernel = record {
    store = subst (λ h. IsStore h l) (sym s.nodes) w.kernel.store;
    threads = subst (λ b. IsThreads b l) (sym s.blocks) w.kernel.threads;
    placed =
        subst (λ b. IsPlaced b k'.slots_used l) (sym s.blocks)
          (subst (λ u. IsPlaced k.blocks u l) (sym s.slots) w.kernel.placed);
  };
  single = w.single;
  idle_number = ap (λ b. (b idle_thread_index).tid) s.blocks ∙ w.idle_number;
  idle_place = w.idle_place;
}

nobody :
    (k : Kernel) (l : Lists) (me : ℕ)
    → IsStore k.nodes l
    → l running_list ≡ []
    → scheduler_get_running_thread k ≡ ok me
    → ⊥
unfolding scheduler_get_running_thread
nobody k l me s e f =
    let g : scheduler_get_running_thread k ≡ Outcome.panic =
      rw (empty_at s running_list IsHead-running [] e) refl in
    cc (f, g)

-- The running user thread is alone in the running list.
pub IsUser-running :
    (k : Kernel) (l : Lists) (me : ℕ)
    → IsSystem k l
    → IsUser k me
    → l running_list ≡ scheduler_node me ∷ []
IsUser-running k l me w u = cases (l running_list) refl
  where
    cases : (q : List Ptr) → l running_list ≡ q → l running_list ≡ scheduler_node me ∷ []
    cases [] e = absurd (nobody k l me w.kernel.store e u.runs)
    cases (x ∷ xs) e =
        let i : x ∈ l running_list = subst (λ q. x ∈ q) (sym e) (ground arith) in
        let (a, b, c) = w.kernel.threads running_list x (omega arith) i in
        let f =
          get_running_thread-ok k l (container_of x) xs w.kernel.store (e ∙ ap (λ x. x ∷ xs) a) in
        let g : container_of x ≡ me = cc (f, u.runs) in
        let h : xs ≡ [] = subst IsSingle e w.single in
        e ∙ ap (λ x. x ∷ xs) (a ∙ ap scheduler_node g) ∙ ap (λ xs. scheduler_node me ∷ xs) h

-- While a user thread runs, the idle thread is in no list.
pub idle-InNone :
    (k : Kernel) (l : Lists) (me : ℕ)
    → IsSystem k l
    → me < user_thread_count
    → l running_list ≡ scheduler_node me ∷ []
    → InNone idle_node l
idle-InNone k l me w h e = cases w.idle_place
  where
    cases : InNone idle_node l ⊎ (l running_list ≡ idle_node ∷ []) → InNone idle_node l
    cases (inl o) = o
    cases (inr r) =
        let i : idle_node ∈ scheduler_node me ∷ [] =
          subst (λ q. idle_node ∈ q) (sym r ∙ e) (ground arith) in
        absurd (ground (arith, i, h))
