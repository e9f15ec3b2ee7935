-- ===== src/Scheduler/Slots/Kept.antt =====
-- kernel/scheduler.c: creations and the end of a thread keep every thread in its place.
use bsprakt_os.Base.{
  ℕ, ◌<◌, ◌≡◌, ◌≢◌, ◌⊎◌, inl, inr, sym, ap, subst, ◌∙◌, Bool, true, List, [], ◌∷◌, arith, ◌∈◌, ◌∉◌,
  has, has-append, update, ℕ_discrete,
}
use bsprakt_os.IntrusiveList.{Ptr}
use bsprakt_os.IntrusiveList.Store.{Lists}
use bsprakt_os.Kernel.{
  Tcb, ready_list, finished_list, address_spaces, scheduler_node, addrspace_node, user_thread_count,
  address_space_count, threads_per_address_space,
}
use bsprakt_os.Scheduler.Threads.{created}
use bsprakt_os.Scheduler.Slots.{Sits, IsMember, IsPlaced}

abbrev taken : (ℕ → ℕ → Bool) → ℕ → ℕ → ℕ → ℕ → Bool
taken used pid slot = update used pid (update (used pid) slot true)

module _ (blocks : ℕ → Tcb) (used : ℕ → ℕ → Bool) (l : Lists) (pid slot tid : ℕ) (rest : List Ptr)
    (tcb : Tcb) (w : IsPlaced blocks used l) (hp : pid < address_space_count)
    (hs : slot < threads_per_address_space) (ht : tid < user_thread_count)
    (e : l finished_list ≡ scheduler_node tid ∷ rest) (once : scheduler_node tid ∉ rest)
    (p : tcb.pid ≡ pid) (q : tcb.pid_slot ≡ slot)
    (free : (t : ℕ)
      → t < user_thread_count
      → IsMember blocks used l t
      → (blocks t).pid ≡ pid
      → (blocks t).pid_slot ≡ slot
      → ⊥) where
  abbrev blocks' : ℕ → Tcb
  blocks' = update blocks tid tcb

  abbrev Member' : ℕ → Type 0
  Member' = IsMember blocks' (taken used pid slot) (created pid tid rest l)

  -- The address spaces of the others.
  space :
      (t p : ℕ)
      → t ≢ tid
      → has (addrspace_node t) (created pid tid rest l (address_spaces p))
        ≡ has (addrspace_node t) (l (address_spaces p))
  space t p ne = ground (arith, ne)

  other : (t : ℕ) → t ≢ tid → blocks' t ≡ blocks t
  other t ne = ground (arith, ne)

  self : blocks' tid ≡ tcb
  self = ground arith

  still_used : (a b : ℕ) → used a b ≡ true → taken used pid slot a b ≡ true
  still_used a b u = ground (arith, u)

  kept_member : (t : ℕ) → t ≢ tid → IsMember blocks used l t → Member' t
  kept_member t ne m =
      subst (Sits (taken used pid slot) (created pid tid rest l) t) (sym (other t ne)) (
        m.0,
        m.1,
        space t (blocks t).pid ne ∙ m.2,
        still_used (blocks t).pid (blocks t).pid_slot m.3,
      )

  old-IsMember : (t : ℕ) → t < user_thread_count → t ≢ tid → Member' t → IsMember blocks used l t
  old-IsMember t h ne m = placed (w.somewhere t h)
    where
      m' : Sits (taken used pid slot) (created pid tid rest l) t (blocks t)
      m' = subst (Sits (taken used pid slot) (created pid tid rest l) t) (other t ne) m

      placed :
          (scheduler_node t ∈ l finished_list) ⊎ IsMember blocks used l t → IsMember blocks used l t
      placed (inl i) = absurd (
          ground (
            arith,
            w.outside t h i (address_spaces (blocks t).pid),
            space t (blocks t).pid ne,
            m'.2,
          ))
      placed (inr s) = s

  new_member : Member' tid
  new_member =
      subst (Sits (taken used pid slot) (created pid tid rest l) tid) (sym self)
        (omega (arith, p), omega (arith, q), ground (arith, p), ground (arith, p, q))

  not_shared :
      (t : ℕ)
      → t < user_thread_count
      → t ≢ tid
      → Member' t
      → tcb.pid ≡ (blocks' t).pid
      → tcb.pid_slot ≡ (blocks' t).pid_slot
      → ⊥
  not_shared t h ne m u v =
      free t h (old-IsMember t h ne m) (ap (λ b. b.pid) (sym (other t ne)) ∙ sym u ∙ p)
        (ap (λ b. b.pid_slot) (sym (other t ne)) ∙ sym v ∙ q)

  same_slot :
      (s t : ℕ)
      → s < user_thread_count
      → t < user_thread_count
      → Member' s
      → Member' t
      → (blocks' s).pid ≡ (blocks' t).pid
      → (blocks' s).pid_slot ≡ (blocks' t).pid_slot
      → s ≡ t
  same_slot s t k h a b u v = cases (ℕ_discrete s tid) (ℕ_discrete t tid)
    where
      cases : Dec (s ≡ tid) → Dec (t ≡ tid) → s ≡ t
      cases (yes x) (yes y) = x ∙ sym y
      cases (yes x) (no y) = absurd (
          not_shared t h y b (ap (λ b. b.pid) (sym self ∙ ap blocks' (sym x)) ∙ u)
            (ap (λ b. b.pid_slot) (sym self ∙ ap blocks' (sym x)) ∙ v))
      cases (no x) (yes y) = absurd (
          not_shared s k x a (ap (λ b. b.pid) (sym self ∙ ap blocks' (sym y)) ∙ sym u)
            (ap (λ b. b.pid_slot) (sym self ∙ ap blocks' (sym y)) ∙ sym v))
      cases (no x) (no y) =
          w.different s t k h (old-IsMember s k x a) (old-IsMember t h y b)
            (ap (λ b. b.pid) (sym (other s x)) ∙ u ∙ ap (λ b. b.pid) (other t y))
            (ap (λ b. b.pid_slot) (sym (other s x)) ∙ v ∙ ap (λ b. b.pid_slot) (other t y))

  in_rest : (t : ℕ) → t ≢ tid → scheduler_node t ∈ l finished_list → scheduler_node t ∈ rest
  in_rest t ne i =
      let j : scheduler_node t ∈ scheduler_node tid ∷ rest =
        subst (λ xs. scheduler_node t ∈ xs) e i in
      ground (arith, j, ne)

  in_finished : (t : ℕ) → scheduler_node t ∈ rest → scheduler_node t ∈ l finished_list
  in_finished t i = subst (λ xs. scheduler_node t ∈ xs) (sym e) (ground (arith, i))

  somewhere : (t : ℕ) → t < user_thread_count → (scheduler_node t ∈ rest) ⊎ Member' t
  somewhere t h = cases (ℕ_discrete t tid) (w.somewhere t h)
    where
      cases :
          Dec (t ≡ tid)
          → (scheduler_node t ∈ l finished_list) ⊎ IsMember blocks used l t
          → (scheduler_node t ∈ rest) ⊎ Member' t
      cases (yes x) m = inr (subst Member' (sym x) new_member)
      cases (no x) (inl i) = inl (in_rest t x i)
      cases (no x) (inr m) = inr (kept_member t x m)

  outside :
      (t : ℕ)
      → t < user_thread_count
      → scheduler_node t ∈ rest
      → (p' : Ptr) → addrspace_node t ∉ created pid tid rest l p'
  outside t h i p' =
      let o = w.outside t h (in_finished t i) in
      let f : addrspace_node t ∉ scheduler_node tid ∷ rest =
        subst (λ xs. addrspace_node t ∉ xs) e (o finished_list) in
      let ne : t ≢ tid = λ x. absurd (ground (arith, once, i, x)) in
      ground (
        arith,
        f,
        ne,
        o p',
        o ready_list,
        o (address_spaces pid),
        has-append (addrspace_node t) (l ready_list) (scheduler_node tid ∷ []),
      )

  pub IsPlaced-created : IsPlaced blocks' (taken used pid slot) (created pid tid rest l)
  IsPlaced-created = record {
    finished = λ n i. w.finished n (subst (λ xs. n ∈ xs) (sym e) (ground (arith, i)));
    somewhere = somewhere;
    different = same_slot;
    outside = outside;
  }
