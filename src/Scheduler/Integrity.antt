-- ===== src/Scheduler/Integrity.antt =====
-- kernel/scheduler.c: `scheduler_verify_thread_list_integrity`, which ends every switch.
use bsprakt_os.Base.{
  ℕ, ◌<◌, ◌≤◌, ◌≡◌, inl, inr, refl, Bool, true, false, not, ◌||◌, List, [], ◌∷◌, ◌++◌, arith, ◌∈◌,
  ◌∉◌, ok, distinct, Outcome, ℕ_discrete, subst, sym, ap, ◌∙◌, Bool-cases, has, has-append, length,
  ◌>>=◌, verify,
}
use bsprakt_os.IntrusiveList.{Ptr}
use bsprakt_os.IntrusiveList.Chain.{last_of}
use bsprakt_os.IntrusiveList.Ring.{IsRing, IsRing-links}
use bsprakt_os.IntrusiveList.Ring.Read.{k_is_list_node_lem}
use bsprakt_os.IntrusiveList.Ring.Order.{ordered}
use bsprakt_os.IntrusiveList.Store.{IsHead, Lists, IsStore, node_end, length-le_node_end}
use bsprakt_os.Kernel.{
  Kernel, Tcb, ready_list, running_list, stall_waiting_list, input_waiting_list, finished_list,
}
use bsprakt_os.Scheduler.{scheduler_stall_cmp, list_rounds}
use bsprakt_os.Scheduler.RoundRobin.{
  verify_list, verify_order, verify_lists, scheduler_verify_thread_list_integrity,
}
use bsprakt_os.Scheduler.Lists.{first_at, empty_at, last_at}
pub use bsprakt_os.Scheduler.Walk.{IsThread}
use bsprakt_os.Scheduler.Walk.{
  Met, IsPart, verify_list-walk, verify_order-lem, verify_lists-nil, verify_lists-stall,
  verify_lists-other,
}

-- The lists' nodes are those of threads, and every one knows its number.
abbrev pub IsThreads : (ℕ → Tcb) → Lists → Type 0
IsThreads blocks l = (p n : Ptr) → p ≤ finished_list → n ∈ l p → IsThread blocks n

module _ (k : Kernel) (l : Lists) (s : IsStore k.nodes l) (t : IsThreads k.blocks l) where
  IsPart-mem : (p n : Ptr) → IsHead p → p ≤ finished_list → n ∈ l p → IsPart k n
  IsPart-mem p n hp le i =
      let r = s.rings p hp in
      let (a, b) = IsRing-links n r i in ((k_is_list_node_lem n r i).0, a, b, t p n le i)

  abbrev in_order : Bool
  in_order = ordered (scheduler_stall_cmp k.blocks) (l stall_waiting_list)

  ring : (p x : Ptr) (xs : List Ptr) → IsHead p → l p ≡ x ∷ xs → IsRing k.nodes p (x ∷ xs)
  ring p x xs hp e = subst (IsRing k.nodes p) e (s.rings p hp)

  bound : (p x : Ptr) (xs : List Ptr) → IsHead p → l p ≡ x ∷ xs → length xs < list_rounds
  bound p x xs hp e =
      omega (arith, subst (λ ys. length ys ≤ node_end) e (length-le_node_end s p hp))

  elsewhere : (p q n : Ptr) (lists : List Ptr) → p ∉ lists → q ∈ lists → n ∈ l q → n ∉ l p
  elsewhere p q n lists np i j = elim (Bool-cases (has n (l p))) [
    | inl a ↦ absurd (ground (arith, s.apart p q n a j, np, i))
    | inr b ↦ b
  ]

  walk_at :
      (p x : Ptr) (xs : List Ptr) (checked : ℕ → Bool) (seen : List Ptr)
      → IsHead p
      → p ≤ finished_list
      → l p ≡ x ∷ xs
      → ((n : Ptr) → n ∈ l p → n ∉ seen)
      → Met checked seen
      → (c : ℕ → Bool) × (verify_list list_rounds k x x checked ≡ ok c) × Met c (x ∷ xs ++ seen)
  walk_at p x xs checked seen hp le e out m =
      let r = ring p x xs hp e in
      let back : (n : Ptr) → n ∈ x ∷ xs → n ∈ l p = λ n i. subst (λ ys. n ∈ ys) (sym e) i in
      verify_list-walk k x xs list_rounds x checked seen (bound p x xs hp e) r.circle.1
        (ground (arith, r.once)) r.once (λ n i. IsPart-mem p n hp le (back n i))
        (λ n i. out n (back n i)) m

  -- What the check of the lists behind `p` comes to.
  abbrev Rest : List Ptr → Type 0
  Rest lists =
      (c : ℕ → Bool) (seen : List Ptr)
      → ((q n : Ptr) → q ∈ lists → n ∈ l q → n ∉ seen)
      → Met c seen
      → verify_lists k lists c ≡ verify (not (has stall_waiting_list lists) || in_order)

  nothing :
      (p : Ptr) (lists : List Ptr)
      → p ∉ lists
      → l p ≡ []
      → verify (not (has stall_waiting_list lists) || in_order)
        ≡ verify (not (has stall_waiting_list (p ∷ lists)) || in_order)
  nothing p lists np e = elim (ℕ_discrete p stall_waiting_list) [
    | yes i ↦
        let o : in_order ≡ true =
          ap (ordered (scheduler_stall_cmp k.blocks)) (subst (λ h. l h ≡ []) i e) in
        ap verify (ground (arith, o))
    | no ne ↦ ap verify (ground (arith, ne))
  ]

  stall_ok :
      (p : Ptr) (lists : List Ptr)
      → p ∉ lists
      → p ≡ stall_waiting_list
      → (a : Bool) (o rest : Outcome (Unit {0})) → in_order ≡ a
      → o ≡ verify a
      → rest ≡ verify (not (has stall_waiting_list lists) || in_order)
      → (o >>= λ _. rest) ≡ verify (not (has stall_waiting_list (p ∷ lists)) || in_order)
  stall_ok p lists np i true o rest e f g = rw (f, g, e) (ap verify (ground (arith, np, i)))
  stall_ok p lists np i false o rest e f g =
      let b : false ≡ (not (has stall_waiting_list (p ∷ lists)) || false) = ground (arith, np, i) in
      rw (f, e) (ap verify b)

  visit :
      (p : Ptr) (lists xs : List Ptr) (checked : ℕ → Bool) (seen : List Ptr)
      → (0 < p) × (p ≤ finished_list)
      → p ∉ lists
      → l p ≡ xs
      → ((q n : Ptr) → q ∈ p ∷ lists → n ∈ l q → n ∉ seen)
      → Met checked seen
      → Rest lists
      → verify_lists k (p ∷ lists) checked
        ≡ verify (not (has stall_waiting_list (p ∷ lists)) || in_order)
  visit p lists [] checked seen hp np e out m rest =
      verify_lists-nil k p lists checked (empty_at s p (ground (arith, hp)) [] e)
      ∙ rest checked seen (λ q n i. out q n (ground arith)) m
      ∙ nothing p lists np e
  visit p lists (x ∷ xs) checked seen hp np e out m rest =
      let head : IsHead p = (hp.0, omega (arith, hp.1)) in
      let (c, w, met) = walk_at p x xs checked seen head hp.1 e (λ n. out p n (ground arith)) m in
      let out' : (q n : Ptr) → q ∈ lists → n ∈ l q → n ∉ x ∷ xs ++ seen = λ q n i j. ground (
        arith,
        has-append n (x ∷ xs) seen,
        subst (λ ys. n ∉ ys) e (elsewhere p q n lists np i j),
        out q n,
      ) in
      let go = rest c (x ∷ xs ++ seen) out' met in
      elim (ℕ_discrete p stall_waiting_list) [
        | yes i ↦
            verify_lists-stall k p lists checked x c (empty_at s p head (x ∷ xs) e)
              (first_at s p head x xs e) w (last_of x xs) i (last_at s p head x xs e)
            ∙ stall_ok p lists np i (ordered (scheduler_stall_cmp k.blocks) (x ∷ xs))
                (verify_order list_rounds k x (last_of x xs)) (verify_lists k lists c)
                (ap (ordered (scheduler_stall_cmp k.blocks)) (subst (λ h. l h ≡ x ∷ xs) i e))
                (verify_order-lem k xs list_rounds x x (bound p x xs head e)
                  (ring p x xs head e).circle.1 (ring p x xs head e).once)
                go
        | no ne ↦
            verify_lists-other k p lists checked x c (empty_at s p head (x ∷ xs) e)
              (first_at s p head x xs e) w ne
            ∙ go
            ∙ ap verify (ground (arith, ne))
      ]

  verify_lists-lem :
      (lists : List Ptr)
      → distinct lists ≡ true
      → ((p : Ptr) → p ∈ lists → (0 < p) × (p ≤ finished_list))
      → Rest lists
  unfolding verify_lists
  verify_lists-lem [] d h checked seen out m = refl
  verify_lists-lem (p ∷ lists) d h checked seen out m =
      visit p lists (l p) checked seen (h p (ground arith)) (ground (arith, d)) refl out m
        (verify_lists-lem lists (ground (arith, d)) (λ q i. h q (ground arith)))

-- On intact lists of threads, `scheduler_verify_thread_list_integrity` passes when the stalled
-- threads are in order of their wake-up times, and panics when they are not.
pub scheduler_verify_thread_list_integrity-ordered :
    (k : Kernel) (l : Lists)
    → IsStore k.nodes l
    → IsThreads k.blocks l
    → scheduler_verify_thread_list_integrity k
      ≡ verify (ordered (scheduler_stall_cmp k.blocks) (l stall_waiting_list))
unfolding scheduler_verify_thread_list_integrity
scheduler_verify_thread_list_integrity-ordered k l s t =
    verify_lists-lem k l s t
      (running_list ∷ ready_list ∷ input_waiting_list ∷ stall_waiting_list ∷ finished_list ∷ [])
      refl (λ p i. ground (arith, i)) (λ _. false) [] (λ p n i j. refl) (λ t. refl)
