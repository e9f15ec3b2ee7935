-- ===== src/Scheduler/Walk.antt =====
-- kernel/scheduler.c: the walks of `scheduler_verify_thread_list_integrity` along one list.
use bsprakt_os.Base.{
  ℕ, zero, suc, ◌<◌, ◌≡◌, ◌≢◌, inl, inr, refl, Bool, true, false, List, [], ◌∷◌, ◌++◌, arith, ◌∈◌,
  ◌∉◌, ok, ◌==◌, update, distinct, ◌∙◌, if◌then◌else◌, Bool-cases, has, has-append, length, ◌>>=◌,
  verify,
}
use bsprakt_os.IntrusiveList.{
  Ptr, k_is_list_node, k_is_list_empty, k_get_first_node, k_get_last_node,
}
use bsprakt_os.IntrusiveList.Chain.{Chain, last_of, last_of-mem}
use bsprakt_os.IntrusiveList.Ring.Order.{ordered}
use bsprakt_os.Kernel.{Kernel, Tcb, stall_waiting_list, scheduler_node, container_of, thread_count}
use bsprakt_os.Scheduler.{scheduler_stall_cmp, list_rounds}
use bsprakt_os.Scheduler.RoundRobin.{verify_list, verify_order, verify_lists}

-- The node is that of a thread whose block knows its own number.
abbrev pub IsThread : (ℕ → Tcb) → Ptr → Type 0
IsThread blocks n =
    (n ≡ scheduler_node (container_of n))
    × ((blocks (container_of n)).tid ≡ container_of n)
    × (container_of n < thread_count)

-- The threads that were met are those of the nodes `seen`.
abbrev pub Met : (ℕ → Bool) → List Ptr → Type 0
Met checked seen = (t : ℕ) → checked t ≡ has (scheduler_node t) seen

Met-cons :
    (checked : ℕ → Bool) (seen : List Ptr) (n : Ptr)
    → n ≡ scheduler_node (container_of n)
    → Met checked seen
    → Met (update checked (container_of n) true) (n ∷ seen)
Met-cons checked seen n e m t = ground (arith, m t)

verify_list-step :
    (fuel : ℕ) (k : Kernel) (start n : Ptr) (checked : ℕ → Bool) (tid : ℕ)
    → k_is_list_node k.nodes n ≡ ok true
    → k.nodes.next (k.nodes.previous n) ≡ n
    → k.nodes.previous (k.nodes.next n) ≡ n
    → (k.blocks (container_of n)).tid ≡ tid
    → tid < thread_count
    → checked tid ≡ false
    → verify_list (suc fuel) k start n checked ≡ (
        if k.nodes.next n == start
        then ok (update checked tid true)
        else verify_list fuel k start (k.nodes.next n) (update checked tid true))
unfolding verify_list
verify_list-step fuel k start n checked tid a b c d e f = ground (arith, a, b, c, d, e, f)

-- What the walk needs of a node: it is one, its links lead back to it, it is a thread's.
abbrev pub IsPart : Kernel → Ptr → Type 0
IsPart k n =
    (k_is_list_node k.nodes n ≡ ok true)
    × (k.nodes.next (k.nodes.previous n) ≡ n)
    × (k.nodes.previous (k.nodes.next n) ≡ n)
    × IsThread k.blocks n

Met-swap :
    (checked : ℕ → Bool) (y : Ptr) (zs seen : List Ptr)
    → Met checked (zs ++ y ∷ seen)
    → Met checked (y ∷ zs ++ seen)
Met-swap checked y zs seen m t =
    ground (
      arith,
      m t,
      has-append (scheduler_node t) zs (y ∷ seen),
      has-append (scheduler_node t) zs seen,
    )

pub verify_list-walk :
    (k : Kernel) (start : Ptr) (zs : List Ptr) (fuel : ℕ) (y : Ptr) (checked : ℕ → Bool)
    (seen : List Ptr)
    → length zs < fuel
    → Chain k.nodes y zs start
    → start ∉ zs
    → distinct (y ∷ zs) ≡ true
    → ((n : Ptr) → n ∈ y ∷ zs → IsPart k n)
    → ((n : Ptr) → n ∈ y ∷ zs → n ∉ seen)
    → Met checked seen
    → (c : ℕ → Bool) × (verify_list fuel k start y checked ≡ ok c) × Met c (y ∷ zs ++ seen)
verify_list-walk k start zs zero y checked seen f ch out d p q m = absurd (omega (arith, f))
verify_list-walk k start [] (suc fuel) y checked seen f ch out d p q m =
    let (a, b, c, (e, g, i)) = p y (ground arith) in
    let met = Met-cons checked seen y e m in
    let new : checked (container_of y) ≡ false =
      m (container_of y) ∙ ground (arith, q y (ground arith), e) in
    (
      update checked (container_of y) true,
      verify_list-step fuel k start y checked (container_of y) a b c g i new ∙ ground (arith, ch.0),
      met,
    )
verify_list-walk k start (z ∷ zs) (suc fuel) y checked seen f ch out d p q m =
    let (a, b, c, (e, g, i)) = p y (ground arith) in
    let met = Met-cons checked seen y e m in
    let new : checked (container_of y) ≡ false =
      m (container_of y) ∙ ground (arith, q y (ground arith), e) in
    let (c', w, met') =
      verify_list-walk k start zs fuel z (update checked (container_of y) true) (y ∷ seen)
        (omega (arith, f)) ch.2 (ground (arith, out)) (ground (arith, d))
        (λ n j. p n (ground arith)) (λ n j. ground (arith, q n, d)) met in
    (
      c',
      verify_list-step fuel k start y checked (container_of y) a b c g i new
          ∙ ground (arith, ch.0, out, w),
      Met-swap c' y (z ∷ zs) seen met',
    )

verify_order-step :
    (fuel : ℕ) (k : Kernel) (x y last : Ptr)
    → k.nodes.next x ≡ y
    → x ≢ last
    → verify_order (suc fuel) k x last
      ≡ verify (scheduler_stall_cmp k.blocks x y) >>= λ _. verify_order fuel k y last
unfolding verify_order
verify_order-step fuel k x y last e ne = ground (arith, e, ne)

verify_order-end :
    (fuel : ℕ) (k : Kernel) (last : Ptr) → verify_order (suc fuel) k last last ≡ ok tt
unfolding verify_order
verify_order-end fuel k last = ground arith

-- The walk along the nodes passes exactly when each compares in order with the next.
pub verify_order-lem :
    (k : Kernel) (xs : List Ptr) (fuel : ℕ) (x b : Ptr)
    → length xs < fuel
    → Chain k.nodes x xs b
    → distinct (x ∷ xs) ≡ true
    → verify_order fuel k x (last_of x xs)
      ≡ verify (ordered (scheduler_stall_cmp k.blocks) (x ∷ xs))
verify_order-lem k xs zero x b f ch d = absurd (omega (arith, f))
verify_order-lem k [] (suc fuel) x b f ch d = verify_order-end fuel k x
verify_order-lem k (y ∷ ys) (suc fuel) x b f ch d =
    let r = verify_order-lem k ys fuel y b (omega (arith, f)) ch.2 (ground (arith, d)) in
    let ne : x ≢ last_of y ys = ground (arith, d, last_of-mem y ys) in
    verify_order-step fuel k x y (last_of y ys) ch.0 ne
    ∙ elim (Bool-cases (scheduler_stall_cmp k.blocks x y)) [ inl e ↦ rw e r | inr e ↦ rw e refl ]

module _ (k : Kernel) (list : Ptr) (lists : List Ptr) (checked : ℕ → Bool) where
  pub verify_lists-nil :
      k_is_list_empty k.nodes list ≡ ok true
      → verify_lists k (list ∷ lists) checked ≡ verify_lists k lists checked
  unfolding verify_lists
  verify_lists-nil e = rw e refl

  module _ (x : Ptr) (c : ℕ → Bool) (e : k_is_list_empty k.nodes list ≡ ok false)
      (f : k_get_first_node k.nodes list ≡ ok x)
      (w : verify_list list_rounds k x x checked ≡ ok c) where
    pub verify_lists-other :
        list ≢ stall_waiting_list → verify_lists k (list ∷ lists) checked ≡ verify_lists k lists c
    unfolding verify_lists
    verify_lists-other ne = rw (e, f, w) (ground (arith, ne))

    pub verify_lists-stall :
        (last : Ptr)
        → list ≡ stall_waiting_list
        → k_get_last_node k.nodes list ≡ ok last
        → verify_lists k (list ∷ lists) checked
          ≡ verify_order list_rounds k x last >>= λ _. verify_lists k lists c
    unfolding verify_lists
    verify_lists-stall last i g = rw (e, f, w, g) (ground (arith, i))
