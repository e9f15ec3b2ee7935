-- ===== src/IntrusiveList/Ring/Insert.antt =====
-- `k_insert_sorted` of kernel/lib/kintrusive_list.c: where the new node comes to stand.
use bsprakt_os.Base.{
  ℕ, zero, suc, ◌<◌, ◌≤◌, ◌≡◌, ◌≢◌, true, false, Bool, List, [], ◌∷◌, ◌++◌, arith, ◌∈◌, ◌∉◌, ok,
  ◌==◌, subst, sym, ap, refl, has, has-append, ◌∙◌, length, distinct, if◌then◌else◌, inl, inr,
  Bool-cases,
}
use bsprakt_os.IntrusiveList.{
  Ptr, null, Heap, set_next, insert_position, k_insert_sorted, k_get_first_node,
}
use bsprakt_os.IntrusiveList.Chain.{Chain, Chain-last, last_of-mem, insert_after, insert_after-last}
use bsprakt_os.IntrusiveList.Ring.{IsRing, IsLoose}
use bsprakt_os.IntrusiveList.Ring.Read.{
  k_is_list_head_lem, k_get_first_node_lem, k_is_list_node_of_IsNode,
}
use bsprakt_os.IntrusiveList.Ring.Append.{
  Added, link_after-insert_after, IsRing-single, IsNode-loose,
}

module _ (cmp : Ptr → Ptr → Bool) (n : Ptr) where
  -- Before the first node that does not compare below `n`: insertion into a sorted list.
  abbrev pub insert_before : List Ptr → List Ptr
  insert_before [] = n ∷ []
  insert_before (y ∷ ys) = if cmp y n then y ∷ insert_before ys else n ∷ y ∷ ys

  -- What `k_insert_sorted` makes of a list: a node that belongs before the first node is put
  -- before it on the circle, and as the head still names the old first node, it is the last one.
  abbrev pub inserted : List Ptr → List Ptr
  inserted [] = n ∷ []
  inserted (x ∷ xs) = if cmp x n then x ∷ insert_before xs else x ∷ xs ++ n ∷ []

  mem-insert_before : (q : Ptr) (xs : List Ptr) → has q (insert_before xs) ≡ has q (n ∷ xs)
  mem-insert_before q [] = refl
  mem-insert_before q (x ∷ xs) = ground (arith, mem-insert_before q xs)

  -- The outcome of the walk from the node `a`, which compares below `n`.
  record Walked (h : Heap) (a : Ptr) (ys : List Ptr) (c : Ptr) : Type 0 where
    mem : h.previous c ∈ a ∷ ys
    place : insert_after (h.previous c) n (a ∷ ys) ≡ a ∷ insert_before ys

  insert_position-next :
      (fuel : ℕ) (h : Heap) (p a x : Ptr)
      → k_get_first_node h p ≡ ok x
      → cmp a n ≡ true
      → h.next a ≢ x
      → insert_position (suc fuel) h p n cmp a ≡ insert_position fuel h p n cmp (h.next a)
  unfolding insert_position
  insert_position-next fuel h p a x f t ne = ground arith

  insert_position-stop :
      (fuel : ℕ) (h : Heap) (p a : Ptr)
      → cmp a n ≡ false
      → 0 < fuel
      → insert_position fuel h p n cmp a ≡ ok a
  unfolding insert_position
  insert_position-stop zero h p a t l = absurd (omega arith)
  insert_position-stop (suc fuel) h p a t l = rw t

  Walked-cons :
      (h : Heap) (a y : Ptr) (ys : List Ptr) (d : Ptr)
      → cmp y n ≡ true
      → a ∉ y ∷ ys
      → Walked h y ys d
      → Walked h a (y ∷ ys) d
  Walked-cons h a y ys d t o w = record {
    mem = ground (arith, w.mem);
    place =
        let ne : (h.previous d == a) ≡ false = ground (arith, w.mem) in
        rw (ne, t) (ap (λ l. a ∷ l) w.place);
  }

  insert_position-Walked :
      (fuel : ℕ) (h : Heap) (p a : Ptr) (ys : List Ptr) (x : Ptr)
      → k_get_first_node h p ≡ ok x
      → Chain h a ys x
      → a ∉ ys
      → x ∉ ys
      → distinct ys ≡ true
      → cmp a n ≡ true
      → length ys < fuel
      → (c : Ptr) × (insert_position fuel h p n cmp a ≡ ok c) × Walked h a ys c
  unfolding insert_position
  insert_position-Walked zero h p a ys x f c oa ox d t l = absurd (omega arith)
  insert_position-Walked (suc fuel) h p a [] x f c oa ox d t l =
      (x, ground arith, record { mem = ground arith; place = ground arith })
  insert_position-Walked (suc fuel) h p a (y ∷ ys) x f c oa ox d t l =
      let s =
        insert_position-next fuel h p a x f t (ground arith)
        ∙ ap (insert_position fuel h p n cmp) c.0 in
      elim (Bool-cases (cmp y n)) [
        | inl more ↦
            let (z, e, w) =
              insert_position-Walked fuel h p y ys x f c.2 (ground arith) (ground arith)
                (ground arith) more (omega arith) in
            (z, s ∙ e, Walked-cons h a y ys z more oa w)
        | inr stop ↦ (
          y,
          s ∙ insert_position-stop fuel h p y stop (omega arith),
          record { mem = ground arith; place = ground arith },
        )
      ]

  -- The node behind whose predecessor `n` is linked in.
  found :
      (fuel : ℕ) (h : Heap) (p x : Ptr) (xs : List Ptr)
      → IsRing h p (x ∷ xs)
      → length xs < fuel
      → (c : Ptr) × (insert_position fuel h p n cmp x ≡ ok c)
        × (h.previous c ∈ x ∷ xs)
        × (insert_after (h.previous c) n (x ∷ xs) ≡ inserted (x ∷ xs))
  found fuel h p x xs r l = elim (Bool-cases (cmp x n)) [
    | inl more ↦
        let (c, e, w) =
          insert_position-Walked fuel h p x xs x (k_get_first_node_lem x xs r) r.circle.1
            (ground (arith, r.once)) (ground (arith, r.once)) (ground (arith, r.once)) more l in
        (c, e, w.mem, rw more w.place)
    | inr stop ↦
        let e = Chain-last h x xs x r.circle.1 in
        (
          x,
          insert_position-stop fuel h p x stop (omega arith),
          subst (λ t. t ∈ x ∷ xs) (sym e) (last_of-mem x xs),
          rw stop (
              subst (λ t. insert_after t n (x ∷ xs) ≡ x ∷ xs ++ n ∷ []) (sym e)
                (insert_after-last n x xs r.once)),
        )
  ]

  -- `k_insert_sorted` ends without a panic when it has more fuel than the list has nodes. Into a
  -- list whose first node compares below the new one it inserts before the first node that does
  -- not; into any other list it appends.
  pub k_insert_sorted-inserted :
      (fuel : ℕ) {h : Heap} {p : Ptr} (xs : List Ptr)
      → IsRing h p xs
      → n ∉ p ∷ xs
      → n ≢ null
      → IsLoose h n
      → length xs ≤ fuel
      → (g : Heap) × (k_insert_sorted fuel h p n cmp ≡ ok g) × Added h p n xs (inserted xs) g
  unfolding k_insert_sorted
  k_insert_sorted-inserted fuel {h} {p} [] r o nn loose l =
      let c = k_is_list_node_of_IsNode h n (IsNode-loose h n loose nn) in
      let e : (h.next p == null) ≡ true = ground (arith, r.circle) in
      (
        set_next h p n,
        rw (k_is_list_head_lem r, c, e),
        record {
          ring = IsRing-single h p n r o loose nn;
          same = λ q i. (ground arith, ground arith);
        },
      )
  k_insert_sorted-inserted fuel {h} {p} (x ∷ xs) r o nn loose l =
      let c = k_is_list_node_of_IsNode h n (IsNode-loose h n loose nn) in
      let (d, e, m, q) = found fuel h p x xs r (omega arith) in
      let (g, f, w) = link_after-insert_after n loose nn (h.previous d) r m o in
      let a : (h.next p == null) ≡ false = ground (arith, r.circle, r.no_null) in
      (
        g,
        rw (k_is_list_head_lem r, c, a, r.circle.0, e, f),
        subst (λ t. Added h p n (x ∷ xs) t g) q w,
      )

pub mem-inserted :
    (cmp : Ptr → Ptr → Bool) (q n : Ptr) (xs : List Ptr)
    → has q (inserted cmp n xs) ≡ has q (n ∷ xs)
mem-inserted cmp q n [] = refl
mem-inserted cmp q n (x ∷ xs) =
    ground (arith, mem-insert_before cmp n q xs, has-append q xs (n ∷ []))
