-- ===== src/IntrusiveList/Ring/Append.antt =====
-- `k_append_node_to_list` of kernel/lib/kintrusive_list.c: behind a head it makes the node the
-- first one, behind a node it makes it that node's successor.
use bsprakt_os.Base.{
  ◌≡◌, ◌≢◌, refl, true, false, List, [], ◌∷◌, arith, ◌∈◌, ◌∉◌, ok, ◌==◌, subst, sym, inl, inr,
  Bool-cases,
}
use bsprakt_os.IntrusiveList.{
  Ptr, null, Heap, connect, set_next, link_after, append_to_head, k_append_node_to_list,
}
use bsprakt_os.IntrusiveList.Chain.{
  Chain-end, last_of, last_of-mem, Chain-split, link, link_first, Chain-link, Chain-snoc,
  insert_after, mem-insert_after, distinct-insert_after,
}
use bsprakt_os.IntrusiveList.Ring.{IsRing, IsRing-neighbours, SameOutside, IsLoose, Circle}
use bsprakt_os.IntrusiveList.Ring.Read.{
  k_is_list_head_lem, k_is_list_node_lem, k_get_last_node_lem, IsNode, IsNode-mem,
  k_connect_nodes_lem, connect-IsNode, k_is_list_node_of_IsNode, k_is_list_node_of_head,
}
use bsprakt_os.IntrusiveList.Ring.Remove.{Chain-set_head}

-- What an insertion has made of the list `xs` of the head `p`.
pub record Added (h : Heap) (p n : Ptr) (xs ys : List Ptr) (g : Heap) : Type 0 where
  pub ring : IsRing g p ys
  pub same : SameOutside (n ∷ p ∷ xs) h g

pub link_after-link :
    (h : Heap) (l n : Ptr)
    → IsNode h l
    → IsNode h n
    → IsNode h (h.next l)
    → link_after h l n ≡ ok (link h l n)
unfolding link_after
link_after-link h l n nl nn na = rw (
  k_connect_nodes_lem h n (h.next l) nn na,
  k_connect_nodes_lem (connect h n (h.next l)) l n (connect-IsNode h n (h.next l) l nn.0 na.0 nl)
      (connect-IsNode h n (h.next l) n nn.0 na.0 nn),
)

Circle-link :
    (h : Heap) (p l n : Ptr) (xs : List Ptr)
    → IsRing h p xs
    → l ∈ xs
    → n ∉ p ∷ xs
    → Circle (link h l n) p (insert_after l n xs)
Circle-link h p l n (x ∷ xs) r m o = elim (Bool-cases (l == x)) [
  | inl hit ↦
      let e : x ≡ l = ground arith in
      rw hit (
        subst (λ t. Circle (link h t n) p (x ∷ n ∷ xs)) e
          (
            ground (arith, r.circle.0, r.no_head),
            link_first h x xs x n (ground (arith, r.once)) (ground (arith, r.once))
                (ground (arith, r.once)) (ground arith) r.circle.1,
          ))
  | inr miss ↦ rw miss (
    ground (arith, r.circle.0, r.no_head),
    Chain-link h x xs x l n (ground (arith, r.once)) (ground (arith, r.once))
        (ground (arith, r.once)) (ground arith) (ground arith) r.circle.1,
  )
]
Circle-link h p l n [] r m o = cc

IsRing-link :
    (h : Heap) (p l n : Ptr) (xs : List Ptr)
    → IsRing h p xs
    → l ∈ xs
    → n ∉ p ∷ xs
    → n ≢ null
    → IsRing (link h l n) p (insert_after l n xs)
IsRing-link h p l n xs r m o nn = record {
  not_null = r.not_null;
  head = ground (arith, r.head, r.no_head, IsRing-neighbours l r m);
  circle = Circle-link h p l n xs r m o;
  no_null = ground (arith, r.no_null, mem-insert_after null l n xs);
  no_head = ground (arith, r.no_head, mem-insert_after p l n xs);
  once = distinct-insert_after l n xs r.once (ground arith);
}

pub IsNode-loose : (h : Heap) (n : Ptr) → IsLoose h n → n ≢ null → IsNode h n
IsNode-loose h n loose nn = ground arith

Circle-prepend :
    (h : Heap) (p n x : Ptr) (xs : List Ptr)
    → IsRing h p (x ∷ xs)
    → n ∉ p ∷ x ∷ xs
    → Circle (link (set_next h p n) (last_of x xs) n) p (n ∷ x ∷ xs)
Circle-prepend h p n x xs r o =
    let c = Chain-set_head h p n x xs x r.no_head r.circle.1 in
    let d =
      Chain-snoc (set_next h p n) x xs x n (ground (arith, r.once)) (ground (arith, r.once))
        (ground (arith, r.once)) (ground arith) c in
    let (a, b) = Chain-split (link (set_next h p n) (last_of x xs) n) x xs n [] x d in
    let m : last_of x xs ≢ p = ground (arith, last_of-mem x xs, r.no_head) in
    (ground arith, (b.0, b.1, a))

IsRing-prepend :
    (h : Heap) (p n x : Ptr) (xs : List Ptr)
    → IsRing h p (x ∷ xs)
    → n ∉ p ∷ x ∷ xs
    → n ≢ null
    → IsRing (link (set_next h p n) (last_of x xs) n) p (n ∷ x ∷ xs)
IsRing-prepend h p n x xs r o nn = record {
  not_null = r.not_null;
  head =
      let e = Chain-end h x xs x r.circle.1 in ground (arith, r.head, r.no_head, last_of-mem x xs);
  circle = Circle-prepend h p n x xs r o;
  no_null = ground (arith, r.no_null);
  no_head = ground (arith, r.no_head);
  once = ground (arith, r.once);
}

pub IsRing-single :
    (h : Heap) (p n : Ptr)
    → IsRing h p []
    → n ∉ p ∷ []
    → IsLoose h n
    → n ≢ null
    → IsRing (set_next h p n) p (n ∷ [])
IsRing-single h p n r o loose nn = record {
  not_null = r.not_null;
  head = r.head;
  circle = (ground arith, (ground arith, ground arith));
  no_null = ground arith;
  no_head = ground arith;
  once = refl;
}

IsNode-set_next : (h : Heap) (p v n : Ptr) → v ≢ null → IsNode h n → IsNode (set_next h p v) n
IsNode-set_next h p v n nv nn = (nn.0, nn.1, ground arith)

module _ {h : Heap} {p : Ptr} (n : Ptr) (loose : IsLoose h n) (nn : n ≢ null) where
  -- `link_after` puts a loose node behind a node of the list.
  pub link_after-insert_after :
      {xs : List Ptr} (l : Ptr)
      → IsRing h p xs
      → l ∈ xs
      → n ∉ p ∷ xs
      → (g : Heap) × (link_after h l n ≡ ok g) × Added h p n xs (insert_after l n xs) g
  link_after-insert_after {xs} l r m o =
      let (a, b) = IsRing-neighbours l r m in
      (
        link h l n,
        link_after-link h l n (IsNode-mem l r m) (IsNode-loose h n loose nn)
            (IsNode-mem (h.next l) r a),
        record {
          ring = IsRing-link h p l n xs r m o nn;
          same = λ q i. (ground arith, ground arith);
        },
      )

  -- `k_append_node_to_list` on a node of a list does not panic, and puts a loose node right behind
  -- that node.
  pub k_append_node_to_list-insert_after :
      {xs : List Ptr} (l : Ptr)
      → IsRing h p xs
      → l ∈ xs
      → n ∉ p ∷ xs
      → (g : Heap) × (k_append_node_to_list h l n ≡ ok g) × Added h p n xs (insert_after l n xs) g
  unfolding k_append_node_to_list
  k_append_node_to_list-insert_after {xs} l r m o =
      let (a, b) = k_is_list_node_lem l r m in
      let c = k_is_list_node_of_IsNode h n (IsNode-loose h n loose nn) in
      let ne : (l == n) ≡ false = ground arith in
      let (g, e, w) = link_after-insert_after l r m o in (g, rw (a, b, c, ne, e), w)

  -- `k_append_node_to_list` on the head of a list does not panic, and makes a loose node the first
  -- of the list.
  pub k_append_node_to_list-cons :
      (xs : List Ptr)
      → IsRing h p xs
      → n ∉ p ∷ xs
      → (g : Heap) × (k_append_node_to_list h p n ≡ ok g) × Added h p n xs (n ∷ xs) g
  unfolding k_append_node_to_list append_to_head
  k_append_node_to_list-cons [] r o =
      let c = k_is_list_node_of_IsNode h n (IsNode-loose h n loose nn) in
      let ne : (p == n) ≡ false = ground arith in
      let e : (h.next p == null) ≡ true = ground (arith, r.circle) in
      (
        set_next h p n,
        rw (k_is_list_node_of_head r, k_is_list_head_lem r, c, ne, e),
        record {
          ring = IsRing-single h p n r o loose nn;
          same = λ q i. (ground arith, ground arith);
        },
      )
  k_append_node_to_list-cons (x ∷ xs) r o =
      let c = k_is_list_node_of_IsNode h n (IsNode-loose h n loose nn) in
      let ne : (p == n) ≡ false = ground arith in
      let e : (h.next p == null) ≡ false = ground (arith, r.circle, r.no_null) in
      let f = Chain-end h x xs x r.circle.1 in
      let m = last_of-mem x xs in
      let l = last_of x xs in
      let same : IsNode (set_next h p n) l = IsNode-set_next h p n l nn (IsNode-mem l r m) in
      let first : (set_next h p n).next l ≡ x = ground (arith, r.no_head) in
      (
        link (set_next h p n) l n,
        rw (
          k_is_list_node_of_head r,
          k_is_list_head_lem r,
          c,
          ne,
          e,
          k_get_last_node_lem x xs r,
          link_after-link (set_next h p n) l n same
              (IsNode-set_next h p n n nn (IsNode-loose h n loose nn))
              (subst (IsNode (set_next h p n)) (sym first)
                (IsNode-set_next h p n x nn (IsNode-mem x r (ground arith)))),
        ),
        record {
          ring = IsRing-prepend h p n x xs r o nn;
          same = λ q i. (ground (arith, r.no_head), ground (arith, r.no_head));
        },
      )
