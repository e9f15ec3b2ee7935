-- ===== src/IntrusiveList/Ring/Read.antt =====
-- The reading operations of kernel/lib/kintrusive_list.c on a list.
use bsprakt_os.Base.{◌≡◌, ◌≢◌, true, false, Bool, List, [], ◌∷◌, arith, ◌∈◌, ◌∉◌, ok, ◌==◌}
use bsprakt_os.IntrusiveList.{
  Ptr, null, Heap, k_is_list_head, k_is_list_node, k_is_list_empty, k_get_first_node,
  k_get_last_node, k_is_first_node, k_is_last_node, k_connect_nodes, connect,
}
use bsprakt_os.IntrusiveList.Chain.{Chain-last, last_of, last_of-mem}
use bsprakt_os.IntrusiveList.Ring.{IsRing, IsRing-neighbours}

abbrev pub is_nil : List Ptr → Bool
is_nil [] = true
is_nil (x ∷ xs) = false

ne_null_of_mem : (n : Ptr) (xs : List Ptr) → n ∈ xs → null ∉ xs → n ≢ null
ne_null_of_mem n xs m o = ground arith

-- What `k_is_list_node` tests.
abbrev pub IsNode : Heap → Ptr → Type 0
IsNode h n = (n ≢ null) × (h.previous n ≢ null) × (h.next n ≢ null)

pub k_is_list_node_of_IsNode : (h : Heap) (n : Ptr) → IsNode h n → k_is_list_node h n ≡ ok true
unfolding k_is_list_node
k_is_list_node_of_IsNode h n nn = ground arith

pub k_connect_nodes_lem :
    (h : Heap) (a b : Ptr) → IsNode h a → IsNode h b → k_connect_nodes h a b ≡ ok (connect h a b)
unfolding k_connect_nodes k_is_list_node
k_connect_nodes_lem h a b na nb = ground arith

pub connect-IsNode :
    (h : Heap) (a b n : Ptr) → a ≢ null → b ≢ null → IsNode h n → IsNode (connect h a b) n
connect-IsNode h a b n na nb nn = (ground arith, ground arith, ground arith)

module _ {h : Heap} {p : Ptr} where
  pub k_is_list_head_lem : {xs : List Ptr} → IsRing h p xs → k_is_list_head h p ≡ ok true
  unfolding k_is_list_head
  k_is_list_head_lem r = ground (arith, r.not_null, r.head)

  pub k_is_list_node_of_head : {xs : List Ptr} → IsRing h p xs → k_is_list_node h p ≡ ok false
  unfolding k_is_list_node
  k_is_list_node_of_head r = ground (arith, r.not_null, r.head)

  -- A node of a list passes as a node, and not as a head.
  pub k_is_list_node_lem :
      {xs : List Ptr} (n : Ptr)
      → IsRing h p xs
      → n ∈ xs
      → (k_is_list_node h n ≡ ok true) × (k_is_list_head h n ≡ ok false)
  unfolding k_is_list_node k_is_list_head
  k_is_list_node_lem {xs} n r m =
      let (a, b) = IsRing-neighbours n r m in
      ground (
        arith,
        ne_null_of_mem n xs m r.no_null,
        ne_null_of_mem (h.next n) xs a r.no_null,
        ne_null_of_mem (h.previous n) xs b r.no_null,
      )

  pub IsNode-mem : {xs : List Ptr} (n : Ptr) → IsRing h p xs → n ∈ xs → IsNode h n
  IsNode-mem {xs} n r m =
      let (a, b) = IsRing-neighbours n r m in
      (
        ne_null_of_mem n xs m r.no_null,
        ne_null_of_mem (h.previous n) xs b r.no_null,
        ne_null_of_mem (h.next n) xs a r.no_null,
      )

  pub k_is_list_empty_lem : (xs : List Ptr) → IsRing h p xs → k_is_list_empty h p ≡ ok (is_nil xs)
  unfolding k_is_list_empty
  k_is_list_empty_lem [] r = ground (arith, k_is_list_head_lem r)
  k_is_list_empty_lem (x ∷ xs) r = ground (arith, k_is_list_head_lem r)

  -- `k_get_first_node` returns the first node, and `k_is_first_node` knows it.
  pub k_get_first_node_lem :
      (x : Ptr) (xs : List Ptr) → IsRing h p (x ∷ xs) → k_get_first_node h p ≡ ok x
  unfolding k_get_first_node
  k_get_first_node_lem x xs r = ground (
    arith,
    k_is_list_head_lem r,
    k_is_list_empty_lem (x ∷ xs) r,
    k_is_list_node_lem x r (ground arith),
    r.circle,
  )

  -- `k_get_last_node` returns the last node.
  pub k_get_last_node_lem :
      (x : Ptr) (xs : List Ptr) → IsRing h p (x ∷ xs) → k_get_last_node h p ≡ ok (last_of x xs)
  unfolding k_get_last_node
  k_get_last_node_lem x xs r =
      let e : h.previous (h.next p) ≡ last_of x xs =
        ground (arith, r.circle, Chain-last h x xs x) in
      ground (
        arith,
        k_is_list_head_lem r,
        k_is_list_empty_lem (x ∷ xs) r,
        k_is_list_node_lem (last_of x xs) r (last_of-mem x xs),
        e,
      )

  pub k_is_first_node_lem :
      (x : Ptr) (xs : List Ptr) (n : Ptr)
      → IsRing h p (x ∷ xs)
      → (k_is_first_node h p n ≡ ok (x == n)) × (k_is_last_node h p n ≡ ok (last_of x xs == n))
  unfolding k_is_first_node k_is_last_node
  k_is_first_node_lem x xs n r = ground (
    arith,
    k_is_list_empty_lem (x ∷ xs) r,
    k_get_first_node_lem x xs r,
    k_get_last_node_lem x xs r,
  )
