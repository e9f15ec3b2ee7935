-- ===== src/IntrusiveList/Ring/Remove.antt =====
-- `k_remove_node_from_list` of kernel/lib/kintrusive_list.c takes a node out of its list.
use bsprakt_os.Base.{
  ◌≡◌, ◌≢◌, refl, true, List, [], ◌∷◌, ◌++◌, arith, ◌∈◌, ◌∉◌, distinct, ok, if◌then◌else◌, ◌==◌,
  erase, has-append, inl, inr, Bool-cases, append-nil, distinct-erase, mem-of-mem-erase, subst, ◌∙◌,
  sym, ap, distinct-snoc, erase-append,
}
use bsprakt_os.IntrusiveList.{Ptr, null, Heap, behead, connect, k_remove_node_from_list, set_next}
use bsprakt_os.IntrusiveList.Chain.{
  Chain, Chain-last, last_of-mem, Chain-append, unlink, Chain-unlink, Chain-frame,
}
use bsprakt_os.IntrusiveList.Ring.{IsRing, IsRing-neighbours, SameOutside, IsLoose, Circle}
use bsprakt_os.IntrusiveList.Ring.Read.{
  k_is_list_head_lem, k_is_list_node_lem, IsNode, IsNode-mem, k_connect_nodes_lem, connect-IsNode,
}

-- The heap that the removal leaves.
abbrev removed : Heap → Ptr → Ptr → Heap
removed h p n = unlink (if h.next p == n then behead h p n else h) n

-- A write to the head's `next` is none of the circle's links.
pub Chain-set_head :
    (h : Heap) (p v a : Ptr) (ys : List Ptr) (b : Ptr)
    → p ∉ a ∷ ys
    → Chain h a ys b
    → Chain (set_next h p v) a ys b
Chain-set_head h p v a ys b o c =
    Chain-frame h (set_next h p v) a ys b (λ q m. ground arith) (λ q m. refl) c

-- Turning the circle by one node.
Chain-turn :
    (h : Heap) (x y : Ptr) (ys : List Ptr) → Chain h x (y ∷ ys) x → Chain h y (ys ++ x ∷ []) y
Chain-turn h x y ys c = Chain-append h y ys x [] y c.2 (c.0, c.1)

removed-first :
    (h : Heap) (p n : Ptr)
    → h.next p ≡ n
    → h.previous n ≢ n
    → removed h p n ≡ unlink (set_next h p (h.next n)) n
removed-first h p n e ne = ground arith

removed-later : (h : Heap) (p n : Ptr) → h.next p ≢ n → removed h p n ≡ unlink h n
removed-later h p n ne = ground arith

Circle-remove_first :
    (h : Heap) (p x y : Ptr) (ys : List Ptr)
    → IsRing h p (x ∷ y ∷ ys)
    → Circle (unlink (set_next h p y) x) p (y ∷ ys)
Circle-remove_first h p x y ys r =
    let (_, b) = IsRing-neighbours x r (ground arith) in
    let turned =
      Chain-turn (set_next h p y) x y ys (Chain-set_head h p y x (y ∷ ys) x r.no_head r.circle.1) in
    let d : distinct (ys ++ x ∷ []) ≡ true =
      distinct-snoc x ys (ground (arith, r.once)) (ground (arith, r.once)) in
    let o : y ∉ ys ++ x ∷ [] = ground (arith, has-append y ys (x ∷ []), r.once) in
    let m : x ∈ ys ++ x ∷ [] = ground (arith, has-append x ys (x ∷ [])) in
    let c = Chain-unlink (set_next h p y) y (ys ++ x ∷ []) y x o o d m turned in
    let e : erase x (ys ++ x ∷ []) ≡ ys =
      erase-append x ys [] (ground (arith, r.once)) ∙ append-nil ys in
    (ground (arith, r.no_head), subst (λ t. Chain (unlink (set_next h p y) x) y t y) e c)

Circle-remove :
    (h : Heap) (p n : Ptr) (xs : List Ptr)
    → IsRing h p xs
    → n ∈ xs
    → Circle (removed h p n) p (erase n xs)
Circle-remove h p n (x ∷ []) r m = ground (arith, r.circle, r.no_head)
Circle-remove h p n (x ∷ y ∷ ys) r m = elim (Bool-cases (n == x)) [
  | inl hit ↦
      let e : n ≡ x = ground arith in
      let a : h.previous x ≢ x =
        ground (arith, Chain-last h x (y ∷ ys) x r.circle.1, last_of-mem y ys, r.once) in
      let f : removed h p x ≡ unlink (set_next h p y) x =
        removed-first h p x r.circle.0 a ∙ ap (λ t. unlink (set_next h p t) x) r.circle.1.0 in
      rw hit (
        subst (λ t. Circle (removed h p t) p (y ∷ ys)) (sym e)
          (subst (λ g. Circle g p (y ∷ ys)) (sym f) (Circle-remove_first h p x y ys r)))
  | inr miss ↦ rw miss (
      subst (λ g. Circle g p (x ∷ erase n (y ∷ ys)))
        (sym (removed-later h p n (ground (arith, r.circle.0))))
        (
          ground (arith, IsRing-neighbours n r m, r.circle.0, r.no_head),
          Chain-unlink h x (y ∷ ys) x n (ground (arith, r.once)) (ground (arith, r.once))
              (ground (arith, r.once)) (ground arith) r.circle.1,
        ))
]
Circle-remove h p n [] r m = cc

no_head-erase : (p n : Ptr) (xs : List Ptr) → p ∉ xs → p ∉ erase n xs
no_head-erase p n xs o = ground (arith, mem-of-mem-erase p n xs)

IsRing-remove :
    (h : Heap) (p n : Ptr) (xs : List Ptr)
    → IsRing h p xs
    → n ∈ xs
    → IsRing (removed h p n) p (erase n xs)
IsRing-remove h p n xs r m = record {
  not_null = r.not_null;
  head = ground (arith, r.head, r.no_head, IsRing-neighbours n r m);
  circle = Circle-remove h p n xs r m;
  no_null = no_head-erase null n xs r.no_null;
  no_head = no_head-erase p n xs r.no_head;
  once = distinct-erase n xs r.once;
}

-- What `k_remove_node_from_list` has done to the list `xs` of the head `p`.
pub record Removed (h : Heap) (p n : Ptr) (xs : List Ptr) (g : Heap) : Type 0 where
  pub ring : IsRing g p (erase n xs)
  pub loose : IsLoose g n
  pub same : SameOutside (p ∷ xs) h g

Removed-removed :
    (h : Heap) (p n : Ptr) (xs : List Ptr)
    → IsRing h p xs
    → n ∈ xs
    → Removed h p n xs (removed h p n)
Removed-removed h p n xs r m = record {
  ring = IsRing-remove h p n xs r m;
  loose = (ground arith, ground arith);
  same = λ q o. let nb = IsRing-neighbours n r m in (ground arith, ground arith);
}

-- The heap when the head has been seen to.
abbrev beheaded : Heap → Ptr → Ptr → Heap
beheaded h p n = if h.next p == n then behead h p n else h

IsNode-beheaded : (h : Heap) (p n q : Ptr) → q ≢ p → IsNode h q → IsNode (beheaded h p n) q
IsNode-beheaded h p n q ne nn = ground arith

beheaded-links :
    (h : Heap) (p n : Ptr)
    → n ≢ p
    → ((beheaded h p n).previous n ≡ h.previous n) × ((beheaded h p n).next n ≡ h.next n)
beheaded-links h p n ne = (ground arith, ground arith)

k_remove_node_from_list-removed :
    (h : Heap) (p n : Ptr) (xs : List Ptr)
    → IsRing h p xs
    → n ∈ xs
    → k_remove_node_from_list h p n ≡ ok (removed h p n)
unfolding k_remove_node_from_list
k_remove_node_from_list-removed h p n xs r m =
    let ne : (q : Ptr) → q ∈ xs → q ≢ p = λ q i. ground (arith, r.no_head) in
    let (e, f) = beheaded-links h p n (ne n m) in
    let (a, b) = IsRing-neighbours n r m in
    let g = beheaded h p n in
    let node : (q : Ptr) → q ∈ xs → IsNode g q =
      λ q i. IsNode-beheaded h p n q (ne q i) (IsNode-mem q r i) in
    let before = node (g.previous n) (subst (λ t. t ∈ xs) (sym e) b) in
    let after = node (g.next n) (subst (λ t. t ∈ xs) (sym f) a) in
    let own = connect-IsNode g (g.previous n) (g.next n) n before.0 after.0 (node n m) in
    rw (
      k_is_list_head_lem r,
      (k_is_list_node_lem n r m).0,
      k_connect_nodes_lem g (g.previous n) (g.next n) before after,
      k_connect_nodes_lem (connect g (g.previous n) (g.next n)) n n own own,
    )

-- `k_remove_node_from_list` does not panic on a node of the list: it takes the node out, keeps the
-- order of the others, leaves the node linked to itself, and writes to no other node.
pub k_remove_node_from_list-erase :
    {h : Heap} {p : Ptr} {xs : List Ptr} (n : Ptr)
    → IsRing h p xs
    → n ∈ xs
    → (g : Heap) × (k_remove_node_from_list h p n ≡ ok g) × Removed h p n xs g
k_remove_node_from_list-erase {h} {p} {xs} n r m =
    (removed h p n, k_remove_node_from_list-removed h p n xs r m, Removed-removed h p n xs r m)
