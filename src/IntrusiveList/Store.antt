-- ===== src/IntrusiveList/Store.antt =====
-- All lists of the kernel at once. The heads of the lists lie below `node_base`, the nodes at or
-- above it; the operations of kernel/lib/kintrusive_list.c on one list leave the others alone.
use mathlib.Core.Path.{fun_ext}
use bsprakt_os.Base.{
  ℕ, ◌<◌, ◌≤◌, ◌≡◌, ◌≢◌, false, Bool, List, ◌∷◌, arith, ◌∈◌, ◌∉◌, ok, ◌==◌, update, erase, length,
  inl, inr, Bool-cases, not-mem-erase, not-mem-erase_of_ne, mem-of-mem-erase, subst, ◌∙◌, has, sym,
  ap, if◌then◌else◌, length-le_of_distinct,
}
use bsprakt_os.IntrusiveList.{
  Ptr, Heap, k_remove_node_from_list, k_append_node_to_list, k_insert_sorted, k_transfer_list_node,
}
use bsprakt_os.IntrusiveList.Chain.{insert_after, mem-insert_after, not-mem_of_insert_after}
use bsprakt_os.IntrusiveList.Ring.{IsRing, IsRing-frame, SameOutside, IsLoose}
use bsprakt_os.IntrusiveList.Ring.Remove.{k_remove_node_from_list-erase}
use bsprakt_os.IntrusiveList.Ring.Append.{
  Added, k_append_node_to_list-cons, k_append_node_to_list-insert_after,
}
use bsprakt_os.IntrusiveList.Ring.Insert.{inserted, mem-inserted, k_insert_sorted-inserted}

abbrev pub node_base : Ptr
node_base = 16

-- Behind the last node: there are 33 thread control blocks, with two nodes each.
abbrev pub node_end : Ptr
node_end = 82

abbrev pub InBlocks : Ptr → Type 0
InBlocks n = (node_base ≤ n) × (n < node_end)

abbrev pub IsHead : Ptr → Type 0
IsHead p = (0 < p) × (p < node_base)

-- The nodes of each list, by the address of its head.
abbrev pub Lists : Type 0
Lists = Ptr → List Ptr

-- The node is in none of the lists.
abbrev pub InNone : Ptr → Lists → Type 0
InNone n l = (p : Ptr) → n ∉ l p

pub record IsStore (h : Heap) (l : Lists) : Type 0 where
  pub rings : (p : Ptr) → IsHead p → IsRing h p (l p)
  pub nodes : (p n : Ptr) → n ∈ l p → InBlocks n
  pub apart : (p q n : Ptr) → n ∈ l p → n ∈ l q → p ≡ q
  pub loose : (n : Ptr) → InBlocks n → InNone n l → IsLoose h n

-- No list has more nodes than there are.
pub length-le_node_end :
    {h : Heap} {l : Lists} → IsStore h l → (p : Ptr) → IsHead p → length (l p) ≤ node_end
length-le_node_end {l} s p hp =
    length-le_of_distinct node_end (l p) (s.rings p hp).once (λ a i. (s.nodes p a i).1)

-- The lists matter only list by list.
pub IsStore-pointwise :
    {h : Heap} {l m : Lists} → ((p : Ptr) → l p ≡ m p) → IsStore h l → IsStore h m
IsStore-pointwise {h} e s = subst (IsStore h) (fun_ext e) s

-- What an operation on the list of the head `p` and the node `n` may do.
record Change (h g : Heap) (l : Lists) (p n : Ptr) (ys : List Ptr) : Type 0 where
  ring : IsRing g p ys
  same : SameOutside (n ∷ p ∷ l p) h g
  node : InBlocks n
  only : (q : Ptr) → n ∈ l q → q ≡ p
  within : (m : Ptr) → m ∉ n ∷ l p → m ∉ ys
  left : (m : Ptr) → m ∈ n ∷ l p → m ∉ ys → IsLoose g m

module _ {h g : Heap} {l : Lists} {p n : Ptr} {ys : List Ptr} (s : IsStore h l) (hp : IsHead p)
    (c : Change h g l p n ys) where
  outside : (q m : Ptr) → IsHead q → q ≢ p → m ∈ q ∷ l q → m ∉ n ∷ p ∷ l p
  outside q m hq ne i = elim (Bool-cases (m == q)) [
    | inl e ↦ ground (arith, c.node, s.nodes p q)
    | inr other ↦ ground (arith, c.only q, s.nodes q m, s.apart q p m)
  ]

  Change-rings : (q : Ptr) → IsHead q → IsRing g q (update l p ys q)
  Change-rings q hq = elim (Bool-cases (q == p)) [
    | inl e ↦ let f : p ≡ q = ground arith in rw e (subst (λ t. IsRing g t ys) f c.ring)
    | inr ne ↦
        rw ne (IsRing-frame g (s.rings q hq) λ m i. c.same m (outside q m hq (ground arith) i))
  ]

  Change-nodes : (q m : Ptr) → m ∈ update l p ys q → InBlocks m
  Change-nodes q m i = ground (arith, s.nodes q m, s.nodes p m, c.within m, c.node)

  Change-apart : (a b m : Ptr) → m ∈ update l p ys a → m ∈ update l p ys b → a ≡ b
  Change-apart a b m i j =
      ground (arith, s.apart a b m, s.apart p b m, s.apart a p m, c.within m, c.only a, c.only b)

  Change-IsLoose : (m : Ptr) → InBlocks m → InNone m (update l p ys) → IsLoose g m
  Change-IsLoose m b o =
      let none : m ∉ ys = ground (arith, o p) in
      elim (Bool-cases (has m (n ∷ l p))) [
        | inl i ↦ c.left m i none
        | inr out ↦
            let (e, f) = c.same m (ground arith) in
            let (a, d) = s.loose m b (λ q. ground (arith, o q)) in (e ∙ a, f ∙ d)
      ]

  Change-IsStore : IsStore g (update l p ys)
  Change-IsStore = record {
    rings = Change-rings;
    nodes = Change-nodes;
    apart = Change-apart;
    loose = Change-IsLoose;
  }

added :
    {h g : Heap} {l : Lists} {p n : Ptr} {ys : List Ptr}
    → InBlocks n
    → InNone n l
    → Added h p n (l p) ys g
    → ((m : Ptr) → m ∉ n ∷ l p → m ∉ ys)
    → ((m : Ptr) → m ∉ ys → m ∉ n ∷ l p)
    → Change h g l p n ys
added {n} b o w within all = record {
  ring = w.ring;
  same = w.same;
  node = b;
  only = λ q i. cc (o q);
  within = within;
  left = λ m i out. cc (all m out);
}

module _ {h : Heap} {l : Lists} (s : IsStore h l) (p n : Ptr) (hp : IsHead p) where
  -- `k_remove_node_from_list` on a node of the list takes it out of that list, and changes no
  -- other list.
  pub remove_lem :
      n ∈ l p
      → (g : Heap) × (k_remove_node_from_list h p n ≡ ok g) × IsStore g (update l p (erase n (l p)))
  remove_lem i =
      let r = s.rings p hp in
      let (g, e, w) = k_remove_node_from_list-erase n r i in
      (
        g,
        e,
        Change-IsStore s hp (record {
          ring = w.ring;
          same = λ q o. w.same q (ground arith);
          node = s.nodes p n i;
          only = λ q j. s.apart q p n j i;
          within = λ m o. ground (arith, mem-of-mem-erase m n (l p));
          left = λ m j o. ground (arith, w.loose, not-mem-erase_of_ne m n (l p));
        }),
      )

  -- `k_append_node_to_list` on the head of a list makes a node that is in no list its first node.
  pub append_first_lem :
      InBlocks n
      → InNone n l
      → (g : Heap) × (k_append_node_to_list h p n ≡ ok g) × IsStore g (update l p (n ∷ l p))
  append_first_lem b o =
      let r = s.rings p hp in
      let (g, e, w) =
        k_append_node_to_list-cons n (s.loose n b o) (ground arith) (l p) r (ground (arith, o p)) in
      (g, e, Change-IsStore s hp (added b o w (λ m i. i) (λ m i. i)))

  -- Behind a node `m` of the list, it puts the node right after `m`.
  pub append_behind_lem :
      (m : Ptr)
      → m ∈ l p
      → InBlocks n
      → InNone n l
      → (g : Heap) × (k_append_node_to_list h m n ≡ ok g)
        × IsStore g (update l p (insert_after m n (l p)))
  append_behind_lem m j b o =
      let r = s.rings p hp in
      let (g, e, w) =
        k_append_node_to_list-insert_after n (s.loose n b o) (ground arith) m r j
          (ground (arith, o p)) in
      (
        g,
        e,
        Change-IsStore s hp (
            added b o w (λ q i. ground (arith, mem-insert_after q m n (l p)))
              (λ q i. not-mem_of_insert_after q m n (l p) j i)),
      )

  -- `k_insert_sorted` inserts a node that is in no list, given fuel for the list's length.
  pub insert_sorted_lem :
      (cmp : Ptr → Ptr → Bool) (fuel : ℕ)
      → length (l p) ≤ fuel
      → InBlocks n
      → InNone n l
      → (g : Heap) × (k_insert_sorted fuel h p n cmp ≡ ok g)
        × IsStore g (update l p (inserted cmp n (l p)))
  insert_sorted_lem cmp fuel f b o =
      let r = s.rings p hp in
      let (g, e, w) =
        k_insert_sorted-inserted cmp n fuel (l p) r (ground (arith, o p)) (ground arith)
          (s.loose n b o) f in
      (
        g,
        e,
        Change-IsStore s hp (
            added b o w (λ q i. ground (arith, mem-inserted cmp q n (l p)))
              (λ q i. ground (arith, mem-inserted cmp q n (l p)))),
      )

  -- A node that was taken out of a list is in no list.
  pub InNone-erase : n ∈ l p → InNone n (update l p (erase n (l p)))
  InNone-erase i q = ground (arith, not-mem-erase n (l p) (s.rings p hp).once, s.apart q p n)

module _ {h : Heap} {l : Lists} (s : IsStore h l) (from to n : Ptr) (hf : IsHead from)
    (ht : IsHead to) (ne : to ≢ from) (i : n ∈ l from) where
  -- `k_transfer_list_node` to the head of another list.
  pub transfer_first_lem :
      (g : Heap) × (k_transfer_list_node h from to n ≡ ok g)
      × IsStore g (update (update l from (erase n (l from))) to (n ∷ l to))
  unfolding k_transfer_list_node
  transfer_first_lem =
      let (a, e, t) = remove_lem s from n hf i in
      let other : (to == from) ≡ false = ground arith in
      let (g, f, u) = append_first_lem t to n ht (s.nodes from n i) (InNone-erase s from n hf i) in
      (g, rw e f, rw other at u)

  -- `k_transfer_list_node` to a node of another list.
  pub transfer_behind_lem :
      (m : Ptr)
      → m ∈ l to
      → (g : Heap) × (k_transfer_list_node h from m n ≡ ok g)
        × IsStore g (update (update l from (erase n (l from))) to (insert_after m n (l to)))
  unfolding k_transfer_list_node
  transfer_behind_lem m j =
      let (a, e, t) = remove_lem s from n hf i in
      let other : (to == from) ≡ false = ground arith in
      let (g, f, u) =
        append_behind_lem t to n ht m
          (subst (λ t. m ∈ t) (sym (ap (λ b. if b then erase n (l from) else l to) other)) j)
          (s.nodes from n i) (InNone-erase s from n hf i) in
      (g, rw e f, rw other at u)
