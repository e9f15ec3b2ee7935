-- ===== src/IntrusiveList/Ring.antt =====
-- The lists of kernel/lib/kintrusive_list.c: a head and the circle of its nodes.
pub mod Read
pub mod Remove
pub mod Append
pub mod Insert
pub mod Order
use bsprakt_os.Base.{◌≡◌, ◌≢◌, true, List, [], ◌∷◌, arith, ◌∈◌, ◌∉◌, distinct}
use bsprakt_os.IntrusiveList.{Ptr, null, Heap}
use bsprakt_os.IntrusiveList.Chain.{
  Chain, Chain-frame, Chain-next-mem, Chain-previous-mem, Chain-back, Chain-forth,
}

abbrev pub Circle : Heap → Ptr → List Ptr → Type 0
Circle h p [] = h.next p ≡ null
Circle h p (x ∷ xs) = (h.next p ≡ x) × Chain h x xs x

-- The head `p` holds the nodes `xs`, first to last.
pub record IsRing (h : Heap) (p : Ptr) (xs : List Ptr) : Type 0 where
  pub not_null : p ≢ null
  pub head : h.previous p ≡ null
  pub circle : Circle h p xs
  pub no_null : null ∉ xs
  pub no_head : p ∉ xs
  pub once : distinct xs ≡ true

-- `g` differs from `h` at most at the nodes of `xs`.
abbrev pub SameOutside : List Ptr → Heap → Heap → Type 0
SameOutside xs h g = (q : Ptr) → q ∉ xs → (g.next q ≡ h.next q) × (g.previous q ≡ h.previous q)

-- A node that is in no list is linked to itself.
abbrev pub IsLoose : Heap → Ptr → Type 0
IsLoose h n = (h.next n ≡ n) × (h.previous n ≡ n)

Circle-frame :
    (h g : Heap) (p : Ptr) (xs : List Ptr)
    → ((q : Ptr) → q ∈ p ∷ xs → (g.next q ≡ h.next q) × (g.previous q ≡ h.previous q))
    → Circle h p xs
    → Circle g p xs
Circle-frame h g p [] same c = ground (arith, same p)
Circle-frame h g p (x ∷ xs) same c = (
  ground (arith, same p),
  Chain-frame h g x xs x (λ q m. (same q (ground arith)).0) (λ q m. (same q (ground arith)).1) c.1,
)

pub IsRing-frame :
    {h : Heap} (g : Heap) {p : Ptr} {xs : List Ptr}
    → IsRing h p xs
    → ((q : Ptr) → q ∈ p ∷ xs → (g.next q ≡ h.next q) × (g.previous q ≡ h.previous q))
    → IsRing g p xs
IsRing-frame {h} g {p} {xs} r same = record {
  not_null = r.not_null;
  head = ground (arith, same p, r.head);
  circle = Circle-frame h g p xs same r.circle;
  no_null = r.no_null;
  no_head = r.no_head;
  once = r.once;
}

neighbours :
    (h : Heap) (p : Ptr) (xs : List Ptr) (n : Ptr)
    → n ∈ xs
    → Circle h p xs
    → (h.next n ∈ xs) × (h.previous n ∈ xs)
neighbours h p [] n m c = cc
neighbours h p (x ∷ xs) n m c =
    (ground (arith, Chain-next-mem h x xs x n), ground (arith, Chain-previous-mem h x xs x n))

-- The neighbours of a node are nodes of its list.
pub IsRing-neighbours :
    {h : Heap} {p : Ptr} {xs : List Ptr} (n : Ptr)
    → IsRing h p xs
    → n ∈ xs
    → (h.next n ∈ xs) × (h.previous n ∈ xs)
IsRing-neighbours {h} {p} {xs} n r m = neighbours h p xs n m r.circle

links :
    (h : Heap) (p : Ptr) (xs : List Ptr) (n : Ptr)
    → n ∈ xs
    → Circle h p xs
    → (h.next (h.previous n) ≡ n) × (h.previous (h.next n) ≡ n)
links h p [] n m c = cc
links h p (x ∷ xs) n m c = (Chain-forth h x xs x n m c.1, Chain-back h x xs x n m c.1)

-- The links of a node's neighbours lead back to it.
pub IsRing-links :
    {h : Heap} {p : Ptr} {xs : List Ptr} (n : Ptr)
    → IsRing h p xs
    → n ∈ xs
    → (h.next (h.previous n) ≡ n) × (h.previous (h.next n) ≡ n)
IsRing-links {h} {p} {xs} n r m = links h p xs n m r.circle
