-- ===== src/IntrusiveList/Chain.antt =====
-- Paths through the nodes of kernel/lib/kintrusive_list.c, and what the writes of the list
-- operations do to them.
use bsprakt_os.Base.{
  ◌≡◌, ◌≢◌, refl, has, subst, true, List, [], ◌∷◌, ◌++◌, arith, ◌==◌, ◌∈◌, ◌∉◌, distinct, erase,
  if◌then◌else◌, inl, inr, Bool-cases,
}
use bsprakt_os.IntrusiveList.{Ptr, Heap, connect}

-- From `a` the links lead through `ys` to `b`, and back.
abbrev pub Chain : Heap → Ptr → List Ptr → Ptr → Type 0
Chain h a [] b = (h.next a ≡ b) × (h.previous b ≡ a)
Chain h a (y ∷ ys) b = (h.next a ≡ y) × (h.previous y ≡ a) × Chain h y ys b

abbrev pub last_of : Ptr → List Ptr → Ptr
last_of a [] = a
last_of a (y ∷ ys) = last_of y ys

-- `n` behind the entry `l`.
abbrev pub insert_after : Ptr → Ptr → List Ptr → List Ptr
insert_after l n [] = []
insert_after l n (x ∷ xs) = if l == x then x ∷ n ∷ xs else x ∷ insert_after l n xs

-- What `k_remove_node_from_list` writes to the nodes.
abbrev pub unlink : Heap → Ptr → Heap
unlink h n = connect (connect h (h.previous n) (h.next n)) n n

-- What the end of `k_append_node_to_list` writes.
abbrev pub link : Heap → Ptr → Ptr → Heap
link h l n = connect (connect h n (h.next l)) l n

pub Chain-frame :
    (h g : Heap) (a : Ptr) (ys : List Ptr) (b : Ptr)
    → ((p : Ptr) → p ∈ a ∷ ys → g.next p ≡ h.next p)
    → ((p : Ptr) → p ∈ b ∷ ys → g.previous p ≡ h.previous p)
    → Chain h a ys b
    → Chain g a ys b
Chain-frame h g a [] b sn sp c = ground (arith, sn a, sp b)
Chain-frame h g a (y ∷ ys) b sn sp c = (
  ground (arith, sn a),
  ground (arith, sp y),
  Chain-frame h g y ys b (λ p m. sn p (ground arith)) (λ p m. sp p (ground arith)) c.2,
)

pub Chain-last :
    (h : Heap) (a : Ptr) (ys : List Ptr) (b : Ptr) → Chain h a ys b → h.previous b ≡ last_of a ys
Chain-last h a [] b c = c.1
Chain-last h a (y ∷ ys) b c = Chain-last h y ys b c.2

pub Chain-end :
    (h : Heap) (a : Ptr) (ys : List Ptr) (b : Ptr) → Chain h a ys b → h.next (last_of a ys) ≡ b
Chain-end h a [] b c = c.0
Chain-end h a (y ∷ ys) b c = Chain-end h y ys b c.2

pub last_of-mem : (a : Ptr) (ys : List Ptr) → last_of a ys ∈ a ∷ ys
last_of-mem a [] = ground arith
last_of-mem a (y ∷ ys) = ground (arith, last_of-mem y ys)

pub Chain-next-mem :
    (h : Heap) (a : Ptr) (ys : List Ptr) (b n : Ptr)
    → n ∈ a ∷ ys
    → Chain h a ys b
    → h.next n ∈ b ∷ ys
Chain-next-mem h a [] b n m c = ground arith
Chain-next-mem h a (y ∷ ys) b n m c = ground (arith, Chain-next-mem h y ys b n)

pub Chain-previous-mem :
    (h : Heap) (a : Ptr) (ys : List Ptr) (b n : Ptr)
    → n ∈ b ∷ ys
    → Chain h a ys b
    → h.previous n ∈ a ∷ ys
Chain-previous-mem h a [] b n m c = ground arith
Chain-previous-mem h a (y ∷ ys) b n m c = ground (arith, Chain-previous-mem h y ys b n)

pub Chain-append :
    (h : Heap) (a : Ptr) (ys : List Ptr) (n : Ptr) (zs : List Ptr) (b : Ptr)
    → Chain h a ys n
    → Chain h n zs b
    → Chain h a (ys ++ n ∷ zs) b
Chain-append h a [] n zs b c d = (c.0, c.1, d)
Chain-append h a (y ∷ ys) n zs b c d = (c.0, c.1, Chain-append h y ys n zs b c.2 d)

pub Chain-split :
    (h : Heap) (a : Ptr) (ys : List Ptr) (n : Ptr) (zs : List Ptr) (b : Ptr)
    → Chain h a (ys ++ n ∷ zs) b
    → Chain h a ys n × Chain h n zs b
Chain-split h a [] n zs b c = ((c.0, c.1), c.2)
Chain-split h a (y ∷ ys) n zs b c = let r = Chain-split h y ys n zs b c.2 in ((c.0, c.1, r.0), r.1)

-- Taking out the first node of a path.
unlink_first :
    (h : Heap) (a : Ptr) (ys : List Ptr) (b n : Ptr)
    → a ∉ n ∷ ys
    → b ∉ n ∷ ys
    → distinct (n ∷ ys) ≡ true
    → Chain h a (n ∷ ys) b
    → Chain (unlink h n) a ys b
unlink_first h a [] b n oa ob d c = ground arith
unlink_first h a (v ∷ vs) b n oa ob d c = (
  ground arith,
  ground arith,
  Chain-frame h (unlink h n) v vs b (λ p m. ground arith) (λ p m. ground arith) c.2.2,
)

-- `k_remove_node_from_list` takes a node out of the path that it stands on.
pub Chain-unlink :
    (h : Heap) (a : Ptr) (ys : List Ptr) (b n : Ptr)
    → a ∉ ys
    → b ∉ ys
    → distinct ys ≡ true
    → n ∈ ys
    → Chain h a ys b
    → Chain (unlink h n) a (erase n ys) b
Chain-unlink h a (y ∷ ys) b n oa ob d m c = elim (Bool-cases (n == y)) [
  | inl hit ↦
      rw hit (unlink_first h a ys b n (ground arith) (ground arith) (ground arith) (ground arith))
  | inr miss ↦ rw miss (
    ground (arith, Chain-previous-mem h y ys b n),
    ground (arith, Chain-next-mem h y ys b n),
    Chain-unlink h y ys b n (ground arith) (ground arith) (ground arith) (ground arith) c.2,
  )
]
Chain-unlink h a [] b n oa ob d m c = cc

-- Linking a node in behind the first node of a path.
pub link_first :
    (h : Heap) (a : Ptr) (ys : List Ptr) (b n : Ptr)
    → a ∉ ys
    → b ∉ ys
    → distinct ys ≡ true
    → n ∉ a ∷ b ∷ ys
    → Chain h a ys b
    → Chain (link h a n) a (n ∷ ys) b
link_first h a [] b n oa ob d m c = ground arith
link_first h a (v ∷ vs) b n oa ob d m c = (
  ground arith,
  ground arith,
  (
    ground arith,
    ground arith,
    Chain-frame h (link h a n) v vs b (λ p i. ground arith) (λ p i. ground arith) c.2,
  ),
)

-- Linking a node in behind a later node of a path.
pub Chain-link :
    (h : Heap) (a : Ptr) (ys : List Ptr) (b l n : Ptr)
    → a ∉ ys
    → b ∉ ys
    → distinct ys ≡ true
    → n ∉ a ∷ b ∷ ys
    → l ∈ ys
    → Chain h a ys b
    → Chain (link h l n) a (insert_after l n ys) b
Chain-link h a (y ∷ ys) b l n oa ob d o m c = elim (Bool-cases (l == y)) [
  | inl hit ↦
      let e : y ≡ l = ground arith in
      rw hit (
        subst (λ t. Chain (link h t n) a (y ∷ n ∷ ys) b) e
          (
            ground (arith, Chain-next-mem h y ys b y),
            ground (arith, Chain-next-mem h y ys b y),
            link_first h y ys b n (ground arith) (ground arith) (ground arith) (ground arith) c.2,
          ))
  | inr miss ↦ rw miss (
    ground (arith, Chain-next-mem h y ys b l),
    ground (arith, Chain-next-mem h y ys b l),
    Chain-link h y ys b l n (ground arith) (ground arith) (ground arith) (ground arith)
        (ground arith) c.2,
  )
]
Chain-link h a [] b l n oa ob d o m c = cc

pub mem-insert_after :
    (q l n : Ptr) (xs : List Ptr) → q ≢ n → has q (insert_after l n xs) ≡ has q xs
mem-insert_after q l n [] ne = refl
mem-insert_after q l n (x ∷ xs) ne = ground (arith, mem-insert_after q l n xs)

pub distinct-insert_after :
    (l n : Ptr) (xs : List Ptr)
    → distinct xs ≡ true
    → n ∉ xs
    → distinct (insert_after l n xs) ≡ true
distinct-insert_after l n [] d o = refl
distinct-insert_after l n (x ∷ xs) d o =
    ground (arith, distinct-insert_after l n xs, mem-insert_after x l n xs)

-- Behind the last node is at the end.
pub insert_after-last :
    (n x : Ptr) (xs : List Ptr)
    → distinct (x ∷ xs) ≡ true
    → insert_after (last_of x xs) n (x ∷ xs) ≡ x ∷ xs ++ n ∷ []
insert_after-last n x [] d = ground arith
insert_after-last n x (y ∷ ys) d = ground (arith, insert_after-last n y ys, last_of-mem y ys)

pub Chain-snoc :
    (h : Heap) (a : Ptr) (ys : List Ptr) (b n : Ptr)
    → a ∉ ys
    → b ∉ ys
    → distinct ys ≡ true
    → n ∉ a ∷ b ∷ ys
    → Chain h a ys b
    → Chain (link h (last_of a ys) n) a (ys ++ n ∷ []) b
Chain-snoc h a [] b n oa ob d o c = link_first h a [] b n oa ob d o c
Chain-snoc h a (y ∷ ys) b n oa ob d o c =
    subst (λ t. Chain (link h (last_of y ys) n) a t b) (insert_after-last n y ys d)
      (Chain-link h a (y ∷ ys) b (last_of y ys) n oa ob d o (last_of-mem y ys) c)

pub not-mem_of_insert_after :
    (q l n : Ptr) (xs : List Ptr) → l ∈ xs → q ∉ insert_after l n xs → q ∉ n ∷ xs
not-mem_of_insert_after q l n [] m o = cc
not-mem_of_insert_after q l n (x ∷ xs) m o = ground (arith, not-mem_of_insert_after q l n xs)

pub Chain-back :
    (h : Heap) (a : Ptr) (ys : List Ptr) (b n : Ptr)
    → n ∈ a ∷ ys
    → Chain h a ys b
    → h.previous (h.next n) ≡ n
Chain-back h a [] b n m c = ground arith
Chain-back h a (y ∷ ys) b n m c = ground (arith, Chain-back h y ys b n)

pub Chain-forth :
    (h : Heap) (a : Ptr) (ys : List Ptr) (b n : Ptr)
    → n ∈ b ∷ ys
    → Chain h a ys b
    → h.next (h.previous n) ≡ n
Chain-forth h a [] b n m c = ground arith
Chain-forth h a (y ∷ ys) b n m c = ground (arith, Chain-forth h y ys b n)
