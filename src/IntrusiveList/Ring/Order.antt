-- ===== src/IntrusiveList/Ring/Order.antt =====
-- `k_insert_sorted` of kernel/lib/kintrusive_list.c and the order of the list.
use bsprakt_os.Base.{◌≡◌, true, false, Bool, List, [], ◌∷◌, ◌++◌, arith, ◌&&◌, inl, inr, Bool-cases}
use bsprakt_os.IntrusiveList.{Ptr}
use bsprakt_os.IntrusiveList.Ring.Insert.{insert_before, inserted}

-- Neighbours compare in order.
abbrev pub ordered : (Ptr → Ptr → Bool) → List Ptr → Bool
ordered cmp [] = true
ordered cmp (x ∷ []) = true
ordered cmp (x ∷ y ∷ ys) = cmp x y && ordered cmp (y ∷ ys)

-- A comparison that orders any two nodes.
pub record IsOrder (cmp : Ptr → Ptr → Bool) : Type 0 where
  pub total : (a b : Ptr) → cmp a b ≡ false → cmp b a ≡ true
  pub trans : (a b c : Ptr) → cmp a b ≡ true → cmp b c ≡ true → cmp a c ≡ true

module _ (cmp : Ptr → Ptr → Bool) (w : IsOrder cmp) (n : Ptr) where
  ordered-insert_before :
      (x : Ptr) (xs : List Ptr)
      → ordered cmp (x ∷ xs) ≡ true
      → cmp x n ≡ true
      → ordered cmp (x ∷ insert_before cmp n xs) ≡ true
  ordered-insert_before x [] o t = ground arith
  ordered-insert_before x (y ∷ ys) o t = elim (Bool-cases (cmp y n)) [
    | inl more ↦ rw more (ground (arith, ordered-insert_before y ys (ground arith) more))
    | inr stop ↦ rw stop (ground (arith, w.total y n))
  ]

  unordered-snoc :
      (x y : Ptr) (xs : List Ptr)
      → ordered cmp (y ∷ xs) ≡ true
      → cmp x y ≡ true
      → cmp x n ≡ false
      → ordered cmp (y ∷ xs ++ n ∷ []) ≡ false
  unordered-snoc x y [] o t f = ground (arith, w.trans x y n)
  unordered-snoc x y (z ∷ zs) o t f =
      ground (arith, unordered-snoc x z zs (ground arith) (w.trans x y z t (ground arith)) f)

  -- On an ordered list the list that `k_insert_sorted` leaves is ordered exactly when the list was
  -- empty or its first node compares below the new one.
  pub inserted-ordered :
      (x : Ptr) (xs : List Ptr)
      → ordered cmp (x ∷ xs) ≡ true
      → ordered cmp (inserted cmp n (x ∷ xs)) ≡ cmp x n
  inserted-ordered x xs o = elim (Bool-cases (cmp x n)) [
    | inl more ↦ rw more (ordered-insert_before x xs o more)
    | inr stop ↦ rw stop (unordered-snoc x x xs o (ground (arith, w.total x x)) stop)
  ]
