-- ===== src/Scheduler/Lists.antt =====
-- The lists of kernel/scheduler.c: the reads, and the move to the end of another list.
use bsprakt_os.Base.{
  ◌≡◌, ◌≢◌, refl, List, [], ◌∷◌, ◌++◌, arith, ◌∈◌, ◌∉◌, ok, update, erase, subst, sym, ap, ◌∙◌,
}
use bsprakt_os.IntrusiveList.{Ptr, Heap, k_is_list_empty, k_get_first_node, k_get_last_node}
use bsprakt_os.IntrusiveList.Chain.{last_of, last_of-mem, insert_after, insert_after-last}
use bsprakt_os.IntrusiveList.Ring.{IsRing}
use bsprakt_os.IntrusiveList.Ring.Read.{
  is_nil, k_is_list_empty_lem, k_get_first_node_lem, k_get_last_node_lem,
}
use bsprakt_os.IntrusiveList.Store.{IsHead, Lists, IsStore, transfer_first_lem, transfer_behind_lem}
use bsprakt_os.Scheduler.{move_to_end}

-- The lists after a node has moved to the end of another list.
abbrev pub moved : Ptr → Ptr → Ptr → Lists → Lists
moved from to n l = update (update l from (erase n (l from))) to (l to ++ n ∷ [])

module _ {h : Heap} {l : Lists} (s : IsStore h l) (p : Ptr) (hp : IsHead p) where
  IsRing-at : (xs : List Ptr) → l p ≡ xs → IsRing h p xs
  IsRing-at xs e = subst (IsRing h p) e (s.rings p hp)

  pub empty_at : (xs : List Ptr) → l p ≡ xs → k_is_list_empty h p ≡ ok (is_nil xs)
  empty_at xs e = k_is_list_empty_lem xs (IsRing-at xs e)

  pub first_at : (x : Ptr) (xs : List Ptr) → l p ≡ x ∷ xs → k_get_first_node h p ≡ ok x
  first_at x xs e = k_get_first_node_lem x xs (IsRing-at (x ∷ xs) e)

  pub last_at : (x : Ptr) (xs : List Ptr) → l p ≡ x ∷ xs → k_get_last_node h p ≡ ok (last_of x xs)
  last_at x xs e = k_get_last_node_lem x xs (IsRing-at (x ∷ xs) e)

  pub once_at : (x : Ptr) (xs : List Ptr) → l p ≡ x ∷ xs → x ∉ xs
  once_at x xs e = ground (arith, (IsRing-at (x ∷ xs) e).once)

  -- Behind the last node of the list is at its end.
  pub behind_last :
      (n x : Ptr) (xs : List Ptr)
      → l p ≡ x ∷ xs
      → insert_after (last_of x xs) n (l p) ≡ l p ++ n ∷ []
  behind_last n x xs e =
      subst (λ t. insert_after (last_of x xs) n t ≡ t ++ n ∷ []) (sym e)
        (insert_after-last n x xs (IsRing-at (x ∷ xs) e).once)

module _ {h : Heap} {l : Lists} (s : IsStore h l) (from to n : Ptr) (hf : IsHead from)
    (ht : IsHead to) (ne : to ≢ from) (i : n ∈ l from) where
  move_to :
      (xs : List Ptr)
      → l to ≡ xs
      → (g : Heap) × (move_to_end from to n h ≡ ok g) × IsStore g (moved from to n l)
  unfolding move_to_end
  move_to [] e =
      let (g, f, w) = transfer_first_lem s from to n hf ht ne i in
      (
        g,
        rw (empty_at s to ht [] e) f,
        subst (λ t. IsStore g (update (update l from (erase n (l from))) to t))
            (ap (λ t. n ∷ t) e ∙ sym (ap (λ t. t ++ n ∷ []) e)) w,
      )
  move_to (x ∷ xs) e =
      let m : last_of x xs ∈ l to = subst (λ t. last_of x xs ∈ t) (sym e) (last_of-mem x xs) in
      let (g, f, w) = transfer_behind_lem s from to n hf ht ne i (last_of x xs) m in
      (
        g,
        rw (empty_at s to ht (x ∷ xs) e, last_at s to ht x xs e) f,
        subst (λ t. IsStore g (update (update l from (erase n (l from))) to t))
            (behind_last s to ht n x xs e) w,
      )

  -- The pattern by which the scheduler moves a thread from one list to another takes its node out
  -- of the first list and puts it at the end of the second one.
  pub move_to_end-moved :
      (g : Heap) × (move_to_end from to n h ≡ ok g) × IsStore g (moved from to n l)
  move_to_end-moved = move_to (l to) refl
