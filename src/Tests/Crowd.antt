-- ===== src/Tests/Crowd.antt =====
-- A kernel with all its threads in place, for the theorems about the invariant of the threads of
-- kernel/scheduler.c: thread 0 runs and thread 1 is ready, both in address space 0, and the other
-- user threads are finished.
use bsprakt_os.Base.{
  ℕ, zero, suc, ◌+◌, ◌*◌, ◌-◌, ◌%◌, ◌≡◌, ◌⊎◌, inl, inr, refl, sym, subst, ◌∙◌, true, false, ◌&&◌,
  List, [], ◌∷◌, arith, ◌==◌, ltb, leb, has, if◌then◌else◌, ℕ_discrete, Bool-cases, ◌<◌, ◌≤◌, ◌∈◌,
}
use bsprakt_os.IntrusiveList.{Ptr, Heap}
use bsprakt_os.IntrusiveList.Chain.{Chain}
use bsprakt_os.IntrusiveList.Ring.{IsRing}
use bsprakt_os.IntrusiveList.Store.{Lists, IsStore, IsHead}
use bsprakt_os.Kernel.{Kernel, scheduler_node, finished_list, user_thread_count}
use bsprakt_os.Scheduler.Boot.Circle.{nodes_from}
use bsprakt_os.Scheduler.Slots.{IsMember}
use bsprakt_os.Scheduler.Slots.State.{IsKernel}
use bsprakt_os.Tests.Scene.{kernel_on}

-- The threads from 2 on, in a circle.
abbrev heap : Heap
heap = record {
  next = λ p.
      if p == 1
      then 18
      else if p == 4
      then 16
      else if p == 5
      then 20
      else if p == 6
      then 17
      else if p == 17
      then 19
      else if p == 19
      then 17
      else if ltb p 16
      then 0
      else if p % 2 == 0 && (leb 20 p && ltb p 80)
      then (if p == 78 then 20 else p + 2)
      else p;
  previous = λ p.
      if ltb p 16
      then 0
      else if p == 17
      then 19
      else if p == 19
      then 17
      else if p % 2 == 0 && (leb 20 p && ltb p 80)
      then (if p == 20 then 78 else p - 2)
      else p;
}

unfoldable pub circle : List Ptr
circle = nodes_from 30 2

abbrev pub crowd_lists : Lists
crowd_lists p =
    if p == 1
    then 18 ∷ []
    else if p == 4
    then 16 ∷ []
    else if p == 5
    then circle
    else if p == 6
    then 17 ∷ 19 ∷ []
    else []

abbrev pub crowd : Kernel
crowd = record (kernel_on heap) { slots_used = λ pid slot. pid == 0 && ltb slot 2 }

has-nodes_from :
    (p n i : ℕ)
    → has p (nodes_from n i) ≡ (p % 2 == 0 && (leb (16 + 2 * i) p && ltb p (16 + 2 * (i + n))))
has-nodes_from p zero i = ground arith
has-nodes_from p (suc n) i = ground (arith, has-nodes_from p n (suc i))

mem-circle : (p : Ptr) → has p circle ≡ (p % 2 == 0 && (leb 20 p && ltb p 80))
unfolding circle
mem-circle p = has-nodes_from p 30 2

chain : (n i : ℕ) → i + n ≡ 31 → 2 ≤ i → Chain heap (scheduler_node i) (nodes_from n (suc i)) 20
chain zero i e h =
    let f : i ≡ 31 = omega (arith, e) in
    subst (λ i. (heap.next (scheduler_node i) ≡ 20) × (heap.previous 20 ≡ scheduler_node i)) (sym f)
      (refl, refl)
chain (suc n) i e h =
    (ground (arith, e, h), ground (arith, e, h), chain n (suc i) (omega (arith, e)) (omega arith))

at_1 : IsRing heap 1 (18 ∷ [])
at_1 = record {
  not_null = ground arith;
  head = refl;
  circle = (refl, (refl, refl));
  no_null = refl;
  no_head = refl;
  once = refl;
}

at_4 : IsRing heap 4 (16 ∷ [])
at_4 = record {
  not_null = ground arith;
  head = refl;
  circle = (refl, (refl, refl));
  no_null = refl;
  no_head = refl;
  once = refl;
}

at_5 : IsRing heap 5 circle
unfolding circle
at_5 = record {
  not_null = ground arith;
  head = refl;
  circle = (refl, chain 29 2 refl (omega arith));
  no_null = refl;
  no_head = refl;
  once = refl;
}

at_6 : IsRing heap 6 (17 ∷ 19 ∷ [])
at_6 = record {
  not_null = ground arith;
  head = refl;
  circle = (refl, (refl, refl, (refl, refl)));
  no_null = refl;
  no_head = refl;
  once = refl;
}

rings : (p : Ptr) → IsHead p → IsRing heap p (crowd_lists p)
rings p hp = cases (ℕ_discrete p 1) (ℕ_discrete p 4) (ℕ_discrete p 5) (ℕ_discrete p 6)
  where
    at : (q : Ptr) → p ≡ q → IsRing heap q (crowd_lists q) → IsRing heap p (crowd_lists p)
    at q e r = subst (λ p. IsRing heap p (crowd_lists p)) (sym e) r

    cases : Dec (p ≡ 1) → Dec (p ≡ 4) → Dec (p ≡ 5) → Dec (p ≡ 6) → IsRing heap p (crowd_lists p)
    cases (yes e) b c d = at 1 e at_1
    cases (no a) (yes e) c d = at 4 e at_4
    cases (no a) (no b) (yes e) d = at 5 e at_5
    cases (no a) (no b) (no c) (yes e) = at 6 e at_6
    cases (no a) (no b) (no c) (no d) =
        let f : crowd_lists p ≡ [] = ground (arith, a, b, c, d) in
        subst (IsRing heap p) (sym f) (record {
          not_null = ground (arith, hp);
          head = ground (arith, hp);
          circle = ground (arith, hp, a, b, c, d);
          no_null = refl;
          no_head = refl;
          once = refl;
        })

-- The list that a node is in.
home : Ptr → Ptr
home n =
    if n == 18 then 1 else if n == 16 then 4 else if n == 17 then 6 else if n == 19 then 6 else 5

at_home : (p n : Ptr) → n ∈ crowd_lists p → p ≡ home n
unfolding home
at_home p n i = ground (arith, i, mem-circle n)

crowd-IsStore : IsStore heap crowd_lists
crowd-IsStore = record {
  rings = rings;
  nodes = λ p n i. ground (arith, i, mem-circle n);
  apart = λ p q n i j. at_home p n i ∙ sym (at_home q n j);
  loose = λ n b o. ground (arith, b, o 1, o 4, o 5, o 6, mem-circle n);
}

somewhere :
    (t : ℕ)
    → t < user_thread_count
    → (ltb t 2 ≡ true) ⊎ (ltb t 2 ≡ false)
    → (scheduler_node t ∈ crowd_lists finished_list)
      ⊎ IsMember crowd.blocks crowd.slots_used crowd_lists t
somewhere t h (inl a) = inr (ground arith, ground (arith, a), ground (arith, a), ground (arith, a))
somewhere t h (inr a) = inl (ground (arith, h, a, mem-circle (scheduler_node t)))

pub crowd-IsKernel : IsKernel crowd crowd_lists
crowd-IsKernel = record {
  store = crowd-IsStore;
  threads =
      λ p n le i. (ground (arith, i, le, mem-circle n), refl, ground (arith, i, le, mem-circle n));
  placed = record {
    finished = λ n i. (ground (arith, i, mem-circle n), ground (arith, i, mem-circle n));
    somewhere = λ t h. somewhere t h (Bool-cases (ltb t 2));
    different = λ s t h g m o x y. y;
    outside = λ t h i p. ground (arith, h, i, mem-circle (16 + 2 * t), mem-circle (17 + 2 * t));
  };
}
