-- ===== src/Scheduler/Boot/Circle.antt =====
-- The circle of all user threads that `scheduler_initialise` of kernel/scheduler.c links.
use bsprakt_os.Base.{
  ℕ, zero, suc, ◌+◌, ◌*◌, ◌-◌, ◌/◌, ◌%◌, ◌<◌, ◌≤◌, ◌≡◌, refl, true, ◌&&◌, ◌==◌, leb, ltb,
  if◌then◌else◌, List, [], ◌∷◌, arith, has, distinct, subst, sym, ℕ_discrete,
}
use bsprakt_os.IntrusiveList.{Ptr, Heap, null}
use bsprakt_os.IntrusiveList.Chain.{Chain}
use bsprakt_os.IntrusiveList.Ring.{IsRing}
use bsprakt_os.IntrusiveList.Store.{Lists, IsStore, IsHead}
use bsprakt_os.Kernel.{finished_list, scheduler_node}

-- The scheduler nodes of `n` threads from `i` on.
abbrev pub nodes_from : (n i : ℕ) → List Ptr
nodes_from zero i = []
nodes_from (suc n) i = scheduler_node i ∷ nodes_from n (suc i)

-- The links after the loop.
abbrev pub next_node : Ptr → Ptr
next_node p = if p % 2 == 0 then scheduler_node (((p - 16) / 2 + 1) % 32) else p

abbrev pub previous_node : Ptr → Ptr
previous_node p = if p % 2 == 0 then scheduler_node (((p - 16) / 2 + 31) % 32) else p

unfoldable pub all_nodes : List Ptr
all_nodes = nodes_from 32 0

abbrev pub first_lists : Lists
first_lists p = if p == finished_list then all_nodes else []

-- The heap before the first process: one circle, and all else by itself.
pub record IsBoot (h : Heap) : Type 0 where
  pub heads :
      (p : Ptr) → p < 16 → h.next p ≡ (if p == finished_list then scheduler_node 0 else null)
  pub heads_previous : (p : Ptr) → p < 16 → h.previous p ≡ null
  pub circle_next : (p : Ptr) → 16 ≤ p → p < 80 → h.next p ≡ next_node p
  pub circle_previous : (p : Ptr) → 16 ≤ p → p < 80 → h.previous p ≡ previous_node p
  pub idle : (p : Ptr) → 80 ≤ p → p < 82 → (h.next p ≡ p) × (h.previous p ≡ p)

has-nodes_from :
    (p n i : ℕ)
    → has p (nodes_from n i) ≡ (p % 2 == 0 && (leb (16 + 2 * i) p && ltb p (16 + 2 * (i + n))))
has-nodes_from p zero i = ground arith
has-nodes_from p (suc n) i = ground (arith, has-nodes_from p n (suc i))

distinct-nodes_from : (n i : ℕ) → distinct (nodes_from n i) ≡ true
distinct-nodes_from zero i = refl
distinct-nodes_from (suc n) i =
    ground (arith, distinct-nodes_from n (suc i), has-nodes_from (scheduler_node i) n (suc i))

pub mem-all_nodes : (p : Ptr) → has p all_nodes ≡ (p % 2 == 0 && (leb 16 p && ltb p 80))
unfolding all_nodes
mem-all_nodes p = has-nodes_from p 32 0

pub all_nodes-cons : all_nodes ≡ scheduler_node 0 ∷ nodes_from 31 1
unfolding all_nodes
all_nodes-cons = refl

distinct-all_nodes : distinct all_nodes ≡ true
unfolding all_nodes
distinct-all_nodes = distinct-nodes_from 32 0

module _ (h : Heap) (b : IsBoot h) where
  step :
      (i : ℕ)
      → i < 31
      → (h.next (scheduler_node i) ≡ scheduler_node (suc i))
        × (h.previous (scheduler_node (suc i)) ≡ scheduler_node i)
  step i l = (
    ground (arith, b.circle_next (scheduler_node i), l),
    ground (arith, b.circle_previous (scheduler_node (suc i)), l),
  )

  close :
      (h.next (scheduler_node 31) ≡ scheduler_node 0)
      × (h.previous (scheduler_node 0) ≡ scheduler_node 31)
  close = (
    b.circle_next 78 (omega arith) (omega arith),
    b.circle_previous 16 (omega arith) (omega arith),
  )

  chain :
      (n i : ℕ) → i + n ≡ 31 → Chain h (scheduler_node i) (nodes_from n (suc i)) (scheduler_node 0)
  chain zero i e =
      let f : i ≡ 31 = omega (arith, e) in
      subst
        (λ i.
          (h.next (scheduler_node i) ≡ scheduler_node 0)
          × (h.previous (scheduler_node 0) ≡ scheduler_node i))
        (sym f) close
  chain (suc n) i e =
      let (x, y) = step i (omega (arith, e)) in (x, y, chain n (suc i) (omega (arith, e)))

  finished-IsRing : IsRing h finished_list (scheduler_node 0 ∷ nodes_from 31 1)
  finished-IsRing = record {
    not_null = ground arith;
    head = b.heads_previous 5 (omega arith);
    circle = (b.heads 5 (omega arith), chain 31 0 refl);
    no_null = refl;
    no_head = refl;
    once = distinct-nodes_from 32 0;
  }

  rings : (p : Ptr) → IsHead p → IsRing h p (first_lists p)
  rings p hp = elim (ℕ_discrete p finished_list) [
    | yes e ↦
        let f : first_lists p ≡ scheduler_node 0 ∷ nodes_from 31 1 =
          subst (λ p. first_lists p ≡ scheduler_node 0 ∷ nodes_from 31 1) (sym e) all_nodes-cons in
        subst (IsRing h p) (sym f)
          (subst (λ p. IsRing h p (scheduler_node 0 ∷ nodes_from 31 1)) (sym e) finished-IsRing)
    | no ne ↦
        let f : first_lists p ≡ [] = ground (arith, ne) in
        subst (IsRing h p) (sym f) (record {
          not_null = ground (arith, hp);
          head = b.heads_previous p hp.1;
          circle = ground (arith, b.heads p, hp, ne);
          no_null = refl;
          no_head = refl;
          once = refl;
        })
  ]

  -- The lists of the circle are the ones that the scheduler's invariant speaks of.
  pub IsBoot-IsStore : IsStore h first_lists
  IsBoot-IsStore = record {
    rings = rings;
    nodes = λ p n i. ground (arith, i, mem-all_nodes n);
    apart = λ p q n i j. ground (arith, i, j);
    loose = λ n m o. ground (
      arith,
      m,
      o finished_list,
      mem-all_nodes n,
      b.circle_next n,
      b.circle_previous n,
      b.idle n,
    );
  }
