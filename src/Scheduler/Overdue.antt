-- ===== src/Scheduler/Overdue.antt =====
-- kernel/scheduler.c: `scheduler_unblock_overdue_waiting_threads`.
use mathlib.Core.List.{append_assoc}
use bsprakt_os.Base.{
  ℕ, zero, suc, Bool, true, not, ltb, sym, subst, ◌<◌, ◌≡◌, refl, false, List, [], ◌∷◌, ◌++◌, arith,
  ok, update, ap, ◌∙◌, length, append-nil, Bool-cases, inl, inr,
}
use bsprakt_os.Base.Words.{add32}
use bsprakt_os.IntrusiveList.{Ptr}
use bsprakt_os.IntrusiveList.Store.{Lists, IsStore, IsStore-pointwise, length-le_node_end}
use bsprakt_os.Timer.{
  Timer, toctou_pad, systimer_value, stalltimer_interrupt_at, stalltimer_reset_pending_interrupt,
}
use bsprakt_os.Timer.Errors.{is_error}
use bsprakt_os.Kernel.{Kernel, Tcb, container_of, ready_list, stall_waiting_list}
use bsprakt_os.Scheduler.{unblock_overdue, scheduler_unblock_overdue_waiting_threads, list_rounds}
use bsprakt_os.Scheduler.Lists.{first_at}
use bsprakt_os.Scheduler.Waiting.{
  IsHead-ready, IsHead-stall, advance, advanced, adjust-nil, adjust-cons, deadline,
}

-- The lists after the threads `woken` have moved from the stalled to the ready ones.
abbrev pub awake : List Ptr → List Ptr → Lists → Lists
awake woken rest l = update (update l stall_waiting_list rest) ready_list (l ready_list ++ woken)

-- The test of `stalltimer_interrupt_at` at the reading `now`: the deadline is far enough ahead.
abbrev pub is_ahead : ℕ → ℕ → Bool
is_ahead now hz = ltb (add32 now toctou_pad) hz

-- Each of the threads was overdue at its own reading of the counter, from `clo 0` on.
abbrev pub AreOverdue : (ℕ → Tcb) → (ℕ → ℕ) → List Ptr → Type 0
AreOverdue blocks clo [] = Unit {0}
AreOverdue blocks clo (n ∷ ns) =
    (is_ahead (clo 0) (blocks (container_of n)).stall_until ≡ false)
    × AreOverdue blocks (λ i. clo (suc i)) ns

-- What waking the overdue threads leaves of the stalled threads `xs`.
pub record Unblocked (l : Lists) (xs : List Ptr) (k : Kernel) (k' : Kernel) : Type 0 where
  pub woken : List Ptr
  pub rest : List Ptr
  pub split : xs ≡ woken ++ rest
  pub lists : IsStore k'.nodes (awake woken rest l)
  pub blocks : k'.blocks ≡ k.blocks
  pub slots : k'.slots_used ≡ k.slots_used
  pub overdue : AreOverdue k.blocks k.timer.clo woken
  pub early :
      (n : Ptr) (ns : List Ptr)
      → rest ≡ n ∷ ns
      → is_ahead (k.timer.clo (length woken)) (deadline k n) ≡ true
  pub matched : k'.timer.m3 ≡ false
  pub armed : (n : Ptr) (ns : List Ptr) → rest ≡ n ∷ ns → k'.timer.c3 ≡ deadline k' n

-- Where the compare register takes a deadline, it holds it.
interrupt_at-c3 :
    (hz : ℕ) (t : Timer)
    → is_error (stalltimer_interrupt_at hz t).0 ≡ false
    → (stalltimer_interrupt_at hz t).1.c3 ≡ hz
unfolding stalltimer_interrupt_at
interrupt_at-c3 hz t e = ground arith

-- The test of a reading, and what else becomes of the timer.
interrupt_at-is_ahead :
    (hz : ℕ) (t : Timer)
    → let r = stalltimer_interrupt_at hz t in
      (is_error r.0 ≡ not (is_ahead (t.clo 0) hz))
      × (r.1.m3 ≡ false)
      × (r.1.clo ≡ λ i. t.clo (suc i))
unfolding stalltimer_interrupt_at systimer_value
interrupt_at-is_ahead hz t = elim (Bool-cases (is_ahead (t.clo 0) hz)) [
  | inl e ↦ rw e (refl, refl, refl)
  | inr e ↦ rw e (refl, refl, refl)
]

awake-advanced :
    (n : Ptr) (ns woken rest : List Ptr) (l : Lists) (p : Ptr)
    → awake woken rest (advanced stall_waiting_list ready_list n ns l) p
      ≡ awake (n ∷ woken) rest l p
awake-advanced n ns woken rest l p = ground (arith, append_assoc (l ready_list) (n ∷ []) woken)

awake-nil :
    (xs : List Ptr) (l : Lists) (p : Ptr) → l stall_waiting_list ≡ xs → l p ≡ awake [] xs l p
awake-nil xs l p e = ground (arith, append-nil (l ready_list))

first_of_cons : {n m : Ptr} {ns ms : List Ptr} → n ∷ ns ≡ m ∷ ms → n ≡ m
first_of_cons e = cc

reset-m3 : (t : Timer) → (stalltimer_reset_pending_interrupt t).m3 ≡ false
unfolding stalltimer_reset_pending_interrupt
reset-m3 t = refl

flip : (b : Bool) → not b ≡ true → b ≡ false
flip true e = cc e
flip false e = refl

unflip : (b : Bool) → not b ≡ false → b ≡ true
unflip true e = refl
unflip false e = cc e

unblock_overdue-Unblocked :
    (fuel : ℕ) (k : Kernel) (l : Lists) (xs : List Ptr)
    → IsStore k.nodes l
    → l stall_waiting_list ≡ xs
    → length xs < fuel
    → (k' : Kernel) × (unblock_overdue fuel k ≡ ok k') × Unblocked l xs k k'
unfolding unblock_overdue
unblock_overdue-Unblocked zero k l xs s e f = absurd (omega arith)
unblock_overdue-Unblocked (suc fuel) k l [] s e f = (
  record k { timer = stalltimer_reset_pending_interrupt k.timer },
  rw (adjust-nil k l s e),
  record {
    woken = [];
    rest = [];
    split = refl;
    lists = IsStore-pointwise (λ p. awake-nil [] l p e) s;
    blocks = refl;
    slots = refl;
    overdue = tt;
    early = λ n ns c. cc;
    matched = reset-m3 k.timer;
    armed = λ n ns c. cc;
  },
)
unblock_overdue-Unblocked (suc fuel) k l (n ∷ ns) s e f =
    let t = stalltimer_interrupt_at (deadline k n) k.timer in
    let (a1, a2, a3) = interrupt_at-is_ahead (deadline k n) k.timer in
    elim (Bool-cases (is_error t.0)) [
      | inl late ↦
          let (g, a, w) =
            advance stall_waiting_list ready_list n ns IsHead-stall IsHead-ready (omega arith) s
              e in
          let (k', b, u) =
            unblock_overdue-Unblocked fuel (record k { timer = t.1; nodes = g })
              (advanced stall_waiting_list ready_list n ns l) ns w refl (omega arith) in
          (
            k',
            rw
                (
                  adjust-cons k l n ns s e,
                  late,
                  first_at s stall_waiting_list IsHead-stall n ns e,
                  a,
                )
                b,
            record {
              woken = n ∷ u.woken;
              rest = u.rest;
              split = ap (λ t. n ∷ t) u.split;
              lists = IsStore-pointwise (awake-advanced n ns u.woken u.rest l) u.lists;
              blocks = u.blocks;
              slots = u.slots;
              overdue = (
                flip (is_ahead (k.timer.clo 0) (deadline k n)) (sym a1 ∙ late),
                subst (λ clo. AreOverdue k.blocks clo u.woken) a3 u.overdue,
              );
              early = λ m ms c.
                  subst (λ clo. is_ahead (clo (length u.woken)) (deadline k m) ≡ true) a3
                    (u.early m ms c);
              matched = u.matched;
              armed = u.armed;
            },
          )
      | inr early ↦ (
        record k { timer = t.1 },
        rw (adjust-cons k l n ns s e, early),
        record {
          woken = [];
          rest = n ∷ ns;
          split = refl;
          lists = IsStore-pointwise (λ p. awake-nil (n ∷ ns) l p e) s;
          blocks = refl;
          slots = refl;
          overdue = tt;
          early = λ m ms c.
              subst (λ n. is_ahead (k.timer.clo 0) (deadline k n) ≡ true) (first_of_cons c)
                (unflip (is_ahead (k.timer.clo 0) (deadline k n)) (sym a1 ∙ early));
          matched = a2;
          armed = λ m ms c.
              interrupt_at-c3 (deadline k n) k.timer early ∙ ap (deadline k) (first_of_cons c);
        },
      )
    ]

-- On intact lists `scheduler_unblock_overdue_waiting_threads` ends without a panic. It moves the first
-- stalled threads, in order, to the end of the ready list: each of them had a deadline at most 20
-- ticks (modulo 2^32) after its own reading of the counter, and the first thread that still waits has one further
-- ahead at the reading after those. The compare register holds that deadline, no match is pending,
-- and no control block changes.
pub scheduler_unblock_overdue_waiting_threads-Unblocked :
    (k : Kernel) (l : Lists)
    → IsStore k.nodes l
    → (k' : Kernel) × (scheduler_unblock_overdue_waiting_threads k ≡ ok k')
      × Unblocked l (l stall_waiting_list) k k'
unfolding scheduler_unblock_overdue_waiting_threads
scheduler_unblock_overdue_waiting_threads-Unblocked k l s =
    let len = length-le_node_end s stall_waiting_list IsHead-stall in
    unblock_overdue-Unblocked list_rounds k l (l stall_waiting_list) s refl (omega arith)
