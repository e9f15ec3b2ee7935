-- ===== src/Tests/Scene.antt =====
-- A kernel with at most one node in every list, on which the theorems are tried.
use bsprakt_os.Base.{
  ℕ, ◌+◌, ◌%◌, false, ◌≡◌, ◌≢◌, ◌⊎◌, inl, inr, refl, true, false, List, [], ◌∷◌, arith, ◌==◌, ltb,
  if◌then◌else◌, Bool-cases, ℕ_discrete, subst, sym,
}
use bsprakt_os.IntrusiveList.{Ptr, Heap}
use bsprakt_os.Kernel.{Kernel, Tcb, Registers}
use bsprakt_os.Scheduler.Integrity.{IsThreads}
use bsprakt_os.IntrusiveList.Ring.{IsRing}
use bsprakt_os.IntrusiveList.Store.{Lists, IsStore, IsHead, InBlocks}

-- The heap in which the head `p` holds the node `first p`, or none for 0.
abbrev pub singles : (Ptr → Ptr) → Heap
singles first = record {
  next = λ p. if ltb p 16 then first p else p;
  previous = λ p. if ltb p 16 then 0 else p;
}

abbrev pub single : Ptr → List Ptr
single n = if n == 0 then [] else n ∷ []

-- Distinct nodes, and only in lists.
abbrev pub IsPlacement : (Ptr → Ptr) → Type 0
IsPlacement first =
    ((p : Ptr) → (first p ≡ 0) ⊎ InBlocks (first p))
    × ((p q : Ptr) → first p ≡ first q → first p ≢ 0 → p ≡ q)

pub singles-IsStore :
    (first : Ptr → Ptr) → IsPlacement first → IsStore (singles first) (λ p. single (first p))
singles-IsStore first w = record {
  rings = λ p hp. ring p hp (Bool-cases (first p == 0));
  nodes = λ p n i. ground (arith, w.0 p, i);
  apart = λ p q n i j. ground (arith, w.1 p q, i, j);
  loose = λ n b o. ground (arith, b);
}
  where
    ring :
        (p : Ptr)
        → IsHead p
        → ((first p == 0) ≡ true) ⊎ ((first p == 0) ≡ false)
        → IsRing (singles first) p (single (first p))
    ring p hp (inl e) = rw e (record {
      not_null = ground arith;
      head = ground arith;
      circle = ground (arith, e);
      no_null = refl;
      no_head = refl;
      once = refl;
    })
    ring p hp (inr e) = rw e (record {
      not_null = ground arith;
      head = ground arith;
      circle = (ground arith, (ground (arith, w.0 p), ground (arith, w.0 p)));
      no_null = ground (arith, e);
      no_head = ground (arith, w.0 p);
      once = refl;
    })

abbrev registers : Registers
registers = record { general = λ i. i; sp = 1000; lr = 2000; pc = 3000 }

-- Thread `tid` belongs to address space 0 and is to sleep until 100 + tid.
abbrev pub block : ℕ → Tcb
block tid = record {
  regs = registers;
  cpsr = 0x10;
  pid = 0;
  pid_slot = tid;
  tid = tid;
  stack_handle = 0;
  stall_until = 100 + tid;
}

abbrev pub kernel_on : Heap → Kernel
kernel_on nodes = record {
  nodes = nodes;
  blocks = block;
  process_stack_handles = λ pid slot. 0;
  slots_used = λ pid slot. false;
  l1_table = λ m. 0;
  memory = λ a. a % 256;
  frame = record { general = λ i. 7; sp = 1; lr = 2; pc = 3 };
  spsr = 0x10;
  sp_usr = 5;
  lr_usr = 6;
  timer = record { clo = λ i. 50 + i; c1 = 0; c3 = 0; m1 = false; m3 = true };
  uart = record {
    cache = record { bytes = 500; mask = 127; read_index = 0; write_index = 0 };
    buffer = 500;
    scratch = 400;
    received = λ i. 65 + i;
    full = λ i. false;
    imsc = 0;
    sent = [];
  };
  irq_pending_2 = 0;
  status = record {
    ifsr = 5;
    dfsr = 5;
    cpsr = 0x13;
    spsr_supervisor = 0x10;
    spsr_abort = 0x10;
    spsr_irq = 0x10;
    spsr_undefined = 0;
  };
}

abbrev pub kernel_with : (Ptr → Ptr) → Kernel
kernel_with first = kernel_on (singles first)

abbrev pub lists_of : (Ptr → Ptr) → Lists
lists_of first p = single (first p)

-- Thread 1 is ready, 0 runs in address space 0, 2 sleeps, 3 waits for input and 4 is finished.
abbrev pub busy : Ptr → Ptr
busy p =
    if p == 1
    then 18
    else if p == 2
    then 20
    else if p == 3
    then 22
    else if p == 4
    then 16
    else if p == 5
    then 24
    else if p == 6
    then 17
    else 0

busy-IsPlacement : IsPlacement busy
busy-IsPlacement = ((λ p. ground arith), λ p q e n. ground (arith, e, n))

pub busy-IsStore : IsStore (singles busy) (lists_of busy)
busy-IsStore = singles-IsStore busy busy-IsPlacement

-- Only thread 0 runs, and no other is ready.
abbrev pub alone : Ptr → Ptr
alone p = if p == 4 then 16 else if p == 6 then 17 else 0

pub alone-IsStore : IsStore (singles alone) (lists_of alone)
alone-IsStore = singles-IsStore alone ((λ p. ground arith), λ p q e n. ground (arith, e, n))

pub busy-IsThreads : IsThreads block (lists_of busy)
busy-IsThreads p n le i = (ground (arith, i, le), refl, ground (arith, i, le))

pub alone-IsThreads : IsThreads block (lists_of alone)
alone-IsThreads p n le i = (ground (arith, i, le), refl, ground (arith, i, le))

-- Threads 1 and 3 are ready, and thread 2 sleeps.
abbrev pub pair : Heap
pair = record {
  next = λ p.
      if p == 1
      then 18
      else if p == 18
      then 22
      else if p == 22
      then 18
      else if p == 2
      then 20
      else if ltb p 16
      then 0
      else p;
  previous = λ p. if ltb p 16 then 0 else if p == 18 then 22 else if p == 22 then 18 else p;
}

abbrev pub pair_lists : Lists
pair_lists p = if p == 1 then 18 ∷ 22 ∷ [] else if p == 2 then 20 ∷ [] else []

pair-IsRing : (p : Ptr) → IsHead p → IsRing pair p (pair_lists p)
pair-IsRing p hp = elim (ℕ_discrete p 1) [
  | yes e ↦
      subst (λ p. IsRing pair p (pair_lists p)) (sym e)
        (record {
          not_null = ground arith;
          head = refl;
          circle = (refl, (refl, refl, (refl, refl)));
          no_null = refl;
          no_head = refl;
          once = refl;
        })
  | no ne ↦ elim (ℕ_discrete p 2) [
    | yes e ↦
        subst (λ p. IsRing pair p (pair_lists p)) (sym e)
          (record {
            not_null = ground arith;
            head = refl;
            circle = (refl, (refl, refl));
            no_null = refl;
            no_head = refl;
            once = refl;
          })
    | no nf ↦
        let a : pair_lists p ≡ [] = ground (arith, ne, nf) in
        subst (IsRing pair p) (sym a) (record {
          not_null = ground arith;
          head = ground (arith, hp);
          circle = ground (arith, hp, ne, nf);
          no_null = refl;
          no_head = refl;
          once = refl;
        })
  ]
]

pub pair-IsStore : IsStore pair pair_lists
pair-IsStore = record {
  rings = pair-IsRing;
  nodes = λ p n i. ground (arith, i);
  apart = λ p q n i j. ground (arith, i, j);
  loose = λ n b o. ground (arith, b, o 1);
}

pub pair-IsThreads : IsThreads block pair_lists
pair-IsThreads p n le i = (ground (arith, i), refl, ground (arith, i))
