-- ===== src/Syscalls/Runs/Moves.antt =====
-- kernel/scheduler.c: threads that wait, and those that wait no longer, move between the first lists.
use bsprakt_os.Base.{
  ℕ, ◌≤◌, ◌≡◌, inl, inr, sym, ap, subst, ◌∙◌, leb, arith, ◌∈◌, ◌∉◌, has, Bool-cases,
}
use bsprakt_os.IntrusiveList.{Ptr}
use bsprakt_os.IntrusiveList.Store.{Lists, IsStore, InNone}
use bsprakt_os.Kernel.{Kernel, running_list, finished_list, container_of, idle_thread_index}
use bsprakt_os.Scheduler.Switch.{IsSingle}
use bsprakt_os.Scheduler.Rounds.{idle_node}
use bsprakt_os.Scheduler.Integrity.{IsThreads}
use bsprakt_os.Scheduler.Slots.{IsPlaced}
use bsprakt_os.Scheduler.Slots.Moves.{IsPlaced-same}
use bsprakt_os.Syscalls.Runs.System.{IsSystem}

-- The threads keep their numbers and their places.
pub record IsSameThreads (k k' : Kernel) : Type 0 where
  pub tids : (t : ℕ) → (k'.blocks t).tid ≡ (k.blocks t).tid
  pub pids : (t : ℕ) → (k'.blocks t).pid ≡ (k.blocks t).pid
  pub pid_slots : (t : ℕ) → (k'.blocks t).pid_slot ≡ (k.blocks t).pid_slot
  pub slots : k'.slots_used ≡ k.slots_used

pub same_blocks :
    (k k' : Kernel) → k'.blocks ≡ k.blocks → k'.slots_used ≡ k.slots_used → IsSameThreads k k'
same_blocks k k' e f = record {
  tids = λ t. ap (λ b. (b t).tid) e;
  pids = λ t. ap (λ b. (b t).pid) e;
  pid_slots = λ t. ap (λ b. (b t).pid_slot) e;
  slots = f;
}

-- A change of the lists before that of the running threads, which adds no node.
abbrev pub Within : Lists → Lists → Type 0
Within l l' =
    ((p n : Ptr) → p ≤ finished_list → n ∈ l' p → (q : Ptr) × (q ≤ finished_list) × (n ∈ l q))
    × ((p : Ptr) → running_list ≤ p → l' p ≡ l p)

idle-Within : (l l' : Lists) → Within l l' → InNone idle_node l → InNone idle_node l'
idle-Within l l' m o p = elim (Bool-cases (has idle_node (l' p))) [
  | inl i ↦ elim (Bool-cases (leb p finished_list)) [
    | inl h ↦
        let (q, _, j) = m.0 p idle_node (ground (arith, h)) i in absurd (ground (arith, o q, j))
    | inr h ↦ subst (λ xs. idle_node ∉ xs) (sym (m.1 p (ground (arith, h)))) (o p)
  ]
  | inr i ↦ i
]

pub IsSystem-moves :
    (k k' : Kernel) (l l' : Lists)
    → IsSystem k l
    → IsStore k'.nodes l'
    → IsSameThreads k k'
    → Within l l'
    → IsSystem k' l'
IsSystem-moves k k' l l' w s b m =
    let t : IsThreads k'.blocks l' = λ p n h i.
      let (q, g, j) = m.0 p n h i in
      let (x, y, z) = w.kernel.threads q n g j in (x, b.tids (container_of n) ∙ y, z) in
    let r : l' running_list ≡ l running_list = m.1 running_list (omega arith) in
    record {
      kernel = record {
        store = s;
        threads = t;
        placed =
            subst (λ u. IsPlaced k'.blocks u l') (sym b.slots)
              (IsPlaced-same k.blocks k'.blocks k.slots_used l l' w.kernel.placed t b.pids
                b.pid_slots (λ p h. m.1 p (omega arith)));
      };
      single = subst IsSingle (sym r) w.single;
      idle_number = b.tids idle_thread_index ∙ w.idle_number;
      idle_place = elim w.idle_place [ inl o ↦ inl (idle-Within l l' m o) | inr o ↦ inr (r ∙ o) ];
    }
