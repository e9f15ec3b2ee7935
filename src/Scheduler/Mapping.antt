-- ===== src/Scheduler/Mapping.antt =====
-- kernel/scheduler.c: the translation table entries that change with the address space.
use bsprakt_os.Base.{
  ℕ, zero, suc, ◌+◌, ◌-◌, ◌*◌, ◌/◌, ◌%◌, ◌^◌, ◌<◌, ◌≡◌, ◌≢◌, ◌⊎◌, inl, inr, refl, Bool, true, not,
  Option, none, some, arith, ok, ◌==◌, update, if◌then◌else◌, ltb, lt→ltb, Bool-cases, verify,
  ◌>>=◌, ◌>>◌,
}
use bsprakt_os.Mmu.{l1_section_set_base_address, l1_table_size}
use bsprakt_os.Mmu.Layout.{
  mib, ubss_udata_section_start_address, virtual_process_stacks_top_address,
}
use bsprakt_os.Kernel.{Kernel, Tcb, threads_per_address_space}
use bsprakt_os.Scheduler.RoundRobin.{map_process, map_stacks}

-- The table `t` shows address space `pid`, whose stacks have the handles `handles`: its data section
-- and its four stacks. All other entries are those of the table `old`.
pub record IsMapped (handles : ℕ → ℕ) (pid : ℕ) (old t : ℕ → ℕ) : Type 0 where
  pub section : t 6 ≡ old 6 % 2 ^ 20 + (pid + 7) % 2 ^ 12 * 2 ^ 20
  pub stacks : (i : ℕ) → i < 4 → t (89 - i) ≡ handles i
  pub others : (j : ℕ) → j ≢ 6 → (j < 86) ⊎ (89 < j) → t j ≡ old j

-- The entries after the loop over the stacks.
abbrev stacked : ℕ → ℕ → (ℕ → ℕ) → (ℕ → ℕ) → ℕ → ℕ
stacked zero i handles t = t
stacked (suc rounds) i handles t =
    stacked rounds (i + 1) handles
      (update t (virtual_process_stacks_top_address / mib - (i + 1)) (handles i))

map_stacks-stacked :
    (rounds i pid : ℕ) (k : Kernel)
    → map_stacks rounds i pid k
      ≡ ok (record k { l1_table = stacked rounds i (k.process_stack_handles pid) k.l1_table })
unfolding map_stacks
map_stacks-stacked zero i pid k = refl
map_stacks-stacked (suc rounds) i pid k =
    let index = virtual_process_stacks_top_address / mib - (i + 1) in
    rw (lt→ltb index l1_table_size (omega arith)) (
      map_stacks-stacked rounds (i + 1) pid
        (record k { l1_table = update k.l1_table index (k.process_stack_handles pid i) }))

section_entry : ℕ → ℕ → ℕ
section_entry entry pid = entry % 2 ^ 20 + (pid + 7) % 2 ^ 12 * 2 ^ 20

set_base-ok :
    (entry pid : ℕ)
    → l1_section_set_base_address entry (ubss_udata_section_start_address + (pid + 1) * mib)
      ≡ ok (section_entry entry pid)
unfolding l1_section_set_base_address section_entry
set_base-ok entry pid = ground arith

-- Does the switch have to map the next thread's address space?
abbrev pub needs_map : Option ℕ → ℕ → (ℕ → Tcb) → Bool
needs_map none next blocks = true
needs_map (some tid) next blocks = not ((blocks tid).pid == (blocks next).pid)

abbrev shown : ℕ → Kernel → ℕ → ℕ
shown pid k =
    stacked threads_per_address_space 0 (k.process_stack_handles pid)
      (update k.l1_table 6 (section_entry (k.l1_table 6) pid))

shown_stack :
    (pid : ℕ) (k : Kernel) (i : ℕ) → i < 4 → shown pid k (89 - i) ≡ k.process_stack_handles pid i
shown_stack pid k zero h = refl
shown_stack pid k (suc zero) h = refl
shown_stack pid k (suc (suc zero)) h = refl
shown_stack pid k (suc (suc (suc zero))) h = refl
shown_stack pid k (suc (suc (suc (suc i)))) h = absurd (omega arith)

shown-IsMapped :
    (pid : ℕ) (k : Kernel) → IsMapped (k.process_stack_handles pid) pid k.l1_table (shown pid k)
unfolding section_entry
shown-IsMapped pid k = record {
  section = refl;
  stacks = shown_stack pid k;
  others = λ j n o. ground arith;
}

mapped-shown :
    (pid : ℕ) (k : Kernel)
    → (do
      verify (ltb (ubss_udata_section_start_address / mib) l1_table_size)
      entry ←
          l1_section_set_base_address
            (k.l1_table (ubss_udata_section_start_address / mib))
            (ubss_udata_section_start_address + (pid + 1) * mib)
      map_stacks threads_per_address_space 0 pid (record k {
        l1_table = update k.l1_table (ubss_udata_section_start_address / mib) entry;
      }))
      ≡ ok (record k { l1_table = shown pid k })
mapped-shown pid k = rw (set_base-ok (k.l1_table 6) pid) (
    map_stacks-stacked threads_per_address_space 0 pid
      (record k { l1_table = update k.l1_table 6 (section_entry (k.l1_table 6) pid) }))

-- What the table is after the switch to `next`.
abbrev pub Mapped : Option ℕ → ℕ → (ℕ → Tcb) → (ℕ → ℕ → ℕ) → (old t : ℕ → ℕ) → Type 0
Mapped running next blocks handles old t =
    if needs_map running next blocks
    then IsMapped (handles (blocks next).pid) (blocks next).pid old t
    else t ≡ old

-- `map_process`, the part of `scheduler_round_robin` that changes the translation table, does not
-- panic. It maps the address space of the next thread, unless the thread that ran has the same one.
pub map_process-Mapped :
    (running : Option ℕ) (next : ℕ) (k : Kernel)
    → (t : ℕ → ℕ) × (map_process running next k ≡ ok (record k { l1_table = t }))
      × Mapped running next k.blocks k.process_stack_handles k.l1_table t
unfolding map_process
map_process-Mapped none next k =
    let pid = (k.blocks next).pid in (shown pid k, mapped-shown pid k, shown-IsMapped pid k)
map_process-Mapped (some tid) next k =
    let pid = (k.blocks next).pid in
    elim (Bool-cases ((k.blocks tid).pid == pid)) [
      | inl e ↦ (k.l1_table, rw e, rw e refl)
      | inr ne ↦ (shown pid k, rw ne (mapped-shown pid k), rw ne (shown-IsMapped pid k))
    ]
