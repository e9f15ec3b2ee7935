-- ===== src/Interrupts/Runs/Reachable.antt =====
-- kernel/interrupt.c: what holds in every run of the kernel.
use bsprakt_os.Base.{ℕ, ◌≡◌, inl, inr, sym, subst, ◌∙◌, arith, ok}
use bsprakt_os.IntrusiveList.Store.{Lists}
use bsprakt_os.Kernel.{Kernel}
use bsprakt_os.Scheduler.{scheduler_cleanup_thread}
use bsprakt_os.Scheduler.Threads.{created}
use bsprakt_os.Scheduler.Rounds.{idle_node}
use bsprakt_os.Scheduler.Boot.Circle.{first_lists, nodes_from, mem-all_nodes, all_nodes-cons}
use bsprakt_os.Scheduler.Boot.State.{scheduler_initialise-IsKernel}
use bsprakt_os.Scheduler.Slots.State.{scheduler_cleanup_thread-IsKernel}
use bsprakt_os.Syscalls.{Host, syscall_create_thread, syscall_create_process}
use bsprakt_os.Syscalls.Creations.{
  IsGiven, syscall_create_thread-cases, syscall_create_process-cases,
}
use bsprakt_os.Syscalls.Runs.{IsUser}
use bsprakt_os.Interrupts.Runs.{Run, start, outside, software, fault, irq}
use bsprakt_os.Interrupts.Runs.Handlers.{software-IsSystem, fault-IsSystem, irq-IsSystem}
use bsprakt_os.Syscalls.Runs.System.{IsSystem, ok_injective, IsSystem-same, IsUser-running}

module _ {host : Host} {tables halt user_main : ℕ} where
  -- In every kernel that comes out of a start by interrupts whose handlers have returned, in any
  -- order, with anything outside of the kernel between them: the lists are intact and disjoint, every
  -- user thread is finished or has a slot of its own in the list of its address space, at most one
  -- thread runs, and the idle thread runs or is in no list. (In user mode a user thread runs, and the
  -- arguments of the creations that it asks for can be taken.)
  pub Run-IsSystem : {k : Kernel} → Run host tables halt user_main k → (l : Lists) × IsSystem k l
  Run-IsSystem {k = k'} (start k a b e) =
      let (k1, f, m, i) =
        scheduler_initialise-IsKernel tables halt host.exit_thread user_main k a b in
      let l = created 0 0 (nodes_from 31 1) first_lists in
      (
        l,
        subst (λ k. IsSystem k l) (ok_injective (sym f ∙ e))
            (record {
              kernel = m;
              single = tt;
              idle_number = i;
              idle_place = inl (λ p. ground (arith, mem-all_nodes idle_node, all_nodes-cons));
            }),
      )
  Run-IsSystem {k = k'} (outside {k} r s) =
      let (l, w) = Run-IsSystem r in (l, IsSystem-same k k' l w s)
  Run-IsSystem {k = k'} (software {k} r u g e) =
      let (l, w) = Run-IsSystem r in software-IsSystem host k k' l w u g e
  Run-IsSystem {k = k'} (fault {k} type r u e) =
      let (l, w) = Run-IsSystem r in fault-IsSystem host type k k' l w u e
  Run-IsSystem {k = k'} (irq {k} fuel r e) =
      let (l, w) = Run-IsSystem r in irq-IsSystem fuel k k' l w e

  -- In every kernel that comes out of a start by interrupts and in which a user thread runs,
  -- `scheduler_cleanup_thread`, with which the end of that thread begins, does not panic, and neither
  -- do the creations that the thread asks for with arguments that can be taken. (The round with which
  -- the end of a thread goes on may panic.)
  pub Run-calls :
      {k : Kernel} (me : ℕ)
      → Run host tables halt user_main k
      → IsUser k me
      → IsGiven (k.frame.general 1) (k.frame.general 2)
      → ((k' : Kernel) × (scheduler_cleanup_thread k ≡ ok k'))
        × ((k' : Kernel) × (syscall_create_thread host.exit_thread k ≡ ok k'))
        × ((k' : Kernel) × (syscall_create_process host.exit_thread k ≡ ok k'))
  Run-calls {k} me r u g =
      let (l, w) = Run-IsSystem r in
      let running = IsUser-running k l me w u in
      let (k1, f, _, _, _) = scheduler_cleanup_thread-IsKernel k l w.kernel me u.user running in
      (
        (k1, f),
        elim (syscall_create_thread-cases host.exit_thread me k l w.kernel u.user running g) [
          | inl (f, _) ↦ (_, f)
          | inr (_, _, _, k', f, _, _, _, _, _) ↦ (k', f)
        ],
        elim (syscall_create_process-cases host.exit_thread k l w.kernel g) [
          | inl (f, _) ↦ (_, f)
          | inr (_, _, _, _, k', f, _, _, _, _, _, _) ↦ (k', f)
        ],
      )
