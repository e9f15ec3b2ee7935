-- ===== src/Tests/Places.antt =====
-- Runs of the creations and the end of a thread of kernel/scheduler.c and kernel/syscall_impl.c, and
-- of a round, with all threads in place.
use bsprakt_os.Base.{ℕ, ◌≡◌, ◌≢◌, ◌⊎◌, ◌<◌, inr, refl, true, false, List, [], ◌∷◌, arith, ok}
use bsprakt_os.IntrusiveList.{Ptr}
use bsprakt_os.Kernel.{
  Kernel, address_spaces, finished_list, scheduler_node, address_space_count,
  threads_per_address_space,
}
use bsprakt_os.Mmu.Layout.{mib}
use bsprakt_os.Strings.Copy.{copied}
use bsprakt_os.Timer.Errors.{k_ebusy}
use bsprakt_os.Scheduler.{scheduler_cleanup_thread}
use bsprakt_os.Scheduler.Threads.{created, ended, Created, process_data, process_image}
use bsprakt_os.Scheduler.Slots.State.{IsKernel, scheduler_cleanup_thread-IsKernel}
use bsprakt_os.Syscalls.{syscall_create_thread, syscall_create_process, set_r0, error_word}
use bsprakt_os.Syscalls.Creations.{
  IsGiven, syscall_create_thread-cases, syscall_create_process-cases,
}
use bsprakt_os.Tests.Crowd.{crowd, crowd_lists, crowd-IsKernel}

cleanup_place_example :
    (k' : Kernel) × (scheduler_cleanup_thread crowd ≡ ok k')
    × IsKernel k' (ended 0 0 crowd_lists)
    × (k'.slots_used 0 0 ≡ false)
    × (k'.blocks ≡ crowd.blocks)
cleanup_place_example =
    scheduler_cleanup_thread-IsKernel crowd crowd_lists crowd-IsKernel 0 (omega arith) refl

given : IsGiven 7 7
given = record { fits = omega arith; given = inr (ground arith); apart = λ t h. inr (omega arith) }

create_thread_cases_example :
    ((syscall_create_thread 777 crowd ≡ ok (set_r0 (error_word k_ebusy) crowd))
      × ((j : ℕ) → j < threads_per_address_space → crowd.slots_used 0 j ≡ true))
    ⊎ ((slot tid : ℕ) × (rest : List Ptr) × (k' : Kernel) × (syscall_create_thread 777 crowd
          ≡ ok k')
        × (crowd.slots_used 0 slot ≡ false)
        × ((j : ℕ) → j < slot → crowd.slots_used 0 j ≡ true)
        × (crowd_lists finished_list ≡ scheduler_node tid ∷ rest)
        × Created crowd crowd_lists 777 0 slot 7 7 7 tid rest k'
        × IsKernel k' (created 0 tid rest crowd_lists))
create_thread_cases_example =
    syscall_create_thread-cases 777 0 crowd crowd_lists crowd-IsKernel (omega arith) refl given

create_process_cases_example :
    ((syscall_create_process 777 crowd ≡ ok (set_r0 (error_word k_ebusy) crowd))
      × ((j : ℕ) → j < address_space_count → crowd_lists (address_spaces j) ≢ []))
    ⊎ ((space tid : ℕ) × (rest : List Ptr) × (m : ℕ → ℕ) × (k' : Kernel) × (syscall_create_process
            777 crowd
          ≡ ok k')
        × (crowd_lists (address_spaces space) ≡ [])
        × ((j : ℕ) → j < space → crowd_lists (address_spaces j) ≢ [])
        × (crowd_lists finished_list ≡ scheduler_node tid ∷ rest)
        × ((a : ℕ) → m a ≡ copied (process_data space) process_image mib crowd.memory a)
        × Created (record crowd { memory = m }) crowd_lists 777 space 0 7 7 7 tid rest k'
        × IsKernel k' (created space tid rest crowd_lists))
create_process_cases_example =
    syscall_create_process-cases 777 crowd crowd_lists crowd-IsKernel given
