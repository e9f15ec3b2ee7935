-- ===== src/Tests/Calls.antt =====
-- Runs of the system calls, of the start of the scheduler, of the ring buffer and of the fault names.
use native.Mathlib.Nat.{dvd-mul_right}
use bsprakt_os.Base.{
  ◌&&◌, ℕ, ◌+◌, ◌-◌, ◌%◌, ◌^◌, ◌<◌, ◌≡◌, ◌⊎◌, ◌↔◌, refl, inr, not, [], ◌∷◌, ◌==◌, if◌then◌else◌,
  arith, ok, panic, verify, ◌>>◌,
}
use bsprakt_os.Base.Words.{bit}
use bsprakt_os.IntrusiveList.{Heap}
use bsprakt_os.IntrusiveList.Ring.Order.{ordered}
use bsprakt_os.IntrusiveList.Store.{IsStore}
use bsprakt_os.Kernel.{Kernel}
use bsprakt_os.Timer.Errors.{k_einval, is_error}
use bsprakt_os.Strings.{Memory}
use bsprakt_os.Scheduler.{scheduler_stall_cmp}
use bsprakt_os.Scheduler.Switch.{Switched}
use bsprakt_os.Scheduler.Slots.State.{IsKernel}
use bsprakt_os.Scheduler.Threads.{ended, created}
use bsprakt_os.Scheduler.Boot.{scheduler_initialise}
use bsprakt_os.Scheduler.Boot.Circle.{nodes_from, first_lists}
use bsprakt_os.Scheduler.Boot.State.{scheduler_initialise-IsKernel}
use bsprakt_os.Syscalls.{
  Timing, Host, dispatch_syscall, is_valid_syscall_no, syscall_exit_thread, syscall_read_character,
  syscall_stall_thread, reset_timer, set_r0, error_word,
}
use bsprakt_os.Syscalls.Exit.{freed, syscall_exit_thread-Switched}
use bsprakt_os.Syscalls.Waits.{
  waiting_in, syscall_read_character-waits, syscall_stall_thread-einval,
}
use bsprakt_os.Syscalls.Dispatch.{dispatch_syscall-is_error}
use bsprakt_os.RingBuffer.{RingBuffer, k_ringbuffer_used, k_ringbuffer_write, k_ringbuffer_read}
use bsprakt_os.RingBuffer.Queue.{IsBuffer, byte_at, k_ringbuffer_write-append}
use bsprakt_os.RingBuffer.Reads.{k_ringbuffer_read-take}
use bsprakt_os.RegisterDump.{prefetch_abort, is_dumped}
use bsprakt_os.Interrupts.{from_user, fault_interrupt_handler}
use bsprakt_os.Interrupts.Aborts.{faults-exit}
use bsprakt_os.Faults.{get_prefetch_abort_error_type}
use bsprakt_os.Faults.Names.{get_prefetch_abort_error_type-panic}
use bsprakt_os.Tests.Scene.{
  kernel_with, kernel_on, block, lists_of, busy, busy-IsStore, busy-IsThreads,
}

exit_example :
    (k1 k2 : Kernel) × (k1.slots_used ≡ freed (kernel_with busy) 0)
    × Switched k1 (ended 0 0 (lists_of busy)) 18 [] [] k2
    × (syscall_exit_thread (kernel_with busy)
        ≡ verify (ordered (scheduler_stall_cmp block) (20 ∷ [])) >> ok (reset_timer k2))
exit_example =
    syscall_exit_thread-Switched (kernel_with busy) (lists_of busy) 0 18 [] busy-IsStore
      busy-IsThreads refl (omega arith) refl refl

read_example :
    (k1 : Kernel) × (g : Heap) × Switched (kernel_with busy) (lists_of busy) 18 [] (16 ∷ []) k1
    × (syscall_read_character (kernel_with busy) ≡ ok (record (reset_timer k1) { nodes = g }))
    × IsStore g (waiting_in 3 0 18 [] (lists_of busy))
read_example =
    syscall_read_character-waits (kernel_with busy) (lists_of busy) 0 18 [] busy-IsStore
      busy-IsThreads (omega arith) refl refl refl

-- Conversions that always fail.
abbrev failing : Timing
failing = record {
  milliseconds_to_hertz = λ ms. ok (k_einval, 0);
  hertz_to_milliseconds = λ hz. ok 0;
}

stall_error_example :
    (k1 : Kernel) × Switched (kernel_with busy) (lists_of busy) 18 [] (16 ∷ []) k1
    × (syscall_stall_thread failing (kernel_with busy)
        ≡ ok (set_r0 (error_word k_einval) (reset_timer k1)))
    × ((k1.blocks 0).regs.general 0 ≡ 7)
stall_error_example =
    syscall_stall_thread-einval (kernel_with busy) (lists_of busy) 0 18 [] busy-IsStore
      busy-IsThreads (omega arith) refl refl refl failing k_einval 0 (ground arith) refl refl

abbrev host : Host
host = record { exit_thread = 777; timing = failing; send_rounds = 3 }

dispatch_example : is_error k_einval ≡ not (is_valid_syscall_no 9)
unfolding dispatch_syscall
dispatch_example =
    dispatch_syscall-is_error host 9 (kernel_with busy) (kernel_with busy) k_einval refl

-- The heads as the image holds them, and all nodes cleared.
abbrev static : Heap
static = record { next = λ p. if p == 5 then 16 else 0; previous = λ p. 0 }

initialise_example :
    (k' : Kernel) × (scheduler_initialise 65536 5 777 888 (kernel_on static) ≡ ok k')
    × IsKernel k' (created 0 0 (nodes_from 31 1) first_lists)
    × ((k'.blocks 32).tid ≡ 32)
initialise_example =
    scheduler_initialise-IsKernel 65536 5 777 888 (kernel_on static) refl
      (record { next = λ p l. refl; previous = λ p l. refl })

-- Six bytes before the end of the array, and room for more at its start.
abbrev ring : RingBuffer
ring = record { bytes = 500; mask = 127; read_index = 2 ^ 32 - 6; write_index = 0 }

ring-IsBuffer : IsBuffer ring
unfolding k_ringbuffer_used
ring-IsBuffer = record {
  place = ground arith;
  divides = dvd-mul_right 128 (2 ^ 25);
  small = omega arith;
  read_word = omega arith;
  write_word = omega arith;
  fits = omega arith;
}

abbrev bytes : Memory
bytes a = a % 256

write_example :
    (m' : Memory) × (k_ringbuffer_write ring 400 3 bytes
      ≡ ok (3, record ring { write_index = 3 }, m'))
    × (k_ringbuffer_used (record ring { write_index = 3 }) ≡ 9)
    × ((i : ℕ) → i < 6 → byte_at (record ring { write_index = 3 }) m' i ≡ byte_at ring bytes i)
    × ((j : ℕ) → j < 3 → byte_at (record ring { write_index = 3 }) m' (6 + j) ≡ bytes (400 + j))
unfolding k_ringbuffer_used
write_example =
    k_ringbuffer_write-append ring 400 3 bytes ring-IsBuffer (ground arith) (inr (omega arith))

take_example :
    (m' : Memory) × (k_ringbuffer_read ring 400 9 bytes
      ≡ ok (6, record ring { read_index = 0 }, m'))
    × (k_ringbuffer_used (record ring { read_index = 0 }) ≡ 0)
    × ((j : ℕ) → j < 6 → m' (400 + j) ≡ byte_at ring bytes j)
    × ((i : ℕ) → byte_at (record ring { read_index = 0 }) m' i ≡ byte_at ring bytes (6 + i))
unfolding k_ringbuffer_used
take_example =
    k_ringbuffer_read-take ring 400 9 bytes ring-IsBuffer (ground arith) (inr (omega arith))

-- A parity error has bit 10 and the low bits 9.
prefetch_example :
    (get_prefetch_abort_error_type 1033 ≡ panic)
    ↔ ((bit 1033 10 ≡ 1) ⊎ ((1033 % 16 ≡ 0) ⊎ ((1033 % 16 ≡ 4) ⊎ (1033 % 16 ≡ 10))))
prefetch_example = get_prefetch_abort_error_type-panic 1033

fault_example : fault_interrupt_handler host prefetch_abort (kernel_with busy) ≡ (
    if is_dumped prefetch_abort (kernel_with busy) && from_user (kernel_with busy)
    then syscall_exit_thread (kernel_with busy)
    else panic)
fault_example = faults-exit host prefetch_abort (kernel_with busy)
