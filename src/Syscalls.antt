-- ===== src/Syscalls.antt =====
-- kernel/syscall_impl.c: the system calls. `Timing` is the interface of the two
-- conversions of kernel/lib/ktiming.c, which Ktiming fills.
pub mod Creations
pub mod Dispatch
pub mod Exit
pub mod Runs
pub mod Waits
use bsprakt_os.Base.{
  ℕ, zero, suc, ◌+◌, ◌-◌, ◌*◌, ◌/◌, ◌%◌, ◌^◌, ◌==◌, Bool, true, false, not, ◌&&◌, ◌||◌, ltb, leb,
  if◌then◌else◌, update, Option, some, none, Outcome, ok, ◌>>=◌, ◌>>◌, verify,
}
use bsprakt_os.Base.Words.{word, sub32}
use bsprakt_os.Strings.{Memory}
use bsprakt_os.Timer.{systimer_value, systimer_reset}
use bsprakt_os.Timer.Errors.{Status, success, k_einval, k_ebusy, is_error}
use bsprakt_os.Mmu.Layout.{stack_size}
use bsprakt_os.Kernel.{Kernel, Registers}
use bsprakt_os.Pl001.{pl001_send}
use bsprakt_os.Scheduler.{
  forced, normal, scheduler_get_running_thread, scheduler_find_first_empty_address_space,
  scheduler_find_first_empty_slot_in_address_space, scheduler_create_process,
  scheduler_create_thread, scheduler_cleanup_thread, scheduler_ignore_thread_until_character_input,
  scheduler_ignore_thread_until_timer_match,
}
use bsprakt_os.Scheduler.RoundRobin.{scheduler_round_robin}

-- The SYSCALL_..._NO numbers of syscall_impl.h.
abbrev pub syscall_read_character_no : ℕ
syscall_read_character_no = 1

abbrev pub syscall_output_character_no : ℕ
syscall_output_character_no = 2

abbrev pub syscall_create_process_no : ℕ
syscall_create_process_no = 3

abbrev pub syscall_create_thread_no : ℕ
syscall_create_thread_no = 4

abbrev pub syscall_stall_thread_no : ℕ
syscall_stall_thread_no = 5

abbrev pub syscall_exit_thread_no : ℕ
syscall_exit_thread_no = 6

abbrev pub syscall_get_time_no : ℕ
syscall_get_time_no = 7

abbrev pub syscall_get_thread_id_no : ℕ
syscall_get_thread_id_no = 8

-- A 32-bit word in memory, least significant byte first.
abbrev pub word_at : Memory → ℕ → ℕ
word_at m a = m a + m (a + 1) * 2 ^ 8 + m (a + 2) * 2 ^ 16 + m (a + 3) * 2 ^ 24

unfoldable pub get_syscall_no : Memory → ℕ → ℕ
get_syscall_no m svc_instruction_address = word_at m svc_instruction_address % 2 ^ 24

unfoldable pub is_valid_syscall_no : ℕ → Bool
is_valid_syscall_no n =
    n == syscall_read_character_no
    || (n == syscall_output_character_no
        || (n == syscall_create_process_no
            || (n == syscall_create_thread_no
                || (n == syscall_stall_thread_no
                    || (n == syscall_exit_thread_no
                        || (n == syscall_get_time_no || n == syscall_get_thread_id_no))))))

unfoldable pub is_valid_syscall : Memory → ℕ → Bool
is_valid_syscall m instruction_address =
    word_at m instruction_address / 2 ^ 24 == 0xef
    && is_valid_syscall_no (get_syscall_no m instruction_address)

-- `ktiming_milliseconds_to_hertz` with its error, and `ktiming_hertz_to_milliseconds`.
pub record Timing : Type 0 where
  pub milliseconds_to_hertz : ℕ → Outcome (Status × ℕ)
  pub hertz_to_milliseconds : ℕ → Outcome ℕ

-- -K_EINVAL and -K_EBUSY as words.
abbrev pub error_word : Status → ℕ
error_word success = 0
error_word k_einval = sub32 0 1
error_word Status.k_erange = sub32 0 2
error_word k_ebusy = sub32 0 3

-- `regs->general[0] = value`
abbrev pub set_r0 : ℕ → Kernel → Kernel
set_r0 value k = record k { frame = record (k.frame) { general = update k.frame.general 0 value } }

abbrev pub reset_timer : Kernel → Kernel
reset_timer k = record k { timer = systimer_reset k.timer }

-- The cases of `dispatch_syscall`; each returns 0 as `success`.
unfoldable pub syscall_read_character : Kernel → Outcome Kernel
syscall_read_character k = do
  calling_thread ← scheduler_get_running_thread k
  k' ← scheduler_round_robin forced k
  scheduler_ignore_thread_until_character_input calling_thread (reset_timer k')

-- `fuel` bounds the wait for the serial interface.
unfoldable pub syscall_output_character : ℕ → Kernel → Outcome Kernel
syscall_output_character fuel k = do
  u ← pl001_send fuel (k.frame.general 0 % 256) k.uart
  ok (record k { uart = u })

unfoldable pub syscall_create_process : ℕ → Kernel → Outcome Kernel
syscall_create_process exit_thread k = do
  let func = k.frame.general 0
  let args = k.frame.general 1
  let args_size = k.frame.general 2
  if ltb stack_size args_size then ok (set_r0 (error_word k_einval) k) else do
    space ← scheduler_find_first_empty_address_space k
    elim space [
      | none ↦ ok (set_r0 (error_word k_ebusy) k)
      | some address_space ↦
          scheduler_create_process exit_thread address_space func args args_size k
    ]

unfoldable pub syscall_create_thread : ℕ → Kernel → Outcome Kernel
syscall_create_thread exit_thread k = do
  let func = k.frame.general 0
  let args = k.frame.general 1
  let args_size = k.frame.general 2
  if ltb stack_size args_size then ok (set_r0 (error_word k_einval) k) else do
    calling_thread ← scheduler_get_running_thread k
    elim (scheduler_find_first_empty_slot_in_address_space (k.blocks calling_thread).pid k) [
      | none ↦ ok (set_r0 (error_word k_ebusy) k)
      | some slot ↦ scheduler_create_thread exit_thread calling_thread slot func args args_size k
    ]

unfoldable pub syscall_stall_thread : Timing → Kernel → Outcome Kernel
syscall_stall_thread timing k = do
  let ms = k.frame.general 0
  calling_thread ← scheduler_get_running_thread k
  k' ← scheduler_round_robin forced k
  let k'' = reset_timer k'
  if ms == 0 then ok k'' else do
    converted ← timing.milliseconds_to_hertz ms
    if is_error converted.0
        then ok (set_r0 (error_word k_einval) k'')
        else scheduler_ignore_thread_until_timer_match calling_thread converted.1 k''

unfoldable pub syscall_exit_thread : Kernel → Outcome Kernel
syscall_exit_thread k = do
  k' ← scheduler_cleanup_thread k
  k'' ← scheduler_round_robin normal k'
  ok (reset_timer k'')

unfoldable pub syscall_get_time : Timing → Kernel → Outcome Kernel
syscall_get_time timing k = do
  let (now, timer) = systimer_value k.timer
  ms ← timing.hertz_to_milliseconds now
  ok (set_r0 ms (record k { timer = timer }))

unfoldable pub syscall_get_thread_id : Kernel → Outcome Kernel
syscall_get_thread_id k = do
  running ← scheduler_get_running_thread k
  ok (set_r0 (k.blocks running).tid k)

-- What a call needs besides the kernel: the address of `sys$exit_thread`, the conversions, and a
-- bound on the wait for the serial interface.
pub record Host : Type 0 where
  pub exit_thread : ℕ
  pub timing : Timing
  pub send_rounds : ℕ

abbrev pub done : Outcome Kernel → Outcome (Status × Kernel)
done o = o >>= λ k. ok (success, k)

unfoldable pub dispatch_syscall : Host → ℕ → Kernel → Outcome (Status × Kernel)
dispatch_syscall host syscall_no k =
    if syscall_no == syscall_read_character_no
    then done (syscall_read_character k)
    else if syscall_no == syscall_output_character_no
    then done (syscall_output_character host.send_rounds k)
    else if syscall_no == syscall_create_process_no
    then done (syscall_create_process host.exit_thread k)
    else if syscall_no == syscall_create_thread_no
    then done (syscall_create_thread host.exit_thread k)
    else if syscall_no == syscall_stall_thread_no
    then done (syscall_stall_thread host.timing k)
    else if syscall_no == syscall_exit_thread_no
    then done (syscall_exit_thread k)
    else if syscall_no == syscall_get_time_no
    then done (syscall_get_time host.timing k)
    else if syscall_no == syscall_get_thread_id_no
    then done (syscall_get_thread_id k)
    else ok (k_einval, k)
