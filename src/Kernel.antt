-- ===== src/Kernel.antt =====
-- The state that the kernel's parts share: the thread control blocks and lists of
-- kernel/scheduler.c, the first level translation table of kernel/mmu.c, memory, the banked
-- registers, the registers saved by the exception entry, and the devices.
use bsprakt_os.Base.{ℕ, ◌+◌, ◌-◌, ◌*◌, ◌/◌, Bool}
use bsprakt_os.IntrusiveList.{Ptr, Heap}
use bsprakt_os.Strings.{Memory}
use bsprakt_os.Timer.{Timer}
use bsprakt_os.Pl001.{Uart}

-- include/kernel/scheduler.h
abbrev pub user_thread_count : ℕ
user_thread_count = 32

abbrev pub thread_count : ℕ
thread_count = user_thread_count + 1

abbrev pub idle_thread_index : ℕ
idle_thread_index = user_thread_count

abbrev pub address_space_count : ℕ
address_space_count = 8

abbrev pub threads_per_address_space : ℕ
threads_per_address_space = 4

-- `registers` of include/arch/cpu/registers.h
pub record Registers : Type 0 where
  pub general : ℕ → ℕ
  pub sp : ℕ
  pub lr : ℕ
  pub pc : ℕ

-- `tcb` without its two list nodes, which lie in the heap of nodes.
pub record Tcb : Type 0 where
  pub regs : Registers
  pub cpsr : ℕ
  pub pid : ℕ
  pub pid_slot : ℕ
  pub tid : ℕ
  pub stack_handle : ℕ
  pub stall_until : ℕ

-- The status registers that a dump reads: the fault status of the coprocessor, the current program
-- status, and the saved one of each mode.
pub record StatusRegisters : Type 0 where
  pub ifsr : ℕ
  pub dfsr : ℕ
  pub cpsr : ℕ
  pub spsr_supervisor : ℕ
  pub spsr_abort : ℕ
  pub spsr_irq : ℕ
  pub spsr_undefined : ℕ

pub record Kernel : Type 0 where
  pub nodes : Heap
  pub blocks : ℕ → Tcb
  pub process_stack_handles : ℕ → ℕ → ℕ
  pub slots_used : ℕ → ℕ → Bool
  pub l1_table : ℕ → ℕ
  pub memory : Memory
  pub frame : Registers
  pub spsr : ℕ
  pub sp_usr : ℕ
  pub lr_usr : ℕ
  pub timer : Timer
  pub uart : Uart
  pub irq_pending_2 : ℕ
  pub status : StatusRegisters

-- The heads of the lists, by address.
abbrev pub ready_list : Ptr
ready_list = 1

abbrev pub stall_waiting_list : Ptr
stall_waiting_list = 2

abbrev pub input_waiting_list : Ptr
input_waiting_list = 3

abbrev pub running_list : Ptr
running_list = 4

abbrev pub finished_list : Ptr
finished_list = 5

abbrev pub address_spaces : ℕ → Ptr
address_spaces i = 6 + i

-- The two nodes of the thread control block `tid`, and the block around a `scheduler_node`.
abbrev pub scheduler_node : ℕ → Ptr
scheduler_node tid = 16 + 2 * tid

abbrev pub addrspace_node : ℕ → Ptr
addrspace_node tid = 17 + 2 * tid

abbrev pub container_of : Ptr → ℕ
container_of p = (p - 16) / 2
