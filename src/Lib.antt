-- ===== src/Lib.antt =====
-- The kernel of bsprakt_os, an operating system for the Raspberry Pi 2, and what makes it correct.
--
-- Parts. The scheduler (kernel/scheduler.c) keeps its threads in intrusive lists
-- (kernel/lib/kintrusive_list.c): ready, running, stalled, waiting for input, finished, and one per
-- address space. Its rounds change the translation tables (kernel/mmu.c), and it sets the compare
-- registers of the system timer (arch/bsp/systimer.c). System calls (kernel/syscall_impl.c) and
-- interrupts (kernel/interrupt.c) drive it; characters come through the serial interface
-- (arch/bsp/pl001.c) and a ring buffer (kernel/lib/kringbuffer.c). Below these lie the arithmetic
-- and memory helpers of kernel/lib/kmath.c and kernel/lib/kstring.c.
--
-- Files.
-- - Base: shared names, tests, words of 32 bits, and `Outcome`, the result of kernel code: a value,
--   a panic (a failed VERIFY), a loop of the model that ran out of rounds, or what C leaves open (a
--   write past the end of an array).
-- - IntrusiveList: the operations of kernel/lib/kintrusive_list.c, on a `Heap` that gives each
--   address its two links. `IsRing h p xs` says that the head at `p` holds the nodes `xs`, and
--   `IsStore h l` that all lists together are disjoint, and that nodes in no list are linked to
--   themselves. IntrusiveList/Ring has one module per operation; IntrusiveList/Store lifts them.
-- - Math, Strings, Timer: kernel/lib/kmath.c, kernel/lib/kstring.c, arch/bsp/systimer.c. A counter
--   of the timer is a stream, of which each read takes the next value.
-- - Mmu: entries, registers and tables of kernel/mmu.c, with the memory map of
--   include/arch/bsp/memory_map.h in Mmu/Layout. An entry is its 32-bit word, and its bit fields
--   are read and written by arithmetic. Mmu/Init has the loops that fill the tables.
-- - Kernel: the state that the parts share. The heads of the lists lie below address 16, and thread
--   `tid` has its nodes at 16 + 2 * tid (`scheduler_node`) and 17 + 2 * tid (`addrspace_node`).
-- - Scheduler: the operations of kernel/scheduler.c under the C names. What its two creations have
--   in common is `start_thread`, and the phases of `scheduler_round_robin` are functions of
--   Scheduler/RoundRobin. Theorems: Threads (creation and end), Waiting, Overdue, Mapping, Switch,
--   Walk, Integrity, Rounds and Stalls.
--   Slots has the invariant of the threads (`IsKernel`): a user thread is finished and in no address
--   space, or it is in one with a slot of its own. There are as many slots as user threads, so a free
--   slot means a finished thread. Boot has `scheduler_initialise`, which establishes the invariant.
-- - Math/Gcd, Fraction, Ktiming, Kcolor: k_gcd and k_lcm, kernel/lib/kfraction.c,
--   kernel/lib/ktiming.c and kernel/lib/kcolor.c on the 32-bit `long`s of Base/Signed. A signed
--   result that does not fit wraps round, and a division by zero gives zero: C leaves both open, and
--   this is what the compiled code does.
-- - Ascii, Console, Kprintf: kernel/lib/kascii.c and kernel/lib/kprintf.c. Console has the sending of
--   characters, the digits of a number and the warnings of kprintf.c, which go over the same serial
--   interface (`kwarnln`, from include/kernel/lib/kdebug.h; the colour of their label is a part of a
--   `Console`). Kprintf has the rest, with theorems on the characters of a number (Kprintf/Number) and
--   its digits (Kprintf/Digits), and on the reading of a format (Kprintf/Width, Kprintf/Format).
-- - RingBuffer, Pl001: kernel/lib/kringbuffer.c on memory, and arch/bsp/pl001.c over streams of
--   register reads. `byte_at r m i` is the byte `i` of the queue, the oldest first.
-- - Syscalls, Interrupts: kernel/syscall_impl.c, one function per case of the switch, and
--   kernel/interrupt.c. They take the conversions of kernel/lib/ktiming.c as an interface (`Timing`),
--   which Ktiming fills (Ktiming/Exact and Ktiming/Stall have the calls with it). Syscalls/Creations, Exit and Waits have theorems on single calls.
--   Interrupts/Runs has the runs of the kernel, in which the steps after a start are the handlers of
--   kernel/interrupt.c (`Run`). Syscalls/Runs has what holds between any two of them (`IsSystem`), and
--   why every part that the handlers call keeps it.
-- - Hash: the Jenkins hash of kernel/lib/khash.c on words.
-- - Faults, RegisterDump: the names by status word of arch/cpu/ifsr.c, arch/cpu/dfsr.c and
--   arch/cpu/psr.c, and the look-ups of kernel/register_dump.c, which panic at a word without a name.
-- - Tests: the theorems applied to small kernels.
--
-- Bounds. A loop along a list has 83 rounds (`list_rounds`); there are 66 nodes, below address 82,
-- so no list is longer, and the theorems show that the rounds are enough. Loops over a range count
-- down their own length. `k_gcd` has as many rounds as the magnitude of its second argument and one
-- more. The loops of fractions have their rounds as an argument: those of `k_fraction_multiply` end
-- within the sum of the denominators, those of `k_fraction_add` do not always end. The loops along a
-- text, the wait for the serial interface and the hand-out of characters have their rounds as an
-- argument.
--
-- Not modelled: the assembly and coprocessor accesses, and what the compiler does with the bit
-- fields beyond their documented layout. The devices are their registers. The log output of the
-- kernel is left out but for the warnings of kernel/lib/kprintf.c, and so is the text of the register
-- dumps. The register test (kernel/regcheck.c) only prints. user/lib has the code of kernel/lib again
-- under other names for user programs, which are examples.
pub mod Ascii
pub mod Base
pub mod Console
pub mod Faults
pub mod Fraction
pub mod Hash
pub mod Interrupts
pub mod IntrusiveList
pub mod Kcolor
pub mod Kernel
pub mod Kprintf
pub mod Ktiming
pub mod Math
pub mod Mmu
pub mod Pl001
pub mod RegisterDump
pub mod RingBuffer
pub mod Scheduler
pub mod Strings
pub mod Syscalls
pub mod Tests
pub mod Timer
