-- ===== src/Tests/Lifetimes.antt =====
-- Runs of the creation and the end of threads of kernel/scheduler.c.
use bsprakt_os.Kernel.{Kernel}
