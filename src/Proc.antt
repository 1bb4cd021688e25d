-- ===== src/Proc.antt =====
-- process.c, schedule.c and scheduler_class.c: the process table, its queues and the schedulers.
-- A process is named by its index in `ptable.proc`. The kernel runs one process at a time and is
-- switched only where it calls `transform`, so what runs between two switches is one function.
-- The queues are those of an interface `tq`; what a function does to the files, the inodes, the log
-- and the memory is a list of effects, in order.
mod Tests
pub mod Table
pub mod Sched
pub mod Life
