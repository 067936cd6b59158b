-- ===== src/Process.antt =====
-- src/kernel/sched.c, src/kernel/task.c and src/kernel/exit.c: the table of tasks, the scheduler and the
-- system calls that start, signal, end and reap a task.
pub mod Table
pub mod Schedule
pub mod Calls
pub mod Fork
pub mod Kill
pub mod Exit
pub mod Steps
mod Tests
