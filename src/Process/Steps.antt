-- ===== src/Process/Steps.antt =====
-- The steps of the kernel that change the table of tasks, and the kernels they lead to.
pub mod Leave
pub mod Fork
pub mod Reap
pub mod Setup
pub mod Valid
use nupkux.Base.{
  not_both, ℕ, zero, suc, ◌+◌, ◌-◌, ◌≡◌, refl, sym, ◌∙◌, ap, subst, ◌⊎◌, inl, inr, ◌≢◌, ◌≤◌, ◌<◌,
  ◌==◌, leb, List, length, get_or, modify, each, length-each, length-modify, get_or-each,
  get_or-modify_self, get_or-modify_ne, Bool, true, false, not, ◌&&◌, ◌||◌, Bool-cases, eq_or_ne,
  Option, none, some, ℤ, pos, negsuc, neg, arith, if◌then◌else◌,
}
use nupkux.Process.Table.{
  Task, State, Kernel, running, waiting, blocked, zombie, is_zombie, nr_tasks, no_task, task_at,
  in_use, is_active, is_running,
}
use nupkux.Process.Calls.{
  Reply, Wait, spins, returns, current_task, setup_tasking, timer_handler, is_task_0, end_task,
  sys_fork, sys_kill, sys_exit, sys_waitpid,
}
use nupkux.Process.Schedule.{switch_task, sys_pause}
use nupkux.Process.Schedule.Invariant.{IsTable, IsKernel, IsTable-keep, switch_task-IsKernel}
use nupkux.Process.Fork.{Forks, table_full, forked, sys_fork-Forks}
use nupkux.Process.Exit.Signal.{SameButSignals, sys_kill-SameButSignals, SameButSignals-IsTable}
use nupkux.Process.Exit.Wait.{Ends, sys_exit-Ends}

-- One interrupt or one call of the current task.
pub data Step (k : Kernel) : Kernel → Type 0 where
  ticks : (n : ℕ) → Step k (timer_handler k n).0
  pauses : Step k (sys_pause k)
  forks : (stack : ℕ) → Step k (sys_fork k stack).kernel
  kills : (pid sign : ℤ) → Step k (sys_kill k pid sign).kernel
  exits : (status : ℤ) (k' : Kernel) → sys_exit k status ≡ some k' → Step k k'
  waits : (pid : ℤ) (r : Reply) (v : Option ℤ) → sys_waitpid k pid ≡ returns r v → Step k r.kernel

-- The kernels that steps lead to.
pub data Reachable (k : Kernel) : Kernel → Type 0 where
  start : Reachable k k
  next : {k' k'' : Kernel} → Reachable k k' → Step k' k'' → Reachable k k''
