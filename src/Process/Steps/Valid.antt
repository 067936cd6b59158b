-- ===== src/Process/Steps/Valid.antt =====
-- Every run of the scheduler and of the calls keeps the table of tasks valid.
use nupkux.Base.{ℕ, ◌≡◌, ap, subst, length}
use nupkux.Process.Table.{Kernel, nr_tasks}
use nupkux.Process.Calls.{setup_tasking, sys_fork}
use nupkux.Process.Schedule.Invariant.{IsKernel}
use nupkux.Process.Fork.{sys_fork-Forks}
use nupkux.Process.Steps.{Step, ticks, pauses, forks, kills, exits, waits, Reachable, start, next}
use nupkux.Process.Steps.Leave.{
  timer_handler-IsKernel, sys_pause-IsKernel, sys_kill-IsKernel, sys_exit-IsKernel,
}
use nupkux.Process.Steps.Fork.{Forks-IsKernel}
use nupkux.Process.Steps.Reap.{kernel_behind, waited-IsKernel}
use nupkux.Process.Steps.Setup.{setup_tasking-IsKernel}

Step-IsKernel : (k k' : Kernel) → IsKernel k → Step k k' → IsKernel k'
Step-IsKernel k _ h (ticks n) = timer_handler-IsKernel k n h
Step-IsKernel k _ h pauses = sys_pause-IsKernel k h
Step-IsKernel k _ h (forks stack) =
    Forks-IsKernel k stack (sys_fork k stack) h (sys_fork-Forks k stack h.table)
Step-IsKernel k _ h (kills pid sign) = sys_kill-IsKernel k pid sign h
Step-IsKernel k _ h (exits status k' e) = sys_exit-IsKernel k k' status h e
Step-IsKernel k _ h (waits pid r v e) =
    subst IsKernel (ap (kernel_behind k) e) (waited-IsKernel k pid h)

Reachable-IsKernel : (k k' : Kernel) → IsKernel k → Reachable k k' → IsKernel k'
Reachable-IsKernel k _ h start = h
Reachable-IsKernel k _ h (next {k' = k'} {k'' = k''} r s) =
    Step-IsKernel k' k'' (Reachable-IsKernel k k' h r) s

-- After `setup_tasking`, whatever the memory of the table held, and any sequence of timer ticks,
-- pauses, forks, signals, exits and waits, the table is valid: every entry in use has its index as its
-- pid, task 0 and the current task are in use, and the current task is the only one that is running.
pub setup_tasking-Reachable :
    (k : Kernel) (stack : ℕ) (k' : Kernel)
    → length k.tasks ≡ nr_tasks
    → Reachable (setup_tasking k stack) k'
    → IsKernel k'
setup_tasking-Reachable k stack k' len r =
    Reachable-IsKernel (setup_tasking k stack) k' (setup_tasking-IsKernel k stack len) r
