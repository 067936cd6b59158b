-- ===== src/Process/Tests.antt =====
-- Concrete runs of the table of tasks, and the theorems applied to them.
use nupkux.Base.{
  ℕ, suc, ◌≡◌, refl, ◌≢◌, ◌<◌, ap, length-replicate, replicate, modify, length, true, false, pos,
  negsuc, some, arith,
}
use nupkux.Process.Table.{Kernel, no_task, blocked, nr_tasks, task_at, in_use}
use nupkux.Process.Calls.{
  returns, setup_tasking, timer_handler, sys_fork, free_slot, sys_kill, sys_exit, sys_waitpid,
}
use nupkux.Process.Schedule.{switch_task, schedule, wake, wake_task, preempt, first_ready, is_ready}
use nupkux.Process.Schedule.Woken.{Woken}
use nupkux.Process.Schedule.Choice.{Next, behind_pid, schedule-Chosen}
use nupkux.Process.Schedule.Invariant.{IsKernel, switch_task-IsKernel}
use nupkux.Process.Schedule.Fairness.{switches, switch_task_reaches}
use nupkux.Process.Fork.{Forks, sys_fork-Forks}
use nupkux.Process.Kill.{is_target, Kills}
use nupkux.Process.Kill.All.{sys_kill-Kills}
use nupkux.Process.Exit.Wait.{sys_exit-sys_waitpid}
use nupkux.Process.Steps.{ticks, forks, start, next}
use nupkux.Process.Steps.Setup.{setup_tasking-IsKernel}
use nupkux.Process.Steps.Fork.{Forks-IsKernel}
use nupkux.Process.Steps.Valid.{setup_tasking-Reachable}

abbrev memory : Kernel
memory = record { tasks = replicate 64 no_task; beyond = no_task; current = 0 }

-- The kernel when it starts, then with a child of task 0, and then with the child running.
abbrev booted : Kernel
booted = setup_tasking memory 4096

abbrev parent : Kernel
parent = (sys_fork booted 8192).kernel

abbrev child : Kernel
child = switch_task parent

booted-IsKernel : IsKernel booted
booted-IsKernel = setup_tasking-IsKernel memory 4096 (length-replicate 64 no_task)

parent-IsKernel : IsKernel parent
parent-IsKernel =
    Forks-IsKernel booted 8192 (sys_fork booted 8192) booted-IsKernel
      (sys_fork-Forks booted 8192 booted-IsKernel.table)

child-IsKernel : IsKernel child
child-IsKernel = switch_task-IsKernel parent parent-IsKernel.table

forked_pid : (sys_fork booted 8192).result ≡ pos 1
unfolding sys_fork free_slot setup_tasking
forked_pid = refl

child_runs : child.current ≡ 1
unfolding switch_task schedule wake wake_task preempt first_ready sys_fork free_slot setup_tasking
child_runs = refl

child_ready : is_ready (task_at parent.tasks 1) ≡ true
unfolding sys_fork free_slot setup_tasking
child_ready = refl

child_not_0 : child.current ≢ 0
child_not_0 e = omega (arith, e, child_runs)

-- The child sleeps, and a signal has come for it.
abbrev sleeping : Kernel
sleeping = record parent {
  tasks = modify (λ t. record t { state = blocked; signals = 4 }) parent.tasks 1;
}

sleeping-size : length sleeping.tasks ≡ nr_tasks
unfolding sys_fork free_slot setup_tasking
sleeping-size = refl

sleeping_next : behind_pid (task_at sleeping.tasks sleeping.current).pid ≡ 1
unfolding sys_fork free_slot setup_tasking
sleeping_next = refl

not_behind : pos 1 ≢ pos nr_tasks
not_behind e =
    let no : 1 ≡ 64 = ap (λ z. elim z as (λ q. ℕ) [ pos n ↦ n | negsuc n ↦ n ]) e in
    omega (arith, no)

schedule-Chosen_example :
    ((n : ℕ) → Woken (task_at sleeping.tasks n) (task_at (schedule sleeping).0.tasks n))
    × Woken sleeping.beyond (schedule sleeping).0.beyond
    × ((schedule sleeping).0 ≡ record sleeping {
      tasks = (schedule sleeping).0.tasks;
      beyond = (schedule sleeping).0.beyond;
    })
    × Next (schedule sleeping).0.tasks 1 (schedule sleeping).1
schedule-Chosen_example = schedule-Chosen sleeping 1 sleeping-size sleeping_next (omega arith)

switch_task_reaches_example : (n : ℕ) × n < nr_tasks × ((switches (suc n) parent).current ≡ 1)
switch_task_reaches_example = switch_task_reaches parent 1 parent-IsKernel (omega arith) child_ready

sys_fork-Forks_example : Forks booted 8192 (sys_fork booted 8192)
sys_fork-Forks_example = sys_fork-Forks booted 8192 booted-IsKernel.table

sys_kill-Kills_example :
    Kills parent 15 (is_target parent (pos 1)) (sys_kill parent (pos 1) (pos 15))
sys_kill-Kills_example =
    sys_kill-Kills parent (pos 1) 15 parent-IsKernel.table not_behind (omega arith) (omega arith)

sys_exit-sys_waitpid_example :
    (k' k'' : Kernel) × (sys_exit child (pos 7) ≡ some k')
    × (sys_waitpid k' (pos child.current)
        ≡ returns (record { result = pos child.current; kernel = k'' }) (some (pos 7)))
    × (in_use (task_at k''.tasks child.current) ≡ false)
sys_exit-sys_waitpid_example = sys_exit-sys_waitpid child (pos 7) child-IsKernel child_not_0

setup_tasking-Reachable_example : IsKernel (timer_handler parent 5).0
setup_tasking-Reachable_example =
    setup_tasking-Reachable memory 4096 (timer_handler parent 5).0 (length-replicate 64 no_task)
      (next (next start (forks 8192)) (ticks 5))
