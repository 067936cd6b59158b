-- ===== src/Process/Schedule.antt =====
-- `schedule` of src/kernel/sched.c, and what `switch_task` of src/kernel/task.c does to the table.
pub mod Woken
pub mod Choice
pub mod Invariant
pub mod Fairness
use nupkux.Base.{
  modify, each, ℕ, zero, suc, ◌+◌, ◌==◌, if◌then◌else◌, List, [], ◌∷◌, drop, Bool, true, false, not,
  ◌&&◌, Option, none, some,
}
use nupkux.Process.Table.{
  State, running, waiting, blocked, is_waiting, is_blocked, is_running, Task, Kernel, nr_tasks,
  in_use, task_at,
}

-- A task that is blocked and has a signal becomes ready.
unfoldable pub wake_task : Task → Task
wake_task t =
    if in_use t && (not (t.signals == 0) && is_blocked t.state)
    then record t { state = waiting }
    else t

-- The first loop of `schedule`, from `NR_TASKS` down to 0: it begins with the bytes behind the table.
unfoldable pub wake : Kernel → Kernel
wake k = record k { tasks = each wake_task k.tasks; beyond = wake_task k.beyond }

abbrev pub is_ready : Task → Bool
is_ready t = in_use t && is_waiting t.state

-- `for (i = …; i < NR_TASKS; i++) if (…) break;` over the tasks from `i` on
unfoldable pub first_ready : ℕ → List Task → ℕ
first_ready i [] = i
first_ready i (t ∷ ts) = let rest = first_ready (suc i) ts in if is_ready t then i else rest

-- `new_task->pid + 1`; NO_TASK is -1.
abbrev pub next_pid : Task → ℕ
next_pid t = elim t.pid [ none ↦ 0 | some p ↦ suc p ]

-- `schedule`, with the task that it returns as an index. Where none is ready behind the current one,
-- that is the kernel's task 0, whatever its state.
unfoldable pub schedule : Kernel → Kernel × ℕ
schedule k =
    let woken = wake k in
    let from = next_pid (task_at woken.tasks woken.current) in
    let i = first_ready from (drop from woken.tasks) in (woken, if i == nr_tasks then 0 else i)

-- `if (current_task->state == TASK_RUNNING) current_task->state = TASK_WAITING;`
unfoldable pub preempt : Task → Task
preempt t = if is_running t.state then record t { state = waiting } else t

abbrev pub set_running : Task → Task
set_running t = record t { state = running }

unfoldable pub switch_task : Kernel → Kernel
switch_task k =
    let (k', i) = schedule (record k { tasks = modify preempt k.tasks k.current }) in
    record k' { tasks = modify set_running k'.tasks i; current = i }

-- `sys_pause`
unfoldable pub sys_pause : Kernel → Kernel
sys_pause k =
    switch_task (record k { tasks = modify (λ t. record t { state = blocked }) k.tasks k.current })
