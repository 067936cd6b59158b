-- ===== src/Process/Table.antt =====
-- `struct _task` of src/include/task.h and the table `tasks` of src/kernel/task.c. Of a task stands here
-- what the kernel decides by; its registers, its page directory and its stack are not modelled, and
-- its open files are in Files.
use nupkux.Base.{ℕ, ◌&&◌, List, get_or, Bool, true, false, Option, none, some, ℤ}

-- TASK_RUNNING and the other states.
pub data State : Type 0 where
  running waiting uninterruptible blocked zombie : State

abbrev pub is_waiting : State → Bool
is_waiting waiting = true
is_waiting _ = false

abbrev pub is_blocked : State → Bool
is_blocked blocked = true
is_blocked _ = false

abbrev pub is_running : State → Bool
is_running running = true
is_running _ = false

abbrev pub is_zombie : State → Bool
is_zombie zombie = true
is_zombie _ = false

-- `pid` is `none` for NO_TASK.
pub record Task : Type 0 where
  pub pid : Option ℕ
  pub parent : ℕ
  pub pgrp : ℕ
  pub state : State
  pub uid : ℕ
  pub euid : ℕ
  pub kernel_stack : ℕ
  pub exit_code : ℤ
  pub signals : ℕ

abbrev pub nr_tasks : ℕ
nr_tasks = 64

-- The table, the bytes behind it read as one more task, and the index of `current_task`.
pub record Kernel : Type 0 where
  pub tasks : List Task
  pub beyond : Task
  pub current : ℕ

-- `pid != NO_TASK`
abbrev pub in_use : Task → Bool
in_use t = elim t.pid [ none ↦ false | some p ↦ true ]

-- A task that is in use and runs; a free entry may have any state.
abbrev pub is_active : Task → Bool
is_active t = in_use t && is_running t.state

-- What stands for a task that a list lacks; no function of the model reads it within the table.
abbrev pub no_task : Task
no_task = record {
  pid = none;
  parent = 0;
  pgrp = 0;
  state = running;
  uid = 0;
  euid = 0;
  kernel_stack = 0;
  exit_code = ℤ.pos 0;
  signals = 0;
}

-- `tasks[i]`
abbrev pub task_at : List Task → ℕ → Task
task_at ts i = get_or ts i no_task
