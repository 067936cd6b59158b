-- ===== src/Process/Calls.antt =====
-- `sys_fork` of src/kernel/task.c, and `sys_kill`, `sys_exit` and `sys_waitpid` of src/kernel/exit.c.
use Prim.Native.Nat.{bit_or}
use nupkux.Base.{
  modify, each, ℕ, ◌%◌, zero, suc, ◌+◌, ◌-◌, ◌^◌, ltb, leb, ◌==◌, if◌then◌else◌, List, [], ◌∷◌,
  Bool, true, false, not, ◌&&◌, ◌||◌, Option, none, some, ℤ, pos, negsuc, neg,
}
use nupkux.Process.Table.{
  running, waiting, zombie, is_zombie, Task, Kernel, nr_tasks, in_use, task_at,
}
use nupkux.Process.Schedule.{switch_task}

-- errno.h
abbrev pub eperm : ℕ
eperm = 1

abbrev pub esrch : ℕ
esrch = 3

abbrev pub echild : ℕ
echild = 10

abbrev pub efault : ℕ
efault = 14

abbrev pub einval : ℕ
einval = 22

abbrev pub sigchld : ℕ
sigchld = 17

abbrev pub sigcont : ℕ
sigcont = 18

-- A result and the kernel behind the call.
pub record Reply : Type 0 where
  pub result : ℤ
  pub kernel : Kernel

abbrev pub current_task : Kernel → Task
current_task k = task_at k.tasks k.current

-- `setup_tasking` on the memory of the table; `stack` is what `_kmalloc_a` returns.
unfoldable pub setup_tasking : Kernel → ℕ → Kernel
setup_tasking k stack = record k {
  tasks =
      modify
        (λ t. record t {
          pid = some 0;
          pgrp = 0;
          parent = 0;
          state = running;
          uid = 0;
          euid = 0;
          signals = 0;
          kernel_stack = stack;
        })
        (each (λ t. record t { pid = none }) k.tasks) 0;
  current = 0;
}

-- `timer_handler` of src/kernel/time.c, with `ticks`
unfoldable pub timer_handler : Kernel → ℕ → Kernel × ℕ
timer_handler k ticks = (switch_task k, (ticks + 1) % 2 ^ 32)

-- The search for a free slot of `sys_fork`.
unfoldable pub free_slot : ℕ → List Task → Option ℕ
free_slot i [] = none
free_slot i (t ∷ ts) = let rest = free_slot (suc i) ts in if in_use t then rest else some i

-- The new task: a copy of its parent but for these fields.
abbrev pub child_of : Task → ℕ → Task
child_of parent i = record parent {
  pid = some i;
  exit_code = pos 0;
  state = waiting;
  parent = elim parent.pid [ none ↦ 0 | some p ↦ p ];
  signals = 0;
}

-- `sys_fork` in the parent behind the search; `stack` is what `_kmalloc_a` returns. It goes to the
-- parent, and the child keeps the old one.
abbrev pub fork_into : Kernel → ℕ → Option ℕ → Reply
fork_into k stack none = record { result = neg 1; kernel = k }
fork_into k stack (some i) = record {
  result = pos i;
  kernel = record k {
    tasks =
        modify (λ t. record t { kernel_stack = stack })
          (modify (λ t. child_of (current_task k) i) k.tasks i) k.current;
  };
}

unfoldable pub sys_fork : Kernel → ℕ → Reply
sys_fork k stack = fork_into k stack (free_slot 0 k.tasks)

-- `I_AM_ROOT()`
abbrev pub is_root : Task → Bool
is_root t = t.uid == 0 || t.euid == 0

-- May `sender` send the signal to `t`? The test of `send_signal`.
unfoldable pub may_signal : Task → Task → ℕ → Bool
may_signal sender t sign =
    is_root sender
    || (t.uid == sender.uid
        || (t.uid == sender.euid
            || (t.euid == sender.uid || (t.euid == sender.euid || sign == sigcont))))

-- `send_signal`: the task behind it, and whether it returned 0.
unfoldable pub send_signal : Task → Task → ℕ → Task × Bool
send_signal sender t sign =
    if may_signal sender t sign
    then (record t { signals = bit_or t.signals (2 ^ (sign - 1)) }, true)
    else (t, false)

-- A loop of `sys_kill`, with its `found` and `perm`.
pub record Sweep : Type 0 where
  pub tasks : List Task
  pub found : Bool
  pub perm : Bool

unfoldable pub signal_where : (Task → Bool) → Task → ℕ → List Task → Sweep
signal_where p sender sign [] = record { tasks = []; found = false; perm = false }
signal_where p sender sign (t ∷ ts) =
    let rest = signal_where p sender sign ts in
    let (t', sent) = send_signal sender t sign in
    if in_use t && p t
    then record { tasks = t' ∷ rest.tasks; found = true; perm = sent || rest.perm }
    else record { tasks = t ∷ rest.tasks; found = rest.found; perm = rest.perm }

-- The end of `sys_kill` behind a loop.
unfoldable pub signal_group : Kernel → (Task → Bool) → ℕ → Reply
signal_group k p sign =
    let s = signal_where p (current_task k) sign k.tasks in
    record {
      result = if not s.found then neg esrch else if not s.perm then neg eperm else pos 0;
      kernel = record k { tasks = s.tasks };
    }

-- `send_signal(&(tasks[pid]), sign)` as the result of `sys_kill`; index 64 is behind the table.
unfoldable pub signal_one : Kernel → ℕ → ℕ → Reply
signal_one k pid sign =
    let t = if pid == nr_tasks then k.beyond else task_at k.tasks pid in
    let (t', sent) = send_signal (current_task k) t sign in
    record {
      result = if sent then pos 0 else neg eperm;
      kernel =
          if pid == nr_tasks
          then record k { beyond = t' }
          else record k { tasks = modify (λ _. t') k.tasks pid };
    }

-- `else if (pid > NR_TASKS || tasks[pid].pid == NO_TASK)` and what follows
unfoldable pub kill_pid : Kernel → ℕ → ℕ → Reply
kill_pid k pid sign =
    if ltb nr_tasks pid || not (in_use (if pid == nr_tasks then k.beyond else task_at k.tasks pid))
    then record { result = neg esrch; kernel = k }
    else signal_one k pid sign

-- The branches of `sys_kill` by `pid`; `-pid` of the least int, which overflows in C, is 2^31 here.
unfoldable pub kill_by : Kernel → ℤ → ℕ → Reply
kill_by k (pos zero) sign = signal_group k (λ t. t.pgrp == (current_task k).pgrp) sign
kill_by k (pos (suc p)) sign = kill_pid k (suc p) sign
kill_by k (negsuc zero) sign = signal_group k (λ t. true) sign
kill_by k (negsuc (suc p)) sign = signal_group k (λ t. t.pgrp == suc (suc p)) sign

unfoldable pub sys_kill : Kernel → ℤ → ℤ → Reply
sys_kill k pid (negsuc s) = record { result = neg einval; kernel = k }
sys_kill k pid (pos sign) =
    if ltb sign 1 || ltb 32 sign
    then record { result = neg einval; kernel = k }
    else kill_by k pid sign

-- The loop of `sys_exit` that hands the children over to init.
unfoldable pub orphan : Task → Task → Task
orphan dying t =
    if in_use t && t.parent == elim dying.pid [ none ↦ 0 | some p ↦ p ]
    then record t { parent = 1 }
    else t

-- The table of `sys_exit` in front of the signal: the children are handed over, and the task is a zombie.
abbrev pub ended : Kernel → ℤ → Kernel
ended k status = record k {
  tasks =
      modify (λ t. record t { state = zombie; exit_code = status })
        (each (orphan (current_task k)) k.tasks) k.current;
}

-- `!current_task->pid`
abbrev pub is_task_0 : Task → Bool
is_task_0 t = elim t.pid [ none ↦ false | some p ↦ p == 0 ]

-- `sys_exit` up to `switch_task`; `none` is the halted kernel, where task 0 exits. Between the two steps
-- of `ended` the open files are closed, and the task's memory is freed at the end.
unfoldable pub end_task : Kernel → ℤ → Option Kernel
end_task k status =
    if is_task_0 (current_task k)
    then none
    else some
        (sys_kill (ended k status) (pos (current_task (ended k status)).parent)
          (pos sigchld)).kernel

unfoldable pub sys_exit : Kernel → ℤ → Option Kernel
sys_exit k status = elim (end_task k status) [ none ↦ none | some k' ↦ some (switch_task k') ]

-- What `sys_waitpid` does when it is run: it spins until the task is a zombie.
pub data Wait : Type 0 where
  spins : Wait
  returns : Reply → Option ℤ → Wait

-- `sys_waitpid` with a place for the status; the second part of `returns` is what is stored
-- there, if anything.
unfoldable pub sys_waitpid : Kernel → ℤ → Wait
sys_waitpid k (negsuc p) = returns (record { result = neg echild; kernel = k }) none
sys_waitpid k (pos pid) =
    if pid == 0 || leb nr_tasks pid
    then returns (record { result = neg echild; kernel = k }) none
    else if is_zombie (task_at k.tasks pid).state
    then returns
        (record {
          result = pos pid;
          kernel = record k { tasks = modify (λ t. record t { pid = none }) k.tasks pid };
        })
        (some (task_at k.tasks pid).exit_code)
    else spins
