-- ===== src/Process/Kill/All.antt =====
-- `sys_kill` of src/kernel/exit.c for every pid.
use nupkux.Base.{
  ℕ, zero, suc, ◌≡◌, ap, subst, ◌≢◌, ◌≤◌, ◌==◌, ltb, Bool, true, false, ◌&&◌, ◌||◌, fun_ext, ℤ, pos,
  negsuc, arith,
}
use nupkux.Process.Table.{Task, Kernel, nr_tasks, in_use}
use nupkux.Process.Calls.{Reply, current_task, kill_by, sys_kill}
use nupkux.Process.Schedule.Invariant.{IsTable}
use nupkux.Process.Kill.{is_target, Kills}
use nupkux.Process.Kill.Sweep.{signal_group-Kills}
use nupkux.Process.Kill.Pid.{kill_pid-Kills}

Kills-and :
    (k : Kernel) (sign : ℕ) (meant meant' : Task → Bool) (r : Reply)
    → ((t : Task) → meant t ≡ meant' t)
    → Kills k sign meant r
    → Kills k sign meant' r
Kills-and k sign meant meant' r e h = subst (λ m. Kills k sign m r) (fun_ext e) h

kill_by-Kills :
    (k : Kernel) (pid : ℤ) (sign : ℕ)
    → IsTable k.current k.tasks
    → pid ≢ pos nr_tasks
    → Kills k sign (is_target k pid) (kill_by k pid sign)
unfolding kill_by
kill_by-Kills k (pos zero) sign h ne =
    signal_group-Kills k (λ t. t.pgrp == (current_task k).pgrp) sign h.size
kill_by-Kills k (pos (suc p)) sign h ne = kill_pid-Kills k p sign h (λ e. ne (ap pos e))
kill_by-Kills k (negsuc zero) sign h ne =
    Kills-and k sign (λ t. in_use t && true) in_use _ (λ t. ground arith)
      (signal_group-Kills k (λ t. true) sign h.size)
kill_by-Kills k (negsuc (suc p)) sign h ne =
    signal_group-Kills k (λ t. t.pgrp == suc (suc p)) sign h.size

-- In a valid table, `sys_kill` with a signal from 1 to 32 and any pid but 64 gives the signal to exactly the tasks that the pid
-- means and that the caller may signal, and changes nothing else in the table. The result is 0 where
-- there is such a task, -EPERM where none of those meant may be signalled, and -ESRCH where none is meant.
pub sys_kill-Kills :
    (k : Kernel) (pid : ℤ) (sign : ℕ)
    → IsTable k.current k.tasks
    → pid ≢ pos nr_tasks
    → 1 ≤ sign
    → sign ≤ 32
    → Kills k sign (is_target k pid) (sys_kill k pid (pos sign))
unfolding sys_kill
sys_kill-Kills k pid sign h ne l l' =
    let valid : (ltb sign 1 || ltb 32 sign) ≡ false = ground arith in
    rw valid (kill_by-Kills k pid sign h ne)
