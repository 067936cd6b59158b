-- ===== src/Process/Steps/Leave.antt =====
-- A timer tick, `sys_pause`, `sys_kill` and `sys_exit` keep the table of tasks valid.
use nupkux.Base.{
  ℕ, ◌≡◌, refl, sym, ◌∙◌, ap, subst, inl, inr, ◌==◌, modify, length-modify, get_or-modify_self,
  get_or-modify_ne, Bool, true, false, eq_or_ne, Option, none, some, ℤ, arith,
}
use nupkux.Process.Table.{State, Kernel, blocked, no_task, task_at, is_active, is_running}
use nupkux.Process.Calls.{current_task, timer_handler, is_task_0, end_task, sys_kill, sys_exit}
use nupkux.Process.Schedule.{switch_task, sys_pause}
use nupkux.Process.Schedule.Invariant.{IsTable, IsKernel, IsTable-keep, switch_task-IsKernel}
use nupkux.Process.Exit.Signal.{sys_kill-SameButSignals, SameButSignals-IsTable}
use nupkux.Process.Exit.Wait.{sys_exit-Ends}

pub timer_handler-IsKernel : (k : Kernel) (n : ℕ) → IsKernel k → IsKernel (timer_handler k n).0
unfolding timer_handler
timer_handler-IsKernel k n h = switch_task-IsKernel k h.table

-- A change of the current task's state alone.
restate-IsTable :
    (k : Kernel) (s : State)
    → IsTable k.current k.tasks
    → IsTable k.current (modify (λ t. record t { state = s }) k.tasks k.current)
restate-IsTable k s h =
    IsTable-keep k.current k.tasks _ h (length-modify _ k.tasks k.current ∙ h.size)
      (λ i l. elim (eq_or_ne i k.current) [
        | inl e ↦
            subst
              (λ j.
                (task_at (modify (λ t. record t { state = s }) k.tasks k.current) j).pid
                ≡ (task_at k.tasks j).pid)
              (sym e)
              (ap (λ t. t.pid)
                (get_or-modify_self _ k.tasks k.current no_task (omega (arith, h.size, h.inside))))
        | inr ne ↦
            ap (λ t. t.pid) (get_or-modify_ne _ k.tasks k.current i no_task (λ e. ne (sym e)))
      ])
      (λ i l ne r.
        ap is_active (get_or-modify_ne _ k.tasks k.current i no_task (λ e. ne (sym e))) ∙ r)

pub sys_pause-IsKernel : (k : Kernel) → IsKernel k → IsKernel (sys_pause k)
unfolding sys_pause
sys_pause-IsKernel k h = switch_task-IsKernel _ (restate-IsTable k blocked h.table)

pub sys_kill-IsKernel :
    (k : Kernel) (pid sign : ℤ) → IsKernel k → IsKernel (sys_kill k pid sign).kernel
sys_kill-IsKernel k pid sign h =
    let same = sys_kill-SameButSignals k pid sign h.table in
    let (s, e) = same.tasks k.current h.table.inside in
    record {
      table = SameButSignals-IsTable k (sys_kill k pid sign).kernel h.table same;
      runs =
          ap (λ c. is_running (task_at (sys_kill k pid sign).kernel.tasks c).state) same.current
          ∙ ap (λ t. is_running t.state) e
          ∙ h.runs;
    }

-- The kernel of a result, or `k` where there is none.
abbrev kernel_or : Kernel → Option Kernel → Kernel
kernel_or k none = k
kernel_or k (some k') = k'

end_task-none : (k : Kernel) (status : ℤ) → IsKernel k → k.current ≡ 0 → end_task k status ≡ none
unfolding end_task
end_task-none k status h e =
    let kernel : is_task_0 (current_task k) ≡ true =
      ap (λ p. elim p as (λ q. Bool) [ none ↦ false | some n ↦ n == 0 ]) h.table.present
      ∙ ground (arith, e) in
    rw kernel refl

sys_exit_halts : (k : Kernel) (status : ℤ) → IsKernel k → k.current ≡ 0 → sys_exit k status ≡ none
unfolding sys_exit
sys_exit_halts k status h e =
    ap (λ o. elim o as (λ q. Option Kernel) [ none ↦ none | some k' ↦ some (switch_task k') ])
      (end_task-none k status h e)

pub sys_exit-IsKernel :
    (k k' : Kernel) (status : ℤ) → IsKernel k → sys_exit k status ≡ some k' → IsKernel k'
sys_exit-IsKernel k k' status h e = elim (eq_or_ne k.current 0) [
  | inl z ↦
      subst IsKernel (sym (ap (kernel_or k) (sys_exit_halts k status h z)) ∙ ap (kernel_or k) e) h
  | inr ne ↦
      let (k1, e1, ends) = sys_exit-Ends k status h ne in
      subst IsKernel (ap (kernel_or k) (sym e1 ∙ e)) ends.valid
]
