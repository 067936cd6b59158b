-- ===== src/Process/Steps/Fork.antt =====
-- `sys_fork` of src/kernel/task.c keeps the table of tasks valid.
use nupkux.Base.{
  not_both, ℕ, ◌≡◌, sym, ◌∙◌, ap, subst, inl, inr, ◌≢◌, length, Bool, true, false, eq_or_ne, none,
  some, pos,
}
use nupkux.Process.Table.{Kernel, waiting, nr_tasks, task_at, in_use, is_active, is_running}
use nupkux.Process.Calls.{Reply, current_task}
use nupkux.Process.Schedule.Invariant.{IsTable, IsKernel}
use nupkux.Process.Fork.{Forks, table_full, forked}

module _ (k k' : Kernel) (stack i : ℕ) (h : IsKernel k)
    (unused : in_use (task_at k.tasks i) ≡ false) (cur : k'.current ≡ k.current)
    (len : length k'.tasks ≡ nr_tasks)
    (child : task_at k'.tasks i ≡ record (current_task k) {
      pid = some i;
      exit_code = pos 0;
      state = waiting;
      parent = k.current;
      signals = 0;
    })
    (parent : current_task k' ≡ record (current_task k) { kernel_stack = stack })
    (others : (n : ℕ) → n ≢ i → n ≢ k.current → task_at k'.tasks n ≡ task_at k.tasks n) where
  -- The parent, found under the old index.
  same_parent : task_at k'.tasks k.current ≡ record (current_task k) { kernel_stack = stack }
  same_parent = ap (λ c. task_at k'.tasks c) (sym cur) ∙ parent

  fork_pid : (n : ℕ) → n ≢ i → (task_at k'.tasks n).pid ≡ (task_at k.tasks n).pid
  fork_pid n ne = elim (eq_or_ne n k.current) [
    | inl e ↦
        subst (λ j. (task_at k'.tasks j).pid ≡ (task_at k.tasks j).pid) (sym e)
          (ap (λ t. t.pid) same_parent)
    | inr ne' ↦ ap (λ t. t.pid) (others n ne ne')
  ]

  fork_first : (task_at k'.tasks 0).pid ≡ some 0
  fork_first =
      fork_pid 0 (λ e.
        not_both (in_use (task_at k.tasks 0))
          (ap (λ p. elim p as (λ q. Bool) [ none ↦ false | some n ↦ true ]) h.table.first)
          (subst (λ j. in_use (task_at k.tasks j) ≡ false) (sym e) unused))
      ∙ h.table.first

  fork-IsTable : IsTable k.current k'.tasks
  fork-IsTable = record {
    size = len;
    number = λ n l. elim (eq_or_ne n i) [
      | inl e ↦ inr (subst (λ j. (task_at k'.tasks j).pid ≡ some j) (sym e) (ap (λ t. t.pid) child))
      | inr ne ↦ elim (h.table.number n l) [
        | inl e ↦ inl (fork_pid n ne ∙ e)
        | inr e ↦ inr (fork_pid n ne ∙ e)
      ]
    ];
    first = fork_first;
    inside = h.table.inside;
    present = ap (λ t. t.pid) same_parent ∙ h.table.present;
    alone = λ n l ne. elim (eq_or_ne n i) [
      | inl e ↦ subst (λ j. is_active (task_at k'.tasks j) ≡ false) (sym e) (ap is_active child)
      | inr ne' ↦ ap is_active (others n ne' ne) ∙ h.table.alone n l ne
    ];
  }

  fork-IsKernel : IsKernel k'
  fork-IsKernel = record {
    table = subst (λ c. IsTable c k'.tasks) (sym cur) fork-IsTable;
    runs = ap (λ t. is_running t.state) parent ∙ h.runs;
  }

pub Forks-IsKernel :
    (k : Kernel) (stack : ℕ) (r : Reply) → IsKernel k → Forks k stack r → IsKernel r.kernel
Forks-IsKernel k stack _ h (table_full used) = h
Forks-IsKernel k stack _ h (forked i k' l unused used cur len child parent others) =
    fork-IsKernel k k' stack i h unused cur len child parent others
