-- ===== src/Process/Steps/Setup.antt =====
-- `setup_tasking` of src/kernel/task.c makes a valid table.
use nupkux.Base.{
  ℕ, ◌≡◌, sym, ◌∙◌, ap, subst, inl, inr, ◌≢◌, ◌<◌, length, each, length-each, length-modify,
  get_or-each, get_or-modify_self, get_or-modify_ne, false, eq_or_ne, none, some, arith,
}
use nupkux.Process.Table.{Task, Kernel, running, nr_tasks, no_task, task_at, is_active, is_running}
use nupkux.Process.Calls.{setup_tasking}
use nupkux.Process.Schedule.Invariant.{IsKernel}

free_inactive : (t : Task) → t.pid ≡ none → is_active t ≡ false
free_inactive t h = ground (arith, h)

pub setup_tasking-IsKernel :
    (k : Kernel) (stack : ℕ) → length k.tasks ≡ nr_tasks → IsKernel (setup_tasking k stack)
unfolding setup_tasking
setup_tasking-IsKernel k stack len =
    let cleared = each (λ t. record t { pid = none }) k.tasks in
    let size : length cleared ≡ nr_tasks = length-each _ k.tasks ∙ len in
    let free : (n : ℕ)
        → n < nr_tasks
        → n ≢ 0
        → (task_at (setup_tasking k stack).tasks n).pid ≡ none =
      λ n l ne.
        ap (λ t. t.pid) (get_or-modify_ne _ cleared 0 n no_task (λ e. ne (sym e)))
        ∙ ap (λ t. t.pid)
            (get_or-each (λ t. record t { pid = none }) k.tasks n no_task
              (omega (arith, len, l))) in
    let zeroth =
      get_or-modify_self
        (λ t. record t {
          pid = some 0;
          pgrp = 0;
          parent = 0;
          state = running;
          uid = 0;
          euid = 0;
          signals = 0;
          kernel_stack = stack;
        })
        cleared 0 no_task (omega (arith, size)) in
    record {
      table = record {
        size = length-modify _ cleared 0 ∙ size;
        number = λ n l. elim (eq_or_ne n 0) [
          | inl e ↦ inr (
              subst (λ j. (task_at (setup_tasking k stack).tasks j).pid ≡ some j) (sym e)
                (ap (λ t. t.pid) zeroth))
          | inr ne ↦ inl (free n l ne)
        ];
        first = ap (λ t. t.pid) zeroth;
        inside = omega arith;
        present = ap (λ t. t.pid) zeroth;
        alone = λ n l ne. free_inactive (task_at (setup_tasking k stack).tasks n) (free n l ne);
      };
      runs = ap (λ t. is_running t.state) zeroth;
    }
