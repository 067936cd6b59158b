-- ===== src/Process/Steps/Reap.antt =====
-- `sys_waitpid` of src/kernel/exit.c keeps the table of tasks valid.
use nupkux.Base.{
  ℕ, ◌≡◌, sym, ◌∙◌, ap, subst, inl, inr, ◌≢◌, ◌<◌, ◌==◌, leb, modify, length-modify,
  get_or-modify_self, get_or-modify_ne, true, false, ◌||◌, Bool-cases, eq_or_ne, none, ℤ, pos,
  negsuc, arith,
}
use nupkux.Process.Table.{
  Task, Kernel, is_zombie, nr_tasks, no_task, task_at, is_active, is_running,
}
use nupkux.Process.Calls.{Wait, spins, returns, current_task, sys_waitpid}
use nupkux.Process.Schedule.Invariant.{IsKernel}

abbrev pub kernel_behind : Kernel → Wait → Kernel
kernel_behind k spins = k
kernel_behind k (returns r v) = r.kernel

running_unzombie : (t : Task) → is_running t.state ≡ true → is_zombie t.state ≢ true
running_unzombie t h h' = ground arith

reap-IsKernel :
    (k : Kernel) (p : ℕ)
    → IsKernel k
    → p < nr_tasks
    → p ≢ 0
    → is_zombie (task_at k.tasks p).state ≡ true
    → IsKernel (record k { tasks = modify (λ t. record t { pid = none }) k.tasks p })
reap-IsKernel k p h l nz z =
    let ne : k.current ≢ p = λ e.
      running_unzombie (current_task k) h.runs
        (subst (λ j. is_zombie (task_at k.tasks j).state ≡ true) (sym e) z) in
    let other : (n : ℕ)
        → n ≢ p
        → task_at (modify (λ t. record t { pid = none }) k.tasks p) n ≡ task_at k.tasks n =
      λ n ne'. get_or-modify_ne _ k.tasks p n no_task (λ e. ne' (sym e)) in
    let self : task_at (modify (λ t. record t { pid = none }) k.tasks p) p
        ≡ record (task_at k.tasks p) { pid = none } =
      get_or-modify_self _ k.tasks p no_task (omega (arith, h.table.size, l)) in
    record {
      table = record {
        size = length-modify _ k.tasks p ∙ h.table.size;
        number = λ n l'. elim (eq_or_ne n p) [
          | inl e ↦ inl (
              subst (λ j. (task_at (modify (λ t. record t { pid = none }) k.tasks p) j).pid ≡ none)
                (sym e) (ap (λ t. t.pid) self))
          | inr ne' ↦ elim (h.table.number n l') [
            | inl e ↦ inl (ap (λ t. t.pid) (other n ne') ∙ e)
            | inr e ↦ inr (ap (λ t. t.pid) (other n ne') ∙ e)
          ]
        ];
        first = ap (λ t. t.pid) (other 0 (λ e. nz (sym e))) ∙ h.table.first;
        inside = h.table.inside;
        present = ap (λ t. t.pid) (other k.current ne) ∙ h.table.present;
        alone = λ n l' ne'. elim (eq_or_ne n p) [
          | inl e ↦
              subst
                (λ j.
                  is_active (task_at (modify (λ t. record t { pid = none }) k.tasks p) j) ≡ false)
                (sym e) (ap is_active self)
          | inr ne'' ↦ ap is_active (other n ne'') ∙ h.table.alone n l' ne'
        ];
      };
      runs = ap (λ t. is_running t.state) (other k.current ne) ∙ h.runs;
    }

pub waited-IsKernel :
    (k : Kernel) (pid : ℤ) → IsKernel k → IsKernel (kernel_behind k (sys_waitpid k pid))
unfolding sys_waitpid
waited-IsKernel k (negsuc p) h = h
waited-IsKernel k (pos p) h = elim (Bool-cases (p == 0 || leb nr_tasks p)) [
  | inl e ↦ rw e h
  | inr e ↦ elim (Bool-cases (is_zombie (task_at k.tasks p).state)) [
    | inl z ↦ rw (e, z) (reap-IsKernel k p h (ground (arith, e)) (λ e'. ground (arith, e, e')) z)
    | inr z ↦ rw (e, z) h
  ]
]
