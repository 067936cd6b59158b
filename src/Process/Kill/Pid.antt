-- ===== src/Process/Kill/Pid.antt =====
-- `sys_kill` of src/kernel/exit.c with the pid of one task.
use nupkux.Base.{
  ℕ, zero, suc, ◌≡◌, refl, sym, ◌∙◌, subst, inl, inr, ◌≢◌, ◌<◌, ◌==◌, ltb, false, ◌&&◌, Bool-cases,
  eq_or_ne, lt_or_ge, lt→ltb, pos, neg, arith, if◌then◌else◌,
}
use nupkux.Process.Table.{Kernel, nr_tasks, task_at, in_use}
use nupkux.Process.Calls.{esrch, signal_one, kill_pid}
use nupkux.Process.Schedule.Invariant.{IsTable}
use nupkux.Process.Kill.{is_target, Kills}
use nupkux.Process.Kill.One.{signal_one-Kills, nobody-Kills}

-- In a valid table only the task with index `n` has the pid `n`.
pid_is :
    (k : Kernel) (n i : ℕ)
    → IsTable k.current k.tasks
    → i < nr_tasks
    → 0 < n
    → is_target k (pos n) (task_at k.tasks i) ≡ (in_use (task_at k.tasks i) && i == n)
pid_is k zero i h l l' = elim l' [ ]
pid_is k (suc p) i h l l' = elim (h.number i l) [
  | inl e ↦ rw (e, is_target, in_use) refl
  | inr e ↦ rw (e, is_target, in_use) refl
]

kill_pid_inside :
    (k : Kernel) (n sign : ℕ)
    → n < nr_tasks
    → kill_pid k n sign ≡ (
        if in_use (task_at k.tasks n)
        then signal_one k n sign
        else record { result = neg esrch; kernel = k })
unfolding kill_pid
kill_pid_inside k n sign l =
    let ne : (n == nr_tasks) ≡ false = ground arith in
    let le : ltb nr_tasks n ≡ false = ground arith in
    rw (ne, le)
      (elim (Bool-cases (in_use (task_at k.tasks n))) [ inl h ↦ rw h refl | inr h ↦ rw h refl ])

kill_pid_outside :
    (k : Kernel) (n sign : ℕ)
    → nr_tasks < n
    → kill_pid k n sign ≡ record { result = neg esrch; kernel = k }
unfolding kill_pid
kill_pid_outside k n sign l = rw (lt→ltb nr_tasks n l) refl

-- No other task than `n` has the pid `n`.
pid_other :
    (k : Kernel) (n i : ℕ)
    → IsTable k.current k.tasks
    → i < nr_tasks
    → 0 < n
    → i ≢ n
    → is_target k (pos n) (task_at k.tasks i) ≡ false
pid_other k n i h l l' ne = pid_is k n i h l l' ∙ ground (arith, ne)

pid_self :
    (k : Kernel) (n : ℕ)
    → IsTable k.current k.tasks
    → n < nr_tasks
    → 0 < n
    → is_target k (pos n) (task_at k.tasks n) ≡ in_use (task_at k.tasks n)
pid_self k n h l l' = pid_is k n n h l l' ∙ ground arith

pub kill_pid-Kills :
    (k : Kernel) (p sign : ℕ)
    → IsTable k.current k.tasks
    → suc p ≢ nr_tasks
    → Kills k sign (is_target k (pos (suc p))) (kill_pid k (suc p) sign)
kill_pid-Kills k p sign h ne = elim (lt_or_ge (suc p) nr_tasks) [
  | inl l ↦
      subst (Kills k sign (is_target k (pos (suc p)))) (sym (kill_pid_inside k (suc p) sign l))
        (elim (Bool-cases (in_use (task_at k.tasks (suc p)))) [
          | inl e ↦ rw e (
              signal_one-Kills k sign (suc p) (is_target k (pos (suc p))) h.size l
                (pid_self k (suc p) h l (omega arith) ∙ e)
                (λ i l' ne'. pid_other k (suc p) i h l' (omega arith) ne'))
          | inr e ↦ rw e (
              nobody-Kills k sign (is_target k (pos (suc p))) h.size (λ i l'.
                elim (eq_or_ne i (suc p)) [
                  | inl e' ↦
                      subst (λ j. is_target k (pos (suc p)) (task_at k.tasks j) ≡ false) (sym e')
                        (pid_self k (suc p) h l (omega arith) ∙ e)
                  | inr ne' ↦ pid_other k (suc p) i h l' (omega arith) ne'
                ]))
        ])
  | inr l ↦
      subst (Kills k sign (is_target k (pos (suc p))))
        (sym (kill_pid_outside k (suc p) sign (ground (arith, ne, l))))
        (nobody-Kills k sign (is_target k (pos (suc p))) h.size
          (λ i l'. pid_other k (suc p) i h l' (omega arith) (λ e. omega (arith, e, l, l'))))
]
