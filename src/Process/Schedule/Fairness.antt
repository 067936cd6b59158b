-- ===== src/Process/Schedule/Fairness.antt =====
-- No ready task waits for ever: `switch_task` comes round to every one.
use nupkux.Base.{
  lt_or_ge, not_both, ℕ, zero, suc, ◌+◌, ◌-◌, ◌≡◌, sym, ◌∙◌, ap, subst, ◌⊎◌, inl, inr, ◌≢◌, ◌≤◌,
  ◌<◌, ltb, eq_or_ne, List, true, get_or-modify_ne, arith, if◌then◌else◌,
}
use nupkux.Process.Table.{Task, Kernel, nr_tasks, no_task, task_at, is_running}
use nupkux.Process.Schedule.{wake_task, set_running, is_ready, switch_task}
use nupkux.Process.Schedule.Choice.{Chosen, found, idle}
use nupkux.Process.Schedule.Invariant.{
  IsKernel, queue, queue_other, chosen, queue-chosen, switch_task_lem, switch_task-IsKernel,
}

-- `n` calls of `switch_task` one behind the other.
abbrev pub switches : ℕ → Kernel → Kernel
switches zero k = k
switches (suc n) k = switches n (switch_task k)

-- How many places the search can pass before it comes to `j`.
abbrev distance : ℕ → ℕ → ℕ
distance c j = if ltb c j then j - c else nr_tasks + j - c

wake_task_ready : (t : Task) → is_ready t ≡ true → is_ready (wake_task t) ≡ true
unfolding wake_task
wake_task_ready t h = ground arith

running_unready : (t : Task) → is_running t.state ≡ true → ¬ (is_ready t ≡ true)
running_unready t h h' = ground arith

-- A ready task is not the one that runs.
ready_other :
    (k : Kernel) (j : ℕ) → IsKernel k → is_ready (task_at k.tasks j) ≡ true → j ≢ k.current
ready_other k j h ready e =
    let r : is_ready (task_at k.tasks k.current) ≡ true =
      subst (λ i. is_ready (task_at k.tasks i) ≡ true) e ready in
    running_unready (task_at k.tasks k.current) h.runs r

-- A search from `from` does not pass a ready task that stands there or behind. Otherwise it starts
-- anew at 0, or goes on behind `from`.
Chosen-passes :
    (ts : List Task) (from c j : ℕ)
    → Chosen ts from c
    → j < nr_tasks
    → is_ready (task_at ts j) ≡ true
    → (from ≤ c × c ≤ j) ⊎ (j < from × ((c ≡ 0) ⊎ (from ≤ c × c < nr_tasks)))
Chosen-passes ts from c j (found le l ready before) lj r = elim (lt_or_ge j from) [
  | inl h ↦ inr (h, inr (le, l))
  | inr h ↦ elim (lt_or_ge j c) [
    | inl h' ↦ absurd (not_both _ r (before j h h'))
    | inr h' ↦ inl (le, h')
  ]
]
Chosen-passes ts from c j (idle e none_ready) lj r = elim (lt_or_ge j from) [
  | inl h ↦ inr (h, inl e)
  | inr h ↦ absurd (not_both _ r (none_ready j h lj))
]

-- The search comes nearer to a ready task.
nearer :
    (ts : List Task) (cur c j : ℕ)
    → Chosen ts (suc cur) c
    → cur < nr_tasks
    → j < nr_tasks
    → j ≢ cur
    → is_ready (task_at ts j) ≡ true
    → c ≢ j
    → distance c j < distance cur j
nearer ts cur c j h lc lj ne r ne' = elim (Chosen-passes ts (suc cur) c j h lj r) [
  | inl (l, l') ↦ ground (arith, l, l', ne, ne')
  | inr (l, inl e) ↦ ground (arith, l, e, ne, ne')
  | inr (l, inr (l', l'')) ↦ ground (arith, l, l', l'', ne, ne')
]

-- It is still ready when the search begins.
ready_in_queue :
    (k : Kernel) (j : ℕ)
    → IsKernel k
    → j < nr_tasks
    → is_ready (task_at k.tasks j) ≡ true
    → is_ready (task_at (queue k) j) ≡ true
ready_in_queue k j h lj r =
    ap is_ready (queue_other k h.table j lj (ready_other k j h r))
    ∙ wake_task_ready (task_at k.tasks j) r

-- A ready task that is not chosen stays ready.
stays_ready :
    (k : Kernel) (j : ℕ)
    → IsKernel k
    → j < nr_tasks
    → is_ready (task_at k.tasks j) ≡ true
    → chosen k ≢ j
    → is_ready (task_at (switch_task k).tasks j) ≡ true
stays_ready k j h lj r ne =
    ap (λ ts. is_ready (task_at ts j)) (switch_task_lem k).0
    ∙ ap is_ready (get_or-modify_ne set_running (queue k) (chosen k) j no_task ne)
    ∙ ready_in_queue k j h lj r

-- The search of a kernel comes round to `j` before the distance to it is used up.
comes_round :
    (d : ℕ) (k : Kernel) (j : ℕ)
    → IsKernel k
    → j < nr_tasks
    → is_ready (task_at k.tasks j) ≡ true
    → distance k.current j ≤ d
    → (n : ℕ) × n < d × ((switches (suc n) k).current ≡ j)
comes_round zero k j h lj r le =
    absurd (ground (arith, le, lj, h.table.inside, ready_other k j h r))
comes_round (suc d) k j h lj r le = elim (eq_or_ne (chosen k) j) [
  | inl e ↦ (0, omega arith, (switch_task_lem k).1 ∙ e)
  | inr ne ↦
      let near : distance (chosen k) j < distance k.current j =
        nearer (queue k) k.current (chosen k) j (queue-chosen k h.table) h.table.inside lj
          (ready_other k j h r) (ready_in_queue k j h lj r) ne in
      let le' : distance (switch_task k).current j ≤ d =
        subst (λ c. distance c j ≤ d) (sym (switch_task_lem k).1) (omega (arith, near, le)) in
      let (n, l, e) =
        comes_round d (switch_task k) j (switch_task-IsKernel k h.table) lj
          (stays_ready k j h lj r ne) le' in
      (suc n, omega (arith, l), e)
]

-- From a kernel whose table is valid, a task that is ready becomes the current one within 64 calls of
-- `switch_task`, whatever the other tasks are.
pub switch_task_reaches :
    (k : Kernel) (j : ℕ)
    → IsKernel k
    → j < nr_tasks
    → is_ready (task_at k.tasks j) ≡ true
    → (n : ℕ) × n < nr_tasks × ((switches (suc n) k).current ≡ j)
switch_task_reaches k j h lj r =
    comes_round nr_tasks k j h lj r (ground (arith, h.table.inside, ready_other k j h r))
