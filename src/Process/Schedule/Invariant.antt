-- ===== src/Process/Schedule/Invariant.antt =====
-- The invariant of the table of tasks, and that `switch_task` of src/kernel/task.c establishes it.
use nupkux.Base.{
  eq_or_ne, subst, ℕ, suc, ◌≡◌, refl, sym, ◌∙◌, ap, ◌⊎◌, inl, inr, ◌≢◌, ◌<◌, List, length, modify,
  each, length-each, length-modify, get_or-each, get_or-modify_self, get_or-modify_ne, true, false,
  none, some, arith,
}
use nupkux.Process.Table.{Task, Kernel, nr_tasks, no_task, task_at, in_use, is_active, is_running}
use nupkux.Process.Schedule.{
  wake, wake_task, preempt, set_running, is_ready, next_pid, schedule, switch_task,
}
use nupkux.Process.Schedule.Choice.{Chosen, found, idle, schedule-wake}

-- Every task has its index as its pid or none at all, task 0 and task `c` are in use, and no task but
-- `c` is running.
pub record IsTable (c : ℕ) (ts : List Task) : Type 0 where
  pub size : length ts ≡ nr_tasks
  pub number : (i : ℕ) → i < nr_tasks → ((task_at ts i).pid ≡ none) ⊎ ((task_at ts i).pid ≡ some i)
  pub first : (task_at ts 0).pid ≡ some 0
  pub inside : c < nr_tasks
  pub present : (task_at ts c).pid ≡ some c
  pub alone : (i : ℕ) → i < nr_tasks → i ≢ c → is_active (task_at ts i) ≡ false

-- … and task `c`, the current one, is running.
pub record IsKernel (k : Kernel) : Type 0 where
  pub table : IsTable k.current k.tasks
  pub runs : is_running (task_at k.tasks k.current).state ≡ true

-- A table with the same pids where no more tasks run is a table again.
pub IsTable-keep :
    (c : ℕ) (ts ts' : List Task)
    → IsTable c ts
    → length ts' ≡ nr_tasks
    → ((i : ℕ) → i < nr_tasks → (task_at ts' i).pid ≡ (task_at ts i).pid)
    → ((i : ℕ)
        → i < nr_tasks
        → i ≢ c
        → is_active (task_at ts i) ≡ false
        → is_active (task_at ts' i) ≡ false)
    → IsTable c ts'
IsTable-keep c ts ts' h len pids states = record {
  size = len;
  number = λ i l. elim (h.number i l) [ inl e ↦ inl (pids i l ∙ e) | inr e ↦ inr (pids i l ∙ e) ];
  first = pids 0 (omega arith) ∙ h.first;
  inside = h.inside;
  present = pids c h.inside ∙ h.present;
  alone = λ i l ne. states i l ne (h.alone i l ne);
}

wake_task_pid : (t : Task) → (wake_task t).pid ≡ t.pid
unfolding wake_task
wake_task_pid t = ground arith

wake_task_running : (t : Task) → is_active t ≡ false → is_active (wake_task t) ≡ false
unfolding wake_task
wake_task_running t h = ground arith

preempt_pid : (t : Task) → (preempt t).pid ≡ t.pid
unfolding preempt
preempt_pid t = ground arith

preempt_running : (t : Task) → is_active (preempt t) ≡ false
unfolding preempt
preempt_running t = ground arith

-- The table that `schedule` searches when `switch_task` calls it.
abbrev pub queue : Kernel → List Task
queue k = each wake_task (modify preempt k.tasks k.current)

module _ (k : Kernel) (h : IsTable k.current k.tasks) where
  pub length-queue : length (queue k) ≡ nr_tasks
  length-queue =
      length-each wake_task (modify preempt k.tasks k.current)
      ∙ length-modify preempt k.tasks k.current
      ∙ h.size

  queue_at :
      (i : ℕ)
      → i < nr_tasks
      → task_at (queue k) i ≡ wake_task (task_at (modify preempt k.tasks k.current) i)
  queue_at i l =
      get_or-each wake_task (modify preempt k.tasks k.current) i no_task
        (omega (arith, h.size, length-modify preempt k.tasks k.current))

  pub queue_self : task_at (queue k) k.current ≡ wake_task (preempt (task_at k.tasks k.current))
  queue_self =
      queue_at k.current h.inside
      ∙ ap wake_task
          (get_or-modify_self preempt k.tasks k.current no_task (omega (arith, h.size, h.inside)))

  pub queue_other :
      (i : ℕ) → i < nr_tasks → i ≢ k.current → task_at (queue k) i ≡ wake_task (task_at k.tasks i)
  queue_other i l ne =
      queue_at i l
      ∙ ap wake_task (get_or-modify_ne preempt k.tasks k.current i no_task (λ e. ne (sym e)))

  queue_pid : (i : ℕ) → i < nr_tasks → (task_at (queue k) i).pid ≡ (task_at k.tasks i).pid
  queue_pid i l = elim (eq_or_ne i k.current) [
    | inl e ↦
        subst (λ j. (task_at (queue k) j).pid ≡ (task_at k.tasks j).pid) (sym e)
          (ap (λ t. t.pid) queue_self ∙ wake_task_pid _ ∙ preempt_pid _)
    | inr ne ↦ ap (λ t. t.pid) (queue_other i l ne) ∙ wake_task_pid _
  ]

  queue_rests : (i : ℕ) → i < nr_tasks → is_active (task_at (queue k) i) ≡ false
  queue_rests i l = elim (eq_or_ne i k.current) [
    | inl e ↦
        subst (λ j. is_active (task_at (queue k) j) ≡ false) (sym e)
          (ap is_active queue_self ∙ wake_task_running _ (preempt_running _))
    | inr ne ↦ ap is_active (queue_other i l ne) ∙ wake_task_running _ (h.alone i l ne)
  ]

  queue-IsTable : IsTable k.current (queue k)
  queue-IsTable =
      IsTable-keep k.current k.tasks (queue k) h length-queue queue_pid
        (λ i l ne r. queue_rests i l)

  queue_next : next_pid (task_at (queue k) k.current) ≡ suc k.current
  queue_next =
      ap (λ p. elim p as (λ q. ℕ) [ none ↦ 0 | some n ↦ suc n ])
        (queue_pid k.current h.inside ∙ h.present)

-- The task that `switch_task` chooses.
abbrev pub chosen : Kernel → ℕ
chosen k = (schedule (record k { tasks = modify preempt k.tasks k.current })).1

-- `switch_task` makes the chosen task of the queue the current one and lets it run.
pub switch_task_lem :
    (k : Kernel)
    → ((switch_task k).tasks ≡ modify set_running (queue k) (chosen k))
      × ((switch_task k).current ≡ chosen k)
unfolding switch_task schedule wake
switch_task_lem k = (refl, refl)

-- The first index that `schedule` looks at is the one behind the current task.
pub queue-chosen :
    (k : Kernel) → IsTable k.current k.tasks → Chosen (queue k) (suc k.current) (chosen k)
unfolding wake
queue-chosen k h =
    (schedule-wake (record k { tasks = modify preempt k.tasks k.current }) (suc k.current)
      (length-modify preempt k.tasks k.current ∙ h.size) (queue_next k h)
      (omega (arith, h.inside))).1

-- A task that is in use has its index as its pid.
in_use_pid :
    (c i : ℕ) (ts : List Task)
    → IsTable c ts
    → i < nr_tasks
    → in_use (task_at ts i) ≡ true
    → (task_at ts i).pid ≡ some i
in_use_pid c i ts h l used = elim (h.number i l) [ inl e ↦ absurd (ground arith) | inr e ↦ e ]

ready_in_use : (t : Task) → is_ready t ≡ true → in_use t ≡ true
ready_in_use t h = ground arith

pub Chosen-inside : (ts : List Task) (from c : ℕ) → Chosen ts from c → c < nr_tasks
Chosen-inside ts from c (found le l ready before) = l
Chosen-inside ts from c (idle e none_ready) = omega (arith, e)

Chosen-pid :
    (ts : List Task) (cur from c : ℕ)
    → IsTable cur ts
    → Chosen ts from c
    → (task_at ts c).pid ≡ some c
Chosen-pid ts cur from c h (found le l ready before) =
    in_use_pid cur c ts h l (ready_in_use (task_at ts c) ready)
Chosen-pid ts cur from c h (idle e none_ready) =
    subst (λ j. (task_at ts j).pid ≡ some j) (sym e) h.first

-- A table where no task runs, and then task `c` is set running.
set_running-IsTable :
    (cur c : ℕ) (ts : List Task)
    → IsTable cur ts
    → ((i : ℕ) → i < nr_tasks → is_active (task_at ts i) ≡ false)
    → c < nr_tasks
    → (task_at ts c).pid ≡ some c
    → IsTable c (modify set_running ts c)
      × (is_running (task_at (modify set_running ts c) c).state ≡ true)
set_running-IsTable cur c ts h rests l pid =
    let inside : c < length ts = omega (arith, h.size) in
    let self = get_or-modify_self set_running ts c no_task inside in
    (
      IsTable-keep c ts (modify set_running ts c)
          (record {
            size = h.size;
            number = h.number;
            first = h.first;
            inside = l;
            present = pid;
            alone = λ i l' ne. rests i l';
          })
          (length-modify set_running ts c ∙ h.size)
          (λ i l'. elim (eq_or_ne i c) [
            | inl e ↦
                subst (λ j. (task_at (modify set_running ts c) j).pid ≡ (task_at ts j).pid) (sym e)
                  (ap (λ t. t.pid) self)
            | inr ne ↦
                ap (λ t. t.pid) (get_or-modify_ne set_running ts c i no_task (λ e. ne (sym e)))
          ])
          (λ i l' ne r.
            ap is_active (get_or-modify_ne set_running ts c i no_task (λ e. ne (sym e))) ∙ r),
      ap (λ t. is_running t.state) self,
    )

-- From a table where no task but the current one may be running, `switch_task` gives one where the
-- current task is running and no other is.
pub switch_task-IsKernel : (k : Kernel) → IsTable k.current k.tasks → IsKernel (switch_task k)
unfolding switch_task schedule wake
switch_task-IsKernel k h =
    let (table, runs) =
      set_running-IsTable k.current (chosen k) (queue k) (queue-IsTable k h) (queue_rests k h)
        (Chosen-inside (queue k) (suc k.current) (chosen k) (queue-chosen k h))
        (Chosen-pid (queue k) k.current (suc k.current) (chosen k) (queue-IsTable k h)
          (queue-chosen k h)) in
    record { table = table; runs = runs }
