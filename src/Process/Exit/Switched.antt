-- ===== src/Process/Exit/Switched.antt =====
-- What `switch_task` of src/kernel/task.c keeps of a task, and that it leaves a zombie.
use nupkux.Base.{
  ℕ, suc, ◌≡◌, refl, sym, ◌∙◌, ap, subst, inl, inr, ◌≢◌, ◌<◌, ◌==◌, List, modify,
  get_or-modify_self, get_or-modify_ne, false, not, ◌&&◌, Bool-cases, eq_or_ne, arith,
}
use nupkux.Process.Table.{
  Task, State, Kernel, zombie, waiting, is_running, is_blocked, nr_tasks, no_task, task_at, in_use,
}
use nupkux.Process.Calls.{current_task}
use nupkux.Process.Schedule.{wake_task, preempt, set_running, switch_task}
use nupkux.Process.Schedule.Choice.{Chosen, found, idle}
use nupkux.Process.Schedule.Invariant.{
  IsTable, queue, length-queue, Chosen-inside, queue_self, queue_other, chosen, queue-chosen,
  switch_task_lem,
}

-- A zombie is neither preempted nor woken.
preempt_zombie : (t : Task) → t.state ≡ zombie → preempt t ≡ t
unfolding preempt
preempt_zombie t h = let r : is_running t.state ≡ false = ap is_running h in rw r refl

wake_zombie : (t : Task) → t.state ≡ zombie → wake_task t ≡ t
unfolding wake_task
wake_zombie t h =
    let b : is_blocked t.state ≡ false = ap is_blocked h in
    let c : (in_use t && (not (t.signals == 0) && is_blocked t.state)) ≡ false =
      ground (arith, b) in
    rw c refl

-- `switch_task` changes nothing of a task but its state.
wake_state : (t : Task) → (s : State) × (wake_task t ≡ record t { state = s })
unfolding wake_task
wake_state t = elim (Bool-cases (in_use t && (not (t.signals == 0) && is_blocked t.state))) [
  | inl h ↦ (waiting, rw h refl)
  | inr h ↦ (t.state, rw h refl)
]

preempt_state : (t : Task) → (s : State) × (preempt t ≡ record t { state = s })
unfolding preempt
preempt_state t = elim (Bool-cases (is_running t.state)) [
  | inl h ↦ (waiting, rw h refl)
  | inr h ↦ (t.state, rw h refl)
]

-- The same for the whole step, for a field that is not the state.
module _ {A : Type 0} (f : Task → A)
    (same : (t : Task) (s : State) → f (record t { state = s }) ≡ f t) where
  wake_field : (t : Task) → f (wake_task t) ≡ f t
  wake_field t = let (s, e) = wake_state t in ap f e ∙ same t s

  preempt_field : (t : Task) → f (preempt t) ≡ f t
  preempt_field t = let (s, e) = preempt_state t in ap f e ∙ same t s

  queue_field :
      (k : Kernel) (i : ℕ)
      → IsTable k.current k.tasks
      → i < nr_tasks
      → f (task_at (queue k) i) ≡ f (task_at k.tasks i)
  queue_field k i h l = elim (eq_or_ne i k.current) [
    | inl e ↦
        subst (λ j. f (task_at (queue k) j) ≡ f (task_at k.tasks j)) (sym e)
          (ap f (queue_self k h)
            ∙ wake_field (preempt (current_task k))
            ∙ preempt_field (current_task k))
    | inr ne ↦ ap f (queue_other k h i l ne) ∙ wake_field (task_at k.tasks i)
  ]

  pub switch_field :
      (k : Kernel) (i : ℕ)
      → IsTable k.current k.tasks
      → i < nr_tasks
      → f (task_at (switch_task k).tasks i) ≡ f (task_at k.tasks i)
  switch_field k i h l =
      ap (λ ts. f (task_at ts i)) (switch_task_lem k).0
      ∙ elim (eq_or_ne i (chosen k)) [
        | inl e ↦
            subst
              (λ j.
                f (task_at (modify set_running (queue k) (chosen k)) j) ≡ f (task_at (queue k) j))
              (sym e)
              (ap f (
                  get_or-modify_self set_running (queue k) (chosen k) no_task (
                    omega (
                      arith,
                      length-queue k h,
                      Chosen-inside (queue k) (suc k.current) (chosen k) (queue-chosen k h),
                    )))
                ∙ same (task_at (queue k) (chosen k)) _)
        | inr ne ↦
            ap f (get_or-modify_ne set_running (queue k) (chosen k) i no_task (λ e. ne (sym e)))
      ]
      ∙ queue_field k i h l

search_leaves : (ts : List Task) (cur c : ℕ) → Chosen ts (suc cur) c → cur ≢ 0 → c ≢ cur
search_leaves ts cur c (found le l ready before) ne e = omega (arith, le, e)
search_leaves ts cur c (idle e' none_ready) ne e = ne (sym e ∙ e')

-- The current task as a zombie stays one, and another task runs.
pub switch_zombie :
    (k : Kernel)
    → IsTable k.current k.tasks
    → k.current ≢ 0
    → (current_task k).state ≡ zombie
    → ((task_at (switch_task k).tasks k.current).state ≡ zombie)
      × ((switch_task k).current ≢ k.current)
switch_zombie k h ne z =
    let other : chosen k ≢ k.current =
      search_leaves (queue k) k.current (chosen k) (queue-chosen k h) ne in
    (
      ap (λ ts. (task_at ts k.current).state) (switch_task_lem k).0
          ∙ ap (λ t. t.state)
              (get_or-modify_ne set_running (queue k) (chosen k) k.current no_task other)
          ∙ ap (λ t. t.state) (queue_self k h)
          ∙ ap (λ t. (wake_task t).state) (preempt_zombie (current_task k) z)
          ∙ ap (λ t. t.state) (wake_zombie (current_task k) z)
          ∙ z,
      λ e. other (sym (switch_task_lem k).1 ∙ e),
    )
