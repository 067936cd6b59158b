-- ===== src/Process/Exit/Wait.antt =====
-- `sys_exit` and `sys_waitpid` of src/kernel/exit.c, from the call to the reaped task.
use nupkux.Base.{
  ℕ, ◌≡◌, refl, sym, ◌∙◌, ap, ◌≢◌, ◌<◌, ◌==◌, leb, modify, get_or-modify_self, Bool, true, false,
  ◌||◌, Option, none, some, ℤ, pos, arith,
}
use nupkux.Process.Table.{Task, Kernel, zombie, is_zombie, nr_tasks, no_task, task_at, in_use}
use nupkux.Process.Calls.{
  returns, current_task, sigchld, ended, is_task_0, end_task, sys_kill, sys_exit, sys_waitpid,
}
use nupkux.Process.Schedule.{switch_task}
use nupkux.Process.Schedule.Invariant.{IsTable, IsKernel, switch_task-IsKernel}
use nupkux.Process.Exit.Signal.{SameButSignals, sys_kill-SameButSignals, SameButSignals-IsTable}
use nupkux.Process.Exit.Ended.{orphan_parent, ended_self, ended_field, handed_over, ended-IsTable}
use nupkux.Process.Exit.Switched.{switch_field, switch_zombie}

-- The kernel behind the signal to the parent.
abbrev signalled : Kernel → ℤ → Kernel
signalled k status =
    (sys_kill (ended k status) (pos (current_task (ended k status)).parent) (pos sigchld)).kernel

-- What `sys_exit` of a task other than 0 leads to.
pub record Ends (k : Kernel) (status : ℤ) (k' : Kernel) : Type 0 where
  pub valid : IsKernel k'
  pub left : k'.current ≢ k.current
  pub zombie_state : (task_at k'.tasks k.current).state ≡ zombie
  pub code : (task_at k'.tasks k.current).exit_code ≡ status
  pub parents :
      (i : ℕ)
      → i < nr_tasks
      → (task_at k'.tasks i).parent ≡ handed_over k.current (task_at k.tasks i)

module _ (k : Kernel) (status : ℤ) (h : IsKernel k) where
  sent : SameButSignals (ended k status) (signalled k status)
  sent = sys_kill-SameButSignals (ended k status) _ _ (ended-IsTable k status h.table)

  signalled-IsTable : IsTable (signalled k status).current (signalled k status).tasks
  signalled-IsTable =
      SameButSignals-IsTable (ended k status) (signalled k status) (ended-IsTable k status h.table)
        sent

  -- A field that is not the signals.
  signalled_field :
      {A : Type 0} (f : Task → A)
      → ((t : Task) (s : ℕ) → f (record t { signals = s }) ≡ f t)
      → (i : ℕ) → i < nr_tasks
      → f (task_at (signalled k status).tasks i) ≡ f (task_at (ended k status).tasks i)
  signalled_field f same i l = let (s, e) = sent.tasks i l in ap f e ∙ same _ s

  signalled_zombie : (current_task (signalled k status)).state ≡ zombie
  signalled_zombie =
      ap (λ c. (task_at (signalled k status).tasks c).state) sent.current
      ∙ signalled_field (λ t. t.state) (λ t s. refl) k.current h.table.inside
      ∙ ap (λ t. t.state) (ended_self k status h.table)

  signalled_code : (task_at (signalled k status).tasks k.current).exit_code ≡ status
  signalled_code =
      signalled_field (λ t. t.exit_code) (λ t s. refl) k.current h.table.inside
      ∙ ap (λ t. t.exit_code) (ended_self k status h.table)

  signalled_parent :
      (i : ℕ)
      → i < nr_tasks
      → (task_at (signalled k status).tasks i).parent ≡ handed_over k.current (task_at k.tasks i)
  signalled_parent i l =
      signalled_field (λ t. t.parent) (λ t s. refl) i l
      ∙ ended_field k status h.table (λ t. t.parent) (λ t. refl) i l
      ∙ orphan_parent (current_task k) (task_at k.tasks i) k.current h.table.present

  switched-Ends : k.current ≢ 0 → Ends k status (switch_task (signalled k status))
  switched-Ends ne =
      let (z, other) =
        switch_zombie (signalled k status) signalled-IsTable (λ e. ne (sym sent.current ∙ e))
          signalled_zombie in
      record {
        valid = switch_task-IsKernel (signalled k status) signalled-IsTable;
        left = λ e. other (e ∙ sym sent.current);
        zombie_state =
            ap (λ c. (task_at (switch_task (signalled k status)).tasks c).state) (sym sent.current)
            ∙ z;
        code =
            switch_field (λ t. t.exit_code) (λ t s. refl) (signalled k status) k.current
              signalled-IsTable h.table.inside
            ∙ signalled_code;
        parents = λ i l.
            switch_field (λ t. t.parent) (λ t s. refl) (signalled k status) i signalled-IsTable l
            ∙ signalled_parent i l;
      }

end_task-some :
    (k : Kernel) (status : ℤ)
    → IsKernel k
    → k.current ≢ 0
    → end_task k status ≡ some (signalled k status)
unfolding end_task
end_task-some k status h ne =
    let user : is_task_0 (current_task k) ≡ false =
      ap (λ p. elim p as (λ q. Bool) [ none ↦ false | some n ↦ n == 0 ]) h.table.present
      ∙ ground (arith, ne) in
    rw user refl

-- `sys_exit` of a task other than 0, on a valid table, always comes to the switch to another task, which
-- runs in a valid table. The task that ends is a zombie then with the status as its exit code, its
-- children have the parent 1, and every other task keeps its parent.
pub sys_exit-Ends :
    (k : Kernel) (status : ℤ)
    → IsKernel k
    → k.current ≢ 0
    → (k' : Kernel) × (sys_exit k status ≡ some k') × Ends k status k'
unfolding sys_exit
sys_exit-Ends k status h ne = (
  switch_task (signalled k status),
  ap (λ o. elim o as (λ q. Option Kernel) [ none ↦ none | some k' ↦ some (switch_task k') ])
      (end_task-some k status h ne),
  switched-Ends k status h ne,
)

abbrev reap : Kernel → ℕ → Kernel
reap k pid = record k { tasks = modify (λ t. record t { pid = none }) k.tasks pid }

sys_waitpid_zombie :
    (k : Kernel) (pid : ℕ)
    → 0 < pid
    → pid < nr_tasks
    → (task_at k.tasks pid).state ≡ zombie
    → sys_waitpid k (pos pid)
      ≡ returns
          (record { result = pos pid; kernel = reap k pid })
          (some (task_at k.tasks pid).exit_code)
unfolding sys_waitpid
sys_waitpid_zombie k pid l l' z =
    let inside : (pid == 0 || leb nr_tasks pid) ≡ false = ground arith in
    let dead : is_zombie (task_at k.tasks pid).state ≡ true = ap is_zombie z in
    rw (inside, dead) refl

-- `sys_waitpid` for a task that has ended and was not reaped returns its pid and its status, and its
-- entry is free then.
pub sys_exit-sys_waitpid :
    (k : Kernel) (status : ℤ)
    → IsKernel k
    → k.current ≢ 0
    → (k' k'' : Kernel) × (sys_exit k status ≡ some k')
      × (sys_waitpid k' (pos k.current)
          ≡ returns (record { result = pos k.current; kernel = k'' }) (some status))
      × (in_use (task_at k''.tasks k.current) ≡ false)
sys_exit-sys_waitpid k status h ne =
    let (k', e, ends) = sys_exit-Ends k status h ne in
    (
      k',
      reap k' k.current,
      e,
      sys_waitpid_zombie k' k.current (ground (arith, ne)) h.table.inside ends.zombie_state
          ∙ ap
              (λ v.
                returns (record { result = pos k.current; kernel = reap k' k.current }) (some v))
              ends.code,
      ap in_use (
          get_or-modify_self (λ t. record t { pid = none }) k'.tasks k.current no_task
            (omega (arith, ends.valid.table.size, h.table.inside))),
    )
