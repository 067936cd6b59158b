-- ===== src/Process/Exit/Ended.antt =====
-- The table when `sys_exit` of src/kernel/exit.c has made the current task a zombie.
use nupkux.Base.{
  ℕ, ◌≡◌, refl, sym, ◌∙◌, ap, subst, inl, inr, ◌≢◌, ◌<◌, ◌==◌, length, each, length-each,
  length-modify, get_or-each, get_or-modify_self, get_or-modify_ne, ◌&&◌, Bool-cases, eq_or_ne,
  none, some, ℤ, arith, if◌then◌else◌,
}
use nupkux.Process.Table.{Task, Kernel, zombie, nr_tasks, no_task, task_at, in_use, is_active}
use nupkux.Process.Calls.{current_task, orphan, ended}
use nupkux.Process.Schedule.Invariant.{IsTable, IsTable-keep}

orphan_pid : (d t : Task) → (orphan d t).pid ≡ t.pid
unfolding orphan
orphan_pid d t = elim (Bool-cases (in_use t && t.parent == elim d.pid [ none ↦ 0 | some p ↦ p ])) [
  | inl h ↦ rw h refl
  | inr h ↦ rw h refl
]

orphan_active : (d t : Task) → is_active (orphan d t) ≡ is_active t
unfolding orphan
orphan_active d t =
    elim (Bool-cases (in_use t && t.parent == elim d.pid [ none ↦ 0 | some p ↦ p ])) [
      | inl h ↦ rw h refl
      | inr h ↦ rw h refl
    ]

-- What becomes of a parent.
abbrev pub handed_over : ℕ → Task → ℕ
handed_over dying t = if in_use t && t.parent == dying then 1 else t.parent

pub orphan_parent : (d t : Task) (c : ℕ) → d.pid ≡ some c → (orphan d t).parent ≡ handed_over c t
unfolding orphan
orphan_parent d t c h =
    rw h (elim (Bool-cases (in_use t && t.parent == c)) [ inl e ↦ rw e refl | inr e ↦ rw e refl ])

module _ (k : Kernel) (status : ℤ) (h : IsTable k.current k.tasks) where
  pub length-ended : length (ended k status).tasks ≡ nr_tasks
  length-ended =
      length-modify _ (each (orphan (current_task k)) k.tasks) k.current
      ∙ length-each (orphan (current_task k)) k.tasks
      ∙ h.size

  orphaned_at :
      (i : ℕ)
      → i < nr_tasks
      → task_at (each (orphan (current_task k)) k.tasks) i
        ≡ orphan (current_task k) (task_at k.tasks i)
  orphaned_at i l =
      get_or-each (orphan (current_task k)) k.tasks i no_task (omega (arith, h.size, l))

  pub ended_self :
      task_at (ended k status).tasks k.current
      ≡ record (orphan (current_task k) (current_task k)) { state = zombie; exit_code = status }
  ended_self =
      get_or-modify_self _ (each (orphan (current_task k)) k.tasks) k.current no_task
        (omega (arith, h.size, h.inside, length-each (orphan (current_task k)) k.tasks))
      ∙ ap {A = Task} (λ t. record t { state = zombie; exit_code = status })
          (orphaned_at k.current h.inside)

  ended_other :
      (i : ℕ)
      → i < nr_tasks
      → i ≢ k.current
      → task_at (ended k status).tasks i ≡ orphan (current_task k) (task_at k.tasks i)
  ended_other i l ne =
      get_or-modify_ne _ (each (orphan (current_task k)) k.tasks) k.current i no_task
        (λ e. ne (sym e))
      ∙ orphaned_at i l

  -- A field that the last step leaves alone.
  pub ended_field :
      {A : Type 0} (f : Task → A)
      → ((t : Task) → f (record t { state = zombie; exit_code = status }) ≡ f t)
      → (i : ℕ) → i < nr_tasks
      → f (task_at (ended k status).tasks i) ≡ f (orphan (current_task k) (task_at k.tasks i))
  ended_field f same i l = elim (eq_or_ne i k.current) [
    | inl e ↦
        subst
          (λ j.
            f (task_at (ended k status).tasks j) ≡ f (orphan (current_task k) (task_at k.tasks j)))
          (sym e) (ap f ended_self ∙ same (orphan (current_task k) (current_task k)))
    | inr ne ↦ ap f (ended_other i l ne)
  ]

  pub ended-IsTable : IsTable k.current (ended k status).tasks
  ended-IsTable =
      IsTable-keep k.current k.tasks (ended k status).tasks h length-ended
        (λ i l.
          ended_field (λ t. t.pid) (λ t. refl) i l
          ∙ orphan_pid (current_task k) (task_at k.tasks i))
        (λ i l ne r.
          ap is_active (ended_other i l ne)
          ∙ orphan_active (current_task k) (task_at k.tasks i)
          ∙ r)
