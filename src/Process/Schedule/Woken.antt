-- ===== src/Process/Schedule/Woken.antt =====
-- The tasks that `schedule` of src/kernel/sched.c wakes, and those that it may choose.
use nupkux.Base.{
  ℕ, zero, suc, ◌≡◌, ◌≢◌, ◌⊎◌, each, Option, none, some, not_both, refl, sym, ◌∙◌, ap, inl, inr,
  List, [], ◌∷◌, true, false, Bool-cases, ◌==◌, arith,
}
use nupkux.Process.Table.{
  Task, State, running, waiting, uninterruptible, blocked, zombie, is_blocked, is_waiting, in_use,
  task_at,
}
use nupkux.Process.Schedule.{wake_task, is_ready}

-- A task with a pid that is blocked and has a signal waits to run, and any other one is as it was.
pub data Woken (t t' : Task) : Type 0 where
  woken :
      (p : ℕ)
      → t.pid ≡ some p
      → t.signals ≢ 0
      → t.state ≡ blocked
      → t' ≡ record t { state = waiting }
      → Woken t t'
  as_before : (t.pid ≡ none) ⊎ ((t.signals ≡ 0) ⊎ (t.state ≢ blocked)) → t' ≡ t → Woken t t'

-- A task with a pid that waits to run.
abbrev pub Ready : Task → Type 0
Ready t = (p : ℕ) × (t.pid ≡ some p) × (t.state ≡ waiting)

used_pid : (t : Task) (o : Option ℕ) → t.pid ≡ o → in_use t ≡ true → (p : ℕ) × (t.pid ≡ some p)
used_pid t none e h = absurd (not_both true refl (sym h ∙ rw e refl))
used_pid t (some p) e h = (p, e)

free_pid : (t : Task) (o : Option ℕ) → t.pid ≡ o → in_use t ≡ false → t.pid ≡ none
free_pid t none e h = e
free_pid t (some p) e h = absurd (not_both true refl (rw e at h))

is_blocked_lem : (s : State) → is_blocked s ≡ true → s ≡ blocked
is_blocked_lem blocked h = refl
is_blocked_lem running h = ground (arith, h)
is_blocked_lem waiting h = ground (arith, h)
is_blocked_lem uninterruptible h = ground (arith, h)
is_blocked_lem zombie h = ground (arith, h)

is_waiting_lem : (s : State) → is_waiting s ≡ true → s ≡ waiting
is_waiting_lem waiting h = refl
is_waiting_lem running h = ground (arith, h)
is_waiting_lem blocked h = ground (arith, h)
is_waiting_lem uninterruptible h = ground (arith, h)
is_waiting_lem zombie h = ground (arith, h)

pub is_ready-Ready : (t : Task) → is_ready t ≡ true → Ready t
is_ready-Ready t h =
    let used : in_use t ≡ true = ground (arith, h) in
    let waits : is_waiting t.state ≡ true = ground (arith, h) in
    let (p, e) = used_pid t t.pid refl used in (p, e, is_waiting_lem t.state waits)

pub not-Ready : (t : Task) → is_ready t ≡ false → ¬ Ready t
not-Ready t h (p, e, waits) = not_both true refl (rw (e, waits) at h)

pub wake_task-Woken : (t : Task) → Woken t (wake_task t)
unfolding wake_task
wake_task-Woken t = elim (Bool-cases (in_use t)) [
  | inr free ↦ as_before (inl (free_pid t t.pid refl free)) (rw free refl)
  | inl used ↦ elim (Bool-cases (t.signals == 0)) [
    | inl none_sent ↦ as_before (inr (inl (ground arith))) (rw (used, none_sent) refl)
    | inr sent ↦ elim (Bool-cases (is_blocked t.state)) [
      | inl h ↦
          let (p, e) = used_pid t t.pid refl used in
          woken p e (ground arith) (is_blocked_lem t.state h) (rw (used, sent, h) refl)
      | inr h ↦
          as_before (inr (inr (λ e. not_both true refl (sym (ap is_blocked e) ∙ h))))
            (rw (used, sent, h) refl)
    ]
  ]
]

pub task_at-Woken : (ts : List Task) (n : ℕ) → Woken (task_at ts n) (task_at (each wake_task ts) n)
unfolding wake_task
task_at-Woken [] n = as_before (inl refl) refl
task_at-Woken (t ∷ ts) zero = wake_task-Woken t
task_at-Woken (t ∷ ts) (suc n) = task_at-Woken ts n

pub Woken-pid : (t t' : Task) → Woken t t' → t'.pid ≡ t.pid
Woken-pid t t' (woken p used sent at e) = ap (λ u. u.pid) e
Woken-pid t t' (as_before h e) = ap (λ u. u.pid) e
