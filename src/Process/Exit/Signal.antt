-- ===== src/Process/Exit/Signal.antt =====
-- Every call of `sys_kill` of src/kernel/exit.c changes nothing but pending signals.
use Prim.Native.Nat.{bit_or}
use nupkux.Base.{
  ◌^◌, ℕ, ◌-◌, ◌≡◌, refl, sym, ◌∙◌, ap, subst, ◌⊎◌, inl, inr, ◌≢◌, ◌<◌, ltb, length, Bool, ◌&&◌,
  ◌||◌, Bool-cases, eq_or_ne, ℤ, pos, negsuc, arith,
}
use nupkux.Process.Table.{Task, Kernel, nr_tasks, task_at, in_use, is_active}
use nupkux.Process.Calls.{Reply, current_task, may_signal, signal_one, kill_pid, kill_by, sys_kill}
use nupkux.Process.Kill.{is_target, deliver, Kills}
use nupkux.Process.Kill.All.{sys_kill-Kills}
use nupkux.Process.Schedule.Invariant.{IsTable, IsTable-keep}

-- The tasks behind are those before, but for their signals.
pub record SameButSignals (k k' : Kernel) : Type 0 where
  pub size : length k'.tasks ≡ nr_tasks
  pub current : k'.current ≡ k.current
  pub tasks :
      (i : ℕ)
      → i < nr_tasks
      → (s : ℕ) × (task_at k'.tasks i ≡ record (task_at k.tasks i) { signals = s })

SameButSignals-refl : (k : Kernel) → length k.tasks ≡ nr_tasks → SameButSignals k k
SameButSignals-refl k len = record {
  size = len;
  current = refl;
  tasks = λ i l. ((task_at k.tasks i).signals, refl);
}

deliver_signals :
    (sender t : Task) (sign : ℕ) (meant : Task → Bool)
    → (s : ℕ) × (deliver sender sign meant t ≡ record t { signals = s })
deliver_signals sender t sign meant = elim (Bool-cases (meant t && may_signal sender t sign)) [
  | inl h ↦ (bit_or t.signals (2 ^ (sign - 1)), rw h refl)
  | inr h ↦ (t.signals, rw h refl)
]

Kills-SameButSignals :
    (k : Kernel) (sign : ℕ) (meant : Task → Bool) (r : Reply)
    → Kills k sign meant r
    → SameButSignals k r.kernel
Kills-SameButSignals k sign meant r h = record {
  size = h.size;
  current = h.current;
  tasks = λ i l.
      let (s, e) = deliver_signals (current_task k) (task_at k.tasks i) sign meant in
      (s, h.tasks i l ∙ e);
}

-- The pid 64 reaches the memory behind the table, and the table stays.
kill_behind :
    (k : Kernel) (sign : ℕ)
    → length k.tasks ≡ nr_tasks
    → SameButSignals k (kill_pid k 64 sign).kernel
unfolding kill_pid signal_one
kill_behind k sign len = elim (Bool-cases (in_use k.beyond)) [
  | inl h ↦
      rw h
        (record { size = len; current = refl; tasks = λ i l. ((task_at k.tasks i).signals, refl) })
  | inr h ↦ rw h (SameButSignals-refl k len)
]

is_behind : (pid : ℤ) → (pid ≡ pos nr_tasks) ⊎ (pid ≢ pos nr_tasks)
is_behind (pos n) = elim (eq_or_ne n nr_tasks) [
  | inl e ↦ inl (ap pos e)
  | inr ne ↦ inr (λ e. ne (ap (λ z. elim z as (λ q. ℕ) [ pos m ↦ m | negsuc m ↦ m ]) e))
]
is_behind (negsuc n) = inr (λ e.
    let no : 1 ≡ 0 = ap (λ z. elim z as (λ q. ℕ) [ pos m ↦ 0 | negsuc m ↦ 1 ]) e in
    omega (arith, no))

-- `sys_kill` on a valid table changes nothing but signals, whatever its arguments.
pub sys_kill-SameButSignals :
    (k : Kernel) (pid sign : ℤ)
    → IsTable k.current k.tasks
    → SameButSignals k (sys_kill k pid sign).kernel
unfolding sys_kill kill_by
sys_kill-SameButSignals k pid (negsuc s) h = SameButSignals-refl k h.size
sys_kill-SameButSignals k pid (pos sign) h = elim (Bool-cases (ltb sign 1 || ltb 32 sign)) [
  | inl e ↦ rw e (SameButSignals-refl k h.size)
  | inr e ↦ elim (is_behind pid) [
    | inl e' ↦ rw e (
        subst (λ z. SameButSignals k (kill_by k z sign).kernel) (sym e')
          (kill_behind k sign h.size))
    | inr ne ↦
        Kills-SameButSignals k sign (is_target k pid) (sys_kill k pid (pos sign))
          (sys_kill-Kills k pid sign h ne (ground (arith, e)) (ground (arith, e)))
  ]
]

pub SameButSignals-IsTable :
    (k k' : Kernel) → IsTable k.current k.tasks → SameButSignals k k' → IsTable k'.current k'.tasks
SameButSignals-IsTable k k' h s =
    subst (λ c. IsTable c k'.tasks) (sym s.current)
      (IsTable-keep k.current k.tasks k'.tasks h s.size (λ i l. ap (λ t. t.pid) (s.tasks i l).1)
        (λ i l ne r. ap is_active (s.tasks i l).1 ∙ r))
