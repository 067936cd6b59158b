-- ===== src/Process/Kill.antt =====
-- `sys_kill` of src/kernel/exit.c: what a call should do, by one description of the tasks that a pid means.
pub mod Sweep
pub mod One
pub mod Pid
pub mod All
use Prim.Native.Nat.{bit_or}
use nupkux.Base.{
  ℕ, zero, suc, ◌+◌, ◌-◌, ◌^◌, ◌≡◌, refl, sym, ◌∙◌, ap, subst, ◌⊎◌, inl, inr, ◌≢◌, ◌≤◌, ◌<◌, ◌==◌,
  ltb, List, [], ◌∷◌, length, get_or, each, length-each, get_or-each, modify, length-modify,
  get_or-modify_self, get_or-modify_ne, any, any_index, any_none, Bool, true, false, not, ◌&&◌,
  ◌||◌, Bool-cases, eq_or_ne, lt_or_ge, lt→ltb, fun_ext, Option, none, some, ℤ, pos, negsuc, neg,
  arith, if◌then◌else◌,
}
use nupkux.Process.Table.{Task, Kernel, nr_tasks, no_task, task_at, in_use}
use nupkux.Process.Calls.{
  Reply, eperm, esrch, current_task, may_signal, send_signal, signal_where, signal_group,
  signal_one, kill_pid, kill_by, sys_kill,
}
use nupkux.Process.Schedule.Invariant.{IsTable}

-- The tasks that a pid means: those of the caller's group for 0, all for -1, the task itself for a
-- positive pid, and the group `-pid` for the others.
abbrev pub is_target : Kernel → ℤ → Task → Bool
is_target k (pos zero) t = in_use t && t.pgrp == (current_task k).pgrp
is_target k (pos (suc p)) t = elim t.pid [ none ↦ false | some q ↦ q == suc p ]
is_target k (negsuc zero) t = in_use t
is_target k (negsuc (suc p)) t = in_use t && t.pgrp == suc (suc p)

-- The task behind the delivery: it gets the signal if it is meant and the sender may send it.
abbrev pub deliver : Task → ℕ → (Task → Bool) → Task → Task
deliver sender sign meant t =
    if meant t && may_signal sender t sign
    then record t { signals = bit_or t.signals (2 ^ (sign - 1)) }
    else t

-- The result, by the tasks of the table.
pub data Delivery (k : Kernel) (sign : ℕ) (meant : Task → Bool) : ℤ → Type 0 where
  delivered :
      (i : ℕ)
      → i < nr_tasks
      → (meant (task_at k.tasks i) && may_signal (current_task k) (task_at k.tasks i) sign) ≡ true
      → Delivery k sign meant (pos 0)
  refused :
      (i : ℕ)
      → i < nr_tasks
      → meant (task_at k.tasks i) ≡ true
      → ((n : ℕ)
          → n < nr_tasks
          → (meant (task_at k.tasks n) && may_signal (current_task k) (task_at k.tasks n) sign)
            ≡ false)
      → Delivery k sign meant (neg eperm)
  nobody :
      ((n : ℕ) → n < nr_tasks → meant (task_at k.tasks n) ≡ false)
      → Delivery k sign meant (neg esrch)

-- What the call does: the result, and every task of the table.
pub record Kills (k : Kernel) (sign : ℕ) (meant : Task → Bool) (r : Reply) : Type 0 where
  pub outcome : Delivery k sign meant r.result
  pub size : length r.kernel.tasks ≡ nr_tasks
  pub tasks :
      (i : ℕ)
      → i < nr_tasks
      → task_at r.kernel.tasks i ≡ deliver (current_task k) sign meant (task_at k.tasks i)
  pub current : r.kernel.current ≡ k.current

-- `any` decides the outcome.
Delivery-any :
    (k : Kernel) (sign : ℕ) (meant : Task → Bool)
    → length k.tasks ≡ nr_tasks
    → Delivery k sign meant (
        if not (any meant k.tasks)
        then neg esrch
        else if not (any (λ t. meant t && may_signal (current_task k) t sign) k.tasks)
        then neg eperm
        else pos 0)
Delivery-any k sign meant len = elim (Bool-cases (any meant k.tasks)) [
  | inr h ↦ rw h (nobody (λ n l. any_none meant k.tasks no_task n h (omega (arith, len, l))))
  | inl h ↦ elim (Bool-cases (any (λ t. meant t && may_signal (current_task k) t sign) k.tasks)) [
    | inr h' ↦
        let (i, l, e) = any_index meant k.tasks no_task h in
        rw (h, h')
          (refused i (omega (arith, len, l)) e (λ n l'.
            any_none (λ t. meant t && may_signal (current_task k) t sign) k.tasks no_task n h'
              (omega (arith, len, l'))))
    | inl h' ↦
        let (i, l, e) =
          any_index (λ t. meant t && may_signal (current_task k) t sign) k.tasks no_task h' in
        rw (h, h') (delivered i (omega (arith, len, l)) e)
  ]
]
