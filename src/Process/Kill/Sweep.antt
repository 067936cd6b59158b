-- ===== src/Process/Kill/Sweep.antt =====
-- The loops of `sys_kill` of src/kernel/exit.c.
use Prim.Native.Nat.{bit_or}
use nupkux.Base.{
  ℕ, ◌-◌, ◌^◌, ◌≡◌, refl, ◌∙◌, ap, inl, inr, List, [], ◌∷◌, length, each, length-each, get_or-each,
  any, Bool, ◌&&◌, Bool-cases, arith,
}
use nupkux.Process.Table.{Task, Kernel, nr_tasks, no_task, task_at, in_use}
use nupkux.Process.Calls.{current_task, may_signal, send_signal, signal_where, signal_group}
use nupkux.Process.Kill.{deliver, Kills, Delivery-any}

-- A sweep over the table is the delivery to each of its tasks.
module _ (p : Task → Bool) (sender : Task) (sign : ℕ) where
  sweep_tasks :
      (ts : List Task)
      → (signal_where p sender sign ts).tasks ≡ each (deliver sender sign (λ t. in_use t && p t)) ts
  unfolding signal_where send_signal
  sweep_tasks [] = refl
  sweep_tasks (t ∷ ts) = elim (Bool-cases (in_use t && p t)) [
    | inr h ↦ rw h (ap (λ us. t ∷ us) (sweep_tasks ts))
    | inl h ↦ elim (Bool-cases (may_signal sender t sign)) [
      | inl h' ↦
          rw (h, h')
            (ap (λ us. record t { signals = bit_or t.signals (2 ^ (sign - 1)) } ∷ us)
              (sweep_tasks ts))
      | inr h' ↦ rw (h, h') (ap (λ us. t ∷ us) (sweep_tasks ts))
    ]
  ]

  sweep_found :
      (ts : List Task) → (signal_where p sender sign ts).found ≡ any (λ t. in_use t && p t) ts
  unfolding signal_where
  sweep_found [] = refl
  sweep_found (t ∷ ts) = elim (Bool-cases (in_use t && p t)) [
    | inl h ↦ rw h refl
    | inr h ↦ rw h (sweep_found ts)
  ]

  sweep_perm :
      (ts : List Task)
      → (signal_where p sender sign ts).perm
        ≡ any (λ t. (in_use t && p t) && may_signal sender t sign) ts
  unfolding signal_where send_signal
  sweep_perm [] = refl
  sweep_perm (t ∷ ts) = elim (Bool-cases (in_use t && p t)) [
    | inr h ↦ rw h (sweep_perm ts)
    | inl h ↦ elim (Bool-cases (may_signal sender t sign)) [
      | inl h' ↦ rw (h, h') refl
      | inr h' ↦ rw (h, h') (sweep_perm ts)
    ]
  ]

pub signal_group-Kills :
    (k : Kernel) (p : Task → Bool) (sign : ℕ)
    → length k.tasks ≡ nr_tasks
    → Kills k sign (λ t. in_use t && p t) (signal_group k p sign)
unfolding signal_group
signal_group-Kills k p sign len =
    let swept = sweep_tasks p (current_task k) sign k.tasks in
    record {
      outcome =
          rw
            (
              sweep_found p (current_task k) sign k.tasks,
              sweep_perm p (current_task k) sign k.tasks,
            )
            (Delivery-any k sign (λ t. in_use t && p t) len);
      size = ap length swept ∙ length-each _ k.tasks ∙ len;
      tasks = λ i l.
          ap (λ ts. task_at ts i) swept ∙ get_or-each _ k.tasks i no_task (omega (arith, len, l));
      current = refl;
    }
