-- ===== src/Process/Kill/One.antt =====
-- `send_signal` to one task of the table, as `sys_kill` of src/kernel/exit.c calls it.
use nupkux.Base.{
  ℕ, ◌≡◌, refl, sym, ◌∙◌, ap, subst, inl, inr, ◌≢◌, ◌<◌, ◌==◌, length, modify, length-modify,
  get_or-modify_self, get_or-modify_ne, Bool, true, false, ◌&&◌, Bool-cases, eq_or_ne, pos, neg,
  arith, if◌then◌else◌,
}
use nupkux.Process.Table.{Task, Kernel, nr_tasks, no_task, task_at}
use nupkux.Process.Calls.{eperm, esrch, current_task, may_signal, send_signal, signal_one}
use nupkux.Process.Kill.{deliver, Delivery, delivered, refused, nobody, Kills}

signal_one_result :
    (k : Kernel) (n sign : ℕ)
    → (n == nr_tasks) ≡ false
    → (signal_one k n sign).result
      ≡ (if may_signal (current_task k) (task_at k.tasks n) sign then pos 0 else neg eperm)
unfolding signal_one send_signal
signal_one_result k n sign ne =
    rw ne (elim (Bool-cases (may_signal (current_task k) (task_at k.tasks n) sign)) [
      | inl h ↦ rw h refl
      | inr h ↦ rw h refl
    ])

signal_one_tasks :
    (k : Kernel) (n sign : ℕ)
    → (n == nr_tasks) ≡ false
    → (signal_one k n sign).kernel ≡ record k {
      tasks = modify (λ t. (send_signal (current_task k) (task_at k.tasks n) sign).0) k.tasks n;
    }
unfolding signal_one
signal_one_tasks k n sign ne = rw ne refl

-- The only task that is meant.
Delivery-one :
    (k : Kernel) (sign n : ℕ) (meant : Task → Bool)
    → n < nr_tasks
    → meant (task_at k.tasks n) ≡ true
    → ((i : ℕ) → i < nr_tasks → i ≢ n → meant (task_at k.tasks i) ≡ false)
    → Delivery k sign meant
        (if may_signal (current_task k) (task_at k.tasks n) sign then pos 0 else neg eperm)
Delivery-one k sign n meant l h others =
    elim (Bool-cases (may_signal (current_task k) (task_at k.tasks n) sign)) [
      | inl e ↦ rw e (delivered n l (rw (h, e) refl))
      | inr e ↦ rw e (
          refused n l h (λ i l'. elim (eq_or_ne i n) [
            | inl e' ↦
                subst
                  (λ j.
                    (meant (task_at k.tasks j)
                      && may_signal (current_task k) (task_at k.tasks j) sign)
                    ≡ false)
                  (sym e') (rw (h, e) refl)
            | inr ne ↦ rw (others i l' ne) refl
          ]))
    ]

deliver_meant :
    (sender t : Task) (sign : ℕ) (meant : Task → Bool)
    → meant t ≡ true
    → (send_signal sender t sign).0 ≡ deliver sender sign meant t
unfolding send_signal
deliver_meant sender t sign meant h =
    rw h (elim (Bool-cases (may_signal sender t sign)) [ inl e ↦ rw e refl | inr e ↦ rw e refl ])

deliver_unmeant :
    (sender t : Task) (sign : ℕ) (meant : Task → Bool)
    → meant t ≡ false
    → t ≡ deliver sender sign meant t
deliver_unmeant sender t sign meant h = rw h refl

pub signal_one-Kills :
    (k : Kernel) (sign n : ℕ) (meant : Task → Bool)
    → length k.tasks ≡ nr_tasks
    → n < nr_tasks
    → meant (task_at k.tasks n) ≡ true
    → ((i : ℕ) → i < nr_tasks → i ≢ n → meant (task_at k.tasks i) ≡ false)
    → Kills k sign meant (signal_one k n sign)
signal_one-Kills k sign n meant len l h others =
    let ne : (n == nr_tasks) ≡ false = ground arith in
    let kept = signal_one_tasks k n sign ne in
    record {
      outcome =
          subst (Delivery k sign meant) (sym (signal_one_result k n sign ne))
            (Delivery-one k sign n meant l h others);
      size = ap (λ k'. length k'.tasks) kept ∙ length-modify _ k.tasks n ∙ len;
      tasks = λ i l'. ap (λ k'. task_at k'.tasks i) kept ∙ elim (eq_or_ne i n) [
        | inl e ↦
            subst
              (λ j.
                task_at
                  (modify (λ t. (send_signal (current_task k) (task_at k.tasks n) sign).0) k.tasks
                    n)
                  j
                ≡ deliver (current_task k) sign meant (task_at k.tasks j))
              (sym e)
              (get_or-modify_self _ k.tasks n no_task (omega (arith, len, l))
                ∙ deliver_meant (current_task k) (task_at k.tasks n) sign meant h)
        | inr ne' ↦
            get_or-modify_ne _ k.tasks n i no_task (λ e. ne' (sym e))
            ∙ deliver_unmeant (current_task k) (task_at k.tasks i) sign meant (others i l' ne')
      ];
      current = ap (λ k'. k'.current) kept;
    }

pub nobody-Kills :
    (k : Kernel) (sign : ℕ) (meant : Task → Bool)
    → length k.tasks ≡ nr_tasks
    → ((i : ℕ) → i < nr_tasks → meant (task_at k.tasks i) ≡ false)
    → Kills k sign meant (record { result = neg esrch; kernel = k })
nobody-Kills k sign meant len none_meant = record {
  outcome = nobody none_meant;
  size = len;
  tasks = λ i l. deliver_unmeant (current_task k) (task_at k.tasks i) sign meant (none_meant i l);
  current = refl;
}
