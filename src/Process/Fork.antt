-- ===== src/Process/Fork.antt =====
-- `sys_fork` of src/kernel/task.c.
use nupkux.Base.{
  not_both, ℕ, zero, suc, ◌+◌, ◌≡◌, refl, sym, ◌∙◌, ap, subst, inl, inr, ◌≢◌, ◌<◌, List, [], ◌∷◌,
  length, get_or, modify, length-modify, get_or-modify_self, get_or-modify_ne, Bool, true, false,
  Bool-cases, Option, none, some, pos, neg, arith,
}
use nupkux.Process.Table.{Task, Kernel, waiting, nr_tasks, no_task, task_at, in_use}
use nupkux.Process.Calls.{Reply, current_task, free_slot, child_of, fork_into, sys_fork}
use nupkux.Process.Schedule.Invariant.{IsTable}

-- What the search for a free slot from the list's start, index `i`, finds.
data Search (i : ℕ) (ts : List Task) : Option ℕ → Type 0 where
  full : ((n : ℕ) → n < length ts → in_use (get_or ts n no_task) ≡ true) → Search i ts none
  free :
      (r m : ℕ)
      → r ≡ i + m
      → m < length ts
      → in_use (get_or ts m no_task) ≡ false
      → ((n : ℕ) → n < m → in_use (get_or ts n no_task) ≡ true)
      → Search i ts (some r)

Search-skip :
    (i : ℕ) (t : Task) (ts : List Task) (o : Option ℕ)
    → in_use t ≡ true
    → Search (suc i) ts o
    → Search i (t ∷ ts) o
Search-skip i t ts o h (full used) = full (λ n.
    elim n as (λ j. j < suc (length ts) → in_use (get_or (t ∷ ts) j no_task) ≡ true) [
      | zero ↦ λ l. h
      | suc n' ↦ λ l. used n' (omega arith)
    ])
Search-skip i t ts o h (free r m e l unused used) =
    free r (suc m) (omega (arith, e)) (omega (arith, l)) unused (λ n.
      elim n as (λ j. j < suc m → in_use (get_or (t ∷ ts) j no_task) ≡ true) [
        | zero ↦ λ l'. h
        | suc n' ↦ λ l'. used n' (omega arith)
      ])

free_slot-Search : (i : ℕ) (ts : List Task) → Search i ts (free_slot i ts)
unfolding free_slot
free_slot-Search i [] = full (λ n h. absurd (omega arith))
free_slot-Search i (t ∷ ts) = elim (Bool-cases (in_use t)) [
  | inl h ↦ rw h (Search-skip i t ts (free_slot (suc i) ts) h (free_slot-Search (suc i) ts))
  | inr h ↦ rw h (free i 0 (omega arith) (omega arith) h (λ n l. absurd (omega arith)))
]

-- What `sys_fork` does to a table: nothing where it is full, or a new task in the first free slot `i`.
pub data Forks (k : Kernel) (stack : ℕ) : Reply → Type 0 where
  table_full :
      ((n : ℕ) → n < nr_tasks → in_use (task_at k.tasks n) ≡ true)
      → Forks k stack (record { result = neg 1; kernel = k })
  forked :
      (i : ℕ) (k' : Kernel)
      → i < nr_tasks
      → in_use (task_at k.tasks i) ≡ false
      → ((n : ℕ) → n < i → in_use (task_at k.tasks n) ≡ true)
      → k'.current ≡ k.current
      → length k'.tasks ≡ nr_tasks
      → task_at k'.tasks i ≡ record (current_task k) {
        pid = some i;
        exit_code = pos 0;
        state = waiting;
        parent = k.current;
        signals = 0;
      }
      → current_task k' ≡ record (current_task k) { kernel_stack = stack }
      → ((n : ℕ) → n ≢ i → n ≢ k.current → task_at k'.tasks n ≡ task_at k.tasks n)
      → Forks k stack (record { result = pos i; kernel = k' })

module _ (k : Kernel) (stack i : ℕ) (h : IsTable k.current k.tasks) where
  -- The table behind the copy of the parent.
  abbrev copied : List Task
  copied = modify (λ t. child_of (current_task k) i) k.tasks i

  abbrev restacked : List Task
  restacked = modify (λ t. record t { kernel_stack = stack }) copied k.current

  restacked_child : i < nr_tasks → i ≢ k.current → task_at restacked i ≡ child_of (current_task k) i
  restacked_child l ne =
      get_or-modify_ne (λ t. record t { kernel_stack = stack }) copied k.current i no_task
        (λ e. ne (sym e))
      ∙ get_or-modify_self (λ t. child_of (current_task k) i) k.tasks i no_task
          (omega (arith, h.size))

  restacked_parent :
      i ≢ k.current → task_at restacked k.current ≡ record (current_task k) { kernel_stack = stack }
  restacked_parent ne =
      get_or-modify_self (λ t. record t { kernel_stack = stack }) copied k.current no_task
        (omega
          (arith, h.size, h.inside, length-modify (λ t. child_of (current_task k) i) k.tasks i))
      ∙ ap {A = Task} (λ t. record t { kernel_stack = stack })
          (get_or-modify_ne (λ t. child_of (current_task k) i) k.tasks i k.current no_task ne)

  restacked_other : (n : ℕ) → n ≢ i → n ≢ k.current → task_at restacked n ≡ task_at k.tasks n
  restacked_other n ne ne' =
      get_or-modify_ne (λ t. record t { kernel_stack = stack }) copied k.current n no_task
        (λ e. ne' (sym e))
      ∙ get_or-modify_ne (λ t. child_of (current_task k) i) k.tasks i n no_task (λ e. ne (sym e))

  child_is : child_of (current_task k) i ≡ record (current_task k) {
    pid = some i;
    exit_code = pos 0;
    state = waiting;
    parent = k.current;
    signals = 0;
  }
  child_is =
      ap {B = Task}
        (λ p. record (current_task k) {
          pid = some i;
          exit_code = pos 0;
          state = waiting;
          parent = elim p as (λ q. ℕ) [ none ↦ 0 | some n ↦ n ];
          signals = 0;
        })
        h.present

pub free_not_current :
    (k : Kernel) (i : ℕ)
    → IsTable k.current k.tasks
    → in_use (task_at k.tasks i) ≡ false
    → i ≢ k.current
free_not_current k i h unused e =
    not_both (in_use (task_at k.tasks k.current))
      (ap (λ p. elim p as (λ q. Bool) [ none ↦ false | some n ↦ true ]) h.present)
      (subst (λ j. in_use (task_at k.tasks j) ≡ false) e unused)

fork_into-Forks :
    (k : Kernel) (stack : ℕ) (o : Option ℕ)
    → IsTable k.current k.tasks
    → Search 0 k.tasks o
    → Forks k stack (fork_into k stack o)
fork_into-Forks k stack none h (full used) = table_full (λ n l. used n (omega (arith, h.size)))
fork_into-Forks k stack (some i) h (free _ m e l unused used) =
    let l' : i < nr_tasks = omega (arith, h.size, e, l) in
    let unused' : in_use (task_at k.tasks i) ≡ false =
      subst (λ j. in_use (task_at k.tasks j) ≡ false) (omega (arith, e)) unused in
    let ne : i ≢ k.current = λ e'. free_not_current k i h unused' e' in
    forked i _ l' unused' (λ n l''. used n (omega (arith, e))) refl
      (length-modify _ (modify (λ t. child_of (current_task k) i) k.tasks i) k.current
        ∙ length-modify _ k.tasks i
        ∙ h.size)
      (restacked_child k stack i h l' ne ∙ child_is k stack i h) (restacked_parent k stack i h ne)
      (restacked_other k stack i h)

-- `sys_fork` on a valid table fails with -1 exactly where the table is full, and changes nothing then.
-- Otherwise the first free slot gets a copy of the current task that waits, with the current task as its
-- parent, no signal and the slot's index as its pid, which is the result. The current task gets a new
-- kernel stack, and every other task stays.
pub sys_fork-Forks :
    (k : Kernel) (stack : ℕ) → IsTable k.current k.tasks → Forks k stack (sys_fork k stack)
unfolding sys_fork
sys_fork-Forks k stack h =
    fork_into-Forks k stack (free_slot 0 k.tasks) h (free_slot-Search 0 k.tasks)
