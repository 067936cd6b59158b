-- ===== src/Process/Schedule/Choice.antt =====
-- Which task `schedule` of src/kernel/sched.c returns.
use nupkux.Base.{
  ℕ, zero, suc, ◌+◌, ◌-◌, ◌≡◌, Option, none, some, refl, sym, ◌∙◌, ap, inl, inr, ◌≤◌, ◌<◌, List, [],
  ◌∷◌, length, get_or, drop, length-each, Bool, true, false, Bool-cases, ◌==◌, if◌then◌else◌, arith,
}
use nupkux.Process.Table.{Task, Kernel, nr_tasks, no_task, task_at}
use nupkux.Process.Schedule.Woken.{
  Woken, Ready, is_ready-Ready, not-Ready, wake_task-Woken, task_at-Woken, Woken-pid,
}
use nupkux.Process.Schedule.{wake, wake_task, is_ready, first_ready, next_pid, schedule}

-- The search stops at `i + m`: none of the `m` tasks in front is ready, and the task there is ready
-- where the list has one.
data Stops (i : ℕ) (ts : List Task) (r : ℕ) : Type 0 where
  stops :
      (m : ℕ)
      → r ≡ i + m
      → m ≤ length ts
      → ((n : ℕ) → n < m → is_ready (get_or ts n no_task) ≡ false)
      → (m < length ts → is_ready (get_or ts m no_task) ≡ true)
      → Stops i ts r

-- One more task in front that is not ready.
Stops-skip :
    (i : ℕ) (t : Task) (ts : List Task) (r : ℕ)
    → is_ready t ≡ false
    → Stops (suc i) ts r
    → Stops i (t ∷ ts) r
Stops-skip i t ts r h (stops m e le before at) =
    stops (suc m) (omega (arith, e)) (omega (arith, le))
      (λ n. elim n as (λ j. j < suc m → is_ready (get_or (t ∷ ts) j no_task) ≡ false) [
        | zero ↦ λ l. h
        | suc n' ↦ λ l. before n' (omega arith)
      ])
      (λ l. at (omega arith))

first_ready-Stops : (i : ℕ) (ts : List Task) → Stops i ts (first_ready i ts)
unfolding first_ready
first_ready-Stops i [] =
    stops 0 (omega arith) (omega arith) (λ n h. absurd (omega arith)) (λ h. absurd (omega arith))
first_ready-Stops i (t ∷ ts) = elim (Bool-cases (is_ready t)) [
  | inl h ↦ rw h (stops 0 (omega arith) (omega arith) (λ n h'. absurd (omega arith)) (λ h'. h))
  | inr h ↦ rw h (Stops-skip i t ts (first_ready (suc i) ts) h (first_ready-Stops (suc i) ts))
]

length-drop : (n : ℕ) (ts : List Task) → length (drop n ts) ≡ length ts - n
length-drop zero ts = omega arith
length-drop (suc n) [] = omega arith
length-drop (suc n) (t ∷ ts) = omega (arith, length-drop n ts)

get_or-drop : (n m : ℕ) (ts : List Task) → get_or (drop n ts) m no_task ≡ get_or ts (n + m) no_task
get_or-drop zero m ts = ground arith
get_or-drop (suc n) m [] = ground arith
get_or-drop (suc n) m (t ∷ ts) = ground (arith, get_or-drop n m ts)

-- What `schedule` chooses from a table where `from` is the first index it looks at: the first ready
-- task from there on, or task 0 where none is ready.
pub data Chosen (ts : List Task) (from c : ℕ) : Type 0 where
  found :
      from ≤ c
      → c < nr_tasks
      → is_ready (task_at ts c) ≡ true
      → ((n : ℕ) → from ≤ n → n < c → is_ready (task_at ts n) ≡ false)
      → Chosen ts from c
  idle :
      c ≡ 0
      → ((n : ℕ) → from ≤ n → n < nr_tasks → is_ready (task_at ts n) ≡ false)
      → Chosen ts from c

-- A fact about a place of the tail, read in the table.
at_index :
    (from n : ℕ) (ts : List Task) (b : Bool)
    → from ≤ n
    → is_ready (get_or (drop from ts) (n - from) no_task) ≡ b
    → is_ready (task_at ts n) ≡ b
at_index from n ts b le h =
    ap (λ i. is_ready (get_or ts i no_task)) (omega arith)
    ∙ sym (ap is_ready (get_or-drop from (n - from) ts))
    ∙ h

Stops-Chosen :
    (ts : List Task) (from r : ℕ)
    → length ts ≡ nr_tasks
    → from ≤ nr_tasks
    → Stops from (drop from ts) r
    → Chosen ts from (if r == nr_tasks then 0 else r)
Stops-Chosen ts from r len le (stops m e le' before at) =
    let short : length (drop from ts) ≡ nr_tasks - from =
      length-drop from ts ∙ ap (λ l. l - from) len in
    let none_before : (n : ℕ) → from ≤ n → n < r → is_ready (task_at ts n) ≡ false =
      λ n h h'. at_index from n ts false h (before (n - from) (omega (arith, e))) in
    elim (Bool-cases (r == nr_tasks)) [
      | inl h ↦ rw h (idle refl (λ n l l'. none_before n l (ground arith)))
      | inr h ↦ rw h (
          found (omega (arith, e)) (ground (arith, e, short))
            (at_index from r ts true (omega (arith, e)) (
              ap (λ i. is_ready (get_or (drop from ts) i no_task)) (omega (arith, e))
              ∙ at (ground (arith, e, short))))
            none_before)
    ]

-- What `schedule` chooses, in the table that `wake` leaves.
pub schedule-wake :
    (k : Kernel) (from : ℕ)
    → length k.tasks ≡ nr_tasks
    → next_pid (task_at (wake k).tasks k.current) ≡ from
    → from ≤ nr_tasks
    → ((schedule k).0 ≡ wake k) × Chosen (wake k).tasks from (schedule k).1
unfolding schedule wake
schedule-wake k from len e le = (
  refl,
  rw e (
      Stops-Chosen (wake k).tasks from _ (length-each wake_task k.tasks ∙ len) le
        (first_ready-Stops from (drop from (wake k).tasks))),
)

-- The first ready task from the index `from` on, or task 0 where none is ready.
pub data Next (ts : List Task) (from c : ℕ) : Type 0 where
  next :
      from ≤ c
      → c < nr_tasks
      → Ready (task_at ts c)
      → ((n : ℕ) → from ≤ n → n < c → ¬ Ready (task_at ts n))
      → Next ts from c
  kernel_task :
      c ≡ 0 → ((n : ℕ) → from ≤ n → n < nr_tasks → ¬ Ready (task_at ts n)) → Next ts from c

-- The index behind a pid; without one it is 0.
abbrev pub behind_pid : Option ℕ → ℕ
behind_pid none = 0
behind_pid (some p) = p + 1

Chosen-Next : (ts : List Task) (from c : ℕ) → Chosen ts from c → Next ts from c
Chosen-Next ts from c (found l l' here before) =
    next l l' (is_ready-Ready (task_at ts c) here)
      (λ n h h'. not-Ready (task_at ts n) (before n h h'))
Chosen-Next ts from c (idle e none_ready) =
    kernel_task e (λ n h h'. not-Ready (task_at ts n) (none_ready n h h'))

next_pid-behind_pid : (t : Task) (o : Option ℕ) → t.pid ≡ o → next_pid t ≡ behind_pid o
next_pid-behind_pid t none e = rw e refl
next_pid-behind_pid t (some p) e = rw e (omega arith)

-- In a table of 64 tasks, `schedule` lets exactly the tasks with a pid that are blocked and have a signal wait
-- to run, also what stands behind the table, and changes nothing else. It then returns the first task behind
-- the pid of the current one, which is below 64, that has a pid and waits to run, or task 0 where there is none.
pub schedule-Chosen :
    (k : Kernel) (from : ℕ)
    → length k.tasks ≡ nr_tasks
    → behind_pid (task_at k.tasks k.current).pid ≡ from
    → from ≤ nr_tasks
    → ((n : ℕ) → Woken (task_at k.tasks n) (task_at (schedule k).0.tasks n))
      × Woken k.beyond (schedule k).0.beyond
      × ((schedule k).0 ≡ record k { tasks = (schedule k).0.tasks; beyond = (schedule k).0.beyond })
      × Next (schedule k).0.tasks from (schedule k).1
unfolding schedule wake
schedule-Chosen k from len e le =
    let t : Task = task_at (wake k).tasks k.current in
    let same : t.pid ≡ (task_at k.tasks k.current).pid =
      Woken-pid (task_at k.tasks k.current) _ (task_at-Woken k.tasks k.current) in
    let from_here : next_pid t ≡ from = next_pid-behind_pid t _ same ∙ e in
    (
      λ n. task_at-Woken k.tasks n,
      wake_task-Woken k.beyond,
      refl,
      Chosen-Next (wake k).tasks from (schedule k).1 ((schedule-wake k from len from_here le).1),
    )
