-- ===== src/Drivers/Lock.antt =====
-- The tasks that use a device, as steps: one at a time, in the order of their requests.
use nupkux.Base.{
  ℕ, ◌==◌, ◌≡◌, ◌≢◌, ◌⊎◌, refl, sym, ◌∙◌, ap, inl, inr, List, [], ◌∷◌, ◌++◌, length, Bool, true,
  Option, none, some, All, not_some, drop, subst, arith,
}
use nupkux.Drivers.{add_request, may_pass, device_unlock}

-- The requests, and the tasks that are behind `device_lock` and not yet in `device_unlock`.
pub record Device : Type 0 where
  pub queue : List ℕ
  pub users : List ℕ

-- A task asks for the device, finds that it may pass, or gives the device back.
pub data Step (d : Device) : Device → Type 0 where
  asks : (pid : ℕ) → Step d (record d { queue = add_request pid d.queue })
  passes :
      (pid : ℕ)
      → All (λ u. u ≢ pid) d.users
      → may_pass pid d.queue ≡ some true
      → Step d (record d { users = pid ∷ d.users })
  leaves :
      (pid : ℕ) (us queue' : List ℕ) (woken : Option ℕ)
      → d.users ≡ pid ∷ us
      → device_unlock pid d.queue ≡ some (queue', woken)
      → Step d (record { queue = queue'; users = us })

pub data Reachable (d : Device) : Device → Type 0 where
  start : Reachable d d
  next : {d' d'' : Device} → Reachable d d' → Step d' d'' → Reachable d d''

-- Nobody uses the device, or the task with the oldest request does, alone.
abbrev pub Exclusive : Device → Type 0
Exclusive d =
    (d.users ≡ []) ⊎ ((pid : ℕ) × (q : List ℕ) × (d.queue ≡ pid ∷ q) × (d.users ≡ pid ∷ []))

not_cons : {x : ℕ} {xs : List ℕ} → [] ≢ (x ∷ xs)
not_cons h = let no = ap length h in omega (arith, no)

passes-Exclusive :
    (pid : ℕ) (queue users : List ℕ)
    → may_pass pid queue ≡ some true
    → users ≡ []
    → Exclusive (record { queue = queue; users = pid ∷ users })
unfolding may_pass
passes-Exclusive pid [] users h e = absurd (not_some h)
passes-Exclusive pid (p ∷ queue) users h e =
    let test : (p == pid) ≡ true = ap (λ o. elim o as (λ q. Bool) [ none ↦ true | some b ↦ b ]) h in
    let same : p ≡ pid = ground (arith, test) in
    inr (pid, queue, ap (λ x. x ∷ queue) same, ap (λ us. pid ∷ us) e)

pass_alone : (pid p : ℕ) (q : List ℕ) → may_pass pid (p ∷ q) ≡ some true → p ≡ pid
unfolding may_pass
pass_alone pid p q h =
    let test : (p == pid) ≡ true = ap (λ o. elim o as (λ q. Bool) [ none ↦ true | some b ↦ b ]) h in
    ground (arith, test)

Step-Exclusive : (d d' : Device) → Step d d' → Exclusive d → Exclusive d'
unfolding add_request
Step-Exclusive d d' (asks pid) (inl e) = inl e
Step-Exclusive d d' (asks pid) (inr (p, q, e, u)) =
    inr (p, q ++ (pid ∷ []), ap (λ l. l ++ (pid ∷ [])) e, u)
Step-Exclusive d d' (passes pid new h) (inl e) = passes-Exclusive pid d.queue d.users h e
Step-Exclusive d d' (passes pid new h) (inr (p, q, e, u)) =
    let here = pass_alone pid p q (ap (λ l. may_pass pid l) (sym e) ∙ h) in
    let others = subst (λ us. All (λ x. x ≢ pid) us) u new in absurd (others.0 here)
Step-Exclusive d d' (leaves pid us queue' woken e h) (inl e') = absurd (not_cons (sym e' ∙ e))
Step-Exclusive d d' (leaves pid us queue' woken e h) (inr (p, q, eq, u)) =
    inl (ap (drop 1) (sym e ∙ u))

-- From a device without requests, every sequence of steps of tasks leads to a state in which at most
-- one task uses the device, and it is the one with the oldest request.
pub Reachable-Exclusive :
    (d : Device) → Reachable (record { queue = []; users = [] }) d → Exclusive d
Reachable-Exclusive d start = inl refl
Reachable-Exclusive d (next {d' = d'} r s) = Step-Exclusive d' d s (Reachable-Exclusive d' r)
