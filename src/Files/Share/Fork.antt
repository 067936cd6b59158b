-- ===== src/Files/Share/Fork.antt =====
-- `sys_fork` of src/kernel/task.c shares the open files with the child and keeps the counts.
use nupkux.Base.{
  ℕ, zero, suc, ◌+◌, ◌%◌, ◌^◌, ◌≡◌, refl, sym, ◌∙◌, ap, subst, inl, inr, ◌≤◌, ◌<◌, List, ◌∷◌,
  length, get_or, set, get_or-set_self, get_or-set_ne, Option-cases, eq_or_ne, Option, none, some,
  ◌>>=◌, arith,
}
use nupkux.Files.{File, Files, nr_open, file_at, retain_entry, retain_down, fork_files}
use nupkux.Files.Count.{one, one_self, one_le, refs, refs_pos, total, total_le, count_of, IsCounted}
use nupkux.Files.Close.{one_other, some_inside}

-- The counts of a heap are these numbers, and no FILE has the count 0.
record HasCounts (heap : List (Option File)) (c : ℕ → ℕ) : Type 0 where
  counts : (a : ℕ) → count_of (file_at heap a) ≡ c a
  alive : (a : ℕ) (f : File) → file_at heap a ≡ some f → 0 < f.count

small : (n m : ℕ) → n ≡ m → m ≤ 4000 → (n + 1) % 2 ^ 32 ≡ m + 1
small n m h l = ground (arith, h, l)

retain-HasCounts :
    (heap : List (Option File)) (c : ℕ → ℕ) (a : ℕ) (f : File)
    → HasCounts heap c
    → file_at heap a ≡ some f
    → c a ≤ 4000
    → HasCounts
        (set heap a (some (record f { count = (f.count + 1) % 2 ^ 32 })))
        (λ b. c b + one b (some a))
retain-HasCounts heap c a f h e l =
    let new : Option File = some (record f { count = (f.count + 1) % 2 ^ 32 }) in
    let inside = some_inside heap a f e in
    let count : (f.count + 1) % 2 ^ 32 ≡ c a + 1 =
      small f.count (c a) (sym (ap count_of e) ∙ h.counts a) l in
    record {
      counts = λ b. elim (eq_or_ne b a) [
        | inl e' ↦
            subst (λ d. count_of (file_at (set heap a new) d) ≡ c d + one d (some a)) (sym e')
              (ap count_of (get_or-set_self heap a new none inside)
                ∙ count
                ∙ ap (λ n. c a + n) (sym (one_self a)))
        | inr ne ↦
            ap count_of (get_or-set_ne heap a b new none (λ e'. ne (sym e')))
            ∙ h.counts b
            ∙ omega (arith, one_other a b ne)
      ];
      alive = λ b g e'. elim (eq_or_ne b a) [
        | inl e'' ↦
            let is_new : new ≡ some g =
              sym (get_or-set_self heap a new none inside)
              ∙ subst (λ d. file_at (set heap a new) d ≡ some g) e'' e' in
            subst (λ m. 0 < m) (sym count ∙ ap count_of is_new) (omega arith)
        | inr ne ↦ h.alive b g (sym (get_or-set_ne heap a b new none (λ e''. ne (sym e''))) ∙ e')
      ];
    }

retain_entry-Counts :
    (heap : List (Option File)) (c : ℕ → ℕ) (o : Option ℕ)
    → HasCounts heap c
    → ((a : ℕ) → o ≡ some a → 0 < c a)
    → ((a : ℕ) → c a ≤ 4000)
    → (heap' : List (Option File)) × (retain_entry heap o ≡ some heap')
      × HasCounts heap' (λ b. c b + one b o)
retain_entry-Counts heap c none h held l =
    (heap, refl, record { counts = λ b. h.counts b ∙ omega arith; alive = h.alive })
retain_entry-Counts heap c (some a) h held l = elim (Option-cases (file_at heap a)) [
  | inl gone ↦
      let no : c a ≡ 0 = sym (h.counts a) ∙ ap count_of gone in
      absurd (omega (arith, no, held a refl))
  | inr (f, e) ↦ (
    _,
    ap (λ o. o >>= λ g. some (set heap a (some (record g { count = (g.count + 1) % 2 ^ 32 })))) e,
    retain-HasCounts heap c a f h e (l a),
  )
]

retain_down-Counts :
    (n : ℕ) (os : List (Option ℕ)) (heap : List (Option File)) (c : ℕ → ℕ)
    → HasCounts heap c
    → ((i a : ℕ) → i < n → get_or os i none ≡ some a → 0 < c a)
    → ((a : ℕ) → c a + n ≤ 4000)
    → (heap' : List (Option File)) × (retain_down n os heap ≡ some heap')
      × HasCounts heap' (λ a. c a + refs n a os)
unfolding retain_down
retain_down-Counts zero os heap c h held l =
    (heap, refl, record { counts = λ b. h.counts b ∙ omega arith; alive = h.alive })
retain_down-Counts (suc n) os heap c h held l =
    let (heap1, e1, h1) =
      retain_entry-Counts heap c (get_or os n none) h (λ a e. held n a (omega arith) e)
        (λ a. omega (arith, l a)) in
    let (heap2, e2, h2) =
      retain_down-Counts n os heap1 (λ a. c a + one a (get_or os n none)) h1
        (λ i a l' e. omega (arith, held i a (omega (arith, l')) e))
        (λ a. omega (arith, l a, one_le a (get_or os n none))) in
    (
      heap2,
      ap (λ o. o >>= λ heap'. retain_down n os heap') e1 ∙ e2,
      record { counts = λ a. h2.counts a ∙ omega arith; alive = h2.alive },
    )

-- `sys_fork` with fewer than 63 other tasks gives the child every descriptor of its parent, keeps the
-- tables of all others, and the counts stay right.
pub fork_files-IsCounted :
    (s : Files)
    → IsCounted s
    → length s.others < 63
    → (s' : Files) × (fork_files s ≡ some s')
      × IsCounted s'
      × (s'.files ≡ s.files)
      × (s'.others ≡ (s.files ∷ s.others))
unfolding fork_files
fork_files-IsCounted s h l =
    let (heap', e, h') =
      retain_down-Counts nr_open s.files s.heap (total s)
        (record { counts = h.counts; alive = h.alive })
        (λ i a l' e. let some_refs = refs_pos nr_open a i s.files l' e in omega (arith, some_refs))
        (λ a. omega (arith, total_le s a h.tasks)) in
    (
      record s { others = s.files ∷ s.others; heap = heap' },
      ap (λ o. o >>= λ heap''. some (record s { others = s.files ∷ s.others; heap = heap'' })) e,
      record {
        size = h.size;
        counts = λ a. h'.counts a ∙ omega arith;
        alive = h'.alive;
        tasks = omega (arith, l);
      },
      refl,
      refl,
    )
