-- ===== src/Files/Close.antt =====
-- `sys_close` of src/fs/open.c keeps the counts.
use nupkux.Base.{
  ℕ, zero, suc, ◌+◌, ◌-◌, ◌≡◌, refl, sym, ◌∙◌, ap, subst, inl, inr, ◌≢◌, ◌≤◌, ◌<◌, ◌==◌, leb, List,
  [], ◌∷◌, length, length-set, get_or, set, get_or-set_self, get_or-set_ne, true, false, Bool-cases,
  Option-cases, not_some, eq_or_ne, lt_or_ge, Option, none, some, pos, neg, arith,
}
use nupkux.Files.{
  File, Files, Answer, nr_open, ebadf, file_at, entry, release, without_fd, close_entry, sys_close,
}
use nupkux.Files.Count.{one, one_self, total, count_of, IsCounted, refs-set, entry_alive}

pub some_inside :
    (heap : List (Option File)) (a : ℕ) (f : File) → file_at heap a ≡ some f → a < length heap
some_inside [] a f h = absurd (not_some h)
some_inside (o ∷ heap) zero f h = omega arith
some_inside (o ∷ heap) (suc a) f h = omega (arith, some_inside heap a f h)

pub entry_inside : (os : List (Option ℕ)) (i a : ℕ) → get_or os i none ≡ some a → i < length os
entry_inside [] i a h = absurd (not_some h)
entry_inside (o ∷ os) zero a h = omega arith
entry_inside (o ∷ os) (suc i) a h = omega (arith, entry_inside os i a h)

-- One FILE is written, and its new count is the number of its references.
pub recount :
    (s s' : Files) (a : ℕ) (f : File) (x : Option File)
    → IsCounted s
    → file_at s.heap a ≡ some f
    → s'.heap ≡ set s.heap a x
    → length s'.files ≡ nr_open
    → length s'.others < 64
    → count_of x ≡ total s' a
    → ((g : File) → x ≡ some g → 0 < g.count)
    → ((b : ℕ) → b ≢ a → total s' b ≡ total s b)
    → IsCounted s'
recount s s' a f x h e eh size tasks here alive others =
    let self : file_at s'.heap a ≡ x =
      ap (λ heap. file_at heap a) eh ∙ get_or-set_self s.heap a x none (some_inside s.heap a f e) in
    let other : (b : ℕ) → b ≢ a → file_at s'.heap b ≡ file_at s.heap b = λ b ne.
      ap (λ heap. file_at heap b) eh ∙ get_or-set_ne s.heap a b x none (λ e'. ne (sym e')) in
    record {
      size = size;
      counts = λ b. elim (eq_or_ne b a) [
        | inl e' ↦
            subst (λ c. count_of (file_at s'.heap c) ≡ total s' c) (sym e')
              (ap count_of self ∙ here)
        | inr ne ↦ ap count_of (other b ne) ∙ h.counts b ∙ sym (others b ne)
      ];
      alive = λ b g e'. elim (eq_or_ne b a) [
        | inl e'' ↦ alive g (sym self ∙ subst (λ c. file_at s'.heap c ≡ some g) e'' e')
        | inr ne ↦ h.alive b g (sym (other b ne) ∙ e')
      ];
      tasks = tasks;
    }

-- What `sys_close` leads to: EBADF where the descriptor is free or no descriptor at all, and else the
-- descriptor is free and the others stay.
pub data Closes (s : Files) (fd : ℕ) : Option Answer → Type 0 where
  bad : entry s fd ≡ none → Closes s fd (some (record { result = neg ebadf; state = s }))
  closed :
      (s' : Files)
      → entry s fd ≢ none
      → IsCounted s'
      → entry s' fd ≡ none
      → ((i : ℕ) → i ≢ fd → entry s' i ≡ entry s i)
      → s'.others ≡ s.others
      → Closes s fd (some (record { result = pos 0; state = s' }))

total-without :
    (s : Files) (fd a b : ℕ)
    → IsCounted s
    → fd < nr_open
    → entry s fd ≡ some a
    → total (without_fd s fd) b + one b (some a) ≡ total s b
total-without s fd a b h l e =
    let step = refs-set nr_open b fd none s.files l (omega (arith, l, h.size)) in
    let old : one b (entry s fd) ≡ one b (some a) = ap (one b) e in omega (arith, step, old)

pub one_other : (a b : ℕ) → b ≢ a → one b (some a) ≡ 0
one_other a b ne = ground (arith, ne)

release_fields :
    (s : Files) (a : ℕ) (f : File)
    → ((release s a f).files ≡ s.files) × ((release s a f).others ≡ s.others)
unfolding release
release_fields s a f = elim (Bool-cases (f.count == 0)) [
  | inl h ↦ rw h (refl, refl)
  | inr h ↦ elim (Bool-cases (f.count - 1 == 0)) [
    | inl h' ↦ rw (h, h') (refl, refl)
    | inr h' ↦ rw (h, h') (refl, refl)
  ]
]

more_than_0 : (n m : ℕ) → m + 1 ≡ n → (n == 0) ≡ false
more_than_0 n m h = ground (arith, h)

last_one : (n m : ℕ) → m + 1 ≡ n → (n - 1 == 0) ≡ true → 0 ≡ m
last_one n m h h' = ground (arith, h, h')

not_last : (n : ℕ) → (n - 1 == 0) ≡ false → 0 < n - 1
not_last n h = ground (arith, h)

release-IsCounted :
    (s : Files) (fd a : ℕ) (f : File)
    → IsCounted s
    → fd < nr_open
    → entry s fd ≡ some a
    → file_at s.heap a ≡ some f
    → f.count ≡ total s a
    → IsCounted (release (without_fd s fd) a f)
unfolding release
release-IsCounted s fd a f h l e e' c =
    let less : total (without_fd s fd) a + 1 ≡ total s a =
      ap (λ n. total (without_fd s fd) a + n) (sym (one_self a)) ∙ total-without s fd a a h l e in
    let others : (b : ℕ) → b ≢ a → total (without_fd s fd) b ≡ total s b =
      λ b ne. omega (arith, total-without s fd a b h l e, one_other a b ne) in
    let held : (f.count == 0) ≡ false =
      more_than_0 f.count (total (without_fd s fd) a) (less ∙ sym c) in
    let size : length (set s.files fd none) ≡ nr_open = length-set s.files fd none ∙ h.size in
    elim (Bool-cases (f.count - 1 == 0)) [
      | inl last ↦
          rw (held, last)
            (recount s
              (record (without_fd s fd) { heap = set s.heap a none; closed = f.node ∷ s.closed }) a
              f none h e' refl size h.tasks
              (last_one f.count (total (without_fd s fd) a) (less ∙ sym c) last)
              (λ g n. absurd (not_some n)) others)
      | inr more ↦
          rw (held, more)
            (recount s
              (record (without_fd s fd) {
                heap = set s.heap a (some (record f { count = f.count - 1 }));
              })
              a f (some (record f { count = f.count - 1 })) h e' refl size h.tasks
              (omega (arith, less, c))
              (λ g n. subst (λ m. 0 < m) (ap count_of n) (not_last f.count more)) others)
    ]

pub get_or-behind : (os : List (Option ℕ)) (i : ℕ) → length os ≤ i → get_or os i none ≡ none
get_or-behind [] i h = refl
get_or-behind (o ∷ os) zero h = absurd (omega arith)
get_or-behind (o ∷ os) (suc i) h = get_or-behind os i (omega arith)

close_free : (s : Files) (fd : ℕ) → entry s fd ≡ none → Closes s fd (close_entry s fd none)
unfolding close_entry
close_free s fd e = bad e

close_used :
    (s : Files) (fd a : ℕ)
    → IsCounted s
    → fd < nr_open
    → entry s fd ≡ some a
    → Closes s fd (close_entry s fd (some a))
unfolding close_entry
close_used s fd a h l e =
    let (f, e', c) = entry_alive s fd a h l e in
    let (same, same') = release_fields (without_fd s fd) a f in
    rw e' (
      closed (release (without_fd s fd) a f) (λ gone. not_some (sym gone ∙ e))
        (release-IsCounted s fd a f h l e e' c)
        (ap (λ os. get_or os fd none) same
          ∙ get_or-set_self s.files fd none none (omega (arith, l, h.size)))
        (λ i ne.
          ap (λ os. get_or os i none) same
          ∙ get_or-set_ne s.files fd i none none (λ e''. ne (sym e'')))
        same')

-- `sys_close` of a number that is no descriptor, or of one that is free, gives EBADF and changes
-- nothing. Otherwise it frees that descriptor alone, and the counts stay right: no pointer to a freed
-- FILE is followed or left, and the last descriptor frees the FILE.
pub sys_close-Closes : (s : Files) (fd : ℕ) → IsCounted s → Closes s fd (sys_close s (pos fd))
unfolding sys_close
sys_close-Closes s fd h = elim (lt_or_ge fd nr_open) [
  | inr l ↦
      let bound : leb nr_open fd ≡ true = ground (arith, l) in
      rw bound (bad (get_or-behind s.files fd (omega (arith, l, h.size))))
  | inl l ↦
      let bound : leb nr_open fd ≡ false = ground (arith, l) in
      rw bound (elim (Option-cases (entry s fd)) [
        | inl e ↦ subst (λ o. Closes s fd (close_entry s fd o)) (sym e) (close_free s fd e)
        | inr (a, e) ↦
            subst (λ o. Closes s fd (close_entry s fd o)) (sym e) (close_used s fd a h l e)
      ])
]
