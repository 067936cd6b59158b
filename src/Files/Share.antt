-- ===== src/Files/Share.antt =====
-- `sys_dup2` of src/fs/fcntl.c keeps the counts.
pub mod Fork
pub mod Open
use nupkux.Base.{
  ℕ, zero, suc, ◌+◌, ◌-◌, ◌%◌, ◌^◌, ◌≡◌, refl, sym, ◌∙◌, ap, subst, ◌⊎◌, inl, inr, ◌≢◌, ◌≤◌, ◌<◌,
  ◌==◌, ◌||◌, leb, List, [], ◌∷◌, length, length-set, get_or, set, get_or-set_self, get_or-set_ne,
  Bool, true, false, Bool-cases, Option-cases, not_some, eq_or_ne, lt_or_ge, Option, none, some,
  ◌>>=◌, ℤ, pos, negsuc, neg, arith, if◌then◌else◌,
}
use nupkux.Files.{
  File, Files, Answer, nr_open, ebadf, file_at, entry, clear_bit, retain, share, dup_entry,
  sys_close, sys_dup2,
}
use nupkux.Files.Count.{
  one, one_self, refs, total, total_le, count_of, IsCounted, refs-set, entry_alive,
}
use nupkux.Files.Close.{Closes, bad, closed, sys_close-Closes, recount, one_other, get_or-behind}

-- One more reference, without a wrap.
pub count_up : (c t : ℕ) → c ≡ t → t ≤ 2048 → (c + 1) % 2 ^ 32 ≡ t + 1
count_up c t h l = ground (arith, h, l)

-- The table with the new reference, when `files[fd2]` was free.
abbrev shared : Files → ℕ → ℕ → File → Files
shared s fd2 a f = record s {
  files = set s.files fd2 (some a);
  close_on_exec = clear_bit s.close_on_exec fd2;
  heap = set s.heap a (some (record f { count = (f.count + 1) % 2 ^ 32 }));
}

total-shared :
    (s : Files) (fd2 a b : ℕ) (f : File)
    → IsCounted s
    → fd2 < nr_open
    → entry s fd2 ≡ none
    → total (shared s fd2 a f) b ≡ total s b + one b (some a)
total-shared s fd2 a b f h l e =
    let step = refs-set nr_open b fd2 (some a) s.files l (omega (arith, l, h.size)) in
    let old : one b (entry s fd2) ≡ 0 = ap (one b) e in omega (arith, step, old)

shared-IsCounted :
    (s : Files) (fd2 a : ℕ) (f : File)
    → IsCounted s
    → fd2 < nr_open
    → entry s fd2 ≡ none
    → file_at s.heap a ≡ some f
    → f.count ≡ total s a
    → IsCounted (shared s fd2 a f)
shared-IsCounted s fd2 a f h l e e' c =
    let more : total (shared s fd2 a f) a ≡ total s a + 1 =
      total-shared s fd2 a a f h l e ∙ ap (λ n. total s a + n) (one_self a) in
    let count : (f.count + 1) % 2 ^ 32 ≡ total s a + 1 =
      count_up f.count (total s a) c (total_le s a h.tasks) in
    recount s (shared s fd2 a f) a f (some (record f { count = (f.count + 1) % 2 ^ 32 })) h e' refl
      (length-set s.files fd2 (some a) ∙ h.size) h.tasks (count ∙ sym more)
      (λ g n. subst (λ m. 0 < m) (sym count ∙ ap count_of n) (omega arith))
      (λ b ne. total-shared s fd2 a b f h l e ∙ omega (arith, one_other a b ne))

-- What `sys_dup2` leads to.
pub data Dups (s : Files) (fd fd2 : ℕ) : Option Answer → Type 0 where
  refused :
      (entry s fd ≡ none) ⊎ (nr_open ≤ fd2)
      → Dups s fd fd2 (some (record { result = neg ebadf; state = s }))
  shares :
      (s' : Files)
      → entry s fd ≢ none
      → IsCounted s'
      → entry s' fd2 ≡ entry s fd
      → ((i : ℕ) → i ≢ fd2 → entry s' i ≡ entry s i)
      → s'.others ≡ s.others
      → Dups s fd fd2 (some (record { result = pos fd2; state = s' }))

-- `share` in the state that `sys_close(fd2)` leaves.
share-Dups :
    (s s1 : Files) (fd fd2 a : ℕ)
    → IsCounted s1
    → fd < nr_open
    → fd2 < nr_open
    → fd ≢ fd2
    → entry s fd ≡ some a
    → entry s1 fd2 ≡ none
    → ((i : ℕ) → i ≢ fd2 → entry s1 i ≡ entry s i)
    → s1.others ≡ s.others
    → Dups s fd fd2 (share s1 fd2 (entry s1 fd))
unfolding share
share-Dups s s1 fd fd2 a h l l2 ne e e2 same others =
    let e1 : entry s1 fd ≡ some a = same fd ne ∙ e in
    let (f, e', c) = entry_alive s1 fd a h l e1 in
    rw (e1, e')
      (shares (shared s1 fd2 a f) (λ gone. not_some (sym gone ∙ e))
        (shared-IsCounted s1 fd2 a f h l2 e2 e' c)
        (get_or-set_self s1.files fd2 (some a) none (omega (arith, h.size, l2)) ∙ sym e)
        (λ i ne'. get_or-set_ne s1.files fd2 i (some a) none (λ e''. ne' (sym e'')) ∙ same i ne')
        others)

dup-Closes :
    (s : Files) (fd fd2 a : ℕ) (o : Option Answer)
    → IsCounted s
    → fd < nr_open
    → fd2 < nr_open
    → fd ≢ fd2
    → entry s fd ≡ some a
    → Closes s fd2 o
    → Dups s fd fd2 (o >>= λ r. share r.state fd2 (entry r.state fd))
dup-Closes s fd fd2 a _ h l l2 ne e (bad free) =
    share-Dups s s fd fd2 a h l l2 ne e free (λ i ne'. refl) refl
dup-Closes s fd fd2 a _ h l l2 ne e (closed s' used h' free same others) =
    share-Dups s s' fd fd2 a h' l l2 ne e free same others

dup_used :
    (s : Files) (fd fd2 a : ℕ)
    → IsCounted s
    → fd < nr_open
    → fd2 < nr_open
    → fd ≢ fd2
    → entry s fd ≡ some a
    → Dups s fd fd2 (dup_entry s fd fd2 (some a))
unfolding dup_entry
dup_used s fd fd2 a h l l2 ne e =
    dup-Closes s fd fd2 a (sys_close s (pos fd2)) h l l2 ne e (sys_close-Closes s fd2 h)

dup_free : (s : Files) (fd fd2 : ℕ) → entry s fd ≡ none → Dups s fd fd2 (dup_entry s fd fd2 none)
unfolding dup_entry
dup_free s fd fd2 e = refused (inl e)

dup_bounded :
    (s : Files) (fd fd2 : ℕ)
    → IsCounted s
    → fd < nr_open
    → fd2 < nr_open
    → fd ≢ fd2
    → Dups s fd fd2 (dup_entry s fd fd2 (entry s fd))
dup_bounded s fd fd2 h l l2 ne = elim (Option-cases (entry s fd)) [
  | inl e ↦ subst (λ o. Dups s fd fd2 (dup_entry s fd fd2 o)) (sym e) (dup_free s fd fd2 e)
  | inr (a, e) ↦
      subst (λ o. Dups s fd fd2 (dup_entry s fd fd2 o)) (sym e) (dup_used s fd fd2 a h l l2 ne e)
]

-- `sys_dup2` between two different numbers gives EBADF and changes nothing where the first is no open
-- descriptor or the second is out of the table. Otherwise it returns the second one, which refers to the
-- file of the first then, the other descriptors stay, and the counts stay right.
pub sys_dup2-Dups :
    (s : Files) (fd fd2 : ℕ)
    → IsCounted s
    → fd ≢ fd2
    → Dups s fd fd2 (sys_dup2 s (pos fd) (pos fd2))
unfolding sys_dup2
sys_dup2-Dups s fd fd2 h ne = elim (lt_or_ge fd nr_open) [
  | inr l ↦
      let bound : (leb nr_open fd || leb nr_open fd2) ≡ true = ground (arith, l) in
      rw bound (refused (inl (get_or-behind s.files fd (omega (arith, l, h.size)))))
  | inl l ↦ elim (lt_or_ge fd2 nr_open) [
    | inr l2 ↦
        let bound : (leb nr_open fd || leb nr_open fd2) ≡ true = ground (arith, l2) in
        rw bound (refused (inr l2))
    | inl l2 ↦
        let bound : (leb nr_open fd || leb nr_open fd2) ≡ false = ground (arith, l, l2) in
        rw bound (dup_bounded s fd fd2 h l l2 ne)
  ]
]

share-Closes :
    (s : Files) (fd a : ℕ) (o : Option Answer)
    → entry s fd ≡ some a
    → Closes s fd o
    → (o >>= λ r. share r.state fd (entry r.state fd)) ≡ none
unfolding share
share-Closes s fd a _ e (bad free) = absurd (not_some (sym free ∙ e))
share-Closes s fd a _ e (closed s' used h' free same others) = rw free refl

-- `sys_dup2` of an open descriptor to itself closes it and then follows the null pointer that is left.
pub sys_dup2_same :
    (s : Files) (fd a : ℕ)
    → IsCounted s
    → fd < nr_open
    → entry s fd ≡ some a
    → sys_dup2 s (pos fd) (pos fd) ≡ none
unfolding sys_dup2 dup_entry
sys_dup2_same s fd a h l e =
    let bound : (leb nr_open fd || leb nr_open fd) ≡ false = ground (arith, l) in
    rw (bound, e) (share-Closes s fd a (sys_close s (pos fd)) e (sys_close-Closes s fd h))
