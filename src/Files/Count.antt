-- ===== src/Files/Count.antt =====
-- How many descriptors refer to a FILE, and the invariant that its count is that number.
use nupkux.Base.{
  ℕ, zero, suc, ◌+◌, ◌*◌, ◌≡◌, refl, sym, ◌∙◌, ap, ap₂, Option-cases, subst, inl, inr, ◌≤◌, ◌<◌,
  ◌==◌, List, [], ◌∷◌, length, get_or, set, get_or-set_self, get_or-set_ne, eq_or_ne, Option, none,
  some, arith, if◌then◌else◌,
}
use nupkux.Files.{File, Files, nr_open, file_at, entry}

abbrev pub one : ℕ → Option ℕ → ℕ
one a none = 0
one a (some b) = if b == a then 1 else 0

-- The references to `a` in the first `n` entries of a table.
abbrev pub refs : ℕ → ℕ → List (Option ℕ) → ℕ
refs zero a os = 0
refs (suc n) a os = one a (get_or os n none) + refs n a os

abbrev pub refs_all : ℕ → List (List (Option ℕ)) → ℕ
refs_all a [] = 0
refs_all a (os ∷ oss) = refs nr_open a os + refs_all a oss

-- … in the tables of all tasks
abbrev pub total : Files → ℕ → ℕ
total s a = refs nr_open a s.files + refs_all a s.others

abbrev pub count_of : Option File → ℕ
count_of none = 0
count_of (some f) = f.count

-- The count of each FILE is the number of the descriptors that refer to it, no freed one is referred
-- to, and no FILE stays that nothing refers to.
pub record IsCounted (s : Files) : Type 0 where
  pub size : length s.files ≡ nr_open
  pub counts : (a : ℕ) → count_of (file_at s.heap a) ≡ total s a
  pub alive : (a : ℕ) (f : File) → file_at s.heap a ≡ some f → 0 < f.count
  pub tasks : length s.others < 64

pub one_self : (a : ℕ) → one a (some a) ≡ 1
one_self a = ground arith

pub one_le : (a : ℕ) (o : Option ℕ) → one a o ≤ 1
one_le a none = omega arith
one_le a (some b) = ground arith

pub refs_le : (n a : ℕ) (os : List (Option ℕ)) → refs n a os ≤ n
refs_le zero a os = omega arith
refs_le (suc n) a os = omega (arith, refs_le n a os, one_le a (get_or os n none))

refs_all_le : (a : ℕ) (oss : List (List (Option ℕ))) → refs_all a oss ≤ nr_open * length oss
refs_all_le a [] = omega arith
refs_all_le a (os ∷ oss) = omega (arith, refs_all_le a oss, refs_le nr_open a os)

-- 64 tasks with 32 descriptors each
pub total_le : (s : Files) (a : ℕ) → length s.others < 64 → total s a ≤ 2048
total_le s a h = omega (arith, h, refs_all_le a s.others, refs_le nr_open a s.files)

-- A write behind the entries that are counted.
pub refs-set_behind :
    (n a j : ℕ) (o : Option ℕ) (os : List (Option ℕ)) → n ≤ j → refs n a (set os j o) ≡ refs n a os
refs-set_behind zero a j o os h = refl
refs-set_behind (suc n) a j o os h =
    ap₂ (λ x y. one a x + y) (get_or-set_ne os j n o none (λ e. omega (arith, e, h)))
      (refs-set_behind n a j o os (omega arith))

-- A write among them changes the number by the reference that goes and the one that comes.
pub refs-set :
    (n a j : ℕ) (o : Option ℕ) (os : List (Option ℕ))
    → j < n
    → j < length os
    → refs n a (set os j o) + one a (get_or os j none) ≡ refs n a os + one a o
refs-set zero a j o os h l = absurd (omega arith)
refs-set (suc n) a j o os h l = elim (eq_or_ne j n) [
  | inl e ↦
      subst
        (λ m.
          one a (get_or (set os j o) m none) + refs m a (set os j o) + one a (get_or os j none)
          ≡ one a (get_or os m none) + refs m a os + one a o)
        e
        (ap₂ (λ x y. one a x + y + one a (get_or os j none)) (get_or-set_self os j o none l)
            (refs-set_behind j a j o os (omega arith))
          ∙ omega arith)
  | inr ne ↦
      let rest = refs-set n a j o os (omega (arith, ne)) l in
      let same : one a (get_or (set os j o) n none) ≡ one a (get_or os n none) =
        ap (one a) (get_or-set_ne os j n o none ne) in
      omega (arith, rest, same)
]

-- A reference is counted.
pub refs_pos :
    (n a j : ℕ) (os : List (Option ℕ)) → j < n → get_or os j none ≡ some a → 0 < refs n a os
refs_pos zero a j os h e = absurd (omega arith)
refs_pos (suc n) a j os h e = elim (eq_or_ne j n) [
  | inl e' ↦
      let here : one a (get_or os n none) ≡ 1 =
        subst (λ m. one a (get_or os m none) ≡ 1) e' (ap (one a) e ∙ one_self a) in
      omega (arith, here)
  | inr ne ↦ let rest = refs_pos n a j os (omega (arith, ne)) e in omega (arith, rest)
]

-- The FILE of an entry.
pub entry_alive :
    (s : Files) (fd a : ℕ)
    → IsCounted s
    → fd < nr_open
    → entry s fd ≡ some a
    → (f : File) × (file_at s.heap a ≡ some f) × (f.count ≡ total s a)
entry_alive s fd a h l e = elim (Option-cases (file_at s.heap a)) [
  | inl gone ↦
      let zero_refs : total s a ≡ 0 = sym (h.counts a) ∙ ap count_of gone in
      let some_refs = refs_pos nr_open a fd s.files l e in
      absurd (omega (arith, zero_refs, some_refs))
  | inr (f, e') ↦ (f, e', sym (ap count_of e') ∙ h.counts a)
]
