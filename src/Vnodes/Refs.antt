-- ===== src/Vnodes/Refs.antt =====
-- The vnodes of src/fs/vfs/vnode.c implement numbers of references.
use nupkux.Base.{
  ==_refl, ℕ, ◌+◌, ◌-◌, ◌%◌, ◌^◌, ◌≡◌, refl, sym, ◌∙◌, ap, subst, inl, inr, ◌<◌, ◌==◌, List, [],
  ◌∷◌, Bool, true, false, Bool-cases, eq_or_ne, none, some, arith, if◌then◌else◌,
}
use nupkux.Vnodes.{Vnode, bump, create_empty_inode, iget, iput}

-- The count that the list has for a number, 0 where it has none.
abbrev pub count_in : List Vnode → ℕ → ℕ
count_in [] i = 0
count_in (v ∷ vs) i = if v.ino == i then v.count else count_in vs i

-- Every vnode is referred to, and a number has one vnode only.
abbrev pub IsCache : List Vnode → Type 0
IsCache [] = Unit
IsCache (v ∷ vs) = (0 < v.count) × (count_in vs v.ino ≡ 0) × IsCache vs

-- The list stands for the numbers of references `r`.
pub record Represents (cache : List Vnode) (r : ℕ → ℕ) : Type 0 where
  pub valid : IsCache cache
  pub counts : (i : ℕ) → count_in cache i ≡ r i

abbrev pub more : (ℕ → ℕ) → ℕ → ℕ → ℕ
more r i j = if i == j then r j + 1 else r j

abbrev pub less : (ℕ → ℕ) → ℕ → ℕ → ℕ
less r i j = if i == j then r j - 1 else r j

kept_absent : (r : ℕ → ℕ) (i n : ℕ) → r n ≡ 0 → (n == i) ≡ false → more r i n ≡ 0
kept_absent r i n e s = ground (arith, e, s)

other_number : (n i j : ℕ) → (n == i) ≡ false → (n == j) ≡ true → (i == j) ≡ false
other_number n i j s t = ground (arith, s, t)

-- The counts of a list behind its head.
kept_more :
    (b : Bool) (n c c' i j : ℕ)
    → c ≡ (if i == j then c' + 1 else c')
    → (b ≡ true → (i == j) ≡ false)
    → (if b then n else c) ≡ (if i == j then (if b then n else c') + 1 else (if b then n else c'))
kept_more true n c c' i j e h = rw (h refl) refl
kept_more false n c c' i j e h = e

kept_less :
    (b : Bool) (n c c' i j : ℕ)
    → c ≡ (if i == j then c' - 1 else c')
    → (b ≡ true → (i == j) ≡ false)
    → (if b then n else c) ≡ (if i == j then (if b then n else c') - 1 else (if b then n else c'))
kept_less true n c c' i j e h = rw (h refl) refl
kept_less false n c c' i j e h = e

bump-none : (i : ℕ) (vs : List Vnode) → IsCache vs → count_in vs i ≡ 0 → bump i vs ≡ none
unfolding bump
bump-none i [] h e = refl
bump-none i (v ∷ vs) (pos_count, one, h) e = elim (Bool-cases (v.ino == i)) [
  | inl s ↦ absurd (ground (arith, pos_count, e, s))
  | inr s ↦ rw (s, bump-none i vs h (ground (arith, e, s))) refl
]

-- The counts behind the loop of `iget`.
bump-some :
    (i : ℕ) (vs : List Vnode)
    → IsCache vs
    → 0 < count_in vs i
    → count_in vs i < 255
    → (vs' : List Vnode) × (bump i vs ≡ some vs')
      × IsCache vs'
      × ((j : ℕ) → count_in vs' j ≡ more (count_in vs) i j)
unfolding bump
bump-some i [] h l b = absurd (omega arith)
bump-some i (v ∷ vs) (pos_count, one, h) l b = elim (Bool-cases (v.ino == i)) [
  | inl s ↦ (
    record v { count = (v.count + 1) % 2 ^ 8 } ∷ vs,
    rw s refl,
    (ground (arith, pos_count, b, s), one, h),
    λ j. ground (arith, pos_count, b, s),
  )
  | inr s ↦
      let (vs', e, h', c) = bump-some i vs h (ground (arith, l, s)) (ground (arith, b, s)) in
      (
        v ∷ vs',
        rw (s, e) refl,
        (pos_count, c v.ino ∙ kept_absent (count_in vs) i v.ino one s, h'),
        λ j.
            kept_more (v.ino == j) v.count (count_in vs' j) (count_in vs j) i j (c j)
              (other_number v.ino i j s),
      )
]

drop_absent : (r : ℕ → ℕ) (i n : ℕ) → r n ≡ 0 → less r i n ≡ 0
drop_absent r i n e = ground (arith, e)

less_head :
    (n i j a c : ℕ)
    → (n == i) ≡ true
    → (if n == j then a - 1 else c)
      ≡ (if i == j then (if n == j then a else c) - 1 else (if n == j then a else c))
less_head n i j a c s = ground (arith, s)

gone_head :
    (n i j a c : ℕ)
    → (n == i) ≡ true
    → (a - 1 == 0) ≡ true
    → (n ≡ j → c ≡ 0)
    → c ≡ (if i == j then (if n == j then a else c) - 1 else (if n == j then a else c))
gone_head n i j a c s last h = elim (eq_or_ne n j) [
  | inl e ↦ ground (arith, s, last, e, h e)
  | inr ne ↦ ground (arith, s, ne)
]

-- The counts behind `iput`.
iput-IsCache :
    (i : ℕ) (vs : List Vnode)
    → IsCache vs
    → IsCache (iput vs i) × ((j : ℕ) → count_in (iput vs i) j ≡ less (count_in vs) i j)
unfolding iput
iput-IsCache i [] h = (h, λ j. ground arith)
iput-IsCache i (v ∷ vs) (pos_count, one, h) = elim (Bool-cases (v.ino == i)) [
  | inr s ↦
      let (h', c) = iput-IsCache i vs h in
      rw s (
        (pos_count, c v.ino ∙ drop_absent (count_in vs) i v.ino one, h'),
        λ j.
            kept_less (v.ino == j) v.count (count_in (iput vs i) j) (count_in vs j) i j (c j)
              (other_number v.ino i j s),
      )
  | inl s ↦
      let same : v.ino ≡ i = ground (arith, s) in
      let held : (v.count == 0) ≡ false = ground (arith, pos_count) in
      elim (Bool-cases (v.count - 1 == 0)) [
        | inl last ↦
            rw (s, held, last)
              (
                h,
                λ j.
                    gone_head v.ino i j v.count (count_in vs j) s last
                      (λ e. subst (λ m. count_in vs m ≡ 0) e one),
              )
        | inr many ↦
            rw (s, held, many)
              ((ground (arith, many), one, h), λ j. less_head v.ino i j v.count (count_in vs j) s)
      ]
]

iget_found :
    (cache cache' : List Vnode) (i : ℕ) → bump i cache ≡ some cache' → iget cache i ≡ cache'
unfolding iget
iget_found cache cache' i e =
    ap (λ o. elim o as (λ q. List Vnode) [ none ↦ create_empty_inode i cache | some c ↦ c ]) e

iget_new :
    (cache : List Vnode) (i : ℕ) → bump i cache ≡ none → iget cache i ≡ create_empty_inode i cache
unfolding iget
iget_new cache i e =
    ap (λ o. elim o as (λ q. List Vnode) [ none ↦ create_empty_inode i cache | some c ↦ c ]) e

new_more : (i j c : ℕ) → (i ≡ j → c ≡ 0) → (if i == j then 1 else c) ≡ (if i == j then c + 1 else c)
new_more i j c h = elim (eq_or_ne i j) [
  | inl e ↦ ground (arith, e, h e)
  | inr ne ↦ ground (arith, ne)
]

-- `iget` of a number that has fewer than 255 references adds one reference to it and changes no other
-- number, with one vnode for each number that has references and none for the others.
pub iget-Represents :
    (cache : List Vnode) (r : ℕ → ℕ) (i : ℕ)
    → Represents cache r
    → r i < 255
    → Represents (iget cache i) (more r i)
iget-Represents cache r i h l = elim (eq_or_ne (count_in cache i) 0) [
  | inl absent ↦
      subst (λ c. Represents c (more r i))
        (sym (iget_new cache i (bump-none i cache h.valid absent)))
        (record {
          valid = (omega arith, absent, h.valid);
          counts = λ j.
              new_more i j (count_in cache j) (λ e. subst (λ m. count_in cache m ≡ 0) e absent)
              ∙ ap (λ n. if i == j then n + 1 else n) (h.counts j);
        })
  | inr held ↦
      let (cache', e, valid, c) =
        bump-some i cache h.valid (omega (arith, held)) (omega (arith, l, h.counts i)) in
      subst (λ c. Represents c (more r i)) (sym (iget_found cache cache' i e))
        (record {
          valid = valid;
          counts = λ j. c j ∙ ap (λ n. if i == j then n + 1 else n) (h.counts j);
        })
]

-- `iput` takes one reference away from the number, if it has any, and changes no other number, with one
-- vnode for each number that has references then and none for the others.
pub iput-Represents :
    (cache : List Vnode) (r : ℕ → ℕ) (i : ℕ)
    → Represents cache r
    → Represents (iput cache i) (less r i)
iput-Represents cache r i h =
    let (valid, c) = iput-IsCache i cache h.valid in
    record { valid = valid; counts = λ j. c j ∙ ap (λ n. if i == j then n - 1 else n) (h.counts j) }

bump_head :
    (v : Vnode) (vs : List Vnode)
    → bump v.ino (v ∷ vs) ≡ some (record v { count = (v.count + 1) % 2 ^ 8 } ∷ vs)
unfolding bump
bump_head v vs = let same : (v.ino == v.ino) ≡ true = ==_refl v.ino in rw same refl

-- The 256th reference to a vnode makes its count 0.
pub iget_wraps :
    (v : Vnode) (vs : List Vnode)
    → v.count ≡ 255
    → iget (v ∷ vs) v.ino ≡ (record v { count = 0 } ∷ vs)
iget_wraps v vs h =
    iget_found (v ∷ vs) _ v.ino (bump_head v vs)
    ∙ ap {B = List Vnode} (λ n. record v { count = (n + 1) % 2 ^ 8 } ∷ vs) h
