-- ===== src/Heap/Index.antt =====
-- The index of holes: it stays in the order of the sizes, and the search finds the smallest hole.
use nupkux.Base.{
  ℕ, zero, suc, ◌+◌, ◌==◌, ◌<◌, ◌≤◌, ◌≡◌, ◌⊎◌, ◌%◌, ◌^◌, Bool, not_both, eq_or_ne, ◌≢◌, ◌∙◌, refl,
  ap, inl, inr, ltb, leb, if◌then◌else◌, List, [], ◌∷◌, length, get_or, All, true, false,
  Bool-cases, Option, none, some, arith, lt_or_ge,
}
use nupkux.Heap.{
  Bytes, size_of, Heap, insert_entry, heap_add_entry, remove_at, heap_del_entry, next_index,
  heap_find_entry, is_big_enough, fits_behind, page_offset, find_smallest_hole,
}

-- Every entry is at most as large as those behind it.
abbrev pub IsSorted : Bytes → List ℕ → Type 0
IsSorted m [] = Unit
IsSorted m (e ∷ es) = All (λ x. size_of m e ≤ size_of m x) es × IsSorted m es

-- How often an entry is in the index.
abbrev pub count : ℕ → List ℕ → ℕ
count x [] = 0
count x (e ∷ es) = (if e == x then 1 else 0) + count x es

All-insert_entry :
    (m : Bytes) (e : ℕ) (P : ℕ → Type 0) (es : List ℕ)
    → P e
    → All P es
    → All P (insert_entry m e es)
All-insert_entry m e P [] p ps = (p, tt)
All-insert_entry m e P (x ∷ es) p (px, ps) = elim (Bool-cases (ltb (size_of m x) (size_of m e))) [
  | inl t ↦ rw t (px, All-insert_entry m e P es p ps)
  | inr t ↦ rw t (p, (px, ps))
]

All-le :
    (a b : ℕ) (m : Bytes) (es : List ℕ)
    → a ≤ b
    → All (λ x. b ≤ size_of m x) es
    → All (λ x. a ≤ size_of m x) es
All-le a b m [] l h = tt
All-le a b m (e ∷ es) l (h, hs) = (omega (arith, l, h), All-le a b m es l hs)

insert_entry-IsSorted :
    (m : Bytes) (e : ℕ) (es : List ℕ) → IsSorted m es → IsSorted m (insert_entry m e es)
insert_entry-IsSorted m e [] h = (tt, tt)
insert_entry-IsSorted m e (x ∷ es) (below, h) = elim (lt_or_ge (size_of m x) (size_of m e)) [
  | inl l ↦
      let t : ltb (size_of m x) (size_of m e) ≡ true = ground (arith, l) in
      let le : size_of m x ≤ size_of m e = omega (arith, l) in
      rw t (
        All-insert_entry m e (λ y. size_of m x ≤ size_of m y) es le below,
        insert_entry-IsSorted m e es h,
      )
  | inr l ↦
      let t : ltb (size_of m x) (size_of m e) ≡ false = ground (arith, l) in
      rw t ((l, All-le (size_of m e) (size_of m x) m es l below), (below, h))
]

count-insert_entry :
    (m : Bytes) (e x : ℕ) (es : List ℕ)
    → count x (insert_entry m e es) ≡ (if e == x then 1 else 0) + count x es
count-insert_entry m e x [] = refl
count-insert_entry m e x (y ∷ es) = elim (Bool-cases (ltb (size_of m y) (size_of m e))) [
  | inl t ↦ rw t (omega (arith, count-insert_entry m e x es))
  | inr t ↦ rw t refl
]

-- An entry that was inserted is the first of its kind, since the entries in front of it are smaller.
insert_entry-heap_find_entry :
    (m : Bytes) (e : ℕ) (es : List ℕ)
    → (i : ℕ) × (heap_find_entry e (insert_entry m e es) ≡ some i)
      × (remove_at i (insert_entry m e es) ≡ es)
unfolding heap_find_entry
insert_entry-heap_find_entry m e [] = let t : (e == e) ≡ true = ground arith in (0, rw t refl, refl)
insert_entry-heap_find_entry m e (x ∷ es) = elim (lt_or_ge (size_of m x) (size_of m e)) [
  | inl l ↦
      let t : ltb (size_of m x) (size_of m e) ≡ true = ground (arith, l) in
      let other : x ≢ e = λ q. omega (arith, l, ap (size_of m) q) in
      let t' : (x == e) ≡ false = ground (arith, other) in
      let (i, found, removed) = insert_entry-heap_find_entry m e es in
      (suc i, rw (t, t', found) refl, rw t (ap (λ xs. x ∷ xs) removed))
  | inr l ↦
      let t : ltb (size_of m x) (size_of m e) ≡ false = ground (arith, l) in
      let t' : (e == e) ≡ true = ground arith in (0, rw (t, t') refl, rw t refl)
]

-- In a sorted index of holes, `heap_add_entry` gives a sorted one with one entry more, and
-- `heap_del_entry` of what `heap_find_entry` finds for it gives back the heap that there was before, its
-- entries in their order.
pub heap_add_entry-heap_del_entry :
    (e : ℕ) (h : Heap)
    → IsSorted h.bytes h.entries
    → IsSorted h.bytes (heap_add_entry e h).entries
      × ((x : ℕ)
          → count x (heap_add_entry e h).entries ≡ (if e == x then 1 else 0) + count x h.entries)
      × (heap_del_entry (heap_find_entry e (heap_add_entry e h).entries) (heap_add_entry e h) ≡ h)
unfolding heap_add_entry heap_del_entry
heap_add_entry-heap_del_entry e h sorted =
    let (i, found, removed) = insert_entry-heap_find_entry h.bytes e h.entries in
    (
      insert_entry-IsSorted h.bytes e h.entries sorted,
      λ x. count-insert_entry h.bytes e x h.entries,
      rw found (ap (λ es. record h { entries = es }) removed),
    )

-- The hole `e` is large enough for `size` bytes; with alignment it has that room from some place on behind
-- which, after the header of 8 bytes, a page starts.
abbrev pub Fits : Bytes → ℕ → Bool → ℕ → Type 0
Fits m size false e = size ≤ size_of m e
Fits m size true e = (d : ℕ) × ((e + d + 8) % 4096 ≡ 0) × (size + d ≤ size_of m e)

page_offset_lem : (e : ℕ) → (e + page_offset e + 8) % 4096 ≡ 0
page_offset_lem e = elim (eq_or_ne ((e + 8) % 4096) 0) [
  | inl h ↦ let t : ((e + 8) % 4096 == 0) ≡ true = ground (arith, h) in rw t (omega (arith, h))
  | inr h ↦ let t : ((e + 8) % 4096 == 0) ≡ false = ground (arith, h) in rw t (omega (arith, h))
]

page_offset_least : (e d : ℕ) → (e + d + 8) % 4096 ≡ 0 → page_offset e ≤ d
page_offset_least e d h' = elim (eq_or_ne ((e + 8) % 4096) 0) [
  | inl h ↦ let t : ((e + 8) % 4096 == 0) ≡ true = ground (arith, h) in rw t (omega arith)
  | inr h ↦ let t : ((e + 8) % 4096 == 0) ≡ false = ground (arith, h) in rw t (omega (arith, h, h'))
]

fits_behind_lem :
    (entry_size offset size : ℕ)
    → size < 2 ^ 31
    → fits_behind entry_size offset size ≡ leb (size + offset) entry_size
fits_behind_lem entry_size offset size small =
    let t : ltb size (2 ^ 31) ≡ true = ground (arith, small) in rw t refl

aligned_lem :
    (m : Bytes) (size e : ℕ)
    → size < 2 ^ 31
    → ((is_big_enough m size true e ≡ true) × Fits m size true e)
      ⊎ ((is_big_enough m size true e ≡ false) × ¬ Fits m size true e)
aligned_lem m size e small =
    let test = fits_behind_lem (size_of m e) (page_offset e) size small in
    elim (lt_or_ge (size_of m e) (size + page_offset e)) [
      | inl l ↦
          let t : leb (size + page_offset e) (size_of m e) ≡ false = ground (arith, l) in
          inr (test ∙ t, λ (d, page, room). omega (arith, page_offset_least e d page, room, l))
      | inr l ↦
          let t : leb (size + page_offset e) (size_of m e) ≡ true = ground (arith, l) in
          inl (test ∙ t, (page_offset e, page_offset_lem e, l))
    ]

is_big_enough-Fits :
    (m : Bytes) (size : ℕ) (page_align : Bool) (e : ℕ)
    → (page_align ≡ false) ⊎ (size < 2 ^ 31)
    → ((is_big_enough m size page_align e ≡ true) × Fits m size page_align e)
      ⊎ ((is_big_enough m size page_align e ≡ false) × ¬ Fits m size page_align e)
is_big_enough-Fits m size true e (inl h) = absurd (not_both true refl h)
is_big_enough-Fits m size true e (inr small) = aligned_lem m size e small
is_big_enough-Fits m size false e h = elim (lt_or_ge (size_of m e) size) [
  | inl l ↦ inr (ground (arith, l), λ f. omega (arith, f, l))
  | inr l ↦ inl (ground (arith, l), l)
]

-- What a search for `size` bytes is to give.
abbrev pub Smallest : Bytes → ℕ → Bool → List ℕ → Option ℕ → Type 0
Smallest m size page_align es none = All (λ e. ¬ Fits m size page_align e) es
Smallest m size page_align es (some i) =
    (i < length es)
    × Fits m size page_align (get_or es i 0)
    × ((j : ℕ)
        → j < length es
        → Fits m size page_align (get_or es j 0)
        → size_of m (get_or es i 0) ≤ size_of m (get_or es j 0))

All_at : (P : ℕ → Type 0) (es : List ℕ) (j : ℕ) → All P es → j < length es → P (get_or es j 0)
All_at P [] j h l = absurd (omega (arith, l))
All_at P (e ∷ es) zero (h, hs) l = h
All_at P (e ∷ es) (suc j) (h, hs) l = All_at P es j hs (omega arith)

Smallest-here :
    (m : Bytes) (size : ℕ) (page_align : Bool) (e : ℕ) (es : List ℕ)
    → IsSorted m (e ∷ es)
    → Fits m size page_align e
    → Smallest m size page_align (e ∷ es) (some 0)
Smallest-here m size page_align e es (below, sorted) f = (omega arith, f, go)
  where
    go :
        (j : ℕ)
        → j < length (e ∷ es)
        → Fits m size page_align (get_or (e ∷ es) j 0)
        → size_of m e ≤ size_of m (get_or (e ∷ es) j 0)
    go zero l' f' = omega arith
    go (suc j) l' f' = All_at (λ x. size_of m e ≤ size_of m x) es j below (omega arith)

Smallest-later :
    (m : Bytes) (size : ℕ) (page_align : Bool) (e : ℕ) (es : List ℕ) (o : Option ℕ)
    → ¬ Fits m size page_align e
    → Smallest m size page_align es o
    → Smallest m size page_align (e ∷ es) (next_index o)
Smallest-later m size page_align e es none l h = (l, h)
Smallest-later m size page_align e es (some i) l (inside, fits, least) =
    (omega (arith, inside), fits, go)
  where
    go :
        (j : ℕ)
        → j < length (e ∷ es)
        → Fits m size page_align (get_or (e ∷ es) j 0)
        → size_of m (get_or es i 0) ≤ size_of m (get_or (e ∷ es) j 0)
    go zero l' f = absurd (l f)
    go (suc j) l' f = least j (omega arith) f

-- In a sorted index, `find_smallest_hole` gives a hole that is large enough and has the least size of those
-- that are, or none where every hole is too small. With alignment a hole is large enough where it has the room
-- from a place on whose data start on a page, and the size that is looked for is below 2^31.
pub find_smallest_hole-Smallest :
    (m : Bytes) (size : ℕ) (page_align : Bool) (es : List ℕ)
    → IsSorted m es
    → (page_align ≡ false) ⊎ (size < 2 ^ 31)
    → Smallest m size page_align es (find_smallest_hole m size page_align es)
unfolding find_smallest_hole
find_smallest_hole-Smallest m size page_align [] sorted small = tt
find_smallest_hole-Smallest m size page_align (e ∷ es) sorted small =
    elim (is_big_enough-Fits m size page_align e small) [
      | inl (t, f) ↦ rw t (Smallest-here m size page_align e es sorted f)
      | inr (t, f) ↦ rw t (
          Smallest-later m size page_align e es (find_smallest_hole m size page_align es) f
            (find_smallest_hole-Smallest m size page_align es (sorted.1) small))
    ]
