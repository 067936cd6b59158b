-- ===== src/Heap/Aligned.antt =====
-- Blocks whose data start on a page.
use nupkux.Base.{
  ℕ, zero, suc, ◌+◌, ◌-◌, ◌/◌, ◌%◌, ◌^◌, ◌==◌, ◌<◌, ◌≤◌, ◌≡◌, ◌≢◌, refl, ◌∙◌, ap, inl, inr, ltb,
  List, [], ◌∷◌, length, get_or, Bool, true, false, Bool-cases, ◌||◌, some, arith, any, not_both,
}
use nupkux.Heap.{
  Bytes, sub32, size_of, header_size, footer_size, Heap, in_memory, frame_size, insert_entry,
  heap_add_entry, find_smallest_hole,
}
use nupkux.Heap.Alloc.{
  heap_malloc, take_hole, finish_block, split_front, Place, put_rest, put_block,
}

-- Does the index have an entry for the address?
abbrev pub indexed : ℕ → Heap → Bool
indexed e h = any (λ x. x == e) h.entries

any-get_or :
    (e i : ℕ) (es : List ℕ) → i < length es → get_or es i 0 ≡ e → any (λ x. x == e) es ≡ true
any-get_or e i [] l h = absurd (omega (arith, l))
any-get_or e zero (x ∷ es) l h = let t : (x == e) ≡ true = ground (arith, h) in rw t refl
any-get_or e (suc i) (x ∷ es) l h = elim (Bool-cases (x == e)) [
  | inl t ↦ rw t refl
  | inr t ↦ rw t (any-get_or e i es (omega arith) h)
]

or_later : (a b : Bool) → b ≡ true → (a || b) ≡ true
or_later true b h = refl
or_later false b h = h

any-insert_entry :
    (m : Bytes) (e x : ℕ) (es : List ℕ)
    → any (λ y. y == e) es ≡ true
    → any (λ y. y == e) (insert_entry m x es) ≡ true
any-insert_entry m e x [] h = absurd (not_both false h refl)
any-insert_entry m e x (y ∷ es) h = elim (Bool-cases (ltb (size_of m y) (size_of m x))) [
  | inl t ↦ elim (Bool-cases (y == e)) [
    | inl t' ↦ rw (t, t') refl
    | inr t' ↦ rw (t, t') (any-insert_entry m e x es (rw t' at h))
  ]
  | inr t ↦ rw t (or_later (x == e) (any (λ z. z == e) (y ∷ es)) h)
]

split_front_lem :
    (pos size : ℕ) (h : Heap)
    → pos % frame_size ≡ 4088
    → pos < 2 ^ 32 - 8
    → ((split_front pos size h).oldpos ≡ pos) × ((split_front pos size h).heap.entries ≡ h.entries)
unfolding split_front
split_front_lem pos size h e l = (omega (arith, e, l), refl)

put_rest-indexed :
    (e header size : ℕ) (h : Heap) → indexed e h ≡ true → indexed e (put_rest header size h) ≡ true
unfolding heap_add_entry
put_rest-indexed e header size h i =
    any-insert_entry (put_rest header size h).bytes e header h.entries i

finish_block-indexed :
    (e size newsize : ℕ) (p : Place)
    → indexed e p.heap ≡ true
    → indexed e ((finish_block size newsize p).1) ≡ true
finish_block-indexed e size newsize p i = elim (Bool-cases (p.oldsize == newsize)) [
  | inl t ↦ rw t i
  | inr t ↦ rw t (
      put_rest-indexed e ((p.oldpos + newsize) % 2 ^ 32) (sub32 p.oldsize newsize)
        (in_memory (put_block p.oldpos size newsize) p.heap) i)
]

-- A page-aligned `heap_malloc` that finds a hole whose data start on a page already gives this hole's
-- address and leaves its entry in the index: the block in use is still taken for a hole.
pub heap_malloc-indexed :
    (fuel size i : ℕ) (h : Heap)
    → size ≢ 0
    → find_smallest_hole h.bytes ((size + header_size + footer_size) % 2 ^ 32) true h.entries
      ≡ some i
    → i < length h.entries
    → (get_or h.entries i 0 + header_size) % frame_size ≡ 0
    → frame_size ≤ get_or h.entries i 0
    → get_or h.entries i 0 < 2 ^ 32 - 8
    → (h' : Heap) × (heap_malloc (suc fuel) size true h
        ≡ some (get_or h.entries i 0 + header_size, h'))
      × (indexed (get_or h.entries i 0) h' ≡ true)
unfolding heap_malloc take_hole
heap_malloc-indexed fuel size i h nonzero found inside aligned low high =
    let pos : ℕ = get_or h.entries i 0 in
    let newsize : ℕ = (size + header_size + footer_size) % 2 ^ 32 in
    let hole : ℕ = size_of h.bytes pos in
    let some_size : (size == 0) ≡ false = ground (arith, nonzero) in
    let high_page : (pos / frame_size == 0) ≡ false = ground (arith, low) in
    let (same, kept) = split_front_lem pos hole h (omega (arith, aligned)) high in
    let p : Place = split_front pos hole h in
    let here : indexed pos p.heap ≡ true =
      ap (λ es. any (λ x. x == pos) es) kept ∙ any-get_or pos i h.entries inside refl in
    let address : (p.oldpos + header_size) % 2 ^ 32 ≡ pos + header_size =
      omega (arith, same, high) in
    elim (Bool-cases (ltb (sub32 hole (header_size + footer_size)) newsize)) [
      | inl t ↦ (
        (finish_block ((size + sub32 hole newsize) % 2 ^ 32) hole p).1,
        rw (some_size, found, t, high_page, address) refl,
        finish_block-indexed pos ((size + sub32 hole newsize) % 2 ^ 32) hole p here,
      )
      | inr t ↦ (
        (finish_block size newsize p).1,
        rw (some_size, found, t, high_page, address) refl,
        finish_block-indexed pos size newsize p here,
      )
    ]
