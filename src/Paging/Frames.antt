-- ===== src/Paging/Frames.antt =====
-- The map of frames: `first_frame` finds the first free one, `alloc_frame` takes it, and
-- `free_frame` gives it back.
use nupkux.Base.{
  ℕ, zero, suc, ◌+◌, ◌-◌, ◌*◌, ◌/◌, ◌%◌, ◌^◌, ◌==◌, ◌<◌, ◌≤◌, ◌≡◌, ◌≢◌, ◌⊎◌, refl, sym, ◌∙◌, ap,
  inl, inr, if◌then◌else◌, List, [], ◌∷◌, get_or, set, length, length-set, get_or-set_self,
  get_or-set_ne, store-in, store-outside, Bool, true, false, Option, none, some, subst, Bool-cases,
  eq_or_ne, lt_or_ge, arith, ◌&&◌,
}
use nupkux.Paging.{
  bit, put_bit, no_frame, first_bit, frame_at, frame_from, first_frame, mark, Page, page_of,
  alloc_frame, free_frame,
}

-- Is frame `n` taken?
abbrev pub used : List ℕ → ℕ → Bool
used map n = bit (get_or map (n / 32) 0) (n % 32)

abbrev pub frames : List ℕ → ℕ
frames map = 32 * length map

pub record IsFirst (map : List ℕ) (n : ℕ) : Type 0 where
  pub inside : n < frames map
  pub unused : used map n ≡ false
  pub below : (k : ℕ) → k < n → used map k ≡ true

abbrev pub IsFull : List ℕ → Type 0
IsFull map = (k : ℕ) → k < frames map → used map k ≡ true

-- Bits of a word.
even_half : (n : ℕ) (b : Bool) → (n * 2 + (if b then 1 else 0)) / 2 ≡ n
even_half n true = omega arith
even_half n false = omega arith

odd_half : (p w : ℕ) → (p * 2 + w % 2) / 2 ≡ p
odd_half p w = omega arith

low_bit : (n : ℕ) (b : Bool) → ((n * 2 + (if b then 1 else 0)) % 2 == 1) ≡ b
low_bit n true = ground arith
low_bit n false = ground arith

keep_low : (p w : ℕ) → ((p * 2 + w % 2) % 2 == 1) ≡ (w % 2 == 1)
keep_low p w = ap (λ n. n == 1) (omega arith)

pub bit-put_bit : (b : Bool) (w j : ℕ) → bit (put_bit b w j) j ≡ b
bit-put_bit b w zero = low_bit (w / 2) b
bit-put_bit b w (suc j) =
    ap (λ n. bit n j) (odd_half (put_bit b (w / 2) j) w) ∙ bit-put_bit b (w / 2) j

pub bit-put_bit_ne : (b : Bool) (w j i : ℕ) → j ≢ i → bit (put_bit b w j) i ≡ bit w i
bit-put_bit_ne b w zero zero h = absurd (h refl)
bit-put_bit_ne b w zero (suc i) h = ap (λ n. bit n i) (even_half (w / 2) b)
bit-put_bit_ne b w (suc j) zero h = keep_low (put_bit b (w / 2) j) w
bit-put_bit_ne b w (suc j) (suc i) h =
    ap (λ n. bit n i) (odd_half (put_bit b (w / 2) j) w)
    ∙ bit-put_bit_ne b (w / 2) j i (λ e. h (ap suc e))

-- Every bit of the full word is set.
abbrev all_bits : ℕ → ℕ → Bool
all_bits w zero = true
all_bits w (suc n) = bit w n && all_bits w n

all_bits-bit : (w n k : ℕ) → all_bits w n ≡ true → k < n → bit w k ≡ true
all_bits-bit w zero k h l = elim l [ ]
all_bits-bit w (suc n) k h l = elim (eq_or_ne k n) [
  | inl e ↦ ap (λ i. bit w i) e ∙ ground (arith, h)
  | inr ne ↦ all_bits-bit w n k (ground (arith, h)) (omega arith)
]

full_word : (w k : ℕ) → (w == no_frame) ≡ true → k < 32 → bit w k ≡ true
full_word w k h l = ap (λ n. bit n k) (ground (arith, h)) ∙ all_bits-bit no_frame 32 k refl l

-- What the loop over the bits finds from bit `j` on.
abbrev Found : ℕ → ℕ → ℕ → Option ℕ → Type 0
Found w j left none = (k : ℕ) → j ≤ k → k < j + left → bit w k ≡ true
Found w j left (some n) =
    (j ≤ n) × (n < j + left) × (bit w n ≡ false) × ((k : ℕ) → j ≤ k → k < n → bit w k ≡ true)

found_later :
    (w j left : ℕ) (o : Option ℕ) → bit w j ≡ true → Found w (suc j) left o → Found w j (suc left) o
found_later w j left none e h = λ k l l'. elim (eq_or_ne j k) [
  | inl e' ↦ ap (λ i. bit w i) (sym e') ∙ e
  | inr ne ↦ h k (omega arith) (omega arith)
]
found_later w j left (some n) e (l, l', here, below) = (
  omega arith,
  omega arith,
  here,
  λ k m m'. elim (eq_or_ne j k) [
    | inl e' ↦ ap (λ i. bit w i) (sym e') ∙ e
    | inr ne ↦ below k (omega arith) m'
  ],
)

first_bit-Found : (w j left : ℕ) → Found w j left (first_bit w j left)
first_bit-Found w j zero = λ k l l'. absurd (omega arith)
first_bit-Found w j (suc left) = elim (Bool-cases (bit w j)) [
  | inl e ↦
      rw e (found_later w j left (first_bit w (suc j) left) e (first_bit-Found w (suc j) left))
  | inr e ↦ rw e (omega arith, omega arith, e, λ k l l'. absurd (omega arith))
]

used_here : (w : ℕ) (ws : List ℕ) (k : ℕ) → k < 32 → used (w ∷ ws) k ≡ bit w k
used_here w ws k l =
    let word : k / 32 ≡ 0 = omega arith in
    let place : k % 32 ≡ k = omega arith in
    ap (λ n. bit (get_or (w ∷ ws) n 0) (k % 32)) word ∙ ap (λ n. bit w n) place

used_later : (w : ℕ) (ws : List ℕ) (k : ℕ) → used (w ∷ ws) (32 + k) ≡ used ws k
used_later w ws k =
    let word : (32 + k) / 32 ≡ suc (k / 32) = omega arith in
    let place : (32 + k) % 32 ≡ k % 32 = omega arith in
    ap (λ n. bit (get_or (w ∷ ws) n 0) ((32 + k) % 32)) word
    ∙ ap (λ n. bit (get_or ws (k / 32) 0) n) place

used_beyond : (w : ℕ) (ws : List ℕ) (k : ℕ) → 32 ≤ k → used (w ∷ ws) k ≡ used ws (k - 32)
used_beyond w ws k l =
    let split : k ≡ 32 + (k - 32) = omega arith in
    ap (λ n. used (w ∷ ws) n) split ∙ used_later w ws (k - 32)

-- What the loop over the words finds, from word `i` on.
abbrev Result : List ℕ → ℕ → ℕ → Type 0
Result ws i r = ((r ≡ no_frame) × IsFull ws) ⊎ ((n : ℕ) × (r ≡ i * 32 + n) × IsFirst ws n)

full_then :
    (w : ℕ) (ws : List ℕ) (i r : ℕ)
    → ((k : ℕ) → k < 32 → bit w k ≡ true)
    → Result ws (suc i) r
    → Result (w ∷ ws) i r
full_then w ws i r full (inl (e, rest)) = inl (
  e,
  λ k l. elim (lt_or_ge k 32) [
    | inl h ↦ used_here w ws k h ∙ full k h
    | inr h ↦ used_beyond w ws k h ∙ rest (k - 32) (omega arith)
  ],
)
full_then w ws i r full (inr (n, e, h)) = inr (
  32 + n,
  omega arith,
  record {
    inside = omega (arith, h.inside);
    unused = used_later w ws n ∙ h.unused;
    below = λ k l. elim (lt_or_ge k 32) [
      | inl h' ↦ used_here w ws k h' ∙ full k h'
      | inr h' ↦ used_beyond w ws k h' ∙ h.below (k - 32) (omega arith)
    ];
  },
)

word-Result :
    (w : ℕ) (ws : List ℕ) (i r : ℕ) (o : Option ℕ)
    → Found w 0 32 o
    → Result ws (suc i) r
    → Result (w ∷ ws) i (frame_at i r o)
word-Result w ws i r none h rest = full_then w ws i r (λ k l. h k (omega arith) l) rest
word-Result w ws i r (some n) (l, l', here, below) rest = inr (
  n,
  refl,
  record {
    inside = omega (arith, l');
    unused = used_here w ws n l' ∙ here;
    below = λ k m. used_here w ws k (omega (arith, l', m)) ∙ below k (omega arith) m;
  },
)

frame_from-Result : (i : ℕ) (ws : List ℕ) → Result ws i (frame_from i ws)
frame_from-Result i [] = inl (refl, λ k l. absurd (omega (arith, l)))
frame_from-Result i (w ∷ ws) = elim (Bool-cases (w == no_frame)) [
  | inl e ↦ rw e (
      full_then w ws i (frame_from (suc i) ws) (λ k l. full_word w k e l)
        (frame_from-Result (suc i) ws))
  | inr e ↦ rw e (
      word-Result w ws i (frame_from (suc i) ws) (first_bit w 0 32) (first_bit-Found w 0 32)
        (frame_from-Result (suc i) ws))
]

-- `first_frame` finds the first free frame, or gives 0xFFFFFFFF where every frame is taken.
pub first_frame_lem :
    (map : List ℕ) → ((first_frame map ≡ no_frame) × IsFull map) ⊎ IsFirst map (first_frame map)
unfolding first_frame
first_frame_lem map = elim (frame_from-Result 0 map) [
  | inl h ↦ inl h
  | inr (n, e, h) ↦ inr (subst (λ r. IsFirst map r) (sym (e ∙ omega arith)) h)
]

-- A map in which frame `n` is set to `b`.
pub record Marked (b : Bool) (n : ℕ) (map map' : List ℕ) : Type 0 where
  pub size : length map' ≡ length map
  pub here : used map' n ≡ b
  pub other : (k : ℕ) → n ≢ k → used map' k ≡ used map k

used-set_ne :
    (b : Bool) (map : List ℕ) (n k : ℕ)
    → n / 32 < length map
    → n ≢ k
    → used (set map (n / 32) (put_bit b (get_or map (n / 32) 0) (n % 32))) k ≡ used map k
used-set_ne b map n k l ne =
    let word : ℕ = put_bit b (get_or map (n / 32) 0) (n % 32) in
    elim (eq_or_ne (n / 32) (k / 32)) [
      | inl e ↦
          ap (λ i. bit (get_or (set map (n / 32) word) i 0) (k % 32)) (sym e)
          ∙ ap (λ w. bit w (k % 32)) (get_or-set_self map (n / 32) word 0 l)
          ∙ bit-put_bit_ne b (get_or map (n / 32) 0) (n % 32) (k % 32)
              (λ e'. ne (omega (arith, e, e')))
          ∙ ap (λ i. bit (get_or map i 0) (k % 32)) e
      | inr ne' ↦ ap (λ w. bit w (k % 32)) (get_or-set_ne map (n / 32) (k / 32) word 0 ne')
    ]

pub mark-Marked :
    (b : Bool) (map : List ℕ) (n : ℕ)
    → n < frames map
    → (map' : List ℕ) × (mark b map n ≡ some map') × Marked b n map map'
unfolding mark
mark-Marked b map n l =
    let inside : n / 32 < length map = omega arith in
    let word : ℕ = put_bit b (get_or map (n / 32) 0) (n % 32) in
    (
      set map (n / 32) word,
      store-in map (n / 32) word inside,
      record {
        size = length-set map (n / 32) word;
        here =
            ap (λ w. bit w (n % 32)) (get_or-set_self map (n / 32) word 0 inside)
            ∙ bit-put_bit b (get_or map (n / 32) 0) (n % 32);
        other = λ k ne. used-set_ne b map n k inside ne;
      },
    )

-- The page and the map behind a frame that was taken for it.
pub record IsTaken (map : List ℕ) (flags : ℕ) (apage : Page) (map' : List ℕ) : Type 0 where
  pub unused : used map apage.frame ≡ false
  pub inside : apage.frame < frames map
  pub flags_set : apage.flags ≡ flags % 2 ^ 12
  pub marked : Marked true apage.frame map map'

outside : (b : Bool) (map : List ℕ) (n : ℕ) → frames map ≤ n → mark b map n ≡ none
unfolding mark
outside b map n l =
    store-outside map (n / 32) (put_bit b (get_or map (n / 32) 0) (n % 32)) (omega arith)

-- With at most 2^20 frames, `alloc_frame` for a page that has none takes a free frame and marks it,
-- or writes outside the map, where every frame is taken.
pub alloc_frame_lem :
    (map : List ℕ) (apage : Page) (flags : ℕ)
    → apage.frame ≡ 0
    → frames map ≤ 2 ^ 20
    → (IsFull map × (alloc_frame map apage flags ≡ none))
      ⊎ ((taken : Page) × (map' : List ℕ) × (alloc_frame map apage flags ≡ some (taken, map'))
          × IsTaken map flags taken map')
unfolding alloc_frame
alloc_frame_lem map apage flags e l = elim (first_frame_lem map) [
  | inl (none_left, full) ↦
      let fault : mark true map (first_frame map) ≡ none =
        rw none_left (outside true map no_frame (omega arith)) in
      inl (full, rw (e, fault) refl)
  | inr first ↦
      let (map', eq, marked) = mark-Marked true map (first_frame map) first.inside in
      let short : first_frame map % 2 ^ 20 ≡ first_frame map = omega (arith, first.inside) in
      inr (
        page_of (first_frame map) flags,
        map',
        rw (e, eq) refl,
        record {
          unused = rw short first.unused;
          inside = rw short first.inside;
          flags_set = refl;
          marked = rw short marked;
        },
      )
]

-- `free_frame` takes the frame away from the page and frees it in the map.
pub free_frame_lem :
    (map : List ℕ) (apage : Page)
    → apage.frame ≢ 0
    → apage.frame < frames map
    → (map' : List ℕ) × (free_frame map apage
        ≡ some (record { flags = apage.flags; frame = 0 }, map'))
      × Marked false apage.frame map map'
unfolding free_frame
free_frame_lem map apage ne l =
    let (map', eq, marked) = mark-Marked false map apage.frame l in
    let has_frame : (apage.frame == 0) ≡ false = ground (arith, ne) in
    (map', rw (has_frame, eq) refl, marked)

Marked-back :
    (n : ℕ) (map map' map'' : List ℕ)
    → used map n ≡ false
    → Marked true n map map'
    → Marked false n map' map''
    → (k : ℕ) → used map'' k ≡ used map k
Marked-back n map map' map'' free h h' k = elim (eq_or_ne n k) [
  | inl e ↦ ap (λ i. used map'' i) (sym e) ∙ h'.here ∙ sym free ∙ ap (λ i. used map i) e
  | inr ne ↦ h'.other k ne ∙ h.other k ne
]

-- `free_frame` behind an `alloc_frame` that took a frame other than 0 leaves the map as it was.
pub alloc_frame-free_frame :
    (map : List ℕ) (flags : ℕ) (taken : Page) (map' : List ℕ)
    → IsTaken map flags taken map'
    → taken.frame ≢ 0
    → (map'' : List ℕ) × (free_frame map' taken
        ≡ some (record { flags = taken.flags; frame = 0 }, map''))
      × ((k : ℕ) → used map'' k ≡ used map k)
alloc_frame-free_frame map flags taken map' h ne =
    let (map'', eq, marked) =
      free_frame_lem map' taken ne (omega (arith, h.inside, h.marked.size)) in
    (map'', eq, Marked-back taken.frame map map' map'' h.unused h.marked marked)
