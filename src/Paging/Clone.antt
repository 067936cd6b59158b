-- ===== src/Paging/Clone.antt =====
-- `clone_table` gives the copy of a table frames of its own.
use nupkux.Base.{
  ℕ, zero, suc, ◌+◌, ◌%◌, ◌^◌, ◌==◌, ◌<◌, ◌≤◌, ◌≡◌, ◌≢◌, refl, sym, ◌∙◌, ap, inl, inr,
  if◌then◌else◌, List, [], get_or, length, length-set, get_or-set_self, get_or-set_ne, true, false,
  Option, some, eq_or_ne, arith, not_both, length-replicate, replicate,
}
use nupkux.Paging.{
  Page, Cloning, no_page, copied, clone_entry, clone_down, table_size, empty_table, clone_table,
}
use nupkux.Paging.Frames.{used, frames, Marked, IsTaken, alloc_frame_lem}

-- How many of the first `n` frames are free, and how many of the first `n` entries have a frame.
abbrev pub free_below : List ℕ → ℕ → ℕ
free_below map zero = 0
free_below map (suc n) = (if used map n then 0 else 1) + free_below map n

abbrev pub mapped : List Page → ℕ → ℕ
mapped table zero = 0
mapped table (suc n) = (if (get_or table n no_page).frame == 0 then 0 else 1) + mapped table n

free_below_same :
    (n N : ℕ) (map map' : List ℕ)
    → Marked true n map map'
    → N ≤ n
    → free_below map' N ≡ free_below map N
free_below_same n zero map map' h l = refl
free_below_same n (suc N) map map' h l =
    rw (h.other N (omega (arith, l)), free_below_same n N map map' h (omega (arith, l))) refl

free_below_taken :
    (n N : ℕ) (map map' : List ℕ)
    → Marked true n map map'
    → used map n ≡ false
    → n < N
    → free_below map N ≡ suc (free_below map' N)
free_below_taken n zero map map' h u l = elim l [ ]
free_below_taken n (suc N) map map' h u l = elim (eq_or_ne n N) [
  | inl e ↦
      let now : used map' N ≡ true = ap (λ i. used map' i) (sym e) ∙ h.here in
      let then' : used map N ≡ false = ap (λ i. used map i) (sym e) ∙ u in
      rw (now, then', free_below_same n N map map' h (omega arith)) (omega arith)
  | inr ne ↦
      let rest = free_below_taken n N map map' h u (omega arith) in
      let same : used map' N ≡ used map N = h.other N ne in rw (same, rest) (omega arith)
]

full_free : (N : ℕ) (map : List ℕ) → ((k : ℕ) → k < N → used map k ≡ true) → free_below map N ≡ 0
full_free zero map h = refl
full_free (suc N) map h = rw (h N (omega arith), full_free N map (λ k l. h k (omega arith))) refl

-- Entries of a copy `t` of `src` below `i`: frames that were free in `map`, are taken in `map'` and
-- differ from each other.
pub record IsClone (i : ℕ) (src t : List Page) (map map' : List ℕ) : Type 0 where
  pub size : length map' ≡ length map
  pub stays : (f : ℕ) → used map f ≡ true → used map' f ≡ true
  pub absent : (k : ℕ) → k < i → (get_or src k no_page).frame ≡ 0 → get_or t k no_page ≡ no_page
  pub flags :
      (k : ℕ)
      → k < i
      → (get_or src k no_page).frame ≢ 0
      → (get_or t k no_page).flags ≡ (get_or src k no_page).flags % 2 ^ 12
  pub fresh :
      (k : ℕ)
      → k < i
      → (get_or src k no_page).frame ≢ 0
      → (used map (get_or t k no_page).frame ≡ false)
        × (used map' (get_or t k no_page).frame ≡ true)
  pub apart :
      (k l : ℕ)
      → k < i
      → l < i
      → (get_or src k no_page).frame ≢ 0
      → (get_or src l no_page).frame ≢ 0
      → k ≢ l
      → (get_or t k no_page).frame ≢ (get_or t l no_page).frame

-- The entries from `i` on stay.
abbrev pub Above : ℕ → List Page → List Page → Type 0
Above i t t' = (k : ℕ) → i ≤ k → get_or t' k no_page ≡ get_or t k no_page

-- What `clone_down` starts from.
pub record IsOpen (i : ℕ) (c : Cloning) : Type 0 where
  pub room : i ≤ length c.entries
  pub blank : (k : ℕ) → k < i → get_or c.entries k no_page ≡ no_page
  pub small : frames c.framemap ≤ 2 ^ 20

-- What it ends with.
abbrev pub Cloned : ℕ → List Page → Cloning → Option Cloning → Type 0
Cloned i src c o =
    (c' : Cloning) × (o ≡ some c')
    × Above i c.entries c'.entries
    × IsClone i src c'.entries c.framemap c'.framemap

Open_on : (i : ℕ) (c : Cloning) → IsOpen (suc i) c → IsOpen i c
Open_on i c h = record {
  room = omega (arith, h.room);
  blank = λ k l. h.blank k (omega arith);
  small = h.small;
}

Open_taken :
    (i : ℕ) (c : Cloning) (f : ℕ) (p : Page) (map : List ℕ)
    → IsOpen (suc i) c
    → length map ≡ length c.framemap
    → IsOpen i (copied c i f (p, map))
Open_taken i c f p map h e = record {
  room = omega (arith, h.room, length-set c.entries i p);
  blank = λ k l. get_or-set_ne c.entries i k p no_page (omega arith) ∙ h.blank k (omega arith);
  small = omega (arith, h.small, e);
}

-- An entry without a frame.
clone_absent :
    (i : ℕ) (src : List Page) (c : Cloning) (o : Option Cloning)
    → IsOpen (suc i) c
    → (get_or src i no_page).frame ≡ 0
    → Cloned i src c o
    → Cloned (suc i) src c o
clone_absent i src c o h zero_frame (c', e, above, clone) =
    let entry : get_or c'.entries i no_page ≡ no_page =
      above i (omega arith) ∙ h.blank i (omega arith) in
    let lower : (k : ℕ) → k < suc i → (get_or src k no_page).frame ≢ 0 → k < i = (λ k l ne.
      elim (eq_or_ne k i) [
        | inl e' ↦ absurd (ne (ap (λ j. (get_or src j no_page).frame) e' ∙ zero_frame))
        | inr ne' ↦ omega arith
      ]) in
    (
      c',
      e,
      (λ k l. above k (omega arith)),
      record {
        size = clone.size;
        stays = clone.stays;
        absent = λ k l z. elim (eq_or_ne k i) [
          | inl e' ↦ ap (λ j. get_or c'.entries j no_page) e' ∙ entry
          | inr ne ↦ clone.absent k (omega arith) z
        ];
        flags = λ k l ne. clone.flags k (lower k l ne) ne;
        fresh = λ k l ne. clone.fresh k (lower k l ne) ne;
        apart = λ k m l l' ne ne'. clone.apart k m (lower k l ne) (lower m l' ne') ne ne';
      },
    )

-- An entry whose copy gets the frame of `p`.
clone_present :
    (i : ℕ) (src : List Page) (c : Cloning) (p : Page) (map : List ℕ) (o : Option Cloning)
    → IsOpen (suc i) c
    → (get_or src i no_page).frame ≢ 0
    → IsTaken c.framemap (get_or src i no_page).flags p map
    → Cloned i src (copied c i (get_or src i no_page).frame (p, map)) o
    → Cloned (suc i) src c o
clone_present i src c p map o h has taken (c', e, above, clone) =
    let entry : get_or c'.entries i no_page ≡ p =
      above i (omega arith) ∙ get_or-set_self c.entries i p no_page (omega (arith, h.room)) in
    let frame : (get_or c'.entries i no_page).frame ≡ p.frame = ap (λ q. q.frame) entry in
    let stays : (f : ℕ) → used c.framemap f ≡ true → used c'.framemap f ≡ true = (λ f u.
      clone.stays f (elim (eq_or_ne p.frame f) [
        | inl e' ↦ ap (λ j. used map j) (sym e') ∙ taken.marked.here
        | inr ne ↦ taken.marked.other f ne ∙ u
      ])) in
    let new : (k : ℕ)
        → k < i
        → (get_or src k no_page).frame ≢ 0
        → p.frame ≢ (get_or c'.entries k no_page).frame =
      (λ k l ne e'.
        not_both (used map (get_or c'.entries k no_page).frame)
          (ap (λ j. used map j) (sym e') ∙ taken.marked.here) ((clone.fresh k l ne).0)) in
    (
      c',
      e,
      (λ k l. above k (omega arith) ∙ get_or-set_ne c.entries i k p no_page (omega arith)),
      record {
        size = clone.size ∙ taken.marked.size;
        stays = stays;
        absent = λ k l z. elim (eq_or_ne k i) [
          | inl e' ↦ absurd (has (ap (λ j. (get_or src j no_page).frame) (sym e') ∙ z))
          | inr ne ↦ clone.absent k (omega arith) z
        ];
        flags = λ k l ne. elim (eq_or_ne k i) [
          | inl e' ↦ rw e' (ap (λ q. q.flags) entry ∙ taken.flags_set)
          | inr ne' ↦ clone.flags k (omega arith) ne
        ];
        fresh = λ k l ne. elim (eq_or_ne k i) [
          | inl e' ↦ rw (e', frame) (taken.unused, clone.stays p.frame taken.marked.here)
          | inr ne' ↦
              let (before, after) = clone.fresh k (omega arith) ne in
              (
                sym (
                      taken.marked.other (get_or c'.entries k no_page).frame
                        (new k (omega arith) ne))
                    ∙ before,
                after,
              )
        ];
        apart = λ k m l l' ne ne' differ. elim (eq_or_ne k i) [
          | inl e' ↦ λ same.
              new m (omega arith) ne'
                (sym frame ∙ ap (λ j. (get_or c'.entries j no_page).frame) (sym e') ∙ same)
          | inr nk ↦ elim (eq_or_ne m i) [
            | inl e' ↦ λ same.
                new k (omega arith) ne
                  (sym frame ∙ ap (λ j. (get_or c'.entries j no_page).frame) (sym e') ∙ sym same)
            | inr nm ↦ clone.apart k m (omega arith) (omega arith) ne ne' differ
          ]
        ];
      },
    )

clone_down-Cloned :
    (i : ℕ) (src : List Page) (c : Cloning)
    → IsOpen i c
    → mapped src i ≤ free_below c.framemap (frames c.framemap)
    → Cloned i src c (clone_down i src c)
unfolding clone_entry
clone_down-Cloned zero src c h l = (
  c,
  refl,
  (λ k l'. refl),
  record {
    size = refl;
    stays = λ f u. u;
    absent = λ k l'. absurd (omega (arith, l'));
    flags = λ k l'. absurd (omega (arith, l'));
    fresh = λ k l'. absurd (omega (arith, l'));
    apart = λ k m l' l''. absurd (omega (arith, l'));
  },
)
clone_down-Cloned (suc i) src c h l = elim (eq_or_ne (get_or src i no_page).frame 0) [
  | inl e ↦
      let test : ((get_or src i no_page).frame == 0) ≡ true = ground (arith, e) in
      let fits : mapped src i ≤ free_below c.framemap (frames c.framemap) =
        (let l' = rw test at l in omega (arith, l')) in
      rw test (
        clone_absent i src c (clone_down i src c) h e
          (clone_down-Cloned i src c (Open_on i c h) fits))
  | inr ne ↦
      let test : ((get_or src i no_page).frame == 0) ≡ false = ground (arith, ne) in
      let l' = rw test at l in
      elim (alloc_frame_lem c.framemap (get_or c.entries i no_page) (get_or src i no_page).flags
        (ap (λ q. q.frame) (h.blank i (omega arith))) h.small) [
          | inl (full, fault) ↦
              absurd (omega (arith, l', full_free (frames c.framemap) c.framemap full))
          | inr (p, map, eq, taken) ↦
              let less =
                free_below_taken p.frame (frames c.framemap) c.framemap map taken.marked
                  taken.unused taken.inside in
              let fits : mapped src i ≤ free_below map (frames map) =
                rw taken.marked.size (omega (arith, less, l')) in
              rw (test, eq)
                (clone_present i src c p map
                  (clone_down i src (copied c i (get_or src i no_page).frame (p, map))) h ne taken
                  (clone_down-Cloned i src (copied c i (get_or src i no_page).frame (p, map))
                    (Open_taken i c (get_or src i no_page).frame p map h taken.marked.size) fits))
        ]
]

blank_table : (n k : ℕ) → get_or (replicate n no_page) k no_page ≡ no_page
blank_table zero k = refl
blank_table (suc n) zero = refl
blank_table (suc n) (suc k) = blank_table n k

-- Where the map has a free frame for each entry of the source that has one, `clone_table` gives each
-- of them a frame that was free, with its flags and no frame twice; what was taken stays taken.
pub clone_table-IsClone :
    (src : List Page) (map : List ℕ)
    → frames map ≤ 2 ^ 20
    → mapped src table_size ≤ free_below map (frames map)
    → (c : Cloning) × (clone_table src map ≡ some c)
      × IsClone table_size src c.entries map c.framemap
unfolding clone_table
clone_table-IsClone src map l fits =
    let start : Cloning = record { framemap = map; entries = empty_table; copies = [] } in
    let (c, e, above, clone) =
      clone_down-Cloned table_size src start
        (record {
          room = omega (arith, length-replicate table_size no_page);
          blank = λ k l'. blank_table table_size k;
          small = l;
        })
        fits in
    (c, e, clone)
