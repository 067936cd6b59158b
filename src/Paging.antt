-- ===== src/Paging.antt =====
-- The map of frames and the page tables: src/mm/paging.c.
pub mod Frames
pub mod Clone
pub mod Directory
pub mod Lookup
mod Tests
use nupkux.Base.{
  ℕ, zero, suc, ◌+◌, ◌-◌, ◌*◌, ◌/◌, ◌%◌, ◌^◌, ◌==◌, if◌then◌else◌, List, [], ◌∷◌, get_or, get_elem?,
  set, length, ltb, replicate, Bool, true, false, not, Option, none, some, store, ◌>>=◌, ◌++◌,
}

-- Bit `j` of a word.
abbrev pub bit : ℕ → ℕ → Bool
bit w zero = w % 2 == 1
bit w (suc j) = bit (w / 2) j

-- `w |= 1 << j` and `w &= ~(1 << j)`
abbrev pub put_bit : Bool → ℕ → ℕ → ℕ
put_bit b w zero = (w / 2) * 2 + (if b then 1 else 0)
put_bit b w (suc j) = put_bit b (w / 2) j * 2 + w % 2

abbrev pub no_frame : ℕ
no_frame = 2 ^ 32 - 1

-- The loop of `first_frame` over the bits of a word; `left` bits follow bit `j`.
abbrev pub first_bit : ℕ → ℕ → ℕ → Option ℕ
first_bit w j zero = none
first_bit w j (suc left) = let later = first_bit w (suc j) left in if bit w j then later else some j

-- `first_frame` on the words from the `i`-th one on.
abbrev pub frame_at : ℕ → ℕ → Option ℕ → ℕ
frame_at i later none = later
frame_at i later (some j) = i * 32 + j

abbrev pub frame_from : ℕ → List ℕ → ℕ
frame_from i [] = no_frame
frame_from i (w ∷ ws) =
    let later = frame_from (suc i) ws in
    if w == no_frame then later else frame_at i later (first_bit w 0 32)

unfoldable pub first_frame : List ℕ → ℕ
first_frame framemap = frame_from 0 framemap

-- `struct _page`: 12 bits of flags and 20 bits for the frame.
pub record Page : Type 0 where
  pub flags : ℕ
  pub frame : ℕ

-- `framemap[number/32] |= (1 << (number % 32))` and its inverse; `none` is an access behind the map.
unfoldable pub mark : Bool → List ℕ → ℕ → Option (List ℕ)
mark b framemap number =
    store framemap (number / 32) (put_bit b (get_or framemap (number / 32) 0) (number % 32))

abbrev pub page_of : ℕ → ℕ → Page
page_of number flags = record { flags = flags % 2 ^ 12; frame = number % 2 ^ 20 }

-- The page and the map behind `alloc_frame`.
unfoldable pub alloc_frame : List ℕ → Page → ℕ → Option (Page × List ℕ)
alloc_frame framemap apage flags =
    let number = first_frame framemap in
    if apage.frame == 0
    then (mark true framemap number >>= λ map. some (page_of number flags, map))
    else some (apage, framemap)

unfoldable pub free_frame : List ℕ → Page → Option (Page × List ℕ)
free_frame framemap apage =
    let freed : Page = record apage { frame = 0 } in
    if apage.frame == 0
    then some (freed, framemap)
    else mark false framemap apage.frame >>= λ map. some (freed, map)

-- A loop of `clone_table`: the map, the entries of the new table, and the pages that `clone_page`
-- has copied, the latest first, as pairs of frames.
pub record Cloning : Type 0 where
  pub framemap : List ℕ
  pub entries : List Page
  pub copies : List (ℕ × ℕ)

abbrev pub no_page : Page
no_page = record { flags = 0; frame = 0 }

abbrev pub copied : Cloning → ℕ → ℕ → Page × List ℕ → Cloning
copied c i src (apage, map) = record {
  framemap = map;
  entries = set c.entries i apage;
  copies = (src, apage.frame) ∷ c.copies;
}

unfoldable pub clone_entry : Page → ℕ → Cloning → Option Cloning
clone_entry src i c =
    if src.frame == 0
    then some c
    else alloc_frame c.framemap (get_or c.entries i no_page) src.flags >>= λ r.
        some (copied c i src.frame r)

-- `while (i--)` of `clone_table`
abbrev pub clone_down : ℕ → List Page → Cloning → Option Cloning
clone_down zero src c = some c
clone_down (suc i) src c = clone_entry (get_or src i no_page) i c >>= clone_down i src

abbrev pub table_size : ℕ
table_size = 1024

abbrev pub empty_table : List Page
empty_table = replicate table_size no_page

unfoldable pub clone_table : List Page → List ℕ → Option Cloning
clone_table src framemap =
    clone_down table_size src (record { framemap = framemap; entries = empty_table; copies = [] })

-- `while (i--)` of `free_table`: the frames of a table are free again.
abbrev pub free_down : ℕ → List Page → List ℕ → Option (List ℕ)
free_down zero table framemap = some framemap
free_down (suc i) table framemap =
    let number = (get_or table i no_page).frame in
    (if number == 0 then some framemap else mark false framemap number) >>= free_down i table

unfoldable pub free_table : List Page → List ℕ → Option (List ℕ)
free_table table framemap = free_down table_size table framemap
