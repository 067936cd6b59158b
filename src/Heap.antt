-- ===== src/Heap.antt =====
-- The kernel's heap, src/mm/mm.c: headers and footers in memory, and the index of holes.
pub mod Alloc
pub mod Index
pub mod Aligned
mod Tests
use nupkux.Base.{
  ℕ, zero, suc, ◌+◌, ◌-◌, ◌*◌, ◌/◌, ◌%◌, ◌^◌, ◌==◌, ltb, leb, if◌then◌else◌, List, [], ◌∷◌, ◌++◌,
  Bool, true, false, not, ◌&&◌, ◌||◌, Option, none, some, get_or, length,
}

-- UINT: a difference wraps around.
abbrev pub sub32 : ℕ → ℕ → ℕ
sub32 a b = (a + 2 ^ 32 - b % 2 ^ 32) % 2 ^ 32

-- The bytes of the memory by their addresses.
abbrev pub Bytes : Type 0
Bytes = ℕ → ℕ

abbrev pub read32 : Bytes → ℕ → ℕ
read32 m a = m a + 256 * (m (a + 1) + 256 * (m (a + 2) + 256 * m (a + 3)))

abbrev pub write8 : Bytes → ℕ → ℕ → Bytes
write8 m a v = λ b. if b == a then v % 256 else m b

unfoldable pub write32 : Bytes → ℕ → ℕ → Bytes
write32 m a v =
    write8 (write8 (write8 (write8 m a v) (a + 1) (v / 256)) (a + 2) (v / 65536)) (a + 3)
      (v / 16777216)

abbrev pub mm_magic : ℕ
mm_magic = 1752462674

-- sizeof(mm_header) and sizeof(mm_footer)
abbrev pub header_size : ℕ
header_size = 8

abbrev pub footer_size : ℕ
footer_size = 8

-- `struct _mm_header`: the magic number, and 31 bits of the size below the flag
abbrev pub size_of : Bytes → ℕ → ℕ
size_of m a = read32 m (a + 4) % 2 ^ 31

abbrev pub is_hole : Bytes → ℕ → Bool
is_hole m a = read32 m (a + 4) / 2 ^ 31 == 1

abbrev pub has_magic : Bytes → ℕ → Bool
has_magic m a = read32 m a == mm_magic

abbrev pub put_magic : ℕ → Bytes → Bytes
put_magic a m = write32 m a mm_magic

abbrev pub put_size : ℕ → ℕ → Bytes → Bytes
put_size a size m = write32 m (a + 4) (size % 2 ^ 31 + read32 m (a + 4) / 2 ^ 31 * 2 ^ 31)

abbrev pub put_flag : ℕ → Bool → Bytes → Bytes
put_flag a hole m = write32 m (a + 4) (size_of m a + (if hole then 2 ^ 31 else 0))

-- `footer->header`
abbrev pub owner : Bytes → ℕ → ℕ
owner m a = read32 m (a + 4)

abbrev pub put_owner : ℕ → ℕ → Bytes → Bytes
put_owner a header m = write32 m (a + 4) header

-- The calls of `make_page` and `free_page` for an address, the latest first
pub data PageCall : Type 0 where
  made freed : ℕ → PageCall

-- `struct _heap`, whose entries are the first `entrycount` of the array, and the memory.
pub record Heap : Type 0 where
  pub entries : List ℕ
  pub start : ℕ
  pub stop : ℕ
  pub memend : ℕ
  pub bytes : Bytes
  pub pages : List PageCall

abbrev pub in_memory : (Bytes → Bytes) → Heap → Heap
in_memory f h = record h { bytes = f h.bytes }

abbrev pub frame_size : ℕ
frame_size = 4096

-- ASSERT_ALIGN
abbrev pub assert_align : ℕ → ℕ
assert_align v =
    if v % frame_size == 0 then v else (v / frame_size * frame_size + frame_size) % 2 ^ 32

-- The loop of `expand_heap`, with as many turns left as the size has pages.
abbrev pub make_pages : ℕ → ℕ → ℕ → ℕ → List PageCall → List PageCall
make_pages start i new_size zero pages = pages
make_pages start i new_size (suc left) pages =
    let rest = make_pages start (i + frame_size) new_size left (made (start + i) ∷ pages) in
    if ltb i new_size then rest else pages

unfoldable pub expand_heap : ℕ → Heap → Heap
expand_heap new_size h =
    let old = sub32 h.stop h.start in
    let aligned = assert_align new_size in
    let grown : Heap = record h {
      pages = make_pages h.start old aligned (aligned / frame_size + 1) h.pages;
      stop = (h.start + aligned) % 2 ^ 32;
    } in
    if leb new_size old then h else if ltb h.memend ((h.start + aligned) % 2 ^ 32) then h else grown

-- The loop of `contract_heap`; `i` goes down from the last page.
abbrev pub free_pages : ℕ → ℕ → ℕ → ℕ → List PageCall → List PageCall
free_pages start i new_size zero pages = pages
free_pages start i new_size (suc left) pages =
    let rest = free_pages start (i - frame_size) new_size left (freed (start + i) ∷ pages) in
    if ltb new_size i then rest else pages

abbrev pub kheap_min : ℕ
kheap_min = 1048576

-- `contract_heap`: the size that is left, and the heap.
unfoldable pub contract_heap : ℕ → Heap → ℕ × Heap
contract_heap new_size h =
    let old = sub32 h.stop h.start in
    let aligned = assert_align new_size in
    let size = if ltb aligned kheap_min then kheap_min else aligned in
    if leb old new_size then (old, h) else (
      size,
      record h {
        pages = free_pages h.start (old - frame_size) size (old / frame_size + 1) h.pages;
        stop = h.start + size;
      },
    )

-- `heap_add_entry`: in front of the first entry that is not smaller.
abbrev pub insert_entry : Bytes → ℕ → List ℕ → List ℕ
insert_entry m entry [] = entry ∷ []
insert_entry m entry (e ∷ es) =
    let rest = insert_entry m entry es in
    if ltb (size_of m e) (size_of m entry) then e ∷ rest else entry ∷ e ∷ es

unfoldable pub heap_add_entry : ℕ → Heap → Heap
heap_add_entry entry h = record h { entries = insert_entry h.bytes entry h.entries }

abbrev pub remove_at : ℕ → List ℕ → List ℕ
remove_at i [] = []
remove_at zero (e ∷ es) = es
remove_at (suc i) (e ∷ es) = e ∷ remove_at i es

-- `heap_del_entry`; `none` is MM_NO_HOLE.
unfoldable pub heap_del_entry : Option ℕ → Heap → Heap
heap_del_entry none h = h
heap_del_entry (some i) h = record h { entries = remove_at i h.entries }

abbrev pub next_index : Option ℕ → Option ℕ
next_index none = none
next_index (some i) = some (suc i)

unfoldable pub heap_find_entry : ℕ → List ℕ → Option ℕ
heap_find_entry entry [] = none
heap_find_entry entry (e ∷ es) =
    let rest = next_index (heap_find_entry entry es) in if e == entry then some 0 else rest

-- `(int)entry->size - offset >= (int)size`
abbrev pub fits_behind : ℕ → ℕ → ℕ → Bool
fits_behind entry_size offset size =
    if ltb size (2 ^ 31)
    then leb (size + offset) entry_size
    else leb (size + offset) (entry_size + 2 ^ 32)

-- The distance to the place whose data start on a page.
abbrev pub page_offset : ℕ → ℕ
page_offset entry =
    if (entry + header_size) % frame_size == 0
    then 0
    else frame_size - (entry + header_size) % frame_size

abbrev pub is_big_enough : Bytes → ℕ → Bool → ℕ → Bool
is_big_enough m size page_align entry =
    if page_align
    then fits_behind (size_of m entry) (page_offset entry) size
    else leb size (size_of m entry)

unfoldable pub find_smallest_hole : Bytes → ℕ → Bool → List ℕ → Option ℕ
find_smallest_hole m size page_align [] = none
find_smallest_hole m size page_align (e ∷ es) =
    let rest = next_index (find_smallest_hole m size page_align es) in
    if is_big_enough m size page_align e then some 0 else rest
