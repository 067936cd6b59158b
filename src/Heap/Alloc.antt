-- ===== src/Heap/Alloc.antt =====
-- `heap_malloc`, `heap_free` and `heap_realloc` of src/mm/mm.c, and the calls in front of them.
use nupkux.Base.{
  ℕ, zero, suc, ◌+◌, ◌-◌, ◌*◌, ◌/◌, ◌%◌, ◌^◌, ◌==◌, ltb, if◌then◌else◌, List, [], ◌∷◌, Bool, true,
  false, not, ◌&&◌, ◌||◌, Option, none, some, get_or,
}
use nupkux.Heap.{
  sub32, Bytes, write8, header_size, footer_size, size_of, is_hole, has_magic, put_magic, put_size,
  put_flag, owner, put_owner, Heap, in_memory, frame_size, assert_align, expand_heap, contract_heap,
  heap_add_entry, heap_del_entry, heap_find_entry, find_smallest_hole,
}

-- The loop over the entries of `heap_malloc`: the highest address and its index.
abbrev pub highest : List ℕ → ℕ → ℕ → Option ℕ → Option ℕ
highest [] i value idx = idx
highest (e ∷ es) i value idx =
    let higher = highest es (suc i) e (some i) in
    let lower = highest es (suc i) value idx in if ltb value e then higher else lower

-- `newfooter->magic = MM_MAGIC; newfooter->header = header;`
abbrev pub put_footer : ℕ → ℕ → Bytes → Bytes
put_footer footer header m = put_owner footer header (put_magic footer m)

-- A new hole of the pages behind the old end, where there was no hole.
abbrev pub hole_at_end : ℕ → ℕ → Heap → Heap
hole_at_end oldend size h =
    let sized = in_memory (λ m. put_flag oldend true (put_size oldend size m)) h in
    let footer = sub32 (oldend + size_of sized.bytes oldend) footer_size in
    heap_add_entry oldend
      (in_memory (λ m. put_owner footer oldend (put_magic oldend (put_magic footer m))) sized)

-- The hole with the highest address becomes larger by the new pages.
abbrev pub hole_grown : ℕ → ℕ → Heap → Heap
hole_grown header more h =
    let sized = in_memory (λ m. put_size header (size_of m header + more) m) h in
    let footer = sub32 (header + size_of sized.bytes header) footer_size in
    in_memory (λ m. put_magic footer (put_owner footer header m)) sized

abbrev pub grow_at : Option ℕ → ℕ → ℕ → Heap → Heap
grow_at none oldend more h = hole_at_end oldend more h
grow_at (some idx) oldend more h = hole_grown (get_or h.entries idx 0) more h

-- What `heap_malloc` does where no hole is large enough, in front of its recursive call.
unfoldable pub grow_heap : ℕ → Heap → Heap
grow_heap newsize h =
    let oldsize = sub32 h.stop h.start in
    let h' = expand_heap ((oldsize + newsize) % 2 ^ 32) h in
    grow_at (highest h'.entries 0 0 none) h.stop (sub32 (sub32 h'.stop h'.start) oldsize) h'

-- Where the block starts, how large the hole is from there on, and the heap.
pub record Place : Type 0 where
  pub oldpos : ℕ
  pub oldsize : ℕ
  pub heap : Heap

-- The hole in front of a block whose data start on a page; its entry stays in the index.
unfoldable pub split_front : ℕ → ℕ → Heap → Place
split_front oldpos oldsize h =
    let newpos = sub32 (oldpos + frame_size - oldpos % frame_size) header_size in
    let footer = sub32 newpos footer_size in
    let m = put_owner footer oldpos (
      put_magic oldpos (
        put_magic footer (put_flag oldpos true (put_size oldpos (sub32 newpos oldpos) h.bytes)))) in
    record {
      oldpos = newpos;
      oldsize = sub32 oldsize (size_of m oldpos);
      heap = record h { bytes = m };
    }

abbrev pub place_in : Bool → ℕ → Heap → Place
place_in page_align i h =
    let oldpos = get_or h.entries i 0 in
    let oldsize = size_of h.bytes oldpos in
    if page_align && not (oldpos / frame_size == 0)
    then split_front oldpos oldsize h
    else record { oldpos = oldpos; oldsize = oldsize; heap = heap_del_entry (some i) h }

-- The header and the footer of the block.
abbrev pub put_block : ℕ → ℕ → ℕ → Bytes → Bytes
put_block oldpos size newsize m =
    let footer = (oldpos + header_size + size) % 2 ^ 32 in
    put_owner footer oldpos
      (put_magic oldpos (put_magic footer (put_size oldpos newsize (put_flag oldpos false m))))

-- The hole behind the block.
abbrev pub put_rest : ℕ → ℕ → Heap → Heap
put_rest header size h =
    let m = put_size header size (put_flag header true (put_magic header h.bytes)) in
    let footer = sub32 (header + size_of m header) footer_size in
    heap_add_entry header
      (record h { bytes = if ltb footer h.stop then put_footer footer header m else m })

abbrev pub finish_block : ℕ → ℕ → Place → ℕ × Heap
finish_block size newsize p =
    let block = in_memory (put_block p.oldpos size newsize) p.heap in
    let rest = put_rest ((p.oldpos + newsize) % 2 ^ 32) (sub32 p.oldsize newsize) block in
    ((p.oldpos + header_size) % 2 ^ 32, if p.oldsize == newsize then block else rest)

-- `heap_malloc` in the hole that was found: the whole hole where the rest would be too small.
unfoldable pub take_hole : ℕ → Bool → ℕ → Heap → ℕ × Heap
take_hole size page_align i h =
    let newsize = (size + header_size + footer_size) % 2 ^ 32 in
    let hole = size_of h.bytes (get_or h.entries i 0) in
    if ltb (sub32 hole (header_size + footer_size)) newsize
    then finish_block ((size + sub32 hole newsize) % 2 ^ 32) hole (place_in page_align i h)
    else finish_block size newsize (place_in page_align i h)

abbrev pub take_or : Option (ℕ × Heap) → ℕ → Bool → Heap → Option ℕ → Option (ℕ × Heap)
take_or retry size page_align h none = retry
take_or retry size page_align h (some i) = some (take_hole size page_align i h)

-- `heap_malloc`: the address and the heap; `none` where the fuel ends, since a heap that cannot grow
-- makes the call repeat itself for ever.
unfoldable pub heap_malloc : ℕ → ℕ → Bool → Heap → Option (ℕ × Heap)
heap_malloc zero size page_align h = none
heap_malloc (suc fuel) size page_align h =
    let newsize = (size + header_size + footer_size) % 2 ^ 32 in
    let retry = heap_malloc fuel size page_align (grow_heap newsize h) in
    if size == 0
    then some (0, h)
    else take_or retry size page_align h (find_smallest_hole h.bytes newsize page_align h.entries)

-- A block that is freed, with what it was joined to: `fresh` is `opt`.
pub record Freed : Type 0 where
  pub header : ℕ
  pub footer : ℕ
  pub fresh : Bool
  pub heap : Heap

-- The hole in front.
unfoldable pub join_front : ℕ → ℕ → Heap → Freed
join_front header footer h =
    let before = sub32 header footer_size in
    let front = owner h.bytes before in
    let oldsize = size_of h.bytes header in
    if has_magic h.bytes before && has_magic h.bytes front && is_hole h.bytes front
    then record {
      header = front;
      footer = footer;
      fresh = false;
      heap =
          in_memory (λ m. put_size front (size_of m front + oldsize) m)
            (in_memory (put_owner footer front) h);
    }
    else record { header = header; footer = footer; fresh = true; heap = h }

-- The hole behind.
unfoldable pub join_back : Freed → Freed
join_back f =
    let behind = (f.footer + footer_size) % 2 ^ 32 in
    let size = size_of f.heap.bytes behind in
    let h = in_memory (λ m. put_size f.header (size_of m f.header + size) m) f.heap in
    if has_magic f.heap.bytes behind && is_hole f.heap.bytes behind
    then record f {
      footer = sub32 (behind + size_of h.bytes behind) footer_size;
      heap = heap_del_entry (heap_find_entry behind h.entries) h;
    }
    else f

-- A hole at the end of the heap is given back, down to the least size.
abbrev pub cut_hole : ℕ → ℕ → ℕ × Heap → Heap
cut_hole header oldsize (newsize, h) =
    let size = size_of h.bytes header in
    let cut =
      in_memory (λ m. put_size header (sub32 (size_of m header) (sub32 oldsize newsize)) m) h in
    let footer = sub32 (header + size_of cut.bytes header) footer_size in
    if ltb oldsize ((newsize + size) % 2 ^ 32)
    then in_memory (put_footer footer header) cut
    else heap_del_entry (heap_find_entry header h.entries) h

unfoldable pub trim : Freed → Freed
trim f =
    let oldsize = sub32 f.heap.stop f.heap.start in
    let h = cut_hole f.header oldsize (contract_heap (sub32 f.header f.heap.start) f.heap) in
    if (f.footer + footer_size) % 2 ^ 32 == f.heap.stop then record f { heap = h } else f

abbrev pub index_freed : Freed → Heap
index_freed f = if f.fresh then heap_add_entry f.header f.heap else f.heap

unfoldable pub heap_free : ℕ → Heap → Heap
heap_free ptr h =
    let header = sub32 ptr header_size in
    let footer = sub32 (header + size_of h.bytes header) footer_size in
    if ptr == 0 || not (has_magic h.bytes header) || not (has_magic h.bytes footer)
    then h
    else index_freed
        (trim (join_back (join_front header footer (in_memory (put_flag header true) h))))

-- `memcpy` within the memory, from the lowest address on
abbrev pub copy_bytes : ℕ → ℕ → ℕ → Bytes → Bytes
copy_bytes target src zero m = m
copy_bytes target src (suc n) m = copy_bytes (target + 1) (src + 1) n (write8 m target (m src))

-- A block that becomes smaller: what is cut off is freed as a block of its own.
unfoldable pub shrink : ℕ → ℕ → Heap → Heap
shrink ptr size h =
    let header = sub32 ptr header_size in
    let footer = sub32 (header + size_of h.bytes header) footer_size in
    let tail = (ptr + size + footer_size) % 2 ^ 32 in
    let end = (ptr + size) % 2 ^ 32 in
    let owned = put_owner end header (put_owner footer tail h.bytes) in
    let marked = put_flag tail false (put_magic tail (put_magic end owned)) in
    let sized =
      put_size header (header_size + size + footer_size)
        (put_size tail (sub32 footer tail + footer_size) marked) in
    heap_free ((tail + header_size) % 2 ^ 32) (record h { bytes = sized })

abbrev pub move_block : ℕ → ℕ → Option (ℕ × Heap) → Option (ℕ × Heap)
move_block ptr size none = none
move_block ptr size (some (res, h)) =
    if res == 0
    then some (0, h)
    else some (res, heap_free ptr (in_memory (copy_bytes res ptr size) h))

-- `heap_realloc`; the test of an unsigned difference below 0 is never true.
unfoldable pub heap_realloc : ℕ → ℕ → ℕ → Heap → Option (ℕ × Heap)
heap_realloc fuel ptr size h =
    let header = sub32 ptr header_size in
    let old = size_of h.bytes header in
    let footer = sub32 (header + old) footer_size in
    let room = sub32 old (header_size + footer_size) in
    let moved = move_block ptr size (heap_malloc fuel size false h) in
    if ptr == 0
    then some (0, h)
    else if size == 0
    then some (0, heap_free ptr h)
    else if not (has_magic h.bytes header) || not (has_magic h.bytes footer)
    then some (0, h)
    else if size == room
    then some (ptr, h)
    else if ltb size room
    then some (ptr, shrink ptr size h)
    else moved

-- `kmalloc_pos` and `kheap`
pub record Kmalloc : Type 0 where
  pub kmalloc_pos : ℕ
  pub kheap : Option Heap

abbrev pub in_heap : Kmalloc → Option (ℕ × Heap) → Option (ℕ × Kmalloc)
in_heap s none = none
in_heap s (some (res, h)) = some (res, record s { kheap = some h })

-- `_kmalloc_base`: the address, which is physical as well where there is no heap yet
abbrev pub bump : ℕ → Bool → Kmalloc → ℕ × Kmalloc
bump sz align s =
    let pos = if align then assert_align s.kmalloc_pos else s.kmalloc_pos in
    (pos, record s { kmalloc_pos = (pos + sz) % 2 ^ 32 })

abbrev pub kmalloc_from : ℕ → ℕ → Bool → Kmalloc → Option Heap → Option (ℕ × Kmalloc)
kmalloc_from fuel sz align s none = some (bump sz align s)
kmalloc_from fuel sz align s (some h) = in_heap s (heap_malloc fuel sz align h)

unfoldable pub kmalloc_base : ℕ → ℕ → Bool → Kmalloc → Option (ℕ × Kmalloc)
kmalloc_base fuel sz align s = kmalloc_from fuel sz align s s.kheap

-- `malloc`
abbrev pub malloc : ℕ → ℕ → Kmalloc → Option (ℕ × Kmalloc)
malloc fuel size s = kmalloc_base fuel size false s

abbrev pub free_from : ℕ → Kmalloc → Option Heap → Kmalloc
free_from ptr s none = s
free_from ptr s (some h) = record s { kheap = some (heap_free ptr h) }

-- `free`
unfoldable pub free : ℕ → Kmalloc → Kmalloc
free ptr s = free_from ptr s s.kheap

abbrev pub realloc_from : ℕ → ℕ → ℕ → Kmalloc → Option Heap → Option (ℕ × Kmalloc)
realloc_from fuel ptr size s none = some (0, s)
realloc_from fuel ptr size s (some h) = in_heap s (heap_realloc fuel ptr size h)

-- `realloc`
unfoldable pub realloc : ℕ → ℕ → ℕ → Kmalloc → Option (ℕ × Kmalloc)
realloc fuel ptr size s = realloc_from fuel ptr size s s.kheap

abbrev pub index_count : ℕ
index_count = 2048

-- `create_heap`, where the memory of the new `heap` itself comes from `_kmalloc`
unfoldable pub create_heap : ℕ → ℕ → ℕ → Bytes → Heap
create_heap start stop memend m =
    let first = assert_align (assert_align start + index_count * 4) in
    let last = assert_align stop in
    let footer = sub32 last footer_size in
    record {
      entries = first ∷ [];
      start = first;
      stop = last;
      memend = assert_align memend;
      bytes =
          put_footer footer first
            (put_flag first true (put_size first (sub32 last first) (put_magic first m)));
      pages = [];
    }
