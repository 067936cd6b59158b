-- ===== src/Heap/Tests.antt =====
-- A heap of one hole, blocks in it, and the theorems applied to it.
use nupkux.Base.{
  ℕ, ◌+◌, ◌≡◌, refl, [], ◌∷◌, Option, some, none, true, false, arith, inr, if◌then◌else◌, ◌==◌,
}
use nupkux.Heap.{
  Bytes, Heap, PageCall, size_of, heap_add_entry, heap_del_entry, heap_find_entry,
  find_smallest_hole, header_size,
}
use nupkux.Heap.Alloc.{heap_malloc, heap_free, create_heap}
use nupkux.Heap.Index.{
  IsSorted, count, Smallest, heap_add_entry-heap_del_entry, find_smallest_hole-Smallest,
}

-- 64 KB from 0x40000 on, whose first 8 KB are the index.
abbrev new_heap : Heap
new_heap = create_heap 262144 327680 1048576 (λ a. 0)

one_hole : new_heap.entries ≡ 270336 ∷ []
unfolding create_heap
one_hole = refl

abbrev result : Option (ℕ × Heap) → ℕ
result none = 0
result (some (p, h)) = p

abbrev heap_after : Option (ℕ × Heap) → Heap
heap_after none = new_heap
heap_after (some (p, h)) = h

-- A block of 100 bytes, and the hole behind it.
first_block : result (heap_malloc 1 100 false new_heap) ≡ 270344
unfolding heap_malloc nupkux.Heap.Alloc.take_hole create_heap nupkux.Heap.find_smallest_hole
    nupkux.Heap.write32
first_block = refl

hole_behind : (heap_after (heap_malloc 1 100 false new_heap)).entries ≡ 270452 ∷ []
unfolding heap_malloc nupkux.Heap.Alloc.take_hole create_heap nupkux.Heap.find_smallest_hole
    nupkux.Heap.write32 heap_add_entry heap_del_entry
hole_behind = refl

-- Freeing the block makes one hole of all again.
joined : (heap_free 270344 (heap_after (heap_malloc 1 100 false new_heap))).entries ≡ 270336 ∷ []
unfolding heap_malloc nupkux.Heap.Alloc.take_hole create_heap nupkux.Heap.find_smallest_hole
    nupkux.Heap.write32 heap_add_entry heap_del_entry heap_free nupkux.Heap.Alloc.join_front
    nupkux.Heap.Alloc.join_back nupkux.Heap.Alloc.trim nupkux.Heap.contract_heap heap_find_entry
joined = refl

-- Holes of 40 and 80 bytes at 100 and 200, and one of 60 at 300.
abbrev memory : Bytes
memory = λ a. if a == 104 then 40 else if a == 204 then 80 else if a == 304 then 60 else 0

abbrev holes : Heap
holes = record {
  entries = 100 ∷ 200 ∷ [];
  start = 0;
  stop = 4096;
  memend = 4096;
  bytes = memory;
  pages = [];
}

sorted : IsSorted memory (100 ∷ 200 ∷ [])
sorted = ((omega arith, tt), (tt, tt))

heap_add_entry-heap_del_entry_example :
    IsSorted memory (heap_add_entry 300 holes).entries
    × ((x : ℕ)
        → count x (heap_add_entry 300 holes).entries
          ≡ (if 300 == x then 1 else 0) + count x holes.entries)
    × (heap_del_entry
          (heap_find_entry 300 (heap_add_entry 300 holes).entries)
          (heap_add_entry 300 holes)
        ≡ holes)
heap_add_entry-heap_del_entry_example = heap_add_entry-heap_del_entry 300 holes sorted

-- A hole of 40960 bytes at 12280, whose data start on a page.
abbrev page_hole : Heap
page_hole = record {
  entries = 12280 ∷ [];
  start = 8192;
  stop = 53240;
  memend = 1048576;
  bytes = λ a. if a == 12285 then 160 else 0;
  pages = [];
}

page_hole_fits : find_smallest_hole page_hole.bytes 116 true page_hole.entries ≡ some 0
unfolding find_smallest_hole
page_hole_fits = refl

-- A smaller hole in front, at 4088, whose data start on a page, too, but which is too small.
abbrev two_holes : Bytes
two_holes = λ a. if a == 4093 then 2 else if a == 12285 then 160 else 0

two_holes-IsSorted : IsSorted two_holes (4088 ∷ 12280 ∷ [])
two_holes-IsSorted = ((omega arith, tt), (tt, tt))

find_smallest_hole-Smallest_example :
    Smallest two_holes 1016 true
      (4088 ∷ 12280 ∷ [])
      (find_smallest_hole two_holes 1016 true (4088 ∷ 12280 ∷ []))
find_smallest_hole-Smallest_example =
    find_smallest_hole-Smallest two_holes 1016 true (4088 ∷ 12280 ∷ []) two_holes-IsSorted
      (inr (omega arith))
