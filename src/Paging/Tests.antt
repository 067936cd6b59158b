-- ===== src/Paging/Tests.antt =====
-- A map of 64 frames and small directories, and the theorems applied to them.
use nupkux.Base.{
  ℕ, ◌≡◌, refl, sym, ap, subst, get_or, zero, suc, List, [], ◌∷◌, some, none, Option, true, arith,
  replicate,
}
use nupkux.Paging.{
  Page, first_frame, no_frame, alloc_frame, free_frame, Cloning, clone_table, table_size,
}
use nupkux.Paging.Frames.{IsTaken, Marked, mark-Marked}
use nupkux.Paging.Clone.{mapped, free_below, IsClone, clone_table-IsClone}
use nupkux.Paging.Directory.{Directory, Memory}
use nupkux.Paging.Lookup.{IsDirectory}

-- Frames 0 to 32 are taken.
abbrev map : List ℕ
map = 4294967295 ∷ 1 ∷ []

first_free : first_frame map ≡ 33
unfolding first_frame
first_free = refl

all_taken : first_frame (4294967295 ∷ 4294967295 ∷ []) ≡ no_frame
unfolding first_frame
all_taken = refl

-- Frame 33 for a page with the flags 7.
abbrev page : Page
page = record { flags = 7; frame = 33 }

abbrev the_map : Option (List ℕ) → List ℕ
the_map none = []
the_map (some m) = m

map_after : IsTaken map 7 page (4294967295 ∷ 3 ∷ [])
unfolding nupkux.Paging.mark
map_after =
    let (map', e, marked) = mark-Marked true map 33 (omega arith) in
    record {
      unused = refl;
      inside = omega arith;
      flags_set = refl;
      marked = subst (λ m. Marked true 33 map m) (sym (ap the_map e)) marked;
    }

abbrev source : List Page
source =
    record { flags = 5; frame = 3 }
    ∷ record { flags = 0; frame = 0 }
    ∷ record { flags = 7; frame = 9 }
    ∷ []

two_mapped : mapped source table_size ≡ 2
two_mapped = refl

many_free : free_below map 64 ≡ 31
many_free = refl

clone_table-IsClone_example :
    (c : Cloning) × (clone_table source map ≡ some c)
    × IsClone table_size source c.entries map c.framemap
clone_table-IsClone_example =
    clone_table-IsClone source map (omega arith) (omega (arith, two_mapped, many_free))

abbrev memory : Memory
memory = record { framemap = map; store = [] }

abbrev directory : Directory
directory = record { phys_tabs = replicate 1024 0; phys_pos = 4096; tables = replicate 1024 none }

no_entries : (n k : ℕ) → ◌≡◌ {A = ℕ} (get_or (replicate n 0) k 0) 0
no_entries zero k = refl
no_entries (suc n) zero = refl
no_entries (suc n) (suc k) = no_entries n k

directory_valid : IsDirectory memory directory
directory_valid = record {
  phys_size = refl;
  tables_size = refl;
  there = λ tab ne. absurd (ne (no_entries 1024 tab));
}
