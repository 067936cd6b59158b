-- ===== src/Paging/Directory.antt =====
-- Page directories over the tables: `make_table`, `make_page`, `free_page`, `get_page`,
-- `clone_directory` and `free_directory` of src/mm/paging.c.
use nupkux.Base.{
  ℕ, zero, suc, ◌/◌, ◌%◌, ◌==◌, if◌then◌else◌, List, [], ◌∷◌, ◌++◌, get_or, set, length, replicate,
  Bool, false, Option, none, some, ◌>>=◌,
}
use Prim.Native.Nat.{bit_or}
use nupkux.Paging.{
  Page, no_page, alloc_frame, free_frame, clone_table, free_table, Cloning, empty_table,
}

-- `struct _page_directory`: a table is given by its number among the tables.
pub record Directory : Type 0 where
  pub phys_tabs : List ℕ
  pub phys_pos : ℕ
  pub tables : List (Option ℕ)

-- The map of frames, and all tables: one that was freed is `none`.
pub record Memory : Type 0 where
  pub framemap : List ℕ
  pub store : List (Option (List Page))

abbrev pub table_at : Memory → ℕ → Option (List Page)
table_at m id = get_or m.store id none

abbrev pub put_table : Memory → ℕ → List Page → Memory
put_table m id table = record m { store = set m.store id (some table) }

abbrev pub with_map : Memory → List ℕ → Memory
with_map m framemap = record m { framemap = framemap }

abbrev pub user_flags : ℕ
user_flags = 7

-- A page that was asked for: the table and the entry, of the memory behind the call.
pub record Found : Type 0 where
  pub memory : Memory
  pub directory : Directory
  pub entry : Option (ℕ × ℕ)

-- `if (alloc) alloc_frame(entry, flags);`
abbrev pub put_entry : Memory → ℕ → List Page → ℕ → Page × List ℕ → Memory
put_entry m id table i (apage, map) = put_table (with_map m map) id (set table i apage)

abbrev pub alloc_in : Bool → ℕ → Memory → ℕ → List Page → ℕ → Option Memory
alloc_in alloc flags m id table i =
    let taken = alloc_frame m.framemap (get_or table i no_page) flags >>= λ r.
    some (put_entry m id table i r) in
    if alloc then taken else some m

abbrev pub page_in : Bool → ℕ → ℕ → Memory × Directory → Option Found
page_in alloc flags index (m, dir) = get_or dir.tables (index / 1024) none >>= λ id.
    table_at m id >>= λ table. alloc_in alloc flags m id table (index % 1024) >>= λ m'.
    some (record { memory = m'; directory = dir; entry = some (id, index % 1024) })

-- The entry that `free_page` frees.
abbrev pub freed_in : Memory → Directory → ℕ → ℕ → List Page → Page × List ℕ → Found
freed_in m dir id i table r = record {
  memory = put_entry m id table i r;
  directory = dir;
  entry = some (id, i);
}

unfoldable pub free_page : ℕ → Memory → Directory → Option Found
free_page address m dir =
    let index = address / 4096 in
    let i = index % 1024 in
    let absent : Found = record { memory = m; directory = dir; entry = none } in
    let freed = get_or dir.tables (index / 1024) none >>= λ id. table_at m id >>= λ table.
    free_frame m.framemap (get_or table i no_page) >>= λ r. some (freed_in m dir id i table r) in
    if get_or dir.phys_tabs (index / 1024) 0 == 0 then some absent else freed

-- Does the kernel's directory have the same table there?
abbrev pub same_table : Option ℕ → ℕ → Bool
same_table none id = false
same_table (some id') id = id' == id

-- A turn of the loop of `free_directory`, and the loop.
unfoldable pub free_slot : Directory → ℕ → Option ℕ → Memory → Option Memory
free_slot kernel i none m = some m
free_slot kernel i (some id) m =
    let freed = table_at m id >>= λ table. free_table table m.framemap >>= λ map.
    some (record { framemap = map; store = set m.store id none }) in
    if same_table (get_or kernel.tables i none) id then some m else freed

abbrev pub free_slots : Directory → Directory → ℕ → Memory → Option Memory
free_slots kernel dir zero m = some m
free_slots kernel dir (suc i) m =
    free_slot kernel i (get_or dir.tables i none) m >>= free_slots kernel dir i

unfoldable pub free_directory : Directory → Directory → Memory → Option Memory
free_directory kernel dir m = free_slots kernel dir 1024 m

-- `physical` is the address that `_kmalloc_pa` gives for the table with a number.
module _ (physical : ℕ → ℕ) where
  -- `make_table`: the memory and the directory behind it
  unfoldable pub make_table : ℕ → ℕ → Memory → Directory → Memory × Directory
  make_table index flags m dir =
      let id = length m.store in
      (
        record m { store = m.store ++ (some empty_table ∷ []) },
        record dir {
          phys_tabs = set dir.phys_tabs index (bit_or (physical id) flags);
          tables = set dir.tables index (some id);
        },
      )

  -- `if (!directory->physTabs[tab]) make_table(tab, flags, directory);`
  abbrev pub with_table : ℕ → ℕ → Memory → Directory → Memory × Directory
  with_table tab flags m dir =
      if get_or dir.phys_tabs tab 0 == 0 then make_table tab flags m dir else (m, dir)

  unfoldable pub make_page : ℕ → ℕ → Bool → Memory → Directory → Option Found
  make_page address flags alloc m dir =
      page_in alloc flags (address / 4096) (with_table (address / 4096 / 1024) flags m dir)

  unfoldable pub get_page : ℕ → Bool → Memory → Directory → Option Found
  get_page address make m dir =
      let index = address / 4096 in
      let absent : Found = record { memory = m; directory = dir; entry = none } in
      if get_or dir.phys_tabs (index / 1024) 0 == 0
      then if make then make_page address user_flags false m dir else some absent
      else page_in false 0 index (m, dir)

  -- A turn of the loop of `clone_directory` for table `id` of the source.
  abbrev pub cloned_table : ℕ → Memory → Directory → Cloning → Memory × Directory
  cloned_table i m dir c =
      let id = length m.store in
      (
        record { framemap = c.framemap; store = m.store ++ (some c.entries ∷ []) },
        record dir {
          phys_tabs = set dir.phys_tabs i (bit_or (physical id) user_flags);
          tables = set dir.tables i (some id);
        },
      )

  unfoldable pub clone_slot :
      Directory → Directory → ℕ → Option ℕ → Memory × Directory → Option (Memory × Directory)
  clone_slot kernel src i none (m, dir) = some (m, dir)
  clone_slot kernel src i (some id) (m, dir) =
      let shared : Directory = record dir {
        phys_tabs = set dir.phys_tabs i (get_or src.phys_tabs i 0);
        tables = set dir.tables i (some id);
      } in
      let copied = table_at m id >>= λ table.
      clone_table table m.framemap >>= λ c. some (cloned_table i m dir c) in
      if same_table (get_or kernel.tables i none) id then some (m, shared) else copied

  abbrev pub clone_slots :
      Directory → Directory → ℕ → Memory × Directory → Option (Memory × Directory)
  clone_slots kernel src zero s = some s
  clone_slots kernel src (suc i) s =
      clone_slot kernel src i (get_or src.tables i none) s >>= clone_slots kernel src i

  -- `clone_directory`, with the physical address of the new directory
  unfoldable pub clone_directory : Directory → Directory → ℕ → Memory → Option (Memory × Directory)
  clone_directory kernel src phys m =
      clone_slots kernel src 1024
        (m, record { phys_tabs = replicate 1024 0; phys_pos = phys; tables = replicate 1024 none })
