-- ===== src/Paging/Lookup.antt =====
-- `get_page` makes the table that it does not find, and finds it from then on.
use nupkux.Base.{
  ℕ, ◌/◌, ◌%◌, ◌==◌, ◌<◌, ◌≡◌, ◌≢◌, refl, sym, ◌∙◌, inl, inr, List, [], ◌∷◌, ◌++◌, get_or, set,
  length, get_or-set_self, Bool, true, false, Option, none, some, eq_or_ne, arith,
}
use Prim.Native.Nat.{bit_or}
use nupkux.Paging.{Page, empty_table}
use nupkux.Paging.Directory.{
  Directory, Memory, table_at, user_flags, Found, page_in, make_table, make_page, get_page,
}

-- Every table that a directory has a physical address for is there.
pub record IsDirectory (m : Memory) (dir : Directory) : Type 0 where
  pub phys_size : length dir.phys_tabs ≡ 1024
  pub tables_size : length dir.tables ≡ 1024
  pub there :
      (tab : ℕ)
      → get_or dir.phys_tabs tab 0 ≢ 0
      → (id : ℕ) × (table : List Page) × (get_or dir.tables tab none ≡ some id)
        × (table_at m id ≡ some table)

get_or-last {ℓ} : {A : Type ℓ} (xs : List A) (x d : A) → get_or (xs ++ (x ∷ [])) (length xs) d ≡ x
get_or-last [] x d = refl
get_or-last (y ∷ xs) x d = get_or-last xs x d

page_in_found :
    (flags index : ℕ) (m : Memory) (dir : Directory) (id : ℕ) (table : List Page)
    → get_or dir.tables (index / 1024) none ≡ some id
    → table_at m id ≡ some table
    → page_in false flags index (m, dir)
      ≡ some (record { memory = m; directory = dir; entry = some (id, index % 1024) })
page_in_found flags index m dir id table e e' = rw (e, e') refl

module _ (physical : ℕ → ℕ) where
  get_page_there :
      (address : ℕ) (make : Bool) (m : Memory) (dir : Directory) (id : ℕ) (table : List Page)
      → get_or dir.phys_tabs (address / 4096 / 1024) 0 ≢ 0
      → get_or dir.tables (address / 4096 / 1024) none ≡ some id
      → table_at m id ≡ some table
      → get_page physical address make m dir
        ≡ some (record { memory = m; directory = dir; entry = some (id, address / 4096 % 1024) })
  unfolding get_page
  get_page_there address make m dir id table ne e e' =
      let test : (get_or dir.phys_tabs (address / 4096 / 1024) 0 == 0) ≡ false =
        ground (arith, ne) in
      rw test (page_in_found 0 (address / 4096) m dir id table e e')

  -- The page that a call of `get_page` gives is the one that the next call finds.
  abbrev pub Keeps : ℕ → Option Found → Type 0
  Keeps address o =
      (f : Found) × (id : ℕ) × (o ≡ some f)
      × (f.entry ≡ some (id, address / 4096 % 1024))
      × (get_page physical address false f.memory f.directory ≡ some f)

  keep_there :
      (address : ℕ) (m : Memory) (dir : Directory) (id : ℕ) (table : List Page)
      → get_or dir.phys_tabs (address / 4096 / 1024) 0 ≢ 0
      → get_or dir.tables (address / 4096 / 1024) none ≡ some id
      → table_at m id ≡ some table
      → (o : Option Found)
      → o ≡ some (record { memory = m; directory = dir; entry = some (id, address / 4096 % 1024) })
      → Keeps address o
  keep_there address m dir id table ne e e' o eq = (
    record { memory = m; directory = dir; entry = some (id, address / 4096 % 1024) },
    id,
    eq,
    refl,
    get_page_there address false m dir id table ne e e',
  )

  -- Where no entry that `make_table` writes is 0, `get_page` with `make` gives the entry of the address
  -- in an old or a new table, for every address below 4 GB, and the next call without `make` finds the same.
  pub get_page-Keeps :
      (address : ℕ) (m : Memory) (dir : Directory)
      → ((id : ℕ) → bit_or (physical id) user_flags ≢ 0)
      → IsDirectory m dir
      → address < 4294967296
      → Keeps address (get_page physical address true m dir)
  unfolding get_page make_page make_table
  get_page-Keeps address m dir h valid l =
      elim (eq_or_ne (get_or dir.phys_tabs (address / 4096 / 1024) 0) 0) [
        | inl zero_entry ↦
            let tab : ℕ = address / 4096 / 1024 in
            let id : ℕ = length m.store in
            let m' : Memory = record m { store = m.store ++ (some empty_table ∷ []) } in
            let dir' : Directory = record dir {
              phys_tabs = set dir.phys_tabs tab (bit_or (physical id) user_flags);
              tables = set dir.tables tab (some id);
            } in
            let test : (get_or dir.phys_tabs tab 0 == 0) ≡ true = ground (arith, zero_entry) in
            let inside : tab < 1024 = omega (arith, l) in
            let entry : get_or dir'.phys_tabs tab 0 ≡ bit_or (physical id) user_flags =
              get_or-set_self dir.phys_tabs tab (bit_or (physical id) user_flags) 0
                (omega (arith, inside, valid.phys_size)) in
            let number : get_or dir'.tables tab none ≡ some id =
              get_or-set_self dir.tables tab (some id) none
                (omega (arith, inside, valid.tables_size)) in
            let new_table : table_at m' id ≡ some empty_table =
              get_or-last m.store (some empty_table) none in
            keep_there address m' dir' id empty_table (λ e. h id (sym entry ∙ e)) number new_table
              (get_page physical address true m dir)
              (rw test
                (page_in_found user_flags (address / 4096) m' dir' id empty_table number new_table))
        | inr ne ↦
            let (id, table, e, e') = valid.there (address / 4096 / 1024) ne in
            keep_there address m dir id table ne e e' (get_page physical address true m dir)
              (get_page_there address true m dir id table ne e e')
      ]
