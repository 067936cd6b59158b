-- ===== src/Initrd/Tests.antt =====
-- Runs of tools/mkinitrd and the RAM disk file system, and witnesses.
use nupkux.Base.{
  ℕ, ◌-◌, ◌^◌, ◌≡◌, ◌≢◌, ◌<◌, inl, inr, refl, ap, List, [], ◌∷◌, none, some, get_or, arith,
}
use nupkux.Initrd.{Image, initrd_read, initrd_lookup, initrd_readdir, read_initrd_sb}
use nupkux.Paths.Walk.{dot}
use nupkux.Initrd.Make.{
  Stat, HostFile, file, directory, HostEntries, end, entry, is_dots, started, inodecount, savefile,
  make_image, main_image,
}
use nupkux.Initrd.Layout.{listed, inodes_in, space_in, Valid}
use nupkux.Initrd.Mounted.Walk.{Below, found, node_of, lookup_path}
use nupkux.Initrd.Mounted.{
  image_size, make_image_bounds, make_image-initrd_read, make_image-initrd_lookup,
}

abbrev st : Stat
st = record { st_mode = 493; st_gid = 0; st_uid = 0 }

abbrev hello : HostFile
hello = file st (104 ∷ 105 ∷ 10 ∷ [])

-- "b"
abbrev inner : HostEntries
inner = entry (98 ∷ []) hello end

-- What `readdir` gives of the root: ".", "d" and "a"
abbrev tree : HostEntries
tree = entry dot hello (entry (100 ∷ []) (directory st inner) (entry (97 ∷ []) hello end))

abbrev memory : ℕ → ℕ
memory a = 170

heads_differ : (c d : ℕ) (s t : List ℕ) → c ≢ d → (c ∷ s) ≢ (d ∷ t)
heads_differ c d s t ne h = ne (ap (λ l. get_or l 0 0) h)

tree-Valid : Valid (directory st tree)
unfolding Valid
tree-Valid = (
  ((refl, tt), (omega arith), omega arith),
  (
    heads_differ 46 100 [] [] (λ h. omega (arith, h)),
    (heads_differ 46 97 [] [] (λ h. omega (arith, h)), tt),
  ),
  (omega arith),
  (
    ((refl, tt), (omega arith), omega arith),
    (heads_differ 100 97 [] [] (λ h. omega (arith, h)), tt),
    (((refl, tt), (omega arith), omega arith), tt, (omega arith), tt),
    (((refl, tt), (omega arith), omega arith), tt, (omega arith), tt),
  ),
)

tree_fits : image_size tree < 2 ^ 32
unfolding listed inodes_in space_in nupkux.CString.strcmp
tree_fits = omega arith

b-Below : Below (directory st tree) ((100 ∷ []) ∷ (98 ∷ []) ∷ []) hello
unfolding nupkux.CString.strcmp
b-Below =
    Below.inside (100 ∷ []) (inr (inl (refl, refl, refl)))
      (Below.inside (98 ∷ []) (inl (refl, refl, refl)) Below.here)

d-Below : Below (directory st tree) ((100 ∷ []) ∷ []) (directory st inner)
unfolding nupkux.CString.strcmp
d-Below = Below.inside (100 ∷ []) (inr (inl (refl, refl, refl))) Below.here

-- The file "d/b" has the inode 2, and its contents are read.
b_found : lookup_path (make_image st tree memory) 0 ((100 ∷ []) ∷ (98 ∷ []) ∷ []) ≡ some 2
unfolding lookup_path make_image savefile initrd_lookup nupkux.Initrd.initrd_read_inode
    nupkux.Initrd.last_match nupkux.CString.strcmp nupkux.Paths.namei_match nupkux.Heap.write32
    nupkux.Initrd.Make.clear nupkux.Initrd.Make.put_contents nupkux.Vnodes.iget nupkux.Vnodes.bump
b_found = refl

make_image_bounds_example :
    (main_image st tree memory ≡ some (make_image st tree memory))
    × ((savefile (directory st tree) (2 ^ 32 - 1) (started (inodecount tree) memory)).1.tmp_inode
        ≡ inodecount tree)
    × ((savefile (directory st tree) (2 ^ 32 - 1) (started (inodecount tree) memory)).1.filelen
        ≡ image_size tree)
make_image_bounds_example = make_image_bounds st tree memory tree-Valid tree_fits

make_image-initrd_read_example :
    (ino : ℕ) × (lookup_path (make_image st tree memory) 0 ((100 ∷ []) ∷ (98 ∷ []) ∷ []) ≡ some ino)
    × (initrd_read
          (make_image st tree memory)
          (node_of (make_image st tree memory) ino)
          1
          5
          (0 ∷ 0 ∷ 0 ∷ 0 ∷ 0 ∷ [])
        ≡ some (2, 105 ∷ 10 ∷ 0 ∷ 0 ∷ 0 ∷ []))
make_image-initrd_read_example =
    make_image-initrd_read st tree memory tree-Valid tree_fits ((100 ∷ []) ∷ (98 ∷ []) ∷ []) st
      (104 ∷ 105 ∷ 10 ∷ []) 1 5 (0 ∷ 0 ∷ 0 ∷ 0 ∷ 0 ∷ []) b-Below (omega arith) (omega arith)

-- "a" is not in "d".
make_image-initrd_lookup_example :
    (ino : ℕ) × (lookup_path (make_image st tree memory) 0 ((100 ∷ []) ∷ []) ≡ some ino)
    × (found (
          initrd_lookup
            (make_image st tree memory)
            (node_of (make_image st tree memory) ino)
            (97 ∷ [])
            [])
        ≡ none)
make_image-initrd_lookup_example =
    make_image-initrd_lookup st tree memory tree-Valid tree_fits ((100 ∷ []) ∷ []) st inner
      (97 ∷ []) d-Below (refl, tt) ((λ e. heads_differ 97 98 [] [] (λ h. omega (arith, h))), tt)
      (heads_differ 97 46 [] [] (λ h. omega (arith, h)))
      (heads_differ 97 46 [] (46 ∷ []) (λ h. omega (arith, h)))
