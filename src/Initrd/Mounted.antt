-- ===== src/Initrd/Mounted.antt =====
-- What the kernel reads of the image that tools/mkinitrd writes.
pub mod Walk
use nupkux.Base.{
  ℕ, suc, ◌+◌, ◌-◌, ◌*◌, ◌/◌, ◌^◌, ltb, ◌==◌, ◌≡◌, ◌≢◌, ◌≤◌, ◌<◌, ◌⊎◌, inl, inr, refl, sym, ◌∙◌, ap,
  subst, List, [], ◌∷◌, ◌++◌, true, false, Bool-cases, Option, none, some, ◌>>=◌, length, drop,
  arith,
}
use nupkux.Paths.Match.{IsName}
use nupkux.Heap.{Bytes}
use nupkux.Vnodes
use nupkux.Initrd.{
  InitrdInode, InitrdNode, Image, d_entry_size, initrd_header_size, initrd_inode_size, filled,
  initrd_read_inode, initrd_read, got, initrd_lookup, last_match,
}
use nupkux.Paths.Walk.{dot, dots}
use nupkux.Initrd.Make.{
  Stat, HostFile, file, directory, HostEntries, end, entry, is_dots, hardlinks, count_of_inodes,
  count_below, inodecount, started, savefile, make_image, main_image, type_directory, type_file,
}
use nupkux.Initrd.Layout.{
  listed, inodes_of, inodes_in, space, space_in, Stored, StoredEntries, Valid, ValidEntries,
  inode_of, Link,
}
use nupkux.Initrd.Reading.{part, read_from-part}
use nupkux.Initrd.Lookup.{last_match-hit, last_match-miss, last_match-Absent, NotIn-Absent, Absent}
use nupkux.Initrd.Saved.{savefile-Saves}
use nupkux.Initrd.Saved.File.{Saves}
use nupkux.Initrd.Mounted.Walk.{
  Below, Listed, found, node_of, lookup_path, lookup_path-Stored, initrd_read-Stored,
  initrd_lookup-Absent,
}

-- `count_of_inodes` counts the inodes that are made.
mutual
  unfolding count_below count_of_inodes inodes_of inodes_in

  count_below-inodes_of : (f : HostFile) → inodes_of f < 2 ^ 32 → count_below f + 1 ≡ inodes_of f
  count_below-inodes_of (file st contents) h = refl
  count_below-inodes_of (directory st entries) h =
      omega (arith, count_of_inodes-inodes_in entries (omega (arith, h)))

  count_of_inodes-inodes_in :
      (entries : HostEntries)
      → inodes_in entries < 2 ^ 32
      → count_of_inodes entries true ≡ inodes_in entries
  count_of_inodes-inodes_in end h = refl
  count_of_inodes-inodes_in (entry name f entries) h = elim (Bool-cases (is_dots name)) [
    | inl e ↦ rw e (count_of_inodes-inodes_in entries (rw e at h))
    | inr e ↦
        let h' = rw e at h in
        let below = count_below-inodes_of f (omega (arith, h')) in
        let rest = count_of_inodes-inodes_in entries (omega (arith, h')) in
        rw (e, rest) (omega (arith, below, h'))
  ]

-- The size of the image of a directory
abbrev pub image_size : HostEntries → ℕ
image_size entries =
    initrd_header_size
    + suc (inodes_in entries) * initrd_inode_size
    + (d_entry_size * (listed entries + hardlinks) + space_in entries)

-- A directory of the host in which the names of each directory's entries are different, have no '/'
-- and no NUL and are shorter than 64 bytes, whose files are bytes and whose image is smaller than 2^32 bytes.
module _ (st : Stat) (entries : HostEntries) (m : Bytes) (v : Valid (directory st entries))
    (fits : image_size entries < 2 ^ 32) where
  inodecount_lem : inodecount entries ≡ suc (inodes_in entries)
  inodecount_lem =
      let e = count_of_inodes-inodes_in entries (omega (arith, fits)) in rw e (omega (arith, fits))

  started-filelen :
      (started (inodecount entries) m).filelen
      ≡ initrd_header_size + suc (inodes_in entries) * initrd_inode_size
  started-filelen = rw inodecount_lem (omega (arith, fits))

  root-Saves :
      Saves
        (directory st entries)
        (2 ^ 32 - 1)
        (started (inodecount entries) m)
        (savefile (directory st entries) (2 ^ 32 - 1) (started (inodecount entries) m))
  unfolding space inodes_of
  root-Saves =
      savefile-Saves (directory st entries) (2 ^ 32 - 1) (started (inodecount entries) m) v
        (omega arith) (omega (arith, started-filelen, fits)) (omega (arith, fits))

  make_image-Stored :
      Stored
        (directory st entries)
        (make_image st entries m).bytes
        (make_image st entries m).inodes
        (started (inodecount entries) m).filelen
        0
        0
  unfolding make_image
  make_image-Stored = root-Saves.3

  make_image-inodes :
      0 + inodes_of (directory st entries) ≤ (make_image st entries m).header.inodecount
  unfolding make_image inodes_of
  make_image-inodes = omega (arith, inodecount_lem)

  -- Of a valid tree whose image is smaller than 2^32 bytes the tool gives an image, whose tree has as many inodes as `count_of_inodes` counted, so that they fill
  -- the table behind the header, and whose files stand behind the table up to the end of the buffer.
  pub make_image_bounds :
      (main_image st entries m ≡ some (make_image st entries m))
      × ((savefile (directory st entries) (2 ^ 32 - 1) (started (inodecount entries) m)).1.tmp_inode
          ≡ inodecount entries)
      × ((savefile (directory st entries) (2 ^ 32 - 1) (started (inodecount entries) m)).1.filelen
          ≡ image_size entries)
  unfolding main_image space inodes_of
  make_image_bounds =
      let some_inode : (inodecount entries == 0) ≡ false = ground (arith, inodecount_lem) in
      (
        rw some_inode refl,
        omega (arith, root-Saves.2, inodecount_lem),
        omega (arith, root-Saves.1, started-filelen),
      )

  -- In the image of a tree whose entries have different names shorter than 64 bytes, without '/' and NUL, whose
  -- files are bytes and whose image is smaller than 2^32 bytes, `initrd_lookup` of the names of a path leads from the root to an inode of which `initrd_read`
  -- gives what the file of the host has at the offset, where the range ends below 2^32 and the buffer has
  -- room for it.
  pub make_image-initrd_read :
      (path : List (List ℕ)) (st' : Stat) (contents : List ℕ) (offset size : ℕ) (buffer : List ℕ)
      → Below (directory st entries) path (file st' contents)
      → offset + size < 2 ^ 32
      → size ≤ length buffer
      → (ino : ℕ) × (lookup_path (make_image st entries m) 0 path ≡ some ino)
        × (initrd_read
              (make_image st entries m)
              (node_of (make_image st entries m) ino)
              offset
              size
              buffer
            ≡ some (
              length (part offset size contents),
              part offset size contents ++ drop (length (part offset size contents)) buffer,
            ))
  make_image-initrd_read path st' contents offset size buffer b small room =
      let (lo, ino, up, walk, stored, few, va) =
        lookup_path-Stored (make_image st entries m) (directory st entries) (file st' contents) path
          (started (inodecount entries) m).filelen 0 0 b v make_image-Stored make_image-inodes in
      (
        ino,
        walk,
        initrd_read-Stored (make_image st entries m) st' contents lo ino up offset size buffer
            stored few small room,
      )

  -- In the image of a tree whose entries have different names shorter than 64 bytes, without '/' and NUL, whose
  -- files are bytes and whose image is smaller than 2^32 bytes, and in the directory that a path of the tree
  -- leads to, `initrd_lookup` finds no name without '/' and NUL but those that the directory has on the
  -- host, and "." and "..".
  pub make_image-initrd_lookup :
      (path : List (List ℕ)) (st' : Stat) (entries' : HostEntries) (name : List ℕ)
      → Below (directory st entries) path (directory st' entries')
      → IsName name
      → Absent name entries'
      → name ≢ dot
      → name ≢ dots
      → (ino : ℕ) × (lookup_path (make_image st entries m) 0 path ≡ some ino)
        × (found (
              initrd_lookup
                (make_image st entries m)
                (node_of (make_image st entries m) ino)
                name
                [])
            ≡ none)
  make_image-initrd_lookup path st' entries' name b hn ab ne1 ne2 =
      let (lo, ino, up, walk, stored, few, va) =
        lookup_path-Stored (make_image st entries m) (directory st entries) (directory st' entries')
          path (started (inodecount entries) m).filelen 0 0 b v make_image-Stored
          make_image-inodes in
      (
        ino,
        walk,
        initrd_lookup-Absent (make_image st entries m) st' entries' lo ino up name va stored few hn
            ab ne1 ne2,
      )
