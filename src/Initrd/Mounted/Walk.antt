-- ===== src/Initrd/Mounted/Walk.antt =====
-- `initrd_lookup` along a path, in an image that stores a tree of files (src/fs/initrdfs/inode.c).
use nupkux.Base.{
  ℕ, suc, ◌+◌, ◌*◌, ◌/◌, ◌^◌, ltb, ◌≡◌, ◌≢◌, ◌≤◌, ◌<◌, ◌⊎◌, inl, inr, refl, sym, ◌∙◌, ap, subst,
  List, [], ◌∷◌, ◌++◌, false, Bool-cases, Option, none, some, ◌>>=◌, length, drop, arith,
}
use nupkux.Paths.Match.{IsName}
use nupkux.Vnodes
use nupkux.Initrd.{
  InitrdInode, InitrdNode, Image, d_entry_size, filled, initrd_read_inode, initrd_read, got,
  initrd_lookup, last_match,
}
use nupkux.Paths.Walk.{dot, dots}
use nupkux.Initrd.Make.{
  Stat, HostFile, file, directory, HostEntries, end, entry, is_dots, hardlinks, type_directory,
  type_file,
}
use nupkux.Initrd.Layout.{
  listed, inodes_of, inodes_in, space, Stored, StoredEntries, Valid, ValidEntries, inode_of, Link,
}
use nupkux.Initrd.Reading.{part, read_from-part}
use nupkux.Initrd.Lookup.{last_match-hit, last_match-miss, last_match-Absent, NotIn-Absent, Absent}

-- The entry of the name is the file.
abbrev pub Listed : List ℕ → HostFile → HostEntries → Type 0
Listed name f end = ⊥
Listed name f (entry name' f' entries) =
    ((is_dots name' ≡ false) × (name ≡ name') × (f ≡ f')) ⊎ Listed name f entries

-- The path leads from the first file to the second.
pub data Below : HostFile → List (List ℕ) → HostFile → Type 0 where
  here : {f : HostFile} → Below f [] f
  inside :
      {st : Stat} {entries : HostEntries} {f g : HostFile} {path : List (List ℕ)} (name : List ℕ)
      → Listed name f entries
      → Below f path g
      → Below (directory st entries) (name ∷ path) g

abbrev pub blank_node : InitrdNode
blank_node = record {
  flags = 0;
  gid = 0;
  uid = 0;
  mode = 0;
  nlinks = 0;
  size = 0;
  initrdfs_i = none;
}

-- The number that `initrd_lookup` finds
abbrev pub found : Option (Option ℕ × List Vnodes.Vnode) → Option ℕ
found none = none
found (some r) = r.0

module _ (v : Image) where
  -- The vnode that `iget` of the number sets up
  abbrev pub node_of : ℕ → InitrdNode
  node_of ino = initrd_read_inode v ino blank_node

  -- `initrd_lookup` of one name after the other
  unfoldable pub lookup_path : ℕ → List (List ℕ) → Option ℕ
  lookup_path ino [] = some ino
  lookup_path ino (name ∷ path) =
      found (initrd_lookup v (node_of ino) name []) >>= λ ino'. lookup_path ino' path

  node_of-filled : (ino : ℕ) → ino ≤ v.header.inodecount → node_of ino ≡ filled (v.inodes ino)
  unfolding initrd_read_inode
  node_of-filled ino h =
      let t : ltb v.header.inodecount ino ≡ false = ground (arith, h) in rw t refl

  found-got : (o : Option ℕ) (vs : List Vnodes.Vnode) → found (some (got o vs)) ≡ o
  found-got none vs = refl
  found-got (some ino) vs = refl

  pub lookup_in_dir :
      (st : Stat) (lo ino n : ℕ) (name : List ℕ)
      → ino ≤ v.header.inodecount
      → v.inodes ino ≡ inode_of st ino lo type_directory (d_entry_size * n)
      → found (initrd_lookup v (node_of ino) name [])
        ≡ last_match v (inode_of st ino lo type_directory (d_entry_size * n)) n name
  unfolding initrd_lookup
  lookup_in_dir st lo ino n name h e =
      let full : d_entry_size * n / d_entry_size ≡ n = omega arith in
      rw (node_of-filled ino h) (rw e (rw e (rw full (found-got _ []))))

  listed-Stored :
      (entries : HostEntries) (inode : InitrdInode) (i lo ino up : ℕ) (name : List ℕ) (f : HostFile)
      → ValidEntries entries
      → StoredEntries entries v.bytes v.inodes inode.offset i lo ino up
      → Listed name f entries
      → (lo' : ℕ) × (ino' : ℕ) × (last_match v inode (i + listed entries) name ≡ some ino')
        × Stored f v.bytes v.inodes lo' ino' up
        × (ino' + inodes_of f ≤ ino + inodes_in entries)
        × Valid f
  unfolding StoredEntries ValidEntries listed inodes_in
  listed-Stored end inode i lo ino up name f va h l = absurd l
  listed-Stored (entry name' f' entries) inode i lo ino up name f (vn, new, vf, va) h
        (inl (shown, same, same_f)) =
      let (link, below, rest) = rw shown at h in
      let shift : i + suc (listed entries) ≡ suc i + listed entries = omega arith in
      let hit =
        last_match-Absent v inode entries (suc i) (lo + space f') (ino + inodes_of f') up name' vn.0
          va (NotIn-Absent name' entries new) rest
        ∙ last_match-hit v inode i ino name' vn link in
      rw (shown, shift, same, same_f) (lo, ino, hit, below, omega arith, vf)
  listed-Stored (entry name' f' entries) inode i lo ino up name f (vn, new, vf, va) h (inr l) =
      elim (Bool-cases (is_dots name')) [
        | inl e ↦ rw e (listed-Stored entries inode i lo ino up name f va (rw e at h) l)
        | inr e ↦
            let (link, below, rest) = rw e at h in
            let shift : i + suc (listed entries) ≡ suc i + listed entries = omega arith in
            let (lo', ino', hit, stored, few, vg) =
              listed-Stored entries inode (suc i) (lo + space f') (ino + inodes_of f') up name f va
                rest l in
            rw (e, shift) (lo', ino', hit, stored, omega (arith, few), vg)
      ]

  -- A path that leads to a file is found, and the inode of the file with it.
  pub lookup_path-Stored :
      (f g : HostFile) (path : List (List ℕ)) (lo ino up : ℕ)
      → Below f path g
      → Valid f
      → Stored f v.bytes v.inodes lo ino up
      → ino + inodes_of f ≤ v.header.inodecount
      → (lo' : ℕ) × (ino' : ℕ) × (up' : ℕ) × (lookup_path ino path ≡ some ino')
        × Stored g v.bytes v.inodes lo' ino' up'
        × (ino' ≤ v.header.inodecount)
        × Valid g
  unfolding lookup_path Stored Valid inodes_of
  lookup_path-Stored f g path lo ino up here va h few =
      (lo, ino, up, refl, h, omega (arith, few), va)
  lookup_path-Stored f g path lo ino up (inside {st} {entries} {f = f'} {path = rest} name l b) va h
        few =
      let n = listed entries + hardlinks in
      let inode = inode_of st ino lo type_directory (d_entry_size * n) in
      let (lo', ino', hit, stored, few', vf) =
        listed-Stored entries inode 2 (lo + d_entry_size * n) (suc ino) ino name f' va h.3 l in
      let (lo'', ino'', up'', found', stored', few'', vg) =
        lookup_path-Stored f' g rest lo' ino' ino b vf stored (omega (arith, few', few)) in
      let swap : 2 + listed entries ≡ n = omega arith in
      let first : found (initrd_lookup v (node_of ino) name []) ≡ some ino' =
        lookup_in_dir st lo ino n name (omega (arith, few)) h.0
        ∙ ap (λ k. last_match v inode k name) (sym swap)
        ∙ hit in
      (lo'', ino'', up'', rw first found', stored', few'', vg)

  -- The inode of a file
  pub initrd_read-Stored :
      (st : Stat) (contents : List ℕ) (lo ino up offset size : ℕ) (buffer : List ℕ)
      → Stored (file st contents) v.bytes v.inodes lo ino up
      → ino ≤ v.header.inodecount
      → offset + size < 2 ^ 32
      → size ≤ length buffer
      → initrd_read v (node_of ino) offset size buffer
        ≡ some (
          length (part offset size contents),
          part offset size contents ++ drop (length (part offset size contents)) buffer,
        )
  unfolding initrd_read Stored
  initrd_read-Stored st contents lo ino up offset size buffer (e, h) few small room =
      rw (node_of-filled ino few) (
        rw e (
          rw e (
            read_from-part v (inode_of st ino lo type_file (length contents)) offset size contents
              buffer refl h small room)))

  -- A name that is not in the directory
  pub initrd_lookup-Absent :
      (st : Stat) (entries : HostEntries) (lo ino up : ℕ) (name : List ℕ)
      → Valid (directory st entries)
      → Stored (directory st entries) v.bytes v.inodes lo ino up
      → ino ≤ v.header.inodecount
      → IsName name
      → Absent name entries
      → name ≢ dot
      → name ≢ dots
      → found (initrd_lookup v (node_of ino) name []) ≡ none
  unfolding Stored Valid last_match
  initrd_lookup-Absent st entries lo ino up name va (e, self, parent, h) few hn ab ne1 ne2 =
      let n = listed entries + hardlinks in
      let inode = inode_of st ino lo type_directory (d_entry_size * n) in
      let swap : n ≡ 2 + listed entries = omega arith in
      let at : lo + d_entry_size * 0 ≡ lo = omega arith in
      lookup_in_dir st lo ino n name few e
      ∙ ap (λ k. last_match v inode k name) swap
      ∙ last_match-Absent v inode entries 2 (lo + d_entry_size * n) (suc ino) ino name hn va ab h
      ∙ last_match-miss v inode 1 up name dots hn ((refl, (refl, tt)), (omega arith), omega arith)
          ne2 parent
      ∙ last_match-miss v inode 0 ino name dot hn ((refl, tt), (omega arith), omega arith) ne1
          (subst (λ a. Link v.bytes a dot ino) (sym at) self)
