-- ===== src/Initrd/Saved.antt =====
-- `savefile` and `savedir` of tools/mkinitrd/main.c store every file of a tree.
pub mod File
pub mod Dir
pub mod Entry
use nupkux.Base.{
  ℕ, zero, suc, ◌+◌, ◌-◌, ◌*◌, ◌%◌, ◌^◌, ◌==◌, ◌≡◌, ◌≢◌, ◌≤◌, ◌<◌, ◌⊎◌, inl, inr, refl, sym, ◌∙◌,
  ap, subst, if◌then◌else◌, List, [], ◌∷◌, true, false, Bool-cases, length, take, arith,
}
use nupkux.Heap.{write32}
use nupkux.Programs.Stack.Words.{write32-outside}
use nupkux.Initrd.{InitrdInode, d_entry_size}
use nupkux.Paths.Walk.{dot, dots}
use nupkux.Initrd.Make.{
  Stat, HostFile, file, directory, HostEntries, end, entry, is_dots, type_file, type_directory,
  hardlinks, Making, store_file, put_link, put_name, put_inode, in_bytes, open_dir, dir_inode,
  link_saved, savefile, save_entries,
}
use nupkux.Initrd.Layout.{
  listed, inodes_of, inodes_in, space, space_in, Kept, IsAt-Kept, Link, Link-Kept, inode_of, Stored,
  StoredEntries, Stored-Kept, StoredEntries-Kept, Valid, ValidEntries, ValidName,
}
use nupkux.Initrd.Writes.{
  put_contents-before, put_contents-Contents, put_name-before, put_name-behind, put_name-IsAt,
  put_link-Link, put_link-before, write32-Link, count_of_inodes-listed,
}
use nupkux.Initrd.Saved.File.{Saves, SavesEntries, store_file-Saves}
use nupkux.Initrd.Saved.Dir.{opened, opened-filelen, opened-tmp_inode, closed, closed-Saves}
use nupkux.Initrd.Saved.Entry.{place, named, linked, entry-SavesEntries}

mutual
  unfolding opened closed place named linked savefile save_entries Valid ValidEntries StoredEntries
      listed inodes_in space_in

  pub savefile-Saves :
      (f : HostFile) (parent : ℕ) (s : Making)
      → Valid f
      → parent < 2 ^ 32
      → s.filelen + space f < 2 ^ 32
      → s.tmp_inode + inodes_of f < 2 ^ 32
      → Saves f parent s (savefile f parent s)
  savefile-Saves (file st contents) parent s v l fits few =
      store_file-Saves st contents parent s v fits few
  savefile-Saves (directory st entries) parent s v l fits few =
      let inode = dir_inode st entries s in
      let s0 = open_dir inode parent s in
      let len = opened-filelen st entries parent s fits few l in
      let num = opened-tmp_inode st entries parent s fits few l in
      closed-Saves st entries parent s fits few l v (save_entries entries inode hardlinks s0) (
        save_entries-SavesEntries entries inode hardlinks s0 v (omega (arith, len))
          (omega (arith, num)) (omega (arith, len, fits)) (omega (arith, num, few)))

  save_entries-SavesEntries :
      (entries : HostEntries) (inode : InitrdInode) (i : ℕ) (s : Making)
      → ValidEntries entries
      → inode.offset + d_entry_size * (i + listed entries) ≤ s.filelen
      → inode.inode < s.tmp_inode
      → s.filelen + space_in entries < 2 ^ 32
      → s.tmp_inode + inodes_in entries < 2 ^ 32
      → SavesEntries entries inode.offset inode.inode i s (save_entries entries inode i s)
  save_entries-SavesEntries end inode i s v room own fits few =
      (omega arith, omega arith, tt, (λ x p q. refl), (λ x p q. refl), (λ x p q. refl))
  save_entries-SavesEntries (entry name f entries) inode i s (vn, new, vf, v) room own fits few =
      elim (Bool-cases (is_dots name)) [
        | inl e ↦ rw e (
            save_entries-SavesEntries entries inode i s v (rw e at room) own (rw e at fits)
              (rw e at few))
        | inr e ↦
            let room' = rw e at room in
            let fits' = rw e at fits in
            let few' = rw e at few in
            let s1 = named name f entries inode i s e vn vf v room' own few' in
            let r = savefile f inode.inode s1 in
            let h =
              savefile-Saves f inode.inode s1 vf (omega (arith, own, few')) (omega (arith, fits'))
                (omega (arith, few')) in
            let s2 = linked name f entries inode i s e vn vf v room' own few' r h in
            let s3 = save_entries entries inode (suc i) s2 in
            let skipped = save_entries entries inode i s in
            let h' =
              save_entries-SavesEntries entries inode (suc i) s2 v (omega (arith, room', h.1))
                (omega (arith, own, h.2)) (omega (arith, fits', h.1)) (omega (arith, few', h.2)) in
            subst
              (λ b.
                SavesEntries (entry name f entries) inode.offset inode.inode i s
                  (if b then skipped else s3))
              (sym e)
              (entry-SavesEntries name f entries inode i s e vn vf v room' own few' r h s3 h')
      ]
