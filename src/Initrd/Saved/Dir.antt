-- ===== src/Initrd/Saved/Dir.antt =====
-- The inode and the first entries of a directory in `savedir` of tools/mkinitrd/main.c.
use nupkux.Base.{ℕ, suc, ◌+◌, ◌*◌, ◌%◌, ◌^◌, ◌≡◌, ◌<◌, refl, ◌∙◌, ap, subst, arith}
use nupkux.Initrd.{d_entry_size}
use nupkux.Paths.Walk.{dot, dots}
use nupkux.Initrd.Make.{
  Stat, directory, HostEntries, type_directory, hardlinks, Making, put_link, put_inode, open_dir,
  dir_inode,
}
use nupkux.Initrd.Layout.{
  listed, inodes_of, space, Kept, Link, Link-Kept, inode_of, Stored, StoredEntries,
  StoredEntries-Kept, ValidEntries,
}
use nupkux.Initrd.Writes.{put_link-Link, put_link-before, count_of_inodes-listed}
use nupkux.Initrd.Saved.File.{Saves, SavesEntries, upward, put_inode_self, put_inode-other}

-- The directory's own entries and its place
module _ (st : Stat) (entries : HostEntries) (parent : ℕ) (s : Making)
    (fits : s.filelen + space (directory st entries) < 2 ^ 32)
    (few : s.tmp_inode + inodes_of (directory st entries) < 2 ^ 32) (l : parent < 2 ^ 32) where
  dir_size : (dir_inode st entries s).size ≡ d_entry_size * (listed entries + hardlinks)
  unfolding space
  dir_size =
      let n = count_of_inodes-listed entries (omega (arith, fits)) in
      ap (λ k. d_entry_size * (k + hardlinks) % 2 ^ 32) n ∙ omega (arith, fits)

  unfoldable pub opened : Making
  opened = open_dir (dir_inode st entries s) parent s

  pub opened-filelen : opened.filelen ≡ s.filelen + d_entry_size * (listed entries + hardlinks)
  unfolding opened space
  opened-filelen = ap (λ k. (s.filelen + k) % 2 ^ 32) dir_size ∙ omega (arith, fits)

  pub opened-tmp_inode : opened.tmp_inode ≡ suc s.tmp_inode
  unfolding opened inodes_of
  opened-tmp_inode = omega (arith, few)

  upward_lt : upward parent s.tmp_inode < 2 ^ 32
  unfolding inodes_of
  upward_lt = ground (arith, few, l)

  opened-Kept : Kept 0 s.filelen s.bytes opened.bytes
  unfolding opened
  opened-Kept x p q =
      put_link-before (s.filelen + d_entry_size) dots (upward parent s.tmp_inode) _ x p
        (omega (arith, q))
      ∙ put_link-before s.filelen dot s.tmp_inode s.bytes x p q

  opened-dots : Link opened.bytes (s.filelen + d_entry_size) dots (upward parent s.tmp_inode)
  unfolding opened
  opened-dots =
      put_link-Link (s.filelen + d_entry_size) dots (upward parent s.tmp_inode) _ upward_lt

  opened-dot : Link opened.bytes s.filelen dot s.tmp_inode
  unfolding opened inodes_of
  opened-dot =
      Link-Kept (put_link s.filelen dot s.tmp_inode s.bytes) opened.bytes s.filelen dot s.tmp_inode
        (omega arith)
        (λ x p q.
          put_link-before (s.filelen + d_entry_size) dots (upward parent s.tmp_inode) _ x
            (omega arith) q)
        (put_link-Link s.filelen dot s.tmp_inode s.bytes (omega (arith, few)))

  module _ (v : ValidEntries entries) (s' : Making)
      (h : SavesEntries entries s.filelen s.tmp_inode hardlinks opened s') where
    unfoldable pub closed : ℕ × Making
    closed = (s.tmp_inode, put_inode (dir_inode st entries s) s')

    closed-Stored :
        Stored
          (directory st entries)
          closed.1.bytes
          closed.1.inodes
          s.filelen
          s.tmp_inode
          (upward parent s.tmp_inode)
    unfolding closed Stored
    closed-Stored = (
      put_inode_self (dir_inode st entries s) s'
          ∙ ap (inode_of st s.tmp_inode s.filelen type_directory) dir_size,
      Link-Kept opened.bytes s'.bytes s.filelen dot s.tmp_inode (omega arith)
          (λ x p q. h.3 x (omega arith) (omega (arith, q))) opened-dot,
      Link-Kept opened.bytes s'.bytes (s.filelen + d_entry_size) dots (upward parent s.tmp_inode)
          (omega arith) (λ x p q. h.3 x (omega arith) (omega (arith, q))) opened-dots,
      StoredEntries-Kept entries s'.bytes s'.bytes s'.inodes closed.1.inodes s.filelen 2
          (s.filelen + d_entry_size * (listed entries + hardlinks)) (suc s.tmp_inode) s.tmp_inode v
          (λ x p q. refl) (λ x p q. refl)
          (λ i p q. put_inode-other (dir_inode st entries s) s' i (λ e. omega (arith, e, p)))
          (subst
            (λ lo.
              StoredEntries entries s'.bytes s'.inodes s.filelen 2 lo (suc s.tmp_inode) s.tmp_inode)
            opened-filelen
            (subst
              (λ ino.
                StoredEntries entries s'.bytes s'.inodes s.filelen 2 opened.filelen ino s.tmp_inode)
              opened-tmp_inode h.2)),
    )

    pub closed-Saves : Saves (directory st entries) parent s closed
    unfolding closed opened space inodes_of
    closed-Saves = (
      refl,
      omega (arith, h.0, opened-filelen),
      omega (arith, h.1, opened-tmp_inode),
      closed-Stored,
      (λ x p q. h.3 x p (omega (arith, q)) ∙ opened-Kept x p q),
      (λ i p q.
          put_inode-other (dir_inode st entries s) s' i (λ e. omega (arith, e, q))
          ∙ h.5 i p (omega (arith, q, opened-tmp_inode))),
    )
