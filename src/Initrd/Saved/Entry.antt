-- ===== src/Initrd/Saved/Entry.antt =====
-- One turn of the loop of `savedir` of tools/mkinitrd/main.c.
use nupkux.Base.{
  ℕ, suc, ◌+◌, ◌*◌, ◌^◌, ◌≡◌, ◌≤◌, ◌<◌, ◌⊎◌, inl, inr, refl, sym, ◌∙◌, subst, List, false, arith,
}
use nupkux.Heap.{write32}
use nupkux.Programs.Stack.Words.{write32-outside}
use nupkux.Initrd.{InitrdInode, d_entry_size}
use nupkux.Initrd.Make.{
  HostFile, HostEntries, entry, is_dots, Making, put_name, in_bytes, link_saved,
}
use nupkux.Initrd.Layout.{
  listed, inodes_of, inodes_in, space, space_in, IsAt-Kept, Link, Link-Kept, Stored, StoredEntries,
  Stored-Kept, Valid, ValidEntries, ValidName,
}
use nupkux.Initrd.Writes.{put_name-before, put_name-behind, put_name-IsAt, write32-Link}
use nupkux.Initrd.Saved.File.{Saves, SavesEntries, upward}

-- One entry of the loop, with what `savefile` and the rest of the loop do
module _ (name : List ℕ) (f : HostFile) (entries : HostEntries) (inode : InitrdInode) (i : ℕ)
    (s : Making) (shown : is_dots name ≡ false) (vn : ValidName name) (vf : Valid f)
    (v : ValidEntries entries)
    (room : inode.offset + d_entry_size * (i + suc (listed entries)) ≤ s.filelen)
    (own : inode.inode < s.tmp_inode)
    (few : s.tmp_inode + (inodes_of f + inodes_in entries) < 2 ^ 32) where
  unfoldable pub place : ℕ
  place = inode.offset + d_entry_size * i

  unfoldable pub named : Making
  named = in_bytes (put_name place name) s

  module _ (r : ℕ × Making) (h : Saves f inode.inode named r) where
    unfoldable pub linked : Making
    linked = link_saved place r

    linked-Link : Link linked.bytes place name s.tmp_inode
    unfolding linked named place
    linked-Link =
        subst (λ k. Link (write32 r.1.bytes place k) place name s.tmp_inode) (sym h.0)
          (write32-Link place name s.tmp_inode r.1.bytes (omega (arith, few)) (
            IsAt-Kept named.bytes r.1.bytes (place + 4) name
              (λ x p q. h.4 x (omega arith) (omega (arith, q, room, vn.2)))
              (put_name-IsAt place name s.bytes)))

    linked-Kept :
        (x : ℕ)
        → (x < place) ⊎ (place + d_entry_size ≤ x)
        → x < s.filelen
        → linked.bytes x ≡ s.bytes x
    unfolding linked named place
    linked-Kept x (inl p) q =
        write32-outside r.1.bytes place r.0 x (inl p)
        ∙ h.4 x (omega arith) q
        ∙ put_name-before place name s.bytes x (omega arith) (omega (arith, p))
    linked-Kept x (inr p) q =
        write32-outside r.1.bytes place r.0 x (inr (omega (arith, p)))
        ∙ h.4 x (omega arith) q
        ∙ put_name-behind place name s.bytes x vn.2 p

    linked-Stored : Stored f linked.bytes linked.inodes s.filelen s.tmp_inode inode.inode
    unfolding linked named place
    linked-Stored =
        let up : upward inode.inode s.tmp_inode ≡ inode.inode = ground (arith, own, few) in
        Stored-Kept f r.1.bytes linked.bytes r.1.inodes linked.inodes s.filelen s.tmp_inode
          inode.inode vf
          (λ x p q. write32-outside r.1.bytes place r.0 x (inr (omega (arith, p, room))))
          (λ j p q. refl)
          (subst (λ k. Stored f r.1.bytes r.1.inodes s.filelen s.tmp_inode k) up h.3)

    module _ (s' : Making)
        (h' : SavesEntries entries inode.offset inode.inode (suc i) linked s') where
      pub entry-SavesEntries : SavesEntries (entry name f entries) inode.offset inode.inode i s s'
      unfolding StoredEntries space_in inodes_in listed
      entry-SavesEntries =
          let len : linked.filelen ≡ s.filelen + space f = unfold linked named in h.1 in
          let num : linked.tmp_inode ≡ s.tmp_inode + inodes_of f = unfold linked named in h.2 in
          let at : place ≡ inode.offset + d_entry_size * i = unfold place in refl in
          rw shown (
            omega (arith, h'.0, len),
            omega (arith, h'.1, num),
            (
              unfold place in
                  Link-Kept linked.bytes s'.bytes place name s.tmp_inode vn.2
                    (λ x p q. h'.3 x (omega arith) (omega (arith, q, at))) linked-Link,
              Stored-Kept f linked.bytes s'.bytes linked.inodes s'.inodes s.filelen s.tmp_inode
                  inode.inode vf (λ x p q. h'.4 x (omega (arith, p, room)) (omega (arith, q, len)))
                  (λ j p q. h'.5 j (omega arith) (omega (arith, q, num))) linked-Stored,
              subst
                  (λ lo.
                    StoredEntries entries s'.bytes s'.inodes inode.offset (suc i) lo
                      (s.tmp_inode + inodes_of f) inode.inode)
                  len
                  (subst
                    (λ n.
                      StoredEntries entries s'.bytes s'.inodes inode.offset (suc i) linked.filelen n
                        inode.inode)
                    num h'.2),
            ),
            (λ x p q.
                h'.3 x p (omega (arith, q))
                ∙ linked-Kept x (inl (omega (arith, q, at))) (omega (arith, q, room))),
            (λ x p q.
                h'.4 x (omega (arith, p)) (omega (arith, q, len))
                ∙ linked-Kept x (inr (omega (arith, p, at))) q),
            (λ j p q. h'.5 j p (omega (arith, q, num)) ∙ (unfold linked named in h.5 j p q)),
          )
