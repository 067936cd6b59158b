-- ===== src/Initrd/Saved/File.antt =====
-- What the result of `savefile` is to be, and that of a file (tools/mkinitrd/main.c).
use nupkux.Base.{
  ℕ, zero, suc, ◌+◌, ◌-◌, ◌*◌, ◌%◌, ◌^◌, ◌==◌, ◌≡◌, ◌≢◌, ◌≤◌, ◌<◌, refl, ap, if◌then◌else◌, List,
  [], ◌∷◌, true, false, length, take, arith,
}
use nupkux.Initrd.{InitrdInode, d_entry_size}
use nupkux.Initrd.Make.{Stat, HostFile, file, HostEntries, type_file, Making, store_file, put_inode}
use nupkux.Initrd.Layout.{
  listed, inodes_of, inodes_in, space, space_in, Kept, inode_of, Stored, StoredEntries, Valid,
}
use nupkux.Initrd.Writes.{put_contents-before, put_contents-Contents}

-- The parent of the root is the root.
abbrev pub upward : ℕ → ℕ → ℕ
upward parent ino = if parent == 2 ^ 32 - 1 then ino else parent

-- The result of `savefile`: the file is stored behind what was there, which stays.
abbrev pub Saves : HostFile → ℕ → Making → ℕ × Making → Type 0
Saves f parent s r =
    (r.0 ≡ s.tmp_inode)
    × (r.1.filelen ≡ s.filelen + space f)
    × (r.1.tmp_inode ≡ s.tmp_inode + inodes_of f)
    × Stored f r.1.bytes r.1.inodes s.filelen s.tmp_inode (upward parent s.tmp_inode)
    × Kept 0 s.filelen s.bytes r.1.bytes
    × Kept 0 s.tmp_inode s.inodes r.1.inodes

-- The result of the loop of `savedir` from the entry `i` on, for a directory with entries from `off` on
abbrev pub SavesEntries : HostEntries → ℕ → ℕ → ℕ → Making → Making → Type 0
SavesEntries entries off ino i s s' =
    (s'.filelen ≡ s.filelen + space_in entries)
    × (s'.tmp_inode ≡ s.tmp_inode + inodes_in entries)
    × StoredEntries entries s'.bytes s'.inodes off i s.filelen s.tmp_inode ino
    × Kept 0 (off + d_entry_size * i) s.bytes s'.bytes
    × Kept (off + d_entry_size * (i + listed entries)) s.filelen s.bytes s'.bytes
    × Kept 0 s.tmp_inode s.inodes s'.inodes

pub put_inode_self :
    (inode : InitrdInode) (s : Making) → (put_inode inode s).inodes inode.inode ≡ inode
put_inode_self inode s = let t : (inode.inode == inode.inode) ≡ true = ground arith in rw t refl

pub put_inode-other :
    (inode : InitrdInode) (s : Making) (i : ℕ)
    → i ≢ inode.inode
    → (put_inode inode s).inodes i ≡ s.inodes i
put_inode-other inode s i ne = let t : (i == inode.inode) ≡ false = ground (arith, ne) in rw t refl

take_all : (n : ℕ) (bs : List ℕ) → length bs ≤ n → take n bs ≡ bs
take_all zero [] h = refl
take_all zero (b ∷ bs) h = absurd (omega (arith, h))
take_all (suc n) [] h = refl
take_all (suc n) (b ∷ bs) h = ap (λ l. b ∷ l) (take_all n bs (omega (arith, h)))

pub store_file-Saves :
    (st : Stat) (contents : List ℕ) (parent : ℕ) (s : Making)
    → Valid (file st contents)
    → s.filelen + space (file st contents) < 2 ^ 32
    → s.tmp_inode + inodes_of (file st contents) < 2 ^ 32
    → Saves (file st contents) parent s (store_file st contents s)
unfolding Stored Valid space inodes_of
store_file-Saves st contents parent s v fits few =
    let size : length contents % 2 ^ 32 ≡ length contents = omega (arith, fits) in
    let whole : take (length contents % 2 ^ 32) contents ≡ contents =
      take_all (length contents % 2 ^ 32) contents (omega (arith, size)) in
    (
      refl,
      omega (arith, fits),
      omega (arith, few),
      (
        rw size (put_inode_self (inode_of st s.tmp_inode s.filelen type_file (length contents)) s),
        rw whole (put_contents-Contents s.filelen contents s.bytes v),
      ),
      (λ x p q.
          put_contents-before s.filelen (take (length contents % 2 ^ 32) contents) s.bytes x p q),
      (λ i p q. let t : (i == s.tmp_inode) ≡ false = ground (arith, q) in rw t refl),
    )
