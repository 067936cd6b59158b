-- ===== src/Ext2/Directory.antt =====
-- Directories of an ext2 file system: `ext2_readdir` and `ext2_lookup` of src/fs/ext2/inode.c.
mod Tests
use nupkux.Base.{
  ℕ, zero, suc, ◌+◌, ◌-◌, ◌*◌, ◌==◌, leb, ltb, if◌then◌else◌, List, [], ◌∷◌, get_or, set, length,
  replicate, Bool, true, false, ◌||◌, Option, none, some, ◌>>=◌, ℤ, pos, negsuc, neg,
}
use nupkux.CString.{strlen, strncpy}
use nupkux.Devfs.{Dirent, string_of}
use nupkux.Heap.{Bytes, read32}
use nupkux.Initrd.{bytes_at}
use nupkux.Paths.{namei_nmatch}
use nupkux.Ext2.{Blocks, Ext2Inode, ext2_read}

-- VFS_NAME_LEN
abbrev pub vfs_name_len : ℕ
vfs_name_len = 255

-- `struct _ext2_d_entry` at `ent`
abbrev pub rec_len : Bytes → ℕ → ℕ
rec_len m ent = m (ent + 4) + 256 * m (ent + 5)

abbrev pub name_len : Bytes → ℕ → ℕ
name_len m ent = m (ent + 6)

abbrev pub name_at : Bytes → ℕ → ℕ → List ℕ
name_at m ent n = bytes_at m (ent + 8) n

-- The memory from the buffer on, which `ext2_read` has filled; `behind` is what stands behind it.
abbrev pub with_buffer : List ℕ → Bytes → Bytes
with_buffer out behind a = if ltb a (length out) then get_or out a 0 else behind a

-- `while (index--)` of `ext2_readdir`: the place of the entry.
unfoldable pub nth_entry : ℕ → Bytes → ℕ → ℕ → Option ℕ
nth_entry zero m ent read_size = some ent
nth_entry (suc index) m ent read_size =
    let later = nth_entry index m (ent + rec_len m ent) (read_size - rec_len m ent) in
    if leb read_size (rec_len m ent) || rec_len m ent == 0 then none else later

-- The loop of `ext2_lookup`, which takes the length of the entry that it goes to from `read_size`.
-- That is an int in the code and a number here, 0 where the int is negative: the two agree on a directory of
-- fewer than 2^31 bytes. Without fuel there is no result.
unfoldable pub lookup_loop : ℕ → List ℕ → Bytes → ℕ → ℕ → Option (Option ℕ)
lookup_loop zero name m ent read_size = none
lookup_loop (suc fuel) name m ent read_size =
    let next = ent + rec_len m ent in
    let later = lookup_loop fuel name m next (read_size - rec_len m next) in
    if read_size == 0
    then some none
    else if namei_nmatch name (name_at m ent (vfs_name_len + 1)) (name_len m ent)
    then some (some (read32 m ent))
    else if rec_len m ent == 0
    then some none
    else later

abbrev pub is_positive : ℤ → Bool
is_positive (pos zero) = false
is_positive (pos (suc n)) = true
is_positive (negsuc n) = false

-- The entry that `ext2_readdir` writes; the length is that of the name before it is cut.
abbrev pub cut_name : ℕ → ℕ → List ℕ → Dirent
cut_name ino len name = record {
  d_ino = ino;
  d_name = string_of (set name len 0);
  d_namlen = strlen (string_of name);
  d_type = 0;
}

abbrev pub dirent_from : Bytes → Option ℕ → Option (ℤ × Option Dirent)
dirent_from m none = some (neg 22, none)
dirent_from m (some ent) =
    let written =
      strncpy (replicate vfs_name_len 0) (string_of (name_at m ent vfs_name_len)) vfs_name_len
      >>= λ name. some (pos 0, some (cut_name (read32 m ent) (name_len m ent) name)) in
    if read32 m ent == 0 then some (neg 22, none) else written

-- `ext2_readdir` and `ext2_lookup` behind `ext2_read`
abbrev pub readdir_read : ℕ → ℕ → Bytes → ℤ × List ℕ → Option (ℤ × Option Dirent)
readdir_read size index behind (status, out) =
    let m = with_buffer out behind in
    if is_positive status then dirent_from m (nth_entry index m 0 size) else some (status, none)

abbrev pub lookup_read : ℕ → List ℕ → Bytes → ℤ × List ℕ → Option (Option ℕ)
lookup_read size name behind (status, out) =
    let found = lookup_loop (suc (suc size)) name (with_buffer out behind) 0 size in
    if is_positive status then found else some none

-- `fresh` is what `malloc` gives for the directory and `temp` for the temporary block.
module _ (read : ℕ → ℕ → Option (List ℕ)) (sb : Blocks) where
  -- `ext2_readdir`: the status, and the entry where that is 0; `d_type` is not set.
  unfoldable pub ext2_readdir : Ext2Inode → ℕ → List ℕ → List ℕ → Bytes → Option (ℤ × Option Dirent)
  ext2_readdir dir index fresh temp behind =
      ext2_read read sb dir 0 dir.size fresh temp >>= readdir_read dir.size index behind

  -- `ext2_lookup`: the number that it calls `iget` for
  unfoldable pub ext2_lookup : Ext2Inode → List ℕ → List ℕ → List ℕ → Bytes → Option (Option ℕ)
  ext2_lookup dir name fresh temp behind =
      ext2_read read sb dir 0 dir.size fresh temp >>= lookup_read dir.size name behind
