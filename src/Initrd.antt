-- ===== src/Initrd.antt =====
-- The RAM disk file system, src/fs/initrdfs; its child Make has the tool that writes the image.
pub mod Make
pub mod Layout
pub mod Writes
pub mod Saved
pub mod Reading
pub mod Lookup
pub mod Mounted
mod Tests
use nupkux.Base.{
  ℕ, zero, suc, ◌+◌, ◌-◌, ◌*◌, ◌/◌, ◌%◌, ◌^◌, ◌==◌, ltb, if◌then◌else◌, List, [], ◌∷◌, ◌++◌, Bool,
  true, false, Option, none, some, ◌>>=◌, set, replicate, length, ℤ, pos, neg,
}
use nupkux.CString.{strlen, strncpy}
use nupkux.Devfs.{Dirent, string_of}
use nupkux.Drivers.{copy_to}
use nupkux.Heap.{Bytes, read32}
use nupkux.Paths.{namei_match}
use nupkux.Vnodes
use nupkux.Vnodes.{iget}

abbrev pub initrd_filename_len : ℕ
initrd_filename_len = 64

abbrev pub initrd_magic : ℕ
initrd_magic = 1414090313

-- sizeof(initrd_header), sizeof(initrd_inode) and sizeof(initrd_d_entry)
abbrev pub initrd_header_size : ℕ
initrd_header_size = 12

abbrev pub initrd_inode_size : ℕ
initrd_inode_size = 28

abbrev pub d_entry_size : ℕ
d_entry_size = 68

-- `struct _initrd_inode`
pub record InitrdInode : Type 0 where
  pub inode : ℕ
  pub offset : ℕ
  pub mode : ℕ
  pub gid : ℕ
  pub uid : ℕ
  pub flags : ℕ
  pub size : ℕ

-- `struct _initrd_header`
pub record Header : Type 0 where
  pub magic : ℕ
  pub inodecount : ℕ
  pub entries : ℕ

-- The image as both programs read it: the header, the inodes behind it as an array, and the bytes
-- by their distance from its start.
pub record Image : Type 0 where
  pub header : Header
  pub inodes : ℕ → InitrdInode
  pub bytes : Bytes

-- The fields of a vnode that `initrd_read_inode` sets, `u.initrdfs_i` by its index
pub record InitrdNode : Type 0 where
  pub flags : ℕ
  pub gid : ℕ
  pub uid : ℕ
  pub mode : ℕ
  pub nlinks : ℕ
  pub size : ℕ
  pub initrdfs_i : Option ℕ

-- The `n` bytes from `a` on
abbrev pub bytes_at : Bytes → ℕ → ℕ → List ℕ
bytes_at m a zero = []
bytes_at m a (suc n) = m a ∷ bytes_at m (a + 1) n

-- The inode with the fields of the image's one
abbrev pub filled : InitrdInode → InitrdNode
filled itnode = record {
  flags = itnode.flags % 256;
  gid = itnode.gid % 2 ^ 16;
  uid = itnode.uid % 2 ^ 16;
  mode = itnode.mode;
  nlinks = 1;
  size = itnode.size;
  initrdfs_i = some itnode.inode;
}

-- The inode number that `initrd_lookup` finds, and the vnodes of the super block behind its `iget`
abbrev pub got : Option ℕ → List Vnodes.Vnode → Option ℕ × List Vnodes.Vnode
got none vnodes = (none, vnodes)
got (some ino) vnodes = (some ino, iget vnodes ino)

-- `entries[i]` of the directory with the inode
abbrev pub entry_at : InitrdInode → ℕ → ℕ
entry_at inode i = inode.offset + d_entry_size * i

-- `initrd_write`
abbrev pub initrd_write : ℤ
initrd_write = neg 22

module _ (v : Image) where
  -- `initrd_read_inode` of the vnode with the number `ino`
  unfoldable pub initrd_read_inode : ℕ → InitrdNode → InitrdNode
  initrd_read_inode ino node = if ltb v.header.inodecount ino then node else filled (v.inodes ino)

  -- `initrd_read` of the file with the inode: the number of bytes, and the caller's buffer.
  abbrev pub read_from : InitrdInode → ℕ → ℕ → List ℕ → Option (ℕ × List ℕ)
  read_from inode offset size buffer =
      let size' = if ltb inode.size ((offset + size) % 2 ^ 32) then inode.size - offset else size in
      if ltb inode.size offset
      then some (0, buffer)
      else copy_to buffer 0 size' (bytes_at v.bytes (inode.offset + offset) size') >>= λ out.
          some (size', out)

  -- `none` is an access by a null pointer or past the buffer.
  unfoldable pub initrd_read : InitrdNode → ℕ → ℕ → List ℕ → Option (ℕ × List ℕ)
  initrd_read node offset size buffer =
      node.initrdfs_i >>= λ i. read_from (v.inodes i) offset size buffer

  abbrev pub entry_inode : InitrdInode → ℕ → ℕ
  entry_inode inode i = read32 v.bytes (entry_at inode i)

  -- The string in the array; `strncpy` takes no more of it.
  abbrev pub filename_at : InitrdInode → ℕ → List ℕ
  filename_at inode i = string_of (bytes_at v.bytes (entry_at inode i + 4) initrd_filename_len)

  -- The entry that `initrd_readdir` writes
  abbrev pub dirent_at : ℕ → List ℕ → Dirent
  dirent_at ino name = record {
    d_ino = ino;
    d_name = string_of name;
    d_namlen = strlen (string_of name);
    d_type = (v.inodes ino).flags % 256;
  }

  abbrev pub readdir_from : InitrdInode → ℕ → Option (ℤ × Option Dirent)
  readdir_from inode index =
      let found =
        strncpy (replicate initrd_filename_len 0) (filename_at inode index) initrd_filename_len
        >>= λ name. some (
          pos 0,
          some (dirent_at (entry_inode inode index) (set name (initrd_filename_len - 1) 0)),
        ) in
      if ltb index (inode.size / d_entry_size) then found else some (neg 22, none)

  unfoldable pub initrd_readdir : InitrdNode → ℕ → Option (ℤ × Option Dirent)
  initrd_readdir dir index = dir.initrdfs_i >>= λ i. readdir_from (v.inodes i) index

  -- `while (i--)` of `initrd_lookup`: the number of the last entry that matches.
  unfoldable pub last_match : InitrdInode → ℕ → List ℕ → Option ℕ
  last_match inode zero name = none
  last_match inode (suc i) name =
      let earlier = last_match inode i name in
      if namei_match name (filename_at inode i) then some (entry_inode inode i) else earlier

  abbrev pub lookup_dir : InitrdInode → List ℕ → Option ℕ
  lookup_dir inode name = last_match inode (inode.size / d_entry_size) name

  unfoldable pub initrd_lookup :
      InitrdNode → List ℕ → List Vnodes.Vnode → Option (Option ℕ × List Vnodes.Vnode)
  initrd_lookup dir name vnodes =
      dir.initrdfs_i >>= λ i. some (got (lookup_dir (v.inodes i) name) vnodes)

  -- `read_initrd_sb`: the number of the root's inode, where the magic number is right
  unfoldable pub read_initrd_sb : Option ℕ
  read_initrd_sb = if v.header.magic == initrd_magic then some 0 else none
