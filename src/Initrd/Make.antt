-- ===== src/Initrd/Make.antt =====
-- tools/mkinitrd/main.c: the image of a tree of files of the host.
use nupkux.Base.{
  ℕ, zero, suc, ◌+◌, ◌-◌, ◌*◌, ◌%◌, ◌^◌, ◌==◌, if◌then◌else◌, List, [], ◌∷◌, Bool, true, false,
  ◌||◌, Option, none, some, take, length,
}
use nupkux.Heap.{Bytes, write8, write32}
use nupkux.Programs.Stack.{put_string}
use nupkux.Paths.Walk.{dot, dots}
use nupkux.Vfs.{same_name}
use nupkux.Initrd.{
  InitrdInode, Image, initrd_filename_len, initrd_magic, initrd_header_size, initrd_inode_size,
  d_entry_size,
}

-- `struct stat` but for the size, which is that of the contents
pub record Stat : Type 0 where
  pub st_mode : ℕ
  pub st_gid : ℕ
  pub st_uid : ℕ

-- What `stat` and `fread` give for a file, and `readdir` for a directory, entry by entry; what stands
-- for "." and ".." is not read.
mutual
  pub data HostFile : Type 0 where
    file : Stat → List ℕ → HostFile
    directory : Stat → HostEntries → HostFile

  pub data HostEntries : Type 0 where
    end : HostEntries
    entry : List ℕ → HostFile → HostEntries → HostEntries

-- Not `strcmp(".", d_name) && strcmp("..", d_name)`
abbrev pub is_dots : List ℕ → Bool
is_dots name = same_name dot name || same_name dots name

-- FS_FILE, FS_DIRECTORY and HARDLINKS
abbrev pub type_file : ℕ
type_file = 1

abbrev pub type_directory : ℕ
type_directory = 2

abbrev pub hardlinks : ℕ
hardlinks = 2

unfoldable mutual
  -- `count_of_inodes` of what is below a directory
  pub count_below : HostFile → ℕ
  count_below (file st contents) = 0
  count_below (directory st entries) = count_of_inodes entries true

  -- `count_of_inodes` of a directory that can be opened
  pub count_of_inodes : HostEntries → Bool → ℕ
  count_of_inodes end recursive = 0
  count_of_inodes (entry name f entries) recursive =
      let below = count_below f in
      let rest = count_of_inodes entries recursive in
      if is_dots name then rest else ((if recursive then below else 0) + 1 + rest) % 2 ^ 32

-- The buffer with its length, the inodes in it, `tmp_inode` and `header.entries`. What `realloc`
-- adds to the buffer keeps the bytes that the memory has.
pub record Making : Type 0 where
  pub bytes : Bytes
  pub filelen : ℕ
  pub inodes : ℕ → InitrdInode
  pub tmp_inode : ℕ
  pub entries : ℕ

abbrev pub expand_initrd : ℕ → Making → Making
expand_initrd diff s = record s { filelen = (s.filelen + diff) % 2 ^ 32 }

-- The inode that `createinode` fills, and `tmp_inode++`
abbrev pub createinode : Stat → ℕ → ℕ → Making → InitrdInode
createinode st flags size s = record {
  inode = s.tmp_inode;
  offset = s.filelen;
  mode = st.st_mode;
  gid = st.st_gid;
  uid = st.st_uid;
  flags = flags;
  size = size % 2 ^ 32;
}

abbrev pub next_inode : Making → Making
next_inode s = record s { tmp_inode = (s.tmp_inode + 1) % 2 ^ 32 }

-- `header.entries++`
abbrev pub count_entries : ℕ → Making → Making
count_entries n s = record s { entries = (s.entries + n) % 2 ^ 32 }

-- `inodes[i] = inode`
abbrev pub put_inode : InitrdInode → Making → Making
put_inode inode s = record s { inodes = λ i. if i == inode.inode then inode else s.inodes i }

abbrev pub in_bytes : (Bytes → Bytes) → Making → Making
in_bytes f s = record s { bytes = f s.bytes }

-- `fread` to the buffer
unfoldable pub put_contents : ℕ → List ℕ → Bytes → Bytes
put_contents a [] m = m
put_contents a (b ∷ contents) m = put_contents (a + 1) contents (write8 m a b)

-- `memset(filename, 0, INITRD_FILENAME_LEN)`
unfoldable pub clear : ℕ → ℕ → Bytes → Bytes
clear a zero m = m
clear a (suc n) m = clear (a + 1) n (write8 m a 0)

-- An entry of a directory, first its name and then its inode
abbrev pub put_link : ℕ → List ℕ → ℕ → Bytes → Bytes
put_link a name ino m = put_string (a + 4) name (write32 m a ino)

abbrev pub put_name : ℕ → List ℕ → Bytes → Bytes
put_name a name m = put_string (a + 4) name (clear (a + 4) initrd_filename_len m)

-- `savefile` of a file
abbrev pub store_file : Stat → List ℕ → Making → ℕ × Making
store_file st contents s =
    let inode = createinode st type_file (length contents) s in
    let s' = expand_initrd inode.size (count_entries 1 (next_inode s)) in
    (
      inode.inode,
      put_inode inode (in_bytes (put_contents inode.offset (take inode.size contents)) s'),
    )

-- `savedir` up to its loop; `none` as the parent is -1.
abbrev pub open_dir : InitrdInode → ℕ → Making → Making
open_dir inode parent s =
    let up = if parent == 2 ^ 32 - 1 then inode.inode else parent in
    let s' = expand_initrd inode.size (next_inode (count_entries 1 s)) in
    count_entries 2 (
      in_bytes
        (λ m.
          put_link (inode.offset + d_entry_size) dots up (put_link inode.offset dot inode.inode m))
        s')

abbrev pub dir_inode : Stat → HostEntries → Making → InitrdInode
dir_inode st entries s =
    createinode st type_directory (d_entry_size * (count_of_inodes entries false + hardlinks)) s

-- `entries[i].inode = tmp` behind `savefile`
abbrev pub link_saved : ℕ → ℕ × Making → Making
link_saved a (tmp, s) = in_bytes (λ m. write32 m a tmp) s

unfoldable mutual
  unfolding count_of_inodes

  -- `savefile`, and `savedir` for a directory: the number of the inode
  pub savefile : HostFile → ℕ → Making → ℕ × Making
  savefile (file st contents) parent s = store_file st contents s
  savefile (directory st entries) parent s =
      let inode = dir_inode st entries s in
      (
        inode.inode,
        put_inode inode (save_entries entries inode hardlinks (open_dir inode parent s)),
      )

  -- The loop of `savedir` from the entry `i` on
  pub save_entries : HostEntries → InitrdInode → ℕ → Making → Making
  save_entries end inode i s = s
  save_entries (entry name f entries) inode i s =
      let a = inode.offset + d_entry_size * i in
      let skipped = save_entries entries inode i s in
      let saved = savefile f inode.inode (in_bytes (put_name a name) s) in
      let stored = save_entries entries inode (suc i) (link_saved a saved) in
      if is_dots name then skipped else stored

abbrev pub zero_inode : InitrdInode
zero_inode = record { inode = 0; offset = 0; mode = 0; gid = 0; uid = 0; flags = 0; size = 0 }

abbrev pub inodecount : HostEntries → ℕ
inodecount entries = (count_of_inodes entries true + 1) % 2 ^ 32

-- The buffer in front of `savedir`: the header and the inodes, set to 0
abbrev pub started : ℕ → Bytes → Making
started count m = record {
  bytes = m;
  filelen = (initrd_header_size + count * initrd_inode_size) % 2 ^ 32;
  inodes = λ i. zero_inode;
  tmp_inode = 0;
  entries = 0;
}

-- `main` behind its tests: the image of a directory; `m` is what the memory of the buffer holds in the beginning.
unfoldable pub make_image : Stat → HostEntries → Bytes → Image
make_image st entries m =
    let count = inodecount entries in
    let s = (savefile (directory st entries) (2 ^ 32 - 1) (started count m)).1 in
    record {
      header = record { magic = initrd_magic; inodecount = count; entries = s.entries };
      inodes = s.inodes;
      bytes = s.bytes;
    }

-- `main`: no image where there is no inode
unfoldable pub main_image : Stat → HostEntries → Bytes → Option Image
main_image st entries m = if inodecount entries == 0 then none else some (make_image st entries m)
