-- ===== src/Devfs.antt =====
-- The device file system: src/fs/devfs/cache.c, dir.c, inode.c and super.c, with devfs.h.
pub mod Handles
pub mod Devices
pub mod Remount
mod Tests
use nupkux.Base.{
  ℕ, zero, suc, ◌+◌, ◌-◌, ◌*◌, ◌/◌, ◌%◌, ◌^◌, ◌==◌, ltb, if◌then◌else◌, List, [], ◌∷◌, ◌++◌, get_or,
  get_elem?, set, take, length, replicate, Bool, true, false, not, ◌&&◌, ◌||◌, Option, none, some,
  store, behind, ◌>>=◌, ℤ, pos, neg, modify,
}
use nupkux.CString.{strncpy, strlen}
use nupkux.Paths.{namei_match}
use nupkux.Vnodes.{Vnode, iget}

abbrev pub filename_len : ℕ
filename_len = 16

-- `struct _devfs_d_entry`; `filename` is the array with its NULs.
pub record Entry : Type 0 where
  pub inode : ℕ
  pub filename : List ℕ

-- `sizeof(devfs_d_entry)`: 4 bytes, 17 bytes and 3 of padding
abbrev pub entry_size : ℕ
entry_size = 24

-- `struct _devfs_handle` at the address `id`; `pdata` of a directory is its entries.
pub record Handle : Type 0 where
  pub id : ℕ
  pub ino : ℕ
  pub nlinks : ℕ
  pub uid : ℕ
  pub gid : ℕ
  pub mode : ℕ
  pub flags : ℕ
  pub size : ℕ
  pub entries : List Entry
  pub f_op : ℕ
  pub parent : Option ℕ
  pub node : Option ℕ

-- What `devfs_handle2vnode` fills in of a vnode; `f_op` is what its own copy of `devfs_i_ops` has.
pub record Inode : Type 0 where
  pub ino : ℕ
  pub flags : ℕ
  pub gid : ℕ
  pub uid : ℕ
  pub mode : ℕ
  pub nlinks : ℕ
  pub size : ℕ
  pub f_op : Option ℕ
  pub devfs_i : Option ℕ

-- The static variables `cache`, `next_inode`, `devfs_root` and `devfs_sb`, the vnodes by their
-- addresses, and the address that the next `calloc` gives.
pub record Devfs : Type 0 where
  pub cache : List Handle
  pub next_inode : ℕ
  pub devfs_root : Option ℕ
  pub devfs_sb : Bool
  pub nodes : List Inode
  pub next_id : ℕ

-- `handle->...`: only handles in the cache are allocated, and `none` is a freed one.
unfoldable pub find : ℕ → List Handle → Option Handle
find id [] = none
find id (h ∷ hs) = let rest = find id hs in if h.id == id then some h else rest

unfoldable pub update : ℕ → Handle → List Handle → List Handle
update id h' [] = []
update id h' (h ∷ hs) = let rest = update id h' hs in if h.id == id then h' ∷ hs else h ∷ rest

-- `devfs_add_to_cache`
abbrev pub devfs_add_to_cache : Handle → Devfs → Devfs
devfs_add_to_cache handle s = record s { cache = handle ∷ s.cache }

-- The handle that `devfs_del_from_cache` unlinks and frees.
unfoldable pub unlink : ℕ → List Handle → List Handle
unlink id [] = []
unlink id (h ∷ hs) = let rest = unlink id hs in if h.id == id then hs else h ∷ rest

abbrev pub devfs_del_from_cache : ℕ → Devfs → Devfs
devfs_del_from_cache id s = record s { cache = unlink id s.cache }

unfoldable pub devfs_iget : ℕ → List Handle → Option Handle
devfs_iget ino [] = none
devfs_iget ino (h ∷ hs) = let rest = devfs_iget ino hs in if h.ino == ino then some h else rest

abbrev pub devfs_free_cache : Devfs → Devfs
devfs_free_cache s = record s { cache = [] }

abbrev pub fill_inode : Handle → Inode → Inode
fill_inode handle node = record node {
  flags = handle.flags;
  gid = handle.gid;
  uid = handle.uid;
  mode = handle.mode;
  nlinks = handle.nlinks;
  size = handle.size;
  f_op = some handle.f_op;
  devfs_i = some handle.id;
}

-- `devfs_handle2vnode` of a vnode and a handle that are no null pointers
abbrev pub devfs_handle2vnode : ℕ → Handle → Devfs → Devfs
devfs_handle2vnode node handle s = record s {
  cache = update handle.id (record handle { node = some node }) s.cache;
  nodes = modify (fill_inode handle) s.nodes node;
}

-- `if (dir->node) devfs_handle2vnode(dir->node, dir);`
abbrev pub refresh : Option ℕ → Handle → Devfs → Devfs
refresh none dir s = s
refresh (some node) dir s = devfs_handle2vnode node dir s

-- `strncpy(filename, name, DEVFS_FILENAME_LEN)` and the NUL behind it
abbrev pub filename_of : List ℕ → Option (List ℕ)
filename_of name =
    strncpy (replicate 17 0) name filename_len >>= λ buf. some (set buf filename_len 0)

abbrev pub blank_entry : Entry
blank_entry = record { inode = 0; filename = replicate 17 0 }

-- The entries that `realloc` makes longer by one, and the write of the last.
abbrev pub append_entry : List Entry → ℕ → Entry → Option (List Entry)
append_entry entries entr_num entry = store (entries ++ (blank_entry ∷ [])) entr_num entry

-- `devfs_add_d_entry` of the handle that it reads
abbrev pub with_entries : Handle → ℕ → List Entry → Handle
with_entries dir entr_num entries = record dir {
  size = ((entr_num + 1) * entry_size) % 2 ^ 32;
  entries = entries;
}

unfoldable pub devfs_add_d_entry : ℕ → List ℕ → ℕ → Devfs → Option Devfs
devfs_add_d_entry dir name inode s = find dir s.cache >>= λ h. filename_of name >>= λ filename.
    append_entry h.entries (h.size / entry_size) (record { inode = inode; filename = filename })
    >>= λ entries.
        let h' = with_entries h (h.size / entry_size) entries in
        some (refresh h.node h' (record s { cache = update dir h' s.cache }))

-- The entries without the first one of the number; `none` where there is none of it.
abbrev pub remove_entry : ℕ → List Entry → Option (List Entry)
remove_entry ino [] = none
remove_entry ino (e ∷ es) =
    let rest = remove_entry ino es in if e.inode == ino then some es else behind e rest

-- The loops of `devfs_del_d_entry` skip '.' and '..'.
abbrev pub remove_behind : ℕ → List Entry → Option (List Entry)
remove_behind ino (dot ∷ dots ∷ es) = behind dot (behind dots (remove_entry ino es))
remove_behind ino _ = none

abbrev pub without_entry : Option (List Entry) → Handle → Devfs → Devfs
without_entry none h s = s
without_entry (some entries) h s =
    let h' = record h { entries = entries; size = h.size - entry_size } in
    refresh h.node h' (record s { cache = update h.id h' s.cache })

-- `devfs_del_d_entry`
unfoldable pub devfs_del_d_entry : Option ℕ → ℕ → Devfs → Option Devfs
devfs_del_d_entry none ino s = some s
devfs_del_d_entry (some dir) ino s = find dir s.cache >>= λ h.
    some (without_entry (remove_behind ino (take (h.size / entry_size) h.entries)) h s)

-- IS_DIR
abbrev pub is_dir : ℕ → Bool
is_dir flags = flags % 8 == 2

-- The arguments of `devfs_register_device` behind the directory
pub record Device : Type 0 where
  pub name : List ℕ
  pub mode : ℕ
  pub uid : ℕ
  pub gid : ℕ
  pub type : ℕ
  pub f_op : ℕ

abbrev pub new_handle : ℕ → Device → Devfs → Handle
new_handle dir d s = record {
  id = s.next_id;
  ino = s.next_inode;
  nlinks = 1;
  uid = d.uid % 2 ^ 16;
  gid = d.gid % 2 ^ 16;
  mode = d.mode;
  flags = d.type;
  size = 1;
  entries = [];
  f_op = d.f_op;
  parent = some dir;
  node = none;
}

abbrev pub counted : Devfs → Devfs
counted s = record s { next_inode = (s.next_inode + 1) % 2 ^ 32; next_id = s.next_id + 1 }

-- `devfs_register_device` in a directory: the handle or the null pointer, and what is behind it.
unfoldable pub register_in : ℕ → Device → Devfs → Option (Option ℕ × Devfs)
register_in dir d s =
    let handle = new_handle dir d s in
    let added = devfs_add_d_entry dir d.name handle.ino (counted s) >>= λ s'.
    some (some handle.id, devfs_add_to_cache handle s') in
    find dir s.cache >>= λ h. if is_dir h.flags then added else some (none, s)

abbrev pub or_root : Option ℕ → Option ℕ → Option ℕ
or_root none root = root
or_root (some dir) root = some dir

abbrev pub register_or_fail : Option ℕ → Device → Devfs → Option (Option ℕ × Devfs)
register_or_fail none d s = some (none, s)
register_or_fail (some dir) d s = register_in dir d s

unfoldable pub devfs_register_device : Option ℕ → Device → Devfs → Option (Option ℕ × Devfs)
devfs_register_device dir d s = register_or_fail (or_root dir s.devfs_root) d s

unfoldable pub devfs_unregister_device : Option ℕ → Devfs → Option Devfs
devfs_unregister_device none s = some s
devfs_unregister_device (some device) s = find device s.cache >>= λ h.
    devfs_del_d_entry h.parent h.ino s >>= λ s'. some (devfs_del_from_cache device s')

-- `struct dirent`
pub record Dirent : Type 0 where
  pub d_ino : ℕ
  pub d_name : List ℕ
  pub d_namlen : ℕ
  pub d_type : ℕ

abbrev pub einval : ℕ
einval = 22

-- The bytes of an array in front of its first NUL.
abbrev pub string_of : List ℕ → List ℕ
string_of [] = []
string_of (c ∷ cs) = if c == 0 then [] else c ∷ string_of cs

-- `devfs_readdir`: the status, and the entry that it writes where that is 0.
abbrev pub dirent_of : Entry → Handle → Option (ℤ × Option Dirent)
dirent_of entry fi = filename_of (string_of entry.filename) >>= λ name. some (
  pos 0,
  some (record {
    d_ino = entry.inode;
    d_name = string_of name;
    d_namlen = strlen (string_of name);
    d_type = fi.flags;
  }),
)

abbrev pub readdir_in : Handle → ℕ → List Handle → Option (ℤ × Option Dirent)
readdir_in h index cache =
    let found = get_elem? h.entries index >>= λ entry.
    devfs_iget entry.inode cache >>= λ fi. dirent_of entry fi in
    if ltb index (h.size / entry_size) then found else some (neg einval, none)

unfoldable pub devfs_readdir : Option ℕ → ℕ → Devfs → Option (ℤ × Option Dirent)
devfs_readdir none index s = some (neg einval, none)
devfs_readdir (some id) index s = find id s.cache >>= λ h. readdir_in h index s.cache

-- `while (i--)` of `devfs_lookup`: the number of the last entry that matches.
unfoldable pub match_entry : ℕ → List ℕ → List Entry → Option ℕ
match_entry zero name entries = none
match_entry (suc i) name entries =
    let earlier = match_entry i name entries in
    let entry = get_or entries i blank_entry in
    if namei_match name entry.filename then some entry.inode else earlier

-- The inode that `devfs_lookup` returns, and the vnodes of the super block behind its `iget`.
abbrev pub lookup_from : Option ℕ → List Vnode → Option ℕ × List Vnode
lookup_from none vnodes = (none, vnodes)
lookup_from (some ino) vnodes = (some ino, iget vnodes ino)

abbrev pub lookup_in : Option ℕ → ℕ → List ℕ → List Vnode → Devfs → Option (Option ℕ × List Vnode)
lookup_in none size name vnodes s = some (none, vnodes)
lookup_in (some id) size name vnodes s = find id s.cache >>= λ h.
    some (lookup_from (match_entry (size / entry_size) name h.entries) vnodes)

unfoldable pub devfs_lookup : ℕ → List ℕ → List Vnode → Devfs → Option (Option ℕ × List Vnode)
devfs_lookup dir name vnodes s =
    get_elem? s.nodes dir >>= λ node. lookup_in node.devfs_i node.size name vnodes s

-- `devfs_read_inode`
abbrev pub read_inode_of : ℕ → Option Handle → Devfs → Devfs
read_inode_of node none s = s
read_inode_of node (some h) s = devfs_handle2vnode node h s

unfoldable pub devfs_read_inode : ℕ → Devfs → Option Devfs
devfs_read_inode node s =
    get_elem? s.nodes node >>= λ n. some (read_inode_of node (devfs_iget n.ino s.cache) s)

-- `devfs_put_inode` of a vnode whose count is 1; the vnode itself is freed by `iput`.
unfoldable pub devfs_put_inode : ℕ → ℕ → Devfs → Option Devfs
devfs_put_inode node count s =
    let put = get_elem? s.nodes node >>= λ n. n.devfs_i >>= λ id. find id s.cache >>= λ h.
    some (record s {
      cache = update id (record h { node = none }) s.cache;
      nodes = modify (λ m. record m { f_op = none }) s.nodes node;
    }) in
    if count == 1 then put else some s

-- `devfs_empty_dir`
abbrev pub dot_name : List ℕ
dot_name = 46 ∷ replicate 16 0

abbrev pub dots_name : List ℕ
dots_name = 46 ∷ 46 ∷ replicate 15 0

abbrev pub id_of : Option Handle → Option ℕ
id_of none = none
id_of (some h) = some h.id

unfoldable pub devfs_empty_dir : ℕ → ℕ → Devfs → ℕ × Devfs
devfs_empty_dir ino parent s = (
  s.next_id,
  record s {
    next_id = s.next_id + 1;
    cache =
        record {
          id = s.next_id;
          ino = ino;
          nlinks = 1;
          uid = 0;
          gid = 0;
          mode = 755;
          flags = 2;
          size = entry_size * 2;
          entries =
              record { inode = ino; filename = dot_name }
              ∷ record { inode = parent; filename = dots_name }
              ∷ [];
          f_op = 1;
          parent = id_of (devfs_iget parent s.cache);
          node = none;
        }
        ∷ s.cache;
  },
)

unfoldable pub devfs_put_super : Devfs → Devfs
devfs_put_super s = record (devfs_free_cache s) {
  devfs_root = none;
  next_inode = 0;
  devfs_sb = false;
}

-- The vnode that `iget(sb, 0)` makes for a new super block, with what `devfs_read_inode` fills in.
abbrev pub empty_inode : ℕ → Inode
empty_inode ino = record {
  ino = ino;
  flags = 0;
  gid = 0;
  uid = 0;
  mode = 0;
  nlinks = 0;
  size = 0;
  f_op = none;
  devfs_i = none;
}

abbrev pub with_root : ℕ × Devfs → Option Devfs
with_root (root, s) =
    devfs_read_inode (length s.nodes)
      (record s { devfs_root = some root; nodes = s.nodes ++ (empty_inode 0 ∷ []) })

-- `read_devfs_sb`: the null pointer where it is mounted already.
unfoldable pub read_devfs_sb : Devfs → Option (Bool × Devfs)
read_devfs_sb s =
    let mounted =
      with_root (devfs_empty_dir 0 0 (record s { devfs_sb = true; cache = [] })) >>= λ s'.
      some (true, s') in
    if s.devfs_sb then some (false, s) else mounted
