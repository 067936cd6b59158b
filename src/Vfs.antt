-- ===== src/Vfs.antt =====
-- The file systems that are registered, the operations of a vnode's file system, and mounts:
-- src/fs/vfs/vfs.c and src/fs/mount.c.
pub mod Registry
pub mod Mounting
pub mod Root
mod Tests
use nupkux.Base.{
  ℕ, zero, suc, ◌+◌, ◌%◌, ◌==◌, ◌⊎◌, inl, inr, if◌then◌else◌, List, [], ◌∷◌, Bool, true, false, not,
  ◌&&◌, ◌||◌, Option, none, some, behind, ℤ, pos, negsuc, neg,
}
use nupkux.CString.{strcmp}

-- `struct _filesystem_t` at the address `id`
pub record FsType : Type 0 where
  pub id : ℕ
  pub name : List ℕ
  pub flags : ℕ

-- `!strcmp(a, b)`
abbrev pub is_zero : ℤ → Bool
is_zero (pos zero) = true
is_zero (pos (suc n)) = false
is_zero (negsuc n) = false

abbrev pub same_name : List ℕ → List ℕ → Bool
same_name a b = is_zero (strcmp (some a) (some b))

unfoldable pub vfs_get_fs : List ℕ → List FsType → Option FsType
vfs_get_fs name [] = none
vfs_get_fs name (fs ∷ filesystems) =
    let rest = vfs_get_fs name filesystems in if same_name fs.name name then some fs else rest

-- `fs->next` is set: the type is in the list, and not at its end. A type outside the list has none.
abbrev pub has_next : ℕ → List FsType → Bool
has_next id [] = false
has_next id (fs ∷ []) = false
has_next id (fs ∷ f ∷ filesystems) = fs.id == id || has_next id (f ∷ filesystems)

abbrev pub is_some {ℓ} : {A : Type ℓ} → Option A → Bool
is_some none = false
is_some (some a) = true

abbrev pub einval : ℤ
einval = neg 22

abbrev pub ebusy : ℤ
ebusy = neg 16

abbrev pub eperm : ℤ
eperm = neg 1

unfoldable pub register_filesystem : Option FsType → List FsType → ℤ × List FsType
register_filesystem none filesystems = (einval, filesystems)
register_filesystem (some fs) filesystems =
    if has_next fs.id filesystems || is_some (vfs_get_fs fs.name filesystems)
    then (ebusy, filesystems)
    else (pos 0, fs ∷ filesystems)

-- The list without the first type of the name.
unfoldable pub without_fs : List ℕ → List FsType → Option (List FsType)
without_fs name [] = none
without_fs name (fs ∷ filesystems) =
    let rest = behind fs (without_fs name filesystems) in
    if same_name name fs.name then some filesystems else rest

abbrev pub or_einval : List FsType → Option (List FsType) → ℤ × List FsType
or_einval filesystems none = (einval, filesystems)
or_einval filesystems (some rest) = (pos 0, rest)

unfoldable pub unregister_filesystem : Option FsType → List FsType → ℤ × List FsType
unregister_filesystem none filesystems = (einval, filesystems)
unregister_filesystem (some fs) filesystems = or_einval filesystems (without_fs fs.name filesystems)

-- `open_fs`, `close_fs` and `ioctl_fs` give 0, 0 and -ENOTTY where the operation is missing;
-- `request_fs` looks at the type first, and `readdir_fs` wants a directory.
abbrev pub or_status : ℤ → Option ℤ → ℤ
or_status status none = status
or_status status (some result) = result

unfoldable pub open_fs : Option ℤ → ℤ
open_fs op = or_status (pos 0) op

unfoldable pub close_fs : Option ℤ → ℤ
close_fs op = or_status (pos 0) op

unfoldable pub ioctl_fs : Option ℤ → ℤ
ioctl_fs op = or_status (neg 25) op

unfoldable pub request_fs : ℕ → Option ℤ → ℤ
request_fs flags op = if flags % 8 == 2 then neg 21 else or_status einval op

unfoldable pub readdir_fs : ℕ → Option ℤ → ℤ
readdir_fs flags op = if flags % 8 == 2 then or_status einval op else einval

-- `mnt->next`
abbrev pub is_linked : ℕ → List ℕ → Bool
is_linked mnt [] = false
is_linked mnt (m ∷ []) = false
is_linked mnt (m ∷ n ∷ mounts) = m == mnt || is_linked mnt (n ∷ mounts)

-- `vfs_mounts` by the addresses of the mounts
unfoldable pub d_mount : Option ℕ → List ℕ → ℤ × List ℕ
d_mount none mounts = (einval, mounts)
d_mount (some mnt) [] = (pos 0, mnt ∷ [])
d_mount (some mnt) (m ∷ mounts) =
    if is_linked mnt (m ∷ mounts) then (ebusy, m ∷ mounts) else (pos 0, mnt ∷ m ∷ mounts)

unfoldable pub without_mount : ℕ → List ℕ → Option (List ℕ)
without_mount mi [] = none
without_mount mi (m ∷ mounts) =
    let rest = behind m (without_mount mi mounts) in if mi == m then some mounts else rest

-- `d_umount` of a super block whose `mi` is given. Where the mount is not in the list, `tmp->next` follows
-- a null pointer.
abbrev pub unlinked : Option (List ℕ) → Option (ℤ × List ℕ)
unlinked none = none
unlinked (some rest) = some (pos 0, rest)

unfoldable pub d_umount : Option ℕ → List ℕ → Option (ℤ × List ℕ)
d_umount none mounts = some (pos 0, mounts)
d_umount (some mi) mounts = unlinked (without_mount mi mounts)

-- What `sys_mount` changes: the mounts, `mount` and `cover` of vnodes, and the vnodes that it gives to
-- `iput`, the latest first.
pub record Mounts : Type 0 where
  pub mounts : List ℕ
  pub mount : ℕ → Option ℕ
  pub cover : ℕ → Option ℕ
  pub released : List ℕ

abbrev pub assign : ℕ → ℕ → (ℕ → Option ℕ) → ℕ → Option ℕ
assign node value f = λ n. if n == node then some value else f n

abbrev pub put_vnode : ℕ → Mounts → Mounts
put_vnode node s = record s { released = node ∷ s.released }

-- The end of `sys_mount`: `read_super` gives the new root, and what it returns is not looked at.
abbrev pub link_root : ℕ → ℕ → Option ℕ → Mounts → Option (ℤ × Mounts)
link_root mnt point none s = none
link_root mnt point (some root) s = some (
  pos 0,
  record s {
    mounts = (d_mount (some mnt) s.mounts).1;
    mount = assign point root s.mount;
    cover = assign root point s.cover;
  },
)

-- The device, where the type wants one.
abbrev pub with_device : ℕ → ℕ → Bool → ℕ ⊎ ℤ → Option ℕ → Mounts → Option (ℤ × Mounts)
with_device mnt point false dev root s = link_root mnt point root s
with_device mnt point true (inl node) root s = link_root mnt point root s
with_device mnt point true (inr status) root s = some (status, put_vnode point s)

abbrev pub mount_at : ℕ → FsType → ℕ ⊎ ℤ → ℕ ⊎ ℤ → Option ℕ → Mounts → Option (ℤ × Mounts)
mount_at mnt type (inr status) dev root s = some (status, s)
mount_at mnt type (inl point) dev root s = with_device mnt point (type.flags % 2 == 1) dev root s

abbrev pub mount_type : ℕ → Option FsType → ℕ ⊎ ℤ → ℕ ⊎ ℤ → Option ℕ → Mounts → Option (ℤ × Mounts)
mount_type mnt none target source root s = some (einval, s)
mount_type mnt (some type) target source root s = mount_at mnt type target source root s

-- `sys_mount`: what `namei` gives for the target and the source, the root that `read_super` sets if it
-- sets one, and the address of the new mount.
unfoldable pub sys_mount :
    Bool → List ℕ → List FsType → ℕ ⊎ ℤ → ℕ ⊎ ℤ → Option ℕ → ℕ → Mounts → Option (ℤ × Mounts)
sys_mount i_am_root name filesystems target source root mnt s =
    if i_am_root
    then mount_type mnt (vfs_get_fs name filesystems) target source root s
    else some (eperm, s)

-- What `sys_umount` reads of a super block: the vnode of its device and its mount, by their addresses
pub record Super : Type 0 where
  pub dev : Option ℕ
  pub mi : Option ℕ

abbrev pub put_device : Option ℕ → Mounts → Mounts
put_device none s = s
put_device (some node) s = put_vnode node s

abbrev pub with_mounts : Mounts → Option (ℤ × List ℕ) → Option (ℤ × Mounts)
with_mounts s none = none
with_mounts s (some (status, mounts)) = some (pos 0, record s { mounts = mounts })

-- What `sys_umount` does at the root of the mounted file system; the pointers of the two vnodes stay.
abbrev pub umount_root : Super → Mounts → Option (ℤ × Mounts)
umount_root sb s = with_mounts (put_device sb.dev s) (d_umount sb.mi s.mounts)

abbrev pub umount_at : (ℕ → Super) → ℕ → Option ℕ → Mounts → Option (ℤ × Mounts)
umount_at super node none s = some (einval, put_vnode node s)
umount_at super node (some newnode) s = umount_root (super newnode) (put_vnode node s)

abbrev pub umount_target : (ℕ → Super) → ℕ ⊎ ℤ → Mounts → Option (ℤ × Mounts)
umount_target super (inr status) s = some (status, s)
umount_target super (inl node) s = umount_at super node (s.mount node) s

-- `sys_umount`: whether there is a path, what `namei` gives for it, and the super block of a vnode
unfoldable pub sys_umount : Bool → Bool → ℕ ⊎ ℤ → (ℕ → Super) → Mounts → Option (ℤ × Mounts)
sys_umount i_am_root some_path target super s =
    if not i_am_root
    then some (eperm, s)
    else if not some_path
    then some (neg 14, s)
    else umount_target super target s
