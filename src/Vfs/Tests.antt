-- ===== src/Vfs/Tests.antt =====
-- Runs of the registry and of mounting, and witnesses.
use nupkux.Paths.Walk
use nupkux.Vfs.Root.{Root, setup_vfs, close_vfs, sys_umount_refuses}
use nupkux.Base.{ℕ, zero, suc, pos, Option, ◌≡◌, refl, inl, List, [], ◌∷◌, true, none, some, arith}
use nupkux.CString.{IsCString}
use nupkux.Vfs.{
  FsType, ebusy, vfs_get_fs, register_filesystem, Mounts, sys_mount, Super, sys_umount, einval,
  put_vnode, unregister_filesystem, d_mount, d_umount,
}
use nupkux.Vfs.Mounting.{Outcome, sys_mount-Outcome}

-- "dev", a type without a device
abbrev devfs : FsType
devfs = record { id = 1; name = 100 ∷ 101 ∷ 118 ∷ []; flags = 0 }

-- "ext", a type with a device
abbrev extfs : FsType
extfs = record { id = 2; name = 101 ∷ 120 ∷ 116 ∷ []; flags = 1 }

abbrev one_type : List FsType
one_type = (register_filesystem (some devfs) []).1

abbrev two_types : List FsType
two_types = (register_filesystem (some extfs) one_type).1

abbrev nothing_mounted : Mounts
nothing_mounted = record { mounts = []; mount = λ n. none; cover = λ n. none; released = [] }

devfs-IsCString : IsCString devfs.name
devfs-IsCString =
    ((omega arith, omega arith), ((omega arith, omega arith), ((omega arith, omega arith), tt)))

extfs-IsCString : IsCString extfs.name
extfs-IsCString =
    ((omega arith, omega arith), ((omega arith, omega arith), ((omega arith, omega arith), tt)))

two_types_found : vfs_get_fs devfs.name two_types ≡ some devfs
unfolding vfs_get_fs register_filesystem nupkux.CString.strcmp
two_types_found = refl

registered_twice : (register_filesystem (some devfs) two_types).0 ≡ ebusy
unfolding vfs_get_fs register_filesystem nupkux.CString.strcmp
registered_twice = refl

sys_mount-Outcome_example :
    Outcome true
      (vfs_get_fs extfs.name two_types)
      (inl 10)
      (inl 30)
      (some 20)
      4000
      nothing_mounted
      (sys_mount true extfs.name two_types (inl 10) (inl 30) (some 20) 4000 nothing_mounted)
sys_mount-Outcome_example =
    sys_mount-Outcome true extfs.name two_types (inl 10) (inl 30) (some 20) 4000 nothing_mounted tt

extfs_found : vfs_get_fs extfs.name two_types ≡ some extfs
unfolding vfs_get_fs register_filesystem nupkux.CString.strcmp
extfs_found = refl

-- The names of the four file systems of the kernel
abbrev types : ℕ → FsType
types zero = record { id = 11; name = b'r' ∷ b'o' ∷ b'o' ∷ b't' ∷ b'f' ∷ b's' ∷ []; flags = 0 }
types (suc zero) = record {
  id = 12;
  name = b'i' ∷ b'n' ∷ b'i' ∷ b't' ∷ b'r' ∷ b'd' ∷ b'f' ∷ b's' ∷ [];
  flags = 0;
}
types (suc (suc zero)) = record { id = 13; name = b'd' ∷ b'e' ∷ b'v' ∷ b'f' ∷ b's' ∷ []; flags = 0 }
types (suc (suc (suc n))) = record { id = 14; name = b'e' ∷ b'x' ∷ b't' ∷ b'2' ∷ []; flags = 1 }

abbrev no_root : Root
no_root = record { filesystems = []; mounts = []; vnodes = []; root = none }

-- `close_vfs` behind `setup_vfs`
set_up_and_closed :
    close_vfs
      (types 0)
      (types 1)
      (types 2)
      (types 3)
      (some 4000)
      (setup_vfs (types 0) (types 1) (types 2) (types 3) 4000 no_root)
    ≡ some (pos 0, no_root)
unfolding setup_vfs close_vfs register_filesystem unregister_filesystem vfs_get_fs d_mount d_umount
    nupkux.Vfs.without_fs nupkux.Vfs.without_mount nupkux.CString.strcmp
set_up_and_closed = refl

-- The vnode 1 is mounted on the root 0.
abbrev vnodes : ℕ → Walk.Vnode
vnodes zero = record {
  flags = 2;
  mode = 493;
  uid = 0;
  gid = 0;
  has_lookup = true;
  mount = some 1;
  cover = none;
}
vnodes (suc n) = record {
  flags = 2;
  mode = 493;
  uid = 0;
  gid = 0;
  has_lookup = true;
  mount = none;
  cover = some 0;
}

abbrev user : Walk.User
user = record { uid = 0; euid = 0; gid = 0; egid = 0; root = 0; pwd = 0 }

abbrev lookup : ℕ → List ℕ → Walk.Counts → Option ℕ × Walk.Counts
lookup node name c = (none, c)

abbrev once : Walk.Counts
once v = 1

abbrev one_mounted : Mounts
one_mounted = record {
  mounts = 4000 ∷ [];
  mount = λ n. (vnodes n).mount;
  cover = λ n. (vnodes n).cover;
  released = [];
}

abbrev super : ℕ → Super
super n = record { dev = none; mi = some 4000 }

root_given :
    Walk.namei vnodes lookup 3 user (b'/' ∷ []) once
    ≡ Walk.finds 1 (Walk.retain 1 (Walk.iput 0 (Walk.retain 0 once)))
unfolding Walk.namei nupkux.Paths.Walk.walk_from nupkux.Paths.Walk.resolve_mount
root_given = refl

sys_umount_refuses_example :
    sys_umount true true (inl 1) super one_mounted ≡ some (einval, put_vnode 1 one_mounted)
sys_umount_refuses_example =
    sys_umount_refuses vnodes lookup 3 user (b'/' ∷ []) once
      (Walk.retain 1 (Walk.iput 0 (Walk.retain 0 once))) 1 super one_mounted root_given refl

-- The mount point itself
umounted :
    sys_umount true true (inl 0) super one_mounted
    ≡ some (pos 0, record one_mounted { mounts = []; released = 0 ∷ [] })
unfolding sys_umount d_umount nupkux.Vfs.without_mount
umounted = refl
