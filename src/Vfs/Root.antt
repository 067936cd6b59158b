-- ===== src/Vfs/Root.antt =====
-- The root file system, `setup_vfs` and `close_vfs` of src/fs/vfs/vfs.c, and what becomes of `sys_umount`
-- behind `namei`.
use nupkux.Base.{
  ℕ, ◌+◌, ◌%◌, ◌^◌, ◌≡◌, ◌∙◌, ap, subst, inl, List, [], modify, true, Option, none, some, ◌>>=◌, ℤ,
  pos, neg,
}
use nupkux.Paths.Top.{Top, namei-Top}
use nupkux.Paths.Walk
use nupkux.Paths.Walk.{Counts, User, finds, namei}
use nupkux.Vnodes
use nupkux.Vnodes.{iget}
use nupkux.Vfs.{
  FsType, Mounts, Super, register_filesystem, unregister_filesystem, d_mount, d_umount, put_vnode,
  sys_umount, einval, umount_at,
}

-- The registered types, the mounts, the vnodes of the root file system, and the root by its number
pub record Root : Type 0 where
  pub filesystems : List FsType
  pub mounts : List ℕ
  pub vnodes : List Vnodes.Vnode
  pub root : Option ℕ

-- `root_vnode->count += 2`
abbrev pub hold_twice : Vnodes.Vnode → Vnodes.Vnode
hold_twice v = record v { count = (v.count + 2) % 2 ^ 8 }

abbrev pub registered : FsType → List FsType → List FsType
registered fs l = (register_filesystem (some fs) l).1

abbrev pub unregistered : FsType → List FsType → List FsType
unregistered fs l = (unregister_filesystem (some fs) l).1

module _ (rootfs initrd_fs devfs_fs ext2_fs : FsType) where
  -- `setup_vfs`, with the address of the new mount; `read_rootfs_sb` gives the vnode with the number 0.
  unfoldable pub setup_vfs : ℕ → Root → Root
  setup_vfs mnt s = record {
    filesystems =
        registered ext2_fs
          (registered devfs_fs (registered initrd_fs (registered rootfs s.filesystems)));
    mounts = (d_mount (some mnt) s.mounts).1;
    vnodes = modify hold_twice (iget [] 0) 0;
    root = some 0;
  }

  abbrev pub closed : Root → ℤ × List ℕ → Option (ℤ × Root)
  closed s (status, mounts) = some (
    pos 0,
    record {
      filesystems =
          unregistered rootfs
            (unregistered initrd_fs (unregistered devfs_fs (unregistered ext2_fs s.filesystems)));
      mounts = mounts;
      vnodes = [];
      root = none;
    },
  )

  -- `close_vfs`; `free_sb_inodes` frees all vnodes.
  unfoldable pub close_vfs : Option ℕ → Root → Option (ℤ × Root)
  close_vfs mi s = elim s.root [
    | none ↦ some (neg 1, s)
    | some root ↦ d_umount mi s.mounts >>= closed s
  ]

-- Whatever is mounted, `sys_umount` of a path that `namei` finds gives EINVAL and unmounts nothing, since
-- `namei` gives what is mounted in place of the mount point.
pub sys_umount_refuses :
    (vnode : ℕ → Walk.Vnode) (lookup : ℕ → List ℕ → Counts → Option ℕ × Counts) (depth : ℕ)
    (u : User) (name : List ℕ) (c c' : Counts) (node : ℕ) (super : ℕ → Super) (s : Mounts)
    → namei vnode lookup depth u name c ≡ finds node c'
    → s.mount node ≡ (vnode node).mount
    → sys_umount true true (inl node) super s ≡ some (einval, put_vnode node s)
unfolding sys_umount
sys_umount_refuses vnode lookup depth u name c c' node super s given same =
    let bare : (vnode node).mount ≡ none =
      subst (Top vnode) given (namei-Top vnode lookup depth u name c) in
    ap (λ o. umount_at super node o s) (same ∙ bare)
