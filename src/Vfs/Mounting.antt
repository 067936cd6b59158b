-- ===== src/Vfs/Mounting.antt =====
-- `sys_mount` on every branch, and `d_umount` behind it (src/fs/mount.c).
use nupkux.Base.{
  ℕ, ◌==◌, ◌%◌, ◌≡◌, ◌≢◌, ◌⊎◌, refl, ◌∙◌, ap, inl, inr, List, [], ◌∷◌, All, Bool, true, false,
  Option, none, some, ℤ, pos, arith,
}
use nupkux.Vfs.{
  FsType, vfs_get_fs, is_linked, d_mount, d_umount, without_mount, Mounts, link_root, with_device,
  mount_type, sys_mount, eperm, einval,
}

-- `mnt` is mounted at `point`: the mount stands in front, `d_umount` takes it away again, the
-- two vnodes lead to each other and nothing else changed.
pub record Mounted (mnt point root : ℕ) (s s' : Mounts) : Type 0 where
  pub in_front : s'.mounts ≡ mnt ∷ s.mounts
  pub umounts : d_umount (some mnt) s'.mounts ≡ some (pos 0, s.mounts)
  pub leads : s'.mount point ≡ some root
  pub covers : s'.cover root ≡ some point
  pub other_mount : (n : ℕ) → n ≢ point → s'.mount n ≡ s.mount n
  pub other_cover : (n : ℕ) → n ≢ root → s'.cover n ≡ s.cover n
  pub kept : s'.released ≡ s.released

-- A type wants no device, or there is one.
abbrev pub HasDevice : FsType → ℕ ⊎ ℤ → Type 0
HasDevice type source = (type.flags % 2 ≡ 0) ⊎ ((dev : ℕ) × (source ≡ inl dev))

-- What `sys_mount` does with the type that is registered and with what `namei` gives for the target and the
-- source: the result and what becomes of the mounts and the vnodes, or `none` for a null pointer.
pub data Outcome (i_am_root : Bool) (found : Option FsType) (target source : ℕ ⊎ ℤ)
    (root : Option ℕ) (mnt : ℕ) (s : Mounts) : Option (ℤ × Mounts) → Type 0 where
  not_root : i_am_root ≡ false → Outcome i_am_root found target source root mnt s (some (eperm, s))
  no_type :
      i_am_root ≡ true
      → found ≡ none
      → Outcome i_am_root found target source root mnt s (some (einval, s))
  no_target :
      (type : FsType) (status : ℤ)
      → i_am_root ≡ true
      → found ≡ some type
      → target ≡ inr status
      → Outcome i_am_root found target source root mnt s (some (status, s))
  no_device :
      (type : FsType) (point : ℕ) (status : ℤ)
      → i_am_root ≡ true
      → found ≡ some type
      → target ≡ inl point
      → type.flags % 2 ≡ 1
      → source ≡ inr status
      → Outcome i_am_root found target source root mnt s
          (some (status, record s { released = point ∷ s.released }))
  no_root :
      (type : FsType) (point : ℕ)
      → i_am_root ≡ true
      → found ≡ some type
      → target ≡ inl point
      → HasDevice type source
      → root ≡ none
      → Outcome i_am_root found target source root mnt s none
  mounted :
      (type : FsType) (point r : ℕ) (s' : Mounts)
      → i_am_root ≡ true
      → found ≡ some type
      → target ≡ inl point
      → HasDevice type source
      → root ≡ some r
      → Mounted mnt point r s s'
      → Outcome i_am_root found target source root mnt s (some (pos 0, s'))

is_linked_fresh : (mnt : ℕ) (l : List ℕ) → All (λ m. m ≢ mnt) l → is_linked mnt l ≡ false
is_linked_fresh mnt [] h = refl
is_linked_fresh mnt (m ∷ []) h = refl
is_linked_fresh mnt (m ∷ n ∷ l) h = let rest = is_linked_fresh mnt (n ∷ l) h.1 in ground arith

d_mount_fresh :
    (mnt : ℕ) (l : List ℕ) → All (λ m. m ≢ mnt) l → d_mount (some mnt) l ≡ (pos 0, mnt ∷ l)
unfolding d_mount
d_mount_fresh mnt [] h = refl
d_mount_fresh mnt (m ∷ l) h = rw (is_linked_fresh mnt (m ∷ l) h) refl

d_umount_front : (mnt : ℕ) (l : List ℕ) → d_umount (some mnt) (mnt ∷ l) ≡ some (pos 0, l)
unfolding d_umount without_mount
d_umount_front mnt l = ground arith

link_root-Mounted :
    (mnt point r : ℕ) (s : Mounts)
    → All (λ m. m ≢ mnt) s.mounts
    → (s' : Mounts) × (link_root mnt point (some r) s ≡ some (pos 0, s')) × Mounted mnt point r s s'
link_root-Mounted mnt point r s h = (
  _,
  refl,
  record {
    in_front = ap (λ p. p.1) (d_mount_fresh mnt s.mounts h);
    umounts =
        ap (λ p. d_umount (some mnt) p.1) (d_mount_fresh mnt s.mounts h)
        ∙ d_umount_front mnt s.mounts;
    leads = ground arith;
    covers = ground arith;
    other_mount = λ n ne. ground arith;
    other_cover = λ n ne. ground arith;
    kept = refl;
  },
)

-- What the theorem says of a mount by root of a type that is registered, at a mount point that is found.
module _ (mnt : ℕ) (type : FsType) (point : ℕ) (s : Mounts) (h : All (λ m. m ≢ mnt) s.mounts) where
  link_root-Outcome :
      (source : ℕ ⊎ ℤ) (root : Option ℕ)
      → HasDevice type source
      → Outcome true (some type) (inl point) source root mnt s (link_root mnt point root s)
  link_root-Outcome source none d = no_root type point refl refl refl d refl
  link_root-Outcome source (some r) d =
      let (s', e, m) = link_root-Mounted mnt point r s h in
      rw e (mounted type point r s' refl refl refl d refl m)

  with_device-Outcome :
      (b : Bool) (source : ℕ ⊎ ℤ) (root : Option ℕ)
      → (type.flags % 2 == 1) ≡ b
      → Outcome true
          (some type)
          (inl point)
          source
          root
          mnt
          s
          (with_device mnt point b source root s)
  with_device-Outcome false source root e = link_root-Outcome source root (inl (ground (arith, e)))
  with_device-Outcome true (inl dev) root e = link_root-Outcome (inl dev) root (inr (dev, refl))
  with_device-Outcome true (inr status) root e =
      no_device type point status refl refl refl (ground (arith, e)) refl

mount_type-Outcome :
    (mnt : ℕ) (found : Option FsType) (target source : ℕ ⊎ ℤ) (root : Option ℕ) (s : Mounts)
    → All (λ m. m ≢ mnt) s.mounts
    → Outcome true found target source root mnt s (mount_type mnt found target source root s)
mount_type-Outcome mnt none target source root s h = no_type refl refl
mount_type-Outcome mnt (some type) (inr status) source root s h =
    no_target type status refl refl refl
mount_type-Outcome mnt (some type) (inl point) source root s h =
    with_device-Outcome mnt type point s h (type.flags % 2 == 1) source root refl

-- `sys_mount` with a new mount returns EPERM where the caller is not root, EINVAL where the type is not
-- registered and the status of `namei` where the target or a device that the type wants is not found, and
-- leaves the mounts as they are; in the last case it gives the target's vnode back. Else it returns 0, where
-- `read_super` sets a root: the mount stands in front of the others, the target's vnode leads to the root and
-- the root covers it, no other vnode changes and `d_umount` takes the mount away again. Where `read_super`
-- sets none, it follows a null pointer.
pub sys_mount-Outcome :
    (i_am_root : Bool) (name : List ℕ) (l : List FsType) (target source : ℕ ⊎ ℤ) (root : Option ℕ)
    (mnt : ℕ) (s : Mounts)
    → All (λ m. m ≢ mnt) s.mounts
    → Outcome i_am_root
        (vfs_get_fs name l)
        target
        source
        root
        mnt
        s
        (sys_mount i_am_root name l target source root mnt s)
unfolding sys_mount
sys_mount-Outcome true name l target source root mnt s h =
    mount_type-Outcome mnt (vfs_get_fs name l) target source root s h
sys_mount-Outcome false name l target source root mnt s h = not_root refl

-- Where the type is registered, the mount point is found and a device is found or not wanted, but
-- `read_super` sets no root, `sys_mount` of root follows a null pointer in place of giving an error.
pub sys_mount_refused :
    (name : List ℕ) (l : List FsType) (fs : FsType) (point : ℕ) (source : ℕ ⊎ ℤ) (mnt : ℕ)
    (s : Mounts)
    → vfs_get_fs name l ≡ some fs
    → HasDevice fs source
    → sys_mount true name l (inl point) source none mnt s ≡ none
unfolding sys_mount
sys_mount_refused name l fs point source mnt s found (inl even) =
    let unwanted : (fs.flags % 2 == 1) ≡ false = ground arith in
    rw found (ap (λ b. with_device mnt point b source none s) unwanted)
sys_mount_refused name l fs point source mnt s found (inr (dev, e)) =
    rw found (rw e (go (fs.flags % 2 == 1)))
  where
    go : (b : Bool) → with_device mnt point b (inl dev) none s ≡ none
    go true = refl
    go false = refl
