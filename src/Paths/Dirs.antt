-- ===== src/Paths/Dirs.antt =====
-- The directories that a task starts its walks at: `sys_chdir` and `sys_chroot` of src/fs/open.c.
use nupkux.Base.{
  ℕ, suc, ◌==◌, ◌≡◌, ◌≢◌, refl, if◌then◌else◌, List, true, false, Option, none, some, ℤ, pos,
  negsuc, neg, arith, subst,
}
use nupkux.Paths.{namei_match}
use nupkux.Paths.Walk.{
  Vnode, Counts, retain, iput, User, is_root, Walk, found_at, failed_with, enotdir, dots, is_dir,
  finds, resolve_mount, getdentry, lookup_at, namei,
}
use nupkux.Paths.Top.{Top, namei-Top}

-- A status, the task and the counts
abbrev pub Moved : Type 0
Moved = ℤ × User × Counts

module _ (vnode : ℕ → Vnode) (lookup : ℕ → List ℕ → Counts → Option ℕ × Counts) (depth : ℕ)
    (u : User) where
  -- What both do with the vnode that `namei` gives; its reference is kept where it is no directory, too.
  abbrev pub move_to : (ℕ → User) → Option Walk → Option Moved
  move_to moved none = none
  move_to moved (some (failed_with error c)) = some (neg error, u, c)
  move_to moved (some (found_at node c)) =
      if is_dir (vnode node) then some (pos 0, moved node, c) else some (neg enotdir, u, c)

  -- `sys_chdir`, and `sys_chroot`, which wants I_AM_ROOT
  unfoldable pub sys_chdir : List ℕ → Counts → Option Moved
  sys_chdir name c = move_to (λ node. record u { pwd = node }) (namei vnode lookup depth u name c)

  unfoldable pub sys_chroot : List ℕ → Counts → Option Moved
  sys_chroot name c =
      let moved = move_to (λ node. record u { root = node }) (namei vnode lookup depth u name c) in
      if is_root u then moved else some (negsuc 0, u, c)

module _ (vnode : ℕ → Vnode) (lookup : ℕ → List ℕ → Counts → Option ℕ × Counts) (depth : ℕ) where
  resolve_mount-bare :
      (u : User) (node : ℕ) (c : Counts)
      → (vnode node).mount ≡ none
      → resolve_mount vnode lookup (suc depth) u (suc depth) node c ≡ finds node c
  unfolding resolve_mount
  resolve_mount-bare u node c e = rw e refl

  -- Behind a mount ".." of the root goes on from what is covered.
  root_dots_covered :
      (u : User) (fuel m : ℕ) (c : Counts)
      → (vnode u.root).mount ≡ none
      → (vnode u.root).cover ≡ some m
      → (vnode m).cover ≡ none
      → (m == u.root) ≡ false
      → getdentry vnode lookup (suc depth) u (suc (suc fuel)) dots false u.root c
        ≡ lookup_at vnode lookup
            (suc depth)
            u
            dots
            m
            (iput u.root (retain u.root (retain m (iput u.root (retain u.root c)))))
  unfolding getdentry namei_match
  root_dots_covered u fuel m c bare covers top other =
      rw (resolve_mount-bare u u.root (retain u.root c) bare) (
        rw covers (
          rw top (
            rw
              (resolve_mount-bare u u.root
                (retain u.root (retain m (iput u.root (retain u.root c)))) bare)
              (rw other refl))))

  module _ (u : User) (name : List ℕ) (c : Counts) (node : ℕ) (c' : Counts)
      (given : namei vnode lookup (suc depth) u name c ≡ finds node c') (allowed : is_root u ≡ true)
      (dir : is_dir (vnode node) ≡ true) where
    bare_root : (vnode node).mount ≡ none
    bare_root = subst (Top vnode) given (namei-Top vnode lookup (suc depth) u name c)

    sys_chroot_root :
        sys_chroot vnode lookup (suc depth) u name c ≡ some (pos 0, record u { root = node }, c')
    unfolding sys_chroot
    sys_chroot_root = rw (allowed, given, dir) refl

    -- `sys_chroot` of the root of a mounted file system makes it the root, but ".." is looked up in the
    -- mount point, which is not below it.
    pub sys_chroot_leaves :
        (fuel m : ℕ) (c'' : Counts)
        → (vnode node).cover ≡ some m
        → (vnode m).cover ≡ none
        → m ≢ node
        → (sys_chroot vnode lookup (suc depth) u name c
            ≡ some (pos 0, record u { root = node }, c'))
          × (getdentry vnode lookup
                (suc depth)
                (record u { root = node })
                (suc (suc fuel))
                dots
                false
                node
                c''
              ≡ lookup_at vnode lookup
                  (suc depth)
                  (record u { root = node })
                  dots
                  m
                  (iput node (retain node (retain m (iput node (retain node c''))))))
    sys_chroot_leaves fuel m c'' covers top other = (
      sys_chroot_root,
      root_dots_covered (record u { root = node }) fuel m c'' bare_root covers top
          (ground (arith, other)),
    )
