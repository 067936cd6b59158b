-- ===== src/Vnodes.antt =====
-- src/fs/vfs/vnode.c: the vnodes of one super block, which `iget` and `iput` count.
pub mod Refs
mod Tests
use nupkux.Base.{
  ℕ, zero, suc, ◌+◌, ◌-◌, ◌%◌, ◌^◌, ◌==◌, if◌then◌else◌, List, [], ◌∷◌, Bool, true, false, Option,
  none, some, behind,
}

-- A `vnode` in the list `sb->cache`. A pointer to one is given by its inode number, since the list has
-- one vnode for a number; what `read_inode` fills in is not modelled. `count` is a UCHAR.
pub record Vnode : Type 0 where
  pub ino : ℕ
  pub count : ℕ

-- The loop of `iget`: the list with one reference more, `none` where the number is not there.
unfoldable pub bump : ℕ → List Vnode → Option (List Vnode)
bump ino [] = none
bump ino (v ∷ vs) =
    let rest = bump ino vs in
    if v.ino == ino then some (record v { count = (v.count + 1) % 2 ^ 8 } ∷ vs) else behind v rest

-- `create_empty_inode`
abbrev pub create_empty_inode : ℕ → List Vnode → List Vnode
create_empty_inode ino cache = record { ino = ino; count = 1 } ∷ cache

-- `iget` of a super block that has `read_inode`
unfoldable pub iget : List Vnode → ℕ → List Vnode
iget cache ino = elim (bump ino cache) [
  | none ↦ create_empty_inode ino cache
  | some cache' ↦ cache'
]

-- `iput`: the list with one reference less; the last one takes the vnode out, as `free_inode` does.
unfoldable pub iput : List Vnode → ℕ → List Vnode
iput [] ino = []
iput (v ∷ vs) ino =
    let rest = iput vs ino in
    if v.ino == ino
    then (if v.count == 0
        then v ∷ vs
        else if v.count - 1 == 0
        then vs
        else record v { count = v.count - 1 } ∷ vs)
    else v ∷ rest
