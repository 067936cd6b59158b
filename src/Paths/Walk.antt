-- ===== src/Paths/Walk.antt =====
-- The walk along a path: `resolve_mount`, `getdentry`, `igetdir` and `namei` of src/fs/namei.c.
use nupkux.Base.{
  ℕ, zero, suc, ◌+◌, ◌-◌, ◌/◌, ◌%◌, ◌==◌, if◌then◌else◌, List, [], ◌∷◌, Bool, true, false, not,
  ◌||◌, Option, none, some, length,
}
use Prim.Native.Nat.{bit_and}
use nupkux.Paths.{namei_match}

-- What the walk reads of a vnode; `mount` and `cover` are addresses of vnodes.
pub record Vnode : Type 0 where
  pub flags : ℕ
  pub mode : ℕ
  pub uid : ℕ
  pub gid : ℕ
  pub has_lookup : Bool
  pub mount : Option ℕ
  pub cover : Option ℕ

-- The counts of the vnodes by their addresses; they are UCHARs.
abbrev pub Counts : Type 0
Counts = ℕ → ℕ

-- `node->count++`
unfoldable pub retain : ℕ → Counts → Counts
retain node c = λ v. if v == node then (c v + 1) % 256 else c v

-- `iput` as far as the count goes
unfoldable pub iput : ℕ → Counts → Counts
iput node c = λ v. if v == node then c v - 1 else c v

-- The ids, the root and the working directory of the current task
pub record User : Type 0 where
  pub uid : ℕ
  pub euid : ℕ
  pub gid : ℕ
  pub egid : ℕ
  pub root : ℕ
  pub pwd : ℕ

-- I_AM_ROOT
abbrev pub is_root : User → Bool
is_root u = u.uid == 0 || u.euid == 0

-- `node_permission`; 511 is 0777.
unfoldable pub node_permission : User → Vnode → ℕ → ℕ
node_permission u node mask =
    let mode =
      if is_root u
      then 511
      else if u.uid == node.uid || u.euid == node.uid
      then node.mode / 64
      else if u.gid == node.gid || u.egid == node.gid
      then node.mode / 8
      else node.mode in
    bit_and (bit_and mode mask) 7

-- The vnode that is found or the error, and the counts.
pub data Walk : Type 0 where
  found_at failed_with : ℕ → Counts → Walk

abbrev pub finds : ℕ → Counts → Option Walk
finds node c = some (found_at node c)

abbrev pub fails : ℕ → Counts → Option Walk
fails error c = some (failed_with error c)

abbrev pub enoent : ℕ
enoent = 2

abbrev pub eacces : ℕ
eacces = 13

abbrev pub enotdir : ℕ
enotdir = 20

abbrev pub egeneric : ℕ
egeneric = 99

-- "." and ".."
abbrev pub dot : List ℕ
dot = 46 ∷ []

abbrev pub dots : List ℕ
dots = 46 ∷ 46 ∷ []

-- IS_DIR
abbrev pub is_dir : Vnode → Bool
is_dir node = node.flags % 8 == 2

-- What follows where a vnode was found.
abbrev pub on_found : Option Walk → (ℕ → Counts → Option Walk) → Option Walk
on_found none go = none
on_found (some (found_at node c)) go = go node c
on_found (some (failed_with error c)) go = fails error c

-- `newnode = node->mount; iput(node); newnode->count++;` and the recursive call
abbrev pub resolve_on : ℕ → Counts → (ℕ → Counts → Option Walk) → Option ℕ → Option Walk
resolve_on node c go none = finds node c
resolve_on node c go (some newnode) = go newnode (retain newnode (iput node c))

-- The rest of the path behind its first '/'.
abbrev pub behind_slash : List ℕ → Option (List ℕ)
behind_slash [] = none
behind_slash (c ∷ cs) = let later = behind_slash cs in if c == 47 then some cs else later

-- An empty component is ".".
abbrev pub entry_name : List ℕ → List ℕ
entry_name [] = []
entry_name (c ∷ cs) = if c == 47 then dot else c ∷ cs

-- `vnode` is what is at an address, and `lookup` the operation of the file systems; `depth` turns are
-- enough for a chain of mounts, and `none` is a longer one.
module _ (vnode : ℕ → Vnode) (lookup : ℕ → List ℕ → Counts → Option ℕ × Counts) (depth : ℕ)
    (u : User) where
  -- `resolve_mount`; its steps are never used up.
  unfoldable pub resolve_mount : ℕ → ℕ → Counts → Option Walk
  resolve_mount zero node c = none
  resolve_mount (suc fuel) node c =
      resolve_on node c (λ newnode c'. resolve_mount fuel newnode c') (vnode node).mount

  abbrev pub looked_up : Option ℕ → Counts → Option Walk
  looked_up none c = fails enoent c
  looked_up (some newnode) c = resolve_mount depth newnode c

  -- The end of `getdentry`: a name that is neither "." nor "..".
  unfoldable pub lookup_at : List ℕ → ℕ → Counts → Option Walk
  lookup_at filename node c =
      let (newnode, c') = lookup node filename c in
      if not (is_dir (vnode node))
      then fails enotdir (iput node c)
      else if node_permission u (vnode node) 1 == 0
      then fails eacces (iput node c)
      else if not (vnode node).has_lookup
      then fails egeneric (iput node c)
      else looked_up newnode (iput node c')

  -- ".." of a vnode that covers nothing: the root of the task is its own parent.
  abbrev pub parent_at : List ℕ → ℕ → Counts → Option Walk
  parent_at filename node c = on_found (resolve_mount depth u.root (retain u.root c)) (λ newnode c'.
      if node == newnode
      then finds node (iput newnode c')
      else lookup_at filename node (iput newnode c'))

  abbrev pub dots_at : List ℕ → ℕ → Counts → (ℕ → Counts → Option Walk) → Option ℕ → Option Walk
  dots_at filename node c again none = parent_at filename node c
  dots_at filename node c again (some cover) = again cover (iput node c)

  abbrev pub dentry_at : List ℕ → (ℕ → Counts → Option Walk) → ℕ → Counts → Option Walk
  dentry_at filename again node c =
      if namei_match filename dot
      then finds node c
      else if namei_match filename dots
      then dots_at filename node c again (vnode node).cover
      else lookup_at filename node c

  -- `getdentry`; it calls itself for the vnode that is covered.
  unfoldable pub getdentry : ℕ → List ℕ → Bool → ℕ → Counts → Option Walk
  getdentry zero filename frommount node c = none
  getdentry (suc fuel) filename frommount node c =
      let at = dentry_at filename (λ cover c'. getdentry fuel filename true cover c') in
      let resolved = on_found (resolve_mount depth node (retain node c)) at in
      if frommount then at node (retain node c) else resolved

  -- The loop of `igetdir`, and what `namei` does with the last component.
  abbrev pub last_entry : List ℕ → ℕ → Counts → Option Walk
  last_entry [] node c = finds node c
  last_entry (f ∷ filename) node c = getdentry depth (f ∷ filename) false node c

  abbrev pub at_component :
      List ℕ → ℕ → Counts → (List ℕ → ℕ → Counts → Option Walk) → Option (List ℕ) → Option Walk
  at_component filename node c go none = last_entry filename node c
  at_component filename node c go (some rest) =
      on_found (getdentry depth (entry_name filename) false node c) (go rest)

  unfoldable pub walk_path : ℕ → List ℕ → ℕ → Counts → Option Walk
  walk_path zero filename node c = none
  walk_path (suc fuel) filename node c =
      at_component filename node c (λ rest node' c'. walk_path fuel rest node' c')
        (behind_slash filename)

  -- `igetdir` of an empty path gives the vnode itself.
  unfoldable pub walk_from : List ℕ → ℕ → Counts → Option Walk
  walk_from [] node c = resolve_mount depth node (retain node c)
  walk_from (f ∷ filename) node c = walk_path (suc (suc (length filename))) (f ∷ filename) node c

  -- `namei` of a task whose `root` and `pwd` are set; that `root_vnode` stands in for a null one is left out.
  unfoldable pub namei : List ℕ → Counts → Option Walk
  namei [] c = fails enoent c
  namei (f ∷ filename) c =
      if f == 47 then walk_from filename u.root c else walk_from (f ∷ filename) u.pwd c
