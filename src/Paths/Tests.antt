-- ===== src/Paths/Tests.antt =====
-- Concrete names, and the theorems applied to them.
use nupkux.Base.{
  ℕ, zero, suc, ◌≡◌, refl, ◌↔◌, List, [], ◌∷◌, Option, none, some, true, false, arith,
}
use nupkux.Paths.Walk.{
  Vnode, Counts, User, Walk, found_at, failed_with, fails, dots, getdentry, namei,
}
use nupkux.Paths.Balance.{
  Balanced, IsLookup, retained, Ends, plain, mounted, Climbs, bare, covering, getdentry-Balanced,
}
use nupkux.Paths.{namei_match}
use nupkux.Paths.Match.{component, namei_match_lem}

abbrev usr : List ℕ
usr = b'u' ∷ b's' ∷ b'r' ∷ []

usr_lib : namei_match usr (b'u' ∷ b's' ∷ b'r' ∷ b'/' ∷ b'l' ∷ []) ≡ true
unfolding namei_match
usr_lib = refl

namei_match_lem_example :
    (namei_match usr (b'u' ∷ b's' ∷ b'r' ∷ b'/' ∷ b'l' ∷ []) ≡ true)
    ↔ (component usr ≡ component (b'u' ∷ b's' ∷ b'r' ∷ b'/' ∷ b'l' ∷ []))
namei_match_lem_example = namei_match_lem usr (b'u' ∷ b's' ∷ b'r' ∷ b'/' ∷ b'l' ∷ [])

-- The root 0 with the directory 1, on which the vnode 3 is mounted, with the file 2 in it.
abbrev directory : Vnode
directory = record {
  flags = 2;
  mode = 493;
  uid = 0;
  gid = 0;
  has_lookup = true;
  mount = none;
  cover = none;
}

abbrev vnodes : ℕ → Vnode
vnodes zero = directory
vnodes (suc zero) = record directory { mount = some 3 }
vnodes (suc (suc zero)) = record directory { flags = 1 }
vnodes (suc (suc (suc n))) = record directory { cover = some 1 }

abbrev entry : ℕ → Option ℕ
entry zero = some 1
entry (suc n) = some 2

abbrev lookup : ℕ → List ℕ → Counts → Option ℕ × Counts
lookup node name c = (entry node, retained (entry node) c)

lookup-IsLookup : IsLookup lookup
lookup-IsLookup = record { counts = λ node name c. refl }

vnodes-Ends : (n : ℕ) → Ends vnodes 3 n
vnodes-Ends zero = plain refl
vnodes-Ends (suc zero) = mounted refl (plain refl)
vnodes-Ends (suc (suc zero)) = plain refl
vnodes-Ends (suc (suc (suc n))) = plain refl

vnodes-Climbs : (n : ℕ) → Climbs vnodes 3 n
vnodes-Climbs zero = bare refl
vnodes-Climbs (suc zero) = bare refl
vnodes-Climbs (suc (suc zero)) = bare refl
vnodes-Climbs (suc (suc (suc n))) = covering refl (bare refl)

abbrev user : User
user = record { uid = 0; euid = 0; gid = 0; egid = 0; root = 0; pwd = 0 }

abbrev once : Counts
once v = 1

getdentry-Balanced_example : Balanced once (getdentry vnodes lookup 3 user 3 dots false 3 once)
getdentry-Balanced_example =
    getdentry-Balanced vnodes lookup 3 user lookup-IsLookup vnodes-Ends vnodes-Climbs dots 3 once
      (λ v. omega arith)

-- "b/s" leads over the mount to the file.
abbrev found_node : Option Walk → Option ℕ
found_node none = none
found_node (some (found_at n c)) = some n
found_node (some (failed_with e c)) = none

over_the_mount : found_node (namei vnodes lookup 3 user (98 ∷ 47 ∷ 115 ∷ []) once) ≡ some 2
unfolding namei namei_match nupkux.Paths.Walk.walk_from nupkux.Paths.Walk.walk_path getdentry
    nupkux.Paths.Walk.resolve_mount nupkux.Paths.Walk.lookup_at nupkux.Paths.Walk.node_permission
over_the_mount = refl

-- The mount point "b" itself gives what is mounted there.
mounted_node : found_node (namei vnodes lookup 3 user (98 ∷ []) once) ≡ some 3
unfolding namei namei_match nupkux.Paths.Walk.walk_from nupkux.Paths.Walk.walk_path getdentry
    nupkux.Paths.Walk.resolve_mount nupkux.Paths.Walk.lookup_at nupkux.Paths.Walk.node_permission
mounted_node = refl
