-- ===== src/Ext2/Entries.antt =====
-- `ext2_readdir` and `ext2_lookup` on the entries of a directory.
use nupkux.Base.{
  ℕ, zero, suc, ◌+◌, ◌-◌, ◌==◌, ◌≡◌, ◌≢◌, ◌≤◌, ◌<◌, ◌⊎◌, inl, inr, refl, if◌then◌else◌, List, [],
  ◌∷◌, length, Bool, true, false, Option, none, some, ℤ, Bool-cases, not_both, arith,
}
use nupkux.Heap.{Bytes, read32}
use nupkux.Paths.Match.{IsName, component}
use nupkux.Ext2.{Blocks, Ext2Inode, ext2_read}
use nupkux.Ext2.Directory.{
  rec_len, name_len, name_at, vfs_name_len, with_buffer, lookup_loop, is_positive, ext2_lookup,
}

-- A result that is there
abbrev pub Ends {ℓ} : {A : Type ℓ} → Option A → Type ℓ
Ends {A = A} o = (r : A) × (o ≡ some r)

-- The tests of one turn of the loop
turn_ends :
    (b c d : Bool) (found : ℕ) (later : Option (Option ℕ))
    → (d ≡ false → Ends later)
    → Ends
        (if b then some none else if c then some (some found) else if d then some none else later)
turn_ends true c d found later h = (none, refl)
turn_ends false true d found later h = (some found, refl)
turn_ends false false true found later h = (none, refl)
turn_ends false false false found later h = h refl

module _ (name : List ℕ) (m : Bytes) where
  -- An entry of length 0 ends the loop.
  lookup_loop_stops :
      (fuel ent read_size : ℕ)
      → rec_len m ent ≡ 0
      → Ends (lookup_loop (suc fuel) name m ent read_size)
  unfolding lookup_loop
  lookup_loop_stops fuel ent read_size e =
      let t : (rec_len m ent == 0) ≡ true = ground (arith, e) in
      turn_ends (read_size == 0) _ (rec_len m ent == 0) (read32 m ent) _
        (λ h. absurd (not_both (rec_len m ent == 0) t h))

  -- Two turns more than the directory has bytes are enough for its loop.
  lookup_loop_ends :
      (fuel ent read_size : ℕ) → read_size + 2 ≤ fuel → Ends (lookup_loop fuel name m ent read_size)
  unfolding lookup_loop
  lookup_loop_ends zero ent read_size l = absurd (omega (arith, l))
  lookup_loop_ends (suc zero) ent read_size l = absurd (omega (arith, l))
  lookup_loop_ends (suc (suc fuel)) ent read_size l = elim (Bool-cases (read_size == 0)) [
    | inl done ↦ rw done (none, refl)
    | inr more ↦
        let next = ent + rec_len m ent in
        turn_ends (read_size == 0) _ (rec_len m ent == 0) (read32 m ent) _ (λ _.
          elim (Bool-cases (rec_len m next == 0)) [
            | inl stop ↦
                lookup_loop_stops fuel next (read_size - rec_len m next) (ground (arith, stop))
            | inr going ↦
                lookup_loop_ends (suc fuel) next (read_size - rec_len m next)
                  (ground (arith, more, going, l))
          ])
  ]

-- An entry on the disk
pub record DirEntry : Type 0 where
  pub inode : ℕ
  pub rec : ℕ
  pub name : List ℕ

-- The entry at `a`, with a byte behind its name that ends it
abbrev pub EntryAt : Bytes → ℕ → DirEntry → Type 0
EntryAt m a e =
    (read32 m a ≡ e.inode)
    × (rec_len m a ≡ e.rec)
    × (name_len m a ≡ length e.name)
    × (name_at m a (length e.name) ≡ e.name)
    × (m (a + 8 + length e.name) ≡ 0)
    × IsName e.name
    × (length e.name ≤ vfs_name_len)
    × (0 < e.rec)

-- Entries one behind the other
abbrev pub Laid : Bytes → ℕ → List DirEntry → Type 0
Laid m a [] = Unit
Laid m a (e ∷ es) = EntryAt m a e × Laid m (a + e.rec) es

abbrev pub total : List DirEntry → ℕ
total [] = 0
total (e ∷ es) = e.rec + total es

-- The first entry of the name has the number.
abbrev pub First : List ℕ → ℕ → List DirEntry → Type 0
First name ino [] = ⊥
First name ino (e ∷ es) =
    ((component name ≡ e.name) × (ino ≡ e.inode)) ⊎ ((component name ≢ e.name) × First name ino es)

-- No entry has the name.
abbrev pub Unnamed : List ℕ → List DirEntry → Type 0
Unnamed name [] = Unit
Unnamed name (e ∷ es) = (component name ≢ e.name) × Unnamed name es

module _ (read : ℕ → ℕ → Option (List ℕ)) (sb : Blocks) (dir : Ext2Inode) (name fresh temp : List ℕ)
    (behind : Bytes) (out : List ℕ) where
  -- Where `ext2_read` returns, `ext2_lookup` does, too, whatever stands in the directory and behind it.
  pub ext2_lookup_ends :
      (status : ℤ)
      → ext2_read read sb dir 0 dir.size fresh temp ≡ some (status, out)
      → (found : Option ℕ) × (ext2_lookup read sb dir name fresh temp behind ≡ some found)
  unfolding ext2_lookup
  ext2_lookup_ends status e = rw e (elim (Bool-cases (is_positive status)) [
    | inl yes' ↦ rw yes' (
        lookup_loop_ends name (with_buffer out behind) (suc (suc dir.size)) 0 dir.size
          (omega arith))
    | inr not' ↦ rw not' (none, refl)
  ])
