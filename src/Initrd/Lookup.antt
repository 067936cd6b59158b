-- ===== src/Initrd/Lookup.antt =====
-- `initrd_lookup` of src/fs/initrdfs/inode.c on an image that stores a directory.
use nupkux.Base.{
  ℕ, zero, suc, ◌+◌, ◌*◌, ◌%◌, ◌==◌, ◌≡◌, ◌≢◌, ◌<◌, inl, inr, refl, sym, ◌∙◌, ap, List, [], ◌∷◌,
  true, false, Bool-cases, some, length, All, arith,
}
use nupkux.Devfs.{string_of}
use nupkux.Heap.{Bytes}
use nupkux.Paths.{namei_match, is_end_chr}
use nupkux.Paths.Match.{IsName, component, namei_match_lem}
use nupkux.Programs.Stack.Words.{IsAt}
use nupkux.Initrd.{InitrdInode, Image, d_entry_size, bytes_at, last_match}
use nupkux.Initrd.Make.{HostEntries, end, entry, is_dots}
use nupkux.Initrd.Layout.{
  listed, inodes_of, space, Link, NotIn, StoredEntries, ValidEntries, ValidName,
}

component-IsName : (name : List ℕ) → IsName name → component name ≡ name
component-IsName [] h = refl
component-IsName (c ∷ name) (h, hs) = rw h (ap (λ l. c ∷ l) (component-IsName name hs))

namei_match_self : (name : List ℕ) → namei_match name name ≡ true
namei_match_self name = (namei_match_lem name name).1 refl

namei_match_other :
    (name other : List ℕ)
    → IsName name
    → IsName other
    → name ≢ other
    → namei_match name other ≡ false
namei_match_other name other h h' ne =
    elim (Bool-cases (namei_match name other)) as (λ _. namei_match name other ≡ false) [
      | inl e ↦ absurd (
          ne (
            sym (component-IsName name h)
            ∙ (namei_match_lem name other).0 e
            ∙ component-IsName other h'))
      | inr e ↦ e
    ]

not_end-ne_zero : (c : ℕ) → is_end_chr c ≡ false → (c == 0) ≡ false
not_end-ne_zero c h = ground (arith, h)

-- The string in an entry's array
string_of-bytes_at :
    (m : Bytes) (a n : ℕ) (name : List ℕ)
    → IsName name
    → All (λ c. c < 256) name
    → length name < n
    → IsAt m a name
    → string_of (bytes_at m a n) ≡ name
string_of-bytes_at m a zero name h b l at = absurd (omega (arith, l))
string_of-bytes_at m a (suc n) [] h b l at = rw at refl
string_of-bytes_at m a (suc n) (c ∷ name) (h, hs) (b, bs) l (at, ats) =
    let whole : c % 256 ≡ c = omega (arith, b) in
    rw (at, whole, not_end-ne_zero c h)
      (ap (λ l'. c ∷ l') (string_of-bytes_at m (a + 1) n name hs bs (omega (arith, l)) ats))

-- No entry that is listed has the name.
abbrev pub Absent : List ℕ → HostEntries → Type 0
Absent name end = Unit
Absent name (entry other f entries) = (is_dots other ≡ false → name ≢ other) × Absent name entries

pub NotIn-Absent :
    (name : List ℕ) (entries : HostEntries) → NotIn name entries → Absent name entries
NotIn-Absent name end h = tt
NotIn-Absent name (entry other f entries) (h, hs) = ((λ _. h), NotIn-Absent name entries hs)

module _ (v : Image) (inode : InitrdInode) where
  -- One entry of the loop, from the end
  pub last_match-hit :
      (i ino : ℕ) (name : List ℕ)
      → ValidName name
      → Link v.bytes (inode.offset + d_entry_size * i) name ino
      → last_match v inode (suc i) name ≡ some ino
  unfolding last_match
  last_match-hit i ino name (h, b, l) (at, e) =
      let read =
        string_of-bytes_at v.bytes (inode.offset + d_entry_size * i + 4) 64 name h b l at in
      rw read (rw (namei_match_self name) (ap some e))

  pub last_match-miss :
      (i ino : ℕ) (name other : List ℕ)
      → IsName name
      → ValidName other
      → name ≢ other
      → Link v.bytes (inode.offset + d_entry_size * i) other ino
      → last_match v inode (suc i) name ≡ last_match v inode i name
  unfolding last_match
  last_match-miss i ino name other hn (h, b, l) ne (at, e) =
      let read =
        string_of-bytes_at v.bytes (inode.offset + d_entry_size * i + 4) 64 other h b l at in
      rw read (rw (namei_match_other name other hn h ne) refl)

  -- Entries of other names are passed over.
  pub last_match-Absent :
      (entries : HostEntries) (i lo ino up : ℕ) (name : List ℕ)
      → IsName name
      → ValidEntries entries
      → Absent name entries
      → StoredEntries entries v.bytes v.inodes inode.offset i lo ino up
      → last_match v inode (i + listed entries) name ≡ last_match v inode i name
  unfolding StoredEntries ValidEntries listed
  last_match-Absent end i lo ino up name hn va ab h =
      let e : i + 0 ≡ i = omega arith in ap (λ n. last_match v inode n name) e
  last_match-Absent (entry other f entries) i lo ino up name hn (vn, new, vf, va) (ne, ab) h =
      elim (Bool-cases (is_dots other)) [
        | inl e ↦ rw e (last_match-Absent entries i lo ino up name hn va ab (rw e at h))
        | inr e ↦
            let (here, below, rest) = rw e at h in
            let shift : i + suc (listed entries) ≡ suc i + listed entries = omega arith in
            rw e (
              rw shift (
                last_match-Absent entries (suc i) (lo + space f) (ino + inodes_of f) up name hn va
                  ab rest
                ∙ last_match-miss i ino name other hn vn (ne e) here))
      ]
