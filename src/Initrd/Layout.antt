-- ===== src/Initrd/Layout.antt =====
-- Where the image of a tree has what: the predicate that an image stores a file, and that it only looks at
-- the file's own part of the image.
use nupkux.Base.{
  ℕ, suc, ◌+◌, ◌*◌, ◌≡◌, ◌≢◌, ◌≤◌, ◌<◌, inl, inr, refl, ◌∙◌, if◌then◌else◌, List, [], ◌∷◌,
  Bool-cases, length, All, arith,
}
use nupkux.Paths.Match.{IsName}
use nupkux.Heap.{Bytes, read32}
use nupkux.Programs.Stack.Words.{IsAt}
use nupkux.Initrd.{InitrdInode, d_entry_size}
use nupkux.Paths.Walk.{dot, dots}
use nupkux.Initrd.Make.{
  Stat, HostFile, file, directory, HostEntries, end, entry, is_dots, type_file, type_directory,
  hardlinks,
}

-- The entries that are not skipped
unfoldable pub listed : HostEntries → ℕ
listed end = 0
listed (entry name f entries) = if is_dots name then listed entries else suc (listed entries)

unfoldable mutual
  unfolding listed

  -- The inodes and the bytes that a file takes
  pub inodes_of : HostFile → ℕ
  inodes_of (file st contents) = 1
  inodes_of (directory st entries) = suc (inodes_in entries)

  pub inodes_in : HostEntries → ℕ
  inodes_in end = 0
  inodes_in (entry name f entries) =
      if is_dots name then inodes_in entries else inodes_of f + inodes_in entries

unfoldable mutual
  unfolding listed

  pub space : HostFile → ℕ
  space (file st contents) = length contents
  space (directory st entries) = d_entry_size * (listed entries + hardlinks) + space_in entries

  pub space_in : HostEntries → ℕ
  space_in end = 0
  space_in (entry name f entries) =
      if is_dots name then space_in entries else space f + space_in entries

abbrev pub Table : Type 0
Table = ℕ → InitrdInode

-- The same between two bounds
abbrev pub Kept {ℓ} : {A : Type ℓ} → ℕ → ℕ → (ℕ → A) → (ℕ → A) → Type ℓ
Kept lo hi m m' = (a : ℕ) → lo ≤ a → a < hi → m' a ≡ m a

abbrev pub Contents : Bytes → ℕ → List ℕ → Type 0
Contents m a [] = Unit
Contents m a (b ∷ bs) = (m a ≡ b) × Contents m (a + 1) bs

-- An entry at `a`
abbrev pub Link : Bytes → ℕ → List ℕ → ℕ → Type 0
Link m a name ino = IsAt m (a + 4) name × (read32 m a ≡ ino)

abbrev pub inode_of : Stat → ℕ → ℕ → ℕ → ℕ → InitrdInode
inode_of st ino lo flags size = record {
  inode = ino;
  offset = lo;
  mode = st.st_mode;
  gid = st.st_gid;
  uid = st.st_uid;
  flags = flags;
  size = size;
}

-- The image stores the file with the inode `ino`, and from `lo` on; `up` is the parent.
unfoldable mutual
  unfolding listed inodes_of space

  pub Stored : HostFile → Bytes → Table → ℕ → ℕ → ℕ → Type 0
  Stored (file st contents) m t lo ino up =
      (t ino ≡ inode_of st ino lo type_file (length contents)) × Contents m lo contents
  Stored (directory st entries) m t lo ino up =
      (t ino ≡ inode_of st ino lo type_directory (d_entry_size * (listed entries + hardlinks)))
      × Link m lo dot ino
      × Link m (lo + d_entry_size) dots up
      × StoredEntries entries m t lo 2 (lo + d_entry_size * (listed entries + hardlinks)) (suc ino)
          ino

  -- The entries of a directory from `i` on, whose files are stored from `lo` on
  pub StoredEntries : HostEntries → Bytes → Table → ℕ → ℕ → ℕ → ℕ → ℕ → Type 0
  StoredEntries end m t off i lo ino up = Unit
  StoredEntries (entry name f entries) m t off i lo ino up =
      if is_dots name
      then StoredEntries entries m t off i lo ino up
      else Link m (off + d_entry_size * i) name ino
        × Stored f m t lo ino up
        × StoredEntries entries m t off (suc i) (lo + space f) (ino + inodes_of f) up

pub Kept-within {ℓ} :
    {A : Type ℓ} {m m' : ℕ → A} (lo hi lo' hi' : ℕ)
    → lo ≤ lo'
    → hi' ≤ hi
    → Kept lo hi m m'
    → Kept lo' hi' m m'
Kept-within lo hi lo' hi' l h k a p q = k a (omega (arith, l, p)) (omega (arith, h, q))

pub Contents-Kept :
    (m m' : Bytes) (a : ℕ) (bs : List ℕ)
    → Kept a (a + length bs) m m'
    → Contents m a bs
    → Contents m' a bs
Contents-Kept m m' a [] k h = tt
Contents-Kept m m' a (b ∷ bs) k (h, hs) = (
  k a (omega arith) (omega arith) ∙ h,
  Contents-Kept m m' (a + 1) bs (λ x p q. k x (omega (arith, p)) (omega (arith, q))) hs,
)

pub IsAt-Kept :
    (m m' : Bytes) (a : ℕ) (s : List ℕ) → Kept a (a + length s + 1) m m' → IsAt m a s → IsAt m' a s
IsAt-Kept m m' a [] k h = k a (omega arith) (omega arith) ∙ h
IsAt-Kept m m' a (c ∷ s) k (h, hs) = (
  k a (omega arith) (omega arith) ∙ h,
  IsAt-Kept m m' (a + 1) s (λ x p q. k x (omega (arith, p)) (omega (arith, q))) hs,
)

pub read32-Kept : (m m' : Bytes) (a : ℕ) → Kept a (a + 4) m m' → read32 m' a ≡ read32 m a
read32-Kept m m' a k =
    rw
      (
        k a (omega arith) (omega arith),
        k (a + 1) (omega arith) (omega arith),
        k (a + 2) (omega arith) (omega arith),
        k (a + 3) (omega arith) (omega arith),
      )
      refl

pub Link-Kept :
    (m m' : Bytes) (a : ℕ) (name : List ℕ) (ino : ℕ)
    → length name < 64
    → Kept a (a + d_entry_size) m m'
    → Link m a name ino
    → Link m' a name ino
Link-Kept m m' a name ino l k (h, e) = (
  IsAt-Kept m m' (a + 4) name (λ x p q. k x (omega (arith, p)) (omega (arith, q, l))) h,
  read32-Kept m m' a (λ x p q. k x p (omega (arith, q))) ∙ e,
)

-- A name that fits into an entry and that no later entry has
abbrev pub NotIn : List ℕ → HostEntries → Type 0
NotIn name end = Unit
NotIn name (entry other f entries) = (name ≢ other) × NotIn name entries

abbrev pub ValidName : List ℕ → Type 0
ValidName name = IsName name × All (λ c. c < 256) name × length name < 64

unfoldable mutual
  -- The contents are bytes, and the entries of each directory have different names that fit.
  pub Valid : HostFile → Type 0
  Valid (file st contents) = All (λ b. b < 256) contents
  Valid (directory st entries) = ValidEntries entries

  pub ValidEntries : HostEntries → Type 0
  ValidEntries end = Unit
  ValidEntries (entry name f entries) =
      ValidName name × NotIn name entries × Valid f × ValidEntries entries

mutual
  unfolding Stored StoredEntries Valid ValidEntries space space_in inodes_of inodes_in listed

  pub Stored-Kept :
      (f : HostFile) (m m' : Bytes) (t t' : Table) (lo ino up : ℕ)
      → Valid f
      → Kept lo (lo + space f) m m'
      → Kept ino (ino + inodes_of f) t t'
      → Stored f m t lo ino up
      → Stored f m' t' lo ino up
  Stored-Kept (file st contents) m m' t t' lo ino up v k kt (h, hs) =
      (kt ino (omega arith) (omega arith) ∙ h, Contents-Kept m m' lo contents k hs)
  Stored-Kept (directory st entries) m m' t t' lo ino up v k kt (h, self, parent, hs) = (
    kt ino (omega arith) (omega arith) ∙ h,
    Link-Kept m m' lo dot ino (omega arith) (λ x p q. k x p (omega (arith, q))) self,
    Link-Kept m m' (lo + d_entry_size) dots up (omega arith)
        (λ x p q. k x (omega (arith, p)) (omega (arith, q))) parent,
    StoredEntries-Kept entries m m' t t' lo 2 (lo + d_entry_size * (listed entries + hardlinks))
        (suc ino) ino v (λ x p q. k x (omega (arith, p)) (omega (arith, q)))
        (λ x p q. k x (omega (arith, p)) (omega (arith, q)))
        (λ x p q. kt x (omega (arith, p)) (omega (arith, q))) hs,
  )

  pub StoredEntries-Kept :
      (entries : HostEntries) (m m' : Bytes) (t t' : Table) (off i lo ino up : ℕ)
      → ValidEntries entries
      → Kept (off + d_entry_size * i) (off + d_entry_size * (i + listed entries)) m m'
      → Kept lo (lo + space_in entries) m m'
      → Kept ino (ino + inodes_in entries) t t'
      → StoredEntries entries m t off i lo ino up
      → StoredEntries entries m' t' off i lo ino up
  StoredEntries-Kept end m m' t t' off i lo ino up v ke k kt h = tt
  StoredEntries-Kept (entry name f entries) m m' t t' off i lo ino up (vn, new, vf, v) ke k kt h =
      let skip = StoredEntries-Kept entries m m' t t' off i lo ino up v in
      let keep =
        StoredEntries-Kept entries m m' t t' off (suc i) (lo + space f) (ino + inodes_of f) up v in
      let keep_file = Stored-Kept f m m' t t' lo ino up vf in
      let link = Link-Kept m m' (off + d_entry_size * i) name ino vn.2 in
      elim (Bool-cases (is_dots name)) [
        | inl e ↦ rw e (skip (rw e at ke) (rw e at k) (rw e at kt) (rw e at h))
        | inr e ↦
            let ke' = rw e at ke in
            let k' = rw e at k in
            let kt' = rw e at kt in
            let (here, below, rest) = rw e at h in
            rw e (
              link (λ x p q. ke' x p (omega (arith, q))) here,
              keep_file (λ x p q. k' x p (omega (arith, q))) (λ x p q. kt' x p (omega (arith, q)))
                  below,
              keep (λ x p q. ke' x (omega (arith, p)) (omega (arith, q)))
                  (λ x p q. k' x (omega (arith, p)) (omega (arith, q)))
                  (λ x p q. kt' x (omega (arith, p)) (omega (arith, q))) rest,
            )
      ]
