-- ===== src/Initrd/Writes.antt =====
-- What the writes of tools/mkinitrd/main.c to the image change, and what they leave.
use nupkux.Base.{
  ℕ, zero, suc, ◌+◌, ◌^◌, ◌==◌, ◌≡◌, ◌≢◌, ◌≤◌, ◌<◌, inl, inr, refl, ◌∙◌, List, [], ◌∷◌, true, false,
  Bool-cases, length, All, arith,
}
use nupkux.Heap.{Bytes, write8, write32}
use nupkux.Programs.Stack.Words.{
  IsAt, IsAt-SameFrom, write32-outside, read32-write32, put_string-before, put_string-SameFrom,
  put_string-IsAt,
}
use nupkux.Initrd.{d_entry_size, initrd_filename_len}
use nupkux.Initrd.Make.{
  HostEntries, end, entry, is_dots, count_of_inodes, put_contents, clear, put_link, put_name,
}
use nupkux.Initrd.Layout.{listed, Kept, Contents, Link, read32-Kept}

write8-other : (m : Bytes) (a v x : ℕ) → x ≢ a → write8 m a v x ≡ m x
write8-other m a v x ne = let t : (x == a) ≡ false = ground (arith, ne) in rw t refl

write8_self : (m : Bytes) (a v : ℕ) → v < 256 → write8 m a v a ≡ v
write8_self m a v h = let t : (a == a) ≡ true = ground arith in rw t (omega arith)

pub put_contents-before : (a : ℕ) (bs : List ℕ) (m : Bytes) → Kept 0 a m (put_contents a bs m)
unfolding put_contents
put_contents-before a [] m x p q = refl
put_contents-before a (b ∷ bs) m x p q =
    put_contents-before (a + 1) bs (write8 m a b) x p (omega arith)
    ∙ write8-other m a b x (λ e. omega (arith, e, q))

pub put_contents-Contents :
    (a : ℕ) (bs : List ℕ) (m : Bytes) → All (λ b. b < 256) bs → Contents (put_contents a bs m) a bs
unfolding put_contents
put_contents-Contents a [] m h = tt
put_contents-Contents a (b ∷ bs) m (h, hs) = (
  put_contents-before (a + 1) bs (write8 m a b) a (omega arith) (omega arith) ∙ write8_self m a b h,
  put_contents-Contents (a + 1) bs (write8 m a b) hs,
)

clear-before : (a n : ℕ) (m : Bytes) → Kept 0 a m (clear a n m)
unfolding clear
clear-before a zero m x p q = refl
clear-before a (suc n) m x p q =
    clear-before (a + 1) n (write8 m a 0) x p (omega arith)
    ∙ write8-other m a 0 x (λ e. omega (arith, e, q))

clear-behind : (a n : ℕ) (m : Bytes) (x : ℕ) → a + n ≤ x → clear a n m x ≡ m x
unfolding clear
clear-behind a zero m x p = refl
clear-behind a (suc n) m x p =
    clear-behind (a + 1) n (write8 m a 0) x (omega arith)
    ∙ write8-other m a 0 x (λ e. omega (arith, e, p))

pub put_name-before : (a : ℕ) (name : List ℕ) (m : Bytes) → Kept 0 (a + 4) m (put_name a name m)
put_name-before a name m x p q =
    put_string-before name (a + 4) (clear (a + 4) initrd_filename_len m) x q
    ∙ clear-before (a + 4) initrd_filename_len m x p q

pub put_name-behind :
    (a : ℕ) (name : List ℕ) (m : Bytes) (x : ℕ)
    → length name < 64
    → a + d_entry_size ≤ x
    → put_name a name m x ≡ m x
put_name-behind a name m x l p =
    put_string-SameFrom name (a + 4) (clear (a + 4) initrd_filename_len m) x (omega arith)
    ∙ clear-behind (a + 4) initrd_filename_len m x (omega arith)

pub put_name-IsAt : (a : ℕ) (name : List ℕ) (m : Bytes) → IsAt (put_name a name m) (a + 4) name
put_name-IsAt a name m = put_string-IsAt name (a + 4) (clear (a + 4) initrd_filename_len m)

pub put_link-Link :
    (a : ℕ) (name : List ℕ) (ino : ℕ) (m : Bytes)
    → ino < 2 ^ 32
    → Link (put_link a name ino m) a name ino
put_link-Link a name ino m h = (
  put_string-IsAt name (a + 4) (write32 m a ino),
  read32-Kept (write32 m a ino) (put_link a name ino m) a
        (λ x p q. put_string-before name (a + 4) (write32 m a ino) x q)
      ∙ read32-write32 m a ino h,
)

pub put_link-before :
    (a : ℕ) (name : List ℕ) (ino : ℕ) (m : Bytes) → Kept 0 a m (put_link a name ino m)
put_link-before a name ino m x p q =
    put_string-before name (a + 4) (write32 m a ino) x (omega arith)
    ∙ write32-outside m a ino x (inl q)

pub put_link-behind :
    (a : ℕ) (name : List ℕ) (ino : ℕ) (m : Bytes) (x : ℕ)
    → length name < 64
    → a + d_entry_size ≤ x
    → put_link a name ino m x ≡ m x
put_link-behind a name ino m x l p =
    put_string-SameFrom name (a + 4) (write32 m a ino) x (omega arith)
    ∙ write32-outside m a ino x (inr (omega arith))

-- The number of an entry behind its name
pub write32-Link :
    (a : ℕ) (name : List ℕ) (ino : ℕ) (m : Bytes)
    → ino < 2 ^ 32
    → IsAt m (a + 4) name
    → Link (write32 m a ino) a name ino
write32-Link a name ino m h at = (
  IsAt-SameFrom m (write32 m a ino) (a + 4) (a + 4) name (λ x p. write32-outside m a ino x (inr p))
      (omega arith) at,
  read32-write32 m a ino h,
)

-- The entries that `savedir` makes room for
pub count_of_inodes-listed :
    (entries : HostEntries)
    → listed entries < 2 ^ 32
    → count_of_inodes entries false ≡ listed entries
unfolding count_of_inodes listed
count_of_inodes-listed end h = refl
count_of_inodes-listed (entry name f entries) h = elim (Bool-cases (is_dots name)) [
  | inl e ↦ rw e (count_of_inodes-listed entries (rw e at h))
  | inr e ↦
      let h' = rw e at h in
      let rest = count_of_inodes-listed entries (omega (arith, h')) in
      rw (e, rest) (omega (arith, h'))
]
