-- ===== src/Programs/Stack/Words.antt =====
-- Words, strings and vectors in memory.
use nupkux.Base.{
  ℕ, ◌+◌, ◌-◌, ◌%◌, ◌^◌, ◌==◌, ◌<◌, ◌≤◌, ◌≡◌, ◌⊎◌, refl, ◌∙◌, inl, inr, List, [], ◌∷◌, length, true,
  false, arith,
}
use nupkux.Heap.{Bytes, read32, write8, write32, sub32}
use nupkux.Programs.Stack.{put_string}

-- Words in memory.
pub write32-outside : (m : Bytes) (a v x : ℕ) → (x < a) ⊎ (a + 4 ≤ x) → write32 m a v x ≡ m x
unfolding write32
write32-outside m a v x (inl l) =
    let t0 : (x == a) ≡ false = ground (arith, l) in
    let t1 : (x == a + 1) ≡ false = ground (arith, l) in
    let t2 : (x == a + 2) ≡ false = ground (arith, l) in
    let t3 : (x == a + 3) ≡ false = ground (arith, l) in rw (t3, t2, t1, t0) refl
write32-outside m a v x (inr l) =
    let t0 : (x == a) ≡ false = ground (arith, l) in
    let t1 : (x == a + 1) ≡ false = ground (arith, l) in
    let t2 : (x == a + 2) ≡ false = ground (arith, l) in
    let t3 : (x == a + 3) ≡ false = ground (arith, l) in rw (t3, t2, t1, t0) refl

pub read32-write32_ne :
    (m : Bytes) (a v b : ℕ) → (b + 4 ≤ a) ⊎ (a + 4 ≤ b) → read32 (write32 m a v) b ≡ read32 m b
read32-write32_ne m a v b h =
    let byte = λ (i : ℕ) (l : i < 4).
      write32-outside m a v (b + i)
        (elim h [ inl k ↦ inl (omega (arith, k, l)) | inr k ↦ inr (omega (arith, k, l)) ]) in
    let first =
      write32-outside m a v b
        (elim h [ inl k ↦ inl (omega (arith, k)) | inr k ↦ inr (omega (arith, k)) ]) in
    rw (first, byte 1 (omega arith), byte 2 (omega arith), byte 3 (omega arith)) refl

pub read32-write32 : (m : Bytes) (a v : ℕ) → v < 2 ^ 32 → read32 (write32 m a v) a ≡ v
unfolding write32
read32-write32 m a v h =
    let t03 : (a == a + 3) ≡ false = ground arith in
    let t02 : (a == a + 2) ≡ false = ground arith in
    let t01 : (a == a + 1) ≡ false = ground arith in
    let t00 : (a == a) ≡ true = ground arith in
    let t13 : (a + 1 == a + 3) ≡ false = ground arith in
    let t12 : (a + 1 == a + 2) ≡ false = ground arith in
    let t11 : (a + 1 == a + 1) ≡ true = ground arith in
    let t23 : (a + 2 == a + 3) ≡ false = ground arith in
    let t22 : (a + 2 == a + 2) ≡ true = ground arith in
    let t33 : (a + 3 == a + 3) ≡ true = ground arith in
    rw (t03, t02, t01, t00, t13, t12, t11, t23, t22, t33) (omega (arith, h))

pub sub32_lem : (a b : ℕ) → b ≤ a → a < 2 ^ 32 → sub32 a b ≡ a - b
sub32_lem a b l h = omega (arith, l, h)

-- A string with its NUL in memory, and strings one behind the other.
abbrev pub IsAt : Bytes → ℕ → List ℕ → Type 0
IsAt m a [] = m a ≡ 0
IsAt m a (c ∷ s) = (m a ≡ c % 256) × IsAt m (a + 1) s

abbrev pub Strings : Bytes → ℕ → List (List ℕ) → Type 0
Strings m a [] = Unit
Strings m a (s ∷ vec) = IsAt m a s × Strings m (a + length s + 1) vec

-- A vector of the addresses of strings that start at `addr`, with its null pointer.
abbrev pub Addresses : Bytes → ℕ → ℕ → List (List ℕ) → Type 0
Addresses m a addr [] = read32 m a ≡ 0
Addresses m a addr (s ∷ vec) = (read32 m a ≡ addr) × Addresses m (a + 4) (addr + length s + 1) vec

abbrev pub total : List (List ℕ) → ℕ
total [] = 0
total (s ∷ vec) = length s + 1 + total vec

-- The bytes from `a` on are the same.
abbrev pub SameFrom : ℕ → Bytes → Bytes → Type 0
SameFrom a m m' = (x : ℕ) → a ≤ x → m' x ≡ m x

pub IsAt-SameFrom :
    (m m' : Bytes) (b a : ℕ) (s : List ℕ) → SameFrom b m m' → b ≤ a → IsAt m a s → IsAt m' a s
IsAt-SameFrom m m' b a [] same l h = same a l ∙ h
IsAt-SameFrom m m' b a (c ∷ s) same l (h, hs) =
    (same a l ∙ h, IsAt-SameFrom m m' b (a + 1) s same (omega (arith, l)) hs)

pub Strings-SameFrom :
    (m m' : Bytes) (b a : ℕ) (vec : List (List ℕ))
    → SameFrom b m m'
    → b ≤ a
    → Strings m a vec
    → Strings m' a vec
Strings-SameFrom m m' b a [] same l h = tt
Strings-SameFrom m m' b a (s ∷ vec) same l (h, hs) = (
  IsAt-SameFrom m m' b a s same l h,
  Strings-SameFrom m m' b (a + length s + 1) vec same (omega (arith, l)) hs,
)

pub Addresses-SameFrom :
    (m m' : Bytes) (b a addr : ℕ) (vec : List (List ℕ))
    → SameFrom b m m'
    → b ≤ a
    → Addresses m a addr vec
    → Addresses m' a addr vec
Addresses-SameFrom m m' b a addr [] same l h =
    rw
      (
        same a l,
        same (a + 1) (omega (arith, l)),
        same (a + 2) (omega (arith, l)),
        same (a + 3) (omega (arith, l)),
      )
      h
Addresses-SameFrom m m' b a addr (s ∷ vec) same l (h, hs) = (
  rw
      (
        same a l,
        same (a + 1) (omega (arith, l)),
        same (a + 2) (omega (arith, l)),
        same (a + 3) (omega (arith, l)),
      )
      h,
  Addresses-SameFrom m m' b (a + 4) (addr + length s + 1) vec same (omega (arith, l)) hs,
)

pub write8-before : (m : Bytes) (a v x : ℕ) → a < x → write8 m a v x ≡ m x
write8-before m a v x l = let t : (x == a) ≡ false = ground (arith, l) in rw t refl

pub put_string-before : (s : List ℕ) (a : ℕ) (m : Bytes) (x : ℕ) → x < a → put_string a s m x ≡ m x
put_string-before [] a m x l = let t : (x == a) ≡ false = ground (arith, l) in rw t refl
put_string-before (c ∷ s) a m x l =
    let t : (x == a) ≡ false = ground (arith, l) in
    put_string-before s (a + 1) (write8 m a c) x (omega (arith, l)) ∙ rw t refl

pub put_string-SameFrom :
    (s : List ℕ) (a : ℕ) (m : Bytes) → SameFrom (a + length s + 1) m (put_string a s m)
put_string-SameFrom [] a m x l = write8-before m a 0 x (omega (arith, l))
put_string-SameFrom (c ∷ s) a m x l =
    put_string-SameFrom s (a + 1) (write8 m a c) x (omega (arith, l))
    ∙ write8-before m a c x (omega (arith, l))

pub put_string-IsAt : (s : List ℕ) (a : ℕ) (m : Bytes) → IsAt (put_string a s m) a s
put_string-IsAt [] a m = let t : (a == a) ≡ true = ground arith in rw t refl
put_string-IsAt (c ∷ s) a m =
    let t : (a == a) ≡ true = ground arith in
    (
      put_string-before s (a + 1) (write8 m a c) a (omega arith) ∙ rw t refl,
      put_string-IsAt s (a + 1) (write8 m a c),
    )
