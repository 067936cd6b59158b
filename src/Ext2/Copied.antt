-- ===== src/Ext2/Copied.antt =====
-- A `memcpy` into a buffer, as `ext2_read` of src/fs/ext2/inode.c uses it, byte by byte.
use nupkux.Base.{
  ℕ, zero, suc, ◌+◌, ◌-◌, ◌<◌, ◌≤◌, ◌≡◌, refl, ◌∙◌, ap, List, [], ◌∷◌, get_or, length, drop, some,
  arith,
}
use nupkux.Drivers.{copy_to}

pub get_or-drop : (xs : List ℕ) (n i : ℕ) → get_or (drop n xs) i 0 ≡ get_or xs (n + i) 0
get_or-drop xs zero i = ap (λ k. get_or xs k 0) (omega arith)
get_or-drop [] (suc n) i = refl
get_or-drop (x ∷ xs) (suc n) i =
    let e : suc (n + i) ≡ suc n + i = omega arith in
    get_or-drop xs n i ∙ ap (λ k. get_or (x ∷ xs) k 0) e

pub length-drop : (xs : List ℕ) (n : ℕ) → length (drop n xs) ≡ length xs - n
length-drop xs zero = omega arith
length-drop [] (suc n) = omega arith
length-drop (x ∷ xs) (suc n) = length-drop xs n ∙ omega arith

pub drop_all : (n : ℕ) (xs : List ℕ) → length xs ≤ n → drop n xs ≡ []
drop_all zero [] l = refl
drop_all zero (x ∷ xs) l = absurd (omega (arith, l))
drop_all (suc n) [] l = refl
drop_all (suc n) (x ∷ xs) l = drop_all n xs (omega arith)

-- A copy within the buffer, byte by byte.
pub record IsWritten (mem : List ℕ) (off n : ℕ) (src mem' : List ℕ) : Type 0 where
  pub same : length mem' ≡ length mem
  pub inside : (i : ℕ) → off ≤ i → i < off + n → get_or mem' i 0 ≡ get_or src (i - off) 0
  pub before : (i : ℕ) → i < off → get_or mem' i 0 ≡ get_or mem i 0
  pub after : (i : ℕ) → off + n ≤ i → get_or mem' i 0 ≡ get_or mem i 0

nothing : (mem src : List ℕ) → IsWritten mem 0 0 src mem
nothing mem src = record {
  same = refl;
  inside = λ i l l'. absurd (omega (arith, l, l'));
  before = λ i l. refl;
  after = λ i l. refl;
}

first_byte :
    (b c : ℕ) (mem src mem' : List ℕ) (n : ℕ)
    → IsWritten mem 0 n src mem'
    → IsWritten (b ∷ mem) 0 (suc n) (c ∷ src) (c ∷ mem')
first_byte b c mem src mem' n h = record {
  same = ap suc h.same;
  inside = inside;
  before = λ i l. absurd (omega (arith, l));
  after = after;
}
  where
    inside : (i : ℕ) → 0 ≤ i → i < 0 + suc n → get_or (c ∷ mem') i 0 ≡ get_or (c ∷ src) (i - 0) 0
    inside zero l l' = refl
    inside (suc i) l l' =
        let e : suc (i - 0) ≡ suc i - 0 = omega arith in
        h.inside i (omega arith) (omega arith) ∙ ap (λ k. get_or (c ∷ src) k 0) e

    after : (i : ℕ) → 0 + suc n ≤ i → get_or (c ∷ mem') i 0 ≡ get_or (b ∷ mem) i 0
    after zero l = absurd (omega (arith, l))
    after (suc i) l = h.after i (omega arith)

later_byte :
    (b : ℕ) (mem src mem' : List ℕ) (off n : ℕ)
    → IsWritten mem off n src mem'
    → IsWritten (b ∷ mem) (suc off) n src (b ∷ mem')
later_byte b mem src mem' off n h = record {
  same = ap suc h.same;
  inside = inside;
  before = before;
  after = after;
}
  where
    inside :
        (i : ℕ) → suc off ≤ i → i < suc off + n → get_or (b ∷ mem') i 0 ≡ get_or src (i - suc off) 0
    inside zero l l' = absurd (omega (arith, l))
    inside (suc i) l l' =
        let e : i - off ≡ suc i - suc off = omega arith in
        h.inside i (omega arith) (omega arith) ∙ ap (λ k. get_or src k 0) e

    before : (i : ℕ) → i < suc off → get_or (b ∷ mem') i 0 ≡ get_or (b ∷ mem) i 0
    before zero l = refl
    before (suc i) l = h.before i (omega arith)

    after : (i : ℕ) → suc off + n ≤ i → get_or (b ∷ mem') i 0 ≡ get_or (b ∷ mem) i 0
    after zero l = absurd (omega (arith, l))
    after (suc i) l = h.after i (omega arith)

pub copy_to-IsWritten :
    (mem : List ℕ) (off n : ℕ) (src : List ℕ)
    → off + n ≤ length mem
    → n ≤ length src
    → (mem' : List ℕ) × (copy_to mem off n src ≡ some mem') × IsWritten mem off n src mem'
copy_to-IsWritten mem zero zero src l l' = (mem, refl, nothing mem src)
copy_to-IsWritten [] zero (suc n) src l l' = absurd (omega (arith, l))
copy_to-IsWritten (b ∷ mem) zero (suc n) [] l l' = absurd (omega (arith, l'))
copy_to-IsWritten (b ∷ mem) zero (suc n) (c ∷ src) l l' =
    let (mem', e, h) = copy_to-IsWritten mem 0 n src (omega (arith, l)) (omega (arith, l')) in
    (c ∷ mem', rw e refl, first_byte b c mem src mem' n h)
copy_to-IsWritten [] (suc off) n src l l' = absurd (omega (arith, l))
copy_to-IsWritten (b ∷ mem) (suc off) n src l l' =
    let (mem', e, h) = copy_to-IsWritten mem off n src (omega (arith, l)) l' in
    (b ∷ mem', rw e refl, later_byte b mem src mem' off n h)
