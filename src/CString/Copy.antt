-- ===== src/CString/Copy.antt =====
-- What `strlen`, `strchr`, `strcpy` and `strncpy` of src/lib/string.c return and write.
use nupkux.Base.{
  ℕ, zero, suc, ◌+◌, ◌-◌, ◌<◌, ◌≤◌, ◌≡◌, ◌≢◌, refl, ap, ◌⊎◌, inl, inr, ◌==◌, List, [], ◌∷◌, ◌++◌,
  length, drop, replicate, All, Option, none, some, arith, Bool-cases, ==_iff,
}
use nupkux.CString.{IsCString, strlen_loop, strlen, strchr, strcpy, fill_zero, strncpy, uint_max}

strlen_loop-length :
    (str : List ℕ) (res : ℕ) → IsCString str → strlen_loop str res ≡ res + length str
unfolding strlen_loop
strlen_loop-length [] res h = omega arith
strlen_loop-length (c ∷ cs) res h = ground (arith, strlen_loop-length cs (res + 1) h.1)

-- `strlen` counts the bytes in front of the NUL.
pub strlen-length : (str : List ℕ) → IsCString str → strlen str ≡ length str
unfolding strlen
strlen-length str h = omega (arith, strlen_loop-length str 0 h)

-- Where `strchr` finds a byte, and that it is the first.
abbrev pub Finds : Option (List ℕ) → List ℕ → ℕ → Type 0
Finds none str chr = All (λ c. c ≢ chr) str
Finds (some rest) str chr =
    (before : List ℕ) × (after : List ℕ) × (rest ≡ chr ∷ after)
    × (str ≡ before ++ rest)
    × All (λ c. c ≢ chr) before

Finds-cons :
    (r : Option (List ℕ)) (c chr : ℕ) (str : List ℕ)
    → c ≢ chr
    → Finds r str chr
    → Finds r (c ∷ str) chr
Finds-cons none c chr str ne f = (ne, f)
Finds-cons (some rest) c chr str ne (before, after, e, e', a) =
    (c ∷ before, after, e, ap (λ l. c ∷ l) e', (ne, a))

-- `strchr` returns the first place of the byte in the string, and null exactly if it has none.
pub strchr-Finds : (str : List ℕ) (chr : ℕ) → IsCString str → Finds (strchr str chr) str chr
unfolding strchr
strchr-Finds [] chr h = tt
strchr-Finds (c ∷ cs) chr h = elim (Bool-cases (c == 0)) [
  | inl z ↦ absurd (ground arith)
  | inr nz ↦ rw nz (elim (Bool-cases (c == chr)) [
    | inl e ↦ rw e ([], cs, ap (λ x. x ∷ cs) ((==_iff c chr).0 e), refl, tt)
    | inr e ↦ rw e (Finds-cons (strchr cs chr) c chr cs (ground arith) (strchr-Finds cs chr h.1))
  ])
]

-- `strcpy` writes the source and a NUL at the start of the destination, keeps what stands behind
-- them, and leaves the destination exactly if the source with its NUL does not fit.
pub strcpy_lem :
    (dest src : List ℕ)
    → IsCString src
    → ((length src < length dest)
        × (strcpy dest src ≡ some (src ++ 0 ∷ drop (suc (length src)) dest)))
      ⊎ ((length dest ≤ length src) × (strcpy dest src ≡ none))
unfolding strcpy
strcpy_lem [] src h = inr (omega arith, refl)
strcpy_lem (d ∷ ds) [] h = inl (omega arith, refl)
strcpy_lem (d ∷ ds) (c ∷ cs) h = ground (arith, strcpy_lem ds cs h.1)

fill_zero-fits :
    (num : ℕ) (dest : List ℕ)
    → num ≤ length dest
    → fill_zero num dest ≡ some (replicate num 0 ++ drop num dest)
unfolding fill_zero
fill_zero-fits zero dest h = refl
fill_zero-fits (suc num) [] h = absurd (omega arith)
fill_zero-fits (suc num) (d ∷ ds) h = rw (fill_zero-fits num ds (omega arith))

fill_zero_overrun : (num : ℕ) (dest : List ℕ) → length dest < num → fill_zero num dest ≡ none
unfolding fill_zero
fill_zero_overrun zero dest h = elim h [ ]
fill_zero_overrun (suc num) [] h = refl
fill_zero_overrun (suc num) (d ∷ ds) h = rw (fill_zero_overrun num ds (omega arith))

-- Where the source has at most `num` bytes and the destination has room for `num`, `strncpy` writes
-- the source and pads it with NULs to `num` bytes, and nothing behind them.
pub strncpy-fits :
    (dest src : List ℕ) (num : ℕ)
    → IsCString src
    → length src ≤ num
    → num ≤ length dest
    → strncpy dest src num ≡ some (src ++ (replicate (num - length src) 0 ++ drop num dest))
unfolding strncpy
strncpy-fits dest [] num h p q =
    rw (fill_zero-fits num dest q) (ap (λ k. some (replicate k 0 ++ drop num dest)) (omega arith))
strncpy-fits dest (c ∷ cs) zero h p q = absurd (omega arith)
strncpy-fits [] (c ∷ cs) (suc num) h p q = absurd (omega arith)
strncpy-fits (d ∷ ds) (c ∷ cs) (suc num) h p q = ground (arith, strncpy-fits ds cs num h.1)

-- A source with more than `num` bytes makes `strncpy` write `num` of them and then 2 ^ 32 - 1 NULs:
-- in any smaller destination it runs over the end.
pub strncpy_overrun :
    (dest src : List ℕ) (num : ℕ)
    → IsCString src
    → num < length src
    → length dest < uint_max
    → strncpy dest src num ≡ none
unfolding strncpy
strncpy_overrun dest [] num h p q = absurd (omega arith)
strncpy_overrun dest (c ∷ cs) zero h p q = ground (arith, fill_zero_overrun uint_max dest q)
strncpy_overrun [] (c ∷ cs) (suc num) h p q = refl
strncpy_overrun (d ∷ ds) (c ∷ cs) (suc num) h p q = ground (arith, strncpy_overrun ds cs num h.1)
