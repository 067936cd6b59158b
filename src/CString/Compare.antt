-- ===== src/CString/Compare.antt =====
-- `strcmp` and `strncmp` of src/lib/string.c against the order of the strings' bytes.
use nupkux.Base.{
  ℕ, zero, suc, ◌<◌, ◌≡◌, ◌≢◌, refl, ◌⊎◌, inl, inr, List, [], ◌∷◌, ◌++◌, length, take, true, false,
  some, ℤ, pos, negsuc, arith,
}
use nupkux.CString.{IsCString, char_lt, compare_end, strcmp_loop, strcmp, strncmp_loop, strncmp}

-- Lexicographic order on signed bytes; at its end a string reads as NUL.
abbrev pub Before : List ℕ → List ℕ → Type 0
Before [] [] = ⊥
Before [] (b ∷ t) = char_lt 0 b ≡ true
Before (a ∷ s) [] = char_lt a 0 ≡ true
Before (a ∷ s) (b ∷ t) = (char_lt a b ≡ true) ⊎ ((a ≡ b) × Before s t)

-- What a result of `strcmp` says of the two strings.
abbrev pub Says : ℤ → List ℕ → List ℕ → Type 0
Says r s t = ((r ≡ pos 0) × (s ≡ t)) ⊎ ((r ≡ negsuc 0) × Before s t) ⊎ ((r ≡ pos 1) × Before t s)

char_lt-total : (a b : ℕ) → a < 256 → b < 256 → a ≢ b → char_lt a b ≡ false → char_lt b a ≡ true
char_lt-total a b p q ne h = ground arith

compare_end-Says :
    (a b : ℕ)
    → a < 256
    → b < 256
    → a ≢ b
    → ((compare_end a b ≡ negsuc 0) × (char_lt a b ≡ true))
      ⊎ ((compare_end a b ≡ pos 1) × (char_lt b a ≡ true))
unfolding compare_end
compare_end-Says a b p q ne = ground (arith, char_lt-total a b p q ne)

strcmp_loop-Says : (s t : List ℕ) → IsCString s → IsCString t → Says (strcmp_loop s t) s t
unfolding strcmp_loop
strcmp_loop-Says [] [] hs ht = inl (refl, refl)
strcmp_loop-Says [] (b ∷ t) hs ht = inr (compare_end-Says 0 b (omega arith) ht.0.1 (omega arith))
strcmp_loop-Says (a ∷ s) [] hs ht = inr (compare_end-Says a 0 hs.0.1 (omega arith) (omega arith))
strcmp_loop-Says (a ∷ s) (b ∷ t) hs ht =
    ground (arith, char_lt-total a b hs.0.1 ht.0.1, strcmp_loop-Says s t hs.1 ht.1)

-- `strcmp` on two strings returns 0 exactly if they are equal, -1 if the first stands before the
-- second in the order of signed bytes, and 1 if it stands behind.
pub strcmp_decides :
    (s t : List ℕ) → IsCString s → IsCString t → Says (strcmp (some s) (some t)) s t
unfolding strcmp
strcmp_decides s t hs ht = strcmp_loop-Says s t hs ht

strncmp_loop-take :
    (s t : List ℕ) (n : ℕ)
    → IsCString s
    → IsCString t
    → strncmp_loop s t n ≡ pos 0
    → take n s ≡ take n t
unfolding strncmp_loop
strncmp_loop-take [] [] n hs ht h = refl
strncmp_loop-take [] (b ∷ t) zero hs ht h = refl
strncmp_loop-take [] (b ∷ t) (suc n) hs ht h = ground (arith, compare_end-Says 0 b)
strncmp_loop-take (a ∷ s) [] zero hs ht h = refl
strncmp_loop-take (a ∷ s) [] (suc n) hs ht h = ground (arith, compare_end-Says a 0)
strncmp_loop-take (a ∷ s) (b ∷ t) zero hs ht h = refl
strncmp_loop-take (a ∷ s) (b ∷ t) (suc n) hs ht h =
    ground (arith, char_lt-total a b hs.0.1 ht.0.1, strncmp_loop-take s t n hs.1 ht.1)

-- A result 0 of `strncmp` on two strings means that their first `n` bytes are equal.
pub strncmp_sound :
    (s t : List ℕ) (n : ℕ)
    → IsCString s
    → IsCString t
    → strncmp (some s) (some t) n ≡ pos 0
    → take n s ≡ take n t
unfolding strncmp
strncmp_sound s t n hs ht h = strncmp_loop-take s t n hs ht h

strncmp_loop_overrun :
    (u s t : List ℕ) (a b : ℕ)
    → IsCString u
    → 0 < a
    → 0 < b
    → a < 256
    → b < 256
    → a ≢ b
    → strncmp_loop (u ++ a ∷ s) (u ++ b ∷ t) (length u) ≢ pos 0
unfolding strncmp_loop
strncmp_loop_overrun [] s t a b hu ha hb ka kb ne = ground (arith, compare_end-Says a b ka kb ne)
strncmp_loop_overrun (c ∷ u) s t a b hu ha hb ka kb ne =
    ground (arith, strncmp_loop_overrun u s t a b hu.1 ha hb ka kb ne)

-- Where two strings agree in their first `n` bytes and differ in the next one, a byte that is in
-- both no NUL, `strncmp` up to `n` bytes reports a difference: it compares one byte too many.
pub strncmp_overrun :
    (u s t : List ℕ) (a b : ℕ)
    → IsCString u
    → 0 < a
    → 0 < b
    → a < 256
    → b < 256
    → a ≢ b
    → strncmp (some (u ++ a ∷ s)) (some (u ++ b ∷ t)) (length u) ≢ pos 0
unfolding strncmp
strncmp_overrun u s t a b hu ha hb ka kb ne = strncmp_loop_overrun u s t a b hu ha hb ka kb ne
