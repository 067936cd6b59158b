-- ===== src/Paths.antt =====
-- src/fs/namei.c: the comparison of path components.
pub mod Match
pub mod Walk
pub mod Balance
pub mod Top
pub mod Dirs
mod Tests
use nupkux.Base.{
  ℕ, zero, suc, ◌+◌, ◌-◌, ◌%◌, ◌^◌, ◌==◌, if◌then◌else◌, List, [], ◌∷◌, Bool, true, false, not,
  ◌&&◌, ◌||◌,
}

-- `is_end_chr`, with the code of '/'
abbrev pub is_end_chr : ℕ → Bool
is_end_chr chr = chr == 0 || chr == 47

-- `is_end_chr(*s)`
abbrev pub at_end : List ℕ → Bool
at_end [] = true
at_end (c ∷ s) = is_end_chr c

-- `is_end_chr(*s1) != is_end_chr(*s2)` gives 0.
abbrev pub same_end : Bool → Bool → Bool
same_end true b = b
same_end false b = not b

-- `namei_match` of two strings
unfoldable pub namei_match : List ℕ → List ℕ → Bool
namei_match [] s2 = same_end true (at_end s2)
namei_match (c1 ∷ s1) [] = same_end (is_end_chr c1) true
namei_match (c1 ∷ s1) (c2 ∷ s2) =
    let rest = namei_match s1 s2 in
    if is_end_chr c1 || is_end_chr c2
    then same_end (is_end_chr c1) (is_end_chr c2)
    else if c1 == c2
    then rest
    else false

-- The tests of `namei_nmatch` behind its loop.
abbrev pub nmatch_end : Bool → Bool → ℕ → Bool
nmatch_end end1 end2 s2len = if end1 && s2len == 0 then true else same_end end1 end2

-- `namei_nmatch` of a string and the memory at `s2`; `s2len--` in the loop's test takes 0 to 2^32 - 1.
unfoldable pub namei_nmatch : List ℕ → List ℕ → ℕ → Bool
namei_nmatch [] s2 s2len = nmatch_end true (at_end s2) s2len
namei_nmatch (c1 ∷ s1) [] s2len = nmatch_end (is_end_chr c1) true s2len
namei_nmatch (c1 ∷ s1) (c2 ∷ s2) s2len =
    let rest = namei_nmatch s1 s2 (s2len - 1) in
    if is_end_chr c1 || is_end_chr c2
    then nmatch_end (is_end_chr c1) (is_end_chr c2) s2len
    else if s2len == 0
    then nmatch_end (is_end_chr c1) (is_end_chr c2) (2 ^ 32 - 1)
    else if c1 == c2
    then rest
    else false
