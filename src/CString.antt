-- ===== src/CString.antt =====
-- src/lib/string.c. A `const char *` is the list of the bytes from the pointer on, up to the
-- terminating NUL, which stands at the end of the list; `none` is the null pointer.
pub mod Compare
pub mod Copy
pub mod Tokens
mod Tests
use nupkux.Base.{
  ℕ, zero, suc, ◌+◌, ◌-◌, ◌%◌, ◌^◌, ◌<◌, ltb, ◌==◌, get_or, take, drop, if◌then◌else◌, List, [],
  ◌∷◌, ◌++◌, length, All, Bool, true, false, not, ◌&&◌, ◌||◌, Option, none, some, ℤ, pos, negsuc,
  behind, replicate,
}

-- Bytes that are no NUL: what stands in front of the terminator.
abbrev pub IsCString : List ℕ → Type 0
IsCString = All (λ c. (0 < c) × (c < 256))

-- `*str`: at the end of the list stands the NUL.
abbrev pub deref : List ℕ → ℕ
deref [] = 0
deref (c ∷ cs) = c

-- `<` on `char`, which is signed on the i386.
abbrev pub char_lt : ℕ → ℕ → Bool
char_lt a b = ltb ((a + 128) % 256) ((b + 128) % 256)

-- the comparison after the loops of `strcmp` and `strncmp`
unfoldable pub compare_end : ℕ → ℕ → ℤ
compare_end a b = if a == b then pos 0 else if char_lt a b then negsuc 0 else pos 1

unfoldable pub strcmp_loop : List ℕ → List ℕ → ℤ
unfolding compare_end
strcmp_loop [] t = compare_end 0 (deref t)
strcmp_loop (a ∷ s) [] = compare_end a 0
strcmp_loop (a ∷ s) (b ∷ t) =
    let rest = strcmp_loop s t in
    if a == 0 || b == 0
    then compare_end a b
    else if char_lt a b
    then negsuc 0
    else if char_lt b a
    then pos 1
    else rest

unfoldable pub strcmp : Option (List ℕ) → Option (List ℕ) → ℤ
unfolding strcmp_loop
strcmp none t = pos 0
strcmp (some s) none = pos 0
strcmp (some s) (some t) = strcmp_loop s t

-- the value of `n` after `n--` at 0
abbrev pub uint_max : ℕ
uint_max = 2 ^ 32 - 1

-- `if (n && *s1 != *s2)` after the loop of `strncmp`
unfoldable pub strncmp_end : ℕ → ℕ → ℕ → ℤ
unfolding compare_end
strncmp_end zero a b = pos 0
strncmp_end (suc n) a b = compare_end a b

-- `n--` is evaluated last in the loop's test, and leaves `uint_max` where it fails.
unfoldable pub strncmp_loop : List ℕ → List ℕ → ℕ → ℤ
unfolding strncmp_end
strncmp_loop [] t n = strncmp_end n 0 (deref t)
strncmp_loop (a ∷ s) [] n = strncmp_end n a 0
strncmp_loop (a ∷ s) (b ∷ t) zero = if a == 0 || b == 0 then pos 0 else strncmp_end uint_max a b
strncmp_loop (a ∷ s) (b ∷ t) (suc n) =
    let rest = strncmp_loop s t n in
    if a == 0 || b == 0
    then strncmp_end (suc n) a b
    else if char_lt a b
    then negsuc 0
    else if char_lt b a
    then pos 1
    else rest

unfoldable pub strncmp : Option (List ℕ) → Option (List ℕ) → ℕ → ℤ
unfolding strncmp_loop
strncmp none t n = pos 0
strncmp (some s) none n = pos 0
strncmp (some s) (some t) n = strncmp_loop s t n

unfoldable pub strlen_loop : List ℕ → ℕ → ℕ
strlen_loop [] res = res
strlen_loop (c ∷ cs) res = if c == 0 then res else strlen_loop cs (res + 1)

unfoldable pub strlen : List ℕ → ℕ
unfolding strlen_loop
strlen str = strlen_loop str 0

-- The pointer that is returned is the list from it on.
unfoldable pub strchr : List ℕ → ℕ → Option (List ℕ)
strchr [] chr = none
strchr (c ∷ cs) chr = if c == 0 then none else if c == chr then some (c ∷ cs) else strchr cs chr

-- The destination is the list of the bytes that may be written.
unfoldable pub strcpy : List ℕ → List ℕ → Option (List ℕ)
strcpy [] src = none
strcpy (d ∷ ds) [] = some (0 ∷ ds)
strcpy (d ∷ ds) (c ∷ cs) =
    let rest = behind c (strcpy ds cs) in if c == 0 then some (0 ∷ ds) else rest

-- `while (num--) *(tmp++) = 0;`
unfoldable pub fill_zero : ℕ → List ℕ → Option (List ℕ)
fill_zero zero dest = some dest
fill_zero (suc num) [] = none
fill_zero (suc num) (d ∷ ds) = behind 0 (fill_zero num ds)

-- `while (*src && num--)`: where `num` is 0 the test leaves `uint_max` behind.
unfoldable pub strncpy : List ℕ → List ℕ → ℕ → Option (List ℕ)
strncpy dest [] num = fill_zero num dest
strncpy dest (c ∷ cs) zero = if c == 0 then some dest else fill_zero uint_max dest
strncpy [] (c ∷ cs) (suc num) = none
strncpy (d ∷ ds) (c ∷ cs) (suc num) =
    let rest = behind c (strncpy ds cs num) in if c == 0 then fill_zero (suc num) (d ∷ ds) else rest

-- One turn of the loop that skips the leading delimiters: the inner loop walks over the delimiters
-- and steps over a byte that equals the current one. The Boolean is `skip`.
unfoldable pub skip_pass : List ℕ → List ℕ → Bool → List ℕ × Bool
skip_pass [] s skip = (s, skip)
skip_pass (d ∷ del) [] skip = ([], skip)
skip_pass (d ∷ del) (c ∷ cs) skip =
    let rest = skip_pass del (if c == d then cs else c ∷ cs) (not (c == d) && skip) in
    if d == 0 || c == 0 then (c ∷ cs, skip) else rest

-- `while (!skip)`: every turn but the last steps over a byte, so `suc (length s)` turns are enough.
unfoldable pub skip_loop : ℕ → List ℕ → List ℕ → List ℕ
unfolding skip_pass
skip_loop zero delim s = s
skip_loop (suc fuel) delim s =
    let (s', skip) = skip_pass delim s true in
    elim skip [ true ↦ s' | false ↦ skip_loop fuel delim s' ]

-- `if (occ && occ < tmp) tmp = occ;`, with `tmp` an index into `s`
unfoldable pub nearer : List ℕ → Option (List ℕ) → ℕ → ℕ
nearer s none tmp = tmp
nearer s (some occ) tmp = if ltb (length s - length occ) tmp then length s - length occ else tmp

-- The loop that moves `tmp` to the first delimiter.
unfoldable pub token_end : List ℕ → List ℕ → ℕ → ℕ
token_end s [] tmp = tmp
token_end s (d ∷ del) tmp = if d == 0 then tmp else token_end s del (nearer s (strchr s d) tmp)

-- What `strtok_save` returns, and what it leaves in `*ptr`.
pub record Token : Type 0 where
  pub result : Option (List ℕ)
  pub saved : Option (List ℕ)

-- From `tmp = s + strlen(s)` on. The NUL written at `tmp` ends the token there.
unfoldable pub cut_token : List ℕ → List ℕ → Token
cut_token s delim =
    let tmp = token_end s delim (strlen s) in
    if get_or s tmp 0 == 0
    then record { result = some (take tmp s); saved = none }
    else record { result = some (take tmp s); saved = some (drop (suc tmp) s) }

unfoldable pub tokenise : List ℕ → List ℕ → Option (List ℕ) → Token
tokenise delim s saved =
    let s' = skip_loop (suc (length s)) delim s in
    if deref s' == 0 then record { result = none; saved = saved } else cut_token s' delim

-- `if (!s) s = *ptr; if (!s) return 0;`
unfoldable pub strtok_from : List ℕ → Option (List ℕ) → Option (List ℕ) → Token
strtok_from delim (some s) saved = tokenise delim s saved
strtok_from delim none none = record { result = none; saved = none }
strtok_from delim none (some s) = tokenise delim s (some s)

unfoldable pub strtok_save : Option (List ℕ) → Option (List ℕ) → Option (List ℕ) → Token
unfolding strtok_from
strtok_save s none saved = record { result = s; saved = saved }
strtok_save s (some delim) saved =
    if deref delim == 0 then record { result = s; saved = saved } else strtok_from delim s saved

-- The state of `strtok` is `strtok_save_ptr`.
unfoldable pub strtok : Option (List ℕ) → Option (List ℕ) → Option (List ℕ) → Token
strtok s delim strtok_save_ptr = strtok_save s delim strtok_save_ptr
