-- ===== src/CString/Tokens.antt =====
-- `strtok_save` of src/lib/string.c against a split of the string at the bytes of a set.
use nupkux.Base.{
  ℕ, zero, suc, ◌+◌, ◌<◌, ◌≤◌, min, ◌≡◌, ◌≢◌, refl, ◌⊎◌, inl, inr, ◌==◌, if◌then◌else◌, List, [],
  ◌∷◌, length, take, drop, get_or, Bool, true, false, ◌||◌, Option, none, some, arith, Bool-cases,
}
use nupkux.CString.{
  IsCString, deref, strchr, strlen, skip_pass, skip_loop, nearer, token_end, Token, cut_token,
  tokenise, strtok_save,
}
use nupkux.CString.Copy.{strlen-length}

-- Is the byte in the set?
abbrev pub among : ℕ → List ℕ → Bool
among c [] = false
among c (d ∷ del) = (c == d) || among c del

-- The string without the bytes of the set at its start.
abbrev pub skip_set : List ℕ → List ℕ → List ℕ
skip_set del [] = []
skip_set del (c ∷ cs) = let rest = skip_set del cs in if among c del then rest else c ∷ cs

-- The string up to the first byte of the set.
abbrev pub word : List ℕ → List ℕ → List ℕ
word del [] = []
word del (c ∷ cs) = let rest = word del cs in if among c del then [] else c ∷ rest

-- What stands behind the first byte of the set, if there is one.
abbrev pub after_word : List ℕ → List ℕ → Option (List ℕ)
after_word del [] = none
after_word del (c ∷ cs) = let rest = after_word del cs in if among c del then some cs else rest

-- The first token and what is left: of a string with no token nothing is taken.
abbrev pub split_at : List ℕ → List ℕ → Option (List ℕ) → Token
split_at del [] saved = record { result = none; saved = saved }
split_at del (c ∷ cs) saved = record {
  result = some (word del (c ∷ cs));
  saved = after_word del (c ∷ cs);
}

first : List ℕ → List ℕ → ℕ
first del s = length (word del s)

-- A pass over the delimiters never goes past the leading delimiters.
record Pass (del all s : List ℕ) (skip : Bool) (out : List ℕ × Bool) : Type 0 where
  same : skip_set all out.0 ≡ skip_set all s
  valid : IsCString out.0
  moved : ((out.1 ≡ skip) × (out.0 ≡ s)) ⊎ ((out.1 ≡ false) × (length out.0 < length s))
  done : out.1 ≡ true → among (deref s) del ≡ false

-- (`all` is the whole set, of which `del` is the part still to be walked over.)
abbrev Within : List ℕ → List ℕ → Type 0
Within del all = (c : ℕ) → among c del ≡ true → among c all ≡ true

among-zero : (del : List ℕ) → IsCString del → among 0 del ≡ false
among-zero [] h = refl
among-zero (d ∷ del) h = ground (arith, among-zero del h.1)

skip_pass-Pass :
    (del all s : List ℕ) (skip : Bool)
    → IsCString del
    → IsCString s
    → Within del all
    → Pass del all s skip (skip_pass del s skip)
unfolding skip_pass
skip_pass-Pass [] all s skip hd hs w = record {
  same = refl;
  valid = hs;
  moved = inl (refl, refl);
  done = λ _. refl;
}
skip_pass-Pass (d ∷ del) all [] skip hd hs w = record {
  same = refl;
  valid = tt;
  moved = inl (refl, refl);
  done = λ _. among-zero (d ∷ del) hd;
}
skip_pass-Pass (d ∷ del) all (c ∷ cs) skip hd hs w = elim (Bool-cases (c == d)) [
  | inl e ↦
      ground (arith, e, w c, skip_pass-Pass del all cs false hd.1 hs.1 (λ b hb. w b (ground arith)))
  | inr e ↦
      ground (arith, e, skip_pass-Pass del all (c ∷ cs) skip hd.1 hs (λ b hb. w b (ground arith)))
]

skip_set_self : (del s : List ℕ) → among (deref s) del ≡ false → skip_set del s ≡ s
skip_set_self del [] h = refl
skip_set_self del (c ∷ cs) h = ground arith

-- The loop ends within its fuel, behind the leading delimiters.
skip_loop-skip_set :
    (fuel : ℕ) (del s : List ℕ)
    → IsCString del
    → IsCString s
    → length s < fuel
    → (skip_loop fuel del s ≡ skip_set del s) × IsCString (skip_loop fuel del s)
unfolding skip_loop
skip_loop-skip_set zero del s hd hs h = absurd (omega arith)
skip_loop-skip_set (suc fuel) del s hd hs h = ground (
  arith,
  skip_pass-Pass del del s true hd hs (λ c e. e),
  skip_set_self del s,
  skip_loop-skip_set fuel del (skip_pass del s true).0 hd,
)

strchr-offset :
    (s : List ℕ) (d : ℕ)
    → IsCString s
    → ((strchr s d ≡ none) × (first (d ∷ []) s ≡ length s))
      ⊎ ((occ : List ℕ) × (strchr s d ≡ some occ) × (length occ + first (d ∷ []) s ≡ length s))
unfolding strchr first
strchr-offset [] d hs = inl (refl, refl)
strchr-offset (c ∷ cs) d hs = ground (arith, strchr-offset cs d hs.1)

strchr-first :
    (s : List ℕ) (d tmp : ℕ)
    → IsCString s
    → tmp ≤ length s
    → nearer s (strchr s d) tmp ≡ min tmp (first (d ∷ []) s)
unfolding nearer
strchr-first s d tmp hs h = ground (arith, strchr-offset s d hs)

first-cons : (d : ℕ) (del s : List ℕ) → first (d ∷ del) s ≡ min (first (d ∷ []) s) (first del s)
unfolding first
first-cons d del [] = refl
first-cons d del (c ∷ cs) = ground (arith, first-cons d del cs)

cut_at_first :
    (del s : List ℕ)
    → IsCString s
    → (take (first del s) s ≡ word del s)
      × (((get_or s (first del s) 0 ≡ 0) × (after_word del s ≡ none))
          ⊎ ((get_or s (first del s) 0 ≢ 0)
              × (after_word del s ≡ some (drop (suc (first del s)) s))))
unfolding first
cut_at_first del [] hs = (refl, inl (refl, refl))
cut_at_first del (c ∷ cs) hs = ground (arith, cut_at_first del cs hs.1)

first-le : (del s : List ℕ) → first del s ≤ length s
unfolding first
first-le del [] = omega arith
first-le del (c ∷ cs) = ground (arith, first-le del cs)

first-nil : (s : List ℕ) → first [] s ≡ length s
unfolding first
first-nil [] = refl
first-nil (c ∷ cs) = omega (arith, first-nil cs)

token_end-first :
    (s del : List ℕ) (tmp : ℕ)
    → IsCString s
    → IsCString del
    → tmp ≤ length s
    → token_end s del tmp ≡ min tmp (first del s)
unfolding token_end
token_end-first s [] tmp hs hd h = omega (arith, first-nil s)
token_end-first s (d ∷ del) tmp hs hd h = ground (
  arith,
  strchr-first s d tmp hs h,
  first-cons d del s,
  token_end-first s del (nearer s (strchr s d) tmp) hs hd.1,
)

cut_token-split :
    (del s : List ℕ)
    → IsCString s
    → IsCString del
    → cut_token s del ≡ record { result = some (word del s); saved = after_word del s }
unfolding cut_token
cut_token-split del s hs hd = rw (tmp_first) (ground (arith, cut_at_first del s hs))
  where
    tmp_first : token_end s del (strlen s) ≡ first del s
    tmp_first =
        rw (strlen-length s hs)
          (omega (arith, token_end-first s del (length s) hs hd (omega arith), first-le del s))

tokenise-split :
    (del s : List ℕ) (saved : Option (List ℕ))
    → IsCString s
    → IsCString del
    → tokenise del s saved ≡ split_at del (skip_set del s) saved
unfolding tokenise
tokenise-split del s saved hs hd =
    let (e, v) = skip_loop-skip_set (suc (length s)) del s hd hs (omega arith) in
    rw e (rest (skip_set del s) (rw e at v))
  where
    rest :
        (t : List ℕ)
        → IsCString t
        → (if deref t == 0 then record { result = none; saved = saved } else cut_token t del)
          ≡ split_at del t saved
    rest [] h = refl
    rest (c ∷ cs) h = ground (arith, cut_token-split del (c ∷ cs) h hd)

-- With at least one delimiter, `strtok_save` on a string, or on the one that is saved, returns the
-- first maximal run of other bytes and saves what stands behind the delimiter that ends it. Where
-- the string has no other byte it returns null and leaves the saved string.
pub strtok_save_lem :
    (s : List ℕ) (d : ℕ) (del : List ℕ) (saved : Option (List ℕ))
    → IsCString s
    → IsCString (d ∷ del)
    → (strtok_save (some s) (some (d ∷ del)) saved
        ≡ split_at (d ∷ del) (skip_set (d ∷ del) s) saved)
      × (strtok_save none (some (d ∷ del)) (some s)
          ≡ split_at (d ∷ del) (skip_set (d ∷ del) s) (some s))
unfolding strtok_save
strtok_save_lem s d del saved hs hd =
    ground
      (arith, tokenise-split (d ∷ del) s saved hs hd, tokenise-split (d ∷ del) s (some s) hs hd)
