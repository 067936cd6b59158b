-- ===== src/Devfs/Handles.antt =====
-- The cache of handles as a table: what `find` and `update` do to each other, and the entries that a
-- directory gets.
use nupkux.Base.{
  ℕ, zero, suc, ◌-◌, ◌≤◌, ◌==◌, ◌≡◌, ◌≢◌, refl, sym, ◌∙◌, ap, inl, inr, List, [], ◌∷◌, ◌++◌, get_or,
  get_elem?, set, length, All, replicate, take, modify, store, true, false, Bool-cases, Option,
  none, some, not_some, arith, ==_refl,
}
use nupkux.CString.{strncpy, IsCString}
use nupkux.CString.Copy.{strncpy-fits}
use nupkux.Paths.{at_end, namei_match}
use nupkux.Paths.Match.{IsName}
use nupkux.Devfs.{
  Entry, Handle, find, update, filename_of, filename_len, append_entry, blank_entry, remove_entry,
}

the_handle : {A : Type 0} {a b : A} → ◌≡◌ {A = Option A} (some a) (some b) → a ≡ b
the_handle {A = A} {a = a} h = ap (λ o. elim o as (λ q. A) [ none ↦ a | some x ↦ x ]) h

pub find-id : (id : ℕ) (cs : List Handle) (h : Handle) → find id cs ≡ some h → h.id ≡ id
unfolding find
find-id id [] h e = absurd (not_some e)
find-id id (c ∷ cs) h e = elim (Bool-cases (c.id == id)) [
  | inl t ↦ let e' = rw t at e in ap (λ x. x.id) (sym (the_handle e')) ∙ ground (arith, t)
  | inr t ↦ find-id id cs h (rw t at e)
]

pub find-update :
    (id : ℕ) (cs : List Handle) (h h' : Handle)
    → find id cs ≡ some h
    → h'.id ≡ id
    → find id (update id h' cs) ≡ some h'
unfolding find update
find-update id [] h h' e e' = absurd (not_some e)
find-update id (c ∷ cs) h h' e e' = elim (Bool-cases (c.id == id)) [
  | inl t ↦ let t' : (h'.id == id) ≡ true = ground (arith, e') in rw (t, t') refl
  | inr t ↦ rw (t, t) (find-update id cs h h' (rw t at e) e')
]

pub update-update :
    (id : ℕ) (cs : List Handle) (a b : Handle)
    → a.id ≡ id
    → update id b (update id a cs) ≡ update id b cs
unfolding update
update-update id [] a b e = refl
update-update id (c ∷ cs) a b e = elim (Bool-cases (c.id == id)) [
  | inl t ↦ let t' : (a.id == id) ≡ true = ground (arith, e) in rw (t, t') refl
  | inr t ↦ rw (t, t) (ap (λ l. c ∷ l) (update-update id cs a b e))
]

pub update-found :
    (id : ℕ) (cs : List Handle) (h : Handle) → find id cs ≡ some h → update id h cs ≡ cs
unfolding find update
update-found id [] h e = absurd (not_some e)
update-found id (c ∷ cs) h e = elim (Bool-cases (c.id == id)) [
  | inl t ↦ let e' = rw t at e in rw t (ap (λ x. x ∷ cs) (sym (the_handle e')))
  | inr t ↦ rw t (ap (λ l. c ∷ l) (update-found id cs h (rw t at e)))
]

module _ {ℓ} {A : Type ℓ} where
  pub get_elem?-modify :
      (f : A → A) (xs : List A) (i : ℕ) (x : A)
      → get_elem? xs i ≡ some x
      → get_elem? (modify f xs i) i ≡ some (f x)
  get_elem?-modify f [] i x e = absurd (not_some e)
  get_elem?-modify f (y ∷ xs) zero x e =
      ap (λ o. elim o as (λ q. Option A) [ none ↦ none | some z ↦ some (f z) ]) e
  get_elem?-modify f (y ∷ xs) (suc i) x e = get_elem?-modify f xs i x e

  pub store-last :
      (xs : List A) (a b : A) → store (xs ++ (a ∷ [])) (length xs) b ≡ some (xs ++ (b ∷ []))
  store-last [] a b = refl
  store-last (x ∷ xs) a b = rw (store-last xs a b) refl

  pub get_or-last : (xs : List A) (a d : A) → get_or (xs ++ (a ∷ [])) (length xs) d ≡ a
  get_or-last [] a d = refl
  get_or-last (x ∷ xs) a d = get_or-last xs a d

  pub take_all : (xs : List A) → take (length xs) xs ≡ xs
  take_all [] = refl
  take_all (x ∷ xs) = ap (λ l. x ∷ l) (take_all xs)

-- A name matches the array that it was copied to.
match_end : (z : List ℕ) (i : ℕ) → at_end z ≡ true → at_end (set z i 0) ≡ true
match_end [] i h = refl
match_end (c ∷ z) zero h = refl
match_end (c ∷ z) (suc i) h = h

match_copy :
    (name z : List ℕ) (i : ℕ)
    → IsName name
    → at_end z ≡ true
    → length name ≤ i
    → namei_match name (set (name ++ z) i 0) ≡ true
unfolding namei_match
match_copy [] z i h e l = match_end z i e
match_copy (c ∷ name) z zero h e l = absurd (omega (arith, l))
match_copy (c ∷ name) z (suc i) (no_end, h) e l =
    let same : (c == c) ≡ true = ==_refl c in
    rw (no_end, same) (match_copy name z i h e (omega arith))

starts : (n : ℕ) → at_end (replicate n 0 ++ (0 ∷ [])) ≡ true
starts zero = refl
starts (suc n) = refl

pub filename_of-match :
    (name : List ℕ)
    → IsCString name
    → IsName name
    → length name ≤ filename_len
    → (buf : List ℕ) × (filename_of name ≡ some buf) × (namei_match name buf ≡ true)
filename_of-match name c n l =
    let zeros : List ℕ = replicate (16 - length name) 0 ++ (0 ∷ []) in
    let copied : strncpy (replicate 17 0) name 16 ≡ some (name ++ zeros) =
      strncpy-fits (replicate 17 0) name 16 c l (omega arith) in
    (
      set (name ++ zeros) 16 0,
      rw copied refl,
      match_copy name zeros 16 n (starts (16 - length name)) l,
    )

pub append_entry-last :
    (es : List Entry) (n : ℕ) (e : Entry)
    → n ≡ length es
    → append_entry es n e ≡ some (es ++ (e ∷ []))
append_entry-last es n e h = rw h (store-last es blank_entry e)

-- The last entry is the only one with a new number.
pub remove_entry-last :
    (es : List Entry) (e : Entry)
    → All (λ x. x.inode ≢ e.inode) es
    → remove_entry e.inode (es ++ (e ∷ [])) ≡ some es
remove_entry-last [] e h = rw (==_refl e.inode) refl
remove_entry-last (x ∷ es) e (ne, h) =
    let test : (x.inode == e.inode) ≡ false = ground (arith, ne) in
    rw (test, remove_entry-last es e h) refl
