-- ===== src/Vfs/Registry.antt =====
-- The registered file systems have different names, and what is registered is found.
use nupkux.Base.{
  ℕ, ◌≡◌, ◌⊎◌, refl, sym, ◌∙◌, ap, inl, inr, List, [], ◌∷◌, All, true, false, Bool-cases, Option,
  none, some, Option-cases, not_both, ℤ, pos, arith, subst,
}
use nupkux.CString.{IsCString, strcmp}
use nupkux.CString.Compare.{Before, Says, strcmp_decides}
use nupkux.Vfs.{
  FsType, is_zero, same_name, vfs_get_fs, ebusy, register_filesystem, unregister_filesystem,
  without_fs, or_einval,
}

Says-is_zero : (r : ℤ) (s t : List ℕ) → Says r s t → is_zero r ≡ true → s ≡ t
Says-is_zero r s t (inl (e, same)) h = same
Says-is_zero r s t (inr (inl (e, before))) h = absurd (not_both (is_zero r) h (ap is_zero e))
Says-is_zero r s t (inr (inr (e, before))) h = absurd (not_both (is_zero r) h (ap is_zero e))

same_name_eq : (s t : List ℕ) → IsCString s → IsCString t → same_name s t ≡ true → s ≡ t
same_name_eq s t hs ht h = Says-is_zero (strcmp (some s) (some t)) s t (strcmp_decides s t hs ht) h

-- Every type has another name than those behind it.
abbrev pub AllDistinct : List FsType → Type 0
AllDistinct [] = Unit
AllDistinct (fs ∷ l) = IsCString fs.name × (vfs_get_fs fs.name l ≡ none) × AllDistinct l

-- What calls of `register_filesystem` and `unregister_filesystem` lead to.
pub data Registered : List FsType → Type 0 where
  nothing : Registered []
  registers :
      {l : List FsType} (fs : FsType)
      → IsCString fs.name
      → Registered l
      → Registered (register_filesystem (some fs) l).1
  unregisters :
      {l : List FsType} (fs : FsType)
      → Registered l
      → Registered (unregister_filesystem (some fs) l).1

-- Registering either fails and changes nothing, or the name was free.
pub register_filesystem-Decides :
    (fs : FsType) (l : List FsType)
    → (register_filesystem (some fs) l ≡ (ebusy, l))
      ⊎ ((vfs_get_fs fs.name l ≡ none) × (register_filesystem (some fs) l ≡ (pos 0, fs ∷ l)))
unfolding register_filesystem
register_filesystem-Decides fs l = ground arith

register_filesystem-AllDistinct :
    (fs : FsType) (l : List FsType)
    → IsCString fs.name
    → AllDistinct l
    → AllDistinct (register_filesystem (some fs) l).1
register_filesystem-AllDistinct fs l h d =
    elim (register_filesystem-Decides fs l)
      as (λ _. AllDistinct (register_filesystem (some fs) l).1) [
        | inl e ↦ subst (λ r. AllDistinct r.1) (sym e) d
        | inr (free, e) ↦ subst (λ r. AllDistinct r.1) (sym e) (h, free, d)
      ]

without_fs-none :
    (n name : List ℕ) (l rest : List FsType)
    → vfs_get_fs n l ≡ none
    → without_fs name l ≡ some rest
    → vfs_get_fs n rest ≡ none
unfolding vfs_get_fs without_fs
without_fs-none n name [] rest h e = ground arith
without_fs-none n name (fs ∷ l) rest h e =
    let free : vfs_get_fs n l ≡ none = ground arith in
    elim (Option-cases (without_fs name l)) [
      | inl none_left ↦ ground arith
      | inr (r, found) ↦ let free' = without_fs-none n name l r free found in ground arith
    ]

without_fs-AllDistinct :
    (name : List ℕ) (l rest : List FsType)
    → AllDistinct l
    → without_fs name l ≡ some rest
    → AllDistinct rest
unfolding without_fs
without_fs-AllDistinct name [] rest d e = ground arith
without_fs-AllDistinct name (fs ∷ l) rest d e = elim (Option-cases (without_fs name l)) [
  | inl none_left ↦ ground arith
  | inr (r, found) ↦
      let free = without_fs-none fs.name name l r d.1 found in
      let distinct = without_fs-AllDistinct name l r d.2 found in ground arith
]

unregister_filesystem-AllDistinct :
    (fs : FsType) (l : List FsType)
    → AllDistinct l
    → AllDistinct (unregister_filesystem (some fs) l).1
unfolding unregister_filesystem
unregister_filesystem-AllDistinct fs l d = go (without_fs fs.name l) refl
  where
    go : (o : Option (List FsType)) → without_fs fs.name l ≡ o → AllDistinct (or_einval l o).1
    go none e = d
    go (some rest) e = without_fs-AllDistinct fs.name l rest d e

Registered-AllDistinct : (l : List FsType) → Registered l → AllDistinct l
Registered-AllDistinct l nothing = tt
Registered-AllDistinct l (registers {l = l'} fs h r) =
    register_filesystem-AllDistinct fs l' h (Registered-AllDistinct l' r)
Registered-AllDistinct l (unregisters {l = l'} fs r) =
    unregister_filesystem-AllDistinct fs l' (Registered-AllDistinct l' r)

same_name_sym :
    (s t : List ℕ) → IsCString s → IsCString t → same_name s t ≡ false → same_name t s ≡ false
same_name_sym s t hs ht h = elim (Bool-cases (same_name t s)) as (λ _. same_name t s ≡ false) [
  | inl e ↦
      let same = same_name_eq t s ht hs e in
      ap (λ x. same_name x s) same ∙ ap (λ x. same_name s x) (sym same) ∙ h
  | inr e ↦ e
]

not-Before : (s : List ℕ) → ¬ Before s s
not-Before [] h = h
not-Before (a ∷ s) (inl h) = ground arith
not-Before (a ∷ s) (inr (e, h)) = not-Before s h

same_name_refl : (s : List ℕ) → IsCString s → same_name s s ≡ true
same_name_refl s h = go (strcmp_decides s s h h)
  where
    go : Says (strcmp (some s) (some s)) s s → same_name s s ≡ true
    go (inl (e, same)) = ap is_zero e
    go (inr (inl (e, before))) = absurd (not-Before s before)
    go (inr (inr (e, before))) = absurd (not-Before s before)

-- Each type of `rest` is found in `l` under its name.
abbrev pub AllFound : List FsType → List FsType → Type 0
AllFound l rest = All (λ f. vfs_get_fs f.name l ≡ some f) rest

AllFound-behind :
    (g : FsType) (l rest : List FsType)
    → IsCString g.name
    → vfs_get_fs g.name rest ≡ none
    → AllDistinct rest
    → AllFound l rest
    → AllFound (g ∷ l) rest
unfolding vfs_get_fs
AllFound-behind g l [] h free d found = tt
AllFound-behind g l (f ∷ rest) h free d found =
    let other : same_name f.name g.name ≡ false = ground arith in
    let free' : vfs_get_fs g.name rest ≡ none = ground arith in
    let other' = same_name_sym f.name g.name d.0 h other in
    (rw other' found.0, AllFound-behind g l rest h free' d.2 found.1)

AllDistinct-AllFound : (l : List FsType) → AllDistinct l → AllFound l l
unfolding vfs_get_fs
AllDistinct-AllFound [] d = tt
AllDistinct-AllFound (f ∷ l) d = (
  rw (same_name_refl f.name d.0) refl,
  AllFound-behind f l l d.0 d.1 d.2 (AllDistinct-AllFound l d.2),
)

-- Whatever was registered and unregistered before, each type in the list is found under its name.
pub Registered-AllFound : (l : List FsType) → Registered l → AllFound l l
Registered-AllFound l r = AllDistinct-AllFound l (Registered-AllDistinct l r)

-- Registering a type either gives EBUSY and changes nothing, or the type is found under its name, and
-- unregistering it gives the list from before.
pub register_filesystem-unregister_filesystem :
    (fs : FsType) (l : List FsType)
    → IsCString fs.name
    → (register_filesystem (some fs) l ≡ (ebusy, l))
      ⊎ ((vfs_get_fs fs.name (register_filesystem (some fs) l).1 ≡ some fs)
          × (unregister_filesystem (some fs) (register_filesystem (some fs) l).1 ≡ (pos 0, l)))
unfolding vfs_get_fs unregister_filesystem without_fs
register_filesystem-unregister_filesystem fs l h = elim (register_filesystem-Decides fs l) [
  | inl e ↦ inl e
  | inr (free, e) ↦ let same = same_name_refl fs.name h in ground arith
]
