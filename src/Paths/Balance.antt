-- ===== src/Paths/Balance.antt =====
-- The references of a walk: the vnode that is found has one more, and no other vnode has.
use nupkux.Base.{
  ℕ, zero, suc, ◌==◌, ◌<◌, ◌≡◌, ◌⊎◌, refl, sym, ◌∙◌, ap, subst, fun_ext, inl, inr, List, ◌∷◌, true,
  false, Bool-cases, Option, none, some, Option-cases, not_some, arith,
}
use nupkux.Paths.{namei_match}
use nupkux.Paths.Walk.{
  Vnode, Counts, retain, iput, User, node_permission, Walk, finds, fails, enoent, eacces, enotdir,
  egeneric, dot, dots, is_dir, behind_slash, entry_name, resolve_mount, looked_up, lookup_at,
  parent_at, dentry_at, getdentry, last_entry, walk_path, walk_from, namei,
}

-- Every count is below `b`.
abbrev pub Low : ℕ → Counts → Type 0
Low b c = (v : ℕ) → c v < b

Low-retain : (b node : ℕ) (c : Counts) → Low b c → Low (suc b) (retain node c)
unfolding retain
Low-retain b node c h v = elim (Bool-cases (v == node)) [
  | inl t ↦ rw t (omega (arith, h v))
  | inr t ↦ rw t (omega (arith, h v))
]

Low-more : (b : ℕ) (c : Counts) → Low b c → Low (suc b) c
Low-more b c h v = omega (arith, h v)

iput-retain : (node : ℕ) (c : Counts) → Low 255 c → iput node (retain node c) ≡ c
unfolding retain iput
iput-retain node c h =
    fun_ext
      (λ v. elim (Bool-cases (v == node)) [ inl t ↦ rw t (omega (arith, h v)) | inr t ↦ rw t refl ])

iput-retain_swap : (a b : ℕ) (c : Counts) → Low 254 c → iput a (retain b (retain a c)) ≡ retain b c
unfolding retain iput
iput-retain_swap a b c h = fun_ext (λ v. elim (Bool-cases (v == a)) [
  | inl t ↦ elim (Bool-cases (v == b)) [
    | inl t' ↦ rw (t, t') (omega (arith, h v))
    | inr t' ↦ rw (t, t') (omega (arith, h v))
  ]
  | inr t ↦ elim (Bool-cases (v == b)) [ inl t' ↦ rw (t, t') refl | inr t' ↦ rw (t, t') refl ]
])

-- What a walk that starts with the counts `c` may give.
abbrev pub Balanced : Counts → Option Walk → Type 0
Balanced c o = ((node : ℕ) × (o ≡ finds node (retain node c))) ⊎ ((error : ℕ) × (o ≡ fails error c))

abbrev pub retained : Option ℕ → Counts → Counts
retained none c = c
retained (some node) c = retain node c

-- The operation of a file system counts the vnode that it gives, as `iget` does.
pub record IsLookup (lookup : ℕ → List ℕ → Counts → Option ℕ × Counts) : Type 0 where
  pub counts :
      (node : ℕ) (name : List ℕ) (c : Counts)
      → (lookup node name c).1 ≡ retained (lookup node name c).0 c

module _ (vnode : ℕ → Vnode) where
  -- The mounts on a vnode, and the vnodes that it covers, end within `k` turns.
  pub data Ends : ℕ → ℕ → Type 0 where
    plain : {k n : ℕ} → (vnode n).mount ≡ none → Ends (suc k) n
    mounted : {k n m : ℕ} → (vnode n).mount ≡ some m → Ends k m → Ends (suc k) n

  pub data Climbs : ℕ → ℕ → Type 0 where
    bare : {k n : ℕ} → (vnode n).cover ≡ none → Climbs (suc k) n
    covering : {k n m : ℕ} → (vnode n).cover ≡ some m → Climbs k m → Climbs (suc k) n

  module _ (lookup : ℕ → List ℕ → Counts → Option ℕ × Counts) (depth : ℕ) (u : User)
      (law : IsLookup lookup) (ends : (n : ℕ) → Ends depth n)
      (climbs : (n : ℕ) → Climbs depth n) where
    resolve_lem :
        (fuel node : ℕ) (c : Counts)
        → Ends fuel node
        → Low 255 c
        → (t : ℕ) × (resolve_mount vnode lookup depth u fuel node (retain node c)
            ≡ finds t (retain t c))
    unfolding resolve_mount
    resolve_lem zero node c e h = elim e [ ]
    resolve_lem (suc fuel) node c (plain e) h = (node, rw e refl)
    resolve_lem (suc fuel) node c (mounted {m = m} e more) h =
        let (t, e') = resolve_lem fuel m c more h in (t, rw (e, iput-retain node c h) e')

    looked_up_lem :
        (o : Option ℕ) (node : ℕ) (c : Counts)
        → Low 254 c
        → Balanced c (looked_up vnode lookup depth u o (iput node (retained o (retain node c))))
    looked_up_lem none node c h =
        inr (enoent, ap (fails enoent) (iput-retain node c (Low-more 254 c h)))
    looked_up_lem (some new) node c h =
        let (t, e) = resolve_lem depth new c (ends new) (Low-more 254 c h) in
        inl
          (t, ap (resolve_mount vnode lookup depth u depth new) (iput-retain_swap node new c h) ∙ e)

    lookup_at_lem :
        (name : List ℕ) (node : ℕ) (c : Counts)
        → Low 254 c
        → Balanced c (lookup_at vnode lookup depth u name node (retain node c))
    unfolding lookup_at
    lookup_at_lem name node c h =
        let back = iput-retain node c (Low-more 254 c h) in
        elim (Bool-cases (is_dir (vnode node))) [
          | inr t ↦ inr (enotdir, rw (t, back) refl)
          | inl t ↦ elim (Bool-cases (node_permission u (vnode node) 1 == 0)) [
            | inl t' ↦ inr (eacces, rw (t, t', back) refl)
            | inr t' ↦ elim (Bool-cases (vnode node).has_lookup) [
              | inr t'' ↦ inr (egeneric, rw (t, t', t'', back) refl)
              | inl t'' ↦
                  rw (t, t', t'', law.counts node name (retain node c))
                    (looked_up_lem (lookup node name (retain node c)).0 node c h)
            ]
          ]
        ]

    parent_at_lem :
        (name : List ℕ) (node : ℕ) (c : Counts)
        → Low 253 c
        → Balanced c (parent_at vnode lookup depth u name node (retain node c))
    parent_at_lem name node c h =
        let low = Low-more 254 (retain node c) (Low-retain 253 node c h) in
        let (t, e) = resolve_lem depth u.root (retain node c) (ends u.root) low in
        let back = iput-retain t (retain node c) low in
        elim (Bool-cases (node == t)) [
          | inl same ↦ rw (e, same, back) (inl (node, refl))
          | inr other ↦ rw (e, other, back) (lookup_at_lem name node c (Low-more 253 c h))
        ]

    dentry_at_lem :
        (name : List ℕ) (again : ℕ → Counts → Option Walk) (node : ℕ) (c : Counts)
        → Low 253 c
        → ((cover : ℕ) → (vnode node).cover ≡ some cover → Balanced c (again cover c))
        → Balanced c (dentry_at vnode lookup depth u name again node (retain node c))
    dentry_at_lem name again node c h up = elim (Bool-cases (namei_match name dot)) [
      | inl t ↦ rw t (inl (node, refl))
      | inr t ↦ elim (Bool-cases (namei_match name dots)) [
        | inr t' ↦ rw (t, t') (lookup_at_lem name node c (Low-more 253 c h))
        | inl t' ↦ elim (Option-cases (vnode node).cover) [
          | inl e ↦ rw (t, t', e) (parent_at_lem name node c h)
          | inr (cover, e) ↦
              let back = iput-retain node c (Low-more 254 c (Low-more 253 c h)) in
              rw (t, t', e, back) (up cover e)
        ]
      ]
    ]

    some_eq : (a b : ℕ) → some a ≡ some b → a ≡ b
    some_eq a b e = ap (λ o. elim o as (λ q. ℕ) [ none ↦ a | some x ↦ x ]) e

    -- The vnode that a climb from `node` covers climbs on.
    climb_on :
        (k node cover : ℕ) → Climbs (suc k) node → (vnode node).cover ≡ some cover → Climbs k cover
    climb_on k node cover (bare e) e' = absurd (not_some (sym e ∙ e'))
    climb_on k node cover (covering {m = m} e more) e' =
        subst (λ n. Climbs k n) (some_eq m cover (sym e ∙ e')) more

    climb_lem :
        (fuel : ℕ) (name : List ℕ) (node : ℕ) (c : Counts)
        → Climbs fuel node
        → Low 253 c
        → Balanced c (getdentry vnode lookup depth u fuel name true node c)
    unfolding getdentry
    climb_lem zero name node c e h = elim e [ ]
    climb_lem (suc fuel) name node c e h =
        dentry_at_lem name (λ cover c'. getdentry vnode lookup depth u fuel name true cover c') node
          c h (λ cover e'. climb_lem fuel name cover c (climb_on fuel node cover e e') h)

    enter_lem :
        (fuel : ℕ) (name : List ℕ) (node : ℕ) (c : Counts)
        → ((n : ℕ) → Climbs fuel n)
        → Low 253 c
        → Balanced c (getdentry vnode lookup depth u fuel name false node c)
    unfolding getdentry
    enter_lem zero name node c e h = elim (e node) [ ]
    enter_lem (suc fuel) name node c e h =
        let (t, e') = resolve_lem depth node c (ends node) (Low-more 254 c (Low-more 253 c h)) in
        rw e' (
          dentry_at_lem name (λ cover c'. getdentry vnode lookup depth u fuel name true cover c') t
            c h (λ cover e''. climb_lem fuel name cover c (climb_on fuel t cover (e t) e'') h))

    -- Where the mounts and the covered vnodes end, the file systems count as `iget` does, and no count is
    -- near the limit of a UCHAR, `getdentry` gives a vnode with one reference more, or an error, and
    -- changes no other count.
    pub getdentry-Balanced :
        (name : List ℕ) (node : ℕ) (c : Counts)
        → Low 253 c
        → Balanced c (getdentry vnode lookup depth u depth name false node c)
    getdentry-Balanced name node c h = enter_lem depth name node c climbs h

    last_entry_lem :
        (f : ℕ) (name : List ℕ) (node : ℕ) (c : Counts)
        → Low 253 c
        → Balanced c (last_entry vnode lookup depth u (f ∷ name) node c)
    last_entry_lem f name node c h = getdentry-Balanced (f ∷ name) node c h

    -- The first of two components was found, or not.
    two_lem :
        (f g : ℕ) (first rest : List ℕ) (middle : ℕ) (c : Counts)
        → Low 252 c
        → (f == 47) ≡ false
        → behind_slash (f ∷ first) ≡ some (g ∷ rest)
        → behind_slash (g ∷ rest) ≡ none
        → getdentry vnode lookup depth u depth (f ∷ first) false u.pwd c
          ≡ finds middle (retain middle c)
        → Balanced (retain middle c) (namei vnode lookup depth u (f ∷ first) c)
    unfolding namei walk_from walk_path
    two_lem f g first rest middle c h no_root two one found =
        let two' = rw no_root at two in
        let entry : entry_name (f ∷ first) ≡ f ∷ first = rw no_root refl in
        let found' = ap (λ n. getdentry vnode lookup depth u depth n false u.pwd c) entry ∙ found in
        rw (no_root, two', found', one)
          (last_entry_lem g rest middle (retain middle c) (Low-retain 252 middle c h))

    two_fails :
        (f g error : ℕ) (first rest : List ℕ) (c : Counts)
        → (f == 47) ≡ false
        → behind_slash (f ∷ first) ≡ some (g ∷ rest)
        → getdentry vnode lookup depth u depth (f ∷ first) false u.pwd c ≡ fails error c
        → namei vnode lookup depth u (f ∷ first) c ≡ fails error c
    unfolding namei walk_from walk_path
    two_fails f g error first rest c no_root two found =
        let two' = rw no_root at two in
        let entry : entry_name (f ∷ first) ≡ f ∷ first = rw no_root refl in
        let found' = ap (λ n. getdentry vnode lookup depth u depth n false u.pwd c) entry ∙ found in
        rw (no_root, two', found') refl

    -- `namei` of a path of two components in the working directory gives the error of the first one and
    -- changes no count, or keeps a reference to the vnode of the first one besides the one to what it gives.
    pub namei_keeps :
        (f g : ℕ) (first rest : List ℕ) (c : Counts)
        → Low 252 c
        → (f == 47) ≡ false
        → behind_slash (f ∷ first) ≡ some (g ∷ rest)
        → behind_slash (g ∷ rest) ≡ none
        → ((middle : ℕ) × (getdentry vnode lookup depth u depth (f ∷ first) false u.pwd c
              ≡ finds middle (retain middle c))
            × Balanced (retain middle c) (namei vnode lookup depth u (f ∷ first) c))
          ⊎ ((error : ℕ) × (namei vnode lookup depth u (f ∷ first) c ≡ fails error c))
    namei_keeps f g first rest c h no_root two one =
        elim (getdentry-Balanced (f ∷ first) u.pwd c (Low-more 252 c h)) [
          | inl (middle, e) ↦ inl (middle, e, two_lem f g first rest middle c h no_root two one e)
          | inr (error, e) ↦ inr (error, two_fails f g error first rest c no_root two e)
        ]
