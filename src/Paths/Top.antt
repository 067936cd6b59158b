-- ===== src/Paths/Top.antt =====
-- What `namei` of src/fs/namei.c finds is never a vnode on which something is mounted.
use nupkux.Base.{
  ℕ, zero, suc, ◌==◌, ◌≡◌, refl, if◌then◌else◌, List, [], ◌∷◌, Bool, true, false, not, not_both,
  Option, none, some, length, arith, subst,
}
use nupkux.Paths.{namei_match}
use nupkux.Paths.Walk.{
  Vnode, Counts, retain, iput, User, node_permission, Walk, found_at, failed_with, dot, dots,
  is_dir, on_found, resolve_on, behind_slash, entry_name, resolve_mount, looked_up, lookup_at,
  parent_at, dots_at, dentry_at, getdentry, last_entry, at_component, walk_path, walk_from, namei,
}

module _ (vnode : ℕ → Vnode) where
  -- Where a vnode is found, nothing is mounted on it.
  abbrev pub Top : Option Walk → Type 0
  Top none = Unit
  Top (some (found_at node c)) = (vnode node).mount ≡ none
  Top (some (failed_with error c)) = Unit

  if-Top :
      (b : Bool) (x y : Option Walk)
      → (b ≡ true → Top x)
      → (b ≡ false → Top y)
      → Top (if b then x else y)
  if-Top true x y p q = p refl
  if-Top false x y p q = q refl

  on_found-Top :
      (w : Option Walk) (go : ℕ → Counts → Option Walk)
      → Top w
      → ((node : ℕ) (c : Counts) → (vnode node).mount ≡ none → Top (go node c))
      → Top (on_found w go)
  on_found-Top none go p q = tt
  on_found-Top (some (found_at node c)) go p q = q node c p
  on_found-Top (some (failed_with error c)) go p q = tt

  resolve_on-Top :
      (node : ℕ) (c : Counts) (go : ℕ → Counts → Option Walk) (o : Option ℕ)
      → (vnode node).mount ≡ o
      → ((n : ℕ) (c : Counts) → Top (go n c))
      → Top (resolve_on node c go o)
  resolve_on-Top node c go none e p = e
  resolve_on-Top node c go (some n) e p = p n (retain n (iput node c))

  module _ (lookup : ℕ → List ℕ → Counts → Option ℕ × Counts) (depth : ℕ) (u : User) where
    resolve_mount-Top :
        (fuel node : ℕ) (c : Counts) → Top (resolve_mount vnode lookup depth u fuel node c)
    unfolding resolve_mount
    resolve_mount-Top zero node c = tt
    resolve_mount-Top (suc fuel) node c =
        resolve_on-Top node c (λ n c'. resolve_mount vnode lookup depth u fuel n c')
          (vnode node).mount refl (λ n c'. resolve_mount-Top fuel n c')

    looked_up-Top : (o : Option ℕ) (c : Counts) → Top (looked_up vnode lookup depth u o c)
    looked_up-Top none c = tt
    looked_up-Top (some node) c = resolve_mount-Top depth node c

    lookup_at-Top :
        (filename : List ℕ) (node : ℕ) (c : Counts)
        → Top (lookup_at vnode lookup depth u filename node c)
    unfolding lookup_at
    lookup_at-Top filename node c =
        if-Top (not (is_dir (vnode node))) _ _ (λ _. tt)
          (λ _.
            if-Top (node_permission u (vnode node) 1 == 0) _ _ (λ _. tt)
              (λ _.
                if-Top (not (vnode node).has_lookup) _ _ (λ _. tt)
                  (λ _.
                    looked_up-Top (lookup node filename c).0
                      (iput node (lookup node filename c).1))))

    parent_at-Top :
        (filename : List ℕ) (node : ℕ) (c : Counts)
        → Top (parent_at vnode lookup depth u filename node c)
    parent_at-Top filename node c =
        on_found-Top (resolve_mount vnode lookup depth u depth u.root (retain u.root c)) _
          (resolve_mount-Top depth u.root (retain u.root c))
          (λ n c' bare.
            if-Top (node == n) _ _
              (λ e.
                let same : n ≡ node = ground arith in subst (λ v. (vnode v).mount ≡ none) same bare)
              (λ _. lookup_at-Top filename node (iput n c')))

    dots_at-Top :
        (filename : List ℕ) (node : ℕ) (c : Counts) (again : ℕ → Counts → Option Walk)
        (o : Option ℕ)
        → ((n : ℕ) (c' : Counts) → Top (again n c'))
        → Top (dots_at vnode lookup depth u filename node c again o)
    dots_at-Top filename node c again none p = parent_at-Top filename node c
    dots_at-Top filename node c again (some cover) p = p cover (iput node c)

    dentry_at-Top :
        (filename : List ℕ) (again : ℕ → Counts → Option Walk) (node : ℕ) (c : Counts)
        → (namei_match filename dot ≡ true → (vnode node).mount ≡ none)
        → (namei_match filename dot ≡ false → (n : ℕ) (c' : Counts) → Top (again n c'))
        → Top (dentry_at vnode lookup depth u filename again node c)
    dentry_at-Top filename again node c here p =
        if-Top (namei_match filename dot) _ _ here (λ other.
          if-Top (namei_match filename dots) _ _
            (λ _. dots_at-Top filename node c again (vnode node).cover (p other))
            (λ _. lookup_at-Top filename node c))

    -- Behind a mount `getdentry` is called for "..", where it does not resolve the vnode that it gets.
    getdentry_up-Top :
        (fuel : ℕ) (filename : List ℕ) (node : ℕ) (c : Counts)
        → namei_match filename dot ≡ false
        → Top (getdentry vnode lookup depth u fuel filename true node c)
    unfolding getdentry
    getdentry_up-Top zero filename node c other = tt
    getdentry_up-Top (suc fuel) filename node c other =
        dentry_at-Top filename _ node (retain node c)
          (λ same. absurd (not_both (namei_match filename dot) same other))
          (λ _ n c'. getdentry_up-Top fuel filename n c' other)

    getdentry-Top :
        (fuel : ℕ) (filename : List ℕ) (node : ℕ) (c : Counts)
        → Top (getdentry vnode lookup depth u fuel filename false node c)
    unfolding getdentry
    getdentry-Top zero filename node c = tt
    getdentry-Top (suc fuel) filename node c =
        on_found-Top (resolve_mount vnode lookup depth u depth node (retain node c)) _
          (resolve_mount-Top depth node (retain node c))
          (λ n c' bare.
            dentry_at-Top filename _ n c' (λ _. bare)
              (λ other m c''. getdentry_up-Top fuel filename m c'' other))

    last_entry-Top :
        (filename : List ℕ) (node : ℕ) (c : Counts)
        → (filename ≡ [] → (vnode node).mount ≡ none)
        → Top (last_entry vnode lookup depth u filename node c)
    last_entry-Top [] node c p = p refl
    last_entry-Top (f ∷ filename) node c p = getdentry-Top depth (f ∷ filename) node c

    at_component-Top :
        (filename : List ℕ) (node : ℕ) (c : Counts) (go : List ℕ → ℕ → Counts → Option Walk)
        (o : Option (List ℕ))
        → (filename ≡ [] → (vnode node).mount ≡ none)
        → ((rest : List ℕ) (n : ℕ) (c' : Counts) → (vnode n).mount ≡ none → Top (go rest n c'))
        → Top (at_component vnode lookup depth u filename node c go o)
    at_component-Top filename node c go none p q = last_entry-Top filename node c p
    at_component-Top filename node c go (some rest) p q =
        on_found-Top (getdentry vnode lookup depth u depth (entry_name filename) false node c)
          (go rest) (getdentry-Top depth (entry_name filename) node c) (q rest)

    walk_path-Top :
        (fuel : ℕ) (filename : List ℕ) (node : ℕ) (c : Counts)
        → (filename ≡ [] → (vnode node).mount ≡ none)
        → Top (walk_path vnode lookup depth u fuel filename node c)
    unfolding walk_path
    walk_path-Top zero filename node c p = tt
    walk_path-Top (suc fuel) filename node c p =
        at_component-Top filename node c _ (behind_slash filename) p
          (λ rest n c' bare. walk_path-Top fuel rest n c' (λ _. bare))

    walk_from-Top :
        (filename : List ℕ) (node : ℕ) (c : Counts)
        → Top (walk_from vnode lookup depth u filename node c)
    unfolding walk_from
    walk_from-Top [] node c = resolve_mount-Top depth node (retain node c)
    walk_from-Top (f ∷ filename) node c =
        walk_path-Top (suc (suc (length filename))) (f ∷ filename) node c (λ e. ground arith)

    -- Where `namei` finds a vnode, nothing is mounted on it, for every path and whatever is mounted and
    -- covered, so that it leads to no mount point.
    pub namei-Top : (filename : List ℕ) (c : Counts) → Top (namei vnode lookup depth u filename c)
    unfolding namei
    namei-Top [] c = tt
    namei-Top (f ∷ filename) c =
        if-Top (f == 47) _ _ (λ _. walk_from-Top filename u.root c)
          (λ _. walk_from-Top (f ∷ filename) u.pwd c)
