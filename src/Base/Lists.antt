-- ===== src/Base/Lists.antt =====
-- Lists measured and indexed by native numbers, under the library's names.
use Prim.Native.Nat.{ℕ, zero, suc, ◌+◌, ◌<◌}
use mathlib.Core.Bool.{Bool, true, false, ◌||◌}
use mathlib.Core.Path.{sym, ◌∙◌, ◌≡◌, refl, ap}
use nupkux.Base.Tests.{Bool-cases, not_both}
use mathlib.Core.Logic.{inl, inr, ◌≢◌}
use mathlib.Core.List.{List, [], ◌∷◌, ◌++◌}
use mathlib.Core.Option.{Option, none, some}
use native.Mathlib.Omega.{arith}

module _ {ℓ} {A : Type ℓ} where
  abbrev pub length : List A → ℕ
  length [] = 0
  length (x ∷ xs) = suc (length xs)

  abbrev pub get_elem? : List A → ℕ → Option A
  get_elem? [] i = none
  get_elem? (x ∷ xs) zero = some x
  get_elem? (x ∷ xs) (suc i) = get_elem? xs i

  abbrev pub get_or : List A → ℕ → A → A
  get_or [] i d = d
  get_or (x ∷ xs) zero d = x
  get_or (x ∷ xs) (suc i) d = get_or xs i d

  -- A write out of bounds changes nothing.
  abbrev pub set : List A → ℕ → A → List A
  set [] i v = []
  set (x ∷ xs) zero v = v ∷ xs
  set (x ∷ xs) (suc i) v = x ∷ set xs i v

  abbrev pub take : ℕ → List A → List A
  take zero xs = []
  take (suc n) [] = []
  take (suc n) (x ∷ xs) = x ∷ take n xs

  abbrev pub drop : ℕ → List A → List A
  drop zero xs = xs
  drop (suc n) [] = []
  drop (suc n) (x ∷ xs) = drop n xs

  abbrev pub replicate : ℕ → A → List A
  replicate zero a = []
  replicate (suc n) a = a ∷ replicate n a

  -- `xs[i] = f(xs[i])`
  abbrev pub modify : (A → A) → List A → ℕ → List A
  modify f [] i = []
  modify f (x ∷ xs) zero = f x ∷ xs
  modify f (x ∷ xs) (suc i) = x ∷ modify f xs i

  -- The same change of every element.
  abbrev pub each : (A → A) → List A → List A
  each f [] = []
  each f (x ∷ xs) = f x ∷ each f xs

  -- Does an element pass the test?
  abbrev pub any : (A → Bool) → List A → Bool
  any p [] = false
  any p (x ∷ xs) = p x || any p xs

  -- Every element has the property.
  abbrev pub All {κ} : (A → Type κ) → List A → Type κ
  All P [] = Unit
  All P (x ∷ xs) = P x × All P xs

module _ {ℓ} {A : Type ℓ} where
  pub length-append : (xs ys : List A) → length (xs ++ ys) ≡ length xs + length ys
  length-append [] ys = omega arith
  length-append (x ∷ xs) ys = omega (arith, length-append xs ys)

  pub length-set : (xs : List A) (i : ℕ) (v : A) → length (set xs i v) ≡ length xs
  length-set [] i v = refl
  length-set (x ∷ xs) zero v = refl
  length-set (x ∷ xs) (suc i) v = ap suc (length-set xs i v)

  pub get_or-set_self :
      (xs : List A) (i : ℕ) (v d : A) → i < length xs → get_or (set xs i v) i d ≡ v
  get_or-set_self [] i v d h = absurd (omega arith)
  get_or-set_self (x ∷ xs) zero v d h = refl
  get_or-set_self (x ∷ xs) (suc i) v d h = get_or-set_self xs i v d (omega arith)

  pub get_or-set_ne :
      (xs : List A) (i j : ℕ) (v d : A) → i ≢ j → get_or (set xs i v) j d ≡ get_or xs j d
  get_or-set_ne [] i j v d h = refl
  get_or-set_ne (x ∷ xs) zero zero v d h = absurd (h refl)
  get_or-set_ne (x ∷ xs) zero (suc j) v d h = refl
  get_or-set_ne (x ∷ xs) (suc i) zero v d h = refl
  get_or-set_ne (x ∷ xs) (suc i) (suc j) v d h = get_or-set_ne xs i j v d (λ e. h (ap suc e))

  pub get_elem?-set_self :
      (xs : List A) (i : ℕ) (v : A) → i < length xs → get_elem? (set xs i v) i ≡ some v
  get_elem?-set_self [] i v h = elim h [ ]
  get_elem?-set_self (x ∷ xs) zero v h = refl
  get_elem?-set_self (x ∷ xs) (suc i) v h = get_elem?-set_self xs i v (omega arith)

  pub get_elem?-set_ne :
      (xs : List A) (i j : ℕ) (v : A) → i ≢ j → get_elem? (set xs i v) j ≡ get_elem? xs j
  get_elem?-set_ne [] i j v h = refl
  get_elem?-set_ne (x ∷ xs) zero zero v h = absurd (h refl)
  get_elem?-set_ne (x ∷ xs) zero (suc j) v h = refl
  get_elem?-set_ne (x ∷ xs) (suc i) zero v h = refl
  get_elem?-set_ne (x ∷ xs) (suc i) (suc j) v h = get_elem?-set_ne xs i j v (λ e. h (ap suc e))

  pub length-replicate : (n : ℕ) (a : A) → length (replicate n a) ≡ n
  length-replicate zero a = refl
  length-replicate (suc n) a = ap suc (length-replicate n a)

  pub length-modify : (f : A → A) (xs : List A) (i : ℕ) → length (modify f xs i) ≡ length xs
  length-modify f [] i = refl
  length-modify f (x ∷ xs) zero = refl
  length-modify f (x ∷ xs) (suc i) = ap suc (length-modify f xs i)

  pub get_or-modify_self :
      (f : A → A) (xs : List A) (i : ℕ) (d : A)
      → i < length xs
      → get_or (modify f xs i) i d ≡ f (get_or xs i d)
  get_or-modify_self f [] i d h = elim h [ ]
  get_or-modify_self f (x ∷ xs) zero d h = refl
  get_or-modify_self f (x ∷ xs) (suc i) d h = get_or-modify_self f xs i d (omega arith)

  pub get_or-modify_ne :
      (f : A → A) (xs : List A) (i j : ℕ) (d : A)
      → i ≢ j
      → get_or (modify f xs i) j d ≡ get_or xs j d
  get_or-modify_ne f [] i j d h = refl
  get_or-modify_ne f (x ∷ xs) zero zero d h = absurd (h refl)
  get_or-modify_ne f (x ∷ xs) zero (suc j) d h = refl
  get_or-modify_ne f (x ∷ xs) (suc i) zero d h = refl
  get_or-modify_ne f (x ∷ xs) (suc i) (suc j) d h = get_or-modify_ne f xs i j d (λ e. h (ap suc e))

  pub length-each : (f : A → A) (xs : List A) → length (each f xs) ≡ length xs
  length-each f [] = refl
  length-each f (x ∷ xs) = ap suc (length-each f xs)

  pub get_or-each :
      (f : A → A) (xs : List A) (i : ℕ) (d : A)
      → i < length xs
      → get_or (each f xs) i d ≡ f (get_or xs i d)
  get_or-each f [] i d h = elim h [ ]
  get_or-each f (x ∷ xs) zero d h = refl
  get_or-each f (x ∷ xs) (suc i) d h = get_or-each f xs i d (omega arith)

  pub any_index :
      (p : A → Bool) (xs : List A) (d : A)
      → any p xs ≡ true
      → (i : ℕ) × i < length xs × (p (get_or xs i d) ≡ true)
  any_index p [] d h = absurd (not_both false h refl)
  any_index p (x ∷ xs) d h = elim (Bool-cases (p x)) [
    | inl e ↦ (0, omega arith, e)
    | inr e ↦
        let (i, l, e') = any_index p xs d (ap (λ b. b || any p xs) (sym e) ∙ h) in
        (suc i, omega arith, e')
  ]

  pub any_none :
      (p : A → Bool) (xs : List A) (d : A) (i : ℕ)
      → any p xs ≡ false
      → i < length xs
      → p (get_or xs i d) ≡ false
  any_none p [] d i h l = elim l [ ]
  any_none p (x ∷ xs) d zero h l = ground (arith, h)
  any_none p (x ∷ xs) d (suc i) h l = any_none p xs d i (ground (arith, h)) (omega arith)
