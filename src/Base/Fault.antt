-- ===== src/Base/Fault.antt =====
-- Accesses that the hardware would carry out anywhere, and that the model checks: `none` is a read
-- or a write outside the object, or a null pointer followed.
use Prim.Native.Nat.{ℕ, zero, suc, ◌<◌, ◌≤◌}
use mathlib.Core.Path.{◌≡◌, refl}
use mathlib.Core.Option.{Option, none, some}
use mathlib.Core.List.{List, [], ◌∷◌}
use native.Mathlib.Omega.{arith}
use mathlib.Core.Bool.{Bool, true, false}
use nupkux.Base.Tests.{if◌then◌else◌}
use nupkux.Base.Lists.{length, set}

infixl 5 ◌>>=◌
abbrev pub ◌>>=◌ {ℓ κ} : {A : Type ℓ} {B : Type κ} → Option A → (A → Option B) → Option B
none >>= f = none
some a >>= f = f a

-- `x` stands before the result of a later write.
abbrev pub behind {ℓ} : {A : Type ℓ} → A → Option (List A) → Option (List A)
behind x none = none
behind x (some xs) = some (x ∷ xs)

-- `buf[i] = v`
abbrev pub store {ℓ} : {A : Type ℓ} → List A → ℕ → A → Option (List A)
store [] i v = none
store (x ∷ xs) zero v = some (v ∷ xs)
store (x ∷ xs) (suc i) v = behind x (store xs i v)

pub store-in {ℓ} :
    {A : Type ℓ} (xs : List A) (i : ℕ) (v : A) → i < length xs → store xs i v ≡ some (set xs i v)
store-in [] i v h = absurd (omega arith)
store-in (x ∷ xs) zero v h = refl
store-in (x ∷ xs) (suc i) v h = rw (store-in xs i v (omega arith))

pub store-outside {ℓ} :
    {A : Type ℓ} (xs : List A) (i : ℕ) (v : A) → length xs ≤ i → store xs i v ≡ none
store-outside [] i v h = refl
store-outside (x ∷ xs) zero v h = absurd (omega (arith, h))
store-outside (x ∷ xs) (suc i) v h = rw (store-outside xs i v (omega arith)) refl

-- A result that is no fault and has the property.
pub data Holds {ℓ} {A : Type ℓ} (P : A → Type 0) : Option A → Type ℓ where
  holds : {a : A} → P a → Holds P (some a)

module _ {ℓ κ} {A : Type ℓ} {B : Type κ} where
  pub Holds->>= :
      (P : A → Type 0) (Q : B → Type 0) (f : A → Option B) {o : Option A}
      → Holds P o
      → ((a : A) → P a → Holds Q (f a))
      → Holds Q (o >>= f)
  Holds->>= P Q f (holds {a = a} h) g = g a h

module _ {ℓ} {A : Type ℓ} where
  pub Holds-map : (P Q : A → Type 0) {o : Option A} → Holds P o → ((a : A) → P a → Q a) → Holds Q o
  Holds-map P Q (holds {a = a} h) g = holds (g a h)

  -- Both branches of a test.
  pub Holds-if :
      (P : A → Type 0) (b : Bool) (x y : Option A)
      → Holds P x
      → Holds P y
      → Holds P (if b then x else y)
  Holds-if P true x y h k = h
  Holds-if P false x y h k = k

  pub Holds-some : (P : A → Type 0) {o : Option A} → Holds P o → (a : A) × (o ≡ some a) × P a
  Holds-some P (holds {a = a} h) = (a, refl, h)
