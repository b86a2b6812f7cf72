-- ===== src/Base/Lists.antt =====
-- Predicates and counts over lists.
use Prim.Native.Nat.{ℕ, suc, ◌+◌}
use mathlib.Core.Path.{◌≡◌, refl}
use mathlib.Core.Bool.{Bool, true}
use mathlib.Core.Option.{Option, none, some}
use mathlib.Core.List.{List, [], ◌∷◌, ◌++◌}
use native.Mathlib.Omega.{arith}
use apheleia.Base.Tests.{if◌then◌else◌}

module _ {ℓ κ} {A : Type ℓ} where
  -- Every element satisfies the property.
  abbrev pub All : (A → Type κ) → List A → Type κ
  All Q [] = Unit
  All Q (a ∷ rest) = Q a × All Q rest

  pub All-append :
      (Q : A → Type κ) (front back : List A) → All Q front → All Q back → All Q (front ++ back)
  All-append Q [] back h k = k
  All-append Q (a ∷ front) back (first, h) k = (first, All-append Q front back h k)

module _ {ℓ} {A : Type ℓ} where
  -- How many elements pass the test.
  abbrev pub count : (A → Bool) → List A → ℕ
  count p [] = 0
  count p (x ∷ xs) = let rest = count p xs in if p x then suc rest else rest

  pub count-append : (p : A → Bool) (xs ys : List A) → count p (xs ++ ys) ≡ count p xs + count p ys
  count-append p [] ys = omega arith
  count-append p (x ∷ xs) ys = ground (arith, count-append p xs ys)

module _ {ℓ} {A : Type ℓ} where
  abbrev pub length : List A → ℕ
  length [] = 0
  length (_ ∷ xs) = suc (length xs)

  pub count-length : (xs : List A) → count (λ _. true) xs ≡ length xs
  count-length [] = refl
  count-length (x ∷ xs) = omega (arith, count-length xs)

abbrev pub OptionAll : {A : Type 0} → (A → Type 0) → Option A → Type 0
OptionAll Q none = Unit
OptionAll Q (some a) = Q a
