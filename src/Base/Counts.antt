-- ===== src/Base/Counts.antt =====
-- A count does not depend on the order.
use mathlib.Core.Logic.{∥∥₁_elim}
use mathlib.Core.List.{Perm, Permᴰ}
use native.Mathlib.Nat.{ℕ_set}
use apheleia.Base.{◌≡◌, refl, ap, ◌∙◌, Bool, List, arith, count}

module _ {ℓ} {A : Type ℓ} where
  count-permᴰ : (p : A → Bool) {xs ys : List A} → Permᴰ xs ys → count p xs ≡ count p ys
  count-permᴰ p Permᴰ.nil = refl
  count-permᴰ p (Permᴰ.cons {a = x} {b = y} e h) = ground (arith, ap p e, count-permᴰ p h)
  count-permᴰ p (Permᴰ.swap {a = x} {b = y} e f) = ground (arith, ap p e, ap p f)
  count-permᴰ p (Permᴰ.trans h k) = count-permᴰ p h ∙ count-permᴰ p k

  pub count-perm : (p : A → Bool) {xs ys : List A} → Perm xs ys → count p xs ≡ count p ys
  count-perm p h = ∥∥₁_elim h (ℕ_set _ _) (count-permᴰ p)
