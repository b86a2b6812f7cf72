-- ===== src/Base/Cells.antt =====
-- Memory of one kind as a list of cells: the address of a cell is its place, and a new cell comes
-- at the end.
use apheleia.Base.{
  ℕ, zero, suc, ◌+◌, ◌≤◌, ◌<◌, ◌≡◌, refl, ◌∙◌, ◌≢◌, List, [], ◌∷◌, ◌++◌, length, arith,
}

module _ {A : Type 0} where
  -- The content of a cell, or the default where there is no such cell.
  abbrev pub at : A → ℕ → List A → A
  at d a [] = d
  at d zero (x ∷ cells) = x
  at d (suc a) (x ∷ cells) = at d a cells

  abbrev pub put : ℕ → A → List A → List A
  put a v [] = []
  put zero v (x ∷ cells) = v ∷ cells
  put (suc a) v (x ∷ cells) = x ∷ put a v cells

  abbrev pub replicate : ℕ → A → List A
  replicate zero x = []
  replicate (suc n) x = x ∷ replicate n x

  pub length-append : (xs ys : List A) → length (xs ++ ys) ≡ length xs + length ys
  length-append [] ys = omega arith
  length-append (x ∷ xs) ys = omega (arith, length-append xs ys)

  pub length-put : (a : ℕ) (v : A) (cells : List A) → length (put a v cells) ≡ length cells
  length-put a v [] = refl
  length-put zero v (x ∷ cells) = refl
  length-put (suc a) v (x ∷ cells) = omega (arith, length-put a v cells)

  pub at-append : (d : A) (a : ℕ) (xs ys : List A) → a < length xs → at d a (xs ++ ys) ≡ at d a xs
  at-append d a [] ys h = absurd (omega (arith, h))
  at-append d zero (x ∷ xs) ys h = refl
  at-append d (suc a) (x ∷ xs) ys h = at-append d a xs ys (omega (arith, h))

  pub at_last : (d x : A) (xs ys : List A) → at d (length xs) (xs ++ (x ∷ ys)) ≡ x
  at_last d x [] ys = refl
  at_last d x (y ∷ xs) ys = at_last d x xs ys

  pub put_last : (x v : A) (xs ys : List A) → put (length xs) v (xs ++ (x ∷ ys)) ≡ xs ++ (v ∷ ys)
  put_last x v [] ys = refl
  put_last x v (y ∷ xs) ys = rw (put_last x v xs ys) refl

  pub at-put :
      (d : A) (a b : ℕ) (v : A) (cells : List A) → a ≢ b → at d b (put a v cells) ≡ at d b cells
  at-put d a b v [] h = refl
  at-put d zero zero v (x ∷ cells) h = absurd (h refl)
  at-put d zero (suc b) v (x ∷ cells) h = refl
  at-put d (suc a) zero v (x ∷ cells) h = refl
  at-put d (suc a) (suc b) v (x ∷ cells) h = at-put d a b v cells (λ e. h (rw e refl))

  -- No cell was changed, and there may be new ones.
  pub record Grows (d : A) (before after : List A) : Type 0 where
    pub keeps : (a : ℕ) → a < length before → at d a after ≡ at d a before
    pub longer : length before ≤ length after

  pub Grows-refl : (d : A) (cells : List A) → Grows d cells cells
  Grows-refl d cells = record { keeps = λ a h. refl; longer = omega arith }

  pub Grows-append : (d : A) (cells new : List A) → Grows d cells (cells ++ new)
  Grows-append d cells new = record {
    keeps = λ a h. at-append d a cells new h;
    longer = omega (arith, length-append cells new);
  }

  pub Grows-trans : (d : A) (x y z : List A) → Grows d x y → Grows d y z → Grows d x z
  Grows-trans d x y z g k = record {
    keeps = λ a h. k.keeps a (omega (arith, h, g.longer)) ∙ g.keeps a h;
    longer = omega (arith, g.longer, k.longer);
  }
