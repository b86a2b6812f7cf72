-- ===== src/Manager/Steps.antt =====
-- Go functions with an error result, over a state outside of them: after an error the rest is not
-- run. Shared by pkg/controller/controller.go and cmd/controller/main.go.
use apheleia.Base.{◌≡◌, refl}
use apheleia.Platform.{Reply, Error, ok, err}

abbrev pub Step : Type 0 → Type 0 → Type 0
Step S A = S → Reply A × S

module _ {S A : Type 0} where
  abbrev pub succeed : A → Step S A
  succeed a s = (ok a, s)

  -- A call that leaves the state as it is.
  abbrev pub lift : Reply A → Step S A
  lift r s = (r, s)

module _ {S A B : Type 0} where
  abbrev next : Reply A × S → (A → Step S B) → Reply B × S
  next (err e, s) f = (err e, s)
  next (ok a, s) f = f a s

  infixl 10 ◌>>=◌ ◌>>◌
  abbrev pub ◌>>=◌ : Step S A → (A → Step S B) → Step S B
  ◌>>=◌ m f s = next (m s) f

  abbrev pub ◌>>◌ : Step S A → Step S B → Step S B
  m >> k = m >>= λ _. k

  -- What holds of a sequence, from what holds after an error of its first step and after its
  -- success.
  pub bind_outcome :
      (Q : Reply B × S → Type 0) (m : Step S A) (f : A → Step S B) (s : S)
      → ((e : Error) (s' : S) → m s ≡ (err e, s') → Q (err e, s'))
      → ((a : A) (s' : S) → m s ≡ (ok a, s') → Q (f a s'))
      → Q ((m >>= f) s)
  bind_outcome Q m f s he hf = by_result (m s) refl
    where
      by_result : (p : Reply A × S) → m s ≡ p → Q (next p f)
      by_result (err e, s') h = he e s' h
      by_result (ok a, s') h = hf a s' h
