-- ===== src/Exec/Keeps.antt =====
-- Invariants of the requests, for actions of which nothing else is needed: an action keeps `I` if
-- it returns (it does not panic) and `I` holds of the requests after it when it held before. The
-- rules are for `search`.
use apheleia.Base.{
  Bool, true, false, Option, none, some, List, [], ◌∷◌, ◌++◌, ◌≡◌, refl, if◌then◌else◌,
}
use apheleia.Platform.{Platform, Reply, Error, ok, err}
use apheleia.Exec.{Request, Exec, pure, read, send, on_reply, on_option, unless_err, ◌>>=◌}
use apheleia.Exec.Triple.{
  Triple, Triple-pure, Triple-read, Triple-send, Triple-bind, Triple-unless_err,
}

pub record Keeps {P : Platform} {A : Type 0} (I : List Request → Type 0) (m : Exec P A)
    : Type 0 where
  pub triple : Triple I m (λ _. I)

module _ {P : Platform} {A : Type 0} {I : List Request → Type 0} where
  pub Keeps-pure : (a : A) → Keeps {P = P} I (pure a)
  Keeps-pure a = record { triple = Triple-pure a (λ rs p. p) }

  pub Keeps-read : (f : P.Cluster → A × P.Cluster) → Keeps {P = P} I (read f)
  Keeps-read f = record { triple = Triple-read f (λ c rs p. p) }

  pub Keeps-send :
      (r : Request) (f : P.Cluster → A × P.Cluster)
      → ((rs : List Request) → I rs → I (rs ++ (r ∷ [])))
      → Keeps {P = P} I (send r f)
  Keeps-send r f h = record { triple = Triple-send r f (λ c. h) }

  pub Keeps-if :
      (b : Bool) (m n : Exec P A)
      → (b ≡ true → Keeps I m)
      → (b ≡ false → Keeps I n)
      → Keeps I (if b then m else n)
  Keeps-if true m n hm hn = hm refl
  Keeps-if false m n hm hn = hn refl

module _ {P : Platform} {A B : Type 0} {I : List Request → Type 0} where
  pub Keeps-bind :
      (m : Exec P A) (f : A → Exec P B) → Keeps I m → ((a : A) → Keeps I (f a)) → Keeps I (m >>= f)
  Keeps-bind m f hm hf = record { triple = Triple-bind (λ _. I) m f hm.triple (λ a. (hf a).triple) }

  pub Keeps-unless_err :
      (m : Exec P (Reply A)) (f : A → Exec P (Reply B))
      → Keeps I m
      → ((a : A) → Keeps I (f a))
      → Keeps I (unless_err m f)
  Keeps-unless_err m f hm hf = record {
    triple = Triple-unless_err (λ _. I) m f hm.triple (λ a. (hf a).triple) (λ e rs p. p);
  }

  pub Keeps-reply :
      (r : Reply A) (f : Error → Exec P B) (g : A → Exec P B)
      → ((e : Error) → Keeps I (f e))
      → ((a : A) → Keeps I (g a))
      → Keeps I (on_reply r f g)
  unfolding on_reply
  Keeps-reply (err e) f g hf hg = hf e
  Keeps-reply (ok a) f g hf hg = hg a

  pub Keeps-option :
      (o : Option A) (m : Exec P B) (f : A → Exec P B)
      → Keeps I m
      → ((a : A) → Keeps I (f a))
      → Keeps I (on_option o m f)
  unfolding on_option
  Keeps-option none m f hm hf = hm
  Keeps-option (some a) m f hm hf = hf a

pub ruleset keeps_rules =
    (Keeps-pure, Keeps-read, Keeps-if, Keeps-bind, Keeps-unless_err, Keeps-reply, Keeps-option)
