-- ===== src/Exec/Succeeds.antt =====
-- Actions that return a value and no error, with rules for `search`.
use apheleia.Base.{Bool, true, false, List, ◌≡◌, refl, if◌then◌else◌}
use apheleia.Platform.{Platform, Reply, Error, ok, err}
use apheleia.Platform.Laws.{IsOk}
use apheleia.Exec.{Request, Exec, pure, read, send, on_reply, unless_err, ◌>>=◌}
use apheleia.Exec.Triple.{
  Triple, Triple-pure, Triple-read, Triple-send, Triple-bind, Triple-unless_err,
}
use apheleia.Exec.Keeps.{Keeps}

abbrev pub Any : List Request → Type 0
Any _ = Unit

pub record Succeeds {P : Platform} {A : Type 0} (m : Exec P (Reply A)) : Type 0 where
  pub triple : Triple Any m (λ r _. IsOk r)

module _ {P : Platform} {A : Type 0} where
  pub Succeeds-pure : (a : A) → Succeeds {P = P} (pure (ok a))
  Succeeds-pure a = record { triple = Triple-pure (ok a) (λ rs p. tt) }

  pub Succeeds-read :
      (f : P.Cluster → Reply A × P.Cluster)
      → ((c : P.Cluster) → IsOk (f c).0)
      → Succeeds {P = P} (read f)
  Succeeds-read f h = record { triple = Triple-read f (λ c rs p. h c) }

  pub Succeeds-send :
      (r : Request) (f : P.Cluster → Reply A × P.Cluster)
      → ((c : P.Cluster) → IsOk (f c).0)
      → Succeeds {P = P} (send r f)
  Succeeds-send r f h = record { triple = Triple-send r f (λ c rs p. h c) }

  pub Succeeds-if :
      (b : Bool) (m n : Exec P (Reply A))
      → (b ≡ true → Succeeds m)
      → (b ≡ false → Succeeds n)
      → Succeeds (if b then m else n)
  Succeeds-if true m n hm hn = hm refl
  Succeeds-if false m n hm hn = hn refl

module _ {P : Platform} {A B : Type 0} where
  -- Of the first part it is enough that it returns.
  pub Succeeds-bind :
      (m : Exec P A) (f : A → Exec P (Reply B))
      → Keeps Any m
      → ((a : A) → Succeeds (f a))
      → Succeeds (m >>= f)
  Succeeds-bind m f hm hf = record {
    triple = Triple-bind (λ _. Any) m f hm.triple (λ a. (hf a).triple);
  }

  pub Succeeds-unless_err :
      (m : Exec P (Reply A)) (f : A → Exec P (Reply B))
      → Succeeds m
      → ((a : A) → Succeeds (f a))
      → Succeeds (unless_err m f)
  Succeeds-unless_err m f hm hf = record {
    triple =
        Triple-unless_err (λ r _. IsOk r) m f hm.triple (λ a. (hf a).triple) (λ e rs p. absurd p);
  }

  -- The branch for an error is not taken.
  pub Succeeds-reply :
      (r : Reply A) (f : Error → Exec P (Reply B)) (g : A → Exec P (Reply B))
      → IsOk r
      → ((a : A) → Succeeds (g a))
      → Succeeds (on_reply r f g)
  unfolding on_reply
  Succeeds-reply (err e) f g h hg = absurd h
  Succeeds-reply (ok a) f g h hg = hg a

  pub Succeeds-reply_either :
      (r : Reply A) (f : Error → Exec P (Reply B)) (g : A → Exec P (Reply B))
      → ((e : Error) → Succeeds (f e))
      → ((a : A) → Succeeds (g a))
      → Succeeds (on_reply r f g)
  unfolding on_reply
  Succeeds-reply_either (err e) f g hf hg = hf e
  Succeeds-reply_either (ok a) f g hf hg = hg a

pub ruleset succeeds_rules = (
  Succeeds-pure, Succeeds-read, Succeeds-send, Succeeds-if, Succeeds-bind, Succeeds-unless_err,
  Succeeds-reply, Succeeds-reply_either,
)
