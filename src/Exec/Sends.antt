-- ===== src/Exec/Sends.antt =====
-- How many requests of some kind an action sends at most, for actions that return. The rules are
-- for `search`; a rule for two parts that both send takes their shares.
use apheleia.Base.{
  ℕ, ◌+◌, ◌≤◌, Bool, true, false, Option, none, some, [], ◌∷◌, ◌≡◌, count, count-append, arith,
  if◌then◌else◌,
}
use apheleia.Platform.{Platform, Reply, Error, ok, err}
use apheleia.Exec.{Request, Exec, pure, read, send, on_reply, on_option, unless_err, ◌>>=◌}
use apheleia.Exec.Triple.{
  Triple, Triple-pure, Triple-read, Triple-send, Triple-bind, Triple-unless_err, Triple_consequence,
}

-- At most `n` of the requests that the action sends pass the test.
pub record Sends {P : Platform} {A : Type 0} (p : Request → Bool) (n : ℕ) (m : Exec P A)
    : Type 0 where
  pub triple : (k : ℕ) → Triple (λ rs. count p rs ≤ k) m (λ _ rs. count p rs ≤ k + n)

module _ {P : Platform} {A : Type 0} {p : Request → Bool} {n : ℕ} where
  pub Sends-pure : (a : A) → Sends {P = P} p n (pure a)
  Sends-pure a = record { triple = λ k. Triple-pure a (λ rs h. omega arith) }

  pub Sends-read : (f : P.Cluster → A × P.Cluster) → Sends {P = P} p n (read f)
  Sends-read f = record { triple = λ k. Triple-read f (λ c rs h. omega arith) }

  pub Sends-send :
      (r : Request) (f : P.Cluster → A × P.Cluster)
      → (if p r then 1 else 0) ≤ n
      → Sends {P = P} p n (send r f)
  Sends-send r f h = record {
    triple =
        λ k. Triple-send r f (λ c rs q. rw (count-append p rs (r ∷ [])) (ground (arith, h, q)));
  }

  pub Sends-if :
      (b : Bool) (m m' : Exec P A) → Sends p n m → Sends p n m' → Sends p n (if b then m else m')
  Sends-if true m m' h h' = h
  Sends-if false m m' h h' = h'

module _ {P : Platform} {A B : Type 0} {p : Request → Bool} where
  pub Sends-bind :
      (i j n : ℕ) (m : Exec P A) (f : A → Exec P B)
      → Sends p i m
      → ((a : A) → Sends p j (f a))
      → i + j ≡ n
      → Sends p n (m >>= f)
  Sends-bind i j n m f hm hf e = record {
    triple = λ k.
        Triple_consequence _ _ (λ _ rs. count p rs ≤ k + i + j) (λ _ rs. count p rs ≤ k + n) _
          (λ rs h. h) (λ b rs h. omega arith)
          (Triple-bind (λ _ rs. count p rs ≤ k + i) m f (hm.triple k) (λ a. (hf a).triple (k + i)));
  }

  pub Sends-unless_err :
      (i j n : ℕ) (m : Exec P (Reply A)) (f : A → Exec P (Reply B))
      → Sends p i m
      → ((a : A) → Sends p j (f a))
      → i + j ≡ n
      → Sends p n (unless_err m f)
  Sends-unless_err i j n m f hm hf e = record {
    triple = λ k.
        Triple_consequence _ _ (λ _ rs. count p rs ≤ k + i + j) (λ _ rs. count p rs ≤ k + n) _
          (λ rs h. h) (λ b rs h. omega arith)
          (Triple-unless_err (λ _ rs. count p rs ≤ k + i) m f (hm.triple k)
            (λ a. (hf a).triple (k + i)) (λ x rs h. omega arith));
  }

module _ {P : Platform} {A B : Type 0} {p : Request → Bool} {n : ℕ} where
  -- One of the two parts sends none.
  pub Sends-bind_after :
      (m : Exec P A) (f : A → Exec P B)
      → Sends p 0 m
      → ((a : A) → Sends p n (f a))
      → Sends p n (m >>= f)
  Sends-bind_after m f hm hf = Sends-bind 0 n n m f hm hf (omega arith)

  pub Sends-bind_before :
      (m : Exec P A) (f : A → Exec P B)
      → Sends p n m
      → ((a : A) → Sends p 0 (f a))
      → Sends p n (m >>= f)
  Sends-bind_before m f hm hf = Sends-bind n 0 n m f hm hf (omega arith)

  pub Sends-unless_err_after :
      (m : Exec P (Reply A)) (f : A → Exec P (Reply B))
      → Sends p 0 m
      → ((a : A) → Sends p n (f a))
      → Sends p n (unless_err m f)
  Sends-unless_err_after m f hm hf = Sends-unless_err 0 n n m f hm hf (omega arith)

  pub Sends-unless_err_before :
      (m : Exec P (Reply A)) (f : A → Exec P (Reply B))
      → Sends p n m
      → ((a : A) → Sends p 0 (f a))
      → Sends p n (unless_err m f)
  Sends-unless_err_before m f hm hf = Sends-unless_err n 0 n m f hm hf (omega arith)

  pub Sends-reply :
      (r : Reply A) (f : Error → Exec P B) (g : A → Exec P B)
      → ((e : Error) → Sends p n (f e))
      → ((a : A) → Sends p n (g a))
      → Sends p n (on_reply r f g)
  unfolding on_reply
  Sends-reply (err e) f g hf hg = hf e
  Sends-reply (ok a) f g hf hg = hg a

  pub Sends-option :
      (o : Option A) (m : Exec P B) (f : A → Exec P B)
      → Sends p n m
      → ((a : A) → Sends p n (f a))
      → Sends p n (on_option o m f)
  unfolding on_option
  Sends-option none m f hm hf = hm
  Sends-option (some a) m f hm hf = hf a

pub ruleset sends_rules = (
  Sends-pure, Sends-read, Sends-if, Sends-bind_after, Sends-bind_before, Sends-unless_err_after,
  Sends-unless_err_before, Sends-reply, Sends-option,
)
