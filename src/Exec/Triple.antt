-- ===== src/Exec/Triple.antt =====
-- Total correctness of actions: a triple says that an action, from a world whose requests satisfy
-- `pre`, returns a value (it does not panic) that satisfies `post` together with the requests that
-- are then sent. It says nothing of the cluster, which others change too. One rule for each way to
-- build an action.
use mathlib.Core.Path.{subst}
use apheleia.Base.{
  sym, ◌∙◌, Bool, true, false, Option, none, some, String, List, [], ◌∷◌, ◌++◌, ◌≡◌, refl,
  if◌then◌else◌,
}
use apheleia.Platform.{Platform, Reply, Error, ok, err}
use apheleia.Exec.{
  Request, World, Exec, pure, read, send, eventf, recorded_event, on_reply, on_option, unless_err,
  ◌>>=◌,
}

some-injective : {A : Type 0} {a b : A} → some a ≡ some b → a ≡ b
some-injective h = cc

pub record Triple {P : Platform} {A : Type 0} (pre : List Request → Type 0) (m : Exec P A)
    (post : A → List Request → Type 0) : Type 0 where
  pub at : (w : World P) → pre w.requests → (a : A) × ((m w).0 ≡ some a) × post a (m w).1.requests

module _ {P : Platform} {A : Type 0} {pre : List Request → Type 0}
    {post : A → List Request → Type 0} where
  pub Triple-pure :
      (a : A) → ((rs : List Request) → pre rs → post a rs) → Triple {P = P} pre (pure a) post
  unfolding pure
  Triple-pure a h = record { at = λ w p. (a, refl, h w.requests p) }

  pub Triple-read :
      (f : P.Cluster → A × P.Cluster)
      → ((c : P.Cluster) (rs : List Request) → pre rs → post (f c).0 rs)
      → Triple {P = P} pre (read f) post
  unfolding read
  Triple-read f h = record { at = λ w p. ((f w.cluster).0, refl, h w.cluster w.requests p) }

  pub Triple-send :
      (r : Request) (f : P.Cluster → A × P.Cluster)
      → ((c : P.Cluster) (rs : List Request) → pre rs → post (f c).0 (rs ++ (r ∷ [])))
      → Triple {P = P} pre (send r f) post
  unfolding send
  Triple-send r f h = record { at = λ w p. ((f w.cluster).0, refl, h w.cluster w.requests p) }

  pub Triple-if :
      (b : Bool) (m n : Exec P A)
      → (b ≡ true → Triple pre m post)
      → (b ≡ false → Triple pre n post)
      → Triple pre (if b then m else n) post
  Triple-if true m n hm hn = hm refl
  Triple-if false m n hm hn = hn refl

module _ {P : Platform} {A B : Type 0} {pre : List Request → Type 0}
    {post : B → List Request → Type 0} where
  pub Triple-bind :
      (mid : A → List Request → Type 0) (m : Exec P A) (f : A → Exec P B)
      → Triple pre m mid
      → ((a : A) → Triple (mid a) (f a) post)
      → Triple pre (m >>= f) post
  unfolding ◌>>=◌
  Triple-bind mid m f hm hf = record {
    at = λ w p.
        let (a, e, q) = hm.at w p in let (b, e', r) = (hf a).at (m w).1 q in (b, rw e e', rw e r);
  }

module _ {P : Platform} {A B : Type 0} {pre : List Request → Type 0}
    {post : B → List Request → Type 0} where
  pub Triple-reply :
      (r : Reply A) (f : Error → Exec P B) (g : A → Exec P B)
      → ((e : Error) → r ≡ err e → Triple pre (f e) post)
      → ((a : A) → r ≡ ok a → Triple pre (g a) post)
      → Triple pre (on_reply r f g) post
  unfolding on_reply
  Triple-reply (err e) f g hf hg = hf e refl
  Triple-reply (ok a) f g hf hg = hg a refl

  pub Triple-option :
      (o : Option A) (m : Exec P B) (f : A → Exec P B)
      → (o ≡ none → Triple pre m post)
      → ((a : A) → o ≡ some a → Triple pre (f a) post)
      → Triple pre (on_option o m f) post
  unfolding on_option
  Triple-option none m f hm hf = hm refl
  Triple-option (some a) m f hm hf = hf a refl

module _ {P : Platform} {A B : Type 0} {pre : List Request → Type 0}
    {post : Reply B → List Request → Type 0} where
  -- What follows a call that may fail: `mid` holds of its reply.
  pub Triple-unless_err :
      (mid : Reply A → List Request → Type 0) (m : Exec P (Reply A)) (f : A → Exec P (Reply B))
      → Triple pre m mid
      → ((a : A) → Triple (mid (ok a)) (f a) post)
      → ((e : Error) (rs : List Request) → mid (err e) rs → post (err e) rs)
      → Triple pre (unless_err m f) post
  unfolding unless_err
  Triple-unless_err mid m f hm hf he =
      Triple-bind mid m (λ r. on_reply r (λ e. pure (err e)) f) hm
        (elim [ err e ↦ Triple-pure (err e) (he e) | ok a ↦ hf a ])

module _ {P : Platform} {pre post' : List Request → Type 0} where
  -- Events are requests too.
  pub Triple-eventf :
      (kind reason format : String) (arguments : List String)
      → ((rs : List Request)
          → pre rs
          → post' (rs ++ (recorded_event kind reason format arguments ∷ [])))
      → Triple {P = P} pre (eventf kind reason format arguments) (λ _. post')
  unfolding eventf
  Triple-eventf kind reason format arguments h = Triple-send _ _ (λ c rs p. h rs p)

module _ {P : Platform} {A : Type 0} where
  pub Triple_consequence :
      (pre pre' : List Request → Type 0) (post post' : A → List Request → Type 0) (m : Exec P A)
      → ((rs : List Request) → pre' rs → pre rs)
      → ((a : A) (rs : List Request) → post a rs → post' a rs)
      → Triple pre m post
      → Triple pre' m post'
  Triple_consequence pre pre' post post' m f g h = record {
    at = λ w p. let (a, e, q) = h.at w (f w.requests p) in (a, e, g a (m w).1.requests q);
  }

  -- What holds before an action may be used in the proof about it.
  pub Triple-given :
      (Q : Type 0) (m : Exec P A) (post : A → List Request → Type 0)
      → (Q → Triple (λ _. Unit {0}) m post)
      → Triple (λ _. Q) m post
  Triple-given Q m post h = record { at = λ w q. (h q).at w tt }

  pub Triple-given_and :
      (Q : Type 0) (pre : List Request → Type 0) (m : Exec P A) (post : A → List Request → Type 0)
      → (Q → Triple pre m post)
      → Triple (λ rs. Q × pre rs) m post
  Triple-given_and Q pre m post h = record { at = λ w (q, p). (h q).at w p }

module _ {P : Platform} {A B : Type 0} {pre : List Request → Type 0} where
  -- A read and what follows it, at every reply that the read can have.
  pub Triple-read_bind :
      (post : B → List Request → Type 0) (f : P.Cluster → A × P.Cluster) (g : A → Exec P B)
      → ((c : P.Cluster) → Triple pre (g (f c).0) post)
      → Triple pre (read f >>= g) post
  unfolding ◌>>=◌
  Triple-read_bind post f g h = record {
    at = λ w p. (h w.cluster).at (record w { cluster = (f w.cluster).1 }) p;
  }

module _ {P : Platform} {A B : Type 0} {pre : List Request → Type 0} where
  pub Triple-read_unless_err :
      (post : Reply B → List Request → Type 0) (f : P.Cluster → Reply A × P.Cluster)
      (g : A → Exec P (Reply B))
      → ((c : P.Cluster) (a : A) → (f c).0 ≡ ok a → Triple pre (g a) post)
      → ((e : Error) (rs : List Request) → pre rs → post (err e) rs)
      → Triple pre (unless_err (read f) g) post
  unfolding unless_err
  Triple-read_unless_err post f g h k =
      Triple-read_bind post f (λ r. on_reply r (λ e. pure (err e)) g)
        λ c. Triple-reply _ _ _ (λ e _. Triple-pure (err e) (k e)) (h c)

module _ {P : Platform} {A : Type 0} where
  -- Two statements about one action.
  pub Triple-both :
      (pre : List Request → Type 0) (m : Exec P A) (post post' : A → List Request → Type 0)
      → Triple pre m post
      → Triple pre m post'
      → Triple pre m (λ a rs. post a rs × post' a rs)
  Triple-both pre m post post' h h' = record {
    at = λ w p.
        let (a, e, q) = h.at w p in
        let (b, e', q') = h'.at w p in
        let same : b ≡ a = some-injective (sym e' ∙ e) in
        (a, e, (q, subst (λ x. post' x (m w).1.requests) same q'));
  }
