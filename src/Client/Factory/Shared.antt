-- ===== src/Client/Factory/Shared.antt =====
-- pkg/client/informers/externalversions/factory.go: an informer of a type is made once and is set
-- running once, however often the methods are called.
use mathlib.Core.Path.{subst}
use apheleia.Base.{
  ℕ, String, ◌≡◌, ◌≢◌, refl, Bool, true, Option, none, some, List, [], ◌∷◌, All, arith, ◌==◌, ap,
  sym, ◌∙◌, Bool-cases, inl, inr, eq_iff, if◌then◌else◌,
}
use apheleia.Base.Dict.{Dict, lookup, insert, lookup-insert}
use apheleia.Client.Factory.{SharedInformerFactory, flag, start_each, start, informer_for}

flag-insert :
    (k j : String) (m : Dict Bool) → flag j (insert k true m) ≡ (if k == j then true else flag j m)
flag-insert k j m = rw (flag, lookup-insert k j true m) (ground arith)

abbrev marked : String → Dict Bool → Dict Bool
marked k started = if flag k started then started else insert k true started

-- A mark stays.
marked-flag :
    (j k : String) (started : Dict Bool) → flag k started ≡ true → flag k (marked j started) ≡ true
marked-flag j k started h = elim (Bool-cases (flag j started)) [
  | inl old ↦ rw old h
  | inr fresh ↦ rw fresh (flag-insert j k started ∙ ground (arith, h))
]

marked-flag_self : (k : String) (started : Dict Bool) → flag k (marked k started) ≡ true
marked-flag_self k started = elim (Bool-cases (flag k started)) [
  | inl old ↦ rw old old
  | inr fresh ↦ rw fresh (flag-insert k k started ∙ ground (arith, eq_iff k k))
]

module _ {Informer : Type 0} where
  -- The informers whose type has no mark.
  abbrev pub idle : List (String × Informer) → Dict Bool → List Informer
  idle [] started = []
  idle ((k, informer) ∷ order) started =
      let rest = idle order started in if flag k started then rest else informer ∷ rest

  -- No type stands twice.
  abbrev pub AreDistinct : List (String × Informer) → Type 0
  AreDistinct [] = Unit
  AreDistinct ((k, _) ∷ order) = All (λ (j, _). k ≢ j) order × AreDistinct order

  -- Each type has a mark.
  abbrev pub AreMarked : List (String × Informer) → Dict Bool → Type 0
  AreMarked order started = All (λ (k, _). flag k started ≡ true) order

  -- A mark on another type changes nothing.
  idle-insert :
      (k : String) (order : List (String × Informer)) (started : Dict Bool)
      → All (λ (j, _). k ≢ j) order
      → idle order (insert k true started) ≡ idle order started
  idle-insert k [] started h = refl
  idle-insert k ((j, informer) ∷ order) started h =
      ground (arith, flag-insert k j started, h.0, eq_iff k j, idle-insert k order started h.1)

  start_each_runs :
      (order : List (String × Informer)) (started : Dict Bool)
      → AreDistinct order
      → (start_each order started).0 ≡ idle order started
  unfolding start_each
  start_each_runs [] started h = refl
  start_each_runs ((k, informer) ∷ order) started h = elim (Bool-cases (flag k started)) [
    | inl marked ↦ rw marked (start_each_runs order started h.1)
    | inr fresh ↦ rw fresh (
        rw (start_each_runs order (insert k true started) h.1)
          (rw (idle-insert k order started h.0) refl))
  ]

  start_each-step :
      (k : String) (informer : Informer) (order : List (String × Informer)) (started : Dict Bool)
      → (start_each ((k, informer) ∷ order) started).1 ≡ (start_each order (marked k started)).1
  unfolding start_each
  start_each-step k informer order started = elim (Bool-cases (flag k started)) [
    | inl old ↦ rw old refl
    | inr fresh ↦ rw fresh refl
  ]

  start_each_keeps :
      (order : List (String × Informer)) (started : Dict Bool) (k : String)
      → flag k started ≡ true
      → flag k (start_each order started).1 ≡ true
  unfolding start_each
  start_each_keeps [] started k h = h
  start_each_keeps ((j, informer) ∷ order) started k h =
      ap (flag k) (start_each-step j informer order started)
      ∙ start_each_keeps order (marked j started) k (marked-flag j k started h)

  -- All that the loop met are marked.
  start_each_marks :
      (order : List (String × Informer)) (started : Dict Bool)
      → AreMarked order (start_each order started).1
  start_each_marks [] started = tt
  start_each_marks ((k, informer) ∷ order) started =
      subst (AreMarked ((k, informer) ∷ order)) (sym (start_each-step k informer order started)) (
        start_each_keeps order (marked k started) k (marked-flag_self k started),
        start_each_marks order (marked k started),
      )

module _ {Client Tweak Informer : Type 0} where
  -- If no type stands twice, Start sets running exactly the informers whose type had no mark, each
  -- once and in the order of the loop, and after it each type has a mark.
  pub start-runs :
      (order : List (String × Informer)) (f : SharedInformerFactory Client Tweak Informer)
      → AreDistinct order
      → ((start order f).0 ≡ idle order f.started_informers)
        × AreMarked order (start order f).1.started_informers
  unfolding start
  start-runs order f h =
      (start_each_runs order f.started_informers h, start_each_marks order f.started_informers)

  informer_for-found :
      (k : String) (new_func : Client → ℕ → Informer)
      (f : SharedInformerFactory Client Tweak Informer) (informer : Informer)
      → lookup k f.informers ≡ some informer
      → informer_for k new_func f ≡ (informer, f)
  unfolding informer_for
  informer_for-found k new_func f informer h = rw (informer_for, h) refl

  informer_for-writes :
      (k : String) (new_func : Client → ℕ → Informer)
      (f : SharedInformerFactory Client Tweak Informer) (o : Option Informer)
      → lookup k f.informers ≡ o
      → lookup k (informer_for k new_func f).1.informers ≡ some (informer_for k new_func f).0
  unfolding informer_for
  informer_for-writes k new_func f (some informer) h = rw (informer_for, h) h
  informer_for-writes k new_func f none h =
      rw (informer_for, h) (lookup-insert k k _ f.informers ∙ ground (arith, eq_iff k k))

  -- A second call of InformerFor for a type gives the informer of the first, and leaves the factory
  -- as it is, whatever function to make an informer it is given.
  pub informer_for-again :
      (k : String) (new_func other : Client → ℕ → Informer)
      (f : SharedInformerFactory Client Tweak Informer)
      → informer_for k other (informer_for k new_func f).1 ≡ informer_for k new_func f
  informer_for-again k new_func other f =
      informer_for-found k other _ _ (informer_for-writes k new_func f _ refl)
