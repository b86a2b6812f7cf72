-- ===== src/Api/DeepCopy/Independence.antt =====
-- pkg/apis/apheleia/v1alpha1/zz_generated.deepcopy.go: DeepCopy and DeepCopyObject of a
-- ComponentBuild.
use apheleia.Base.{
  ℕ, ◌≤◌, String, ◌≡◌, refl, ap, ◌≢◌, none, some, List, [], OptionAll, length, arith,
}
use apheleia.Base.Cells.{put, at-put}
use apheleia.Base.Dict.{Dict}
use apheleia.Api.{ArtifactState}
use apheleia.Api.DeepCopy.{
  Machinery, Store, Reference, Build, build_deep_copy_into, build_deep_copy, build_deep_copy_object,
  deep_copy, deep_copy_object,
}
use apheleia.Api.DeepCopy.Copies.{seen, InCells, IsAny, IsMap}
use apheleia.Api.DeepCopy.Builds.{
  CopiesMeta, view_of, IsStored, IsCopy, view_of-HasGrown, build_deep_copy_into-IsCopy,
}

some-injective : {B : Type 0} {a b : B} → some a ≡ some b → a ≡ b
some-injective h = cc

module _ {A : Type 0} where
  -- A write to the cell of one reference is not seen through another, which is to another cell.
  seen-put :
      (cells : List (List A)) (a : ℕ) (v : List A) (r : Reference)
      → OptionAll (λ b. a ≢ b) r
      → seen (put a v cells) r ≡ seen cells r
  seen-put cells a v none h = refl
  seen-put cells a v (some b) h = ap some (at-put [] a b v cells h)

  new_apart :
      (Q : List A → Type 0) (cells : List (List A)) (r copied : Reference) (a : ℕ)
      → InCells Q cells r
      → OptionAll (λ b. length cells ≤ b) copied
      → r ≡ some a
      → OptionAll (λ b. a ≢ b) copied
  new_apart Q cells none copied a i n e = absurd cc
  new_apart Q cells (some c) none a i n e = tt
  new_apart Q cells (some c) (some b) a (i, _) n e =
      let same : c ≡ a = some-injective e in omega (arith, i, n, same)

  old_apart :
      (Q : List A → Type 0) (cells : List (List A)) (r copied : Reference) (a : ℕ)
      → InCells Q cells r
      → OptionAll (λ b. length cells ≤ b) copied
      → copied ≡ some a
      → OptionAll (λ b. a ≢ b) r
  old_apart Q cells none copied a i n e = tt
  old_apart Q cells (some c) none a i n e = absurd cc
  old_apart Q cells (some c) (some b) a (i, _) n e =
      let same : b ≡ a = some-injective e in omega (arith, i, n, same)

module _ (L : Machinery) (K : CopiesMeta L) where
  -- A write to the array or to the map of `x` does not change what `y` shows.
  pub record IsUnaffected (h : Store L) (x y : Build L) : Type 0 where
    pub artifacts :
        (a : ℕ) (v : List String)
        → x.spec.artifacts ≡ some a
        → view_of L K (record h { strings = put a v h.strings }) y ≡ view_of L K h y
    pub artifact_state :
        (a : ℕ) (v : Dict ArtifactState)
        → x.status.artifact_state ≡ some a
        → view_of L K (record h { states = put a v h.states }) y ≡ view_of L K h y

  copy-IsUnaffected :
      (h h' : Store L) (x copied : Build L)
      → IsStored L K h x
      → IsCopy L K h h' x copied
      → IsUnaffected h' x copied
  copy-IsUnaffected h h' x copied s c = record {
    artifacts = λ a v e.
        rw
          (seen-put h'.strings a v copied.spec.artifacts
            (new_apart IsAny h.strings _ _ a s.artifacts c.new_artifacts e))
          refl;
    artifact_state = λ a v e.
        rw
          (seen-put h'.states a v copied.status.artifact_state
            (new_apart IsMap h.states _ _ a s.artifact_state c.new_states e))
          refl;
  }

  original-IsUnaffected :
      (h h' : Store L) (x copied : Build L)
      → IsStored L K h x
      → IsCopy L K h h' x copied
      → IsUnaffected h' copied x
  original-IsUnaffected h h' x copied s c = record {
    artifacts = λ a v e.
        rw
          (seen-put h'.strings a v x.spec.artifacts
            (old_apart IsAny h.strings _ _ a s.artifacts c.new_artifacts e))
          refl;
    artifact_state = λ a v e.
        rw
          (seen-put h'.states a v x.status.artifact_state
            (old_apart IsMap h.states _ _ a s.artifact_state c.new_states e))
          refl;
  }

  -- Where the copies of metadata do as documented: DeepCopyObject of a ComponentBuild whose
  -- references are to memory, and whose map has each key once, returns what DeepCopy does, a
  -- ComponentBuild that shows what the original has shown and still shows. A later write to the
  -- array or the map of the one is not seen in the other, in either direction. Of nil they return
  -- nil, and leave the memory as it is.
  pub deep_copy-IsUnaffected :
      (x : Build L) (h : Store L)
      → IsStored L K h x
      → (copied : Build L) × (h' : Store L) × (build_deep_copy_object L (some x) h
          ≡ (some copied, h'))
        × (build_deep_copy L (some x) h ≡ (some copied, h'))
        × (view_of L K h' copied ≡ view_of L K h x)
        × (view_of L K h' x ≡ view_of L K h x)
        × IsUnaffected h' x copied
        × IsUnaffected h' copied x
        × (build_deep_copy_object L none h ≡ (none, h))
  unfolding deep_copy deep_copy_object
  deep_copy-IsUnaffected x h s =
      let c = build_deep_copy_into-IsCopy L K x h s in
      (
        (build_deep_copy_into L x h).0,
        (build_deep_copy_into L x h).1,
        refl,
        refl,
        c.same,
        view_of-HasGrown L K h _ x c.grown s,
        copy-IsUnaffected h _ x _ s c,
        original-IsUnaffected h _ x _ s c,
        refl,
      )
