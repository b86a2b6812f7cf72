-- ===== src/Reconciler/Runs/Owners.antt =====
-- pkg/reconciler/componentbuild/componentbuild.go: which owner reference the loops choose.
use apheleia.Base.{String, ◌≡◌, refl, Bool, true, false, ◌||◌, ◌==◌, List, [], ◌∷◌, ◌++◌, All}
use apheleia.Base.Text.{equal_fold}
use apheleia.Api.Meta.{OwnerReference}
use apheleia.Reconciler.Artifact.{dependency_build_name}
use apheleia.Reconciler.Runs.{owner_name}

-- The reference is of one of the two kinds, in any case of its letters.
abbrev pub is_of_kind : String → String → OwnerReference → Bool
is_of_kind kind kinds o = equal_fold o.kind kind || equal_fold o.kind kinds

-- The search for the owner of a run gives the name of the first reference of its kind, and the
-- empty text where there is none.
pub owner_name-first :
    (kind kinds : String) (front : List OwnerReference)
    → All (λ o. is_of_kind kind kinds o ≡ false) front
    → (owner_name kind kinds front ≡ "")
      × ((o : OwnerReference) (back : List OwnerReference)
          → is_of_kind kind kinds o ≡ true
          → owner_name kind kinds (front ++ (o ∷ back)) ≡ o.name)
unfolding owner_name
owner_name-first kind kinds [] h = (refl, λ o back e. rw e refl)
owner_name-first kind kinds (o ∷ front) (h, hs) =
    let (none_found, found) = owner_name-first kind kinds front hs in
    (rw h none_found, λ o' back e. rw h (found o' back e))

-- No reference is to a DependencyBuild.
abbrev HasNoBuild : List OwnerReference → Type 0
HasNoBuild = All (λ o. (o.kind == "DependencyBuild") ≡ false)

dependency_build_name-kept :
    (back : List OwnerReference) (name : String)
    → HasNoBuild back
    → dependency_build_name back name ≡ name
unfolding dependency_build_name
dependency_build_name-kept [] name h = refl
dependency_build_name-kept (o ∷ back) name (h, hs) = rw h (dependency_build_name-kept back name hs)

dependency_build_name-found :
    (back front : List OwnerReference) (o : OwnerReference) (name : String)
    → HasNoBuild back
    → (o.kind == "DependencyBuild") ≡ true
    → dependency_build_name (front ++ (o ∷ back)) name ≡ o.name
unfolding dependency_build_name
dependency_build_name-found back [] o name h e =
    rw (dependency_build_name, e) (dependency_build_name-kept back o.name h)
dependency_build_name-found back (o' ∷ front) o name h e =
    dependency_build_name-found back front o _ h e

-- The search for the DependencyBuild of a RebuiltArtifact gives the name of the last reference to a
-- DependencyBuild, and the name that it began with where there is none.
pub dependency_build_name-last :
    (back : List OwnerReference)
    → All (λ o. (o.kind == "DependencyBuild") ≡ false) back
    → ((name : String) → dependency_build_name back name ≡ name)
      × ((front : List OwnerReference) (o : OwnerReference) (name : String)
          → (o.kind == "DependencyBuild") ≡ true
          → dependency_build_name (front ++ (o ∷ back)) name ≡ o.name)
dependency_build_name-last back h = (
  λ name. dependency_build_name-kept back name h,
  λ front o name e. dependency_build_name-found back front o name h e,
)
