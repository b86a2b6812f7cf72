-- ===== src/Reconciler/Component/Progress/Entries.antt =====
-- The loop of handleComponentBuildReceived in pkg/reconciler/componentbuild/componentbuild.go: the
-- entries that it writes, and what they say.
use mathlib.Core.List.{map, append_assoc}
use apheleia.Base.{
  ℕ, ◌+◌, String, ◌≡◌, refl, ◌≢◌, true, false, List, [], ◌∷◌, ◌++◌, arith, All, All-append, count,
  ap, ◌∙◌, if◌then◌else◌,
}
use apheleia.Base.Dict.{Dict, insert-fresh}
use apheleia.Api.{ArtifactState, ComponentBuild}
use apheleia.Platform.{Platform, Reply, Error, ok, err, ArtifactBuild}
use apheleia.Platform.Laws.{IsFaithful}
use apheleia.Reconciler.Artifact.State.{IsStateOf}
use apheleia.Reconciler.Component.{
  is_pending, set_artifact, add_outstanding, new_artifact_build, empty_artifact_build,
}

abbrev pub keys : Dict ArtifactState → List String
keys = map (λ (gav, _). gav)

-- The artifacts that are neither deployed nor failed.
abbrev pub pending : Dict ArtifactState → ℕ
pending = count (λ (_, v). is_pending v)

-- The ComponentBuild after the loop has written these entries.
abbrev pub extend : Dict ArtifactState → ComponentBuild → ComponentBuild
extend new cb = record cb {
  status = record cb.status {
    artifact_state = cb.status.artifact_state ++ new;
    outstanding = cb.status.outstanding + pending new;
  };
}

-- The artifact has no entry yet.
abbrev pub IsFresh : String → Dict ArtifactState → Type 0
IsFresh gav = All (λ (k, _). k ≢ gav)

-- No artifact is named twice, and none has an entry yet.
abbrev pub AreFresh : List String → Dict ArtifactState → Type 0
AreFresh [] m = Unit
AreFresh (gav ∷ gavs) m = IsFresh gav m × All (λ g. gav ≢ g) gavs × AreFresh gavs m

pub extend_one :
    (gav : String) (state : ArtifactState) (cb : ComponentBuild)
    → IsFresh gav cb.status.artifact_state
    → (if is_pending state
        then add_outstanding (set_artifact gav state cb)
        else set_artifact gav state cb)
      ≡ extend ((gav, state) ∷ []) cb
unfolding set_artifact add_outstanding
extend_one gav state cb h = rw (insert-fresh gav state cb.status.artifact_state h) (ground arith)

pub extend_more :
    (gav : String) (state : ArtifactState) (new : Dict ArtifactState) (cb : ComponentBuild)
    → extend new (extend ((gav, state) ∷ []) cb) ≡ extend ((gav, state) ∷ new) cb
extend_more gav state new cb =
    rw (append_assoc cb.status.artifact_state ((gav, state) ∷ []) new) (ground arith)

IsFresh-append :
    (gav g : String) (v : ArtifactState) (m : Dict ArtifactState)
    → IsFresh g m
    → gav ≢ g
    → IsFresh g (m ++ ((gav, v) ∷ []))
IsFresh-append gav g v m h n = All-append (λ (k, _). k ≢ g) m ((gav, v) ∷ []) h (n, tt)

pub AreFresh-append :
    (gav : String) (v : ArtifactState) (gavs : List String) (m : Dict ArtifactState)
    → All (λ g. gav ≢ g) gavs
    → AreFresh gavs m
    → AreFresh gavs (m ++ ((gav, v) ∷ []))
AreFresh-append gav v [] m n h = tt
AreFresh-append gav v (g ∷ gavs) m n h =
    (IsFresh-append gav g v m h.0 n.0, h.1, AreFresh-append gav v gavs m n.1 h.2)

module _ (P : Platform) where
  -- A read has said that the artifact has no ArtifactBuild.
  pub record IsAbsent (ns gav : String) : Type 0 where
    pub cluster : P.Cluster
    pub error : Error
    pub answers :
        (P.get_artifact_build (record { namespace = ns; name = P.create_abr_name gav }) cluster).0
        ≡ err error
    pub says : P.is_not_found error ≡ true

  -- Where the loop has an artifact's ArtifactBuild from: a read of it, its creation after a read
  -- that said that there is none, or, after a read with another error, Go's zero value.
  pub data Source (ns gav : String) (abr : ArtifactBuild) : Type 0 where
    was_read :
        (c : P.Cluster)
        → (P.get_artifact_build (record { namespace = ns; name = P.create_abr_name gav }) c).0
          ≡ ok abr
        → Source ns gav abr
    was_created :
        (c : P.Cluster) (cb : ComponentBuild)
        → IsAbsent ns gav
        → cb.metadata.namespace ≡ ns
        → (P.create_artifact_build (new_artifact_build P cb gav) c).0 ≡ ok abr
        → abr.state ≡ ""
        → Source ns gav abr
    was_unreadable :
        (c : P.Cluster) (e : Error)
        → (P.get_artifact_build (record { namespace = ns; name = P.create_abr_name gav }) c).0
          ≡ err e
        → P.is_not_found e ≡ false
        → abr ≡ empty_artifact_build
        → Source ns gav abr

  -- An artifact's entry says how far its ArtifactBuild is.
  pub record IsEntry (ns : String) (entry : String × ArtifactState) : Type 0 where
    pub abr : ArtifactBuild
    pub source : Source ns entry.0 abr
    pub state : IsStateOf P abr entry.1

  -- What the loop's body leaves of an artifact, unless it failed.
  abbrev pub Visited : ComponentBuild → String → Reply ComponentBuild → Type 0
  Visited cb gav (err e) = Unit
  Visited cb gav (ok cb') =
      (v : ArtifactState) × (cb' ≡ extend ((gav, v) ∷ []) cb)
      × IsEntry cb.metadata.namespace (gav, v)

  -- What the loop leaves.
  abbrev pub AllVisited : ComponentBuild → List String → Reply ComponentBuild → Type 0
  AllVisited cb gavs (err e) = Unit
  AllVisited cb gavs (ok cb') =
      (new : Dict ArtifactState) × (cb' ≡ extend new cb)
      × (keys new ≡ gavs)
      × All (IsEntry cb.metadata.namespace) new

  pub AllVisited-more :
      (cb : ComponentBuild) (gav : String) (v : ArtifactState) (gavs : List String)
      (r : Reply ComponentBuild)
      → IsEntry cb.metadata.namespace (gav, v)
      → AllVisited (extend ((gav, v) ∷ []) cb) gavs r
      → AllVisited cb (gav ∷ gavs) r
  AllVisited-more cb gav v gavs (err e) i h = tt
  AllVisited-more cb gav v gavs (ok cb') i (new, e, k, is) =
      ((gav, v) ∷ new, e ∙ extend_more gav v new cb, ap (λ ks. gav ∷ ks) k, (i, is))

  -- The ArtifactBuild, if it was created, came of this ComponentBuild.
  abbrev pub IsNew : ComponentBuild → String → Reply ArtifactBuild → Type 0
  IsNew cb gav (err e) = Unit
  IsNew cb gav (ok created) = (created.state ≡ "") × Source cb.metadata.namespace gav created

  pub create-IsNew :
      (F : IsFaithful P) (cb : ComponentBuild) (gav : String) (c : P.Cluster)
      (r : Reply ArtifactBuild)
      → IsAbsent cb.metadata.namespace gav
      → (P.create_artifact_build (new_artifact_build P cb gav) c).0 ≡ r
      → IsNew cb gav r
  unfolding new_artifact_build
  create-IsNew F cb gav c (err e) a h = tt
  create-IsNew F cb gav c (ok created) a h =
      let e = F.create-state _ created c h in (e, was_created c cb a refl h e)
