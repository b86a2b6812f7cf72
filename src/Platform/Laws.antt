-- ===== src/Platform/Laws.antt =====
-- Documented behaviour of the platform that some theorems rest on.
use mathlib.Core.List.{Perm}
use apheleia.Base.{String, true, [], ◌∷◌, All, ◌≡◌, ◌≢◌}
use apheleia.Base.Dict.{Dict}
use apheleia.Api.{ArtifactState, ComponentBuild, ComponentBuildList}
use apheleia.Api.Meta.{NamespacedName, ObjectMeta}
use apheleia.Platform.{
  Platform, Reply, ok, err, ArtifactBuild, DependencyBuild, TaskRun, PipelineRun,
}

-- The server makes an ArtifactBuild with the status that was sent, since a new one has none; the
-- states that the build service sets are not the empty text, and the state of a complete build is
-- not that of a failed or of a missing one. A loop over a map visits each of its entries once.
pub record IsFaithful (P : Platform) : Type 0 where
  pub create-state :
      (abr created : ArtifactBuild) (c : P.Cluster)
      → (P.create_artifact_build abr c).0 ≡ ok created
      → created.state ≡ abr.state
  pub failed-ne_empty : P.artifact_build_state_failed ≢ ""
  pub missing-ne_empty : P.artifact_build_state_missing ≢ ""
  pub complete-ne_empty : P.artifact_build_state_complete ≢ ""
  pub complete-ne-failed : P.artifact_build_state_complete ≢ P.artifact_build_state_failed
  pub complete-ne-missing : P.artifact_build_state_complete ≢ P.artifact_build_state_missing
  pub range-perm : (m : Dict ArtifactState) (c : P.Cluster) → Perm (P.range m c).0 m

abbrev pub IsOk {ℓ} : {A : Type ℓ} → Reply A → Type 0
IsOk (ok a) = Unit
IsOk (err e) = ⊥

-- The reply is a value, or the error that there is no such object.
abbrev pub IsAnswer {ℓ} : {A : Type ℓ} → Platform → Reply A → Type 0
IsAnswer P (ok a) = Unit
IsAnswer P (err e) = P.is_not_found e ≡ true

-- The calls on whose errors a handler of a ComponentBuild gives up succeed. (Errors of other calls
-- are logged or taken for an absent object.)
pub record IsReliable (P : Platform) : Type 0 where
  pub config : (k : NamespacedName) (c : P.Cluster) → IsAnswer P (P.get_config_map k c).0
  pub creates : (a : ArtifactBuild) (c : P.Cluster) → IsOk (P.create_artifact_build a c).0
  pub lists :
      (ns label value : String) (c : P.Cluster) → IsOk (P.list_pipeline_runs ns label value c).0
  pub notifies : (r : PipelineRun) (c : P.Cluster) → IsOk (P.create_pipeline_run r c).0
  pub parses : (s : String) → IsOk (P.parse_quantity s)
  pub updates : (cb : ComponentBuild) (c : P.Cluster) → IsOk (P.update_status cb c).0

-- The client looks in the namespace that it is asked for, a created object keeps its namespace, and
-- an owner reference does not change the namespace of the object that it is set on.
pub record IsScoped (P : Platform) : Type 0 where
  pub get_component_build-namespace :
      (k : NamespacedName) (c : P.Cluster) (x : ComponentBuild)
      → (P.get_component_build k c).0 ≡ ok x
      → x.metadata.namespace ≡ k.namespace
  pub get_artifact_build-namespace :
      (k : NamespacedName) (c : P.Cluster) (x : ArtifactBuild)
      → (P.get_artifact_build k c).0 ≡ ok x
      → x.metadata.namespace ≡ k.namespace
  pub get_task_run-namespace :
      (k : NamespacedName) (c : P.Cluster) (x : TaskRun)
      → (P.get_task_run k c).0 ≡ ok x
      → x.metadata.namespace ≡ k.namespace
  pub get_pipeline_run-namespace :
      (k : NamespacedName) (c : P.Cluster) (x : PipelineRun)
      → (P.get_pipeline_run k c).0 ≡ ok x
      → x.metadata.namespace ≡ k.namespace
  pub get_dependency_build-namespace :
      (k : NamespacedName) (c : P.Cluster) (x : DependencyBuild)
      → (P.get_dependency_build k c).0 ≡ ok x
      → x.metadata.namespace ≡ k.namespace
  pub list_component_builds-namespace :
      (ns : String) (c : P.Cluster) (l : ComponentBuildList)
      → (P.list_component_builds ns c).0 ≡ ok l
      → All (λ cb. cb.metadata.namespace ≡ ns) l.items
  pub create_artifact_build-namespace :
      (a x : ArtifactBuild) (c : P.Cluster)
      → (P.create_artifact_build a c).0 ≡ ok x
      → x.metadata.namespace ≡ a.metadata.namespace
  pub set_owner_reference-namespace :
      (a : ArtifactBuild) (m x : ObjectMeta)
      → P.set_owner_reference a m ≡ ok x
      → x.namespace ≡ m.namespace
  pub set_controller_reference-namespace :
      (cb : ComponentBuild) (m x : ObjectMeta)
      → P.set_controller_reference cb m ≡ ok x
      → x.namespace ≡ m.namespace

-- The metadata `x` is `m` with a first owner, of this kind and this name.
pub record IsOwned (m : ObjectMeta) (kind name : String) (x : ObjectMeta) : Type 0 where
  pub namespace : x.namespace ≡ m.namespace
  pub owners : x.owner_references ≡ record { kind = kind; name = name } ∷ []

-- An object that has no owner gets one of its own namespace: a reference to it by its kind and its
-- name.
pub record IsOwning (P : Platform) : Type 0 where
  pub set_owner_reference-owner :
      (a : ArtifactBuild) (m : ObjectMeta)
      → m.namespace ≡ a.metadata.namespace
      → m.owner_references ≡ []
      → (x : ObjectMeta) × (P.set_owner_reference a m ≡ ok x)
        × IsOwned m "ArtifactBuild" a.metadata.name x
  pub set_controller_reference-owner :
      (cb : ComponentBuild) (m : ObjectMeta)
      → m.namespace ≡ cb.metadata.namespace
      → m.owner_references ≡ []
      → (x : ObjectMeta) × (P.set_controller_reference cb m ≡ ok x)
        × IsOwned m "ComponentBuild" cb.metadata.name x
