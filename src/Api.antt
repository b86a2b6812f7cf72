-- ===== src/Api.antt =====
-- pkg/apis/apheleia/v1alpha1/componentbuild_types.go: the ComponentBuild resource, its status and
-- the state of each of its artifacts. The JSON tags and kubebuilder markers are not modelled.
pub mod Meta
pub mod DeepCopy
use apheleia.Base.{ℕ, String, Bool, true, false, List, [], ◌∷◌, ◌&&◌, if◌then◌else◌}
use apheleia.Base.Dict.{Dict}
use apheleia.Api.Meta.{ObjectMeta}

-- The constants of the type of `Status.State`.
abbrev pub component_build_state_failed : String
component_build_state_failed = "ComponentBuildFailed"

abbrev pub component_build_state_complete : String
component_build_state_complete = "ComponentBuildComplete"

abbrev pub component_build_state_in_progress : String
component_build_state_in_progress = "ComponentBuildBuildInProgress"

pub record ComponentBuildSpec : Type 0 where
  pub scm_url : String
  pub pr_url : String
  pub tag : String
  pub artifacts : List String

pub record ArtifactState : Type 0 where
  pub artifact_build : String
  pub built : Bool
  pub deployed : Bool
  pub failed : Bool

-- `Outstanding` is an int that counts artifacts of the spec from 0, so it stays far below 2 ^ 63.
pub record ComponentBuildStatus : Type 0 where
  pub state : String
  pub outstanding : ℕ
  pub artifact_state : Dict ArtifactState
  pub message : String
  pub result_notified : Bool

pub record ComponentBuild : Type 0 where
  pub metadata : ObjectMeta
  pub spec : ComponentBuildSpec
  pub status : ComponentBuildStatus

pub record ComponentBuildList : Type 0 where
  pub items : List ComponentBuild

-- ArtifactState.Done
unfoldable pub done : ArtifactState → Bool
done as_ = if as_.built && as_.deployed then true else false
