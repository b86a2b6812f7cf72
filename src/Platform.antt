-- ===== src/Platform.antt =====
-- What the operator takes from other projects: the resources of the JVM build service, of Tekton
-- and of Kubernetes that it reads and writes, the client to the cluster, and the library functions
-- that it calls. The resources have the fields that the operator uses. The client and the
-- functions are the fields of `Platform`, a parameter of everything below.
pub mod Laws
use apheleia.Base.{ℕ, String, Bool, Option, List}
use apheleia.Base.Dict.{Dict}
use apheleia.Api.{ComponentBuild, ComponentBuildList, ArtifactState}
use apheleia.Api.Meta.{ObjectMeta, NamespacedName}

-- Go's `error`.
pub record Error : Type 0 where
  pub reason : String
  pub message : String

-- The pair (value, err) of a Go function: the value, or an error that is not nil.
pub data Reply {ℓ} (A : Type ℓ) : Type ℓ where
  ok : A → Reply A
  err : Error → Reply A

-- jvm-build-service: ArtifactBuild, DependencyBuild and RebuiltArtifact
pub record ArtifactBuild : Type 0 where
  pub metadata : ObjectMeta
  pub gav : String
  pub state : String

pub record DependencyBuild : Type 0 where
  pub metadata : ObjectMeta

pub record RebuiltArtifact : Type 0 where
  pub metadata : ObjectMeta

-- core/v1
pub record ConfigMap : Type 0 where
  pub contents : Dict String

pub record Quantity : Type 0 where
  pub amount : ℕ

-- knative's apis.Condition; a run that has no condition yet has `none`.
pub record Condition : Type 0 where
  pub status : String

-- Tekton's v1beta1
pub record Param : Type 0 where
  pub name : String
  pub string_val : String
  pub kind : String

pub record TaskRef : Type 0 where
  pub name : String
  pub kind : String

pub record TaskRun : Type 0 where
  pub metadata : ObjectMeta
  pub task_ref : Option TaskRef
  pub params : List Param
  pub completion_time : Option ℕ
  pub succeeded : Option Condition

pub record WorkspaceBinding : Type 0 where
  pub name : String
  pub access_modes : List String
  pub storage : Quantity

pub record PipelineRun : Type 0 where
  pub metadata : ObjectMeta
  pub pipeline_ref : Option String
  pub params : List Param
  pub workspaces : List WorkspaceBinding
  pub completion_time : Option ℕ
  pub succeeded : Option Condition

pub record Platform : Type 1 where
  -- All that lies outside the operator, other controllers and sources of chance included. Every
  -- call takes the cluster and returns it, so that anything may change between two calls.
  pub Cluster : Type 0
  -- client.Get
  pub get_component_build : NamespacedName → Cluster → Reply ComponentBuild × Cluster
  pub get_artifact_build : NamespacedName → Cluster → Reply ArtifactBuild × Cluster
  pub get_task_run : NamespacedName → Cluster → Reply TaskRun × Cluster
  pub get_pipeline_run : NamespacedName → Cluster → Reply PipelineRun × Cluster
  pub get_config_map : NamespacedName → Cluster → Reply ConfigMap × Cluster
  pub get_rebuilt_artifact : NamespacedName → Cluster → Reply RebuiltArtifact × Cluster
  pub get_dependency_build : NamespacedName → Cluster → Reply DependencyBuild × Cluster
  -- client.List in a namespace, and for the runs with one label and its value
  pub list_component_builds : String → Cluster → Reply ComponentBuildList × Cluster
  pub list_task_runs : String → String → String → Cluster → Reply (List TaskRun) × Cluster
  pub list_pipeline_runs : String → String → String → Cluster → Reply (List PipelineRun) × Cluster
  -- client.Create, which hands back the object as the server made it
  pub create_artifact_build : ArtifactBuild → Cluster → Reply ArtifactBuild × Cluster
  pub create_task_run : TaskRun → Cluster → Reply (Unit {0}) × Cluster
  pub create_pipeline_run : PipelineRun → Cluster → Reply (Unit {0}) × Cluster
  -- client.Update and client.Status().Update
  pub update_dependency_build : DependencyBuild → Cluster → Reply (Unit {0}) × Cluster
  pub update_status : ComponentBuild → Cluster → Reply (Unit {0}) × Cluster
  -- Go's range over a map: its entries, in an order that may differ from one loop to the next
  pub range : Dict ArtifactState → Cluster → List (String × ArtifactState) × Cluster
  -- errors.IsNotFound
  pub is_not_found : Error → Bool
  -- artifactbuild.CreateABRName
  pub create_abr_name : String → String
  -- (*apis.Condition).IsTrue and IsUnknown, which accept a nil receiver
  pub is_true : Option Condition → Bool
  pub is_unknown : Option Condition → Bool
  -- controllerutil.SetOwnerReference and SetControllerReference, on the metadata of the owned
  -- object
  pub set_owner_reference : ArtifactBuild → ObjectMeta → Reply ObjectMeta
  pub set_controller_reference : ComponentBuild → ObjectMeta → Reply ObjectMeta
  -- resource.ParseQuantity
  pub parse_quantity : String → Reply Quantity
  -- jvmbs.ArtifactBuildStateFailed, …Missing and …Complete
  pub artifact_build_state_failed : String
  pub artifact_build_state_missing : String
  pub artifact_build_state_complete : String
  -- constants of Tekton and of Kubernetes
  pub param_type_string : String
  pub cluster_task_kind : String
  pub read_write_once : String
  pub event_type_warning : String
