-- ===== src/Manager.antt =====
-- pkg/controller/controller.go: NewManager; pkg/apis/apheleia/v1alpha1/register.go: the types that
-- it registers; pkg/reconciler/componentbuild/controller.go and componentbuild.go: the reconciler
-- that it sets up. The libraries of Kubernetes and Tekton are the fields of `Library`.
pub mod Steps
pub mod Schemes
pub mod Options
use apheleia.Base.{ℕ, String, Bool, true, false, Option, none, some, List, [], ◌∷◌}
use apheleia.Api.Meta.{NamespacedName}
use apheleia.Platform.{Reply, ok, err, ArtifactBuild, PipelineRun, TaskRun}
use apheleia.Exec.{on_reply, on_option}
use apheleia.Reconciler.{deploy_task_label}
use apheleia.Reconciler.Watches.{artifact_build_requests, pipeline_run_requests, task_run_requests}
use apheleia.Manager.Steps.{Step, succeed, lift, ◌>>=◌, ◌>>◌}

-- The kinds that the cache holds.
pub data Kind : Type 0 where
  component_build_kind : Kind
  artifact_build_kind : Kind
  pipeline_run_kind : Kind
  task_run_kind : Kind

pub record GroupVersion : Type 0 where
  pub group : String
  pub version : String

-- schema.GroupKind and schema.GroupResource
pub record GroupKind : Type 0 where
  pub group : String
  pub kind : String

pub record GroupResource : Type 0 where
  pub group : String
  pub resource : String

-- selection.Operator
pub data Operator : Type 0 where
  exists : Operator

-- The fields of ctrl.Options that are set, over the types of a scheme and of a cache's builder.
pub record ManagerOptions (Scheme NewCache : Type 0) : Type 0 where
  pub metrics_bind_address : String
  pub port : ℕ
  pub health_probe_bind_address : String
  pub leader_election : Bool
  pub leader_election_id : String
  pub scheme : Option Scheme
  pub new_cache : Option NewCache

-- A watch with its function from a changed object to requests.
pub data Watch : Type 0 where
  watch_artifact_build : (ArtifactBuild → List NamespacedName) → Watch
  watch_pipeline_run : (PipelineRun → List NamespacedName) → Watch
  watch_task_run : (TaskRun → List NamespacedName) → Watch

-- ReconcileArtifactBuild
pub record ReconcileArtifactBuild (Client Scheme Recorder : Type 0) : Type 0 where
  pub client : Client
  pub scheme : Scheme
  pub event_recorder : Recorder

pub record Library : Type 1 where
  -- All outside state, time included.
  pub State : Type 0
  pub Config : Type 0
  pub Scheme : Type 0
  pub Selector : Type 0
  pub Requirement : Type 0
  pub NewCache : Type 0
  pub Manager : Type 0
  pub Client : Type 0
  pub Recorder : Type 0
  -- wait.PollImmediate, with the interval and the timeout in seconds
  pub poll_immediate : ℕ → ℕ → Step State Bool → Step State (Unit {0})
  -- apiextensionsclient.NewForConfigOrDie, which panics or returns a client, and the Get of a
  -- CustomResourceDefinition by its name
  pub CrdClient : Type 0
  pub new_crd_client_or_die : Config → Option CrdClient
  pub get_crd : CrdClient → String → Step State (Unit {0})
  -- runtime.NewScheme, and what other projects add to a scheme
  pub new_scheme : Scheme
  pub add_client_go : Scheme → Reply Scheme
  pub add_jvmbs : Scheme → Reply Scheme
  pub add_pipeline : Scheme → Reply Scheme
  -- (*Scheme).AddKnownTypes, metav1.AddToGroupVersion and (*SchemeBuilder).AddToScheme
  pub add_types : Scheme → GroupVersion → List String → Scheme
  pub add_to_group_version : Scheme → GroupVersion → Scheme
  pub build_scheme : List (Scheme → Reply Scheme) → Scheme → Reply Scheme
  -- labels.NewSelector, labels.NewRequirement and Selector.Add, which returns a selector
  pub new_selector : Selector
  pub new_requirement : String → Operator → List String → Reply Requirement
  pub add : Selector → Requirement → Selector
  -- cache.BuilderWithOptions, by the selectors of the kinds
  pub builder_with_options : List (Kind × Option Selector) → NewCache
  -- ctrl.NewManager, and the manager's methods
  pub new_ctrl_manager : Config → ManagerOptions Scheme NewCache → Step State Manager
  pub get_client : Manager → Client
  pub get_scheme : Manager → Scheme
  pub get_event_recorder_for : Manager → String → Recorder
  pub add_healthz_check : Manager → String → Step State (Unit {0})
  pub add_readyz_check : Manager → String → Step State (Unit {0})
  pub start_manager : Manager → Step State (Unit {0})
  -- The builder of controllers: For, Watches and Complete
  pub complete_controller :
      Manager
      → Kind
      → List Watch
      → ReconcileArtifactBuild Client Scheme Recorder
      → Step State (Unit {0})

abbrev pub scheme_group_version : GroupVersion
scheme_group_version = record { group = "apheleia.io"; version = "v1alpha1" }

-- Kind and Resource of the group
unfoldable pub kind_of_group : String → GroupKind
kind_of_group kind = record { group = scheme_group_version.group; kind = kind }

unfoldable pub resource_of_group : String → GroupResource
resource_of_group resource = record { group = scheme_group_version.group; resource = resource }

module _ (L : Library) where
  abbrev pub Options : Type 0
  Options = ManagerOptions L.Scheme L.NewCache

  unfoldable pub add_known_types : L.Scheme → Reply L.Scheme
  add_known_types scheme = ok (
      L.add_to_group_version
        (L.add_types scheme scheme_group_version ("ComponentBuild" ∷ "ComponentBuildList" ∷ []))
        scheme_group_version)

  -- v1alpha1.AddToScheme
  unfoldable pub add_to_scheme : L.Scheme → Reply L.Scheme
  unfolding add_known_types
  add_to_scheme = L.build_scheme (add_known_types ∷ [])

  unfoldable pub new_reconciler : L.Manager → ReconcileArtifactBuild L.Client L.Scheme L.Recorder
  new_reconciler mgr = record {
    client = L.get_client mgr;
    scheme = L.get_scheme mgr;
    event_recorder = L.get_event_recorder_for mgr "ComponentBuild";
  }

  unfoldable pub setup_new_reconciler_with_manager : L.Manager → Step L.State (Unit {0})
  unfolding artifact_build_requests pipeline_run_requests task_run_requests new_reconciler
  setup_new_reconciler_with_manager mgr =
      L.complete_controller mgr component_build_kind
        (watch_artifact_build artifact_build_requests
          ∷ watch_pipeline_run pipeline_run_requests
          ∷ watch_task_run task_run_requests
          ∷ [])
        (new_reconciler mgr)

  -- The condition of the poll: an error of the Get is logged, and the poll goes on.
  unfoldable pub crd_exists : L.CrdClient → Step L.State Bool
  crd_exists client s =
      let (r, s') = L.get_crd client "taskruns.tekton.dev" s in
      (on_reply r (λ e. ok false) (λ _. ok true), s')

  -- The registrations, in the order of the code.
  unfoldable pub registered : Step L.State L.Scheme
  unfolding add_to_scheme
  registered = do
    s ← lift (L.add_client_go L.new_scheme)
    s' ← lift (L.add_jvmbs s)
    s'' ← lift (L.add_pipeline s')
    lift (add_to_scheme s'')

  abbrev pub selectors_by_object : L.Selector → List (Kind × Option L.Selector)
  selectors_by_object deploy_task =
      (component_build_kind, none)
      ∷ (artifact_build_kind, none)
      ∷ (pipeline_run_kind, none)
      ∷ (task_run_kind, some deploy_task)
      ∷ []

  -- What follows the making of the client. The result of `deployTask.Add(*requirement)` is dropped.
  unfoldable pub manager_with : L.CrdClient → L.Config → Options → Step L.State L.Manager
  unfolding crd_exists registered setup_new_reconciler_with_manager
  manager_with client cfg options = do
    L.poll_immediate 5 300 (crd_exists client)
    scheme ← registered
    requirement ← lift (L.new_requirement deploy_task_label exists [])
    let deploy_task = L.new_selector
    mgr ← L.new_ctrl_manager cfg (record options {
      scheme = some scheme;
      new_cache = some (L.builder_with_options (selectors_by_object deploy_task));
    })
    setup_new_reconciler_with_manager mgr
    succeed mgr

  -- NewManager, which has no result where it panics.
  unfoldable pub new_manager : L.Config → Options → L.State → Option (Reply L.Manager) × L.State
  unfolding manager_with
  new_manager cfg options s =
      on_option (L.new_crd_client_or_die cfg) (none, s)
        λ client. let (r, s') = manager_with client cfg options s in (some r, s')
