-- ===== src/Tests/Scenario.antt =====
-- The run of pkg/reconciler/componentbuild/componentbuild_test.go: an artifact is requested, built
-- and deployed, and the ComponentBuild is complete in the end.
use mathlib.Core.List.{map}
use apheleia.Base.{String, ◌≡◌, refl, false, some, List, [], ◌∷◌}
use apheleia.Base.Text.{equal_fold}
use apheleia.Api.{ComponentBuild, done}
use apheleia.Api.Meta.{ObjectMeta, NamespacedName, empty_metadata}
use apheleia.Platform.{ArtifactBuild, DependencyBuild, RebuiltArtifact, ConfigMap, TaskRun}
use apheleia.Exec.{World, on_reply, on_option, unless_err, eventf, ◌>>=◌}
use apheleia.Reconciler.Artifact.{
  dependency_build_name, get_dependency_build, artifact_state, any_task_unknown, deploy_task_run,
  start_deploy, deploy_found, deploy_artifact,
}
use apheleia.Reconciler.Notify.{
  any_pipeline_unknown, notifier_message, notify_pipeline_run, create_notification, notify_result,
}
use apheleia.Reconciler.Component.{
  config_of, is_incomplete, reset_status, set_artifact, add_outstanding, is_pending, any_failed,
  track_existing, new_artifact_build, create_missing, visit_artifact, visit_artifacts, must_notify,
  notify_once, complete, in_progress, settle, handle_with_config, handle_component_build_received,
}
use apheleia.Reconciler.Runs.{
  owner_name, has_artifact, assign, allocated, mark_deployed, handle_owners,
  handle_artifact_build_received, task_run_owned, task_run_with_owner, task_run_completed,
  handle_task_run_received, pipeline_run_owned, pipeline_run_with_owner, pipeline_run_completed,
  handle_pipeline_run_received,
}
use apheleia.Reconciler.Dispatch.{fetch, fetch_all, dispatch, reconcile}
use apheleia.Tests.Memory.{Memory, memory}

abbrev pub in_default : String → ObjectMeta
in_default name = record empty_metadata { name = name; namespace = "default" }

abbrev pub at_key : String → NamespacedName
at_key name = record { namespace = "default"; name = name }

abbrev pub gav : String
gav = "com.test:test:1.0"

abbrev pub test_cb : ComponentBuild
test_cb = record {
  metadata = in_default "test";
  spec = record {
    scm_url = "https://test.com/test.git";
    pr_url = "";
    tag = "1.0";
    artifacts = gav ∷ [];
  };
  status = record {
    state = "";
    outstanding = 0;
    artifact_state = [];
    message = "";
    result_notified = false;
  };
}

abbrev pub test_config : ConfigMap
test_config = record {
  contents =
      ("maven-repo", "dummy-repo")
      ∷ ("aws-domain", "dummy-domain")
      ∷ ("aws-owner", "dummy-owner")
      ∷ [];
}

abbrev pub start : Memory
start = record {
  component_builds = test_cb ∷ [];
  artifact_builds = [];
  task_runs = [];
  pipeline_runs = [];
  config_maps = (at_key "apheleia-config", test_config) ∷ [];
  rebuilt_artifacts = [];
  dependency_builds = [];
}

pub run : NamespacedName → Memory → World memory
unfolding done on_reply on_option unless_err eventf ◌>>=◌ dependency_build_name get_dependency_build
    artifact_state any_task_unknown deploy_task_run start_deploy deploy_found deploy_artifact
    any_pipeline_unknown notifier_message notify_pipeline_run create_notification notify_result
    config_of is_incomplete reset_status set_artifact add_outstanding is_pending any_failed
    track_existing new_artifact_build create_missing visit_artifact visit_artifacts must_notify
    notify_once complete in_progress settle handle_with_config handle_component_build_received
    owner_name has_artifact assign allocated mark_deployed handle_owners
    handle_artifact_build_received task_run_owned task_run_with_owner task_run_completed
    handle_task_run_received pipeline_run_owned pipeline_run_with_owner pipeline_run_completed
    handle_pipeline_run_received fetch fetch_all dispatch reconcile equal_fold
run key m = (reconcile memory key (record { cluster = m; requests = [] })).1

-- The first reconciliation creates the ArtifactBuild.
requested : Memory
unfolding run
requested = (run (at_key "test") start).cluster

requested_artifact_builds :
    requested.artifact_builds
    ≡ record { metadata = in_default "com.test:test:1.0-abr"; gav = gav; state = "" } ∷ []
unfolding requested
requested_artifact_builds = refl

-- The build service completes the artifact, with a DependencyBuild and a RebuiltArtifact.
abbrev pub test_abr : ArtifactBuild
test_abr = record {
  metadata = in_default "com.test:test:1.0-abr";
  gav = gav;
  state = "ArtifactBuildComplete";
}

abbrev pub test_db : DependencyBuild
test_db = record { metadata = in_default "test-db" }

abbrev pub test_ra : RebuiltArtifact
test_ra = record {
  metadata = record (in_default "com.test:test:1.0-abr") {
    owner_references = record { kind = "DependencyBuild"; name = "test-db" } ∷ [];
  };
}

abbrev built : Memory → Memory
built m = record m {
  artifact_builds = test_abr ∷ [];
  rebuilt_artifacts = test_ra ∷ [];
  dependency_builds = test_db ∷ [];
}

-- The second, of the ArtifactBuild, starts the deployment.
deploying : Memory
unfolding run requested
deploying = (run (at_key "com.test:test:1.0-abr") (built requested)).cluster

-- The run succeeds.
abbrev finish : List TaskRun → List TaskRun
finish [] = []
finish (r ∷ rs) =
    record r { completion_time = some 1; succeeded = some (record { status = "True" }) } ∷ finish rs

-- The third, of the TaskRun, marks the DependencyBuild and completes the ComponentBuild.
completed : Memory
unfolding run deploying
completed =
    (run (at_key "com.test:test:1.0-abr-deploy-task-1")
      (record deploying { task_runs = finish deploying.task_runs })).cluster

abbrev params_of : List TaskRun → List (List (String × String))
params_of [] = []
params_of (r ∷ rs) = map (λ p. (p.name, p.string_val)) r.params ∷ params_of rs

deploying_params :
    params_of deploying.task_runs
    ≡ (("DOMAIN", "dummy-domain")
        ∷ ("OWNER", "dummy-owner")
        ∷ ("REPO", "dummy-repo")
        ∷ ("FORCE", "false")
        ∷ ("ARTIFACT", "com.test:test:1.0-abr")
        ∷ [])
      ∷ []
unfolding deploying
deploying_params = refl

abbrev states : List ComponentBuild → List String
states [] = []
states (cb ∷ cbs) = cb.status.state ∷ states cbs

deploying_state : states deploying.component_builds ≡ "ComponentBuildBuildInProgress" ∷ []
unfolding deploying
deploying_state = refl

completed_state : states completed.component_builds ≡ "ComponentBuildComplete" ∷ []
unfolding completed
completed_state = refl
