-- ===== src/Tests/Loops.antt =====
-- The theorems on the runs that the reconciler starts at concrete data: on the cluster in memory, the
-- deployment of the artifact of the scenario and the notification of its ComponentBuild.
use apheleia.Base.{◌≡◌, refl, true, false, some, [], ◌∷◌, count, arith, eq_iff}
use apheleia.Platform.{DependencyBuild, TaskRun, PipelineRun, Reply, Quantity}
use apheleia.Platform.Laws.{IsOwning}
use apheleia.Exec.{World, updated_status, on_reply, ◌>>=◌}
use apheleia.Reconciler.Artifact.{
  DeployConfig, dependency_build_name, get_dependency_build, artifact_state, deploy_artifact,
  deploy_task_run,
}
use apheleia.Reconciler.Notify.{notify_pipeline_run}
use apheleia.Reconciler.Component.{handle_component_build_received}
use apheleia.Reconciler.Component.Bounds.{is_notification}
use apheleia.Reconciler.Runs.{handle_task_run_received, handle_pipeline_run_received}
use apheleia.Reconciler.Runs.Mark.{marked_with}
use apheleia.Reconciler.Runs.Notified.{notified}
use apheleia.Reconciler.Loops.Deployed.{MarksFirst, deploy_task_run-handle_task_run_received}
use apheleia.Reconciler.Loops.Deployed as Deployed
use apheleia.Reconciler.Loops.Notification.{notify_pipeline_run-handle_pipeline_run_received}
use apheleia.Reconciler.Loops.Notification as Notification
use apheleia.Tests.Memory.{Memory, memory}
use apheleia.Tests.Scenario.{start, test_cb, test_abr, test_ra, test_db}

memory-IsOwning : IsOwning memory
memory-IsOwning = record {
  set_owner_reference-owner =
      λ a m ns none_yet. (_, refl, record { namespace = refl; owners = rw none_yet refl });
  set_controller_reference-owner =
      λ cb m ns none_yet. (_, refl, record { namespace = refl; owners = rw none_yet refl });
}

abbrev test_conf : DeployConfig
test_conf = record { url = "dummy-repo"; owner = "dummy-owner"; domain = "dummy-domain" }

-- The cluster while the artifact is deployed, and after it.
abbrev cluster_with : DependencyBuild → Memory
cluster_with db = record start {
  artifact_builds = test_abr ∷ [];
  rebuilt_artifacts = test_ra ∷ [];
  dependency_builds = db ∷ [];
}

abbrev deploying_world : World memory
deploying_world = record { cluster = cluster_with test_db; requests = [] }

abbrev deployed_world : World memory
deployed_world = record { cluster = cluster_with (marked_with test_db); requests = [] }

abbrev deployment : TaskRun
deployment = record (deploy_task_run memory test_abr test_db test_conf) {
  completion_time = some 1;
  succeeded = some (record { status = "True" });
}

deployment-IsSuccessOf :
    Deployed.IsSuccessOf memory (deploy_task_run memory test_abr test_db test_conf) deployment
deployment-IsSuccessOf = record {
  namespace = refl;
  owners = refl;
  label = refl;
  time = 1;
  ends = refl;
  succeeds = refl;
}

before_mark : (get_dependency_build memory test_abr deploying_world).0 ≡ some (some test_db)
unfolding get_dependency_build dependency_build_name on_reply ◌>>=◌
before_mark = refl

after_mark :
    (get_dependency_build memory test_abr deployed_world).0 ≡ some (some (marked_with test_db))
unfolding get_dependency_build dependency_build_name on_reply ◌>>=◌
after_mark = refl

deploy_task_run-handle_task_run_received_example :
    MarksFirst memory test_abr test_db deploying_world
      (handle_task_run_received memory deployment deploying_world)
    × ((artifact_state memory test_abr deployed_world).0
        ≡ some (record {
          artifact_build = "com.test:test:1.0-abr";
          failed = false;
          built = true;
          deployed = true;
        }))
    × ((deploy_artifact memory test_abr test_conf deployed_world).1.requests ≡ [])
deploy_task_run-handle_task_run_received_example =
    deploy_task_run-handle_task_run_received memory memory-IsOwning test_abr test_db test_conf
      deployment deploying_world deployed_world deployment-IsSuccessOf
      (ground (arith, eq_iff "com.test:test:1.0-abr" "")) (ground (arith, eq_iff "test-db" "")) refl
      before_mark refl after_mark

abbrev a_quantity : Quantity
a_quantity = record { amount = 1 }

abbrev notification : PipelineRun
notification = record (notify_pipeline_run memory test_cb "Success" a_quantity) {
  metadata = record (notify_pipeline_run memory test_cb "Success" a_quantity).metadata {
    labels = ("tekton.dev/pipeline", "component-build-notifier") ∷ [];
  };
  completion_time = some 1;
  succeeded = some (record { status = "True" });
}

notification-IsSuccessOf :
    Notification.IsSuccessOf memory
      (notify_pipeline_run memory test_cb "Success" a_quantity)
      notification
unfolding notify_pipeline_run
notification-IsSuccessOf = record {
  namespace = refl;
  owners = refl;
  label = refl;
  time = 1;
  ends = refl;
  succeeds = refl;
}

abbrev start_world : World memory
start_world = record { cluster = start; requests = [] }

notify_pipeline_run-handle_pipeline_run_received_example :
    ((handle_pipeline_run_received memory notification start_world).1.requests
      ≡ updated_status (notified test_cb) ∷ [])
    × ((r : Reply (Unit {0})) × ((handle_component_build_received memory
            (notified test_cb)
            start_world).0
          ≡ some r)
        × (count is_notification
              (handle_component_build_received memory (notified test_cb) start_world).1.requests
            ≡ 0))
notify_pipeline_run-handle_pipeline_run_received_example =
    notify_pipeline_run-handle_pipeline_run_received memory memory-IsOwning test_cb "Success"
      a_quantity notification test_cb start_world start_world notification-IsSuccessOf
      (ground (arith, eq_iff "test" "")) refl
