-- ===== src/Tests/Witnesses.antt =====
-- The theorems at concrete data: the ComponentBuild of the scenario, in the cluster in memory.
use apheleia.Base.{◌≡◌, refl, some, none, true, false, List, [], ◌∷◌, ◌++◌, All}
use apheleia.Api.{ComponentBuild}
use apheleia.Platform.{Reply, ok, err}
use apheleia.Exec.{World, Request, on_reply, ◌>>=◌}
use apheleia.Reconciler.Component.{config_of, handle_component_build_received}
use apheleia.Reconciler.Component.Status.{
  Wrote, Outcome, configured, config_key, handle_component_build_received-status,
}
use apheleia.Reconciler.Component.Outcome.{Reports, handle_component_build_received_complete}
use apheleia.Reconciler.Component.Success.{handle_component_build_received-ok}
use apheleia.Reconciler.Artifact.{dependency_build_name, get_dependency_build, deploy_artifact}
use apheleia.Reconciler.Artifact.Deploy.{Deployed, runs_of, deploy_artifact-requests}
use apheleia.Reconciler.Notify.{notify_result}
use apheleia.Reconciler.Notify.Requests.{Notified, notify_result-requests}
use apheleia.Reconciler.Dispatch.{dispatch, reconcile}
use apheleia.Reconciler.Dispatch.Reads.{reads, reconcile-reads}
use apheleia.Reconciler.Runs.{handle_artifact_build_received}
use apheleia.Reconciler.Total.{reconcile-returns}
use apheleia.Reconciler.Isolation.{reconcile-namespace}
use apheleia.Reconciler.Isolation.Parts.{InNamespace}
use apheleia.Reconciler.Watches.{
  changed_artifact_build, map_object, reconcile_each, map_object-handle,
}
use apheleia.Tests.Memory.{memory, memory-IsFaithful, memory-IsReliable, memory-IsScoped}
use apheleia.Tests.Scenario.{start, test_cb, at_key, gav, test_abr, test_ra, test_db, test_config}

abbrev world : World memory
world = record { cluster = start; requests = [] }

handle_component_build_received-status_example :
    (r : Reply (Unit {0})) × ((handle_component_build_received memory test_cb world).0 ≡ some r)
    × Wrote
        (Outcome memory test_cb (configured (memory.get_config_map (config_key test_cb) start).0))
        r
        (handle_component_build_received memory test_cb world).1.requests
handle_component_build_received-status_example =
    handle_component_build_received-status memory memory-IsFaithful test_cb world (tt, tt)

reconcile-returns_example :
    (r : Reply (Unit {0})) × ((reconcile memory (at_key "test") world).0 ≡ some r)
    × ((new : List Request) × ((reconcile memory (at_key "test") world).1.requests ≡ [] ++ new))
reconcile-returns_example = reconcile-returns memory (at_key "test") world

handle_component_build_received-ok_example :
    ((handle_component_build_received memory test_cb world).0 ≡ some (ok tt))
    × Wrote
        (Outcome memory test_cb (configured (memory.get_config_map (config_key test_cb) start).0))
        (ok tt)
        (handle_component_build_received memory test_cb world).1.requests
handle_component_build_received-ok_example =
    handle_component_build_received-ok memory memory-IsReliable memory-IsFaithful test_cb world
      (tt, tt)

reconcile-namespace_example :
    (r : Reply (Unit {0})) × ((reconcile memory (at_key "test") world).0 ≡ some r)
    × All (InNamespace "default") (reconcile memory (at_key "test") world).1.requests
reconcile-namespace_example =
    reconcile-namespace memory memory-IsScoped memory-IsFaithful (at_key "test") world refl

-- The ComponentBuild of the scenario with a pull request, when its artifact has failed.
abbrev failed_cb : ComponentBuild
failed_cb = record test_cb {
  spec = record test_cb.spec { pr_url = "https://test.com/pr/1" };
  status = record test_cb.status {
    state = "ComponentBuildFailed";
    artifact_state =
        (gav, record { artifact_build = "abr"; failed = true; built = false; deployed = false })
        ∷ [];
  };
}

notify_result-requests_example :
    (r : Reply (Unit {0})) × ((notify_result memory failed_cb world).0 ≡ some r)
    × Notified memory failed_cb
        (record { amount = 1073741824 })
        []
        (notify_result memory failed_cb world).1.requests
notify_result-requests_example =
    notify_result-requests memory memory-IsFaithful failed_cb (record { amount = 1073741824 }) refl
      world

abbrev built_world : World memory
built_world = record {
  cluster = record start {
    artifact_builds = test_abr ∷ [];
    rebuilt_artifacts = test_ra ∷ [];
    dependency_builds = test_db ∷ [];
  };
  requests = [];
}

deploy_artifact-requests_example :
    (r : Reply (Unit {0})) × ((deploy_artifact memory test_abr
        (config_of test_config.contents)
        built_world).0
      ≡ some r)
    × Deployed memory test_abr
        (config_of test_config.contents)
        (some test_db)
        (λ db.
          (runs_of memory test_abr
            (config_of test_config.contents)
            (get_dependency_build memory test_abr built_world).1.cluster
            db).0)
        []
        (deploy_artifact memory test_abr (config_of test_config.contents) built_world).1.requests
unfolding get_dependency_build dependency_build_name ◌>>=◌ on_reply
deploy_artifact-requests_example =
    deploy_artifact-requests memory test_abr (config_of test_config.contents) built_world
      (some test_db) refl

map_object-handle_example :
    reconcile_each memory (map_object (changed_artifact_build test_abr)) built_world
    ≡ (handle_artifact_build_received memory test_abr built_world).1
map_object-handle_example =
    map_object-handle memory (changed_artifact_build test_abr) built_world refl

handle_component_build_received_complete_example :
    (r : Reply (Unit {0})) × ((handle_component_build_received memory test_cb world).0 ≡ some r)
    × Wrote
        (Reports memory test_cb (configured (memory.get_config_map (config_key test_cb) start).0))
        r
        (handle_component_build_received memory test_cb world).1.requests
handle_component_build_received_complete_example =
    handle_component_build_received_complete memory memory-IsFaithful test_cb world (tt, tt)

reconcile-reads_example :
    (reconcile memory (at_key "test") world ≡ (elim (reads memory (at_key "test") start).0 [
      | err e ↦ (some (err e), record world { cluster = (reads memory (at_key "test") start).1 })
      | ok f ↦ dispatch memory f (record world { cluster = (reads memory (at_key "test") start).1 })
    ]))
    × (dispatch memory (record { abr = none; cb = none; tr = none; pr = none }) world
        ≡ (some (ok tt), world))
reconcile-reads_example = reconcile-reads memory (at_key "test") world
