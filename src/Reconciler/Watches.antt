-- ===== src/Reconciler/Watches.antt =====
-- pkg/reconciler/componentbuild/controller.go: which changes lead to which requests.
use apheleia.Base.{◌≡◌, ◌∙◌, ap, Option, none, some, List, [], ◌∷◌}
use apheleia.Api.Meta.{ObjectMeta, NamespacedName}
use apheleia.Platform.{Platform, Reply, ok, err, ArtifactBuild, PipelineRun, TaskRun}
use apheleia.Exec.{World, Exec, on_option}
use apheleia.Reconciler.Runs.{
  handle_artifact_build_received, handle_task_run_received, handle_pipeline_run_received,
}
use apheleia.Reconciler.Dispatch.{Found, dispatch, reconcile}
use apheleia.Reconciler.Dispatch.Reads.{reads, reconcile-reads}

-- The map functions of the three watches.
unfoldable pub artifact_build_requests : ArtifactBuild → List NamespacedName
artifact_build_requests artifact_build =
    record { namespace = artifact_build.metadata.namespace; name = artifact_build.metadata.name }
    ∷ []

unfoldable pub pipeline_run_requests : PipelineRun → List NamespacedName
pipeline_run_requests pipeline_run =
    record { namespace = pipeline_run.metadata.namespace; name = pipeline_run.metadata.name } ∷ []

unfoldable pub task_run_requests : TaskRun → List NamespacedName
task_run_requests task_run =
    record { namespace = task_run.metadata.namespace; name = task_run.metadata.name } ∷ []

-- An object that changes in a watched kind.
pub data WatchedObject : Type 0 where
  changed_artifact_build : ArtifactBuild → WatchedObject
  changed_pipeline_run : PipelineRun → WatchedObject
  changed_task_run : TaskRun → WatchedObject

unfoldable pub map_object : WatchedObject → List NamespacedName
unfolding artifact_build_requests pipeline_run_requests task_run_requests
map_object (changed_artifact_build o) = artifact_build_requests o
map_object (changed_pipeline_run o) = pipeline_run_requests o
map_object (changed_task_run o) = task_run_requests o

abbrev pub metadata_of : WatchedObject → ObjectMeta
metadata_of (changed_artifact_build o) = o.metadata
metadata_of (changed_pipeline_run o) = o.metadata
metadata_of (changed_task_run o) = o.metadata

-- The key of the object.
abbrev pub key_of : WatchedObject → NamespacedName
key_of o = record { namespace = (metadata_of o).namespace; name = (metadata_of o).name }

-- What a read of all four kinds gives where there is this object alone.
abbrev pub alone : WatchedObject → Found
alone (changed_artifact_build o) = record { abr = some o; cb = none; tr = none; pr = none }
alone (changed_pipeline_run o) = record { abr = none; cb = none; tr = none; pr = some o }
alone (changed_task_run o) = record { abr = none; cb = none; tr = some o; pr = none }

module _ (P : Platform) where
  -- The handler for the object's kind.
  abbrev pub handle : WatchedObject → Exec P (Reply (Unit {0}))
  handle (changed_artifact_build o) = handle_artifact_build_received P o
  handle (changed_pipeline_run o) = handle_pipeline_run_received P o
  handle (changed_task_run o) = handle_task_run_received P o

  -- The world after Reconcile was called for each of the requests.
  abbrev pub reconcile_each : List NamespacedName → World P → World P
  reconcile_each [] w = w
  reconcile_each (key ∷ keys) w = reconcile_each keys (reconcile P key w).1

  one_request :
      (o : WatchedObject) (w : World P)
      → (reads P (key_of o) w.cluster).0 ≡ ok (alone o)
      → reconcile_each (key_of o ∷ []) w
        ≡ (dispatch P (alone o) (record w { cluster = (reads P (key_of o) w.cluster).1 })).1
  one_request o w h =
      ap (λ x. x.1)
        ((reconcile-reads P (key_of o) w).0
          ∙ ap
              (λ r. elim r as (λ _. Option (Reply (Unit {0})) × World P) [
                | err e ↦ (some (err e), record w { cluster = (reads P (key_of o) w.cluster).1 })
                | ok f ↦ dispatch P f (record w { cluster = (reads P (key_of o) w.cluster).1 })
              ])
              h)

  -- A change of a watched object reaches the handler for its kind: if the client answers under the
  -- object's namespace and name with that object, and for the three other kinds with the error that
  -- there is no such object, then the calls of Reconcile for the requests that the change leads to
  -- leave the world as one call of the handler with the object does, after those reads.
  pub map_object-handle :
      (o : WatchedObject) (w : World P)
      → (reads P (key_of o) w.cluster).0 ≡ ok (alone o)
      → reconcile_each (map_object o) w
        ≡ (handle o (record w { cluster = (reads P (key_of o) w.cluster).1 })).1
  unfolding map_object dispatch on_option
  map_object-handle (changed_artifact_build o) w h = one_request (changed_artifact_build o) w h
  map_object-handle (changed_pipeline_run o) w h = one_request (changed_pipeline_run o) w h
  map_object-handle (changed_task_run o) w h = one_request (changed_task_run o) w h
