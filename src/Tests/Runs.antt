-- ===== src/Tests/Runs.antt =====
-- The theorems about runs and their owners at concrete data.
use apheleia.Base.{String, ◌≡◌, refl, true, some, none, List, [], ◌∷◌, ◌++◌, ◌==◌}
use apheleia.Base.Text.{equal_fold}
use apheleia.Api.Meta.{OwnerReference}
use apheleia.Platform.{DependencyBuild, Reply, TaskRun}
use apheleia.Exec.{World, updated_dependency_build}
use apheleia.Reconciler.Artifact.{dependency_build_name}
use apheleia.Reconciler.Runs.{owner_name, mark_deployed, handle_artifact_build_received}
use apheleia.Reconciler.Runs.Mark.{IsMarked, mark_deployed-update}
use apheleia.Reconciler.Runs.Owners.{is_of_kind, owner_name-first, dependency_build_name-last}
use apheleia.Reconciler.Runs.Each.{carried_on, handle_artifact_build_received-concerned}
use apheleia.Reconciler.Dispatch.{Found, dispatch}
use apheleia.Reconciler.Marks.{marks, dispatch-marks}
use apheleia.Tests.Memory.{memory}
use apheleia.Tests.Scenario.{start, test_abr, test_db, in_default}

abbrev idle_world : World memory
idle_world = record { cluster = start; requests = [] }

mark_deployed-update_example :
    ((mark_deployed memory test_db idle_world).0 ≡ some tt)
    × ((marked : DependencyBuild) × ((mark_deployed memory test_db idle_world).1.requests
          ≡ [] ++ (updated_dependency_build marked ∷ []))
        × IsMarked test_db marked)
mark_deployed-update_example = mark_deployed-update memory test_db idle_world

abbrev pod_owner : OwnerReference
pod_owner = record { kind = "Pod"; name = "a-pod" }

owner_name-first_example :
    (owner_name "artifactbuild" "artifactbuilds" (pod_owner ∷ []) ≡ "")
    × ((o : OwnerReference) (back : List OwnerReference)
        → is_of_kind "artifactbuild" "artifactbuilds" o ≡ true
        → owner_name "artifactbuild" "artifactbuilds" (pod_owner ∷ o ∷ back) ≡ o.name)
unfolding equal_fold
owner_name-first_example =
    owner_name-first "artifactbuild" "artifactbuilds" (pod_owner ∷ []) (refl, tt)

dependency_build_name-last_example :
    ((name : String) → dependency_build_name (pod_owner ∷ []) name ≡ name)
    × ((front : List OwnerReference) (o : OwnerReference) (name : String)
        → (o.kind == "DependencyBuild") ≡ true
        → dependency_build_name (front ++ (o ∷ pod_owner ∷ [])) name ≡ o.name)
dependency_build_name-last_example = dependency_build_name-last (pod_owner ∷ []) (refl, tt)

-- A deploy TaskRun that has not ended.
abbrev running : TaskRun
running = record {
  metadata = record (in_default "run") { labels = ("apheleia.io/deploy-task", "test-db") ∷ [] };
  task_ref = none;
  params = [];
  completion_time = none;
  succeeded = none;
}

abbrev found_running : Found
found_running = record { abr = none; cb = none; tr = some running; pr = none }

dispatch-marks_example :
    (r : Reply (Unit {0})) × ((dispatch memory found_running idle_world).0 ≡ some r)
    × (marks (dispatch memory found_running idle_world).1.requests ≡ marks [])
dispatch-marks_example = dispatch-marks memory found_running idle_world refl

handle_artifact_build_received-concerned_example :
    handle_artifact_build_received memory test_abr idle_world
    ≡ carried_on memory test_abr.gav (memory.list_component_builds "default" start) idle_world
handle_artifact_build_received-concerned_example =
    handle_artifact_build_received-concerned memory test_abr idle_world
