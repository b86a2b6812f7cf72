-- ===== src/Reconciler/Runs.antt =====
-- pkg/reconciler/componentbuild/componentbuild.go: handleArtifactBuildReceived,
-- handleTaskRunReceived and handlePipelineRunReceived, which carry a change of an ArtifactBuild, of
-- a deploy TaskRun or of a notify PipelineRun on to the ComponentBuilds that it concerns.
pub mod Mark
pub mod Owners
pub mod Each
pub mod Notified
use apheleia.Base.{
  String, Bool, true, false, Option, none, some, List, [], ◌∷◌, ◌||◌, ◌==◌, if◌then◌else◌,
}
use apheleia.Base.Dict.{Dict, entry, lookup, insert}
use apheleia.Base.Text.{equal_fold}
use apheleia.Api.{ComponentBuild}
use apheleia.Api.Meta.{OwnerReference}
use apheleia.Platform.{
  Platform, Reply, ok, err, ArtifactBuild, DependencyBuild, TaskRun, PipelineRun,
}
use apheleia.Exec.{
  Exec, pure, panic, read, send, updated_dependency_build, updated_status, eventf, on_reply,
  on_option, unless_err, ◌>>=◌, ◌>>◌,
}
use apheleia.Reconciler.{deploy_task_label}
use apheleia.Reconciler.Artifact.{get_dependency_build, deployed_annotation}
use apheleia.Reconciler.Component.{handle_component_build_received}

-- The loop over the owner references, which stops at the first match.
unfoldable pub owner_name : String → String → List OwnerReference → String
unfolding equal_fold
owner_name kind kinds [] = ""
owner_name kind kinds (o ∷ refs) =
    let rest = owner_name kind kinds refs in
    if equal_fold o.kind kind || equal_fold o.kind kinds then o.name else rest

-- `_, exists := m[k]`
unfoldable pub has_artifact : String → ComponentBuild → Bool
has_artifact gav cb = elim (lookup gav cb.status.artifact_state) [ none ↦ false | some _ ↦ true ]

-- `if m == nil { m = map[string]string{} }`
unfoldable pub allocated : Option (Dict String) → Option (Dict String)
allocated none = some []
allocated (some m) = some m

module _ (P : Platform) where
  -- `m[k] = v`, which panics where the map is nil.
  unfoldable pub assign : String → String → Option (Dict String) → Exec P (Option (Dict String))
  assign k v none = panic
  assign k v (some m) = pure (some (insert k v m))

  -- The annotation of a DependencyBuild whose TaskRun has succeeded. An error of Update is logged.
  unfoldable pub mark_deployed : DependencyBuild → Exec P (Unit {0})
  unfolding allocated assign
  mark_deployed db = do
    annotations ← assign deployed_annotation "true" (allocated db.metadata.annotations)
    let db' : DependencyBuild = record {
      metadata = record db.metadata { annotations = annotations };
    }
    send (updated_dependency_build db') (P.update_dependency_build db')
    pure tt

  -- The loop over the ComponentBuilds of the namespace. An error of a handler is logged.
  unfoldable pub handle_owners : String → List ComponentBuild → Exec P (Unit {0})
  unfolding has_artifact
  handle_owners gav [] = pure tt
  handle_owners gav (i ∷ items) = do
    if has_artifact gav i then (do handle_component_build_received P i; pure tt) else pure tt
    handle_owners gav items

  unfoldable pub handle_artifact_build_received : ArtifactBuild → Exec P (Reply (Unit {0}))
  handle_artifact_build_received abr =
      unless_err (read (P.list_component_builds abr.metadata.namespace))
        (λ cb_list. do handle_owners abr.gav cb_list.items; pure (ok tt))

  -- What follows the reading of the ArtifactBuild that owns the TaskRun.
  unfoldable pub task_run_owned : TaskRun → ArtifactBuild → Exec P (Reply (Unit {0}))
  task_run_owned tr ab = do
    if P.is_true tr.succeeded
        then (do db ← get_dependency_build P ab; on_option db (pure tt) mark_deployed)
        else pure tt
    handle_artifact_build_received ab

  unfoldable pub task_run_with_owner : TaskRun → String → Exec P (Reply (Unit {0}))
  task_run_with_owner tr name = do
    ab ← read (P.get_artifact_build (record { namespace = tr.metadata.namespace; name = name }))
    on_reply ab
        (λ e. do
          eventf P.event_type_warning
              "get for taskrun %s:%s owning artifact build %s:%s yielded error %s"
              tr.metadata.namespace
              (tr.metadata.name ∷ tr.metadata.namespace ∷ name ∷ e.message ∷ [])
          pure (err e))
        (λ a. task_run_owned tr a)

  -- What follows the first test of handleTaskRunReceived.
  unfoldable pub task_run_completed : TaskRun → List OwnerReference → Exec P (Reply (Unit {0}))
  unfolding owner_name
  task_run_completed tr [] = do
    eventf P.event_type_warning "taskrun missing onwerrefs %s:%s" tr.metadata.namespace
        (tr.metadata.name ∷ [])
    pure (ok tt)
  task_run_completed tr (o ∷ refs) =
      let name = owner_name "artifactbuild" "artifactbuilds" (o ∷ refs) in
      if name == ""
      then (do
        eventf P.event_type_warning "MissingOwner" "taskrun missing artifactbuild ownerrefs %s:%s"
            (tr.metadata.namespace ∷ tr.metadata.name ∷ [])
        pure (ok tt))
      else task_run_with_owner tr name

  unfoldable pub handle_task_run_received : TaskRun → Exec P (Reply (Unit {0}))
  handle_task_run_received tr = on_option tr.completion_time (pure (ok tt)) λ _.
      if entry deploy_task_label tr.metadata.labels == ""
      then pure (ok tt)
      else task_run_completed tr tr.metadata.owner_references

  -- What follows the reading of the ComponentBuild that owns the PipelineRun.
  unfoldable pub pipeline_run_owned : PipelineRun → ComponentBuild → Exec P (Reply (Unit {0}))
  pipeline_run_owned pr cb =
      if P.is_true pr.succeeded
      then (let cb' = record cb { status = record cb.status { result_notified = true } } in
          send (updated_status cb') (P.update_status cb'))
      else handle_component_build_received P cb

  unfoldable pub pipeline_run_with_owner : PipelineRun → String → Exec P (Reply (Unit {0}))
  pipeline_run_with_owner pr name = do
    cb ← read (P.get_component_build (record { namespace = pr.metadata.namespace; name = name }))
    on_reply cb
        (λ e. do
          eventf P.event_type_warning
              "get for pipelinerun %s:%s owning component build %s:%s yielded error %s"
              pr.metadata.namespace
              (pr.metadata.name ∷ pr.metadata.namespace ∷ name ∷ e.message ∷ [])
          pure (err e))
        (λ c. pipeline_run_owned pr c)

  -- What follows the first two tests of handlePipelineRunReceived.
  unfoldable pub pipeline_run_completed :
      PipelineRun → List OwnerReference → Exec P (Reply (Unit {0}))
  unfolding owner_name
  pipeline_run_completed pr [] = do
    eventf P.event_type_warning "pipelinerun missing onwerrefs %s:%s" pr.metadata.namespace
        (pr.metadata.name ∷ [])
    pure (ok tt)
  pipeline_run_completed pr (o ∷ refs) =
      let name = owner_name "componentbuild" "componentbuilds" (o ∷ refs) in
      if name == ""
      then (do
        eventf P.event_type_warning "MissingOwner"
            "pipelinerun missing componentbuild ownerrefs %s:%s"
            (pr.metadata.namespace ∷ pr.metadata.name ∷ [])
        pure (ok tt))
      else pipeline_run_with_owner pr name

  unfoldable pub handle_pipeline_run_received : PipelineRun → Exec P (Reply (Unit {0}))
  handle_pipeline_run_received pr =
      if entry "tekton.dev/pipeline" pr.metadata.labels == "component-build-notifier"
      then on_option pr.completion_time (pure (ok tt))
          (λ _. pipeline_run_completed pr pr.metadata.owner_references)
      else pure (ok tt)
