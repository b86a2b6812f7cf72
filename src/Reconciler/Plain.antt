-- ===== src/Reconciler/Plain.antt =====
-- pkg/reconciler/componentbuild/componentbuild.go: the methods that never mark a DependencyBuild.
-- They return, and keep an invariant that requests other than such marks do not break.
use apheleia.Base.{String, refl, Bool, true, false, ◌≡◌, List, [], ◌∷◌, ◌++◌}
use apheleia.Api.{ComponentBuild}
use apheleia.Api.Meta.{OwnerReference, NamespacedName}
use apheleia.Platform.{Platform, Reply, ArtifactBuild, TaskRun, PipelineRun}
use apheleia.Exec.{
  created_artifact_build, created_task_run, created_pipeline_run, updated_status,
  updated_dependency_build, Request, send, eventf,
}
use apheleia.Exec.Keeps.{
  Keeps, Keeps-pure, Keeps-send, Keeps-read, Keeps-reply, Keeps-bind, Keeps-unless_err, keeps_rules,
}
use apheleia.Reconciler.Artifact.{
  DeployConfig, get_dependency_build, artifact_state, start_deploy, deploy_found, deploy_artifact,
}
use apheleia.Reconciler.Notify.{notifier_message, create_notification, notify_result}
use apheleia.Reconciler.Component.{
  track_existing, create_missing, visit_artifact, visit_artifacts, notify_once, complete, settle,
  handle_with_config, handle_component_build_received,
}
use apheleia.Reconciler.Runs.{
  handle_owners, handle_artifact_build_received, pipeline_run_owned, pipeline_run_with_owner,
  pipeline_run_completed, handle_pipeline_run_received,
}
use apheleia.Reconciler.Dispatch.{fetch, fetch_all}

-- The request updates a DependencyBuild, which only the mark that it is deployed does.
abbrev pub is_mark : Request → Bool
is_mark (updated_dependency_build db) = true
is_mark _ = false

module _ (P : Platform) (I : List Request → Type 0)
    (grow : (rs : List Request) (r : Request) → is_mark r ≡ false → I rs → I (rs ++ (r ∷ []))) where
  send-Keeps :
      {A : Type 0} (r : Request) (f : P.Cluster → A × P.Cluster)
      → is_mark r ≡ false
      → Keeps {P = P} I (send r f)
  send-Keeps r f h = Keeps-send r f (λ rs. grow rs r h)

  module _ {A : Type 0} where
    create_artifact_build-Keeps :
        (a : ArtifactBuild) (f : P.Cluster → A × P.Cluster)
        → Keeps {P = P} I (send (created_artifact_build a) f)
    create_artifact_build-Keeps a f = send-Keeps _ f refl

    create_task_run-Keeps :
        (r : TaskRun) (f : P.Cluster → A × P.Cluster)
        → Keeps {P = P} I (send (created_task_run r) f)
    create_task_run-Keeps r f = send-Keeps _ f refl

    create_pipeline_run-Keeps :
        (r : PipelineRun) (f : P.Cluster → A × P.Cluster)
        → Keeps {P = P} I (send (created_pipeline_run r) f)
    create_pipeline_run-Keeps r f = send-Keeps _ f refl

    update_status-Keeps :
        (cb : ComponentBuild) (f : P.Cluster → A × P.Cluster)
        → Keeps {P = P} I (send (updated_status cb) f)
    update_status-Keeps cb f = send-Keeps _ f refl

  pub eventf-Keeps :
      (kind reason format : String) (arguments : List String)
      → Keeps {P = P} I (eventf kind reason format arguments)
  unfolding eventf
  eventf-Keeps kind reason format arguments = send-Keeps _ _ refl

  pub get_dependency_build-Keeps : (abr : ArtifactBuild) → Keeps I (get_dependency_build P abr)
  unfolding get_dependency_build
  get_dependency_build-Keeps abr = search keeps_rules depth 12

  ruleset reads = (
    keeps_rules, create_artifact_build-Keeps, create_task_run-Keeps, create_pipeline_run-Keeps,
    update_status-Keeps, eventf-Keeps, get_dependency_build-Keeps,
  )

  pub artifact_state-Keeps : (abr : ArtifactBuild) → Keeps I (artifact_state P abr)
  unfolding artifact_state
  artifact_state-Keeps abr = search reads depth 12

  pub deploy_artifact-Keeps :
      (abr : ArtifactBuild) (conf : DeployConfig) → Keeps I (deploy_artifact P abr conf)
  unfolding deploy_artifact start_deploy deploy_found
  deploy_artifact-Keeps abr conf = search reads depth 12

  notify_result-Keeps : (cb : ComponentBuild) → Keeps I (notify_result P cb)
  unfolding notify_result create_notification notifier_message
  notify_result-Keeps cb = search reads depth 16

  ruleset parts = (reads, artifact_state-Keeps, deploy_artifact-Keeps, notify_result-Keeps)

  visit_artifact-Keeps :
      (conf : DeployConfig) (cb : ComponentBuild) (gav : String)
      → Keeps I (visit_artifact P conf cb gav)
  unfolding visit_artifact track_existing create_missing
  visit_artifact-Keeps conf cb gav = search parts depth 16

  visit_artifacts-Keeps :
      (conf : DeployConfig) (gavs : List String) (cb : ComponentBuild)
      → Keeps I (visit_artifacts P conf gavs cb)
  unfolding visit_artifacts
  visit_artifacts-Keeps conf [] cb = search parts
  visit_artifacts-Keeps conf (gav ∷ gavs) cb =
      Keeps-unless_err _ _ (visit_artifact-Keeps conf cb gav) (visit_artifacts-Keeps conf gavs)

  pub notify_once-Keeps : (cb : ComponentBuild) → Keeps I (notify_once P cb)
  unfolding notify_once
  notify_once-Keeps cb = search (keeps_rules, notify_result-Keeps)

  settle-Keeps : (cb : ComponentBuild) → Keeps I (settle P cb)
  unfolding settle complete
  settle-Keeps cb = search (parts, notify_once-Keeps) depth 16

  pub handle_component_build_received-Keeps :
      (cb : ComponentBuild) → Keeps I (handle_component_build_received P cb)
  unfolding handle_component_build_received handle_with_config
  handle_component_build_received-Keeps cb =
      search (parts, visit_artifacts-Keeps, settle-Keeps) depth 16

  handle_owners-Keeps :
      (gav : String) (items : List ComponentBuild) → Keeps I (handle_owners P gav items)
  unfolding handle_owners
  handle_owners-Keeps gav [] = Keeps-pure tt
  handle_owners-Keeps gav (i ∷ items) =
      Keeps-bind _ _ (search (reads, handle_component_build_received-Keeps) depth 8)
        (λ _. handle_owners-Keeps gav items)

  pub handle_artifact_build_received-Keeps :
      (abr : ArtifactBuild) → Keeps I (handle_artifact_build_received P abr)
  unfolding handle_artifact_build_received
  handle_artifact_build_received-Keeps abr = search (reads, handle_owners-Keeps) depth 8

  ruleset handlers =
      (reads, handle_component_build_received-Keeps, handle_artifact_build_received-Keeps)

  pipeline_run_with_owner-Keeps :
      (pr : PipelineRun) (name : String) → Keeps I (pipeline_run_with_owner P pr name)
  unfolding pipeline_run_with_owner pipeline_run_owned
  pipeline_run_with_owner-Keeps pr name = Keeps-bind _ _ (Keeps-read _) (λ r.
      Keeps-reply r _ _ (λ e. Keeps-bind _ _ (eventf-Keeps _ _ _ _) (λ _. Keeps-pure _))
        (λ a. search handlers depth 16))

  pipeline_run_completed-Keeps :
      (pr : PipelineRun) (refs : List OwnerReference) → Keeps I (pipeline_run_completed P pr refs)
  unfolding pipeline_run_completed
  pipeline_run_completed-Keeps pr [] = search handlers depth 16
  pipeline_run_completed-Keeps pr (o ∷ refs) =
      search (handlers, pipeline_run_with_owner-Keeps) depth 16

  pub handle_pipeline_run_received-Keeps :
      (pr : PipelineRun) → Keeps I (handle_pipeline_run_received P pr)
  unfolding handle_pipeline_run_received
  handle_pipeline_run_received-Keeps pr = search (handlers, pipeline_run_completed-Keeps) depth 8

  fetch-Keeps : {A : Type 0} (f : P.Cluster → Reply A × P.Cluster) → Keeps I (fetch P f)
  unfolding fetch
  fetch-Keeps f = search keeps_rules depth 8

  pub fetch_all-Keeps : (key : NamespacedName) → Keeps I (fetch_all P key)
  unfolding fetch_all
  fetch_all-Keeps key = search (keeps_rules, fetch-Keeps) depth 12
