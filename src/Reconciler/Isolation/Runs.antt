-- ===== src/Reconciler/Isolation/Runs.antt =====
-- pkg/reconciler/componentbuild/componentbuild.go: the handlers of runs and of ArtifactBuilds write
-- in the namespace of their object.
use apheleia.Base.{OptionAll, String, ◌≡◌, ◌∙◌, Option, none, some, List, [], ◌∷◌, All}
use apheleia.Base.Dict.{Dict}
use apheleia.Api.{ComponentBuild}
use apheleia.Api.Meta.{OwnerReference}
use apheleia.Platform.{Platform, ok, ArtifactBuild, DependencyBuild, TaskRun, PipelineRun}
use apheleia.Platform.Laws.{IsFaithful, IsScoped}
use apheleia.Exec.{pure, ◌>>=◌, on_option, eventf}
use apheleia.Exec.Triple.{
  Triple-bind, Triple-given_and, Triple-read_bind, Triple-read_unless_err, Triple-reply,
}
use apheleia.Exec.Keeps.{Keeps, Keeps-pure, Keeps-bind, keeps_rules}
use apheleia.Reconciler.Artifact.{get_dependency_build}
use apheleia.Reconciler.Runs.{
  assign, allocated, mark_deployed, handle_owners, handle_artifact_build_received, task_run_owned,
  task_run_with_owner, task_run_completed, handle_task_run_received, pipeline_run_owned,
  pipeline_run_with_owner, pipeline_run_completed, handle_pipeline_run_received,
}
use apheleia.Reconciler.Isolation.Parts.{
  Inside, option-Inside, send-Inside, get_dependency_build-Inside,
}
use apheleia.Reconciler.Isolation.Component.{handle_component_build_received-Inside}

module _ (P : Platform) (S : IsScoped P) (F : IsFaithful P) (ns : String) where
  eventf-Inside :
      (kind reason format : String) (arguments : List String)
      → Keeps {P = P} (Inside ns) (eventf kind reason format arguments)
  unfolding eventf
  eventf-Inside kind reason format arguments = send-Inside P S ns _ _ tt

  assign-Inside :
      (k v : String) (m : Option (Dict String)) → Keeps (Inside ns) (assign P k v (allocated m))
  unfolding assign allocated
  assign-Inside k v none = search keeps_rules
  assign-Inside k v (some m) = search keeps_rules

  mark_deployed-Inside :
      (db : DependencyBuild) → db.metadata.namespace ≡ ns → Keeps (Inside ns) (mark_deployed P db)
  unfolding mark_deployed
  mark_deployed-Inside db h =
      Keeps-bind _ _ (assign-Inside _ _ _)
        (λ m. Keeps-bind _ _ (send-Inside P S ns _ _ h) (λ r. Keeps-pure tt))

  handle_owners-Inside :
      (gav : String) (items : List ComponentBuild)
      → All (λ cb. cb.metadata.namespace ≡ ns) items
      → Keeps (Inside ns) (handle_owners P gav items)
  unfolding handle_owners
  handle_owners-Inside gav [] h = Keeps-pure tt
  handle_owners-Inside gav (i ∷ items) h =
      Keeps-bind _ _ (search (keeps_rules, handle_component_build_received-Inside, h.0) depth 8)
        (λ _. handle_owners-Inside gav items h.1)

  pub handle_artifact_build_received-Inside :
      (abr : ArtifactBuild)
      → abr.metadata.namespace ≡ ns
      → Keeps (Inside ns) (handle_artifact_build_received P abr)
  unfolding handle_artifact_build_received
  handle_artifact_build_received-Inside abr h = record {
    triple =
        Triple-read_unless_err _ _ _
          (λ c l q.
            (Keeps-bind _ _
              (handle_owners-Inside abr.gav l.items
                (rw (← h) (S.list_component_builds-namespace _ c l q)))
              (λ _. Keeps-pure (ok tt))).triple)
          (λ e rs p. p);
  }

  marked-Inside :
      (ab : ArtifactBuild)
      → ab.metadata.namespace ≡ ns
      → Keeps
          (Inside ns)
          (get_dependency_build P ab >>= λ db. on_option db (pure tt) (mark_deployed P))
  marked-Inside ab h = record {
    triple =
        Triple-bind (λ o rs. OptionAll (λ db. db.metadata.namespace ≡ ns) o × Inside ns rs) _ _
          (get_dependency_build-Inside P S ns ab h)
          λ o. Triple-given_and _ _ _ _ (λ q.
            (option-Inside ns o (pure tt) (mark_deployed P) _ q (Keeps-pure tt)
              mark_deployed-Inside).triple);
  }

  task_run_owned-Inside :
      (tr : TaskRun) (ab : ArtifactBuild)
      → ab.metadata.namespace ≡ ns
      → Keeps (Inside ns) (task_run_owned P tr ab)
  unfolding task_run_owned
  task_run_owned-Inside tr ab h =
      search (keeps_rules, marked-Inside, handle_artifact_build_received-Inside, h) depth 8

  pipeline_run_owned-Inside :
      (pr : PipelineRun) (cb : ComponentBuild)
      → cb.metadata.namespace ≡ ns
      → Keeps (Inside ns) (pipeline_run_owned P pr cb)
  unfolding pipeline_run_owned
  pipeline_run_owned-Inside pr cb h =
      search (keeps_rules, send-Inside, handle_component_build_received-Inside, h) depth 8

  task_run_with_owner-Inside :
      (tr : TaskRun) (name : String)
      → tr.metadata.namespace ≡ ns
      → Keeps (Inside ns) (task_run_with_owner P tr name)
  unfolding task_run_with_owner
  task_run_with_owner-Inside tr name h = record {
    triple = Triple-read_bind _ _ _ λ c.
        Triple-reply _ _ _
          (λ e _. (Keeps-bind _ _ (eventf-Inside _ _ _ _) (λ _. Keeps-pure _)).triple)
          (λ ab q.
            (task_run_owned-Inside tr ab (S.get_artifact_build-namespace _ c ab q ∙ h)).triple);
  }

  pipeline_run_with_owner-Inside :
      (pr : PipelineRun) (name : String)
      → pr.metadata.namespace ≡ ns
      → Keeps (Inside ns) (pipeline_run_with_owner P pr name)
  unfolding pipeline_run_with_owner
  pipeline_run_with_owner-Inside pr name h = record {
    triple = Triple-read_bind _ _ _ λ c.
        Triple-reply _ _ _
          (λ e _. (Keeps-bind _ _ (eventf-Inside _ _ _ _) (λ _. Keeps-pure _)).triple)
          (λ cb q.
            (pipeline_run_owned-Inside pr cb
              (S.get_component_build-namespace _ c cb q ∙ h)).triple);
  }

  task_run_completed-Inside :
      (tr : TaskRun) (refs : List OwnerReference)
      → tr.metadata.namespace ≡ ns
      → Keeps (Inside ns) (task_run_completed P tr refs)
  unfolding task_run_completed
  task_run_completed-Inside tr [] h = search (keeps_rules, eventf-Inside) depth 16
  task_run_completed-Inside tr (o ∷ refs) h =
      search (keeps_rules, eventf-Inside, task_run_with_owner-Inside, h) depth 16

  pipeline_run_completed-Inside :
      (pr : PipelineRun) (refs : List OwnerReference)
      → pr.metadata.namespace ≡ ns
      → Keeps (Inside ns) (pipeline_run_completed P pr refs)
  unfolding pipeline_run_completed
  pipeline_run_completed-Inside pr [] h = search (keeps_rules, eventf-Inside) depth 16
  pipeline_run_completed-Inside pr (o ∷ refs) h =
      search (keeps_rules, eventf-Inside, pipeline_run_with_owner-Inside, h) depth 16

  pub handle_task_run_received-Inside :
      (tr : TaskRun)
      → tr.metadata.namespace ≡ ns
      → Keeps (Inside ns) (handle_task_run_received P tr)
  unfolding handle_task_run_received
  handle_task_run_received-Inside tr h = search (keeps_rules, task_run_completed-Inside, h) depth 8

  pub handle_pipeline_run_received-Inside :
      (pr : PipelineRun)
      → pr.metadata.namespace ≡ ns
      → Keeps (Inside ns) (handle_pipeline_run_received P pr)
  unfolding handle_pipeline_run_received
  handle_pipeline_run_received-Inside pr h =
      search (keeps_rules, pipeline_run_completed-Inside, h) depth 8
