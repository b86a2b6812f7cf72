-- ===== src/Reconciler/Written.antt =====
-- pkg/reconciler/componentbuild/componentbuild.go: invariants on the statuses that Reconcile writes, from what
-- holds of the ComponentBuilds that it reads.
use apheleia.Base.{
  String, ◌≡◌, refl, false, Option, none, some, List, [], ◌∷◌, ◌++◌, All, if◌then◌else◌,
}
use apheleia.Base.Dict.{Dict}
use apheleia.Api.{ComponentBuild, ComponentBuildList}
use apheleia.Api.Meta.{NamespacedName, OwnerReference}
use apheleia.Platform.{Platform, ok, ArtifactBuild, DependencyBuild, TaskRun, PipelineRun}
use apheleia.Exec.{Request, eventf, pure, on_option, ◌>>=◌}
use apheleia.Exec.Triple.{Triple-read_bind, Triple-reply, Triple-read_unless_err}
use apheleia.Exec.Keeps.{
  Keeps, Keeps-pure, Keeps-bind, Keeps-send, Keeps-read, Keeps-reply, keeps_rules,
}
use apheleia.Reconciler.Artifact.{get_dependency_build}
use apheleia.Reconciler.Component.{put_status, handle_component_build_received}
use apheleia.Reconciler.Component.Bounds.{is_status_update}
use apheleia.Reconciler.Runs.Notified.{notified}
use apheleia.Reconciler.Runs.{
  assign, allocated, mark_deployed, handle_owners, handle_artifact_build_received, task_run_owned,
  task_run_with_owner, task_run_completed, handle_task_run_received, pipeline_run_owned,
  pipeline_run_with_owner, pipeline_run_completed, handle_pipeline_run_received,
}
use apheleia.Reconciler.Dispatch.{reconcile}
use apheleia.Reconciler.Dispatch.Facts.{Facts, Answers, Handlers, reconcile-Keeps}

-- The ComponentBuilds that the cluster answers with have the property `Q`, and `I` is kept by the requests that write no
-- status, by the handling of such a ComponentBuild and by the write of its flag.
pub record Written (P : Platform) (Q : ComponentBuild → Type 0) (I : List Request → Type 0)
    : Type 0 where
  pub reads :
      (key : NamespacedName) (c : P.Cluster) (x : ComponentBuild)
      → (P.get_component_build key c).0 ≡ ok x
      → Q x
  pub lists :
      (ns : String) (c : P.Cluster) (l : ComponentBuildList)
      → (P.list_component_builds ns c).0 ≡ ok l
      → All Q l.items
  pub grows :
      (rs : List Request) (r : Request) → is_status_update r ≡ false → I rs → I (rs ++ (r ∷ []))
  pub handles : (x : ComponentBuild) → Q x → Keeps I (handle_component_build_received P x)
  pub notifies : (x : ComponentBuild) → Q x → Keeps I (put_status P (notified x))

-- Of ComponentBuilds the property is asked, of other objects nothing.
abbrev asked : (ComponentBuild → Type 0) → Facts
asked Q = record { Abr = λ _. Unit {0}; Cb = Q; Tr = λ _. Unit {0}; Pr = λ _. Unit {0} }

module _ (P : Platform) (Q : ComponentBuild → Type 0) (I : List Request → Type 0)
    (H : Written P Q I) where
  eventf-Keeps :
      (kind reason format : String) (arguments : List String)
      → Keeps {P = P} I (eventf kind reason format arguments)
  unfolding eventf
  eventf-Keeps kind reason format arguments = Keeps-send _ _ (λ rs. H.grows rs _ refl)

  get_dependency_build-Keeps : (abr : ArtifactBuild) → Keeps I (get_dependency_build P abr)
  unfolding get_dependency_build
  get_dependency_build-Keeps abr = search keeps_rules depth 12

  assign-Keeps :
      (key v : String) (m : Option (Dict String)) → Keeps I (assign P key v (allocated m))
  unfolding assign allocated
  assign-Keeps key v none = Keeps-pure _
  assign-Keeps key v (some m) = Keeps-pure _

  mark_deployed-Keeps : (db : DependencyBuild) → Keeps I (mark_deployed P db)
  unfolding mark_deployed
  mark_deployed-Keeps db =
      Keeps-bind _ _ (assign-Keeps _ _ _)
        (λ m. Keeps-bind _ _ (Keeps-send _ _ (λ rs. H.grows rs _ refl)) (λ r. Keeps-pure tt))

  handle_owners-Keeps :
      (gav : String) (items : List ComponentBuild)
      → All Q items
      → Keeps I (handle_owners P gav items)
  unfolding handle_owners
  handle_owners-Keeps gav [] h = Keeps-pure tt
  handle_owners-Keeps gav (i ∷ items) (h, hs) =
      Keeps-bind _ _ (search (keeps_rules, H.handles, h) depth 8)
        (λ _. handle_owners-Keeps gav items hs)

  handle_artifact_build_received-Keeps :
      (abr : ArtifactBuild) → Keeps I (handle_artifact_build_received P abr)
  unfolding handle_artifact_build_received
  handle_artifact_build_received-Keeps abr = record {
    triple =
        Triple-read_unless_err _ _ _
          (λ c l e.
            (Keeps-bind _ _ (handle_owners-Keeps abr.gav l.items (H.lists _ c l e))
              (λ _. Keeps-pure _)).triple)
          (λ e rs p. p);
  }

  pipeline_run_owned-Keeps :
      (pr : PipelineRun) (cb : ComponentBuild) → Q cb → Keeps I (pipeline_run_owned P pr cb)
  unfolding pipeline_run_owned
  pipeline_run_owned-Keeps pr cb h = search (keeps_rules, H.handles, H.notifies, h) depth 8

  pipeline_run_with_owner-Keeps :
      (pr : PipelineRun) (name : String) → Keeps I (pipeline_run_with_owner P pr name)
  unfolding pipeline_run_with_owner
  pipeline_run_with_owner-Keeps pr name = record {
    triple = Triple-read_bind _ _ _ λ c.
        Triple-reply _ _ _
          (λ e _. (Keeps-bind _ _ (eventf-Keeps _ _ _ _) (λ _. Keeps-pure _)).triple)
          (λ cb q. (pipeline_run_owned-Keeps pr cb (H.reads _ c cb q)).triple);
  }

  pipeline_run_completed-Keeps :
      (pr : PipelineRun) (refs : List OwnerReference) → Keeps I (pipeline_run_completed P pr refs)
  unfolding pipeline_run_completed
  pipeline_run_completed-Keeps pr [] = search (keeps_rules, eventf-Keeps) depth 16
  pipeline_run_completed-Keeps pr (o ∷ refs) =
      search (keeps_rules, eventf-Keeps, pipeline_run_with_owner-Keeps) depth 16

  handle_pipeline_run_received-Keeps :
      (pr : PipelineRun) → Keeps I (handle_pipeline_run_received P pr)
  unfolding handle_pipeline_run_received
  handle_pipeline_run_received-Keeps pr = search (keeps_rules, pipeline_run_completed-Keeps) depth 8

  task_run_owned-Keeps : (tr : TaskRun) (ab : ArtifactBuild) → Keeps I (task_run_owned P tr ab)
  unfolding task_run_owned
  task_run_owned-Keeps tr ab = Keeps-bind _ _ marked (λ _. handle_artifact_build_received-Keeps ab)
    where
      marked : Keeps I (
          if P.is_true tr.succeeded
          then (get_dependency_build P ab >>= λ db. on_option db (pure tt) (mark_deployed P))
          else pure tt)
      marked = search (keeps_rules, get_dependency_build-Keeps, mark_deployed-Keeps) depth 8

  task_run_with_owner-Keeps :
      (tr : TaskRun) (name : String) → Keeps I (task_run_with_owner P tr name)
  unfolding task_run_with_owner
  task_run_with_owner-Keeps tr name = Keeps-bind _ _ (Keeps-read _) λ r.
      Keeps-reply r _ _ (λ e. Keeps-bind _ _ (eventf-Keeps _ _ _ _) (λ _. Keeps-pure _))
        (λ a. task_run_owned-Keeps tr a)

  task_run_completed-Keeps :
      (tr : TaskRun) (refs : List OwnerReference) → Keeps I (task_run_completed P tr refs)
  unfolding task_run_completed
  task_run_completed-Keeps tr [] = search (keeps_rules, eventf-Keeps) depth 16
  task_run_completed-Keeps tr (o ∷ refs) =
      search (keeps_rules, eventf-Keeps, task_run_with_owner-Keeps) depth 16

  handle_task_run_received-Keeps : (tr : TaskRun) → Keeps I (handle_task_run_received P tr)
  unfolding handle_task_run_received
  handle_task_run_received-Keeps tr = search (keeps_rules, task_run_completed-Keeps) depth 8

  Handlers-Keeps : Handlers P I (asked Q)
  Handlers-Keeps = record {
    abr = λ x h. handle_artifact_build_received-Keeps x;
    cb = H.handles;
    tr = λ x h. handle_task_run_received-Keeps x;
    pr = λ x h. handle_pipeline_run_received-Keeps x;
  }

  Answers-asked : (key : NamespacedName) → Answers P (asked Q) key
  Answers-asked key = record {
    abr = λ c x e. tt;
    cb = H.reads key;
    tr = λ c x e. tt;
    pr = λ c x e. tt;
  }

  pub reconcile_written : (key : NamespacedName) → Keeps I (reconcile P key)
  reconcile_written key = reconcile-Keeps P I (asked Q) key (Answers-asked key) Handlers-Keeps
