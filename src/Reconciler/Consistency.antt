-- ===== src/Reconciler/Consistency.antt =====
-- pkg/reconciler/componentbuild/componentbuild.go: the statuses that Reconcile writes agree with
-- their entries.
pub mod Component
use apheleia.Base.{
  ℕ, ◌≤◌, String, ◌≡◌, refl, Bool, true, false, Option, none, some, List, [], ◌∷◌, ◌++◌, All, count,
  count-append, arith, Bool-cases, inl, inr, if◌then◌else◌,
}
use apheleia.Base.Dict.{Dict}
use apheleia.Api.{ComponentBuild, ComponentBuildList}
use apheleia.Api.Meta.{NamespacedName, OwnerReference}
use apheleia.Platform.{Platform, Reply, ok, ArtifactBuild, DependencyBuild, TaskRun, PipelineRun}
use apheleia.Platform.Laws.{IsFaithful}
use apheleia.Exec.{
  Request, World, eventf, recorded_event, updated_status, created_artifact_build, created_task_run,
  created_pipeline_run, updated_dependency_build,
}
use apheleia.Exec.Triple.{Triple, Triple-read_bind, Triple-reply, Triple-read_unless_err}
use apheleia.Exec.Keeps.{Keeps, Keeps-pure, Keeps-bind, Keeps-send, Keeps-read, keeps_rules}
use apheleia.Reconciler.Artifact.{get_dependency_build}
use apheleia.Reconciler.Component.{put_status}
use apheleia.Reconciler.Runs.{
  assign, allocated, mark_deployed, handle_owners, handle_artifact_build_received, task_run_owned,
  task_run_with_owner, task_run_completed, handle_task_run_received, pipeline_run_owned,
  pipeline_run_with_owner, pipeline_run_completed, handle_pipeline_run_received,
}
use apheleia.Reconciler.Dispatch.{reconcile}
use apheleia.Reconciler.Dispatch.Facts.{Facts, Answers, Handlers, reconcile-Keeps}
use apheleia.Reconciler.Component.Bounds.{is_status_update}
use apheleia.Reconciler.Runs.Notified.{notified}
use apheleia.Reconciler.Written.{Written, reconcile_written}
use apheleia.Reconciler.Consistency.Component.{
  is_consistent, IsSound, AtMost, is_inconsistent, send-AtMost,
  handle_component_build_received-AtMost,
}

-- Each ComponentBuild that the cluster answers with names no artifact twice and has a consistent
-- status.
pub record HoldsSound (P : Platform) : Type 0 where
  pub reads :
      (key : NamespacedName) (c : P.Cluster) (x : ComponentBuild)
      → (P.get_component_build key c).0 ≡ ok x
      → IsSound x
  pub lists :
      (ns : String) (c : P.Cluster) (l : ComponentBuildList)
      → (P.list_component_builds ns c).0 ≡ ok l
      → All IsSound l.items

module _ (P : Platform) (F : IsFaithful P) (H : HoldsSound P) (k : ℕ) where
  -- A request that writes no status.
  grow :
      (rs : List Request) (r : Request)
      → is_status_update r ≡ false
      → AtMost k rs
      → AtMost k (rs ++ (r ∷ []))
  grow rs (updated_status cb) h p = absurd cc
  grow rs (created_artifact_build a) h p =
      rw (count-append is_inconsistent rs (created_artifact_build a ∷ [])) (omega (arith, p))
  grow rs (created_task_run a) h p =
      rw (count-append is_inconsistent rs (created_task_run a ∷ [])) (omega (arith, p))
  grow rs (created_pipeline_run a) h p =
      rw (count-append is_inconsistent rs (created_pipeline_run a ∷ [])) (omega (arith, p))
  grow rs (updated_dependency_build a) h p =
      rw (count-append is_inconsistent rs (updated_dependency_build a ∷ [])) (omega (arith, p))
  grow rs (recorded_event a b c d) h p =
      rw (count-append is_inconsistent rs (recorded_event a b c d ∷ [])) (omega (arith, p))

  Written-AtMost : Written P IsSound (AtMost k)
  Written-AtMost = record {
    reads = H.reads;
    lists = H.lists;
    grows = grow;
    handles = handle_component_build_received-AtMost P k F;
    notifies = λ x h. send-AtMost P k (notified x) h.1;
  }

-- A request that writes a status writes a consistent one.
abbrev pub WritesConsistent : Request → Type 0
WritesConsistent (updated_status cb) = is_consistent cb.status ≡ true
WritesConsistent _ = Unit

written_statuses : (rs : List Request) → AtMost 0 rs → All WritesConsistent rs
written_statuses [] h = tt
written_statuses (updated_status cb ∷ rs) h = elim (Bool-cases (is_consistent cb.status)) [
  | inl e ↦ (e, written_statuses rs (rw e at h))
  | inr e ↦ absurd (omega (arith, rw e at h))
]
written_statuses (created_artifact_build a ∷ rs) h = (tt, written_statuses rs h)
written_statuses (created_task_run a ∷ rs) h = (tt, written_statuses rs h)
written_statuses (created_pipeline_run a ∷ rs) h = (tt, written_statuses rs h)
written_statuses (updated_dependency_build a ∷ rs) h = (tt, written_statuses rs h)
written_statuses (recorded_event a b c d ∷ rs) h = (tt, written_statuses rs h)

-- With a platform that does as documented, where each ComponentBuild that the cluster answers with
-- names no artifact twice and has a consistent status (its state is empty, or its state and its
-- count of outstanding artifacts are those that its entries call for): Reconcile, from a world in
-- which no request was sent yet, returns, and each status that it has written is consistent, also
-- where it returns an error.
pub reconcile-WritesConsistent :
    (P : Platform) (F : IsFaithful P) (H : HoldsSound P) (key : NamespacedName) (w : World P)
    → w.requests ≡ []
    → (r : Reply (Unit {0})) × ((reconcile P key w).0 ≡ some r)
      × All WritesConsistent (reconcile P key w).1.requests
reconcile-WritesConsistent P F H key w e =
    let (r, e', h) =
      (reconcile_written P IsSound (AtMost 0) (Written-AtMost P F H 0) key).triple.at w
        (rw e (omega arith)) in
    (r, e', written_statuses _ h)
