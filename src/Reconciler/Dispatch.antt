-- ===== src/Reconciler/Dispatch.antt =====
-- pkg/reconciler/componentbuild/componentbuild.go: Reconcile, the entry point. A request names an
-- object, and not its kind: four kinds are watched, and all four are read.
pub mod Reads
pub mod Facts
use apheleia.Base.{Option, none, some, if◌then◌else◌}
use apheleia.Api.{ComponentBuild}
use apheleia.Api.Meta.{NamespacedName}
use apheleia.Platform.{Platform, Reply, ok, err, ArtifactBuild, TaskRun, PipelineRun}
use apheleia.Exec.{Exec, pure, read, on_reply, on_option, unless_err, ◌>>=◌}
use apheleia.Reconciler.Component.{handle_component_build_received}
use apheleia.Reconciler.Runs.{
  handle_artifact_build_received, handle_task_run_received, handle_pipeline_run_received,
}

-- The objects of the requested name; `none` where the read said that there is none.
pub record Found : Type 0 where
  pub abr : Option ArtifactBuild
  pub cb : Option ComponentBuild
  pub tr : Option TaskRun
  pub pr : Option PipelineRun

module _ (P : Platform) where
  -- One read and its test: an error is returned unless it says that there is no such object.
  unfoldable pub fetch :
      {A : Type 0} → (P.Cluster → Reply A × P.Cluster) → Exec P (Reply (Option A))
  fetch f = do
    r ← read f
    on_reply r (λ e. if P.is_not_found e then pure (ok none) else pure (err e))
        (λ a. pure (ok (some a)))

  -- The four reads.
  unfoldable pub fetch_all : NamespacedName → Exec P (Reply Found)
  unfolding fetch
  fetch_all key = unless_err (fetch (P.get_artifact_build key)) λ abr.
      unless_err (fetch (P.get_component_build key)) λ cb.
        unless_err (fetch (P.get_task_run key)) λ tr.
          unless_err (fetch (P.get_pipeline_run key))
            λ pr. pure (ok (record { abr = abr; cb = cb; tr = tr; pr = pr }))

  -- The test for nothing found, and the switch.
  unfoldable pub dispatch : Found → Exec P (Reply (Unit {0}))
  dispatch f =
      on_option f.cb
        (on_option f.abr
          (on_option f.tr (on_option f.pr (pure (ok tt)) (handle_pipeline_run_received P))
            (handle_task_run_received P))
          (handle_artifact_build_received P))
        (handle_component_build_received P)

  unfoldable pub reconcile : NamespacedName → Exec P (Reply (Unit {0}))
  reconcile key = unless_err (fetch_all key) dispatch
