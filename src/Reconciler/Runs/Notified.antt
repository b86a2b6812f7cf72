-- ===== src/Reconciler/Runs/Notified.antt =====
-- pkg/reconciler/componentbuild/componentbuild.go: handlePipelineRunReceived for a notification
-- that has succeeded.
use apheleia.Base.{
  ℕ, String, ◌≡◌, ◌≢◌, refl, true, false, ◌==◌, Option, some, List, [], ◌∷◌, ◌++◌, count, arith,
  eq_iff,
}
use apheleia.Base.Dict.{entry}
use apheleia.Api.{ComponentBuild}
use apheleia.Api.Meta.{OwnerReference}
use apheleia.Platform.{Platform, Reply, ok, PipelineRun}
use apheleia.Exec.{updated_status, World, on_option, on_reply, ◌>>=◌}
use apheleia.Reconciler.Component.{handle_component_build_received}
use apheleia.Reconciler.Component.Bounds.{is_notification}
use apheleia.Reconciler.Component.Reported.{is_reported, handle_component_build_received_reported}
use apheleia.Reconciler.Runs.{
  owner_name, pipeline_run_owned, pipeline_run_with_owner, pipeline_run_completed,
  handle_pipeline_run_received,
}

-- The name of the ComponentBuild that owns a run.
abbrev pub component_of : PipelineRun → String
component_of pr = owner_name "componentbuild" "componentbuilds" pr.metadata.owner_references

-- The ComponentBuild with the flag that its outcome was reported.
abbrev pub notified : ComponentBuild → ComponentBuild
notified cb = record cb { status = record cb.status { result_notified = true } }

module _ (P : Platform) where
  -- A run of the notifier that has ended with success and has an owner.
  pub record HasNotified (pr : PipelineRun) : Type 0 where
    pub notifier : entry "tekton.dev/pipeline" pr.metadata.labels ≡ "component-build-notifier"
    pub ended : ℕ
    pub ends : pr.completion_time ≡ some ended
    pub succeeds : P.is_true pr.succeeded ≡ true
    pub owned : component_of pr ≢ ""

  module _ (pr : PipelineRun) (cb : ComponentBuild) (w : World P)
      (succeeds : P.is_true pr.succeeded ≡ true) where
    -- One status update was sent, of the ComponentBuild with the flag.
    abbrev Marks : Option (Reply (Unit {0})) × World P → Type 0
    Marks x = x.1.requests ≡ w.requests ++ (updated_status (notified cb) ∷ [])

    with_owner-Marks :
        (name : String)
        → (P.get_component_build
            (record { namespace = pr.metadata.namespace; name = name })
            w.cluster).0
          ≡ ok cb
        → Marks (pipeline_run_with_owner P pr name w)
    unfolding pipeline_run_with_owner pipeline_run_owned ◌>>=◌ on_reply
    with_owner-Marks name h = rw (h, succeeds) refl

    completed-Marks :
        (refs : List OwnerReference)
        → owner_name "componentbuild" "componentbuilds" refs ≢ ""
        → (P.get_component_build
            (record {
              namespace = pr.metadata.namespace;
              name = owner_name "componentbuild" "componentbuilds" refs;
            })
            w.cluster).0
          ≡ ok cb
        → Marks (pipeline_run_completed P pr refs w)
    unfolding pipeline_run_completed owner_name
    completed-Marks [] n h = absurd (n refl)
    completed-Marks (o ∷ refs) n h =
        let name = owner_name "componentbuild" "componentbuilds" (o ∷ refs) in
        let there : (name == "") ≡ false = ground (arith, n, eq_iff name "") in
        rw there (with_owner-Marks name h)

  reported_lem : (cb : ComponentBuild) → is_reported (notified cb) ≡ true
  reported_lem cb = ground arith

  -- handlePipelineRunReceived, for a run of the notifier that has ended with success and whose
  -- owner, a ComponentBuild, can be read, sends one request: a status update with that
  -- ComponentBuild as it was read, but for the flag that its outcome was reported, which it sets
  -- whatever the state is. The next handling of the ComponentBuild then creates no notification,
  -- whatever outcome it finds.
  pub handle_pipeline_run_received-notified :
      (pr : PipelineRun) (cb : ComponentBuild) (w w' : World P)
      → HasNotified pr
      → (P.get_component_build
          (record { namespace = pr.metadata.namespace; name = component_of pr })
          w.cluster).0
        ≡ ok cb
      → ((handle_pipeline_run_received P pr w).1.requests
          ≡ w.requests ++ (updated_status (notified cb) ∷ []))
        × ((r : Reply (Unit {0})) × ((handle_component_build_received P (notified cb) w').0
              ≡ some r)
            × (count is_notification (handle_component_build_received P (notified cb) w').1.requests
                ≡ count is_notification w'.requests))
  unfolding handle_pipeline_run_received on_option pipeline_run_completed pipeline_run_with_owner
      pipeline_run_owned
  handle_pipeline_run_received-notified pr cb w w' h e = (
    rw (h.notifier, h.ends)
        (completed-Marks pr cb w h.succeeds pr.metadata.owner_references h.owned e),
    handle_component_build_received_reported P (notified cb) w' (reported_lem cb),
  )
