-- ===== src/Reconciler/Notify.antt =====
-- pkg/reconciler/componentbuild/componentbuild.go: notifyResult, which reports the outcome of a
-- ComponentBuild as a comment on its pull request.
pub mod Requests
use apheleia.Base.{String, ◌<>◌, Bool, true, false, none, some, List, [], ◌∷◌, ◌==◌, if◌then◌else◌}
use apheleia.Base.Text.{join}
use apheleia.Api.{
  ArtifactState, ComponentBuild, component_build_state_failed, component_build_state_complete,
}
use apheleia.Api.Meta.{empty_metadata}
use apheleia.Platform.{Platform, Reply, ok, err, PipelineRun, Quantity}
use apheleia.Exec.{Exec, pure, read, send, created_pipeline_run, on_reply, unless_err, ◌>>=◌}
use apheleia.Reconciler.{notify_pipeline_label}
use apheleia.Reconciler.Artifact.{owned, string_param}

-- failedGavs, from the entries in the order of the loop
unfoldable pub failed_gavs : List (String × ArtifactState) → List String
failed_gavs [] = []
failed_gavs ((gav, v) ∷ entries) =
    let rest = failed_gavs entries in if v.failed then gav ∷ rest else rest

unfoldable pub failed_message : List String → String
unfolding join
failed_message gavs = "The following dependency builds have failed: " <> (join gavs ", " <> ".")

abbrev pub complete_message : String
complete_message = "/retest Success all dependency builds have completed."

module _ (P : Platform) where
  -- Whether the condition of one of the runs is unknown, so that it still runs.
  unfoldable pub any_pipeline_unknown : List PipelineRun → Bool
  any_pipeline_unknown [] = false
  any_pipeline_unknown (i ∷ items) =
      let rest = any_pipeline_unknown items in if P.is_unknown i.succeeded then true else rest

  -- notifierMessage
  unfoldable pub notifier_message : ComponentBuild → Exec P String
  unfolding failed_gavs failed_message
  notifier_message cb =
      if cb.status.state == component_build_state_failed
      then (do
        entries ← read (P.range cb.status.artifact_state)
        pure (failed_message (failed_gavs entries)))
      else if cb.status.state == component_build_state_complete
      then pure complete_message
      else pure ""

  -- The PipelineRun `tr` that is created.
  unfoldable pub notify_pipeline_run : ComponentBuild → String → Quantity → PipelineRun
  notify_pipeline_run cb message qty =
      let meta = record empty_metadata {
        generate_name = cb.metadata.name <> "-notify-pipeline";
        namespace = cb.metadata.namespace;
      } in
      record {
        metadata = record (owned P meta (P.set_controller_reference cb meta)) {
          labels = (notify_pipeline_label, cb.metadata.name) ∷ [];
        };
        pipeline_ref = some "component-build-notifier";
        params =
            string_param P "url" cb.spec.pr_url
            ∷ string_param P "secret-key-ref" "jvm-build-git-secrets"
            ∷ string_param P "message" message
            ∷ [];
        workspaces =
            record { name = "pr"; access_modes = P.read_write_once ∷ []; storage = qty } ∷ [];
        completion_time = none;
        succeeded = none;
      }

  -- The part of notifyResult after the look at the runs that exist.
  unfoldable pub create_notification : ComponentBuild → Exec P (Reply (Unit {0}))
  create_notification cb = do
    message ← notifier_message cb
    on_reply (P.parse_quantity "1Gi") (λ e. pure (err e))
        λ qty.
          let tr = notify_pipeline_run cb message qty in
          send (created_pipeline_run tr) (P.create_pipeline_run tr)

  unfoldable pub notify_result : ComponentBuild → Exec P (Reply (Unit {0}))
  notify_result cb =
      if cb.spec.pr_url == ""
      then pure (ok tt)
      else unless_err
          (read (P.list_pipeline_runs cb.metadata.namespace notify_pipeline_label cb.metadata.name))
          (λ items. if any_pipeline_unknown items then pure (ok tt) else create_notification cb)
