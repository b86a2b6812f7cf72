-- ===== src/Reconciler/Component/Success.antt =====
-- handleComponentBuildReceived of pkg/reconciler/componentbuild/componentbuild.go succeeds where
-- the calls succeed that it cannot do without.
use apheleia.Base.{String, ◌≡◌, List, [], ◌∷◌, some, if◌then◌else◌}
use apheleia.Api.{ComponentBuild}
use apheleia.Platform.{Platform, Reply, ok, err, ArtifactBuild, ConfigMap}
use apheleia.Platform.Laws.{IsOk, IsAnswer, IsFaithful, IsReliable}
use apheleia.Exec.{World, pure, on_reply, ◌>>=◌}
use apheleia.Exec.Keeps.{Keeps, Keeps-read, keeps_rules}
use apheleia.Exec.Succeeds.{Any, Succeeds, Succeeds-unless_err, Succeeds-pure, succeeds_rules}
use apheleia.Reconciler.Artifact.{DeployConfig, artifact_state, deploy_artifact}
use apheleia.Reconciler.Notify.{notify_result, notifier_message, create_notification}
use apheleia.Reconciler.Plain.{artifact_state-Keeps, deploy_artifact-Keeps}
use apheleia.Reconciler.Component.Status.{
  Wrote, Outcome, Distinct, configured, config_key, handle_component_build_received-status,
}
use apheleia.Reconciler.Component.{
  no_config, config_of, track_existing, create_missing, visit_artifact, visit_artifacts,
  notify_once, complete, settle, handle_with_config, handle_component_build_received,
}

module _ (P : Platform) (R : IsReliable P) where
  state_returns : (abr : ArtifactBuild) → Keeps Any (artifact_state P abr)
  state_returns = artifact_state-Keeps P Any (λ rs r h p. tt)

  deploy_returns :
      (abr : ArtifactBuild) (conf : DeployConfig) → Keeps Any (deploy_artifact P abr conf)
  deploy_returns = deploy_artifact-Keeps P Any (λ rs r h p. tt)

  message_returns : (cb : ComponentBuild) → Keeps Any (notifier_message P cb)
  unfolding notifier_message
  message_returns cb = search keeps_rules

  track_returns :
      (conf : DeployConfig) (cb : ComponentBuild) (gav : String) (abr : ArtifactBuild)
      → Keeps Any (track_existing P conf cb gav abr)
  unfolding track_existing
  track_returns conf cb gav abr = search (keeps_rules, state_returns, deploy_returns) depth 8

  visit_artifact-Succeeds :
      (conf : DeployConfig) (cb : ComponentBuild) (gav : String)
      → Succeeds (visit_artifact P conf cb gav)
  unfolding visit_artifact create_missing
  visit_artifact-Succeeds conf cb gav =
      search (succeeds_rules, Keeps-read, track_returns, state_returns, R.creates) depth 12

  visit_artifacts-Succeeds :
      (conf : DeployConfig) (gavs : List String) (cb : ComponentBuild)
      → Succeeds (visit_artifacts P conf gavs cb)
  unfolding visit_artifacts
  visit_artifacts-Succeeds conf [] cb = Succeeds-pure cb
  visit_artifacts-Succeeds conf (gav ∷ gavs) cb =
      Succeeds-unless_err _ _ (visit_artifact-Succeeds conf cb gav)
        (visit_artifacts-Succeeds conf gavs)

  notify_result-Succeeds : (cb : ComponentBuild) → Succeeds (notify_result P cb)
  unfolding notify_result create_notification
  notify_result-Succeeds cb =
      search (succeeds_rules, message_returns, R.lists, R.notifies, R.parses) depth 12

  settle-Succeeds : (cb : ComponentBuild) → Succeeds (settle P cb)
  unfolding settle complete notify_once
  settle-Succeeds cb =
      search (succeeds_rules, Keeps-read, notify_result-Succeeds, R.updates) depth 12

  handle_with_config-Succeeds :
      (cb : ComponentBuild) (conf : DeployConfig) → Succeeds (handle_with_config P cb conf)
  unfolding handle_with_config
  handle_with_config-Succeeds cb conf =
      search (succeeds_rules, visit_artifacts-Succeeds, settle-Succeeds, R.updates) depth 8

  config_read-Succeeds :
      (cb : ComponentBuild) (cm : Reply ConfigMap)
      → IsAnswer P cm
      → Succeeds (
          on_reply cm
            (λ e. if P.is_not_found e then handle_with_config P cb no_config else pure (err e))
            (λ m. handle_with_config P cb (config_of m.contents)))
  unfolding on_reply
  config_read-Succeeds cb (ok m) h = handle_with_config-Succeeds cb (config_of m.contents)
  config_read-Succeeds cb (err e) h = rw h (handle_with_config-Succeeds cb no_config)

  handle_component_build_received_returns :
      (cb : ComponentBuild) (w : World P)
      → (r : Reply (Unit {0})) × ((handle_component_build_received P cb w).0 ≡ some r) × IsOk r
  unfolding handle_component_build_received ◌>>=◌
  handle_component_build_received_returns cb w =
      (config_read-Succeeds cb (P.get_config_map (config_key cb) w.cluster).0
          (R.config (config_key cb) w.cluster)).triple.at
        (record w { cluster = (P.get_config_map (config_key cb) w.cluster).1 }) tt

-- With a platform that does as documented and whose calls succeed, and a spec that names no
-- artifact twice, handleComponentBuildReceived returns no error, and its last request is the status
-- update that the config and the artifacts call for.
pub handle_component_build_received-ok :
    (P : Platform)
    → IsReliable P
    → IsFaithful P
    → (cb : ComponentBuild) (w : World P) → Distinct cb.spec.artifacts
    → ((handle_component_build_received P cb w).0 ≡ some (ok tt))
      × Wrote
          (Outcome P cb (configured (P.get_config_map (config_key cb) w.cluster).0))
          (ok tt)
          (handle_component_build_received P cb w).1.requests
handle_component_build_received-ok P R F cb w distinct =
    both (handle_component_build_received_returns P R cb w)
      (handle_component_build_received-status P F cb w distinct)
  where
    both :
        (r : Reply (Unit {0})) × ((handle_component_build_received P cb w).0 ≡ some r) × IsOk r
        → (r : Reply (Unit {0})) × ((handle_component_build_received P cb w).0 ≡ some r)
          × Wrote
              (Outcome P cb (configured (P.get_config_map (config_key cb) w.cluster).0))
              r
              (handle_component_build_received P cb w).1.requests
        → ((handle_component_build_received P cb w).0 ≡ some (ok tt))
          × Wrote
              (Outcome P cb (configured (P.get_config_map (config_key cb) w.cluster).0))
              (ok tt)
              (handle_component_build_received P cb w).1.requests
    both (ok x, e, h) (ok y, e', k) = (e, k)
    both (ok x, e, h) (err y, e', k) = absurd cc
    both (err x, e, h) q = absurd h
