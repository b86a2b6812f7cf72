-- ===== src/Reconciler/Component.antt =====
-- pkg/reconciler/componentbuild/componentbuild.go: handleComponentBuildReceived. The pointer `cb`
-- that the method writes through is the value that its parts pass on.
pub mod Frame
pub mod Progress
pub mod Status
pub mod Success
pub mod Outcome
pub mod Bounds
pub mod Reported
pub mod Stable
pub mod Convergence
use apheleia.Base.{
  suc, String, Bool, true, false, List, [], ◌∷◌, ◌&&◌, ◌||◌, ◌==◌, not, nat_eq, if◌then◌else◌,
}
use apheleia.Base.Dict.{Dict, entry, insert}
use apheleia.Api.{
  ArtifactState, ComponentBuild, ComponentBuildStatus, done, component_build_state_failed,
  component_build_state_complete, component_build_state_in_progress,
}
use apheleia.Api.Meta.{empty_metadata}
use apheleia.Platform.{Platform, Reply, ok, err, ArtifactBuild}
use apheleia.Exec.{
  Exec, pure, read, send, created_artifact_build, updated_status, on_reply, unless_err, ◌>>=◌, ◌>>◌,
}
use apheleia.Reconciler.{apheleia_config, maven_repo, aws_domain, aws_owner}
use apheleia.Reconciler.Artifact.{DeployConfig, artifact_state, deploy_artifact}
use apheleia.Reconciler.Notify.{notify_result}

abbrev pub no_config_message : String
no_config_message =
    "Some or all deployment config missing, please create a apheleia-config config map with the following keys: maven-repo, aws-owner, aws-domain"

abbrev pub no_config : DeployConfig
no_config = record { url = ""; owner = ""; domain = "" }

unfoldable pub config_of : Dict String → DeployConfig
config_of m = record {
  url = entry maven_repo m;
  owner = entry aws_owner m;
  domain = entry aws_domain m;
}

-- One of the three values is missing or empty.
unfoldable pub is_incomplete : DeployConfig → Bool
is_incomplete conf = conf.url == "" || conf.owner == "" || conf.domain == ""

-- The assignments to the status between the test of the config and the loop.
unfoldable pub reset_status : ComponentBuild → ComponentBuild
reset_status cb = record cb {
  status = record cb.status {
    message = if cb.status.message == no_config_message then "" else cb.status.message;
    outstanding = 0;
    artifact_state = [];
  };
}

-- cb.Status.ArtifactState[gav] = state
unfoldable pub set_artifact : String → ArtifactState → ComponentBuild → ComponentBuild
set_artifact gav state cb = record cb {
  status = record cb.status { artifact_state = insert gav state cb.status.artifact_state };
}

-- cb.Status.Outstanding++
unfoldable pub add_outstanding : ComponentBuild → ComponentBuild
add_outstanding cb = record cb {
  status = record cb.status { outstanding = suc cb.status.outstanding };
}

-- !state.Done() && !state.Failed
unfoldable pub is_pending : ArtifactState → Bool
unfolding done
is_pending state = not (done state) && not state.failed

-- The loop that looks for a failed artifact and stops at the first.
unfoldable pub any_failed : List (String × ArtifactState) → Bool
any_failed [] = false
any_failed ((gav, v) ∷ entries) = let rest = any_failed entries in if v.failed then true else rest

abbrev pub set_state : String → ComponentBuild → ComponentBuild
set_state state cb = record cb { status = record cb.status { state = state } }

-- Go's zero value, which a failed Get leaves.
abbrev pub empty_artifact_build : ArtifactBuild
empty_artifact_build = record { metadata = empty_metadata; gav = ""; state = "" }

-- Whether the outcome has still to be reported.
unfoldable pub must_notify : ComponentBuildStatus → Bool
must_notify s =
    (s.state == component_build_state_complete || s.state == component_build_state_failed)
    && not s.result_notified

-- The branch in which some artifacts are outstanding.
unfoldable pub in_progress : ComponentBuild → ComponentBuild
in_progress cb = record cb {
  status = record cb.status { state = component_build_state_in_progress; result_notified = false };
}

module _ (P : Platform) where
  abbrev pub put_status : ComponentBuild → Exec P (Reply (Unit {0}))
  put_status cb = send (updated_status cb) (P.update_status cb)

  -- The loop's body for an ArtifactBuild that exists. An error of deployArtifact is logged.
  unfoldable pub track_existing :
      DeployConfig → ComponentBuild → String → ArtifactBuild → Exec P ComponentBuild
  unfolding set_artifact add_outstanding is_pending
  track_existing conf cb gav existing = do
    state ← artifact_state P existing
    let cb' = set_artifact gav state cb
    let cb'' = if is_pending state then add_outstanding cb' else cb'
    if state.built && not state.deployed
        then (do deploy_artifact P existing conf; pure cb'')
        else pure cb''

  -- The ArtifactBuild `abr` that is created.
  unfoldable pub new_artifact_build : ComponentBuild → String → ArtifactBuild
  new_artifact_build cb gav = record {
    metadata = record empty_metadata {
      name = P.create_abr_name gav;
      namespace = cb.metadata.namespace;
    };
    gav = gav;
    state = "";
  }

  -- The loop's body for an artifact that has no ArtifactBuild.
  unfoldable pub create_missing : ComponentBuild → String → Exec P (Reply ComponentBuild)
  unfolding set_artifact add_outstanding
  create_missing cb gav =
      let abr = new_artifact_build cb gav in
      unless_err (send (created_artifact_build abr) (P.create_artifact_build abr)) (λ created. do
        state ← artifact_state P created
        pure (ok (add_outstanding (set_artifact gav state cb))))

  -- The loop's body.
  unfoldable pub visit_artifact :
      DeployConfig → ComponentBuild → String → Exec P (Reply ComponentBuild)
  visit_artifact conf cb gav = do
    existing ← read (
        P.get_artifact_build
          (record { namespace = cb.metadata.namespace; name = P.create_abr_name gav }))
    on_reply existing
        (λ e.
          if P.is_not_found e
          then create_missing cb gav
          else (do cb' ← track_existing conf cb gav empty_artifact_build; pure (ok cb')))
        (λ abr. do cb' ← track_existing conf cb gav abr; pure (ok cb'))

  -- The loop over cb.Spec.Artifacts.
  unfoldable pub visit_artifacts :
      DeployConfig → List String → ComponentBuild → Exec P (Reply ComponentBuild)
  visit_artifacts conf [] cb = pure (ok cb)
  visit_artifacts conf (gav ∷ gavs) cb =
      unless_err (visit_artifact conf cb gav) (λ cb'. visit_artifacts conf gavs cb')

  -- The notification of an outcome that has not been reported.
  unfoldable pub notify_once : ComponentBuild → Exec P (Reply (Unit {0}))
  unfolding must_notify
  notify_once cb = if must_notify cb.status then notify_result P cb else pure (ok tt)

  -- The branch in which nothing is outstanding, up to the return.
  unfoldable pub complete : ComponentBuild → Exec P (Reply (Unit {0}))
  unfolding any_failed
  complete cb = do
    entries ← read (P.range cb.status.artifact_state)
    let cb' =
        set_state
          (if any_failed entries
            then component_build_state_failed
            else component_build_state_complete)
          cb
    unless_err (notify_once cb') (λ _. put_status cb')

  -- What follows the loop.
  unfoldable pub settle : ComponentBuild → Exec P (Reply (Unit {0}))
  unfolding in_progress
  settle cb = if nat_eq cb.status.outstanding 0 then complete cb else put_status (in_progress cb)

  -- What follows the reading of the config.
  unfoldable pub handle_with_config : ComponentBuild → DeployConfig → Exec P (Reply (Unit {0}))
  unfolding is_incomplete reset_status
  handle_with_config cb conf =
      if is_incomplete conf
      then put_status (record cb { status = record cb.status { message = no_config_message } })
      else unless_err (visit_artifacts conf cb.spec.artifacts (reset_status cb)) settle

  unfoldable pub handle_component_build_received : ComponentBuild → Exec P (Reply (Unit {0}))
  unfolding config_of
  handle_component_build_received cb = do
    cm ←
        read
          (P.get_config_map (record { namespace = cb.metadata.namespace; name = apheleia_config }))
    on_reply cm (λ e. if P.is_not_found e then handle_with_config cb no_config else pure (err e))
        (λ m. handle_with_config cb (config_of m.contents))
