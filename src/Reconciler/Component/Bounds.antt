-- ===== src/Reconciler/Component/Bounds.antt =====
-- handleComponentBuildReceived of pkg/reconciler/componentbuild/componentbuild.go: how many
-- requests one call sends.
use apheleia.Base.{
  ℕ, ◌+◌, ◌≤◌, String, Bool, true, false, ◌≡◌, refl, List, [], ◌∷◌, some, count, length,
  count-length, arith, if◌then◌else◌,
}
use apheleia.Api.{ComponentBuild}
use apheleia.Platform.{Platform, Reply, ArtifactBuild, TaskRun, PipelineRun}
use apheleia.Exec.{
  Request, World, created_artifact_build, created_task_run, created_pipeline_run, updated_status,
  updated_dependency_build, recorded_event, unless_err,
}
use apheleia.Exec.Sends.{Sends, Sends-pure, Sends-send, Sends-unless_err, sends_rules}
use apheleia.Reconciler.Artifact.{
  DeployConfig, get_dependency_build, artifact_state, start_deploy, deploy_found, deploy_artifact,
}
use apheleia.Reconciler.Notify.{notifier_message, create_notification, notify_result}
use apheleia.Reconciler.Plain.{handle_component_build_received-Keeps}
use apheleia.Reconciler.Component.{
  track_existing, create_missing, visit_artifact, visit_artifacts, put_status, notify_once,
  complete, settle, reset_status, handle_with_config, handle_component_build_received,
}

-- n times
abbrev pub times : ℕ → List String → ℕ
times n [] = 0
times n (_ ∷ gavs) = n + times n gavs

-- A test of requests, with what one request of each kind may count.
module _ (P : Platform) (p : Request → Bool) (work report status : ℕ)
    (artifact_work : (a : ArtifactBuild) → (if p (created_artifact_build a) then 1 else 0) ≤ work)
    (task_work : (r : TaskRun) → (if p (created_task_run r) then 1 else 0) ≤ work)
    (run_report : (r : PipelineRun) → (if p (created_pipeline_run r) then 1 else 0) ≤ report)
    (status_status : (cb : ComponentBuild)
      → (if p (updated_status cb) then 1 else 0) ≤ status) where
  get_dependency_build-Sends : (abr : ArtifactBuild) → Sends p 0 (get_dependency_build P abr)
  unfolding get_dependency_build
  get_dependency_build-Sends abr = search sends_rules depth 12

  artifact_state-Sends : (abr : ArtifactBuild) → Sends p 0 (artifact_state P abr)
  unfolding artifact_state
  artifact_state-Sends abr = search (sends_rules, get_dependency_build-Sends) depth 12

  deploy_artifact-Sends :
      (abr : ArtifactBuild) (conf : DeployConfig) → Sends p work (deploy_artifact P abr conf)
  unfolding deploy_artifact start_deploy deploy_found
  deploy_artifact-Sends abr conf =
      search (sends_rules, Sends-send, task_work, get_dependency_build-Sends) depth 12

  visit_artifact-Sends :
      (conf : DeployConfig) (cb : ComponentBuild) (gav : String)
      → Sends p work (visit_artifact P conf cb gav)
  unfolding visit_artifact track_existing create_missing
  visit_artifact-Sends conf cb gav =
      search (sends_rules, Sends-send, artifact_work, artifact_state-Sends, deploy_artifact-Sends)
        depth 16

  pub visit_artifacts-Sends :
      (conf : DeployConfig) (gavs : List String) (cb : ComponentBuild)
      → Sends p (times work gavs) (visit_artifacts P conf gavs cb)
  unfolding visit_artifacts
  visit_artifacts-Sends conf [] cb = Sends-pure _
  visit_artifacts-Sends conf (gav ∷ gavs) cb =
      Sends-unless_err work (times work gavs) _ _ _ (visit_artifact-Sends conf cb gav)
        (visit_artifacts-Sends conf gavs) refl

  pub notify_once-Sends : (cb : ComponentBuild) → Sends p report (notify_once P cb)
  unfolding notify_once notify_result create_notification notifier_message
  notify_once-Sends cb = search (sends_rules, Sends-send, run_report) depth 16

  pub put_status-Sends : (n : ℕ) (cb : ComponentBuild) → status ≤ n → Sends p n (put_status P cb)
  put_status-Sends n cb h = Sends-send _ _ (omega (arith, status_status cb))

  settle-Sends : (cb : ComponentBuild) → Sends p (report + status) (settle P cb)
  unfolding settle complete
  settle-Sends cb = search (sends_rules, settled-Sends, progress-Sends) depth 6
    where
      settled-Sends :
          (cb : ComponentBuild)
          → Sends p (report + status) (unless_err (notify_once P cb) (λ _. put_status P cb))
      settled-Sends cb =
          Sends-unless_err report status _ _ _ (notify_once-Sends cb)
            (λ _. put_status-Sends status cb (omega arith)) refl

      progress-Sends : (cb : ComponentBuild) → Sends p (report + status) (put_status P cb)
      progress-Sends cb = put_status-Sends _ cb (omega arith)

  pub handle_component_build_received-Sends :
      (cb : ComponentBuild)
      → Sends p
          (times work cb.spec.artifacts + (report + status))
          (handle_component_build_received P cb)
  unfolding handle_component_build_received handle_with_config reset_status
  handle_component_build_received-Sends cb =
      search (sends_rules, unconfigured-Sends, loop-Sends) depth 8
    where
      unconfigured-Sends :
          (cb' : ComponentBuild)
          → Sends p (times work cb.spec.artifacts + (report + status)) (put_status P cb')
      unconfigured-Sends cb' = put_status-Sends _ cb' (omega arith)

      loop-Sends :
          (conf : DeployConfig) (cb' : ComponentBuild)
          → Sends p
              (times work cb.spec.artifacts + (report + status))
              (unless_err (visit_artifacts P conf cb.spec.artifacts cb') (settle P))
      loop-Sends conf cb' =
          Sends-unless_err _ _ _ _ _ (visit_artifacts-Sends conf cb.spec.artifacts cb') settle-Sends
            refl

abbrev pub is_notification : Request → Bool
is_notification (created_pipeline_run r) = true
is_notification _ = false

abbrev pub is_status_update : Request → Bool
is_status_update (updated_status cb) = true
is_status_update _ = false

-- Neither a creation of an artifact's object, nor a notification, nor a status update.
abbrev pub is_other : Request → Bool
is_other (updated_dependency_build db) = true
is_other (recorded_event kind reason format arguments) = true
is_other _ = false

times_one : (gavs : List String) → times 1 gavs ≡ length gavs
times_one [] = refl
times_one (gav ∷ gavs) = omega (arith, times_one gavs)

pub times_zero : (gavs : List String) → times 0 gavs ≡ 0
times_zero [] = refl
times_zero (gav ∷ gavs) = omega (arith, times_zero gavs)

-- The requests `rs` that follow `before`, for a ComponentBuild with these artifacts.
pub record IsBounded (before rs : List Request) (artifacts : List String) : Type 0 where
  pub total : length rs ≤ length before + (length artifacts + 2)
  pub notifications : count is_notification rs ≤ count is_notification before + 1
  pub status_updates : count is_status_update rs ≤ count is_status_update before + 1
  pub others : count is_other rs ≤ count is_other before

module _ (P : Platform) (cb : ComponentBuild) (w : World P) where
  -- Each count of the requests after the call.
  sent :
      (p : Request → Bool) (work report status n : ℕ)
      → ((a : ArtifactBuild) → (if p (created_artifact_build a) then 1 else 0) ≤ work)
      → ((r : TaskRun) → (if p (created_task_run r) then 1 else 0) ≤ work)
      → ((r : PipelineRun) → (if p (created_pipeline_run r) then 1 else 0) ≤ report)
      → ((cb : ComponentBuild) → (if p (updated_status cb) then 1 else 0) ≤ status)
      → times work cb.spec.artifacts + (report + status) ≤ n
      → count p (handle_component_build_received P cb w).1.requests ≤ count p w.requests + n
  sent p work report status n ha ht hr hs le =
      let (r, e, q) =
        ((handle_component_build_received-Sends P p work report status ha ht hr hs cb).triple
            (count p w.requests)).at
          w (omega arith) in
      omega (arith, q, le)

  -- Whatever the cluster answers, handleComponentBuildReceived returns. It sends at most one
  -- request for each artifact of the spec and two more, at most one of them a notification and at
  -- most one a status update; it records no event, and marks no DependencyBuild.
  pub handle_component_build_received-IsBounded :
      (r : Reply (Unit {0})) × ((handle_component_build_received P cb w).0 ≡ some r)
      × IsBounded w.requests (handle_component_build_received P cb w).1.requests cb.spec.artifacts
  handle_component_build_received-IsBounded = (
    r,
    e,
    record {
      total = omega (
        arith,
        sent (λ _. true) 1 1 1 (length cb.spec.artifacts + 2) (λ _. omega arith) (λ _. omega arith)
            (λ _. omega arith) (λ _. omega arith) (omega (arith, times_one cb.spec.artifacts)),
        count-length w.requests,
        count-length (handle_component_build_received P cb w).1.requests,
      );
      notifications =
          sent is_notification 0 1 0 1 (λ _. omega arith) (λ _. omega arith) (λ _. omega arith)
            (λ _. omega arith) (omega (arith, times_zero cb.spec.artifacts));
      status_updates =
          sent is_status_update 0 0 1 1 (λ _. omega arith) (λ _. omega arith) (λ _. omega arith)
            (λ _. omega arith) (omega (arith, times_zero cb.spec.artifacts));
      others = omega (
        arith,
        sent is_other 0 0 0 0 (λ _. omega arith) (λ _. omega arith) (λ _. omega arith)
            (λ _. omega arith) (omega (arith, times_zero cb.spec.artifacts)),
      );
    },
  )
    where
      returned :
          (r : Reply (Unit {0})) × ((handle_component_build_received P cb w).0 ≡ some r) × Unit {0}
      returned =
          (handle_component_build_received-Keeps P (λ _. Unit {0}) (λ rs r h p. tt) cb).triple.at w
            tt

      r : Reply (Unit {0})
      r = returned.0

      e : (handle_component_build_received P cb w).0 ≡ some r
      e = returned.1
