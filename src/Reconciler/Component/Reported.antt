-- ===== src/Reconciler/Component/Reported.antt =====
-- handleComponentBuildReceived of pkg/reconciler/componentbuild/componentbuild.go: an outcome that
-- was reported is not reported again.
use apheleia.Base.{
  ℕ, ◌≤◌, String, ◌≡◌, ap, ◌++◌, ◌∙◌, Bool, true, false, ◌||◌, ◌==◌, List, [], ◌∷◌, some, count,
  count-append, arith, Bool-cases, inl, inr,
}
use apheleia.Api.{ComponentBuild}
use apheleia.Platform.{Platform, Reply}
use apheleia.Exec.{
  Request, World, created_artifact_build, created_task_run, created_pipeline_run,
  updated_dependency_build, updated_status, recorded_event, unless_err,
}
use apheleia.Exec.Triple.{Triple-unless_err, Triple-given_and}
use apheleia.Exec.Sends.{Sends, Sends-pure, Sends-send, sends_rules}
use apheleia.Exec.Keeps.{Keeps}
use apheleia.Reconciler.Artifact.{DeployConfig}
use apheleia.Reconciler.Notify.{notify_result}
use apheleia.Reconciler.Plain.{handle_component_build_received-Keeps}
use apheleia.Reconciler.Component.{
  set_state, in_progress, reset_status, must_notify, put_status, visit_artifacts, notify_once,
  complete, settle, handle_with_config, handle_component_build_received,
}
use apheleia.Reconciler.Component.Bounds.{is_notification}
use apheleia.Reconciler.Component.Frame.{frame, is_work, IsFramed, visit_artifacts-IsFramed}

-- The outcome was reported, or there is no pull request to report it on.
abbrev pub is_reported : ComponentBuild → Bool
is_reported cb = cb.spec.pr_url == "" || cb.status.result_notified

module _ (P : Platform) where
  -- A request of the loop is no notification.
  work_grows :
      (k : ℕ) (rs : List Request) (r : Request)
      → is_work r ≡ true
      → count is_notification rs ≤ k
      → count is_notification (rs ++ (r ∷ [])) ≤ k
  work_grows k rs (created_artifact_build a) h p =
      rw (count-append is_notification rs (created_artifact_build a ∷ [])) (omega (arith, p))
  work_grows k rs (created_task_run t) h p =
      rw (count-append is_notification rs (created_task_run t ∷ [])) (omega (arith, p))
  work_grows k rs (created_pipeline_run t) h p = absurd cc
  work_grows k rs (updated_dependency_build t) h p = absurd cc
  work_grows k rs (updated_status t) h p = absurd cc
  work_grows k rs (recorded_event a b c d) h p = absurd cc

  flagged : (cb : ComponentBuild) → cb.status.result_notified ≡ true → must_notify cb.status ≡ false
  unfolding must_notify
  flagged cb h = ground (arith, h)

  quiet_once :
      (cb : ComponentBuild) → is_reported cb ≡ true → Sends is_notification 0 (notify_once P cb)
  unfolding notify_once notify_result
  quiet_once cb h = elim (Bool-cases cb.status.result_notified) [
    | inl e ↦ rw (flagged cb e) (Sends-pure _)
    | inr e ↦
        let no_request : (cb.spec.pr_url == "") ≡ true = ground (arith, h, e) in
        rw no_request (search sends_rules)
  ]

  quiet_settle :
      (cb : ComponentBuild) → is_reported cb ≡ true → Sends is_notification 0 (settle P cb)
  unfolding settle complete in_progress
  quiet_settle cb h = search (sends_rules, once, status) depth 8
    where
      once : (s : String) → Sends is_notification 0 (notify_once P (set_state s cb))
      once s = quiet_once (set_state s cb) h

      status : (cb' : ComponentBuild) → Sends is_notification 0 (put_status P cb')
      status cb' = Sends-send _ _ (omega arith)

  quiet_loop :
      (conf : DeployConfig) (gavs : List String) (cb : ComponentBuild)
      → is_reported cb ≡ true
      → Sends is_notification 0 (unless_err (visit_artifacts P conf gavs cb) (settle P))
  quiet_loop conf gavs cb h = record {
    triple = λ k.
        Triple-unless_err (IsFramed P (λ rs. count is_notification rs ≤ k) (work_grows k) cb) _ _
          (visit_artifacts-IsFramed P (λ rs. count is_notification rs ≤ k) (work_grows k) conf gavs
            cb)
          (λ cb'.
            Triple-given_and (frame cb' ≡ frame cb) _ _ _
              λ e. (quiet_settle cb' (ap is_reported e ∙ h)).triple k)
          (λ e rs p. omega (arith, p));
  }

  quiet_handle :
      (cb : ComponentBuild)
      → is_reported cb ≡ true
      → Sends is_notification 0 (handle_component_build_received P cb)
  unfolding handle_component_build_received handle_with_config reset_status
  quiet_handle cb h = search (sends_rules, loop, status) depth 10
    where
      loop :
          (conf : DeployConfig) (cb' : ComponentBuild)
          → is_reported cb' ≡ true
          → Sends is_notification 0
              (unless_err (visit_artifacts P conf cb.spec.artifacts cb') (settle P))
      loop conf cb' e = quiet_loop conf cb.spec.artifacts cb' e

      status : (cb' : ComponentBuild) → Sends is_notification 0 (put_status P cb')
      status cb' = Sends-send _ _ (omega arith)

  -- The number of notifications never falls.
  grown :
      (n : ℕ) (cb : ComponentBuild)
      → Keeps (λ rs. n ≤ count is_notification rs) (handle_component_build_received P cb)
  grown n =
      handle_component_build_received-Keeps P (λ rs. n ≤ count is_notification rs)
        (λ rs r h p. rw (count-append is_notification rs (r ∷ [])) (omega (arith, p)))

  -- Where the flag of the status says that the outcome was reported, or the spec has no pull
  -- request, handleComponentBuildReceived returns and creates no notification.
  pub handle_component_build_received_reported :
      (cb : ComponentBuild) (w : World P)
      → is_reported cb ≡ true
      → (r : Reply (Unit {0})) × ((handle_component_build_received P cb w).0 ≡ some r)
        × (count is_notification (handle_component_build_received P cb w).1.requests
            ≡ count is_notification w.requests)
  handle_component_build_received_reported cb w h =
      let n = count is_notification w.requests in
      let (r, e, q) = ((quiet_handle cb h).triple n).at w (omega arith) in
      let (_, _, q') = (grown n cb).triple.at w (omega arith) in (r, e, omega (arith, q, q'))
