-- ===== src/Reconciler/Notify/Requests.antt =====
-- notifyResult of pkg/reconciler/componentbuild/componentbuild.go: when it creates a PipelineRun,
-- and with which message.
use mathlib.Core.List.{Perm}
use apheleia.Base.{
  String, ◌≡◌, refl, Bool, true, false, not, ◌&&◌, ◌==◌, nat_eq, List, [], ◌∷◌, ◌++◌, some, arith,
  count, Bool-cases, inl, inr, if◌then◌else◌,
}
use apheleia.Api.{
  ArtifactState, ComponentBuild, component_build_state_failed, component_build_state_complete,
}
use apheleia.Platform.{Platform, Reply, ok, err, PipelineRun, Quantity}
use apheleia.Platform.Laws.{IsFaithful}
use apheleia.Exec.{Request, World, created_pipeline_run, pure, on_reply, unless_err, ◌>>=◌}
use apheleia.Exec.Triple.{
  Triple, Triple-pure, Triple-read, Triple-send, Triple-bind, Triple_consequence,
}
use apheleia.Reconciler.{notify_pipeline_label}
use apheleia.Reconciler.Notify.{
  failed_gavs, failed_message, complete_message, any_pipeline_unknown, notifier_message,
  notify_pipeline_run, create_notification, notify_result,
}

-- The message that tells the state of a ComponentBuild: the failed artifacts in some order, each
-- once, or that all is complete.
abbrev pub IsMessage : ComponentBuild → String → Type 0
IsMessage cb message =
    if cb.status.state == component_build_state_failed
    then ((order : List (String × ArtifactState)) × Perm order cb.status.artifact_state
        × (message ≡ failed_message (failed_gavs order)))
    else message
      ≡ (if cb.status.state == component_build_state_complete then complete_message else "")

module _ (P : Platform) where
  -- There is a pull request, and the runs were listed and none still runs.
  abbrev pub is_due : ComponentBuild → Reply (List PipelineRun) → Bool
  is_due cb (err e) = false
  is_due cb (ok items) =
      not (cb.spec.pr_url == "") && nat_eq (count (λ r. P.is_unknown r.succeeded) items) 0

  not_due :
      (cb : ComponentBuild) (reply : Reply (List PipelineRun))
      → (cb.spec.pr_url == "") ≡ true
      → is_due cb reply ≡ false
  not_due cb (err e) h = refl
  not_due cb (ok items) h = rw h

  -- After the requests `before`, the PipelineRun for the ComponentBuild has been created.
  abbrev pub Notified : ComponentBuild → Quantity → List Request → List Request → Type 0
  Notified cb qty before rs =
      (message : String) × IsMessage cb message
      × (rs ≡ before ++ (created_pipeline_run (notify_pipeline_run P cb message qty) ∷ []))

  any_pipeline_unknown_lem :
      (items : List PipelineRun)
      → nat_eq (count (λ r. P.is_unknown r.succeeded) items) 0 ≡ not (any_pipeline_unknown P items)
  unfolding any_pipeline_unknown
  any_pipeline_unknown_lem [] = refl
  any_pipeline_unknown_lem (r ∷ items) = ground (arith, any_pipeline_unknown_lem items)

  module _ (F : IsFaithful P) (cb : ComponentBuild) (qty : Quantity)
      (parsed : P.parse_quantity "1Gi" ≡ ok qty) (before : List Request) where
    abbrev Before : List Request → Type 0
    Before rs = rs ≡ before

    notifier_message_returns :
        Triple Before (notifier_message P cb) (λ m rs. IsMessage cb m × Before rs)
    unfolding notifier_message
    notifier_message_returns = elim (Bool-cases (cb.status.state == component_build_state_failed)) [
      | inl failed ↦ rw failed (
          Triple-bind (λ order rs. Perm order cb.status.artifact_state × Before rs) _ _
            (Triple-read _ (λ c rs p. (F.range-perm _ c, p)))
            (λ order. Triple-pure _ (λ rs p. ((order, p.0, refl), p.1))))
      | inr other ↦
          rw other (elim (Bool-cases (cb.status.state == component_build_state_complete)) [
            | inl complete ↦ rw complete (Triple-pure _ (λ rs p. (refl, p)))
            | inr neither ↦ rw neither (Triple-pure _ (λ rs p. (refl, p)))
          ])
    ]

    create_notification_sends :
        Triple Before (create_notification P cb) (λ r. Notified cb qty before)
    unfolding create_notification on_reply
    create_notification_sends =
        Triple-bind (λ m rs. IsMessage cb m × Before rs) _ _ notifier_message_returns
          λ m. rw parsed (Triple-send _ _ (λ c rs p. (m, p.0, rw p.1)))

    list_read_sends :
        (reply : Reply (List PipelineRun))
        → (cb.spec.pr_url == "") ≡ false
        → Triple Before
            (on_reply reply
              (λ e. pure (err e))
              (λ items.
                if any_pipeline_unknown P items then pure (ok tt) else create_notification P cb))
            (λ r rs. if is_due cb reply then Notified cb qty before rs else Before rs)
    unfolding on_reply
    list_read_sends (err e) h = Triple-pure _ (λ rs p. p)
    list_read_sends (ok items) h = elim (Bool-cases (any_pipeline_unknown P items)) [
      | inl running ↦ rw running (Triple-pure _ (λ rs p. rw (due, running) p))
      | inr idle ↦ rw idle (
          Triple_consequence Before Before (λ r. Notified cb qty before) _ _ (λ rs p. p)
            (λ r rs p. rw (due, idle) p) create_notification_sends)
    ]
      where
        due : is_due cb (ok items) ≡ not (any_pipeline_unknown P items)
        due = rw (h, any_pipeline_unknown_lem items)

-- With a platform that does as documented, notifyResult returns. It creates one PipelineRun, with
-- the message that tells the state, if there is a pull request and the list of the runs that exist
-- could be read and none of them still runs; and else it sends nothing.
pub notify_result-requests :
    (P : Platform)
    → IsFaithful P
    → (cb : ComponentBuild) (qty : Quantity) → P.parse_quantity "1Gi" ≡ ok qty
    → (w : World P)
    → (r : Reply (Unit {0})) × ((notify_result P cb w).0 ≡ some r)
      × (if is_due P cb
            (P.list_pipeline_runs cb.metadata.namespace notify_pipeline_label cb.metadata.name
              w.cluster).0
          then Notified P cb qty w.requests (notify_result P cb w).1.requests
          else (notify_result P cb w).1.requests ≡ w.requests)
unfolding notify_result unless_err ◌>>=◌
notify_result-requests P F cb qty parsed w = elim (Bool-cases (cb.spec.pr_url == "")) [
  | inl skipped ↦ rw skipped (ok tt, refl, rw (not_due P cb reply.0 skipped) refl)
  | inr wanted ↦ rw wanted (
      (list_read_sends P F cb qty parsed w.requests reply.0 wanted).at
        (record w { cluster = reply.1 }) refl)
]
  where
    reply : Reply (List PipelineRun) × P.Cluster
    reply =
        P.list_pipeline_runs cb.metadata.namespace notify_pipeline_label cb.metadata.name w.cluster
