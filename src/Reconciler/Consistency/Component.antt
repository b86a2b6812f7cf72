-- ===== src/Reconciler/Consistency/Component.antt =====
-- handleComponentBuildReceived of pkg/reconciler/componentbuild/componentbuild.go: the statuses
-- that it writes agree with their entries.
use mathlib.Core.List.{Perm}
use apheleia.Base.{
  ℕ, ◌+◌, ◌≤◌, String, ◌≡◌, ◌∙◌, ap, Bool, true, false, not, ◌&&◌, ◌||◌, ◌==◌, nat_eq, List, [],
  ◌∷◌, count, count-append, arith, eq_iff, Bool-cases, inl, inr, if◌then◌else◌,
}
use apheleia.Base.Dict.{Dict}
use apheleia.Api.{ArtifactState, ComponentBuild, ComponentBuildStatus}
use apheleia.Platform.{Platform, ok}
use apheleia.Platform.Laws.{IsFaithful}
use apheleia.Exec.{Request, updated_status, unless_err}
use apheleia.Exec.Triple.{
  Triple, Triple-bind, Triple-read, Triple-unless_err, Triple-given_and, Triple-both,
  Triple_consequence,
}
use apheleia.Exec.Keeps.{Keeps, Keeps-send, keeps_rules}
use apheleia.Reconciler.Artifact.{DeployConfig}
use apheleia.Reconciler.Component.{
  reset_status, put_status, notify_once, complete, settle, visit_artifacts, handle_with_config,
  handle_component_build_received,
}
use apheleia.Reconciler.Component.Bounds.{
  times, times_zero, visit_artifacts-Sends, notify_once-Sends,
}
use apheleia.Reconciler.Component.Progress.{pending, extend, AllVisited, visit_artifacts_extends}
use apheleia.Reconciler.Component.Status.{
  overall, settled, unconfigured, Distinct, Distinct-AreFresh, complete_is_settled,
  in_progress_is_settled,
}

-- The status was not settled yet, or its state and its count are those that its entries call for.
abbrev pub is_consistent : ComponentBuildStatus → Bool
is_consistent s =
    s.state == ""
    || s.state == overall s.artifact_state && nat_eq s.outstanding (pending s.artifact_state)

-- The request writes a status that is not.
abbrev pub is_inconsistent : Request → Bool
is_inconsistent (updated_status cb) = not (is_consistent cb.status)
is_inconsistent _ = false

-- The ComponentBuild names no artifact twice, and its status is consistent.
abbrev pub IsSound : ComponentBuild → Type 0
IsSound cb = Distinct cb.spec.artifacts × (is_consistent cb.status ≡ true)

-- At most `k` requests write such a status.
abbrev pub AtMost : ℕ → List Request → Type 0
AtMost k rs = count is_inconsistent rs ≤ k

settled_consistent :
    (entries : Dict ArtifactState) (cb : ComponentBuild)
    → is_consistent (settled entries cb).status ≡ true
settled_consistent entries cb = ground (arith, eq_iff (overall entries) (overall entries))

module _ (P : Platform) (k : ℕ) where
  pub send-AtMost :
      (cb : ComponentBuild) → is_consistent cb.status ≡ true → Keeps (AtMost k) (put_status P cb)
  send-AtMost cb h =
      Keeps-send _ _
        λ rs p. rw (count-append is_inconsistent rs (updated_status cb ∷ []), h) (omega (arith, p))

  abbrev any_status :
      (cb : ComponentBuild) → (if is_inconsistent (updated_status cb) then 1 else 0) ≤ 1
  any_status cb = elim (Bool-cases (is_consistent cb.status)) [
    | inl e ↦ rw e (omega arith)
    | inr e ↦ rw e (omega arith)
  ]

  notify_once-AtMost : (cb : ComponentBuild) → Keeps (AtMost k) (notify_once P cb)
  notify_once-AtMost cb = record {
    triple =
        Triple_consequence _ _ (λ _ rs. count is_inconsistent rs ≤ k + 0) _ _ (λ rs h. h)
          (λ r rs h. omega (arith, h))
          ((notify_once-Sends P is_inconsistent 0 0 1 (λ _. omega arith) (λ _. omega arith)
              (λ _. omega arith) any_status cb).triple
            k);
  }

  visit_artifacts-AtMost :
      (conf : DeployConfig) (gavs : List String) (cb : ComponentBuild)
      → Triple (AtMost k) (visit_artifacts P conf gavs cb) (λ _. AtMost k)
  visit_artifacts-AtMost conf gavs cb =
      Triple_consequence _ _ (λ _ rs. count is_inconsistent rs ≤ k + times 0 gavs) _ _ (λ rs h. h)
        (λ r rs h. omega (arith, h, times_zero gavs))
        ((visit_artifacts-Sends P is_inconsistent 0 0 1 (λ _. omega arith) (λ _. omega arith)
            (λ _. omega arith) any_status conf gavs cb).triple
          k)

  module _ (F : IsFaithful P) where
    settle-AtMost :
        (cb : ComponentBuild) (entries : Dict ArtifactState)
        → Triple (AtMost k) (settle P (extend entries (reset_status cb))) (λ _. AtMost k)
    unfolding settle complete reset_status
    settle-AtMost cb entries = elim (Bool-cases (nat_eq (0 + pending entries) 0)) [
      | inl none_pending ↦ rw none_pending (
          Triple-bind (λ order rs. Perm order entries × AtMost k rs) _ _
            (Triple-read _ (λ c rs p. (F.range-perm _ c, p)))
            λ order. Triple-given_and (Perm order entries) _ _ _ λ perm.
              Triple-unless_err (λ _. AtMost k) _ _ (notify_once-AtMost _).triple
                (λ _.
                  (send-AtMost _ (
                    ap (λ x. is_consistent x.status)
                      (complete_is_settled P F cb entries order perm none_pending)
                    ∙ settled_consistent entries cb)).triple)
                (λ e rs p. p))
      | inr some_pending ↦ rw some_pending (
          (send-AtMost _ (
            ap (λ x. is_consistent x.status) (in_progress_is_settled P F cb entries some_pending)
            ∙ settled_consistent entries cb)).triple)
    ]

    loop-AtMost :
        (cb : ComponentBuild) (conf : DeployConfig)
        → Distinct cb.spec.artifacts
        → Keeps
            (AtMost k)
            (unless_err (visit_artifacts P conf cb.spec.artifacts (reset_status cb)) (settle P))
    unfolding reset_status
    loop-AtMost cb conf distinct = record {
      triple =
          Triple-unless_err
            (λ r rs. AllVisited P (reset_status cb) cb.spec.artifacts r × AtMost k rs) _ _
            (Triple-both _ _ _ _
              (Triple_consequence _ _ (λ r rs. AllVisited P (reset_status cb) cb.spec.artifacts r) _
                _ (λ rs p. tt) (λ r rs h. h)
                (visit_artifacts_extends P F conf cb.spec.artifacts (reset_status cb)
                  (Distinct-AreFresh _ distinct)))
              (visit_artifacts-AtMost conf cb.spec.artifacts (reset_status cb)))
            (λ cb'.
              Triple-given_and (AllVisited P (reset_status cb) cb.spec.artifacts (ok cb')) _ _ _
                λ (entries, e, _, _). rw e (settle-AtMost cb entries))
            (λ e rs p. p.1);
    }

    handle_with_config-AtMost :
        (cb : ComponentBuild) (conf : DeployConfig)
        → IsSound cb
        → Keeps (AtMost k) (handle_with_config P cb conf)
    unfolding handle_with_config
    handle_with_config-AtMost cb conf (distinct, h) =
        search (keeps_rules, loop-AtMost, unready, distinct) depth 8
      where
        unready : Keeps (AtMost k) (put_status P (unconfigured cb))
        unready = send-AtMost (unconfigured cb) h

    pub handle_component_build_received-AtMost :
        (cb : ComponentBuild) → IsSound cb → Keeps (AtMost k) (handle_component_build_received P cb)
    unfolding handle_component_build_received
    handle_component_build_received-AtMost cb h =
        search (keeps_rules, handle_with_config-AtMost, h) depth 12
