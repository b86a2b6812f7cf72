-- ===== src/Reconciler/Isolation/Component.antt =====
-- pkg/reconciler/componentbuild/componentbuild.go: handleComponentBuildReceived writes in the
-- namespace of its ComponentBuild.
use apheleia.Base.{
  String, ◌≡◌, ◌∙◌, true, List, [], ◌∷◌, ◌&&◌, not, Bool-cases, inl, inr, eq_iff, arith,
  if◌then◌else◌,
}
use apheleia.Api.{ArtifactState, ComponentBuild}
use apheleia.Platform.{Platform, Reply, ok, err, ArtifactBuild}
use apheleia.Platform.Laws.{IsFaithful, IsScoped}
use apheleia.Exec.{Request, pure, unless_err, ◌>>=◌}
use apheleia.Exec.Triple.{
  Triple, Triple-pure, Triple-bind, Triple-if, Triple-given_and, Triple-unless_err,
  Triple-read_bind, Triple-reply,
}
use apheleia.Exec.Keeps.{Keeps, keeps_rules}
use apheleia.Reconciler.Artifact.{DeployConfig, is_built}
use apheleia.Reconciler.Artifact.State.{IsStateOf, artifact_state_returns}
use apheleia.Reconciler.Component.{
  is_pending, set_artifact, add_outstanding, reset_status, in_progress, new_artifact_build,
  track_existing, create_missing, visit_artifact, visit_artifacts, empty_artifact_build,
  notify_once, complete, settle, handle_with_config, handle_component_build_received,
}
use apheleia.Reconciler.Isolation.Parts.{
  Inside, send-Inside, deploy_artifact-Inside, notify_result-Inside,
}

-- The ComponentBuild that the loop passes on lies in the namespace.
abbrev Stays : String → Reply ComponentBuild → List Request → Type 0
Stays ns (err e) rs = Inside ns rs
Stays ns (ok cb) rs = (cb.metadata.namespace ≡ ns) × Inside ns rs

tracked_namespace :
    (gav : String) (state : ArtifactState) (cb : ComponentBuild)
    → (if is_pending state
        then add_outstanding (set_artifact gav state cb)
        else set_artifact gav state cb).metadata.namespace
      ≡ cb.metadata.namespace
unfolding set_artifact add_outstanding
tracked_namespace gav state cb = ground arith

module _ (P : Platform) (S : IsScoped P) (F : IsFaithful P) (ns : String) where
  not_built : is_built P empty_artifact_build ≡ true → empty_artifact_build.metadata.namespace ≡ ns
  not_built h = ground (arith, F.complete-ne_empty, eq_iff "" P.artifact_build_state_complete)

  module _ (conf : DeployConfig) (cb : ComponentBuild) (gav : String)
      (h : cb.metadata.namespace ≡ ns) where
    -- Only a complete ArtifactBuild is deployed, and its namespace has to be known.
    track_existing-Inside :
        (abr : ArtifactBuild)
        → (is_built P abr ≡ true → abr.metadata.namespace ≡ ns)
        → Triple (Inside ns) (track_existing P conf cb gav abr) (λ cb' rs. Stays ns (ok cb') rs)
    unfolding track_existing
    track_existing-Inside abr hb =
        Triple-bind (λ s rs. IsStateOf P abr s × Inside ns rs) _ _
          (artifact_state_returns P (Inside ns) abr)
          λ state. Triple-given_and _ _ _ _ λ q.
            Triple-if (state.built && not state.deployed) _ _
              (λ b.
                Triple-bind (λ _. Inside ns) _ _
                  (deploy_artifact-Inside P S ns abr conf (hb (ground (arith, q.builds, b)))).triple
                  (λ _. Triple-pure _ (λ rs p. (tracked_namespace gav state cb ∙ h, p))))
              (λ _. Triple-pure _ (λ rs p. (tracked_namespace gav state cb ∙ h, p)))

    create_missing-Inside : Triple (Inside ns) (create_missing P cb gav) (Stays ns)
    unfolding create_missing new_artifact_build set_artifact add_outstanding
    create_missing-Inside =
        Triple-unless_err (λ _. Inside ns) _ _ (send-Inside P S ns _ _ h).triple
          (λ created.
            Triple-bind (λ s rs. IsStateOf P created s × Inside ns rs) _ _
              (artifact_state_returns P (Inside ns) created) λ s. Triple-pure _ (λ rs p. (h, p.1)))
          (λ e rs p. p)

    tracked-Inside :
        (abr : ArtifactBuild)
        → (is_built P abr ≡ true → abr.metadata.namespace ≡ ns)
        → Triple (Inside ns) (track_existing P conf cb gav abr >>= λ cb'. pure (ok cb')) (Stays ns)
    tracked-Inside abr hb =
        Triple-bind (λ cb'. Stays ns (ok cb')) _ _ (track_existing-Inside abr hb)
          (λ cb'. Triple-pure _ (λ rs p. p))

    visit_artifact-Inside : Triple (Inside ns) (visit_artifact P conf cb gav) (Stays ns)
    unfolding visit_artifact
    visit_artifact-Inside = Triple-read_bind _ _ _ λ c.
        Triple-reply _ _ _
          (λ e _. elim (Bool-cases (P.is_not_found e)) [
            | inl absent ↦ rw absent create_missing-Inside
            | inr unknown ↦ rw unknown (tracked-Inside empty_artifact_build not_built)
          ])
          (λ abr q. tracked-Inside abr (λ _. S.get_artifact_build-namespace _ c abr q ∙ h))

  visit_artifacts-Inside :
      (conf : DeployConfig) (gavs : List String) (cb : ComponentBuild)
      → cb.metadata.namespace ≡ ns
      → Triple (Inside ns) (visit_artifacts P conf gavs cb) (Stays ns)
  unfolding visit_artifacts
  visit_artifacts-Inside conf [] cb h = Triple-pure _ (λ rs p. (h, p))
  visit_artifacts-Inside conf (gav ∷ gavs) cb h =
      Triple-unless_err (Stays ns) _ _ (visit_artifact-Inside conf cb gav h)
        (λ cb'. Triple-given_and _ _ _ _ (visit_artifacts-Inside conf gavs cb')) (λ e rs p. p)

  settle-Inside :
      (cb : ComponentBuild) → cb.metadata.namespace ≡ ns → Keeps (Inside ns) (settle P cb)
  unfolding settle complete notify_once in_progress
  settle-Inside cb h = search (keeps_rules, notify_result-Inside, send-Inside, h) depth 16

  loop-Inside :
      (conf : DeployConfig) (gavs : List String) (cb : ComponentBuild)
      → cb.metadata.namespace ≡ ns
      → Keeps (Inside ns) (unless_err (visit_artifacts P conf gavs cb) (settle P))
  loop-Inside conf gavs cb h = record {
    triple =
        Triple-unless_err (Stays ns) _ _ (visit_artifacts-Inside conf gavs cb h)
          (λ cb'. Triple-given_and _ _ _ _ (λ q. (settle-Inside cb' q).triple)) (λ e rs p. p);
  }

  handle_with_config-Inside :
      (cb : ComponentBuild) (conf : DeployConfig)
      → cb.metadata.namespace ≡ ns
      → Keeps (Inside ns) (handle_with_config P cb conf)
  unfolding handle_with_config reset_status
  handle_with_config-Inside cb conf h = search (keeps_rules, loop-Inside, send-Inside, h) depth 8

  pub handle_component_build_received-Inside :
      (cb : ComponentBuild)
      → cb.metadata.namespace ≡ ns
      → Keeps (Inside ns) (handle_component_build_received P cb)
  unfolding handle_component_build_received
  handle_component_build_received-Inside cb h =
      search (keeps_rules, handle_with_config-Inside) depth 12
