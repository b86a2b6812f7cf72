-- ===== src/Reconciler/Component/Progress.antt =====
-- The loop of handleComponentBuildReceived in pkg/reconciler/componentbuild/componentbuild.go: what
-- it adds to the status.
mod Entries
pub use Entries.*
use mathlib.Core.List.{append-nil}
use apheleia.Base.{
  String, ◌≡◌, refl, true, List, [], ◌∷◌, arith, eq_iff, Bool-cases, inl, inr, if◌then◌else◌,
}
use apheleia.Api.{ArtifactState, ComponentBuild}
use apheleia.Platform.{Platform, ok, ArtifactBuild}
use apheleia.Platform.Laws.{IsFaithful}
use apheleia.Exec.{Request, pure, ◌>>=◌}
use apheleia.Exec.Triple.{
  Triple, Triple-pure, Triple-send, Triple-bind, Triple-if, Triple-reply, Triple-given,
  Triple-unless_err, Triple_consequence, Triple-given_and, Triple-read_bind,
}
use apheleia.Reconciler.Artifact.{DeployConfig}
use apheleia.Reconciler.Plain.{deploy_artifact-Keeps}
use apheleia.Reconciler.Artifact.State.{IsStateOf, artifact_state_returns}
use apheleia.Reconciler.Component.{
  is_pending, set_artifact, add_outstanding, track_existing, create_missing, visit_artifact,
  visit_artifacts, empty_artifact_build,
}

abbrev Any : List Request → Type 0
Any _ = Unit

module _ (P : Platform) (F : IsFaithful P) where
  -- A new ArtifactBuild has neither succeeded nor failed.
  new_is_pending :
      (abr : ArtifactBuild) (s : ArtifactState)
      → abr.state ≡ ""
      → IsStateOf P abr s
      → is_pending s ≡ true
  unfolding is_pending
  new_is_pending abr s e h = ground (
    arith,
    F.failed-ne_empty,
    F.missing-ne_empty,
    F.complete-ne_empty,
    eq_iff abr.state P.artifact_build_state_failed,
    eq_iff abr.state P.artifact_build_state_missing,
    eq_iff abr.state P.artifact_build_state_complete,
  )

  module _ (cb : ComponentBuild) (gav : String) (fresh : IsFresh gav cb.status.artifact_state) where
    visited :
        (abr : ArtifactBuild) (state : ArtifactState)
        → Source P cb.metadata.namespace gav abr
        → IsStateOf P abr state
        → Visited P cb gav (
            ok (
              if is_pending state
              then add_outstanding (set_artifact gav state cb)
              else set_artifact gav state cb))
    visited abr state source q =
        (state, extend_one gav state cb fresh, record { abr = abr; source = source; state = q })

    track_existing_extends :
        (conf : DeployConfig) (abr : ArtifactBuild)
        → Source P cb.metadata.namespace gav abr
        → Triple Any (track_existing P conf cb gav abr) (λ cb' rs. Visited P cb gav (ok cb'))
    unfolding track_existing
    track_existing_extends conf abr source =
        Triple-bind (λ s rs. IsStateOf P abr s × Any rs) _ _ (artifact_state_returns P Any abr)
          λ state. Triple-given_and (IsStateOf P abr state) _ _ _ λ q.
            Triple-if _ _ _
              (λ _.
                Triple-bind (λ _. Any) _ _
                  (deploy_artifact-Keeps P Any (λ rs r h p. tt) abr conf).triple
                  (λ _. Triple-pure _ (λ rs p. visited abr state source q)))
              (λ _. Triple-pure _ (λ rs p. visited abr state source q))

    create_missing_extends :
        IsAbsent P cb.metadata.namespace gav
        → Triple Any (create_missing P cb gav) (λ r rs. Visited P cb gav r)
    unfolding create_missing
    create_missing_extends absent =
        Triple-unless_err (λ r rs. IsNew P cb gav r) _ _
          (Triple-send _ _ (λ c rs p. create-IsNew P F cb gav c _ absent refl))
          (λ created. Triple-given (IsNew P cb gav (ok created)) _ _ λ (e, source).
            Triple-bind (λ s rs. IsStateOf P created s × Any rs) _ _
              (artifact_state_returns P Any created)
              λ s. Triple-pure _ (λ rs p. (
                s,
                rw (← extend_one gav s cb fresh) (rw (new_is_pending created s e p.0)),
                record { abr = created; source = source; state = p.0 },
              )))
          (λ e rs p. tt)

    tracked_extends :
        (conf : DeployConfig) (abr : ArtifactBuild)
        → Source P cb.metadata.namespace gav abr
        → Triple Any
            (track_existing P conf cb gav abr >>= λ cb'. pure (ok cb'))
            (λ r rs. Visited P cb gav r)
    tracked_extends conf abr source =
        Triple-bind (λ cb' rs. Visited P cb gav (ok cb')) _ _
          (track_existing_extends conf abr source) (λ cb'. Triple-pure _ (λ rs p. p))

    visit_artifact_extends :
        (conf : DeployConfig)
        → Triple Any (visit_artifact P conf cb gav) (λ r rs. Visited P cb gav r)
    unfolding visit_artifact
    visit_artifact_extends conf = Triple-read_bind _ _ _ λ c.
        Triple-reply _ _ _
          (λ e h. elim (Bool-cases (P.is_not_found e)) [
            | inl absent ↦ rw absent (
                create_missing_extends
                  (record { cluster = c; error = e; answers = h; says = absent }))
            | inr unknown ↦
                rw unknown
                  (tracked_extends conf empty_artifact_build (was_unreadable c e h unknown refl))
          ])
          (λ abr h. tracked_extends conf abr (was_read c h))

  pub visit_artifacts_extends :
      (conf : DeployConfig) (gavs : List String) (cb : ComponentBuild)
      → AreFresh gavs cb.status.artifact_state
      → Triple Any (visit_artifacts P conf gavs cb) (λ r rs. AllVisited P cb gavs r)
  unfolding visit_artifacts
  visit_artifacts_extends conf [] cb h =
      Triple-pure _ (λ rs p. ([], rw append-nil (ground arith), refl, tt))
  visit_artifacts_extends conf (gav ∷ gavs) cb h =
      Triple-unless_err (λ r rs. Visited P cb gav r) _ _ (visit_artifact_extends cb gav h.0 conf)
        (λ cb'. Triple-given (Visited P cb gav (ok cb')) _ _ λ (v, e, i). rw e (
          Triple_consequence Any Any (λ r rs. AllVisited P (extend ((gav, v) ∷ []) cb) gavs r) _ _
            (λ rs p. tt) (λ r rs. AllVisited-more P cb gav v gavs r i)
            (visit_artifacts_extends conf gavs (extend ((gav, v) ∷ []) cb)
              (AreFresh-append gav v gavs _ h.1 h.2))))
        (λ e rs p. tt)
