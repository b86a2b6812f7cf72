-- ===== src/Reconciler/Component/Frame.antt =====
-- The loop of handleComponentBuildReceived in pkg/reconciler/componentbuild/componentbuild.go: what it
-- leaves as it is. The requests that it sends create ArtifactBuilds and TaskRuns.
use apheleia.Base.{
  String, ◌≡◌, refl, ◌∙◌, Bool, true, false, not, ◌&&◌, List, [], ◌∷◌, ◌++◌, if◌then◌else◌,
  Bool-cases, inl, inr,
}
use apheleia.Api.{ComponentBuild, ArtifactState}
use apheleia.Platform.{Platform, Reply, ok, err, ArtifactBuild, TaskRun}
use apheleia.Exec.{Request, created_artifact_build, created_task_run, send, pure, ◌>>=◌}
use apheleia.Exec.Triple.{
  Triple, Triple-pure, Triple-bind, Triple-unless_err, Triple-read, Triple-if, Triple-reply,
  Triple-given_and, Triple-send, Triple_consequence,
}
use apheleia.Exec.Keeps.{Keeps, Keeps-send, keeps_rules}
use apheleia.Reconciler.Artifact.{
  DeployConfig, get_dependency_build, artifact_state, start_deploy, deploy_found, deploy_artifact,
}
use apheleia.Reconciler.Component.{
  is_pending, set_artifact, add_outstanding, track_existing, create_missing, visit_artifact,
  visit_artifacts,
}

-- A ComponentBuild without what the loop writes.
abbrev pub frame : ComponentBuild → ComponentBuild
frame cb = record cb { status = record cb.status { outstanding = 0; artifact_state = [] } }

-- The requests that the loop may send.
abbrev pub is_work : Request → Bool
is_work (created_artifact_build a) = true
is_work (created_task_run r) = true
is_work _ = false

tracked_frame :
    (gav : String) (state : ArtifactState) (cb : ComponentBuild)
    → frame (
        if is_pending state
        then add_outstanding (set_artifact gav state cb)
        else set_artifact gav state cb)
      ≡ frame cb
unfolding set_artifact add_outstanding
tracked_frame gav state cb = elim (Bool-cases (is_pending state)) [
  | inl e ↦ rw e refl
  | inr e ↦ rw e refl
]

module _ (P : Platform) (I : List Request → Type 0)
    (grow : (rs : List Request) (r : Request) → is_work r ≡ true → I rs → I (rs ++ (r ∷ []))) where
  -- The frame is as it was, unless an error is returned, and `I` is kept.
  abbrev pub IsFramed : ComponentBuild → Reply ComponentBuild → List Request → Type 0
  IsFramed cb (err e) rs = I rs
  IsFramed cb (ok cb') rs = (frame cb' ≡ frame cb) × I rs

  IsFramed-after :
      (cb cb' : ComponentBuild) (r : Reply ComponentBuild) (rs : List Request)
      → frame cb' ≡ frame cb
      → IsFramed cb' r rs
      → IsFramed cb r rs
  IsFramed-after cb cb' (err e) rs same h = h
  IsFramed-after cb cb' (ok cb'') rs same (h, p) = (h ∙ same, p)

  abbrev Tracked : ComponentBuild → ComponentBuild → List Request → Type 0
  Tracked cb cb' rs = IsFramed cb (ok cb') rs

  get_dependency_build-Keeps : (abr : ArtifactBuild) → Keeps I (get_dependency_build P abr)
  unfolding get_dependency_build
  get_dependency_build-Keeps abr = search keeps_rules depth 12

  artifact_state-Keeps : (abr : ArtifactBuild) → Keeps I (artifact_state P abr)
  unfolding artifact_state
  artifact_state-Keeps abr = search (keeps_rules, get_dependency_build-Keeps) depth 12

  create_task_run-Keeps :
      {A : Type 0} (r : TaskRun) (f : P.Cluster → A × P.Cluster)
      → Keeps {P = P} I (send (created_task_run r) f)
  create_task_run-Keeps r f = Keeps-send _ f (λ rs. grow rs _ refl)

  deploy_artifact-Keeps :
      (abr : ArtifactBuild) (conf : DeployConfig) → Keeps I (deploy_artifact P abr conf)
  unfolding deploy_artifact start_deploy deploy_found
  deploy_artifact-Keeps abr conf =
      search (keeps_rules, create_task_run-Keeps, get_dependency_build-Keeps) depth 12

  track_existing-Tracked :
      (conf : DeployConfig) (cb : ComponentBuild) (gav : String) (abr : ArtifactBuild)
      → Triple I (track_existing P conf cb gav abr) (Tracked cb)
  unfolding track_existing
  track_existing-Tracked conf cb gav abr =
      Triple-bind (λ _. I) _ _ (artifact_state-Keeps abr).triple
        λ state.
          Triple-if (state.built && not state.deployed) _ _
            (λ _.
              Triple-bind (λ _. I) _ _ (deploy_artifact-Keeps abr conf).triple
                (λ _. Triple-pure _ (λ rs p. (tracked_frame gav state cb, p))))
            (λ _. Triple-pure _ (λ rs p. (tracked_frame gav state cb, p)))

  create_missing-IsFramed :
      (cb : ComponentBuild) (gav : String) → Triple I (create_missing P cb gav) (IsFramed cb)
  unfolding create_missing set_artifact add_outstanding
  create_missing-IsFramed cb gav =
      Triple-unless_err (λ _. I) _ _ (Triple-send _ _ (λ c rs. grow rs _ refl))
        (λ created.
          Triple-bind (λ _. I) _ _ (artifact_state-Keeps created).triple
            (λ state. Triple-pure _ (λ rs p. (refl, p))))
        (λ e rs p. p)

  visit_artifact-IsFramed :
      (conf : DeployConfig) (cb : ComponentBuild) (gav : String)
      → Triple I (visit_artifact P conf cb gav) (IsFramed cb)
  unfolding visit_artifact
  visit_artifact-IsFramed conf cb gav =
      Triple-bind (λ _. I) _ _ (Triple-read _ (λ c rs p. p))
        λ existing.
          Triple-reply existing _ _
            (λ e _.
              Triple-if (P.is_not_found e) _ _ (λ _. create_missing-IsFramed cb gav)
                (λ _. tracked _))
            (λ abr _. tracked abr)
    where
      tracked :
          (abr : ArtifactBuild)
          → Triple I (track_existing P conf cb gav abr >>= λ cb'. pure (ok cb')) (IsFramed cb)
      tracked abr =
          Triple-bind (Tracked cb) _ _ (track_existing-Tracked conf cb gav abr)
            (λ cb'. Triple-pure _ (λ rs p. p))

  -- The loop leaves the metadata, the spec and all of the status but for the count and the entries.
  pub visit_artifacts-IsFramed :
      (conf : DeployConfig) (gavs : List String) (cb : ComponentBuild)
      → Triple I (visit_artifacts P conf gavs cb) (IsFramed cb)
  unfolding visit_artifacts
  visit_artifacts-IsFramed conf [] cb = Triple-pure _ (λ rs p. (refl, p))
  visit_artifacts-IsFramed conf (gav ∷ gavs) cb =
      Triple-unless_err (IsFramed cb) _ _ (visit_artifact-IsFramed conf cb gav)
        (λ cb'. Triple-given_and (frame cb' ≡ frame cb) I _ _ λ e.
          Triple_consequence _ _ (IsFramed cb') (IsFramed cb) _ (λ rs p. p)
            (λ r rs. IsFramed-after cb cb' r rs e) (visit_artifacts-IsFramed conf gavs cb'))
        (λ e rs p. p)
