-- ===== src/Reconciler/Component/Convergence.antt =====
-- handleComponentBuildReceived of pkg/reconciler/componentbuild/componentbuild.go: a ComponentBuild
-- whose artifacts are all deployed becomes complete.
use apheleia.Base.{
  String, ◌≡◌, ◌≢◌, refl, ap, ◌∙◌, true, false, not, ◌==◌, nat_eq, some, [], ◌∷◌, All, count, arith,
  eq_iff, Bool-cases, inl, inr,
}
use apheleia.Base.Dict.{Dict}
use apheleia.Api.{
  ArtifactState, ComponentBuild, done, component_build_state_complete,
  component_build_state_in_progress,
}
use apheleia.Platform.{Platform, ok, ArtifactBuild, DependencyBuild, RebuiltArtifact}
use apheleia.Platform.Laws.{IsFaithful, IsReliable}
use apheleia.Exec.{World}
use apheleia.Reconciler.Artifact.{
  is_failed, is_built, DeployConfig, dependency_build_name, deployed_mark,
}
use apheleia.Reconciler.Component.{is_incomplete, handle_component_build_received}
use apheleia.Reconciler.Component.Progress.{keys, pending, IsEntry}
use apheleia.Reconciler.Component.Status.{
  overall, Outcome, Wrote, Wrote-weaken, configured, config_key, Distinct,
}
use apheleia.Reconciler.Component.Outcome.{is_finished, overall_complete}
use apheleia.Reconciler.Component.Stable.{Stays, owner_of, found_by, entry_lem}
use apheleia.Reconciler.Component.Success.{handle_component_build_received-ok}

-- The cluster answers, whenever it is asked, that the artifact's ArtifactBuild is complete and that
-- the DependencyBuild of its RebuiltArtifact has the mark.
pub record StaysDeployed (P : Platform) (ns gav : String) : Type 0 where
  pub abr : ArtifactBuild
  pub reads :
      (c : P.Cluster)
      → (P.get_artifact_build (record { namespace = ns; name = P.create_abr_name gav }) c).0
        ≡ ok abr
  pub completes : abr.state ≡ P.artifact_build_state_complete
  pub ra : RebuiltArtifact
  pub rebuilds :
      (c : P.Cluster)
      → (P.get_rebuilt_artifact
          (record { namespace = abr.metadata.namespace; name = abr.metadata.name })
          c).0
        ≡ ok ra
  pub names : dependency_build_name ra.metadata.owner_references "" ≢ ""
  pub db : DependencyBuild
  pub builds :
      (c : P.Cluster)
      → (P.get_dependency_build
          (record {
            namespace = abr.metadata.namespace;
            name = dependency_build_name ra.metadata.owner_references "";
          })
          c).0
        ≡ ok db
  pub marks : deployed_mark (some db) ≡ "true"

-- The state of an artifact that is built and deployed.
abbrev deployed_state : ArtifactBuild → ArtifactState
deployed_state abr = record {
  artifact_build = abr.metadata.name;
  failed = false;
  built = true;
  deployed = true;
}

deployed_lem : (abr : ArtifactBuild) → is_finished (deployed_state abr) ≡ true
unfolding done
deployed_lem abr = refl

module _ (P : Platform) (ns gav : String) (D : StaysDeployed P ns gav) where
  not_failed : (F : IsFaithful P) → is_failed P D.abr ≡ false
  not_failed F = ground (
    arith,
    D.completes,
    F.complete-ne-failed,
    F.complete-ne-missing,
    eq_iff D.abr.state P.artifact_build_state_failed,
    eq_iff D.abr.state P.artifact_build_state_missing,
  )

  marked : (deployed_mark (found_by (ok D.ra) (ok D.db)) == "true") ≡ true
  marked = rw named ((eq_iff (deployed_mark (some D.db)) "true").1 D.marks)
    where
      named : (owner_of (ok D.ra) == "") ≡ false
      named = ground (arith, D.names, eq_iff (owner_of (ok D.ra)) "")

  StaysDeployed-Stays : (F : IsFaithful P) → Stays P ns gav (deployed_state D.abr)
  StaysDeployed-Stays F =
      let built : is_built P D.abr ≡ true =
        (eq_iff D.abr.state P.artifact_build_state_complete).1 D.completes in
      record {
        abr = D.abr;
        reads = D.reads;
        ra = ok D.ra;
        rebuilds = D.rebuilds;
        db = ok D.db;
        builds = D.builds;
        makes = rw (not_failed F, built, marked) refl;
      }

  finished_entry :
      (F : IsFaithful P) (v : ArtifactState) → IsEntry P ns (gav, v) → is_finished v ≡ true
  finished_entry F v i =
      ap is_finished (entry_lem P ns gav (deployed_state D.abr) (StaysDeployed-Stays F) v i)
      ∙ deployed_lem D.abr

-- The state is that for complete, and no artifact is outstanding.
abbrev pub IsComplete : ComponentBuild → Type 0
IsComplete cb' = (cb'.status.state ≡ component_build_state_complete) × (cb'.status.outstanding ≡ 0)

module _ (P : Platform) (F : IsFaithful P) where
  none_unfinished :
      (ns : String) (entries : Dict ArtifactState)
      → All (StaysDeployed P ns) (keys entries)
      → All (IsEntry P ns) entries
      → nat_eq (count (λ (_, v). not (is_finished v)) entries) 0 ≡ true
  none_unfinished ns [] ds is = refl
  none_unfinished ns ((gav, v) ∷ entries) (d, ds) (i, is) =
      rw (finished_entry P ns gav d F v i) (none_unfinished ns entries ds is)

  complete_outstanding :
      (entries : Dict ArtifactState)
      → overall entries ≡ component_build_state_complete
      → pending entries ≡ 0
  complete_outstanding entries h = elim (Bool-cases (nat_eq (pending entries) 0)) [
    | inl e ↦ ground (arith, e)
    | inr e ↦
        ground (
          arith,
          rw e at h,
          eq_iff component_build_state_in_progress component_build_state_complete,
        )
  ]

  Outcome-IsComplete :
      (cb : ComponentBuild) (conf : DeployConfig) (cb' : ComponentBuild)
      → is_incomplete conf ≡ false
      → All (StaysDeployed P cb.metadata.namespace) cb.spec.artifacts
      → Outcome P cb conf cb'
      → IsComplete cb'
  Outcome-IsComplete cb conf cb' h ds out =
      let (entries, k, is, e) = rw h at out in
      let state : overall entries ≡ component_build_state_complete =
        (eq_iff (overall entries) component_build_state_complete).0
          (overall_complete entries ∙ none_unfinished _ entries (rw k ds) is) in
      rw e (state, complete_outstanding entries state)

  -- With a platform that does as documented and whose needed calls succeed, a complete deployment
  -- config, and a spec that names no artifact twice: if the cluster answers for each artifact,
  -- whenever it is asked, that its ArtifactBuild is complete and its DependencyBuild has the mark,
  -- then handleComponentBuildReceived returns no error, and the status that it writes last is
  -- complete, with no artifact outstanding.
  pub handle_component_build_received_completes :
      (R : IsReliable P) (cb : ComponentBuild) (w : World P)
      → Distinct cb.spec.artifacts
      → is_incomplete (configured (P.get_config_map (config_key cb) w.cluster).0) ≡ false
      → All (StaysDeployed P cb.metadata.namespace) cb.spec.artifacts
      → ((handle_component_build_received P cb w).0 ≡ some (ok tt))
        × Wrote IsComplete (ok tt) (handle_component_build_received P cb w).1.requests
  handle_component_build_received_completes R cb w distinct conf ds =
      let (e, q) = handle_component_build_received-ok P R F cb w distinct in
      (e, Wrote-weaken P F _ _ (λ cb' out. Outcome-IsComplete cb _ cb' conf ds out) (ok tt) _ q)
