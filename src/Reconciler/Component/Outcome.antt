-- ===== src/Reconciler/Component/Outcome.antt =====
-- handleComponentBuildReceived of pkg/reconciler/componentbuild/componentbuild.go: what the state
-- that it writes says of the artifacts.
use apheleia.Base.{
  String, ◌≡◌, refl, sym, ◌∙◌, Bool, true, false, not, ◌&&◌, ◌==◌, nat_eq, some, [], ◌∷◌, All,
  count, arith, eq_iff, Bool-cases, inl, inr, if◌then◌else◌,
}
use apheleia.Base.Dict.{Dict}
use apheleia.Api.{
  ArtifactState, ComponentBuild, done, component_build_state_complete, component_build_state_failed,
  component_build_state_in_progress,
}
use apheleia.Platform.{Platform, Reply, ArtifactBuild}
use apheleia.Platform.Laws.{IsFaithful}
use apheleia.Exec.{World}
use apheleia.Reconciler.Artifact.{DeployConfig}
use apheleia.Reconciler.Artifact.State.{WasMarked, deployed-WasMarked}
use apheleia.Reconciler.Component.{is_pending, is_incomplete, handle_component_build_received}
use apheleia.Reconciler.Component.Progress.{keys, pending, Source, IsEntry}
use apheleia.Reconciler.Component.Status.{
  failures, overall, settled, Outcome, Wrote, Wrote-weaken, configured, config_key, Distinct,
  handle_component_build_received-status,
}

-- The artifact is built and deployed, and has not failed.
abbrev pub is_finished : ArtifactState → Bool
is_finished v = done v && not v.failed

all_finished :
    (entries : Dict ArtifactState)
    → (nat_eq (pending entries) 0 && nat_eq (failures entries) 0)
      ≡ nat_eq (count (λ (_, v). not (is_finished v)) entries) 0
unfolding is_pending
all_finished [] = refl
all_finished ((gav, v) ∷ entries) = ground (arith, all_finished entries)

-- The artifact's ArtifactBuild was complete, and its DependencyBuild had the mark that it is
-- deployed, when the cluster was asked.
pub record IsDeployed (P : Platform) (ns : String) (entry : String × ArtifactState) : Type 0 where
  pub abr : ArtifactBuild
  pub source : Source P ns entry.0 abr
  pub completes : abr.state ≡ P.artifact_build_state_complete
  pub marks : WasMarked P abr.metadata.namespace

-- The written status has one entry for each artifact; the state is that for complete exactly if no
-- entry is unfinished, and then each artifact was complete and marked.
abbrev pub Reports : Platform → ComponentBuild → DeployConfig → ComponentBuild → Type 0
Reports P cb conf cb' =
    if is_incomplete conf
    then Unit
    else (keys cb'.status.artifact_state ≡ cb.spec.artifacts)
      × ((cb'.status.state == component_build_state_complete)
          ≡ nat_eq (count (λ (_, v). not (is_finished v)) cb'.status.artifact_state) 0)
      × ((cb'.status.state == component_build_state_complete) ≡ true
          → All (IsDeployed P cb.metadata.namespace) cb'.status.artifact_state)

-- The state by the tests that nothing is pending and nothing has failed.
state_complete :
    (settled_all none_failed : Bool)
    → ((if settled_all
          then (if none_failed
              then component_build_state_complete
              else component_build_state_failed)
          else component_build_state_in_progress)
        == component_build_state_complete)
      ≡ (settled_all && none_failed)
state_complete true true = refl
state_complete true false = refl
state_complete false b = refl

pub overall_complete :
    (entries : Dict ArtifactState)
    → (overall entries == component_build_state_complete)
      ≡ nat_eq (count (λ (_, v). not (is_finished v)) entries) 0
overall_complete entries =
    state_complete (nat_eq (pending entries) 0) (nat_eq (failures entries) 0) ∙ all_finished entries

finished_parts : (v : ArtifactState) → is_finished v ≡ true → (v.built ≡ true) × (v.deployed ≡ true)
unfolding done
finished_parts v h = (ground (arith, h), ground (arith, h))

entry-IsDeployed :
    (P : Platform) (ns : String) (gav : String) (v : ArtifactState)
    → IsEntry P ns (gav, v)
    → is_finished v ≡ true
    → IsDeployed P ns (gav, v)
entry-IsDeployed P ns gav v i h =
    let (built, deployed) = finished_parts v h in
    record {
      abr = i.abr;
      source = i.source;
      completes =
          (eq_iff i.abr.state P.artifact_build_state_complete).0 (sym i.state.builds ∙ built);
      marks = deployed-WasMarked P i.abr v i.state deployed;
    }

entries-IsDeployed :
    (P : Platform) (ns : String) (entries : Dict ArtifactState)
    → All (IsEntry P ns) entries
    → nat_eq (count (λ (_, v). not (is_finished v)) entries) 0 ≡ true
    → All (IsDeployed P ns) entries
entries-IsDeployed P ns [] is h = tt
entries-IsDeployed P ns ((gav, v) ∷ entries) (i, is) h = (
  entry-IsDeployed P ns gav v i (ground (arith, h)),
  entries-IsDeployed P ns entries is (ground (arith, h)),
)

Outcome-Reports :
    (P : Platform) (cb : ComponentBuild) (conf : DeployConfig) (cb' : ComponentBuild)
    → Outcome P cb conf cb'
    → Reports P cb conf cb'
Outcome-Reports P cb conf cb' h = elim (Bool-cases (is_incomplete conf)) [
  | inl e ↦ rw e tt
  | inr e ↦ rw e (reports (rw e at h))
]
  where
    reports :
        (entries : Dict ArtifactState) × (keys entries ≡ cb.spec.artifacts)
          × All (IsEntry P cb.metadata.namespace) entries
          × (cb' ≡ settled entries cb)
        → (keys cb'.status.artifact_state ≡ cb.spec.artifacts)
          × ((cb'.status.state == component_build_state_complete)
              ≡ nat_eq (count (λ (_, v). not (is_finished v)) cb'.status.artifact_state) 0)
          × ((cb'.status.state == component_build_state_complete) ≡ true
              → All (IsDeployed P cb.metadata.namespace) cb'.status.artifact_state)
    reports (entries, k, is, e) = rw e (
      k,
      overall_complete entries,
      λ h. entries-IsDeployed P _ entries is (sym (overall_complete entries) ∙ h),
    )

-- With a platform that does as documented, and a spec that names no artifact twice,
-- handleComponentBuildReceived returns. Unless it returns an error or the deployment config is
-- incomplete, the status that it writes last has one entry for each artifact of the spec, and its
-- state is that of a complete ComponentBuild exactly if every entry is built, deployed and not
-- failed; and then the cluster has answered, for each artifact, with a complete ArtifactBuild and
-- with a DependencyBuild of the namespace of that which has the mark.
pub handle_component_build_received_complete :
    (P : Platform) (F : IsFaithful P) (cb : ComponentBuild) (w : World P)
    → Distinct cb.spec.artifacts
    → (r : Reply (Unit {0})) × ((handle_component_build_received P cb w).0 ≡ some r)
      × Wrote
          (Reports P cb (configured (P.get_config_map (config_key cb) w.cluster).0))
          r
          (handle_component_build_received P cb w).1.requests
handle_component_build_received_complete P F cb w distinct =
    let (r, e, q) = handle_component_build_received-status P F cb w distinct in
    (r, e, Wrote-weaken P F _ _ (Outcome-Reports P cb _) r _ q)
