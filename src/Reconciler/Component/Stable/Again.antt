-- ===== src/Reconciler/Component/Stable/Again.antt =====
-- handleComponentBuildReceived of pkg/reconciler/componentbuild/componentbuild.go on a cluster that
-- gives the same answers about the artifacts whenever it is asked: handled again, and with the
-- artifacts in another order.
use mathlib.Core.List.{map, Perm}
use mathlib.Core.List.Perm
use apheleia.Base.{
  String, ◌≡◌, refl, ap, ◌∙◌, Bool, true, false, ◌==◌, some, List, [], ◌∷◌, All, nat_eq, Bool-cases,
  inl, inr, if◌then◌else◌,
}
use apheleia.Base.Dict.{Dict}
use apheleia.Base.Counts.{count-perm}
use apheleia.Api.{ArtifactState, ComponentBuild}
use apheleia.Platform.{Platform, ok}
use apheleia.Platform.Laws.{IsFaithful, IsReliable}
use apheleia.Exec.{World}
use apheleia.Reconciler.Artifact.{DeployConfig}
use apheleia.Reconciler.Component.{
  no_config_message, is_incomplete, is_pending, handle_component_build_received,
}
use apheleia.Reconciler.Component.Progress.{keys, pending, IsEntry}
use apheleia.Reconciler.Component.Status.{
  overall, failures, settled, Outcome, Wrote, Wrote-weaken, configured, config_key, Distinct,
}
use apheleia.Reconciler.Component.Success.{handle_component_build_received-ok}
use apheleia.Reconciler.Component.Stable.{Stays, entry_lem}

-- The entries of these artifacts, when each has the state that the function gives.
abbrev pub entries_of : (String → ArtifactState) → List String → Dict ArtifactState
entries_of f = map (λ gav. (gav, f gav))

-- The ComponentBuild with the status for these states.
abbrev pub final : (String → ArtifactState) → ComponentBuild → ComponentBuild
final f cb = settled (entries_of f cb.spec.artifacts) cb

cleared_again :
    (m : String)
    → (if (if m == no_config_message then "" else m) == no_config_message
        then ""
        else (if m == no_config_message then "" else m))
      ≡ (if m == no_config_message then "" else m)
cleared_again m = elim (Bool-cases (m == no_config_message)) [
  | inl e ↦ rw e refl
  | inr e ↦ rw (e, e) refl
]

flag_again :
    (none_pending flag : Bool)
    → (if none_pending then (if none_pending then flag else false) else false)
      ≡ (if none_pending then flag else false)
flag_again true flag = refl
flag_again false flag = refl

settled_again :
    (entries : Dict ArtifactState) (cb : ComponentBuild)
    → settled entries (settled entries cb) ≡ settled entries cb
settled_again entries cb =
    ap (λ m. with_rest m (settled entries (settled entries cb)).status.result_notified)
      (cleared_again cb.status.message)
    ∙ ap (with_rest (settled entries cb).status.message)
        (flag_again (nat_eq (pending entries) 0) cb.status.result_notified)
  where
    with_rest : String → Bool → ComponentBuild
    with_rest m flag = record cb {
      status = record (settled entries cb).status { message = m; result_notified = flag };
    }

module _ (P : Platform) where
  -- Each artifact of the spec stays in the state that the function gives.
  abbrev pub AllStay : (String → ArtifactState) → ComponentBuild → Type 0
  AllStay f cb = All (λ gav. Stays P cb.metadata.namespace gav (f gav)) cb.spec.artifacts

  -- The handling returns without an error, and what it writes last is this ComponentBuild.
  abbrev pub Ends : ComponentBuild → World P → ComponentBuild → Type 0
  Ends cb w cb' =
      ((handle_component_build_received P cb w).0 ≡ some (ok tt))
      × Wrote (λ x. x ≡ cb') (ok tt) (handle_component_build_received P cb w).1.requests

  -- The deployment config can be read, and is complete.
  abbrev pub IsConfigured : ComponentBuild → World P → Type 0
  IsConfigured cb w =
      is_incomplete (configured (P.get_config_map (config_key cb) w.cluster).0) ≡ false

module _ (P : Platform) (F : IsFaithful P) (R : IsReliable P) (f : String → ArtifactState) where
  entries_lem :
      (ns : String) (entries : Dict ArtifactState)
      → All (λ gav. Stays P ns gav (f gav)) (keys entries)
      → All (IsEntry P ns) entries
      → entries ≡ entries_of f (keys entries)
  entries_lem ns [] ds is = refl
  entries_lem ns ((gav, v) ∷ entries) (d, ds) (i, is) =
      rw (entry_lem P ns gav (f gav) d v i, ← entries_lem ns entries ds is) refl

  Outcome-final :
      (cb : ComponentBuild) (conf : DeployConfig) (cb' : ComponentBuild)
      → is_incomplete conf ≡ false
      → AllStay P f cb
      → Outcome P cb conf cb'
      → cb' ≡ final f cb
  Outcome-final cb conf cb' h ds out =
      let (entries, k, is, e) = rw h at out in
      e
      ∙ ap (λ es. settled es cb)
          (entries_lem cb.metadata.namespace entries (rw k ds) is ∙ ap (entries_of f) k)

  Ends-final :
      (cb : ComponentBuild) (w : World P)
      → Distinct cb.spec.artifacts
      → AllStay P f cb
      → IsConfigured P cb w
      → Ends P cb w (final f cb)
  Ends-final cb w distinct ds conf =
      let (e, q) = handle_component_build_received-ok P R F cb w distinct in
      (e, Wrote-weaken P F _ _ (λ cb' out. Outcome-final cb _ cb' conf ds out) (ok tt) _ q)

  -- With a platform that does as documented and whose needed calls succeed, a spec that names no
  -- artifact twice, and a complete deployment config: if the cluster answers about each artifact,
  -- whenever it is asked, so that it has the state that a function gives, then
  -- handleComponentBuildReceived returns no error, and the status that it writes last is the one
  -- that these states call for. The handling of the ComponentBuild with that status, from any world
  -- in which the config is complete, returns no error either and writes the same status again.
  pub handle_component_build_received_again :
      (cb : ComponentBuild) (w w' : World P)
      → Distinct cb.spec.artifacts
      → AllStay P f cb
      → IsConfigured P cb w
      → IsConfigured P cb w'
      → Ends P cb w (final f cb) × Ends P (final f cb) w' (final f cb)
  handle_component_build_received_again cb w w' distinct ds conf conf' = (
    Ends-final cb w distinct ds conf,
    rw (settled_again (entries_of f cb.spec.artifacts) cb) at
        (Ends-final (final f cb) w' distinct ds conf'),
  )

  same_overall :
      (entries entries' : Dict ArtifactState)
      → Perm entries entries'
      → (overall entries ≡ overall entries') × (pending entries ≡ pending entries')
  same_overall entries entries' p =
      let waiting : pending entries ≡ pending entries' = count-perm (λ (_, v). is_pending v) p in
      let failed : failures entries ≡ failures entries' = count-perm (λ (_, v). v.failed) p in
      (rw (waiting, failed) refl, waiting)

  -- With a platform that does as documented and whose needed calls succeed, a complete deployment
  -- config, and two ComponentBuilds whose specs name the same artifacts in two orders and none
  -- twice: if the cluster answers about each artifact, whenever it is asked, so that it has the
  -- state that a function gives, then neither handling returns an error, and the statuses that they
  -- write last have the same state, the same count of outstanding artifacts and the same entries
  -- but for their order, which the map of the source does not have.
  pub handle_component_build_received_order :
      (cb cb' : ComponentBuild) (w w' : World P)
      → Perm cb.spec.artifacts cb'.spec.artifacts
      → Distinct cb.spec.artifacts
      → Distinct cb'.spec.artifacts
      → AllStay P f cb
      → AllStay P f cb'
      → IsConfigured P cb w
      → IsConfigured P cb' w'
      → Ends P cb w (final f cb)
        × Ends P cb' w' (final f cb')
        × ((final f cb).status.state ≡ (final f cb').status.state)
        × ((final f cb).status.outstanding ≡ (final f cb').status.outstanding)
        × Perm (final f cb).status.artifact_state (final f cb').status.artifact_state
  handle_component_build_received_order cb cb' w w' p d d' ds ds' conf conf' =
      let q = Perm.map (λ gav. (gav, f gav)) p in
      let (state, outstanding) =
        same_overall (entries_of f cb.spec.artifacts) (entries_of f cb'.spec.artifacts) q in
      (Ends-final cb w d ds conf, Ends-final cb' w' d' ds' conf', state, outstanding, q)
