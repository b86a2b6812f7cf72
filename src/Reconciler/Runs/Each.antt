-- ===== src/Reconciler/Runs/Each.antt =====
-- pkg/reconciler/componentbuild/componentbuild.go: which ComponentBuilds a change of an
-- ArtifactBuild is carried on to.
use apheleia.Base.{
  String, ◌≡◌, refl, Bool, true, false, ◌||◌, ◌==◌, none, some, List, [], ◌∷◌, Bool-cases, inl, inr,
  if◌then◌else◌,
}
use apheleia.Base.Dict.{Dict, lookup}
use apheleia.Api.{ArtifactState, ComponentBuild, ComponentBuildList}
use apheleia.Platform.{Platform, Reply, ok, err, ArtifactBuild}
use apheleia.Exec.{World, Exec, pure, read, on_reply, unless_err, ◌>>=◌}
use apheleia.Reconciler.Component.{handle_component_build_received}
use apheleia.Reconciler.Runs.{has_artifact, handle_owners, handle_artifact_build_received}
use apheleia.Reconciler.Plain.{handle_component_build_received-Keeps}

-- The status has an entry for the artifact.
abbrev pub is_listed : String → Dict ArtifactState → Bool
is_listed gav [] = false
is_listed gav ((k, v) ∷ entries) = k == gav || is_listed gav entries

has_artifact-lookup :
    (gav : String) (m : Dict ArtifactState)
    → (elim (lookup gav m) [ none ↦ false | some _ ↦ true ]) ≡ is_listed gav m
has_artifact-lookup gav [] = refl
has_artifact-lookup gav ((k, v) ∷ entries) = elim (Bool-cases (k == gav)) [
  | inl same ↦ rw same refl
  | inr other ↦ rw other (has_artifact-lookup gav entries)
]

-- The ComponentBuilds whose status has an entry for the artifact, in their order.
abbrev pub concerned : String → List ComponentBuild → List ComponentBuild
concerned gav [] = []
concerned gav (cb ∷ cbs) =
    let rest = concerned gav cbs in
    if is_listed gav cb.status.artifact_state then cb ∷ rest else rest

module _ (P : Platform) where
  -- The world after each of them was handled, one after the other.
  abbrev pub handled : List ComponentBuild → World P → World P
  handled [] w = w
  handled (cb ∷ cbs) w = handled cbs (handle_component_build_received P cb w).1

  handle_owners-handled :
      (gav : String) (items : List ComponentBuild) (w : World P)
      → handle_owners P gav items w ≡ (some tt, handled (concerned gav items) w)
  unfolding handle_owners has_artifact pure ◌>>=◌
  handle_owners-handled gav [] w = refl
  handle_owners-handled gav (cb ∷ items) w =
      rw (has_artifact-lookup gav cb.status.artifact_state)
        (elim (Bool-cases (is_listed gav cb.status.artifact_state)) [
          | inl listed ↦
              let (r, e, _) =
                (handle_component_build_received-Keeps P (λ _. Unit {0}) (λ rs r h p. tt)
                    cb).triple.at
                  w tt in
              rw (listed, e) (handle_owners-handled gav items _)
          | inr other ↦ rw other (handle_owners-handled gav items w)
        ])

  -- What the reply to the list, and the cluster after it, lead to.
  abbrev pub carried_on : String → Reply ComponentBuildList × P.Cluster → Exec P (Reply (Unit {0}))
  carried_on gav (err e, c) w = (some (err e), record w { cluster = c })
  carried_on gav (ok l, c) w =
      (some (ok tt), handled (concerned gav l.items) (record w { cluster = c }))

  -- handleArtifactBuildReceived returns the error of the list of the ComponentBuilds of the
  -- namespace, and then handles none. Else it handles, in the order of the list, those whose status
  -- has an entry for the artifact, each once and also after one whose handling returned an error,
  -- and returns without an error.
  pub handle_artifact_build_received-concerned :
      (abr : ArtifactBuild) (w : World P)
      → handle_artifact_build_received P abr w
        ≡ carried_on abr.gav (P.list_component_builds abr.metadata.namespace w.cluster) w
  unfolding handle_artifact_build_received unless_err on_reply read pure ◌>>=◌
  handle_artifact_build_received-concerned abr w =
      listed (P.list_component_builds abr.metadata.namespace w.cluster)
    where
      listed :
          (x : Reply ComponentBuildList × P.Cluster)
          → (unless_err
              (λ w'. (some x.0, record w { cluster = x.1 }))
              (λ cb_list. handle_owners P abr.gav cb_list.items >>= λ _. pure (ok tt))
              w)
            ≡ carried_on abr.gav x w
      listed (err e, c) = refl
      listed (ok l, c) = rw (handle_owners-handled abr.gav l.items (record w { cluster = c })) refl
