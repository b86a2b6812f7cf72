-- ===== src/Tests/Stability.antt =====
-- The theorems on stable answers at concrete data: the cluster in memory where each artifact stays
-- built and deployed.
use mathlib.Core.List.{Perm}
use mathlib.Core.List.Perm
use apheleia.Base.{String, ◌≡◌, ◌≢◌, refl, true, false, List, [], ◌∷◌, arith, eq_iff}
use apheleia.Api.{ArtifactState, ComponentBuild}
use apheleia.Platform.{ok}
use apheleia.Reconciler.Artifact.{dependency_build_name}
use apheleia.Reconciler.Component.{is_incomplete, config_of}
use apheleia.Reconciler.Component.Status.{Distinct}
use apheleia.Reconciler.Component.Stable.{Stays}
use apheleia.Reconciler.Component.Stable.Again.{
  IsConfigured, Ends, final, handle_component_build_received_again,
  handle_component_build_received_order,
}
use apheleia.Tests.Deployed.{
  marked_db, settled_memory, settled_memory-IsFaithful, settled_memory-IsReliable, settled_world,
}
use apheleia.Tests.Scenario.{test_cb, test_abr, test_ra}

abbrev with_artifacts : List String → ComponentBuild
with_artifacts gavs = record test_cb { spec = record test_cb.spec { artifacts = gavs } }

abbrev two_artifacts : ComponentBuild
two_artifacts = with_artifacts ("a" ∷ "b" ∷ [])

abbrev swapped_artifacts : ComponentBuild
swapped_artifacts = with_artifacts ("b" ∷ "a" ∷ [])

abbrev deployed_state : String → ArtifactState
deployed_state gav = record {
  artifact_build = "com.test:test:1.0-abr";
  failed = false;
  built = true;
  deployed = true;
}

deployed_state-Stays : (gav : String) → Stays settled_memory "default" gav (deployed_state gav)
unfolding dependency_build_name
deployed_state-Stays gav = record {
  abr = test_abr;
  reads = λ c. refl;
  ra = ok test_ra;
  rebuilds = λ c. refl;
  db = ok marked_db;
  builds = λ c. refl;
  makes = refl;
}

a-ne-b : ◌≢◌ {A = String} "a" "b"
a-ne-b = ground (arith, eq_iff "a" "b")

b-ne-a : ◌≢◌ {A = String} "b" "a"
b-ne-a = ground (arith, eq_iff "b" "a")

two_artifacts-Distinct : Distinct two_artifacts.spec.artifacts
two_artifacts-Distinct = ((a-ne-b, tt), (tt, tt))

swapped_artifacts-Distinct : Distinct swapped_artifacts.spec.artifacts
swapped_artifacts-Distinct = ((b-ne-a, tt), (tt, tt))

configured_lem :
    (gavs : List String) → IsConfigured settled_memory (with_artifacts gavs) settled_world
unfolding is_incomplete config_of
configured_lem gavs = refl

handle_component_build_received_again_example :
    Ends settled_memory two_artifacts settled_world (final deployed_state two_artifacts)
    × Ends settled_memory
        (final deployed_state two_artifacts)
        settled_world
        (final deployed_state two_artifacts)
handle_component_build_received_again_example =
    handle_component_build_received_again settled_memory settled_memory-IsFaithful
      settled_memory-IsReliable deployed_state two_artifacts settled_world settled_world
      two_artifacts-Distinct (deployed_state-Stays "a", (deployed_state-Stays "b", tt))
      (configured_lem ("a" ∷ "b" ∷ [])) (configured_lem ("a" ∷ "b" ∷ []))

handle_component_build_received_order_example :
    Ends settled_memory two_artifacts settled_world (final deployed_state two_artifacts)
    × Ends settled_memory swapped_artifacts settled_world (final deployed_state swapped_artifacts)
    × ((final deployed_state two_artifacts).status.state
        ≡ (final deployed_state swapped_artifacts).status.state)
    × ((final deployed_state two_artifacts).status.outstanding
        ≡ (final deployed_state swapped_artifacts).status.outstanding)
    × Perm
        (final deployed_state two_artifacts).status.artifact_state
        (final deployed_state swapped_artifacts).status.artifact_state
handle_component_build_received_order_example =
    handle_component_build_received_order settled_memory settled_memory-IsFaithful
      settled_memory-IsReliable deployed_state two_artifacts swapped_artifacts settled_world
      settled_world (Perm.swap "b" "a" []) two_artifacts-Distinct swapped_artifacts-Distinct
      (deployed_state-Stays "a", (deployed_state-Stays "b", tt))
      (deployed_state-Stays "b", (deployed_state-Stays "a", tt)) (configured_lem ("a" ∷ "b" ∷ []))
      (configured_lem ("b" ∷ "a" ∷ []))
