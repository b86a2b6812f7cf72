-- ===== src/Reconciler/Runs/Mark.antt =====
-- handleTaskRunReceived of pkg/reconciler/componentbuild/componentbuild.go: the mark that it writes
-- on a DependencyBuild, and what artifactState and deployArtifact read of it.
use apheleia.Base.{
  String, ◌≡◌, ◌≢◌, refl, ◌∙◌, Option, none, some, [], ◌∷◌, ◌++◌, arith, eq_iff, ◌==◌, Bool-cases,
  inl, inr, if◌then◌else◌,
}
use apheleia.Base.Dict.{Dict, insert, entry, lookup-insert}
use apheleia.Api.Meta.{annotation}
use apheleia.Platform.{Platform, DependencyBuild}
use apheleia.Exec.{World, updated_dependency_build, pure, send, ◌>>=◌}
use apheleia.Reconciler.Artifact.{deployed_annotation, deployed_mark}
use apheleia.Reconciler.Runs.{assign, allocated, mark_deployed}

entry-insert :
    (k j v : String) (m : Dict String) → entry j (insert k v m) ≡ (if k == j then v else entry j m)
entry-insert k j v m = elim (Bool-cases (k == j)) [
  | inl same ↦ rw (entry, lookup-insert k j v m, same) refl
  | inr other ↦ rw (entry, lookup-insert k j v m, other) refl
]

-- `marked` is `db` with the mark that it is deployed, and all else as it was.
pub record IsMarked (db marked : DependencyBuild) : Type 0 where
  pub mark : deployed_mark (some marked) ≡ "true"
  pub others :
      (k : String)
      → k ≢ deployed_annotation
      → annotation k marked.metadata.annotations ≡ annotation k db.metadata.annotations
  pub rest : record marked.metadata { annotations = db.metadata.annotations } ≡ db.metadata

-- The annotations with the mark.
abbrev pub with_mark : Option (Dict String) → Dict String
with_mark none = insert deployed_annotation "true" []
with_mark (some m) = insert deployed_annotation "true" m

abbrev pub marked_with : DependencyBuild → DependencyBuild
marked_with db = record {
  metadata = record db.metadata { annotations = some (with_mark db.metadata.annotations) };
}

pub with_mark-mark : (m : Option (Dict String)) → entry deployed_annotation (with_mark m) ≡ "true"
with_mark-mark none = entry-insert deployed_annotation deployed_annotation "true" []
with_mark-mark (some m) = entry-insert deployed_annotation deployed_annotation "true" m

with_mark-others :
    (m : Option (Dict String)) (k : String)
    → k ≢ deployed_annotation
    → entry k (with_mark m) ≡ annotation k m
with_mark-others none k h =
    entry-insert deployed_annotation k "true" [] ∙ ground (arith, h, eq_iff deployed_annotation k)
with_mark-others (some m) k h =
    entry-insert deployed_annotation k "true" m ∙ ground (arith, h, eq_iff deployed_annotation k)

module _ (P : Platform) where
  pub mark_deployed_lem :
      (db : DependencyBuild) (m : Option (Dict String)) (w : World P)
      → db.metadata.annotations ≡ m
      → ((mark_deployed P db w).0 ≡ some tt)
        × ((mark_deployed P db w).1.requests
            ≡ w.requests ++ (updated_dependency_build (marked_with db) ∷ []))
  unfolding mark_deployed assign allocated ◌>>=◌ pure send
  mark_deployed_lem db none w h = rw h (refl, refl)
  mark_deployed_lem db (some m) w h = rw h (refl, refl)

  -- The marking of a DependencyBuild returns, and sends one update, of the DependencyBuild with the
  -- mark that artifactState takes for deployed, all its other annotations and the rest of its
  -- metadata as they were.
  pub mark_deployed-update :
      (db : DependencyBuild) (w : World P)
      → ((mark_deployed P db w).0 ≡ some tt)
        × ((marked : DependencyBuild) × ((mark_deployed P db w).1.requests
              ≡ w.requests ++ (updated_dependency_build marked ∷ []))
            × IsMarked db marked)
  mark_deployed-update db w =
      let (e, q) = mark_deployed_lem db db.metadata.annotations w refl in
      (
        e,
        (
          marked_with db,
          q,
          record {
            mark = with_mark-mark db.metadata.annotations;
            others = with_mark-others db.metadata.annotations;
            rest = refl;
          },
        ),
      )
