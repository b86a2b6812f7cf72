-- ===== src/Reconciler/Loops/Deployed.antt =====
-- deployArtifact, handleTaskRunReceived and artifactState of
-- pkg/reconciler/componentbuild/componentbuild.go: from the start of a deployment to its mark.
use mathlib.Core.List.{append-nil, append_assoc}
use apheleia.Base.{
  ℕ, String, ◌<>◌, ◌≡◌, ◌≢◌, refl, sym, ap, ◌∙◌, true, false, Option, some, List, [], ◌∷◌, ◌++◌,
  ◌==◌, arith, eq_iff,
}
use apheleia.Base.Dict.{entry}
use apheleia.Base.Text.{equal_fold}
use apheleia.Api.Meta.{OwnerReference, ObjectMeta, NamespacedName, empty_metadata}
use apheleia.Platform.{Platform, Reply, ok, ArtifactBuild, DependencyBuild, TaskRun}
use apheleia.Platform.Laws.{IsOwning, IsOwned}
use apheleia.Exec.{Request, World, updated_dependency_build, on_option, on_reply, ◌>>=◌}
use apheleia.Reconciler.{deploy_task_label}
use apheleia.Reconciler.Artifact.{
  DeployConfig, deployed_mark, is_built, is_failed, get_dependency_build, artifact_state,
  deploy_task_run, deploy_artifact,
}
use apheleia.Reconciler.Artifact.Deploy.{
  get_dependency_build-requests, deploy_artifact-requests, not_due,
}
use apheleia.Reconciler.Plain
use apheleia.Reconciler.Runs.{
  owner_name, mark_deployed, handle_artifact_build_received, task_run_owned, task_run_with_owner,
  task_run_completed, handle_task_run_received,
}
use apheleia.Reconciler.Runs.Mark.{marked_with, with_mark-mark, mark_deployed_lem}

unmarked_lem : (s : String) → s ≡ "true" → (s == "") ≡ false
unmarked_lem s h = rw h refl

named : (s : String) → s ≢ "" → (s == "") ≡ false
named s n = ground (arith, n, eq_iff s "")

owner_lem :
    (name : String)
    → owner_name "artifactbuild" "artifactbuilds"
        (record { kind = "ArtifactBuild"; name = name } ∷ [])
      ≡ name
unfolding owner_name equal_fold
owner_lem name = refl

module _ (P : Platform) where
  -- The run `ended` is what Tekton has made of the run `started`: it has ended with success, with
  -- the namespace, the owners and the deploy label that it was created with.
  pub record IsSuccessOf (started ended : TaskRun) : Type 0 where
    pub namespace : ended.metadata.namespace ≡ started.metadata.namespace
    pub owners : ended.metadata.owner_references ≡ started.metadata.owner_references
    pub label :
        entry deploy_task_label ended.metadata.labels
        ≡ entry deploy_task_label started.metadata.labels
    pub time : ℕ
    pub ends : ended.completion_time ≡ some time
    pub succeeds : P.is_true ended.succeeded ≡ true

  abbrev pub key_of : ArtifactBuild → NamespacedName
  key_of abr = record { namespace = abr.metadata.namespace; name = abr.metadata.name }

  deploy_task_run-IsOwned :
      (O : IsOwning P) (abr : ArtifactBuild) (db : DependencyBuild) (conf : DeployConfig)
      → IsOwned
          (record empty_metadata { namespace = abr.metadata.namespace })
          "ArtifactBuild"
          abr.metadata.name
          (deploy_task_run P abr db conf).metadata
  unfolding deploy_task_run
  deploy_task_run-IsOwned O abr db conf =
      let (x, e, o) = O.set_owner_reference-owner abr meta refl refl in
      record { namespace = rw e o.namespace; owners = rw e o.owners }
    where
      meta : ObjectMeta
      meta = record empty_metadata {
        generate_name = abr.metadata.name <> "-deploy-task";
        namespace = abr.metadata.namespace;
      }

  deploy_task_run-label :
      (abr : ArtifactBuild) (db : DependencyBuild) (conf : DeployConfig)
      → entry deploy_task_label (deploy_task_run P abr db conf).metadata.labels ≡ db.metadata.name
  unfolding deploy_task_run
  deploy_task_run-label abr db conf = refl

  -- The rest of a handler comes behind the requests that were sent before.
  handle_artifact_build_received-extends :
      (abr : ArtifactBuild) (w : World P)
      → (r : Reply (Unit {0})) × ((handle_artifact_build_received P abr w).0 ≡ some r)
        × ((after : List Request) × ((handle_artifact_build_received P abr w).1.requests
              ≡ w.requests ++ after))
  handle_artifact_build_received-extends abr w =
      (Plain.handle_artifact_build_received-Keeps P
          (λ rs. (after : List Request) × (rs ≡ w.requests ++ after))
          (λ rs r _ p. (p.0 ++ (r ∷ []), rw p.1 (append_assoc w.requests p.0 (r ∷ []))))
          abr).triple.at
        w ([], sym (append-nil w.requests))

  module _ (abr : ArtifactBuild) (db : DependencyBuild) where
    -- From the world `w`, it returns; the first request is the update of the DependencyBuild with
    -- the mark.
    abbrev pub MarksFirst : World P → Option (Reply (Unit {0})) × World P → Type 0
    MarksFirst w x =
        (r : Reply (Unit {0})) × (x.0 ≡ some r)
        × ((after : List Request) × (x.1.requests
              ≡ w.requests ++ (updated_dependency_build (marked_with db) ∷ after)))

    task_run_owned-MarksFirst :
        (tr : TaskRun) (w : World P)
        → P.is_true tr.succeeded ≡ true
        → (get_dependency_build P abr w).0 ≡ some (some db)
        → MarksFirst w (task_run_owned P tr abr w)
    unfolding task_run_owned ◌>>=◌ on_option
    task_run_owned-MarksFirst tr w s h =
        let w' = (get_dependency_build P abr w).1 in
        let (e, q) = mark_deployed_lem P db db.metadata.annotations w' refl in
        let (r, e', (after, q')) =
          handle_artifact_build_received-extends abr (mark_deployed P db w').1 in
        rw (s, h, e)
          (
            r,
            e',
            (
              after,
              q'
                  ∙ ap (λ rs. rs ++ after)
                      (q
                        ∙ ap (λ rs. rs ++ (updated_dependency_build (marked_with db) ∷ []))
                            (get_dependency_build-requests P abr w))
                  ∙ append_assoc w.requests (updated_dependency_build (marked_with db) ∷ []) after,
            ),
          )

    -- The world after the reading of the ArtifactBuild.
    abbrev pub once_read : World P → World P
    once_read w = record w { cluster = (P.get_artifact_build (key_of abr) w.cluster).1 }

    -- The owner of the run is found by its name.
    completed-MarksFirst :
        (tr : TaskRun) (refs : List OwnerReference) (w : World P)
        → P.is_true tr.succeeded ≡ true
        → owner_name "artifactbuild" "artifactbuilds" refs ≡ abr.metadata.name
        → abr.metadata.name ≢ ""
        → tr.metadata.namespace ≡ abr.metadata.namespace
        → (P.get_artifact_build (key_of abr) w.cluster).0 ≡ ok abr
        → (get_dependency_build P abr (once_read w)).0 ≡ some (some db)
        → MarksFirst w (task_run_completed P tr refs w)
    unfolding task_run_completed task_run_with_owner task_run_owned ◌>>=◌ on_reply owner_name
    completed-MarksFirst tr [] w s o n ns h f = absurd (n (sym o))
    completed-MarksFirst tr (x ∷ refs) w s o n ns h f =
        let there : (abr.metadata.name == "") ≡ false = named _ n in
        rw (o, there, ns, h) (task_run_owned-MarksFirst tr (once_read w) s f)

  -- What a handling of the ArtifactBuild finds once the cluster has the mark.
  deployed_again :
      (abr : ArtifactBuild) (conf : DeployConfig) (db : DependencyBuild) (w : World P)
      → is_built P abr ≡ true
      → (get_dependency_build P abr w).0 ≡ some (some (marked_with db))
      → ((artifact_state P abr w).0
          ≡ some (record {
            artifact_build = abr.metadata.name;
            failed = is_failed P abr;
            built = true;
            deployed = true;
          }))
        × ((deploy_artifact P abr conf w).1.requests ≡ w.requests)
  unfolding artifact_state ◌>>=◌
  deployed_again abr conf db w b f =
      let mark : deployed_mark (some (marked_with db)) ≡ "true" =
        with_mark-mark db.metadata.annotations in
      let (r, e, q) = deploy_artifact-requests P abr conf w (some (marked_with db)) f in
      let unmarked : (deployed_mark (some (marked_with db)) == "") ≡ false = unmarked_lem _ mark in
      (rw (b, f, mark) refl, rw (not_due P (marked_with db) _ unmarked) at q)

  -- Where an owner reference is set as documented: the TaskRun that deployArtifact creates for an
  -- ArtifactBuild and its DependencyBuild, each with a name, when it has ended with success and is
  -- handed to handleTaskRunReceived, leads back to the two. If the client answers with that
  -- ArtifactBuild under its name, and getDependencyBuild then finds that DependencyBuild, the
  -- handler returns, and the first request that it sends is the update of the DependencyBuild with
  -- the mark. Once getDependencyBuild finds it with the mark, artifactState says of the
  -- ArtifactBuild, if it is complete, that it is deployed, and deployArtifact sends nothing.
  pub deploy_task_run-handle_task_run_received :
      (O : IsOwning P) (abr : ArtifactBuild) (db : DependencyBuild) (conf : DeployConfig)
      (tr : TaskRun) (w later : World P)
      → IsSuccessOf (deploy_task_run P abr db conf) tr
      → abr.metadata.name ≢ ""
      → db.metadata.name ≢ ""
      → (P.get_artifact_build (key_of abr) w.cluster).0 ≡ ok abr
      → (get_dependency_build P abr (once_read abr db w)).0 ≡ some (some db)
      → is_built P abr ≡ true
      → (get_dependency_build P abr later).0 ≡ some (some (marked_with db))
      → MarksFirst abr db w (handle_task_run_received P tr w)
        × ((artifact_state P abr later).0
            ≡ some (record {
              artifact_build = abr.metadata.name;
              failed = is_failed P abr;
              built = true;
              deployed = true;
            }))
        × ((deploy_artifact P abr conf later).1.requests ≡ later.requests)
  unfolding handle_task_run_received on_option task_run_completed task_run_with_owner task_run_owned
  deploy_task_run-handle_task_run_received O abr db conf tr w later h an dn reads finds b f =
      let owned_by = deploy_task_run-IsOwned O abr db conf in
      let labelled : (entry deploy_task_label tr.metadata.labels == "") ≡ false =
        ap (λ s. s == "") (h.label ∙ deploy_task_run-label abr db conf) ∙ named _ dn in
      let (state, nothing) = deployed_again abr conf db later b f in
      (
        rw (h.ends, labelled)
            (completed-MarksFirst abr db tr tr.metadata.owner_references w h.succeeds
              (ap (owner_name "artifactbuild" "artifactbuilds") (h.owners ∙ owned_by.owners)
                ∙ owner_lem abr.metadata.name)
              an (h.namespace ∙ owned_by.namespace) reads finds),
        state,
        nothing,
      )
