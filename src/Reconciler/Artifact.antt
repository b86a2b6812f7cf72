-- ===== src/Reconciler/Artifact.antt =====
-- pkg/reconciler/componentbuild/componentbuild.go: artifactState, getDependencyBuild and
-- deployArtifact, which find out how far one artifact is and start its deployment.
pub mod State
pub mod Deploy
use apheleia.Base.{
  String, ◌<>◌, Bool, true, false, Option, none, some, List, [], ◌∷◌, ◌||◌, ◌==◌, if◌then◌else◌,
}
use apheleia.Api.{ArtifactState}
use apheleia.Api.Meta.{ObjectMeta, OwnerReference, empty_metadata, annotation}
use apheleia.Platform.{Platform, Reply, ok, err, ArtifactBuild, DependencyBuild, TaskRun, Param}
use apheleia.Exec.{Exec, pure, read, send, created_task_run, on_reply, on_option, unless_err, ◌>>=◌}
use apheleia.Reconciler.{deploy_task_label}

-- The loop over the owner references, which does not stop at the first match.
unfoldable pub dependency_build_name : List OwnerReference → String → String
dependency_build_name [] name = name
dependency_build_name (o ∷ refs) name =
    dependency_build_name refs (if o.kind == "DependencyBuild" then o.name else name)

-- The value of a read whose error is dropped.
abbrev pub found : {A : Type 0} → Reply A → Option A
found (ok a) = some a
found (err e) = none

-- The annotation of a DependencyBuild that tells that it is deployed.
abbrev pub deployed_annotation : String
deployed_annotation = "io.aphelia/deployed"

abbrev pub deployed_mark : Option DependencyBuild → String
deployed_mark none = ""
deployed_mark (some db) = annotation deployed_annotation db.metadata.annotations

-- What the component's ConfigMap gives for a deployment.
pub record DeployConfig : Type 0 where
  pub url : String
  pub owner : String
  pub domain : String

module _ (P : Platform) where
  -- A v1beta1.Param whose value is a string.
  abbrev pub string_param : String → String → Param
  string_param name value = record { name = name; string_val = value; kind = P.param_type_string }

  unfoldable pub get_dependency_build : ArtifactBuild → Exec P (Option DependencyBuild)
  unfolding dependency_build_name
  get_dependency_build abr = do
    ra ← read (
        P.get_rebuilt_artifact
          (record { namespace = abr.metadata.namespace; name = abr.metadata.name }))
    on_reply ra (λ e. pure none)
        λ ra.
          let name = dependency_build_name ra.metadata.owner_references "" in
          if name == "" then pure none else do
            db ← read (
                P.get_dependency_build (record { namespace = abr.metadata.namespace; name = name }))
            pure (found db)

  abbrev pub is_failed : ArtifactBuild → Bool
  is_failed abr =
      abr.state == P.artifact_build_state_failed || abr.state == P.artifact_build_state_missing

  abbrev pub is_built : ArtifactBuild → Bool
  is_built abr = abr.state == P.artifact_build_state_complete

  unfoldable pub artifact_state : ArtifactBuild → Exec P ArtifactState
  artifact_state abr = do
    deployed ←
        (if is_built abr
          then (do db ← get_dependency_build abr; pure (deployed_mark db == "true"))
          else pure false)
    pure (record {
      artifact_build = abr.metadata.name;
      failed = is_failed abr;
      built = is_built abr;
      deployed = deployed;
    })

  -- Whether the condition of one of the runs is unknown, so that it still runs.
  unfoldable pub any_task_unknown : List TaskRun → Bool
  any_task_unknown [] = false
  any_task_unknown (i ∷ items) =
      let rest = any_task_unknown items in if P.is_unknown i.succeeded then true else rest

  -- An error of SetOwnerReference is logged, and the object stays as it was.
  abbrev pub owned : ObjectMeta → Reply ObjectMeta → ObjectMeta
  owned meta (ok m) = m
  owned meta (err e) = meta

  unfoldable pub deploy_task_run : ArtifactBuild → DependencyBuild → DeployConfig → TaskRun
  deploy_task_run abr db conf =
      let meta = record empty_metadata {
        generate_name = abr.metadata.name <> "-deploy-task";
        namespace = abr.metadata.namespace;
      } in
      record {
        metadata = record (owned meta (P.set_owner_reference abr meta)) {
          labels = (deploy_task_label, db.metadata.name) ∷ [];
        };
        task_ref = some (record { name = "apheleia-deploy"; kind = P.cluster_task_kind });
        params =
            string_param "DOMAIN" conf.domain
            ∷ string_param "OWNER" conf.owner
            ∷ string_param "REPO" conf.url
            ∷ string_param "FORCE" "false"
            ∷ string_param "ARTIFACT" abr.metadata.name
            ∷ [];
        completion_time = none;
        succeeded = none;
      }

  -- The part of deployArtifact under its first test.
  unfoldable pub start_deploy :
      ArtifactBuild → DeployConfig → DependencyBuild → Exec P (Reply (Unit {0}))
  start_deploy abr conf db =
      unless_err (read (P.list_task_runs abr.metadata.namespace deploy_task_label db.metadata.name))
        λ items.
          if any_task_unknown items
          then pure (ok tt)
          else (let tr = deploy_task_run abr db conf in
              send (created_task_run tr) (P.create_task_run tr))

  -- The part under its first half, for the DependencyBuild that was found.
  unfoldable pub deploy_found :
      ArtifactBuild → DeployConfig → DependencyBuild → Exec P (Reply (Unit {0}))
  deploy_found abr conf db =
      if deployed_mark (some db) == "" then start_deploy abr conf db else pure (ok tt)

  unfoldable pub deploy_artifact : ArtifactBuild → DeployConfig → Exec P (Reply (Unit {0}))
  unfolding deploy_found
  deploy_artifact abr conf = do
    db ← get_dependency_build abr
    on_option db (pure (ok tt)) (deploy_found abr conf)
