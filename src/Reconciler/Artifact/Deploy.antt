-- ===== src/Reconciler/Artifact/Deploy.antt =====
-- deployArtifact of pkg/reconciler/componentbuild/componentbuild.go: when it creates a TaskRun.
use apheleia.Base.{
  ◌≡◌, refl, Bool, true, false, not, ◌&&◌, ◌==◌, nat_eq, Option, none, some, List, [], ◌∷◌, ◌++◌,
  arith, count, Bool-cases, inl, inr, if◌then◌else◌,
}
use apheleia.Platform.{Platform, Reply, ok, err, ArtifactBuild, DependencyBuild, TaskRun}
use apheleia.Exec.{
  Request, World, created_task_run, pure, send, on_reply, on_option, unless_err, ◌>>=◌,
}
use apheleia.Exec.Triple.{Triple, Triple-pure, Triple-send}
use apheleia.Exec.Keeps.{Keeps, keeps_rules}
use apheleia.Reconciler.{deploy_task_label}
use apheleia.Reconciler.Artifact.{
  DeployConfig, deployed_mark, any_task_unknown, deploy_task_run, get_dependency_build,
  start_deploy, deploy_found, deploy_artifact,
}

module _ (P : Platform) where
  -- The DependencyBuild has no mark, and the runs were listed and none still runs.
  abbrev pub is_deploy_due : DependencyBuild → Reply (List TaskRun) → Bool
  is_deploy_due db (err e) = false
  is_deploy_due db (ok items) =
      deployed_mark (some db) == "" && nat_eq (count (λ r. P.is_unknown r.succeeded) items) 0

  any_task_unknown_lem :
      (items : List TaskRun)
      → nat_eq (count (λ r. P.is_unknown r.succeeded) items) 0 ≡ not (any_task_unknown P items)
  unfolding any_task_unknown
  any_task_unknown_lem [] = refl
  any_task_unknown_lem (r ∷ items) = ground (arith, any_task_unknown_lem items)

  pub not_due :
      (db : DependencyBuild) (reply : Reply (List TaskRun))
      → (deployed_mark (some db) == "") ≡ false
      → is_deploy_due db reply ≡ false
  not_due db (err e) h = refl
  not_due db (ok items) h = rw h

  pub get_dependency_build-requests :
      (abr : ArtifactBuild) (w : World P) → (get_dependency_build P abr w).1.requests ≡ w.requests
  unfolding get_dependency_build
  get_dependency_build-requests abr w = (quiet.triple.at w refl).2
    where
      quiet : Keeps (λ rs. rs ≡ w.requests) (get_dependency_build P abr)
      quiet = search keeps_rules depth 12

  module _ (abr : ArtifactBuild) (conf : DeployConfig) where
    -- After the requests `before`, the TaskRun for the DependencyBuild has been created.
    abbrev pub Started : DependencyBuild → List Request → List Request → Type 0
    Started db before rs = rs ≡ before ++ (created_task_run (deploy_task_run P abr db conf) ∷ [])

    -- What deployArtifact has sent, by the DependencyBuild that it found and the list of the runs.
    abbrev pub Deployed :
        Option DependencyBuild
        → (DependencyBuild → Reply (List TaskRun))
        → List Request
        → List Request
        → Type 0
    Deployed none runs before rs = rs ≡ before
    Deployed (some db) runs before rs =
        if is_deploy_due db (runs db) then Started db before rs else rs ≡ before

    module _ (before : List Request) where
      abbrev Before : List Request → Type 0
      Before rs = rs ≡ before

      list_read_sends :
          (db : DependencyBuild) (reply : Reply (List TaskRun))
          → (deployed_mark (some db) == "") ≡ true
          → Triple Before
              (on_reply reply
                (λ e. pure (err e))
                (λ items.
                  if any_task_unknown P items
                  then pure (ok tt)
                  else (let tr = deploy_task_run P abr db conf in
                      send {P = P} (created_task_run tr) (P.create_task_run tr))))
              (λ r rs. if is_deploy_due db reply then Started db before rs else Before rs)
      unfolding on_reply
      list_read_sends db (err e) h = Triple-pure _ (λ rs p. p)
      list_read_sends db (ok items) h = elim (Bool-cases (any_task_unknown P items)) [
        | inl running ↦ rw running (Triple-pure _ (λ rs p. rw (due, running) p))
        | inr idle ↦ rw idle (Triple-send _ _ (λ c rs p. rw (due, idle) (rw p)))
      ]
        where
          due : is_deploy_due db (ok items) ≡ not (any_task_unknown P items)
          due = rw (h, any_task_unknown_lem items)

    -- The TaskRuns for a DependencyBuild, as the cluster lists them.
    pub runs_of : P.Cluster → DependencyBuild → Reply (List TaskRun) × P.Cluster
    runs_of c db = P.list_task_runs abr.metadata.namespace deploy_task_label db.metadata.name c

    deploy_found_sends :
        (db : DependencyBuild) (w : World P)
        → (r : Reply (Unit {0})) × ((deploy_found P abr conf db w).0 ≡ some r)
          × Deployed
              (some db)
              (λ d. (runs_of w.cluster d).0)
              w.requests
              (deploy_found P abr conf db w).1.requests
    unfolding deploy_found start_deploy unless_err ◌>>=◌ runs_of
    deploy_found_sends db w = elim (Bool-cases (deployed_mark (some db) == "")) [
      | inl unmarked ↦ rw unmarked (
          (list_read_sends w.requests db (runs_of w.cluster db).0 unmarked).at
            (record w { cluster = (runs_of w.cluster db).1 }) refl)
      | inr marked ↦ rw marked (ok tt, refl, rw (not_due db (runs_of w.cluster db).0 marked) refl)
    ]

    option_sends :
        (odb : Option DependencyBuild) (w : World P)
        → (r : Reply (Unit {0})) × ((on_option odb (pure (ok tt)) (deploy_found P abr conf) w).0
            ≡ some r)
          × Deployed odb
              (λ d. (runs_of w.cluster d).0)
              w.requests
              (on_option odb (pure (ok tt)) (deploy_found P abr conf) w).1.requests
    unfolding on_option pure
    option_sends none w = (ok tt, refl, refl)
    option_sends (some db) w = deploy_found_sends db w

    -- deployArtifact returns. It creates one TaskRun if it found a DependencyBuild that has no mark
    -- that it is deployed, and the list of the TaskRuns for that could be read and none of them
    -- still runs; and else it sends nothing.
    pub deploy_artifact-requests :
        (w : World P) (odb : Option DependencyBuild)
        → (get_dependency_build P abr w).0 ≡ some odb
        → (r : Reply (Unit {0})) × ((deploy_artifact P abr conf w).0 ≡ some r)
          × Deployed odb
              (λ db. (runs_of (get_dependency_build P abr w).1.cluster db).0)
              w.requests
              (deploy_artifact P abr conf w).1.requests
    unfolding deploy_artifact ◌>>=◌
    deploy_artifact-requests w odb found = rw found (
        rw (get_dependency_build-requests abr w) at
          (option_sends odb (get_dependency_build P abr w).1))
