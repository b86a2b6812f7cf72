-- ===== src/Reconciler/Lifecycle/Writes.antt =====
-- pkg/reconciler/componentbuild/componentbuild.go: the statuses that Reconcile writes, against the
-- step relation of their life.
use mathlib.Core.List.{append_assoc}
use apheleia.Base.{
  String, ◌≡◌, ◌⊎◌, refl, ap, sym, ◌∙◌, Bool, true, false, nat_eq, List, [], ◌∷◌, ◌++◌, All,
  All-append, some, inl, inr, if◌then◌else◌, arith,
}
use apheleia.Api.{
  ComponentBuild, ComponentBuildList, component_build_state_failed, component_build_state_complete,
}
use apheleia.Api.Meta.{NamespacedName}
use apheleia.Platform.{Platform, Reply, ok, PipelineRun}
use apheleia.Exec.{
  Request, World, send, unless_err, updated_status, created_artifact_build, created_task_run,
  created_pipeline_run, updated_dependency_build, recorded_event,
}
use apheleia.Exec.Triple.{Triple-unless_err, Triple-given_and}
use apheleia.Exec.Keeps.{
  Keeps, Keeps-send, Keeps-bind, Keeps-read, Keeps-if, Keeps-unless_err, keeps_rules,
}
use apheleia.Reconciler.Artifact.{DeployConfig}
use apheleia.Reconciler.Notify.{notify_result, create_notification, notifier_message}
use apheleia.Reconciler.Component.{
  reset_status, put_status, set_state, any_failed, in_progress, notify_once, complete, settle,
  visit_artifacts, handle_with_config, handle_component_build_received, is_incomplete,
}
use apheleia.Reconciler.Component.Bounds.{is_status_update}
use apheleia.Reconciler.Component.Frame.{frame, is_work, IsFramed, visit_artifacts-IsFramed}
use apheleia.Reconciler.Runs.Notified.{notified}
use apheleia.Reconciler.Dispatch.{reconcile}
use apheleia.Reconciler.Written.{Written, reconcile_written}
use apheleia.Reconciler.Lifecycle.{Step, config_missing, progressed, concluded, reported}

-- The cluster answers with the ComponentBuild when it is asked for it or for those of a namespace.
pub data IsAnswered (P : Platform) (x : ComponentBuild) : Type 0 where
  by_get :
      (key : NamespacedName) (c : P.Cluster)
      → (P.get_component_build key c).0 ≡ ok x
      → IsAnswered P x
  by_list :
      (ns : String) (c : P.Cluster) (l : ComponentBuildList) (front back : List ComponentBuild)
      → (P.list_component_builds ns c).0 ≡ ok l
      → l.items ≡ front ++ (x ∷ back)
      → IsAnswered P x

-- The ComponentBuild `cb` is `x` after one step of its status.
pub record IsStepped (x cb : ComponentBuild) : Type 0 where
  pub metadata : cb.metadata ≡ x.metadata
  pub spec : cb.spec ≡ x.spec
  pub step : Step x.status cb.status

-- A request that writes a status writes it for a ComponentBuild that the cluster answered with.
abbrev pub IsLegal : Platform → Request → Type 0
IsLegal P (updated_status cb) = (x : ComponentBuild) × IsAnswered P x × IsStepped x cb
IsLegal _ _ = Unit

module _ (P : Platform) where
  abbrev AreLegal : List Request → Type 0
  AreLegal rs = All (IsLegal P) rs

  grow :
      (rs : List Request) (r : Request)
      → is_status_update r ≡ false
      → AreLegal rs
      → AreLegal (rs ++ (r ∷ []))
  grow rs (updated_status cb) h p = absurd cc
  grow rs (created_artifact_build a) h p = All-append _ _ _ p (tt, tt)
  grow rs (created_task_run a) h p = All-append _ _ _ p (tt, tt)
  grow rs (created_pipeline_run a) h p = All-append _ _ _ p (tt, tt)
  grow rs (updated_dependency_build a) h p = All-append _ _ _ p (tt, tt)
  grow rs (recorded_event a b c d) h p = All-append _ _ _ p (tt, tt)

  work_grows :
      (rs : List Request) (r : Request) → is_work r ≡ true → AreLegal rs → AreLegal (rs ++ (r ∷ []))
  work_grows rs (updated_status cb) h p = absurd cc
  work_grows rs (created_artifact_build a) h p = All-append _ _ _ p (tt, tt)
  work_grows rs (created_task_run a) h p = All-append _ _ _ p (tt, tt)
  work_grows rs (created_pipeline_run a) h p = absurd cc
  work_grows rs (updated_dependency_build a) h p = absurd cc
  work_grows rs (recorded_event a b c d) h p = absurd cc

  put_status-AreLegal :
      (x cb : ComponentBuild) → IsAnswered P x → IsStepped x cb → Keeps AreLegal (put_status P cb)
  put_status-AreLegal x cb h s = Keeps-send _ _ (λ rs p. All-append _ _ _ p ((x, h, s), tt))

  create_pipeline_run-AreLegal :
      {A : Type 0} (r : PipelineRun) (f : P.Cluster → A × P.Cluster)
      → Keeps {P = P} AreLegal (send (created_pipeline_run r) f)
  create_pipeline_run-AreLegal r f = Keeps-send _ f (λ rs. grow rs _ refl)

  notify_once-AreLegal : (cb : ComponentBuild) → Keeps AreLegal (notify_once P cb)
  unfolding notify_once notify_result create_notification notifier_message
  notify_once-AreLegal cb = search (keeps_rules, create_pipeline_run-AreLegal) depth 16

  -- A ComponentBuild that the cluster answered with, and what the loop has made of it.
  module _ (x : ComponentBuild) (h : IsAnswered P x) where
    progressed-IsStepped :
        (cb : ComponentBuild)
        → frame cb ≡ frame (reset_status x)
        → nat_eq cb.status.outstanding 0 ≡ false
        → IsStepped x (in_progress cb)
    unfolding in_progress reset_status
    progressed-IsStepped cb e some_left = record {
      metadata = ap (λ y. y.metadata) e;
      spec = ap (λ y. y.spec) e;
      step =
          progressed refl (λ z. absurd (ground (arith, z, some_left))) refl
            (ap (λ y. y.status.message) e);
    }

    concluded-IsStepped :
        (cb : ComponentBuild) (failed : Bool)
        → frame cb ≡ frame (reset_status x)
        → nat_eq cb.status.outstanding 0 ≡ true
        → IsStepped x (
            set_state
              (if failed then component_build_state_failed else component_build_state_complete)
              cb)
    unfolding reset_status
    concluded-IsStepped cb failed e none_left = record {
      metadata = ap (λ y. y.metadata) e;
      spec = ap (λ y. y.spec) e;
      step =
          concluded (outcome failed) (ground (arith, none_left))
            (ap (λ y. y.status.result_notified) e) (ap (λ y. y.status.message) e);
    }
      where
        outcome :
            (b : Bool)
            → ((if b then component_build_state_failed else component_build_state_complete)
                ≡ component_build_state_complete)
              ⊎ ((if b then component_build_state_failed else component_build_state_complete)
                  ≡ component_build_state_failed)
        outcome true = inr refl
        outcome false = inl refl

    settle-AreLegal :
        (cb : ComponentBuild) → frame cb ≡ frame (reset_status x) → Keeps AreLegal (settle P cb)
    unfolding settle complete
    settle-AreLegal cb e =
        Keeps-if (nat_eq cb.status.outstanding 0) _ _
          (λ none_left. Keeps-bind _ _ (Keeps-read _) λ entries.
            Keeps-unless_err _ _ (notify_once-AreLegal _) λ _.
              put_status-AreLegal x _ h (concluded-IsStepped cb (any_failed entries) e none_left))
          (λ some_left. put_status-AreLegal x _ h (progressed-IsStepped cb e some_left))

    loop-AreLegal :
        (conf : DeployConfig)
        → Keeps AreLegal
            (unless_err (visit_artifacts P conf x.spec.artifacts (reset_status x)) (settle P))
    loop-AreLegal conf = record {
      triple =
          Triple-unless_err (IsFramed P AreLegal work_grows (reset_status x)) _ _
            (visit_artifacts-IsFramed P AreLegal work_grows conf x.spec.artifacts (reset_status x))
            (λ cb.
              Triple-given_and (frame cb ≡ frame (reset_status x)) _ _ _
                λ e. (settle-AreLegal cb e).triple)
            (λ e rs p. p);
    }

    handle_with_config-AreLegal :
        (conf : DeployConfig) → Keeps AreLegal (handle_with_config P x conf)
    unfolding handle_with_config
    handle_with_config-AreLegal conf =
        Keeps-if (is_incomplete conf) _ _
          (λ _.
            put_status-AreLegal x _ h
              (record { metadata = refl; spec = refl; step = config_missing refl }))
          (λ _. loop-AreLegal conf)

    handle_component_build_received-AreLegal : Keeps AreLegal (handle_component_build_received P x)
    unfolding handle_component_build_received
    handle_component_build_received-AreLegal =
        search (keeps_rules, handle_with_config-AreLegal) depth 12

    notified-AreLegal : Keeps AreLegal (put_status P (notified x))
    notified-AreLegal =
        put_status-AreLegal x _ h (record { metadata = refl; spec = refl; step = reported refl })

  items-IsAnswered :
      (ns : String) (c : P.Cluster) (l : ComponentBuildList) (front items : List ComponentBuild)
      → (P.list_component_builds ns c).0 ≡ ok l
      → l.items ≡ front ++ items
      → All (IsAnswered P) items
  items-IsAnswered ns c l front [] e h = tt
  items-IsAnswered ns c l front (x ∷ items) e h = (
    by_list ns c l front items e h,
    items-IsAnswered ns c l (front ++ (x ∷ [])) items e
        (h ∙ sym (append_assoc front (x ∷ []) items)),
  )

  Written-AreLegal : Written P (IsAnswered P) AreLegal
  Written-AreLegal = record {
    reads = λ key c x e. by_get key c e;
    lists = λ ns c l e. items-IsAnswered ns c l [] l.items e refl;
    grows = grow;
    handles = handle_component_build_received-AreLegal;
    notifies = notified-AreLegal;
  }

  -- Whatever the cluster answers and whatever the library calls return: Reconcile, from a world in
  -- which no request was sent yet, returns, and each status that it has written (also where it
  -- returns an error) is written for a ComponentBuild that the cluster answers with to a get or in
  -- a list, whose metadata and spec are sent back as they were, and follows from the status of that
  -- ComponentBuild by one step of the life of a status.
  pub reconcile-AreLegal :
      (key : NamespacedName) (w : World P)
      → w.requests ≡ []
      → (r : Reply (Unit {0})) × ((reconcile P key w).0 ≡ some r)
        × All (IsLegal P) (reconcile P key w).1.requests
  reconcile-AreLegal key w e =
      (reconcile_written P (IsAnswered P) AreLegal Written-AreLegal key).triple.at w (rw e tt)
