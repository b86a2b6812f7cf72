-- ===== src/Reconciler/Component/Status.antt =====
-- handleComponentBuildReceived of pkg/reconciler/componentbuild/componentbuild.go: the status that
-- it writes, against a specification by counts over the entries of the artifacts.
use mathlib.Core.List.{Perm}
use apheleia.Base.{
  ℕ, ◌+◌, String, ◌≡◌, refl, ◌≢◌, true, false, not, inl, inr, List, [], ◌∷◌, ◌++◌, ◌==◌, arith, All,
  count, Bool-cases, nat_eq, some, if◌then◌else◌,
}
use apheleia.Base.Dict.{Dict}
use apheleia.Base.Counts.{count-perm}
use apheleia.Api.{
  ArtifactState, ComponentBuild, component_build_state_failed, component_build_state_complete,
  component_build_state_in_progress,
}
use apheleia.Platform.{Platform, Reply, ok, err, ConfigMap}
use apheleia.Platform.Laws.{IsFaithful}
use apheleia.Exec.{Request, World, updated_status, on_reply, pure, ◌>>=◌}
use apheleia.Exec.Triple.{
  Triple, Triple-pure, Triple-read, Triple-send, Triple-bind, Triple-given, Triple-unless_err,
  Triple_consequence,
}
use apheleia.Api.Meta.{NamespacedName}
use apheleia.Reconciler.{apheleia_config}
use apheleia.Reconciler.Artifact.{DeployConfig}
use apheleia.Reconciler.Plain.{notify_once-Keeps}
use apheleia.Reconciler.Component.{
  no_config, no_config_message, config_of, is_incomplete, reset_status, any_failed, set_state,
  in_progress, put_status, complete, settle, handle_with_config, handle_component_build_received,
}
use apheleia.Reconciler.Component.Progress.{
  keys, pending, extend, IsEntry, AreFresh, AllVisited, visit_artifacts_extends,
}

abbrev pub failures : Dict ArtifactState → ℕ
failures = count (λ (_, v). v.failed)

-- The state of a component whose artifacts have these entries.
abbrev pub overall : Dict ArtifactState → String
overall entries =
    if nat_eq (pending entries) 0
    then (if nat_eq (failures entries) 0
        then component_build_state_complete
        else component_build_state_failed)
    else component_build_state_in_progress

-- The ComponentBuild with the status that these entries call for.
abbrev pub settled : Dict ArtifactState → ComponentBuild → ComponentBuild
settled entries cb = record cb {
  status = record {
    state = overall entries;
    outstanding = pending entries;
    artifact_state = entries;
    message = if cb.status.message == no_config_message then "" else cb.status.message;
    result_notified = if nat_eq (pending entries) 0 then cb.status.result_notified else false;
  };
}

-- The ComponentBuild that tells that its namespace has no deployment config.
abbrev pub unconfigured : ComponentBuild → ComponentBuild
unconfigured cb = record cb { status = record cb.status { message = no_config_message } }

-- The last request is a status update with a ComponentBuild of which `Q` holds, unless an error is
-- returned.
abbrev pub Wrote : (ComponentBuild → Type 0) → Reply (Unit {0}) → List Request → Type 0
Wrote Q (err e) rs = Unit
Wrote Q (ok _) rs =
    (before : List Request) × (cb' : ComponentBuild) × (rs ≡ before ++ (updated_status cb' ∷ []))
    × Q cb'

abbrev Any : List Request → Type 0
Any _ = Unit

-- What the handler leaves of a ComponentBuild.
abbrev pub Outcome : Platform → ComponentBuild → DeployConfig → ComponentBuild → Type 0
Outcome P cb conf cb' =
    if is_incomplete conf
    then cb' ≡ unconfigured cb
    else (entries : Dict ArtifactState) × (keys entries ≡ cb.spec.artifacts)
      × All (IsEntry P cb.metadata.namespace) entries
      × (cb' ≡ settled entries cb)

-- The deployment config that a read of the ConfigMap gives.
abbrev pub configured : Reply ConfigMap → DeployConfig
configured (ok m) = config_of m.contents
configured (err e) = no_config

-- The key of the ConfigMap of a ComponentBuild's namespace.
abbrev pub config_key : ComponentBuild → NamespacedName
config_key cb = record { namespace = cb.metadata.namespace; name = apheleia_config }

-- No artifact is named twice.
abbrev pub Distinct : List String → Type 0
Distinct [] = Unit
Distinct (gav ∷ gavs) = All (λ g. gav ≢ g) gavs × Distinct gavs

pub Distinct-AreFresh : (gavs : List String) → Distinct gavs → AreFresh gavs []
Distinct-AreFresh [] h = tt
Distinct-AreFresh (gav ∷ gavs) (h, k) = (tt, h, Distinct-AreFresh gavs k)

any_failed_lem :
    (entries : List (String × ArtifactState))
    → any_failed entries ≡ not (nat_eq (failures entries) 0)
unfolding any_failed
any_failed_lem [] = refl
any_failed_lem ((gav, v) ∷ entries) = ground (arith, any_failed_lem entries)

module _ (Q : ComponentBuild → Type 0) (cb : ComponentBuild) (q : Q cb) where
  wrote : (r : Reply (Unit {0})) (rs : List Request) → Wrote Q r (rs ++ (updated_status cb ∷ []))
  wrote (err e) rs = tt
  wrote (ok _) rs = (rs, cb, refl, q)

  put_status_writes : (P : Platform) → Triple Any (put_status P cb) (Wrote Q)
  put_status_writes P = Triple-send _ _ (λ c rs p. wrote (P.update_status cb c).0 rs)

module _ (P : Platform) (F : IsFaithful P) where
  module _ (cb : ComponentBuild) (entries : Dict ArtifactState) where
    abbrev IsSettled : ComponentBuild → Type 0
    IsSettled cb' = cb' ≡ settled entries cb

    pub complete_is_settled :
        (order : List (String × ArtifactState))
        → Perm order entries
        → nat_eq (0 + pending entries) 0 ≡ true
        → set_state
            (if any_failed order
              then component_build_state_failed
              else component_build_state_complete)
            (extend entries (reset_status cb))
          ≡ settled entries cb
    unfolding reset_status
    complete_is_settled order perm none_pending =
        rw (any_failed_lem order, count-perm (λ (_, v). v.failed) perm) (ground arith)

    pub in_progress_is_settled :
        nat_eq (0 + pending entries) 0 ≡ false
        → in_progress (extend entries (reset_status cb)) ≡ settled entries cb
    unfolding reset_status in_progress
    in_progress_is_settled some_pending = ground arith

    settle_writes : Triple Any (settle P (extend entries (reset_status cb))) (Wrote IsSettled)
    unfolding settle complete reset_status
    settle_writes = elim (Bool-cases (nat_eq (0 + pending entries) 0)) [
      | inl none_pending ↦ rw none_pending (
          Triple-bind (λ order rs. Perm order entries) _ _
            (Triple-read _ (λ c rs p. F.range-perm _ c))
            λ order. Triple-given (Perm order entries) _ _ λ perm.
              Triple-unless_err (λ _. Any) _ _ (notify_once-Keeps P Any (λ rs r h p. tt) _).triple
                (λ _. put_status_writes IsSettled _ (complete_is_settled order perm none_pending) P)
                (λ e rs p. tt))
      | inr some_pending ↦
          rw some_pending (put_status_writes IsSettled _ (in_progress_is_settled some_pending) P)
    ]

  pub Wrote-weaken :
      (Q R : ComponentBuild → Type 0)
      → ((cb : ComponentBuild) → Q cb → R cb)
      → (r : Reply (Unit {0})) (rs : List Request) → Wrote Q r rs
      → Wrote R r rs
  Wrote-weaken Q R f (err e) rs h = tt
  Wrote-weaken Q R f (ok _) rs (before, cb', e, q) = (before, cb', e, f cb' q)

  handle_with_config_writes :
      (cb : ComponentBuild) (conf : DeployConfig)
      → Distinct cb.spec.artifacts
      → Triple Any (handle_with_config P cb conf) (Wrote (Outcome P cb conf))
  unfolding handle_with_config reset_status
  handle_with_config_writes cb conf distinct = elim (Bool-cases (is_incomplete conf)) [
    | inl no_conf ↦ rw no_conf (put_status_writes (Outcome P cb conf) _ (rw no_conf refl) P)
    | inr complete_conf ↦ rw complete_conf (
        Triple-unless_err (λ r rs. AllVisited P (reset_status cb) cb.spec.artifacts r) _ _
          (visit_artifacts_extends P F conf cb.spec.artifacts (reset_status cb)
            (Distinct-AreFresh _ distinct))
          (λ cb'.
            Triple-given (AllVisited P (reset_status cb) cb.spec.artifacts (ok cb')) _ _
              λ (entries, e, k, is). rw e (
                Triple_consequence Any Any (Wrote (IsSettled cb entries)) _ _ (λ rs p. tt)
                  (Wrote-weaken _ _ λ cb'' q. rw complete_conf (entries, k, is, q))
                  (settle_writes cb entries)))
          (λ e rs p. tt))
  ]

  config_read_writes :
      (cb : ComponentBuild) (cm : Reply ConfigMap)
      → Distinct cb.spec.artifacts
      → Triple Any
          (on_reply cm
            (λ e. if P.is_not_found e then handle_with_config P cb no_config else pure (err e))
            (λ m. handle_with_config P cb (config_of m.contents)))
          (Wrote (Outcome P cb (configured cm)))
  unfolding on_reply
  config_read_writes cb (ok m) distinct =
      handle_with_config_writes cb (config_of m.contents) distinct
  config_read_writes cb (err e) distinct = elim (Bool-cases (P.is_not_found e)) [
    | inl absent ↦ rw absent (handle_with_config_writes cb no_config distinct)
    | inr unknown ↦ rw unknown (Triple-pure (err e) (λ rs p. tt))
  ]

  -- With a platform that does as documented, and a spec that names no artifact twice,
  -- handleComponentBuildReceived returns a result or an error. Unless it returns an error, its last
  -- request is a status update: where the deployment config is incomplete, with the message for
  -- that case and all else as it was; else with one entry for each artifact of the spec, and with
  -- the state, the count of outstanding artifacts and the notification flag that these entries call
  -- for. Each entry says what artifactState found for an ArtifactBuild that the cluster has
  -- answered with or created, or for the zero value where it answered with an error.
  pub handle_component_build_received-status :
      (cb : ComponentBuild) (w : World P)
      → Distinct cb.spec.artifacts
      → (r : Reply (Unit {0})) × ((handle_component_build_received P cb w).0 ≡ some r)
        × Wrote
            (Outcome P cb (configured (P.get_config_map (config_key cb) w.cluster).0))
            r
            (handle_component_build_received P cb w).1.requests
  unfolding handle_component_build_received ◌>>=◌
  handle_component_build_received-status cb w distinct =
      (config_read_writes cb (P.get_config_map (config_key cb) w.cluster).0 distinct).at
        (record w { cluster = (P.get_config_map (config_key cb) w.cluster).1 }) tt
