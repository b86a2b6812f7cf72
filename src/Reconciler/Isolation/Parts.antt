-- ===== src/Reconciler/Isolation/Parts.antt =====
-- The parts of the reconciler that send requests for one artifact or one ComponentBuild write in
-- its namespace (artifactState, deployArtifact and notifyResult of
-- pkg/reconciler/componentbuild/componentbuild.go).
use apheleia.Base.{
  OptionAll, String, ◌≡◌, refl, ◌∙◌, Option, none, some, List, [], ◌∷◌, All, All-append, Bool-cases,
  inl, inr, ◌==◌,
}
use apheleia.Api.{ComponentBuild}
use apheleia.Api.Meta.{ObjectMeta}
use apheleia.Platform.{Platform, Reply, ok, err, ArtifactBuild, DependencyBuild, Quantity}
use apheleia.Platform.Laws.{IsScoped}
use apheleia.Exec.{
  Exec, on_option, Request, created_artifact_build, created_task_run, created_pipeline_run,
  updated_dependency_build, updated_status, recorded_event, pure, send, ◌>>=◌,
}
use apheleia.Exec.Triple.{
  Triple, Triple-pure, Triple-bind, Triple-reply, Triple-given_and, Triple-read_bind,
}
use apheleia.Exec.Keeps.{Keeps, Keeps-send, keeps_rules}
use apheleia.Reconciler.Artifact.{
  DeployConfig, found, owned, get_dependency_build, dependency_build_name, deploy_task_run,
  start_deploy, deploy_found, deploy_artifact,
}
use apheleia.Reconciler.Notify.{
  notifier_message, notify_pipeline_run, create_notification, notify_result,
}

-- The object that a request writes lies in the namespace. (An event stands by its object.)
abbrev pub InNamespace : String → Request → Type 0
InNamespace ns (created_artifact_build a) = a.metadata.namespace ≡ ns
InNamespace ns (created_task_run r) = r.metadata.namespace ≡ ns
InNamespace ns (created_pipeline_run r) = r.metadata.namespace ≡ ns
InNamespace ns (updated_dependency_build d) = d.metadata.namespace ≡ ns
InNamespace ns (updated_status cb) = cb.metadata.namespace ≡ ns
InNamespace ns (recorded_event kind reason format arguments) = Unit

abbrev pub Inside : String → List Request → Type 0
Inside ns = All (InNamespace ns)

module _ (P : Platform) (S : IsScoped P) (ns : String) where
  pub send-Inside :
      {A : Type 0} (r : Request) (f : P.Cluster → A × P.Cluster)
      → InNamespace ns r
      → Keeps {P = P} (Inside ns) (send r f)
  send-Inside r f h = Keeps-send r f (λ rs p. All-append (InNamespace ns) rs (r ∷ []) p (h, tt))

  found-Inside :
      (r : Reply DependencyBuild)
      → ((x : DependencyBuild) → r ≡ ok x → x.metadata.namespace ≡ ns)
      → OptionAll (λ db. db.metadata.namespace ≡ ns) (found r)
  found-Inside (err e) h = tt
  found-Inside (ok x) h = h x refl

  pub get_dependency_build-Inside :
      (abr : ArtifactBuild)
      → abr.metadata.namespace ≡ ns
      → Triple
          (Inside ns)
          (get_dependency_build P abr)
          (λ o rs. OptionAll (λ db. db.metadata.namespace ≡ ns) o × Inside ns rs)
  unfolding get_dependency_build
  get_dependency_build-Inside abr h = Triple-read_bind _ _ _ λ c.
      Triple-reply _ _ _ (λ e _. Triple-pure none (λ rs p. (tt, p)))
        (λ ra _. elim (Bool-cases (dependency_build_name ra.metadata.owner_references "" == "")) [
          | inl e ↦ rw e (Triple-pure none (λ rs p. (tt, p)))
          | inr e ↦ rw e (
              Triple-read_bind _ _ _ λ c'. Triple-pure _ (λ rs p.
                (found-Inside _ (λ x q. S.get_dependency_build-namespace _ c' x q ∙ h), p)))
        ])

  owned-namespace :
      (meta : ObjectMeta) (r : Reply ObjectMeta)
      → ((x : ObjectMeta) → r ≡ ok x → x.namespace ≡ meta.namespace)
      → (owned P meta r).namespace ≡ meta.namespace
  owned-namespace meta (err e) h = refl
  owned-namespace meta (ok x) h = h x refl

  deploy_task_run-namespace :
      (abr : ArtifactBuild) (db : DependencyBuild) (conf : DeployConfig)
      → (deploy_task_run P abr db conf).metadata.namespace ≡ abr.metadata.namespace
  unfolding deploy_task_run
  deploy_task_run-namespace abr db conf =
      owned-namespace _ _ (S.set_owner_reference-namespace abr _)

  notify_pipeline_run-namespace :
      (cb : ComponentBuild) (message : String) (qty : Quantity)
      → (notify_pipeline_run P cb message qty).metadata.namespace ≡ cb.metadata.namespace
  unfolding notify_pipeline_run
  notify_pipeline_run-namespace cb message qty =
      owned-namespace _ _ (S.set_controller_reference-namespace cb _)

  deploy_found-Inside :
      (abr : ArtifactBuild) (conf : DeployConfig) (db : DependencyBuild)
      → abr.metadata.namespace ≡ ns
      → Keeps (Inside ns) (deploy_found P abr conf db)
  unfolding deploy_found start_deploy
  deploy_found-Inside abr conf db h = search (keeps_rules, send-Inside, sent) depth 8
    where
      sent : (deploy_task_run P abr db conf).metadata.namespace ≡ ns
      sent = deploy_task_run-namespace abr db conf ∙ h

  pub deploy_artifact-Inside :
      (abr : ArtifactBuild) (conf : DeployConfig)
      → abr.metadata.namespace ≡ ns
      → Keeps (Inside ns) (deploy_artifact P abr conf)
  unfolding deploy_artifact apheleia.Exec.on_option pure
  deploy_artifact-Inside abr conf h = record {
    triple =
        Triple-bind (λ o rs. OptionAll (λ db. db.metadata.namespace ≡ ns) o × Inside ns rs) _ _
          (get_dependency_build-Inside abr h)
          elim [
            | none ↦ Triple-pure _ (λ rs p. p.1)
            | some db ↦ Triple-given_and _ _ _ _ (λ _. (deploy_found-Inside abr conf db h).triple)
          ];
  }

  pub notify_result-Inside :
      (cb : ComponentBuild) → cb.metadata.namespace ≡ ns → Keeps (Inside ns) (notify_result P cb)
  unfolding notify_result create_notification notifier_message
  notify_result-Inside cb h = search (keeps_rules, send-Inside, sent) depth 16
    where
      sent :
          (message : String) (qty : Quantity)
          → (notify_pipeline_run P cb message qty).metadata.namespace ≡ ns
      sent message qty = notify_pipeline_run-namespace cb message qty ∙ h

pub option-Inside :
    {P : Platform} {A B : Type 0} (ns : String) (o : Option A) (m : Exec P B) (f : A → Exec P B)
    (Q : A → Type 0)
    → OptionAll Q o
    → Keeps (Inside ns) m
    → ((a : A) → Q a → Keeps (Inside ns) (f a))
    → Keeps (Inside ns) (on_option o m f)
unfolding on_option
option-Inside ns none m f Q q hm hf = hm
option-Inside ns (some a) m f Q q hm hf = hf a q
