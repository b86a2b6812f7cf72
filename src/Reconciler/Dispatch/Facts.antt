-- ===== src/Reconciler/Dispatch/Facts.antt =====
-- pkg/reconciler/componentbuild/componentbuild.go: what is known of the objects that Reconcile has
-- read, while it acts on them.
use apheleia.Base.{◌≡◌, Option, none, some, OptionAll, List}
use apheleia.Api.{ComponentBuild}
use apheleia.Api.Meta.{NamespacedName}
use apheleia.Platform.{Platform, Reply, ok, err, ArtifactBuild, TaskRun, PipelineRun}
use apheleia.Exec.{Request, Exec, on_option}
use apheleia.Exec.Triple.{
  Triple, Triple-pure, Triple-read_bind, Triple-reply, Triple-if, Triple-unless_err,
  Triple-given_and,
}
use apheleia.Exec.Keeps.{Keeps, Keeps-pure}
use apheleia.Reconciler.Component.{handle_component_build_received}
use apheleia.Reconciler.Runs.{
  handle_artifact_build_received, handle_task_run_received, handle_pipeline_run_received,
}
use apheleia.Reconciler.Dispatch.{Found, fetch, fetch_all, dispatch, reconcile}

-- The object that was read, if there is one, has the property.
abbrev Fetched : {A : Type 0} → (A → Type 0) → Reply (Option A) → Type 0
Fetched Q (err e) = Unit
Fetched Q (ok o) = OptionAll Q o

-- A property for each kind of object that Reconcile reads.
pub record Facts : Type 1 where
  pub Abr : ArtifactBuild → Type 0
  pub Cb : ComponentBuild → Type 0
  pub Tr : TaskRun → Type 0
  pub Pr : PipelineRun → Type 0

-- The objects found have them.
pub record AreFound (Q : Facts) (f : Found) : Type 0 where
  pub abr : OptionAll Q.Abr f.abr
  pub cb : OptionAll Q.Cb f.cb
  pub tr : OptionAll Q.Tr f.tr
  pub pr : OptionAll Q.Pr f.pr

-- All answers of the cluster for the key have them.
pub record Answers (P : Platform) (Q : Facts) (key : NamespacedName) : Type 0 where
  pub abr : (c : P.Cluster) (x : ArtifactBuild) → (P.get_artifact_build key c).0 ≡ ok x → Q.Abr x
  pub cb : (c : P.Cluster) (x : ComponentBuild) → (P.get_component_build key c).0 ≡ ok x → Q.Cb x
  pub tr : (c : P.Cluster) (x : TaskRun) → (P.get_task_run key c).0 ≡ ok x → Q.Tr x
  pub pr : (c : P.Cluster) (x : PipelineRun) → (P.get_pipeline_run key c).0 ≡ ok x → Q.Pr x

abbrev AllFetched : Facts → Reply Found → Type 0
AllFetched Q (err e) = Unit
AllFetched Q (ok f) = AreFound Q f

-- The handlers keep an invariant for objects that have them.
pub record Handlers (P : Platform) (I : List Request → Type 0) (Q : Facts) : Type 0 where
  pub abr : (x : ArtifactBuild) → Q.Abr x → Keeps I (handle_artifact_build_received P x)
  pub cb : (x : ComponentBuild) → Q.Cb x → Keeps I (handle_component_build_received P x)
  pub tr : (x : TaskRun) → Q.Tr x → Keeps I (handle_task_run_received P x)
  pub pr : (x : PipelineRun) → Q.Pr x → Keeps I (handle_pipeline_run_received P x)

module _ (P : Platform) (I : List Request → Type 0) where
  fetch-Fetched :
      {A : Type 0} (f : P.Cluster → Reply A × P.Cluster) (Q : A → Type 0)
      → ((c : P.Cluster) (x : A) → (f c).0 ≡ ok x → Q x)
      → Triple I (fetch P f) (λ r rs. Fetched Q r × I rs)
  unfolding fetch
  fetch-Fetched f Q h = Triple-read_bind _ _ _ λ c.
      Triple-reply _ _ _
        (λ e _.
          Triple-if (P.is_not_found e) _ _ (λ _. Triple-pure _ (λ rs p. (tt, p)))
            (λ _. Triple-pure _ (λ rs p. (tt, p))))
        (λ x q. Triple-pure _ (λ rs p. (h c x q, p)))

  found-Keeps :
      {A B : Type 0} (o : Option A) (m : Exec P B) (f : A → Exec P B) (Q : A → Type 0)
      → OptionAll Q o
      → Keeps I m
      → ((a : A) → Q a → Keeps I (f a))
      → Keeps I (on_option o m f)
  unfolding on_option
  found-Keeps none m f Q q hm hf = hm
  found-Keeps (some a) m f Q q hm hf = hf a q

  dispatch-Keeps :
      (Q : Facts) (H : Handlers P I Q) (f : Found) → AreFound Q f → Keeps I (dispatch P f)
  unfolding dispatch
  dispatch-Keeps Q H f q =
      found-Keeps f.cb _ _ _ q.cb
        (found-Keeps f.abr _ _ _ q.abr
          (found-Keeps f.tr _ _ _ q.tr (found-Keeps f.pr _ _ _ q.pr (Keeps-pure _) H.pr) H.tr)
          H.abr)
        H.cb

  module _ (Q : Facts) (key : NamespacedName) (A : Answers P Q key) where
    fetch_all-AreFound : Triple I (fetch_all P key) (λ r rs. AllFetched Q r × I rs)
    unfolding fetch_all
    fetch_all-AreFound =
        Triple-unless_err _ _ _ (fetch-Fetched _ _ A.abr)
          (λ abr. Triple-given_and _ _ _ _ λ a.
            Triple-unless_err _ _ _ (fetch-Fetched _ _ A.cb)
              (λ cb. Triple-given_and _ _ _ _ λ c.
                Triple-unless_err _ _ _ (fetch-Fetched _ _ A.tr)
                  (λ tr. Triple-given_and _ _ _ _ λ t.
                    Triple-unless_err _ _ _ (fetch-Fetched _ _ A.pr)
                      (λ pr. Triple-given_and _ _ _ _ λ p.
                        Triple-pure _ (λ rs q. (record { abr = a; cb = c; tr = t; pr = p }, q)))
                      (λ e rs p. p))
                  (λ e rs p. p))
              (λ e rs p. p))
          (λ e rs p. p)

    -- Reconcile keeps an invariant that each handler keeps for such objects.
    pub reconcile-Keeps : Handlers P I Q → Keeps I (reconcile P key)
    unfolding reconcile
    reconcile-Keeps H = record {
      triple =
          Triple-unless_err _ _ _ fetch_all-AreFound
            (λ f. Triple-given_and _ _ _ _ (λ q. (dispatch-Keeps Q H f q).triple)) (λ e rs p. p.1);
    }
