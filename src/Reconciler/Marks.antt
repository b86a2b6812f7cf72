-- ===== src/Reconciler/Marks.antt =====
-- pkg/reconciler/componentbuild/componentbuild.go: when a DependencyBuild is marked as deployed.
use apheleia.Base.{
  ℕ, String, ◌≡◌, refl, Bool, true, false, not, ◌&&◌, ◌==◌, Option, none, some, List, [], ◌∷◌, ◌++◌,
  OptionAll, count, count-append, arith, Bool-cases, inl, inr, if◌then◌else◌,
}
use apheleia.Base.Dict.{entry}
use apheleia.Api.{ComponentBuild}
use apheleia.Api.Meta.{OwnerReference}
use apheleia.Platform.{Platform, Reply, ok, ArtifactBuild, TaskRun}
use apheleia.Exec.{Request, World, Exec, pure, on_option, eventf}
use apheleia.Exec.Keeps.{
  Keeps, Keeps-pure, Keeps-read, Keeps-bind, Keeps-reply, Keeps-option, keeps_rules,
}
use apheleia.Reconciler.{deploy_task_label}
use apheleia.Reconciler.Plain.{
  is_mark, eventf-Keeps, handle_component_build_received-Keeps,
  handle_artifact_build_received-Keeps, handle_pipeline_run_received-Keeps,
}
use apheleia.Reconciler.Component.{handle_component_build_received}
use apheleia.Reconciler.Runs.{
  handle_artifact_build_received, handle_pipeline_run_received, task_run_owned, task_run_with_owner,
  task_run_completed, handle_task_run_received,
}
use apheleia.Reconciler.Dispatch.{Found, dispatch}

-- How many of the requests are marks.
abbrev pub marks : List Request → ℕ
marks = count is_mark

module _ (P : Platform) where
  -- The TaskRun has ended, has a name under the deploy label, and has succeeded.
  abbrev pub is_deployed_by : TaskRun → Bool
  is_deployed_by tr =
      elim tr.completion_time [ none ↦ false | some _ ↦ true ]
      && not (entry deploy_task_label tr.metadata.labels == "")
      && P.is_true tr.succeeded

  module _ (n : ℕ) where
    abbrev Unmarked : List Request → Type 0
    Unmarked rs = marks rs ≡ n

    grow :
        (rs : List Request) (r : Request)
        → is_mark r ≡ false
        → Unmarked rs
        → Unmarked (rs ++ (r ∷ []))
    grow rs r h p = rw (count-append is_mark rs (r ∷ [])) (ground (arith, h, p))

    event-Unmarked :
        (kind reason format : String) (arguments : List String)
        → Keeps {P = P} Unmarked (eventf kind reason format arguments)
    event-Unmarked = eventf-Keeps P Unmarked grow

    component_build-Unmarked :
        (cb : ComponentBuild) → Keeps Unmarked (handle_component_build_received P cb)
    component_build-Unmarked = handle_component_build_received-Keeps P Unmarked grow

    artifact_build-Unmarked :
        (abr : ArtifactBuild) → Keeps Unmarked (handle_artifact_build_received P abr)
    artifact_build-Unmarked = handle_artifact_build_received-Keeps P Unmarked grow

    module _ (tr : TaskRun) (h : P.is_true tr.succeeded ≡ false) where
      task_run_owned-Unmarked : (ab : ArtifactBuild) → Keeps Unmarked (task_run_owned P tr ab)
      unfolding task_run_owned
      task_run_owned-Unmarked ab =
          rw h (Keeps-bind _ _ (Keeps-pure tt) (λ _. artifact_build-Unmarked ab))

      task_run_with_owner-Unmarked :
          (name : String) → Keeps Unmarked (task_run_with_owner P tr name)
      unfolding task_run_with_owner
      task_run_with_owner-Unmarked name = Keeps-bind _ _ (Keeps-read _) (λ r.
          Keeps-reply r _ _ (λ e. Keeps-bind _ _ (event-Unmarked _ _ _ _) (λ _. Keeps-pure _))
            task_run_owned-Unmarked)

      task_run_completed-Unmarked :
          (refs : List OwnerReference) → Keeps Unmarked (task_run_completed P tr refs)
      unfolding task_run_completed
      task_run_completed-Unmarked [] = search (keeps_rules, event-Unmarked) depth 12
      task_run_completed-Unmarked (o ∷ refs) =
          search (keeps_rules, event-Unmarked, task_run_with_owner-Unmarked) depth 12

    -- The run has ended, or not.
    labelled-Unmarked :
        (tr : TaskRun)
        → (not (entry deploy_task_label tr.metadata.labels == "") && P.is_true tr.succeeded) ≡ false
        → Keeps Unmarked (
            if entry deploy_task_label tr.metadata.labels == ""
            then pure (ok tt)
            else task_run_completed P tr tr.metadata.owner_references)
    labelled-Unmarked tr h = elim (Bool-cases (entry deploy_task_label tr.metadata.labels == "")) [
      | inl unlabelled ↦ rw unlabelled (Keeps-pure (ok tt))
      | inr labelled ↦ rw labelled (
          task_run_completed-Unmarked tr (ground (arith, h, labelled)) tr.metadata.owner_references)
    ]

    task_run-Unmarked :
        (tr : TaskRun) → is_deployed_by tr ≡ false → Keeps Unmarked (handle_task_run_received P tr)
    unfolding handle_task_run_received on_option pure
    task_run-Unmarked tr h = ended tr.completion_time h
      where
        ended :
            (o : Option ℕ)
            → (elim o [ none ↦ false | some _ ↦ true ]
                && not (entry deploy_task_label tr.metadata.labels == "")
                && P.is_true tr.succeeded)
              ≡ false
            → Keeps Unmarked (
                on_option o (pure (ok tt)) (λ _.
                  if entry deploy_task_label tr.metadata.labels == ""
                  then pure (ok tt)
                  else task_run_completed P tr tr.metadata.owner_references))
        ended none h = Keeps-pure (ok tt)
        ended (some _) h = labelled-Unmarked tr h

    option-Unmarked :
        {A : Type 0} (o : Option A) (m : Exec P (Reply (Unit {0})))
        (f : A → Exec P (Reply (Unit {0}))) (Q : A → Type 0)
        → OptionAll Q o
        → Keeps Unmarked m
        → ((a : A) → Q a → Keeps Unmarked (f a))
        → Keeps Unmarked (on_option o m f)
    unfolding on_option
    option-Unmarked none m f Q q hm hf = hm
    option-Unmarked (some a) m f Q q hm hf = hf a q

    dispatch-Unmarked :
        (f : Found)
        → OptionAll (λ tr. is_deployed_by tr ≡ false) f.tr
        → Keeps Unmarked (dispatch P f)
    unfolding dispatch
    dispatch-Unmarked f h =
        Keeps-option f.cb _ _ (Keeps-option f.abr _ _ inner artifact_build-Unmarked)
          component_build-Unmarked
      where
        inner : Keeps Unmarked (
            on_option f.tr
              (on_option f.pr (pure (ok tt)) (handle_pipeline_run_received P))
              (handle_task_run_received P))
        inner =
            option-Unmarked f.tr _ _ _ h
              (search (keeps_rules, handle_pipeline_run_received-Keeps P Unmarked grow))
              task_run-Unmarked

  -- Once Reconcile has read the objects of its request, what it does with them returns, and marks
  -- no DependencyBuild unless one of them is a TaskRun that has ended with success and has a name
  -- under the deploy label.
  pub dispatch-marks :
      (f : Found) (w : World P)
      → OptionAll (λ tr. is_deployed_by tr ≡ false) f.tr
      → (r : Reply (Unit {0})) × ((dispatch P f w).0 ≡ some r)
        × (marks (dispatch P f w).1.requests ≡ marks w.requests)
  dispatch-marks f w h = (dispatch-Unmarked (marks w.requests) f h).triple.at w refl
