-- ===== src/Reconciler/Loops/Notification.antt =====
-- notifyResult and handlePipelineRunReceived of pkg/reconciler/componentbuild/componentbuild.go:
-- from the start of a notification to the flag that the outcome was reported.
use apheleia.Base.{ℕ, String, ◌<>◌, ◌≡◌, ◌≢◌, refl, sym, ap, ◌∙◌, some, true, [], ◌∷◌, ◌++◌, count}
use apheleia.Base.Dict.{entry}
use apheleia.Base.Text.{equal_fold}
use apheleia.Api.{ComponentBuild}
use apheleia.Api.Meta.{ObjectMeta, NamespacedName, empty_metadata}
use apheleia.Platform.{Platform, Reply, ok, PipelineRun, Quantity}
use apheleia.Platform.Laws.{IsOwning, IsOwned}
use apheleia.Exec.{World, updated_status}
use apheleia.Reconciler.Notify.{notify_pipeline_run}
use apheleia.Reconciler.Runs.{owner_name, handle_pipeline_run_received}
use apheleia.Reconciler.Runs.Notified.{
  component_of, notified, HasNotified, handle_pipeline_run_received-notified,
}
use apheleia.Reconciler.Component.{handle_component_build_received}
use apheleia.Reconciler.Component.Bounds.{is_notification}

owner_lem :
    (name : String)
    → owner_name "componentbuild" "componentbuilds"
        (record { kind = "ComponentBuild"; name = name } ∷ [])
      ≡ name
unfolding owner_name equal_fold
owner_lem name = refl

module _ (P : Platform) where
  -- The run `ended` is what Tekton has made of the run `started`: it has ended with success, with
  -- the namespace and the owners that it was created with, and with the label that Tekton sets, the
  -- name of its pipeline.
  pub record IsSuccessOf (started ended : PipelineRun) : Type 0 where
    pub namespace : ended.metadata.namespace ≡ started.metadata.namespace
    pub owners : ended.metadata.owner_references ≡ started.metadata.owner_references
    pub label : some (entry "tekton.dev/pipeline" ended.metadata.labels) ≡ started.pipeline_ref
    pub time : ℕ
    pub ends : ended.completion_time ≡ some time
    pub succeeds : P.is_true ended.succeeded ≡ true

  notify_pipeline_run-IsOwned :
      (O : IsOwning P) (cb : ComponentBuild) (message : String) (qty : Quantity)
      → IsOwned
          (record empty_metadata { namespace = cb.metadata.namespace })
          "ComponentBuild"
          cb.metadata.name
          (notify_pipeline_run P cb message qty).metadata
  unfolding notify_pipeline_run
  notify_pipeline_run-IsOwned O cb message qty =
      let (x, e, o) = O.set_controller_reference-owner cb meta refl refl in
      record { namespace = rw e o.namespace; owners = rw e o.owners }
    where
      meta : ObjectMeta
      meta = record empty_metadata {
        generate_name = cb.metadata.name <> "-notify-pipeline";
        namespace = cb.metadata.namespace;
      }

  pipeline_label :
      (cb : ComponentBuild) (message : String) (qty : Quantity) (pr : PipelineRun)
      → IsSuccessOf (notify_pipeline_run P cb message qty) pr
      → entry "tekton.dev/pipeline" pr.metadata.labels ≡ "component-build-notifier"
  unfolding notify_pipeline_run
  pipeline_label cb message qty pr h = label_of _ h.label
    where
      label_of :
          (s : String) → some s ≡ some "component-build-notifier" → s ≡ "component-build-notifier"
      label_of s e = cc

  component_lem :
      (O : IsOwning P) (cb : ComponentBuild) (message : String) (qty : Quantity) (pr : PipelineRun)
      → IsSuccessOf (notify_pipeline_run P cb message qty) pr
      → component_of pr ≡ cb.metadata.name
  component_lem O cb message qty pr h =
      ap (owner_name "componentbuild" "componentbuilds")
        (h.owners ∙ (notify_pipeline_run-IsOwned O cb message qty).owners)
      ∙ owner_lem cb.metadata.name

  -- Where an owner reference is set as documented: the PipelineRun that notifyResult creates for a
  -- ComponentBuild with a name, when it has ended with success, has the label of its pipeline and
  -- is handed to handlePipelineRunReceived, leads back to the ComponentBuild. The one request that
  -- this sends is the status update with the ComponentBuild that the client answers with under that
  -- name, as it is but for the flag that its outcome was reported; and the handling of the
  -- ComponentBuild with that flag creates no notification again.
  pub notify_pipeline_run-handle_pipeline_run_received :
      (O : IsOwning P) (cb : ComponentBuild) (message : String) (qty : Quantity) (pr : PipelineRun)
      (latest : ComponentBuild) (w later : World P)
      → IsSuccessOf (notify_pipeline_run P cb message qty) pr
      → cb.metadata.name ≢ ""
      → (P.get_component_build
          (record { namespace = cb.metadata.namespace; name = cb.metadata.name })
          w.cluster).0
        ≡ ok latest
      → ((handle_pipeline_run_received P pr w).1.requests
          ≡ w.requests ++ (updated_status (notified latest) ∷ []))
        × ((r : Reply (Unit {0})) × ((handle_component_build_received P (notified latest) later).0
              ≡ some r)
            × (count is_notification
                  (handle_component_build_received P (notified latest) later).1.requests
                ≡ count is_notification later.requests))
  notify_pipeline_run-handle_pipeline_run_received O cb message qty pr latest w later h n e =
      handle_pipeline_run_received-notified P pr latest w later there
        (ap (λ k. (P.get_component_build k w.cluster).0) key ∙ e)
    where
      owned_by :
          IsOwned
            (record empty_metadata { namespace = cb.metadata.namespace })
            "ComponentBuild"
            cb.metadata.name
            (notify_pipeline_run P cb message qty).metadata
      owned_by = notify_pipeline_run-IsOwned O cb message qty

      there : HasNotified P pr
      there = record {
        notifier = pipeline_label cb message qty pr h;
        ended = h.time;
        ends = h.ends;
        succeeds = h.succeeds;
        owned = λ z. n (sym (component_lem O cb message qty pr h) ∙ z);
      }

      key :
          Path NamespacedName
            (record { namespace = pr.metadata.namespace; name = component_of pr })
            (record { namespace = cb.metadata.namespace; name = cb.metadata.name })
      key = rw (h.namespace ∙ owned_by.namespace, component_lem O cb message qty pr h) refl
