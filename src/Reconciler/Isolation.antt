-- ===== src/Reconciler/Isolation.antt =====
-- pkg/reconciler/componentbuild/componentbuild.go: Reconcile writes in the namespace of the
-- request.
pub mod Parts
mod Component
mod Runs
use apheleia.Base.{String, ◌≡◌, some, [], All}
use apheleia.Api.Meta.{NamespacedName}
use apheleia.Platform.{Platform, Reply}
use apheleia.Platform.Laws.{IsFaithful, IsScoped}
use apheleia.Exec.{World}
use apheleia.Exec.Keeps.{Keeps}
use apheleia.Reconciler.Dispatch.{reconcile}
use apheleia.Reconciler.Dispatch.Facts.{Facts, Answers, Handlers, reconcile-Keeps}
use apheleia.Reconciler.Isolation.Parts.{Inside, InNamespace}
use apheleia.Reconciler.Isolation.Component.{handle_component_build_received-Inside}
use apheleia.Reconciler.Isolation.Runs.{
  handle_artifact_build_received-Inside, handle_task_run_received-Inside,
  handle_pipeline_run_received-Inside,
}

-- The object lies in the namespace.
abbrev LieIn : String → Facts
LieIn ns = record {
  Abr = λ x. x.metadata.namespace ≡ ns;
  Cb = λ x. x.metadata.namespace ≡ ns;
  Tr = λ x. x.metadata.namespace ≡ ns;
  Pr = λ x. x.metadata.namespace ≡ ns;
}

module _ (P : Platform) (S : IsScoped P) (F : IsFaithful P) where
  Answers-LieIn : (key : NamespacedName) → Answers P (LieIn key.namespace) key
  Answers-LieIn key = record {
    abr = S.get_artifact_build-namespace key;
    cb = S.get_component_build-namespace key;
    tr = S.get_task_run-namespace key;
    pr = S.get_pipeline_run-namespace key;
  }

  Handlers-Inside : (ns : String) → Handlers P (Inside ns) (LieIn ns)
  Handlers-Inside ns = record {
    abr = handle_artifact_build_received-Inside P S F ns;
    cb = handle_component_build_received-Inside P S F ns;
    tr = handle_task_run_received-Inside P S F ns;
    pr = handle_pipeline_run_received-Inside P S F ns;
  }

  reconcile-Inside : (key : NamespacedName) → Keeps (Inside key.namespace) (reconcile P key)
  reconcile-Inside key =
      reconcile-Keeps P (Inside key.namespace) (LieIn key.namespace) key (Answers-LieIn key)
        (Handlers-Inside key.namespace)

-- With a platform that does as documented, from a world in which no request was sent yet, Reconcile
-- returns and each object that it has created or updated lies in the namespace of its request.
pub reconcile-namespace :
    (P : Platform) (S : IsScoped P) (F : IsFaithful P) (key : NamespacedName) (w : World P)
    → w.requests ≡ []
    → (r : Reply (Unit {0})) × ((reconcile P key w).0 ≡ some r)
      × All (InNamespace key.namespace) (reconcile P key w).1.requests
reconcile-namespace P S F key w e = (reconcile-Inside P S F key).triple.at w (rw e tt)
