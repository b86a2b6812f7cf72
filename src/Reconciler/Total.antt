-- ===== src/Reconciler/Total.antt =====
-- pkg/reconciler/componentbuild/componentbuild.go: Reconcile returns. The proof keeps an arbitrary
-- invariant that further requests do not break.
use apheleia.Base.{◌≡◌, sym, some, List, [], ◌∷◌, ◌++◌, All}
use mathlib.Core.List.{append-nil, append_assoc}
use apheleia.Api.{ComponentBuild}
use apheleia.Api.Meta.{NamespacedName}
use apheleia.Platform.{Platform, Reply}
use apheleia.Exec.{Request, World}
use apheleia.Exec.Keeps.{Keeps, Keeps-send}
use apheleia.Reconciler.Dispatch.{reconcile}
use apheleia.Reconciler.Plain.{handle_component_build_received-Keeps}
use apheleia.Reconciler.Written.{Written, reconcile_written}

-- Of no ComponentBuild is anything asked.
abbrev Anything : ComponentBuild → Type 0
Anything _ = Unit

All-Anything : (items : List ComponentBuild) → All Anything items
All-Anything [] = tt
All-Anything (x ∷ items) = (tt, All-Anything items)

module _ (P : Platform) (I : List Request → Type 0)
    (grow : (rs : List Request) (r : Request) → I rs → I (rs ++ (r ∷ []))) where
  Written-Anything : Written P Anything I
  Written-Anything = record {
    reads = λ key c x e. tt;
    lists = λ ns c l e. All-Anything l.items;
    grows = λ rs r _. grow rs r;
    handles = λ x _. handle_component_build_received-Keeps P I (λ rs r _. grow rs r) x;
    notifies = λ x _. Keeps-send _ _ (λ rs. grow rs _);
  }

  pub reconcile-Keeps : (key : NamespacedName) → Keeps I (reconcile P key)
  reconcile-Keeps = reconcile_written P Anything I Written-Anything

-- Whatever the cluster answers, `Reconcile` returns, with a result or an error, and does not
-- panic; the requests that it sends are added behind those that were sent before.
pub reconcile-returns :
    (P : Platform) (key : NamespacedName) (w : World P)
    → (r : Reply (Unit {0})) × ((reconcile P key w).0 ≡ some r)
      × ((new : List Request) × ((reconcile P key w).1.requests ≡ w.requests ++ new))
reconcile-returns P key w =
    (reconcile-Keeps P (λ rs. (new : List Request) × (rs ≡ w.requests ++ new))
        (λ rs r p. (p.0 ++ (r ∷ []), rw p.1 (append_assoc w.requests p.0 (r ∷ [])))) key).triple.at
      w ([], sym (append-nil w.requests))
