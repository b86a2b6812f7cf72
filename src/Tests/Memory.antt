-- ===== src/Tests/Memory.antt =====
-- A cluster in memory, as a `Platform` for the tests: lists of objects by kind.
use mathlib.Core.List.Perm
use apheleia.Base.{
  String, ◌<>◌, ◌≡◌, refl, ◌≢◌, Bool, true, false, ◌&&◌, Option, none, some, List, [], ◌∷◌, ◌++◌,
  ◌==◌, arith, All, Bool-cases, inl, inr, eq_iff, if◌then◌else◌,
}
use apheleia.Base.Dict.{entry}
use apheleia.Api.{ComponentBuild}
use apheleia.Api.Meta.{ObjectMeta, NamespacedName}
use apheleia.Platform.{
  Platform, Reply, Error, ok, err, ArtifactBuild, DependencyBuild, RebuiltArtifact, ConfigMap,
  Condition, TaskRun, PipelineRun,
}
use apheleia.Platform.Laws.{IsFaithful, IsReliable, IsScoped, IsAnswer}

pub record Memory : Type 0 where
  pub component_builds : List ComponentBuild
  pub artifact_builds : List ArtifactBuild
  pub task_runs : List TaskRun
  pub pipeline_runs : List PipelineRun
  pub config_maps : List (NamespacedName × ConfigMap)
  pub rebuilt_artifacts : List RebuiltArtifact
  pub dependency_builds : List DependencyBuild

abbrev pub not_found : Error
not_found = record { reason = "NotFound"; message = "not found" }

abbrev same_key : NamespacedName → NamespacedName → Bool
same_key a b = a.namespace == b.namespace && a.name == b.name

abbrev key_of : ObjectMeta → NamespacedName
key_of m = record { namespace = m.namespace; name = m.name }

module _ {A : Type 0} (key : A → NamespacedName) where
  abbrev find : NamespacedName → List A → Reply A
  find k [] = err not_found
  find k (x ∷ xs) = if same_key (key x) k then ok x else find k xs

  abbrev replace : A → List A → List A
  replace a [] = []
  replace a (x ∷ xs) = if same_key (key x) (key a) then a ∷ xs else x ∷ replace a xs

  abbrev in_namespace : String → List A → List A
  in_namespace ns [] = []
  in_namespace ns (x ∷ xs) =
      let rest = in_namespace ns xs in if (key x).namespace == ns then x ∷ rest else rest

module _ {A : Type 0} (meta : A → ObjectMeta) where
  abbrev labelled : String → String → String → List A → List A
  labelled ns label value [] = []
  labelled ns label value (x ∷ xs) =
      let rest = labelled ns label value xs in
      if (meta x).namespace == ns && entry label (meta x).labels == value then x ∷ rest else rest

abbrev second : {A B : Type 0} → Reply (A × B) → Reply B
second (err e) = err e
second (ok x) = ok x.1

abbrev status_is : String → Bool → Option Condition → Bool
status_is status absent none = absent
status_is status absent (some c) = c.status == status

-- A run gets a name from its prefix.
abbrev named : ObjectMeta → ObjectMeta
named m = record m { name = m.generate_name <> "-1" }

abbrev pub memory : Platform
memory = record {
  Cluster = Memory;
  get_component_build = λ k m. (find (λ x. key_of x.metadata) k m.component_builds, m);
  get_artifact_build = λ k m. (find (λ x. key_of x.metadata) k m.artifact_builds, m);
  get_task_run = λ k m. (find (λ x. key_of x.metadata) k m.task_runs, m);
  get_pipeline_run = λ k m. (find (λ x. key_of x.metadata) k m.pipeline_runs, m);
  get_config_map = λ k m. (second (find (λ x. x.0) k m.config_maps), m);
  get_rebuilt_artifact = λ k m. (find (λ x. key_of x.metadata) k m.rebuilt_artifacts, m);
  get_dependency_build = λ k m. (find (λ x. key_of x.metadata) k m.dependency_builds, m);
  list_component_builds = λ ns m.
      (ok (record { items = in_namespace (λ x. key_of x.metadata) ns m.component_builds }), m);
  list_task_runs =
      λ ns label value m. (ok (labelled (λ x. x.metadata) ns label value m.task_runs), m);
  list_pipeline_runs =
      λ ns label value m. (ok (labelled (λ x. x.metadata) ns label value m.pipeline_runs), m);
  create_artifact_build =
      λ a m. (ok a, record m { artifact_builds = m.artifact_builds ++ (a ∷ []) });
  create_task_run = λ r m. (
    ok tt,
    record m { task_runs = m.task_runs ++ (record r { metadata = named r.metadata } ∷ []) },
  );
  create_pipeline_run = λ r m. (
    ok tt,
    record m { pipeline_runs = m.pipeline_runs ++ (record r { metadata = named r.metadata } ∷ []) },
  );
  update_dependency_build = λ d m. (
    ok tt,
    record m { dependency_builds = replace (λ x. key_of x.metadata) d m.dependency_builds },
  );
  update_status = λ cb m. (
    ok tt,
    record m { component_builds = replace (λ x. key_of x.metadata) cb m.component_builds },
  );
  range = λ d m. (d, m);
  is_not_found = λ e. e.reason == "NotFound";
  create_abr_name = λ gav. gav <> "-abr";
  is_true = status_is "True" false;
  is_unknown = status_is "Unknown" true;
  set_owner_reference = λ abr m. ok (record m {
    owner_references =
        m.owner_references ++ (record { kind = "ArtifactBuild"; name = abr.metadata.name } ∷ []);
  });
  set_controller_reference = λ cb m. ok (record m {
    owner_references =
        m.owner_references ++ (record { kind = "ComponentBuild"; name = cb.metadata.name } ∷ []);
  });
  parse_quantity = λ s. ok (record { amount = 1073741824 });
  artifact_build_state_failed = "ArtifactBuildFailed";
  artifact_build_state_missing = "ArtifactBuildMissing";
  artifact_build_state_complete = "ArtifactBuildComplete";
  param_type_string = "string";
  cluster_task_kind = "ClusterTask";
  read_write_once = "ReadWriteOnce";
  event_type_warning = "Warning";
}

ok-ne : (s t : String) → (s == t) ≡ false → s ≢ t
ok-ne s t h e = ground (arith, eq_iff s t)

pub memory-IsFaithful : IsFaithful memory
memory-IsFaithful = record {
  create-state = λ abr created c e. ground arith;
  failed-ne_empty = ok-ne _ _ refl;
  missing-ne_empty = ok-ne _ _ refl;
  complete-ne_empty = ok-ne _ _ refl;
  complete-ne-failed = ok-ne _ _ refl;
  complete-ne-missing = ok-ne _ _ refl;
  range-perm = λ m c. Perm.refl m;
}

module _ {A : Type 0} (key : A → NamespacedName) where
  find-IsAnswer : (k : NamespacedName) (xs : List A) → IsAnswer memory (find key k xs)
  find-IsAnswer k [] = refl
  find-IsAnswer k (x ∷ xs) = elim (Bool-cases (same_key (key x) k)) [
    | inl same ↦ rw same tt
    | inr other ↦ rw other (find-IsAnswer k xs)
  ]

  find-namespace :
      (k : NamespacedName) (xs : List A) (y : A)
      → find key k xs ≡ ok y
      → (key y).namespace ≡ k.namespace
  find-namespace k [] y h = absurd cc
  find-namespace k (x ∷ xs) y h =
      ground (arith, h, eq_iff (key x).namespace k.namespace, find-namespace k xs y)

  in_namespace-All :
      (ns : String) (xs : List A) → All (λ x. (key x).namespace ≡ ns) (in_namespace key ns xs)
  in_namespace-All ns [] = tt
  in_namespace-All ns (x ∷ xs) = elim (Bool-cases ((key x).namespace == ns)) [
    | inl same ↦ rw same ((eq_iff (key x).namespace ns).0 same, in_namespace-All ns xs)
    | inr other ↦ rw other (in_namespace-All ns xs)
  ]

ok-injective : {A : Type 0} {a b : A} → ok a ≡ ok b → a ≡ b
ok-injective h = cc

second-IsAnswer :
    {A B : Type 0} (r : Reply (A × B)) → IsAnswer memory r → IsAnswer memory (second r)
second-IsAnswer (err e) h = h
second-IsAnswer (ok x) h = tt

pub memory-IsReliable : IsReliable memory
memory-IsReliable = record {
  config = λ k c. second-IsAnswer _ (find-IsAnswer (λ x. x.0) k c.config_maps);
  creates = λ a c. tt;
  lists = λ ns label value c. tt;
  notifies = λ r c. tt;
  parses = λ s. tt;
  updates = λ cb c. tt;
}

pub memory-IsScoped : IsScoped memory
memory-IsScoped = record {
  get_component_build-namespace = λ k c. find-namespace _ k c.component_builds;
  get_artifact_build-namespace = λ k c. find-namespace _ k c.artifact_builds;
  get_task_run-namespace = λ k c. find-namespace _ k c.task_runs;
  get_pipeline_run-namespace = λ k c. find-namespace _ k c.pipeline_runs;
  get_dependency_build-namespace = λ k c. find-namespace _ k c.dependency_builds;
  list_component_builds-namespace = λ ns c l e.
      rw (← ok-injective e) (in_namespace-All (λ x. key_of x.metadata) ns c.component_builds);
  create_artifact_build-namespace = λ a x c e. ground arith;
  set_owner_reference-namespace = λ a m x e. ground arith;
  set_controller_reference-namespace = λ cb m x e. ground arith;
}
