-- ===== src/Tests/Copies.antt =====
-- The theorems about deep copies at concrete data: a store with one ComponentBuild.
use apheleia.Base.{
  ℕ, suc, String, ◌≤◌, ◌≡◌, refl, false, true, none, some, [], ◌∷◌, OptionAll, arith,
}
use apheleia.Api.{ArtifactState}
use apheleia.Api.DeepCopy.{
  Machinery, Store, Reference, Build, ListStruct, build_deep_copy, build_deep_copy_object,
  list_deep_copy,
}
use apheleia.Api.DeepCopy.Builds.{CopiesMeta, view_of, IsStored}
use apheleia.Api.DeepCopy.Independence.{IsUnaffected, deep_copy-IsUnaffected}
use apheleia.Api.DeepCopy.Items.{items_of}
use apheleia.Api.DeepCopy.Whole.{list_view_of, list_deep_copy-view_of}

-- Metadata is its name, and the memory counts the copies.
abbrev machinery : Machinery
machinery = record {
  Others = ℕ;
  Meta = String;
  ListMeta = String;
  copy_object_meta = λ m o. (m, suc o);
  copy_list_meta = λ m o. (m, suc o);
  zero_meta = "";
}

abbrev machinery-CopiesMeta : CopiesMeta machinery
machinery-CopiesMeta = record {
  View = String;
  view = λ o m. m;
  IsIn = λ o m. Unit;
  copy-view = λ m o i. refl;
  copy-IsIn = λ m o i. i;
  keeps-view = λ m x o i. refl;
  keeps-IsIn = λ m x o i. i;
  ListView = String;
  list_view = λ o m. m;
  IsListIn = λ o m. Unit;
  copy-list_view = λ m o i. refl;
  copy-IsListIn = λ m o i. i;
  keeps-list_view = λ m x o i. refl;
  keeps-IsListIn = λ m x o i. i;
  list_keeps-view = λ m x o i. refl;
  list_keeps-IsIn = λ m x o i. i;
}

abbrev build : Build machinery
build = record {
  type_meta = record { kind = "ComponentBuild"; api_version = "apheleia.io/v1alpha1" };
  object_meta = "test";
  spec = record { scm_url = ""; pr_url = ""; tag = ""; artifacts = some 0 };
  status = record {
    state = "";
    outstanding = 0;
    artifact_state = some 0;
    message = "";
    result_notified = false;
  };
}

abbrev built : ArtifactState
built = record { artifact_build = "abr"; built = true; deployed = false; failed = false }

abbrev store : Store machinery
store = record {
  strings = ("com.test:test:1.0" ∷ []) ∷ [];
  states = (("com.test:test:1.0", built) ∷ []) ∷ [];
  builds = (build ∷ []) ∷ [];
  others = 0;
}

build-IsStored : IsStored machinery machinery-CopiesMeta store build
build-IsStored = record {
  meta = tt;
  artifacts = (omega arith, tt);
  artifact_state = (omega arith, (tt, tt));
}

deep_copy-IsUnaffected_example :
    (copied : Build machinery) × (h' : Store machinery) × (build_deep_copy_object machinery
        (some build)
        store
      ≡ (some copied, h'))
    × (build_deep_copy machinery (some build) store ≡ (some copied, h'))
    × (view_of machinery machinery-CopiesMeta h' copied
        ≡ view_of machinery machinery-CopiesMeta store build)
    × (view_of machinery machinery-CopiesMeta h' build
        ≡ view_of machinery machinery-CopiesMeta store build)
    × IsUnaffected machinery machinery-CopiesMeta h' build copied
    × IsUnaffected machinery machinery-CopiesMeta h' copied build
    × (build_deep_copy_object machinery none store ≡ (none, store))
deep_copy-IsUnaffected_example =
    deep_copy-IsUnaffected machinery machinery-CopiesMeta build store build-IsStored

abbrev builds_list : ListStruct String Reference
builds_list = record {
  type_meta = record { kind = "ComponentBuildList"; api_version = "apheleia.io/v1alpha1" };
  list_meta = "list";
  items = some 0;
}

list_deep_copy-view_of_example :
    (copied : ListStruct String Reference) × (h' : Store machinery) × (list_deep_copy machinery
        (some builds_list)
        store
      ≡ (some copied, h'))
    × (list_view_of machinery machinery-CopiesMeta h' copied
        ≡ list_view_of machinery machinery-CopiesMeta store builds_list)
    × (items_of machinery machinery-CopiesMeta h' builds_list.items
        ≡ items_of machinery machinery-CopiesMeta store builds_list.items)
    × OptionAll (λ a. 1 ≤ a) copied.items
list_deep_copy-view_of_example =
    list_deep_copy-view_of machinery machinery-CopiesMeta builds_list store tt
      (omega arith, (build-IsStored, tt))
