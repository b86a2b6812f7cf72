-- ===== src/Api/DeepCopy/Builds.antt =====
-- pkg/apis/apheleia/v1alpha1/zz_generated.deepcopy.go: the copies of a ComponentBuild.
use apheleia.Base.{◌≤◌, String, ◌≡◌, refl, ◌∙◌, Option, List, [], OptionAll, length}
use apheleia.Base.Cells.{Grows, Grows-refl, Grows-trans}
use apheleia.Base.Dict.{Dict}
use apheleia.Api.{ArtifactState}
use apheleia.Api.DeepCopy.{
  Machinery, Store, BuildStruct, Build, spec_deep_copy_into, status_deep_copy_into,
  build_deep_copy_into,
}
use apheleia.Api.DeepCopy.Copies.{
  seen, InCells, IsAny, IsMap, seen-Grows, InCells-Grows, copy_strings_lem, copy_states_lem,
}

-- The copies of metadata show what the originals do, and leave what other metadata show.
pub record CopiesMeta (L : Machinery) : Type 1 where
  pub View : Type 0
  pub view : L.Others → L.Meta → View
  pub IsIn : L.Others → L.Meta → Type 0
  pub copy-view :
      (m : L.Meta) (o : L.Others)
      → IsIn o m
      → view (L.copy_object_meta m o).1 (L.copy_object_meta m o).0 ≡ view o m
  pub copy-IsIn :
      (m : L.Meta) (o : L.Others)
      → IsIn o m
      → IsIn (L.copy_object_meta m o).1 (L.copy_object_meta m o).0
  pub keeps-view :
      (m x : L.Meta) (o : L.Others) → IsIn o x → view (L.copy_object_meta m o).1 x ≡ view o x
  pub keeps-IsIn : (m x : L.Meta) (o : L.Others) → IsIn o x → IsIn (L.copy_object_meta m o).1 x
  -- The same for the metadata of lists.
  pub ListView : Type 0
  pub list_view : L.Others → L.ListMeta → ListView
  pub IsListIn : L.Others → L.ListMeta → Type 0
  pub copy-list_view :
      (m : L.ListMeta) (o : L.Others)
      → IsListIn o m
      → list_view (L.copy_list_meta m o).1 (L.copy_list_meta m o).0 ≡ list_view o m
  pub copy-IsListIn :
      (m : L.ListMeta) (o : L.Others)
      → IsListIn o m
      → IsListIn (L.copy_list_meta m o).1 (L.copy_list_meta m o).0
  pub keeps-list_view :
      (m : L.Meta) (x : L.ListMeta) (o : L.Others)
      → IsListIn o x
      → list_view (L.copy_object_meta m o).1 x ≡ list_view o x
  pub keeps-IsListIn :
      (m : L.Meta) (x : L.ListMeta) (o : L.Others)
      → IsListIn o x
      → IsListIn (L.copy_object_meta m o).1 x
  pub list_keeps-view :
      (m : L.ListMeta) (x : L.Meta) (o : L.Others)
      → IsIn o x
      → view (L.copy_list_meta m o).1 x ≡ view o x
  pub list_keeps-IsIn :
      (m : L.ListMeta) (x : L.Meta) (o : L.Others) → IsIn o x → IsIn (L.copy_list_meta m o).1 x

module _ (L : Machinery) (K : CopiesMeta L) where
  abbrev pub BuildView : Type 0
  BuildView = BuildStruct K.View (Option (List String)) (Option (Dict ArtifactState))

  -- What a struct shows, with the contents in place of the references.
  abbrev pub view_of : Store L → Build L → BuildView
  view_of h x = record {
    type_meta = x.type_meta;
    object_meta = K.view h.others x.object_meta;
    spec = record {
      scm_url = x.spec.scm_url;
      pr_url = x.spec.pr_url;
      tag = x.spec.tag;
      artifacts = seen h.strings x.spec.artifacts;
    };
    status = record {
      state = x.status.state;
      outstanding = x.status.outstanding;
      artifact_state = seen h.states x.status.artifact_state;
      message = x.status.message;
      result_notified = x.status.result_notified;
    };
  }

  -- All references of a struct are to memory.
  pub record IsStored (h : Store L) (x : Build L) : Type 0 where
    pub meta : K.IsIn h.others x.object_meta
    pub artifacts : InCells IsAny h.strings x.spec.artifacts
    pub artifact_state : InCells IsMap h.states x.status.artifact_state

  -- Memory was added, and none that a ComponentBuild refers to was changed.
  pub record HasGrown (h h' : Store L) : Type 0 where
    pub strings : Grows [] h.strings h'.strings
    pub states : Grows [] h.states h'.states
    pub views : (m : L.Meta) → K.IsIn h.others m → K.view h'.others m ≡ K.view h.others m
    pub stays : (m : L.Meta) → K.IsIn h.others m → K.IsIn h'.others m
    pub list_views :
        (m : L.ListMeta) → K.IsListIn h.others m → K.list_view h'.others m ≡ K.list_view h.others m
    pub list_stays : (m : L.ListMeta) → K.IsListIn h.others m → K.IsListIn h'.others m

  pub HasGrown-refl :
      (h : Store L) (builds : List (List (Build L))) → HasGrown h (record h { builds = builds })
  HasGrown-refl h builds = record {
    strings = Grows-refl [] h.strings;
    states = Grows-refl [] h.states;
    views = λ m i. refl;
    stays = λ m i. i;
    list_views = λ m i. refl;
    list_stays = λ m i. i;
  }

  pub HasGrown-trans : (x y z : Store L) → HasGrown x y → HasGrown y z → HasGrown x z
  HasGrown-trans x y z g k = record {
    strings = Grows-trans [] _ _ _ g.strings k.strings;
    states = Grows-trans [] _ _ _ g.states k.states;
    views = λ m i. k.views m (g.stays m i) ∙ g.views m i;
    stays = λ m i. k.stays m (g.stays m i);
    list_views = λ m i. k.list_views m (g.list_stays m i) ∙ g.list_views m i;
    list_stays = λ m i. k.list_stays m (g.list_stays m i);
  }

  pub view_of-HasGrown :
      (h h' : Store L) (x : Build L) → HasGrown h h' → IsStored h x → view_of h' x ≡ view_of h x
  view_of-HasGrown h h' x g s =
      rw
        (
          seen-Grows IsAny h.strings h'.strings x.spec.artifacts g.strings s.artifacts,
          seen-Grows IsMap h.states h'.states x.status.artifact_state g.states s.artifact_state,
          g.views x.object_meta s.meta,
        )
        refl

  pub IsStored-HasGrown :
      (h h' : Store L) (x : Build L) → HasGrown h h' → IsStored h x → IsStored h' x
  IsStored-HasGrown h h' x g s = record {
    meta = g.stays x.object_meta s.meta;
    artifacts = InCells-Grows IsAny h.strings h'.strings x.spec.artifacts g.strings s.artifacts;
    artifact_state =
        InCells-Grows IsMap h.states h'.states x.status.artifact_state g.states s.artifact_state;
  }

  -- `copied` is a copy of `x` in memory of its own.
  pub record IsCopy (h h' : Store L) (x copied : Build L) : Type 0 where
    pub grown : HasGrown h h'
    pub stored : IsStored h' copied
    pub same : view_of h' copied ≡ view_of h x
    pub builds : h'.builds ≡ h.builds
    pub new_artifacts : OptionAll (λ a. length h.strings ≤ a) copied.spec.artifacts
    pub new_states : OptionAll (λ a. length h.states ≤ a) copied.status.artifact_state

  pub build_deep_copy_into-IsCopy :
      (x : Build L) (h : Store L)
      → IsStored h x
      → IsCopy h (build_deep_copy_into L x h).1 x (build_deep_copy_into L x h).0
  unfolding build_deep_copy_into spec_deep_copy_into status_deep_copy_into
  build_deep_copy_into-IsCopy x h s =
      let others = (L.copy_object_meta x.object_meta h.others).1 in
      let h1 : Store L = record h { others = others } in
      let (r1, after1, e1, c1) = copy_strings_lem L x.spec.artifacts h1 s.artifacts in
      let h2 : Store L = record h1 { strings = after1 } in
      let (r2, after2, e2, c2) = copy_states_lem L x.status.artifact_state h2 s.artifact_state in
      rw (e1, e2)
        (record {
          grown = record {
            strings = c1.grows;
            states = c2.grows;
            views = λ m i. K.keeps-view x.object_meta m h.others i;
            stays = λ m i. K.keeps-IsIn x.object_meta m h.others i;
            list_views = λ m i. K.keeps-list_view x.object_meta m h.others i;
            list_stays = λ m i. K.keeps-IsListIn x.object_meta m h.others i;
          };
          stored = record {
            meta = K.copy-IsIn x.object_meta h.others s.meta;
            artifacts = c1.stored;
            artifact_state = c2.stored;
          };
          same = rw (c1.same, c2.same, K.copy-view x.object_meta h.others s.meta) refl;
          builds = refl;
          new_artifacts = c1.new;
          new_states = c2.new;
        })
