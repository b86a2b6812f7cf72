-- ===== src/Api/DeepCopy/Whole.antt =====
-- pkg/apis/apheleia/v1alpha1/zz_generated.deepcopy.go: DeepCopy of a ComponentBuildList.
use mathlib.Core.List.{map}
use apheleia.Base.{
  ℕ, ◌≤◌, ◌<◌, ◌≡◌, refl, ◌∙◌, ap, Option, none, some, List, [], ◌∷◌, All, OptionAll, length,
}
use apheleia.Base.Cells.{at}
use apheleia.Api.DeepCopy.{
  Machinery, Store, Reference, Build, ListStruct, list_deep_copy_into, list_deep_copy, deep_copy,
}
use apheleia.Api.DeepCopy.Builds.{BuildView, CopiesMeta, view_of, IsStored}
use apheleia.Api.DeepCopy.Items.{items_of, AreStored, copy_builds_lem}

module _ (L : Machinery) (K : CopiesMeta L) where
  -- With a list's metadata, its copy has grown the memory too.
  list_meta_grown :
      (m : L.ListMeta) (h : Store L) (a : ℕ)
      → (a < length h.builds) × All (IsStored L K h) (at [] a h.builds)
      → All
          (IsStored L K (record h { others = (L.copy_list_meta m h.others).1 }))
          (at [] a h.builds)
  list_meta_grown m h a (i, s) = stored (at [] a h.builds) s
    where
      stored :
          (xs : List (Build L))
          → All (IsStored L K h) xs
          → All (IsStored L K (record h { others = (L.copy_list_meta m h.others).1 })) xs
      stored [] t = tt
      stored (x ∷ xs) (t, ts) = (
        record {
          meta = K.list_keeps-IsIn m x.object_meta h.others t.meta;
          artifacts = t.artifacts;
          artifact_state = t.artifact_state;
        },
        stored xs ts,
      )

  viewed :
      (m : L.ListMeta) (h : Store L) (xs : List (Build L))
      → All (IsStored L K h) xs
      → map (view_of L K (record h { others = (L.copy_list_meta m h.others).1 })) xs
        ≡ map (view_of L K h) xs
  viewed m h [] s = refl
  viewed m h (x ∷ xs) (s, ss) =
      rw (K.list_keeps-view m x.object_meta h.others s.meta, viewed m h xs ss) refl

  AreStored-meta :
      (m : L.ListMeta) (h : Store L) (r : Reference)
      → AreStored L K h r
      → AreStored L K (record h { others = (L.copy_list_meta m h.others).1 }) r
  AreStored-meta m h none s = tt
  AreStored-meta m h (some a) s = (s.0, list_meta_grown m h a s)

  items_of-meta :
      (m : L.ListMeta) (h : Store L) (r : Reference)
      → AreStored L K h r
      → items_of L K (record h { others = (L.copy_list_meta m h.others).1 }) r ≡ items_of L K h r
  items_of-meta m h none s = refl
  items_of-meta m h (some a) (i, s) = ap some (viewed m h (at [] a h.builds) s)

  -- What a list shows.
  abbrev pub list_view_of :
      Store L
      → ListStruct L.ListMeta Reference
      → ListStruct K.ListView (Option (List (BuildView L K)))
  list_view_of h x = record {
    type_meta = x.type_meta;
    list_meta = K.list_view h.others x.list_meta;
    items = items_of L K h x.items;
  }

  -- Where the copies of metadata do as documented: DeepCopy of a ComponentBuildList whose
  -- references are to memory, and the maps of whose items have each key once, returns a list that
  -- shows what the original has shown, item by item and in their order. The items are in a new
  -- array, and the original's still show what they did. A list without an array is copied to one
  -- without.
  pub list_deep_copy-view_of :
      (x : ListStruct L.ListMeta Reference) (h : Store L)
      → K.IsListIn h.others x.list_meta
      → AreStored L K h x.items
      → (copied : ListStruct L.ListMeta Reference) × (h' : Store L) × (list_deep_copy L (some x) h
          ≡ (some copied, h'))
        × (list_view_of h' copied ≡ list_view_of h x)
        × (items_of L K h' x.items ≡ items_of L K h x.items)
        × OptionAll (λ a. length h.builds ≤ a) copied.items
  unfolding deep_copy list_deep_copy_into
  list_deep_copy-view_of x h i s =
      let m = x.list_meta in
      let h1 : Store L = record h { others = (L.copy_list_meta m h.others).1 } in
      let c = copy_builds_lem L K x.items h1 (AreStored-meta m h x.items s) in
      let same = items_of-meta m h x.items s in
      (
        _,
        _,
        refl,
        rw
            (
              c.same ∙ same,
              c.grown.list_views _ (K.copy-IsListIn m h.others i),
              K.copy-list_view m h.others i,
            )
            refl,
        c.kept ∙ same,
        c.new,
      )
