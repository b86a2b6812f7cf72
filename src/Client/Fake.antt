-- ===== src/Client/Fake.antt =====
-- pkg/client/clientset/versioned/typed/apheleia/v1alpha1/fake/fake_componentbuild.go: the client
-- for tests. The package testing of client-go is a `Testing`; an action stands by the call that
-- makes it, a zero value that is passed by its type, and a type assertion that fails panics: it has
-- no result.
pub mod Answers
use apheleia.Base.{
  ℕ, String, Bool, true, false, Option, none, some, List, [], ◌∷◌, ◌++◌, if◌then◌else◌,
}
use apheleia.Base.Dict.{Dict}
use apheleia.Api.{ComponentBuild}
use apheleia.Platform.{Error}
use apheleia.Client.Typed.{ListOptions}

-- The arguments after the resource, which is that of ComponentBuilds in each call.
pub data Action (ListFields DeleteOptions : Type 0) : Type 0 where
  get_action : String → String → Action ListFields DeleteOptions
  list_action : String → ListOptions ListFields → Action ListFields DeleteOptions
  watch_action : String → ListOptions ListFields → Action ListFields DeleteOptions
  create_action : String → ComponentBuild → Action ListFields DeleteOptions
  update_action : String → ComponentBuild → Action ListFields DeleteOptions
  update_subresource_action : String → String → ComponentBuild → Action ListFields DeleteOptions
  delete_action : String → String → DeleteOptions → Action ListFields DeleteOptions
  delete_collection_action : String → ListOptions ListFields → Action ListFields DeleteOptions
  patch_subresource_action :
      String → String → String → List ℕ → List String → Action ListFields DeleteOptions

-- v1alpha1.ComponentBuildList
pub record FakeList (ListMeta : Type 0) : Type 0 where
  pub list_meta : ListMeta
  pub items : List ComponentBuild

-- What a runtime.Object may be.
pub data Object (ListMeta : Type 0) : Type 0 where
  build_object : ComponentBuild → Object ListMeta
  list_object : FakeList ListMeta → Object ListMeta
  other_object : Object ListMeta

-- &v1alpha1.ComponentBuild{} and &v1alpha1.ComponentBuildList{}
pub data Default : Type 0 where
  build_default : Default
  list_default : Default

pub record Testing : Type 1 where
  pub State : Type 0
  pub ListFields : Type 0
  pub DeleteOptions : Type 0
  pub ListMeta : Type 0
  pub Selector : Type 0
  pub Watch : Type 0
  -- Both results of a call may be nil.
  pub invokes :
      Action ListFields DeleteOptions
      → Default
      → State
      → (Option (Object ListMeta) × Option Error) × State
  pub invokes_watch :
      Action ListFields DeleteOptions → State → (Option Watch × Option Error) × State
  -- The label of ExtractFromListOptions
  pub label_of : ListOptions ListFields → Option Selector
  pub everything : Selector
  pub matches : Selector → Dict String → Bool

module _ (L : Testing) where
  pub record FakeComponentBuilds : Type 0 where
    pub ns : String

  -- Two results, or a panic, and the state after them.
  abbrev pub Run : Type 0 → Type 0
  Run A = L.State → Option (Option A × Option Error) × L.State

  -- if obj == nil { return nil, err }; return obj.(*v1alpha1.ComponentBuild), err
  unfoldable pub as_build :
      Option (Object L.ListMeta) × Option Error → Option (Option ComponentBuild × Option Error)
  as_build (none, err) = some (none, err)
  as_build (some (build_object cb), err) = some (some cb, err)
  as_build (some _, err) = none

  -- A call of Invokes for one object.
  abbrev pub invoked : Action L.ListFields L.DeleteOptions → Run ComponentBuild
  invoked action s = let (reply, s') = L.invokes action build_default s in (as_build reply, s')

  unfoldable pub get : FakeComponentBuilds → String → Run ComponentBuild
  unfolding as_build
  get c name = invoked (get_action c.ns name)

  -- if label == nil { label = labels.Everything() }
  unfoldable pub label_or_everything : Option L.Selector → L.Selector
  label_or_everything none = L.everything
  label_or_everything (some label) = label

  -- The loop, with the items that it has appended.
  unfoldable pub append_matching :
      L.Selector → List ComponentBuild → List ComponentBuild → List ComponentBuild
  append_matching label items [] = items
  append_matching label items (item ∷ rest) =
      if L.matches label item.metadata.labels
      then append_matching label (items ++ (item ∷ [])) rest
      else append_matching label items rest

  unfoldable pub filtered_list :
      ListOptions L.ListFields
      → Option (Object L.ListMeta) × Option Error
      → Option (Option (FakeList L.ListMeta) × Option Error)
  unfolding label_or_everything append_matching
  filtered_list opts (none, err) = some (none, err)
  filtered_list opts (some (list_object l), err) = some (
    some (record {
      list_meta = l.list_meta;
      items = append_matching (label_or_everything (L.label_of opts)) [] l.items;
    }),
    err,
  )
  filtered_list opts (some _, err) = none

  unfoldable pub list : FakeComponentBuilds → ListOptions L.ListFields → Run (FakeList L.ListMeta)
  unfolding filtered_list
  list c opts s =
      let (reply, s') = L.invokes (list_action c.ns opts) list_default s in
      (filtered_list opts reply, s')

  unfoldable pub watch_all : FakeComponentBuilds → ListOptions L.ListFields → Run L.Watch
  watch_all c opts s =
      let (reply, s') = L.invokes_watch (watch_action c.ns opts) s in (some reply, s')

  unfoldable pub create : FakeComponentBuilds → ComponentBuild → Run ComponentBuild
  unfolding as_build
  create c component_build = invoked (create_action c.ns component_build)

  unfoldable pub update : FakeComponentBuilds → ComponentBuild → Run ComponentBuild
  unfolding as_build
  update c component_build = invoked (update_action c.ns component_build)

  unfoldable pub update_status : FakeComponentBuilds → ComponentBuild → Run ComponentBuild
  unfolding as_build
  update_status c component_build =
      invoked (update_subresource_action "status" c.ns component_build)

  -- The error alone.
  unfoldable pub delete :
      FakeComponentBuilds → String → L.DeleteOptions → L.State → Option Error × L.State
  delete c name opts s =
      let ((_, err), s') = L.invokes (delete_action c.ns name opts) build_default s in (err, s')

  unfoldable pub delete_collection :
      FakeComponentBuilds
      → L.DeleteOptions
      → ListOptions L.ListFields
      → L.State
      → Option Error × L.State
  delete_collection c opts list_opts s =
      let ((_, err), s') = L.invokes (delete_collection_action c.ns list_opts) list_default s in
      (err, s')

  unfoldable pub patch :
      FakeComponentBuilds → String → String → List ℕ → List String → Run ComponentBuild
  unfolding as_build
  patch c name pt contents subresources =
      invoked (patch_subresource_action c.ns name pt contents subresources)
