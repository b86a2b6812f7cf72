-- ===== src/Client/Lister.antt =====
-- pkg/client/listers/apheleia/v1alpha1/componentbuild.go: the lister of ComponentBuilds. The
-- indexer that it reads is client-go's, and a parameter.
pub mod Lookup
use apheleia.Base.{String, ◌<>◌, Option, none, some, List, [], ◌∷◌, ◌++◌}
use apheleia.Api.{ComponentBuild}
use apheleia.Platform.{Reply, Error, ok, err}
use apheleia.Exec.{on_reply, on_option}
use apheleia.Manager.{GroupResource, resource_of_group}

pub record Indexer : Type 1 where
  pub Selector : Type 0
  -- What the indexer holds, which others change too, and the order of Go's loops over its maps,
  -- which differs from one call to the next.
  pub State : Type 0
  -- cache.ListAll and cache.ListAllByNamespace: the objects that the function is called with, in
  -- that order, and the error
  pub list_all : Selector → State → (List ComponentBuild × Option Error) × State
  pub list_all_by_namespace :
      String → Selector → State → (List ComponentBuild × Option Error) × State
  -- GetByKey: the object, if it exists, or an error
  pub get_by_key : String → State → Reply (Option ComponentBuild) × State
  -- errors.NewNotFound
  pub new_not_found : GroupResource → String → Error

-- The function that is called with each object: ret = append(ret, m)
unfoldable pub append_each : List ComponentBuild → List ComponentBuild → List ComponentBuild
append_each ret [] = ret
append_each ret (m ∷ objects) = append_each (ret ++ (m ∷ [])) objects

-- componentBuildLister
pub record ComponentBuildLister : Type 1 where
  pub indexer : Indexer

-- componentBuildNamespaceLister
pub record ComponentBuildNamespaceLister : Type 1 where
  pub indexer : Indexer
  pub namespace : String

abbrev pub new_component_build_lister : Indexer → ComponentBuildLister
new_component_build_lister indexer = record { indexer = indexer }

-- componentBuildLister.ComponentBuilds
abbrev pub component_builds : ComponentBuildLister → String → ComponentBuildNamespaceLister
component_builds s namespace = record { indexer = s.indexer; namespace = namespace }

-- componentBuildLister.List
unfoldable pub list_everywhere :
    (s : ComponentBuildLister)
    → s.indexer.Selector
    → s.indexer.State
    → (List ComponentBuild × Option Error) × s.indexer.State
unfolding append_each
list_everywhere s selector x =
    let ((objects, error), x') = s.indexer.list_all selector x in
    ((append_each [] objects, error), x')

-- componentBuildNamespaceLister.List
unfoldable pub list_namespace :
    (s : ComponentBuildNamespaceLister)
    → s.indexer.Selector
    → s.indexer.State
    → (List ComponentBuild × Option Error) × s.indexer.State
unfolding append_each
list_namespace s selector x =
    let ((objects, error), x') = s.indexer.list_all_by_namespace s.namespace selector x in
    ((append_each [] objects, error), x')

-- componentBuildNamespaceLister.Get
unfoldable pub get_by_name :
    (s : ComponentBuildNamespaceLister)
    → String
    → s.indexer.State
    → Reply ComponentBuild × s.indexer.State
unfolding resource_of_group
get_by_name s name x =
    let (r, x') = s.indexer.get_by_key (s.namespace <> ("/" <> name)) x in
    (
      on_reply r (λ e. err e)
          (λ o.
            on_option o (err (s.indexer.new_not_found (resource_of_group "componentbuild") name))
              (λ obj. ok obj)),
      x',
    )
