-- ===== src/Client/Schemes.antt =====
-- pkg/client/clientset/versioned/scheme/register.go and fake/register.go, pkg/apis/apis.go and
-- addtoscheme_apheleia_v1alpha1.go: the schemes of the clientsets, and the list of all
-- registrations. The package variables are values, each of which has the value after the package's
-- `init`; a panic there is the absence of a value.
pub mod Agreement
use apheleia.Base.{Option, none, some, List, [], ◌∷◌, ◌++◌}
use apheleia.Platform.{Reply}
use apheleia.Exec.{on_reply}
use apheleia.Manager.{Library, GroupVersion, add_to_scheme}

-- schema.GroupVersion{Version: "v1"}
abbrev pub core_v1 : GroupVersion
core_v1 = record { group = ""; version = "v1" }

module _ (L : Library) where
  -- utilruntime.Must, and the scheme that the call has left.
  abbrev pub must : Reply L.Scheme → Option L.Scheme
  must r = on_reply r (λ e. none) some

  -- The package scheme
  unfoldable pub local_scheme_builder : List (L.Scheme → Reply L.Scheme)
  local_scheme_builder = add_to_scheme L ∷ []

  unfoldable pub clientset_add_to_scheme : L.Scheme → Reply L.Scheme
  unfolding local_scheme_builder
  clientset_add_to_scheme = L.build_scheme local_scheme_builder

  unfoldable pub clientset_scheme : Option L.Scheme
  unfolding clientset_add_to_scheme on_reply
  clientset_scheme = must (clientset_add_to_scheme (L.add_to_group_version L.new_scheme core_v1))

  -- The package fake
  unfoldable pub fake_local_scheme_builder : List (L.Scheme → Reply L.Scheme)
  fake_local_scheme_builder = add_to_scheme L ∷ []

  unfoldable pub fake_add_to_scheme : L.Scheme → Reply L.Scheme
  unfolding fake_local_scheme_builder
  fake_add_to_scheme = L.build_scheme fake_local_scheme_builder

  unfoldable pub fake_scheme : Option L.Scheme
  unfolding fake_add_to_scheme on_reply
  fake_scheme = must (fake_add_to_scheme (L.add_to_group_version L.new_scheme core_v1))

  -- The package apis: AddToSchemes after `init`
  unfoldable pub add_to_schemes : List (L.Scheme → Reply L.Scheme)
  add_to_schemes = [] ++ (add_to_scheme L ∷ [])

  unfoldable pub apis_add_to_scheme : L.Scheme → Reply L.Scheme
  unfolding add_to_schemes
  apis_add_to_scheme = L.build_scheme add_to_schemes
