-- ===== src/Client/Informers.antt =====
-- pkg/client/informers/externalversions: the informers by group, version and type
-- (apheleia/interface.go, apheleia/v1alpha1/interface.go and componentbuild.go), and generic.go.
-- The package cache of client-go is a `Cache`. An informer that is made holds its factory by a
-- pointer: the factory is an argument and a result of its methods. The function that changes list
-- options through a pointer is a function of them.
pub mod Selection
use apheleia.Base.{ℕ, String, Bool, true, false, Option, none, some, ◌&&◌, ◌==◌, if◌then◌else◌}
use apheleia.Platform.{Reply, Error, ok, err}
use apheleia.Manager.{GroupResource, scheme_group_version}
use apheleia.Client.Factory.{SharedInformerFactory, informer_for}
use apheleia.Client.Typed.{ListOptions, RestRequest, new_component_builds, list, watch_all}

-- schema.GroupVersionResource
pub record GroupVersionResource : Type 0 where
  pub group : String
  pub version : String
  pub resource : String

-- cache.ListWatch: the requests that its functions send, and the client that sends them.
pub record ListWatch (Client ListFields Options DeleteOptions : Type 0) : Type 0 where
  pub list_func : ListOptions ListFields → Client × RestRequest ListFields Options DeleteOptions
  pub watch_func : ListOptions ListFields → Client × RestRequest ListFields Options DeleteOptions

pub record Cache : Type 1 where
  pub Client : Type 0
  pub ListFields : Type 0
  pub Options : Type 0
  pub DeleteOptions : Type 0
  pub Indexers : Type 0
  pub Indexer : Type 0
  pub Informer : Type 0
  pub GenericLister : Type 0
  -- The object's type is ComponentBuild in each call.
  pub new_shared_index_informer :
      ListWatch Client ListFields Options DeleteOptions → ℕ → Indexers → Informer
  -- cache.Indexers{cache.NamespaceIndex: cache.MetaNamespaceIndexFunc}
  pub namespace_indexers : Indexers
  pub get_indexer : Informer → Indexer
  pub new_generic_lister : Indexer → GroupResource → GenericLister
  -- fmt.Errorf("no informer found for %v", resource)
  pub no_informer_found : GroupVersionResource → Error

-- v1alpha1.SchemeGroupVersion.WithResource("componentbuilds")
abbrev pub component_builds_resource : GroupVersionResource
component_builds_resource = record {
  group = scheme_group_version.group;
  version = scheme_group_version.version;
  resource = "componentbuilds";
}

-- ==
abbrev pub same_resource : GroupVersionResource → GroupVersionResource → Bool
same_resource a b = a.group == b.group && a.version == b.version && a.resource == b.resource

module _ (L : Cache) where
  abbrev pub Tweak : Type 0
  Tweak = ListOptions L.ListFields → ListOptions L.ListFields

  abbrev pub Factory : Type 0
  Factory = SharedInformerFactory L.Client Tweak L.Informer

  -- componentBuildInformer, `version` and `group`, but for the factory
  pub record Scope : Type 0 where
    pub namespace : String
    pub tweak_list_options : Option Tweak

  -- if tweakListOptions != nil { tweakListOptions(&options) }
  unfoldable pub tweaked : Option Tweak → ListOptions L.ListFields → ListOptions L.ListFields
  tweaked none options = options
  tweaked (some tweak) options = tweak options

  unfoldable pub new_filtered_component_build_informer :
      L.Client → String → ℕ → L.Indexers → Option Tweak → L.Informer
  unfolding tweaked new_component_builds list watch_all
  new_filtered_component_build_informer client namespace resync_period indexers tweak =
      let c = new_component_builds L.ListFields L.Options L.DeleteOptions namespace in
      L.new_shared_index_informer
        (record {
          list_func = λ options.
              (client, list L.ListFields L.Options L.DeleteOptions c (tweaked tweak options));
          watch_func = λ options.
              (client, watch_all L.ListFields L.Options L.DeleteOptions c (tweaked tweak options));
        })
        resync_period indexers

  unfoldable pub new_component_build_informer : L.Client → String → ℕ → L.Indexers → L.Informer
  unfolding new_filtered_component_build_informer
  new_component_build_informer client namespace resync_period indexers =
      new_filtered_component_build_informer client namespace resync_period indexers none

  unfoldable pub default_informer : Scope → L.Client → ℕ → L.Informer
  unfolding new_filtered_component_build_informer
  default_informer f client resync_period =
      new_filtered_component_build_informer client f.namespace resync_period L.namespace_indexers
        f.tweak_list_options

  -- componentBuildInformer.Informer. The type of the object is *ComponentBuild.
  unfoldable pub informer : Scope → Factory → L.Informer × Factory
  unfolding default_informer informer_for
  informer f = informer_for "ComponentBuild" (default_informer f)

  -- componentBuildInformer.Lister. The lister has the indexer for its only field.
  unfoldable pub lister : Scope → Factory → L.Indexer × Factory
  unfolding informer
  lister f factory = let (i, factory') = informer f factory in (L.get_indexer i, factory')

  -- version.ComponentBuilds
  unfoldable pub component_builds : Scope → Scope
  component_builds v = record { namespace = v.namespace; tweak_list_options = v.tweak_list_options }

  -- group.V1alpha1
  unfoldable pub v1alpha1 : Scope → Scope
  v1alpha1 g = record { namespace = g.namespace; tweak_list_options = g.tweak_list_options }

  -- sharedInformerFactory.Apheleia
  unfoldable pub apheleia_group : Factory → Scope
  apheleia_group f = record { namespace = f.namespace; tweak_list_options = f.tweak_list_options }

  pub record GenericInformer : Type 0 where
    pub informer : L.Informer
    pub resource : GroupResource

  -- genericInformer.Informer and genericInformer.Lister
  unfoldable pub generic_informer : GenericInformer → L.Informer
  generic_informer f = f.informer

  unfoldable pub generic_lister : GenericInformer → L.GenericLister
  unfolding generic_informer
  generic_lister f = L.new_generic_lister (L.get_indexer (generic_informer f)) f.resource

  unfoldable pub for_resource : GroupVersionResource → Factory → Reply GenericInformer × Factory
  unfolding informer component_builds v1alpha1 apheleia_group
  for_resource resource f =
      if same_resource resource component_builds_resource
      then (let (i, f') = informer (component_builds (v1alpha1 (apheleia_group f))) f in
          (
            ok (record {
              informer = i;
              resource = record { group = resource.group; resource = resource.resource };
            }),
            f',
          ))
      else (err (L.no_informer_found resource), f)
