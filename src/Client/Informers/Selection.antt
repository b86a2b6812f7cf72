-- ===== src/Client/Informers/Selection.antt =====
-- pkg/client/informers/externalversions: which informer a client of the factory gets, and what that
-- watches.
use apheleia.Base.{
  ℕ, String, ◌≡◌, refl, ◌⊎◌, ◌&&◌, ◌==◌, Bool, true, false, none, some, [], Bool-cases, inl, inr,
  arith, eq_iff, if◌then◌else◌,
}
use apheleia.Platform.{ok, err}
use apheleia.Client.Factory.{
  informer_for, resync_period, new_filtered_shared_informer_factory, new_shared_informer_factory,
  new_shared_informer_factory_with_options, apply_options, with_namespace, with_tweak_list_options,
}
use apheleia.Client.Typed.{
  ListOptions, RestRequest, new_component_builds, list, watch_all, list_parameters, http_get,
  no_body, timeout_of,
}
use apheleia.Client.Informers.{
  Cache, Factory, Scope, Tweak, tweaked, GroupVersionResource, component_builds_resource,
  same_resource, default_informer, new_filtered_component_build_informer, informer,
  component_builds, v1alpha1, apheleia_group, for_resource,
}

module _ (L : Cache) where
  -- The typed way to the informer of a factory: Apheleia().V1alpha1().ComponentBuilds().
  abbrev pub typed : Factory L → Scope L
  typed f = component_builds L (v1alpha1 L (apheleia_group L f))

  -- The request for the ComponentBuilds of a namespace, or for a watch of them.
  abbrev pub selection :
      String → Bool → ListOptions L.ListFields → RestRequest L.ListFields L.Options L.DeleteOptions
  selection namespace is_watch options = record {
    verb = http_get;
    namespace = namespace;
    resource = "componentbuilds";
    name = none;
    subresources = [];
    params = list_parameters (if is_watch then record options { watch = true } else options);
    timeout = some (timeout_of options);
    body = no_body;
  }

  -- An informer of the ComponentBuilds of a namespace.
  abbrev pub informer_of : L.Client → ℕ → String → Tweak L → L.Informer
  informer_of client resync namespace tweak =
      L.new_shared_index_informer
        (record {
          list_func = λ options. (client, selection namespace false (tweak options));
          watch_func = λ options. (client, selection namespace true (tweak options));
        })
        resync L.namespace_indexers

  abbrev pub filtered : L.Client → ℕ → String → Tweak L → Factory L
  filtered = new_filtered_shared_informer_factory

  abbrev pub unfiltered : L.Client → ℕ → Factory L
  unfiltered = new_shared_informer_factory

  -- The informer of a new filtered factory that
  -- Apheleia().V1alpha1().ComponentBuilds().Informer() gives is one of the ComponentBuilds of
  -- the factory's namespace: its list and its watch are sent by the factory's client, with the
  -- options that the factory's function makes of the given ones, and with the flag of a watch in
  -- the watch alone. That of a new factory without a filter is an informer of all namespaces,
  -- with the options as they are given. Both have the default resync period.
  pub informer-selection :
      (client : L.Client) (resync : ℕ) (namespace : String) (tweak : Tweak L)
      → ((informer L
            (typed (filtered client resync namespace tweak))
            (filtered client resync namespace tweak)).0
          ≡ informer_of client resync namespace tweak)
        × ((informer L (typed (unfiltered client resync)) (unfiltered client resync)).0
            ≡ informer_of client resync "" (λ options. options))
  unfolding informer default_informer informer_for resync_period
      new_filtered_component_build_informer list watch_all new_component_builds
      new_filtered_shared_informer_factory new_shared_informer_factory component_builds v1alpha1
      apheleia_group tweaked new_shared_informer_factory_with_options apply_options with_namespace
      with_tweak_list_options
  informer-selection client resync namespace tweak = (refl, refl)

  -- The resource of ComponentBuilds.
  abbrev pub resource_of_builds : GroupVersionResource
  resource_of_builds = record {
    group = "apheleia.io";
    version = "v1alpha1";
    resource = "componentbuilds";
  }

  same_as_builds :
      (r : GroupVersionResource)
      → (r.group == "apheleia.io" && r.version == "v1alpha1" && r.resource == "componentbuilds")
        ≡ true
      → r ≡ resource_of_builds
  same_as_builds r h =
      same_parts r (ground (arith, h, eq_iff r.group "apheleia.io"))
        (ground (arith, h, eq_iff r.version "v1alpha1"))
        (ground (arith, h, eq_iff r.resource "componentbuilds"))
    where
      same_parts :
          (x : GroupVersionResource)
          → x.group ≡ "apheleia.io"
          → x.version ≡ "v1alpha1"
          → x.resource ≡ "componentbuilds"
          → x ≡ resource_of_builds
      same_parts x a b c = cc

  -- ForResource of a new filtered factory gives, for the resource componentbuilds of the group
  -- apheleia.io in the version v1alpha1, the informer of the ComponentBuilds of the factory's
  -- namespace with the factory's client and options and the default resync period, and the group
  -- and the resource with it. Of any factory, it gives an error for each other resource, one of
  -- another version included, and leaves the factory as it is.
  pub for_resource-informer :
      (client : L.Client) (resync : ℕ) (namespace : String) (tweak : Tweak L)
      (resource : GroupVersionResource) (f : Factory L)
      → ((for_resource L resource_of_builds (filtered client resync namespace tweak)).0
          ≡ ok (record {
            informer = informer_of client resync namespace tweak;
            resource = record { group = "apheleia.io"; resource = "componentbuilds" };
          }))
        × ((resource ≡ resource_of_builds)
            ⊎ (for_resource L resource f ≡ (err (L.no_informer_found resource), f)))
  unfolding for_resource informer default_informer informer_for resync_period
      new_filtered_component_build_informer list watch_all new_component_builds
      new_filtered_shared_informer_factory component_builds v1alpha1 apheleia_group tweaked
      new_shared_informer_factory_with_options apply_options with_namespace with_tweak_list_options
  for_resource-informer client resync namespace tweak resource f = (
    refl,
    elim (Bool-cases (same_resource resource component_builds_resource)) [
      | inl same ↦ inl (same_as_builds resource same)
      | inr other ↦ inr (rw other refl)
    ],
  )
