-- ===== src/Client/Factory.antt =====
-- pkg/client/informers/externalversions/factory.go: the shared informer factory. A method that
-- holds the lock is one step on the factory's state. A `reflect.Type` stands by its name, and an
-- informer is of an unknown type: what it does once it runs is client-go's.
pub mod Shared
use mathlib.Core.List.{map}
use apheleia.Base.{
  ℕ, String, Bool, true, false, Option, none, some, List, [], ◌∷◌, not, ◌==◌, if◌then◌else◌,
}
use apheleia.Base.Dict.{Dict, lookup, insert}

module _ (Client Tweak Informer : Type 0) where
  pub record SharedInformerFactory : Type 0 where
    pub client : Client
    pub namespace : String
    pub tweak_list_options : Option Tweak
    pub default_resync : ℕ
    pub custom_resync : Dict ℕ
    pub informers : Dict Informer
    pub started_informers : Dict Bool

-- m[k] of a map to bool
abbrev pub flag : String → Dict Bool → Bool
flag k m = elim (lookup k m) [ none ↦ false | some b ↦ b ]

-- The loop over the resync config, with its entries by the name of the key's type.
unfoldable pub add_resyncs : List (String × ℕ) → Dict ℕ → Dict ℕ
add_resyncs [] m = m
add_resyncs ((k, v) ∷ config) m = add_resyncs config (insert k v m)

module _ {Informer : Type 0} where
  -- The loop of Start over the informers, in the order in which Go's range meets them. The
  -- informers that are set running, in a goroutine each, are returned.
  unfoldable pub start_each : List (String × Informer) → Dict Bool → List Informer × Dict Bool
  start_each [] started = ([], started)
  start_each ((informer_type, informer) ∷ informers) started =
      if not (flag informer_type started)
      then (let (running, started') = start_each informers (insert informer_type true started) in
          (informer ∷ running, started'))
      else start_each informers started

  -- The informers that WaitForCacheSync waits for.
  unfoldable pub started_only : List (String × Informer) → Dict Bool → List (String × Informer)
  started_only [] started = []
  started_only ((informer_type, informer) ∷ informers) started =
      let rest = started_only informers started in
      if flag informer_type started then (informer_type, informer) ∷ rest else rest

abbrev pub SharedInformerOption : Type 0 → Type 0 → Type 0 → Type 0
SharedInformerOption Client Tweak Informer =
    SharedInformerFactory Client Tweak Informer → SharedInformerFactory Client Tweak Informer

module _ {Client Tweak Informer : Type 0} where
  unfoldable pub with_custom_resync_config :
      List (String × ℕ) → SharedInformerOption Client Tweak Informer
  unfolding add_resyncs
  with_custom_resync_config config factory = record factory {
    custom_resync = add_resyncs config factory.custom_resync;
  }

  unfoldable pub with_tweak_list_options : Tweak → SharedInformerOption Client Tweak Informer
  with_tweak_list_options tweak factory = record factory { tweak_list_options = some tweak }

  unfoldable pub with_namespace : String → SharedInformerOption Client Tweak Informer
  with_namespace namespace factory = record factory { namespace = namespace }

  -- The loop over the options.
  unfoldable pub apply_options :
      List (SharedInformerOption Client Tweak Informer)
      → SharedInformerFactory Client Tweak Informer
      → SharedInformerFactory Client Tweak Informer
  apply_options [] factory = factory
  apply_options (opt ∷ options) factory = apply_options options (opt factory)

  -- v1.NamespaceAll is the empty text.
  unfoldable pub new_shared_informer_factory_with_options :
      Client
      → ℕ
      → List (SharedInformerOption Client Tweak Informer)
      → SharedInformerFactory Client Tweak Informer
  unfolding apply_options
  new_shared_informer_factory_with_options client default_resync options =
      apply_options options (record {
        client = client;
        namespace = "";
        tweak_list_options = none;
        default_resync = default_resync;
        custom_resync = [];
        informers = [];
        started_informers = [];
      })

  unfoldable pub new_shared_informer_factory :
      Client → ℕ → SharedInformerFactory Client Tweak Informer
  unfolding new_shared_informer_factory_with_options
  new_shared_informer_factory client default_resync =
      new_shared_informer_factory_with_options client default_resync []

  unfoldable pub new_filtered_shared_informer_factory :
      Client → ℕ → String → Tweak → SharedInformerFactory Client Tweak Informer
  unfolding new_shared_informer_factory_with_options with_namespace with_tweak_list_options
  new_filtered_shared_informer_factory client default_resync namespace tweak =
      new_shared_informer_factory_with_options client default_resync
        (with_namespace namespace ∷ with_tweak_list_options tweak ∷ [])

  unfoldable pub start :
      List (String × Informer)
      → SharedInformerFactory Client Tweak Informer
      → List Informer × SharedInformerFactory Client Tweak Informer
  unfolding start_each
  start order f =
      let (running, started) = start_each order f.started_informers in
      (running, record f { started_informers = started })

  -- `synced` is cache.WaitForCacheSync for an informer's HasSynced.
  unfoldable pub wait_for_cache_sync :
      (Informer → Bool)
      → List (String × Informer)
      → SharedInformerFactory Client Tweak Informer
      → Dict Bool
  unfolding started_only
  wait_for_cache_sync synced order f =
      map (λ (k, informer). (k, synced informer)) (started_only order f.started_informers)

  -- `customResync` where the type has an entry there, and else the default.
  unfoldable pub resync_period : String → SharedInformerFactory Client Tweak Informer → ℕ
  resync_period informer_type f = elim (lookup informer_type f.custom_resync) [
    | none ↦ f.default_resync
    | some period ↦ period
  ]

  unfoldable pub informer_for :
      String
      → (Client → ℕ → Informer)
      → SharedInformerFactory Client Tweak Informer
      → Informer × SharedInformerFactory Client Tweak Informer
  unfolding resync_period
  informer_for informer_type new_func f = elim (lookup informer_type f.informers) [
    | some informer ↦ (informer, f)
    | none ↦
        let informer = new_func f.client (resync_period informer_type f) in
        (informer, record f { informers = insert informer_type informer f.informers })
  ]
