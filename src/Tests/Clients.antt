-- ===== src/Tests/Clients.antt =====
-- The theorems about the generated client at concrete data.
use apheleia.Base.{
  ℕ, suc, String, Bool, true, false, ◌≡◌, ◌==◌, none, some, List, not, ◌⊎◌, [], ◌∷◌, if◌then◌else◌,
}
use apheleia.Api.{ComponentBuild}
use apheleia.Platform.{ok, err}
use apheleia.Client.Group.{Rest, RestConfig, pos}
use apheleia.Client.Clientset.{new_for_config, new_for_config_or_die}
use apheleia.Client.Clientset.Made.{Outcome, Survives, new_for_config-Outcome}
use apheleia.Client.Informers.{
  Cache, ListWatch, Factory, GroupVersionResource, informer, for_resource,
}
use apheleia.Client.Informers.Selection.{
  typed, filtered, unfiltered, informer_of, resource_of_builds, for_resource-informer,
  informer-selection,
}
use apheleia.Client.Fake.{
  Testing, FakeComponentBuilds, Action, list_action, list_default, list_object, build_object,
  get_action,
}
use apheleia.Client.Fake
use apheleia.Client.Fake.Answers.{
  selected, list-selected, after, performed, place, place_of, after-place,
}
use apheleia.Client.Lister.{Indexer}
use apheleia.Client.Typed.{ComponentBuilds, ListOptions}
use apheleia.Client.Typed.Address.{Call, request_of, served, update_status_call, served-request_of}
use apheleia.Tests.Scenario.{test_cb}

abbrev elsewhere_cb : ComponentBuild
elsewhere_cb = record test_cb { metadata = record test_cb.metadata { namespace = "elsewhere" } }

-- An indexer that goes through what it holds in turn from the one end and from the other.
abbrev indexer : Indexer
indexer = record {
  Selector = String;
  State = Bool;
  list_all = λ selector turn.
      ((if turn then test_cb ∷ elsewhere_cb ∷ [] else elsewhere_cb ∷ test_cb ∷ [], none), not turn);
  list_all_by_namespace =
      λ ns selector turn. ((if ns == "default" then test_cb ∷ [] else [], none), not turn);
  get_by_key = λ key turn. (ok (if key == "default/test" then some test_cb else none), turn);
  new_not_found = λ resource name. record { reason = "NotFound"; message = name };
}

abbrev in_default_namespace : ComponentBuilds
in_default_namespace = record { ns = "default" }

abbrev status_call : Call ℕ String String
status_call = update_status_call test_cb "options"

served-request_of_example :
    served ℕ String String (request_of ℕ String String in_default_namespace status_call)
    ≡ some ("default", status_call)
served-request_of_example = served-request_of ℕ String String in_default_namespace status_call

abbrev rest : Rest
rest = record {
  RateLimiter = ℕ;
  Qps = ℕ;
  Serializer = String;
  Fields = String;
  HttpClient = String;
  RestClient = String;
  DiscoveryClient = String;
  default_user_agent = "agent";
  without_conversion = "codecs";
  http_client_for = λ config. ok config.fields;
  rest_client_for = λ config h. ok h;
  is_positive = λ n. true;
  new_token_bucket_rate_limiter = λ qps burst. qps;
  discovery_client_for = λ config h. ok h;
  new_discovery_client = λ c. c;
}

abbrev rest_config : RestConfig rest
rest_config = record {
  group_version = none;
  api_path = "";
  negotiated_serializer = none;
  user_agent = "";
  rate_limiter = none;
  qps = 5;
  burst = pos 10;
  fields = "https://test.com";
}

new_for_config-Outcome_example :
    Outcome rest rest_config (new_for_config rest rest_config)
    × Survives rest rest_config
        (new_for_config rest rest_config)
        (new_for_config_or_die rest rest_config)
new_for_config-Outcome_example = new_for_config-Outcome rest rest_config

abbrev cache : Cache
cache = record {
  Client = String;
  ListFields = String;
  Options = String;
  DeleteOptions = String;
  Indexers = List String;
  Indexer = ℕ;
  Informer = ListWatch String String String String × ℕ;
  GenericLister = ℕ;
  new_shared_index_informer = λ lw resync indexers. (lw, resync);
  namespace_indexers = "namespace" ∷ [];
  get_indexer = λ (lw, resync). resync;
  new_generic_lister = λ indexer resource. indexer;
  no_informer_found = λ resource. record { reason = ""; message = resource.resource };
}

abbrev tweak : ListOptions String → ListOptions String
tweak options = record options { fields = "label=value" }

abbrev a_factory : Factory cache
a_factory = filtered cache "client" 30 "default" tweak

abbrev another_version : GroupVersionResource
another_version = record { group = "apheleia.io"; version = "v1"; resource = "componentbuilds" }

for_resource-informer_example :
    ((for_resource cache (resource_of_builds cache) (filtered cache "client" 30 "default" tweak)).0
      ≡ ok (record {
        informer = informer_of cache "client" 30 "default" tweak;
        resource = record { group = "apheleia.io"; resource = "componentbuilds" };
      }))
    × ((another_version ≡ resource_of_builds cache)
        ⊎ (for_resource cache another_version a_factory
            ≡ (err (cache.no_informer_found another_version), a_factory)))
for_resource-informer_example =
    for_resource-informer cache "client" 30 "default" tweak another_version a_factory

informer-selection_example :
    ((informer cache (typed cache a_factory) a_factory).0
      ≡ informer_of cache "client" 30 "default" tweak)
    × ((informer cache
          (typed cache (unfiltered cache "client" 30))
          (unfiltered cache "client" 30)).0
        ≡ informer_of cache "client" 30 "" (λ options. options))
informer-selection_example = informer-selection cache "client" 30 "default" tweak

-- A tracker that holds the ComponentBuild of the scenario, and counts the actions.
abbrev testing : Testing
testing = record {
  State = ℕ;
  ListFields = ℕ;
  DeleteOptions = String;
  ListMeta = String;
  Selector = Bool;
  Watch = String;
  invokes = λ action zero_value s. (
    (
      some (elim zero_value [
        | list_default ↦ list_object (record { list_meta = "list"; items = test_cb ∷ [] })
        | _ ↦ build_object test_cb
      ]),
      none,
    ),
    suc s,
  );
  invokes_watch = λ action s. ((some "watch", none), suc s);
  label_of = λ options. none;
  everything = true;
  matches = λ selector labels. selector;
}

abbrev fake : FakeComponentBuilds testing
fake = record { ns = "default" }

abbrev all_options : ListOptions ℕ
all_options = record { timeout_seconds = none; watch = false; fields = 0 }

list-selected_example : Fake.list testing fake all_options 0 ≡ (
  selected testing all_options
      (testing.invokes (list_action "default" all_options) list_default 0).0,
  1,
)
list-selected_example = list-selected testing fake all_options 0

after-place_example :
    (a : Action ℕ String) × (after testing String (record { ns = "default" }) status_call 0
      ≡ performed testing String a 0)
    × (place testing String a
        ≡ place_of testing String (request_of ℕ String String in_default_namespace status_call))
after-place_example = after-place testing String "default" status_call 0
