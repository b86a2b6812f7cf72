-- ===== src/Client/Typed.antt =====
-- pkg/client/clientset/versioned/typed/apheleia/v1alpha1/componentbuild.go: the requests of the
-- typed client. A method builds one request of the REST client, and returns what that answers. The
-- types of options are Kubernetes' and stand by parameters; an int64 stands by its two's
-- complement.
pub mod Address
use Prim.Native.Nat.{◌*◌, ◌%◌, ◌^◌}
use apheleia.Base.{ℕ, String, Bool, true, Option, none, some, List, [], ◌∷◌}
use apheleia.Api.{ComponentBuild}

-- The verbs of the REST client; a patch has its type.
pub data Verb : Type 0 where
  http_get : Verb
  http_post : Verb
  http_put : Verb
  http_delete : Verb
  http_patch : String → Verb

-- The fields of ListOptions that the client reads or sets, and the others.
pub record ListOptions (ListFields : Type 0) : Type 0 where
  pub timeout_seconds : Option ℕ
  pub watch : Bool
  pub fields : ListFields

-- componentBuilds, but for the REST client
pub record ComponentBuilds : Type 0 where
  pub ns : String

abbrev pub resource_name : String
resource_name = "componentbuilds"

-- time.Duration(*opts.TimeoutSeconds) * time.Second, and 0 where no timeout is set
unfoldable pub timeout_of : {ListFields : Type 0} → ListOptions ListFields → ℕ
timeout_of opts = elim opts.timeout_seconds [
  | none ↦ 0
  | some seconds ↦ seconds * 1000000000 % 2 ^ 64
]

module _ (ListFields Options DeleteOptions : Type 0) where
  -- What VersionedParams is given.
  pub data Parameters : Type 0 where
    no_parameters : Parameters
    parameters : Options → Parameters
    list_parameters : ListOptions ListFields → Parameters

  pub data Body : Type 0 where
    no_body : Body
    object_body : ComponentBuild → Body
    delete_body : DeleteOptions → Body
    patch_body : List ℕ → Body

  -- A request: what the calls of the builder have set.
  pub record RestRequest : Type 0 where
    pub verb : Verb
    pub namespace : String
    pub resource : String
    pub name : Option String
    pub subresources : List String
    pub params : Parameters
    pub timeout : Option ℕ
    pub body : Body

  -- Get().Namespace(c.ns).Resource("componentbuilds"), and the like for the other verbs
  abbrev pub request : Verb → ComponentBuilds → RestRequest
  request verb c = record {
    verb = verb;
    namespace = c.ns;
    resource = resource_name;
    name = none;
    subresources = [];
    params = no_parameters;
    timeout = none;
    body = no_body;
  }

  unfoldable pub new_component_builds : String → ComponentBuilds
  new_component_builds namespace = record { ns = namespace }

  unfoldable pub get : ComponentBuilds → String → Options → RestRequest
  get c name options = record (request http_get c) { name = some name; params = parameters options }

  unfoldable pub list : ComponentBuilds → ListOptions ListFields → RestRequest
  unfolding timeout_of
  list c opts = record (request http_get c) {
    params = list_parameters opts;
    timeout = some (timeout_of opts);
  }

  unfoldable pub watch_all : ComponentBuilds → ListOptions ListFields → RestRequest
  unfolding timeout_of
  watch_all c opts = record (request http_get c) {
    params = list_parameters (record opts { watch = true });
    timeout = some (timeout_of opts);
  }

  unfoldable pub create : ComponentBuilds → ComponentBuild → Options → RestRequest
  create c component_build opts = record (request http_post c) {
    params = parameters opts;
    body = object_body component_build;
  }

  unfoldable pub update : ComponentBuilds → ComponentBuild → Options → RestRequest
  update c component_build opts = record (request http_put c) {
    name = some component_build.metadata.name;
    params = parameters opts;
    body = object_body component_build;
  }

  unfoldable pub update_status_of : ComponentBuilds → ComponentBuild → Options → RestRequest
  update_status_of c component_build opts = record (request http_put c) {
    name = some component_build.metadata.name;
    subresources = "status" ∷ [];
    params = parameters opts;
    body = object_body component_build;
  }

  unfoldable pub delete : ComponentBuilds → String → DeleteOptions → RestRequest
  delete c name opts = record (request http_delete c) { name = some name; body = delete_body opts }

  unfoldable pub delete_collection :
      ComponentBuilds → DeleteOptions → ListOptions ListFields → RestRequest
  unfolding timeout_of
  delete_collection c opts list_opts = record (request http_delete c) {
    params = list_parameters list_opts;
    timeout = some (timeout_of list_opts);
    body = delete_body opts;
  }

  unfoldable pub patch :
      ComponentBuilds → String → String → List ℕ → Options → List String → RestRequest
  patch c name pt contents opts subresources = record (request (http_patch pt) c) {
    name = some name;
    subresources = subresources;
    params = parameters opts;
    body = patch_body contents;
  }
