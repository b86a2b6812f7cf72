-- ===== src/Client/Group.antt =====
-- pkg/client/clientset/versioned/typed/apheleia/v1alpha1/apheleia_client.go: the client of the
-- group. The packages rest, discovery and flowcontrol of client-go are a `Rest`. A pointer to a
-- configuration that a function copies at once is the value; a panic is the absence of a result.
use apheleia.Base.{ℕ, String, Bool, Option, none, some, ◌==◌, if◌then◌else◌}
use apheleia.Platform.{Reply, Error, ok, err}
use apheleia.Exec.{on_reply}
use apheleia.Manager.{GroupVersion, scheme_group_version}
use apheleia.Client.Typed.{ComponentBuilds, new_component_builds}

-- int
pub data ℤ : Type 0 where
  pos : ℕ → ℤ
  negsuc : ℕ → ℤ

-- The fields of rest.Config that the clients read or set, and the others.
pub record Config (RateLimiter Qps Serializer Fields : Type 0) : Type 0 where
  pub group_version : Option GroupVersion
  pub api_path : String
  pub negotiated_serializer : Option Serializer
  pub user_agent : String
  pub rate_limiter : Option RateLimiter
  pub qps : Qps
  pub burst : ℤ
  pub fields : Fields

pub record Rest : Type 1 where
  pub RateLimiter : Type 0
  pub Qps : Type 0
  pub Serializer : Type 0
  pub Fields : Type 0
  pub HttpClient : Type 0
  pub RestClient : Type 0
  pub DiscoveryClient : Type 0
  -- rest.DefaultKubernetesUserAgent()
  pub default_user_agent : String
  -- scheme.Codecs.WithoutConversion()
  pub without_conversion : Serializer
  pub http_client_for : Config RateLimiter Qps Serializer Fields → Reply HttpClient
  pub rest_client_for : Config RateLimiter Qps Serializer Fields → HttpClient → Reply RestClient
  -- QPS > 0
  pub is_positive : Qps → Bool
  pub new_token_bucket_rate_limiter : Qps → ℤ → RateLimiter
  pub discovery_client_for :
      Config RateLimiter Qps Serializer Fields → HttpClient → Reply DiscoveryClient
  pub new_discovery_client : RestClient → DiscoveryClient

abbrev pub RestConfig : Rest → Type 0
RestConfig L = Config L.RateLimiter L.Qps L.Serializer L.Fields

module _ (L : Rest) where
  pub record ApheleiaV1alpha1Client : Type 0 where
    pub rest_client : L.RestClient

  -- if config.UserAgent == "" { config.UserAgent = rest.DefaultKubernetesUserAgent() }
  abbrev pub agent_of : String → String
  agent_of agent = if agent == "" then L.default_user_agent else agent

  -- The writes through the pointer, and the error, which is nil.
  unfoldable pub set_config_defaults : RestConfig L → Option Error × RestConfig L
  set_config_defaults config = (
    none,
    record config {
      group_version = some scheme_group_version;
      api_path = "/apis";
      negotiated_serializer = some L.without_conversion;
      user_agent = agent_of config.user_agent;
    },
  )

  -- `if err != nil { return nil, err }` after a call that has changed the configuration.
  abbrev pub unless_set :
      {A : Type 0} → Option Error × RestConfig L → (RestConfig L → Reply A) → Reply A
  unless_set (some e, config) f = err e
  unless_set (none, config) f = f config

  unfoldable pub new_for_config_and_client :
      RestConfig L → L.HttpClient → Reply ApheleiaV1alpha1Client
  unfolding set_config_defaults
  new_for_config_and_client c h = unless_set (set_config_defaults c) λ config.
      on_reply (L.rest_client_for config h) (λ e. err e)
        (λ client. ok (record { rest_client = client }))

  unfoldable pub new_for_config : RestConfig L → Reply ApheleiaV1alpha1Client
  unfolding set_config_defaults new_for_config_and_client
  new_for_config c =
      unless_set (set_config_defaults c) λ config.
        on_reply (L.http_client_for config) (λ e. err e) (new_for_config_and_client config)

  unfoldable pub new_for_config_or_die : RestConfig L → Option ApheleiaV1alpha1Client
  unfolding new_for_config
  new_for_config_or_die c = on_reply (new_for_config c) (λ e. none) (λ client. some client)

  unfoldable pub new : L.RestClient → ApheleiaV1alpha1Client
  new c = record { rest_client = c }

  -- ComponentBuilds, over the client of the group
  unfoldable pub component_builds_of :
      (ListFields Options DeleteOptions : Type 0)
      → ApheleiaV1alpha1Client
      → String
      → L.RestClient × ComponentBuilds
  component_builds_of ListFields Options DeleteOptions c namespace =
      (c.rest_client, new_component_builds ListFields Options DeleteOptions namespace)

  -- RESTClient, of a pointer that may be nil
  unfoldable pub rest_client_of : Option ApheleiaV1alpha1Client → Option L.RestClient
  rest_client_of none = none
  rest_client_of (some c) = some c.rest_client
