-- ===== src/Client/Clientset.antt =====
-- pkg/client/clientset/versioned/clientset.go: the clients of the groups and of discovery, over one
-- transport.
pub mod Made
use apheleia.Base.{
  ℕ, zero, suc, String, Bool, true, false, not, Option, none, some, ◌&&◌, ◌==◌, if◌then◌else◌,
}
use apheleia.Platform.{Reply, Error, ok, err}
use apheleia.Exec.{on_reply}
use apheleia.Client.Group.{
  ℤ, pos, negsuc, Config, Rest, RestConfig, ApheleiaV1alpha1Client, agent_of,
}
use apheleia.Client.Group

-- b <= 0
abbrev pub is_at_most_zero : ℤ → Bool
is_at_most_zero (pos zero) = true
is_at_most_zero (pos (suc n)) = false
is_at_most_zero (negsuc _) = true

-- p == nil
abbrev pub is_nil : {A : Type 0} → Option A → Bool
is_nil none = true
is_nil (some _) = false

abbrev pub burst_required : Error
burst_required = record {
  reason = "";
  message =
      "burst is required to be greater than 0 when RateLimiter is not set and QPS is set to greater than 0";
}

module _ (L : Rest) where
  pub record Clientset : Type 0 where
    pub discovery_client : L.DiscoveryClient
    pub apheleia_v1alpha1 : ApheleiaV1alpha1Client L

  -- The test of the rate limit, and the limiter that it sets.
  unfoldable pub limit_rate : RestConfig L → Reply (RestConfig L)
  limit_rate c =
      if is_nil c.rate_limiter && L.is_positive c.qps
      then (if is_at_most_zero c.burst
          then err burst_required
          else ok
              (record c { rate_limiter = some (L.new_token_bucket_rate_limiter c.qps c.burst) }))
      else ok c

  unfoldable pub new_for_config_and_client : RestConfig L → L.HttpClient → Reply Clientset
  unfolding limit_rate
  new_for_config_and_client c http_client =
      on_reply (limit_rate c) (λ e. err e)
        λ config.
          on_reply (Group.new_for_config_and_client L config http_client) (λ e. err e)
            λ cs.
              on_reply (L.discovery_client_for config http_client) (λ e. err e)
                λ discovery. ok (record { discovery_client = discovery; apheleia_v1alpha1 = cs })

  unfoldable pub new_for_config : RestConfig L → Reply Clientset
  unfolding new_for_config_and_client
  new_for_config c =
      let config = record c { user_agent = agent_of L c.user_agent } in
      on_reply (L.http_client_for config) (λ e. err e) (new_for_config_and_client config)

  unfoldable pub new_for_config_or_die : RestConfig L → Option Clientset
  unfolding new_for_config
  new_for_config_or_die c = on_reply (new_for_config c) (λ e. none) (λ cs. some cs)

  unfoldable pub new : L.RestClient → Clientset
  new c = record { discovery_client = L.new_discovery_client c; apheleia_v1alpha1 = Group.new L c }

  -- ApheleiaV1alpha1
  unfoldable pub get_apheleia_v1alpha1 : Clientset → Group.ApheleiaV1alpha1Client L
  get_apheleia_v1alpha1 c = c.apheleia_v1alpha1

  -- Discovery, of a pointer that may be nil
  unfoldable pub discovery : Option Clientset → Option L.DiscoveryClient
  discovery none = none
  discovery (some c) = some c.discovery_client
