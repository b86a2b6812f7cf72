-- ===== src/Client/Clientset/Made.antt =====
-- pkg/client/clientset/versioned/clientset.go: what NewForConfig returns.
use apheleia.Base.{◌≡◌, refl, true, false, Option, none, some, Bool-cases, inl, inr, arith}
use apheleia.Platform.{Reply, Error, ok, err}
use apheleia.Exec.{on_reply}
use apheleia.Client.Group.{Rest, RestConfig, ApheleiaV1alpha1Client, agent_of, set_config_defaults}
use apheleia.Client.Group
use apheleia.Client.Clientset.{
  is_at_most_zero, is_nil, burst_required, Clientset, limit_rate, new_for_config_and_client,
  new_for_config, new_for_config_or_die,
}

module _ (L : Rest) (c : RestConfig L) where
  -- The configuration that the transport is made with.
  abbrev pub named : RestConfig L
  named = record c { user_agent = agent_of L c.user_agent }

  -- The rate of the configuration would have no limit that is of use.
  pub record LacksBurst : Type 0 where
    pub unlimited : is_nil c.rate_limiter ≡ true
    pub wanted : L.is_positive c.qps ≡ true
    pub burst : is_at_most_zero c.burst ≡ true

  -- The configuration of the clients is the one that was given, with its user agent, and with a
  -- limiter where a rate is wanted; a limiter that was given is kept, and one that is made has the
  -- rate and the burst that were given, the burst being greater than 0.
  pub record IsLimited (config : RestConfig L) : Type 0 where
    pub rest : config ≡ record named { rate_limiter = config.rate_limiter }
    pub limits : L.is_positive c.qps ≡ true → is_nil config.rate_limiter ≡ false
    pub keeps : is_nil c.rate_limiter ≡ false → config.rate_limiter ≡ c.rate_limiter
    pub bursts :
        is_nil c.rate_limiter ≡ true
        → L.is_positive c.qps ≡ true
        → (is_at_most_zero c.burst ≡ false)
          × (config.rate_limiter ≡ some (L.new_token_bucket_rate_limiter c.qps c.burst))

  -- Both clients were made with the same transport and the same configuration, that of the group
  -- with the defaults of its group on top.
  pub record IsBuilt (cs : Clientset L) : Type 0 where
    pub http_client : L.HttpClient
    pub config : RestConfig L
    pub transport : L.http_client_for named ≡ ok http_client
    pub limited : IsLimited config
    pub group :
        L.rest_client_for (set_config_defaults L config).1 http_client
        ≡ ok cs.apheleia_v1alpha1.rest_client
    pub discovery : L.discovery_client_for config http_client ≡ ok cs.discovery_client

  -- Why there is none.
  pub data IsRefused (e : Error) : Type 0 where
    no_transport : L.http_client_for named ≡ err e → IsRefused e
    no_burst : LacksBurst → e ≡ burst_required → IsRefused e
    no_group :
        (config : RestConfig L) (h : L.HttpClient)
        → IsLimited config
        → L.http_client_for named ≡ ok h
        → L.rest_client_for (set_config_defaults L config).1 h ≡ err e
        → IsRefused e
    no_discovery :
        (config : RestConfig L) (h : L.HttpClient)
        → IsLimited config
        → L.http_client_for named ≡ ok h
        → L.discovery_client_for config h ≡ err e
        → IsRefused e

  abbrev pub Outcome : Reply (Clientset L) → Type 0
  Outcome (ok cs) = IsBuilt cs
  Outcome (err e) = IsRefused e

  abbrev Limited : Reply (RestConfig L) → Type 0
  Limited (ok config) = IsLimited config
  Limited (err e) = LacksBurst × (e ≡ burst_required)

  limit_rate_lem : Limited (limit_rate L named)
  unfolding limit_rate
  limit_rate_lem = elim (Bool-cases (is_nil c.rate_limiter)) [
    | inr given ↦ rw given (record {
      rest = refl;
      limits = λ _. given;
      keeps = λ _. refl;
      bursts = λ missing _. absurd (ground (arith, missing, given));
    })
    | inl missing ↦ elim (Bool-cases (L.is_positive c.qps)) [
      | inr unwanted ↦
          rw (missing, unwanted)
            (record {
              rest = refl;
              limits = λ wanted. absurd (ground (arith, wanted, unwanted));
              keeps = λ _. refl;
              bursts = λ _ wanted. absurd (ground (arith, wanted, unwanted));
            })
      | inl wanted ↦ elim (Bool-cases (is_at_most_zero c.burst)) [
        | inl burst ↦
            rw (missing, wanted, burst)
              (record { unlimited = missing; wanted = wanted; burst = burst }, refl)
        | inr enough ↦
            rw (missing, wanted, enough)
              (record {
                rest = refl;
                limits = λ _. refl;
                keeps = λ given. absurd (ground (arith, missing, given));
                bursts = λ _ _. (enough, refl);
              })
      ]
    ]
  ]

  module _ (h : L.HttpClient) (transport : L.http_client_for named ≡ ok h) where
    with_group :
        (config : RestConfig L) (limited : IsLimited config) (client : Reply L.RestClient)
        (discovery : Reply L.DiscoveryClient)
        → L.rest_client_for (set_config_defaults L config).1 h ≡ client
        → L.discovery_client_for config h ≡ discovery
        → Outcome (
            on_reply
              (on_reply client (λ e. err e) (λ x. ok (record { rest_client = x })))
              (λ e. err e)
              λ cs.
                on_reply discovery
                  (λ e. err e)
                  λ d. ok (record { discovery_client = d; apheleia_v1alpha1 = cs }))
    unfolding on_reply
    with_group config limited (err e) discovery g d = no_group config h limited transport g
    with_group config limited (ok x) (err e) g d = no_discovery config h limited transport d
    with_group config limited (ok x) (ok y) g d = record {
      http_client = h;
      config = config;
      transport = transport;
      limited = limited;
      group = g;
      discovery = d;
    }

    with_limit :
        (r : Reply (RestConfig L))
        → Limited r
        → Outcome (
            on_reply r
              (λ e. err e)
              λ config.
                on_reply
                  (Group.new_for_config_and_client L config h)
                  (λ e. err e)
                  λ cs.
                    on_reply
                      (L.discovery_client_for config h)
                      (λ e. err e)
                      λ d. ok (record { discovery_client = d; apheleia_v1alpha1 = cs }))
    unfolding on_reply Group.new_for_config_and_client
    with_limit (err e) (lacks, same) = no_burst lacks same
    with_limit (ok config) limited =
        with_group config limited _ (L.discovery_client_for config h) refl refl

  with_transport :
      (r : Reply L.HttpClient)
      → L.http_client_for named ≡ r
      → Outcome (on_reply r (λ e. err e) (new_for_config_and_client L named))
  unfolding on_reply new_for_config_and_client
  with_transport (err e) t = no_transport t
  with_transport (ok h) t = with_limit h t (limit_rate L named) limit_rate_lem

  -- NewForConfigOrDie returns what NewForConfig does, and panics on an error.
  abbrev pub Survives : Reply (Clientset L) → Option (Clientset L) → Type 0
  Survives (ok cs) o = o ≡ some cs
  Survives (err e) o = o ≡ none

  survives : (r : Reply (Clientset L)) → Survives r (on_reply r (λ e. none) (λ cs. some cs))
  unfolding on_reply
  survives (ok cs) = refl
  survives (err e) = refl

  -- NewForConfig returns a clientset whose clients share one transport, which was made with the
  -- configuration and its user agent; they were made with a configuration that has a limiter where
  -- a rate is wanted (the one that was given, or else one of the rate and the burst that were
  -- given, where that burst is greater than 0), that of the group with the defaults of its group on
  -- top. Or it returns the error of the transport, of a rate that is wanted without a limiter and
  -- without a burst, of the client of the group, or of the client of discovery. NewForConfigOrDie
  -- panics exactly on such an error.
  pub new_for_config-Outcome :
      Outcome (new_for_config L c) × Survives (new_for_config L c) (new_for_config_or_die L c)
  unfolding new_for_config new_for_config_or_die
  new_for_config-Outcome =
      (with_transport (L.http_client_for named) refl, survives (new_for_config L c))
