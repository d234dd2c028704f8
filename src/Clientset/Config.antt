-- ===== src/Clientset/Config.antt =====
-- client/clientset/versioned/typed/kyuubi-operator/v1alpha1/kyuubi-operator_client.go: the client of
-- the API group, and the configuration that it is made from. A configuration is passed by pointer
-- and copied before it is changed, so that here it is a value.
pub mod Defaults
use kyuubi_operator.Base.{ℕ, String, Bool, Option, none, some, ◌==◌, if◌then◌else◌}
use kyuubi_operator.Api.Registration.{GroupVersion, scheme_group_version}
use kyuubi_operator.K8s.Client.{Error}
use kyuubi_operator.Clientset.Machinery.{Machinery, Panicking, returns, panics}
use kyuubi_operator.Clientset.Rest.{Rest}
use kyuubi_operator.Clientset.Typed.{KyuubiClusters}

-- A number with a sign.
pub data ℤ : Type 0 where
  pos : ℕ → ℤ
  negsuc : ℕ → ℤ

-- A value or an error; the other one is nil.
pub data Result (A : Type 0) : Type 0 where
  made : A → Result A
  refused : Error → Result A

infixl 10 ◌>>=◌
abbrev pub ◌>>=◌ : {A B : Type 0} → Result A → (A → Result B) → Result B
made a >>= f = f a
refused e >>= f = refused e

-- Types of the libraries, `QPS > 0`, `rest.DefaultKubernetesUserAgent()` and
-- `scheme.Codecs.WithoutConversion()`.
pub record ConfigTypes : Type 1 where
  pub Limiter : Type 0
  pub Rate : Type 0
  pub Serializer : Type 0
  pub Others : Type 0
  pub HttpClient : Type 0
  pub DiscoveryClient : Type 0
  pub above_zero : Rate → Bool
  pub default_kubernetes_user_agent : String
  pub without_conversion : Serializer

-- `rest.Config`, with the fields that the clients name.
pub record Config (C : ConfigTypes) : Type 0 where
  pub user_agent : String
  pub rate_limiter : Option C.Limiter
  pub qps : C.Rate
  pub burst : ℤ
  pub group_version : Option GroupVersion
  pub api_path : String
  pub negotiated_serializer : Option C.Serializer
  pub others : C.Others

-- The functions of the libraries that make clients: `rest.HTTPClientFor`,
-- `rest.RESTClientForConfigAndClient`, those of `discovery`, and
-- `flowcontrol.NewTokenBucketRateLimiter`.
pub record Makers (C : ConfigTypes) (M : Machinery) (W : Type 0) : Type 0 where
  pub http_client_for : Config C → Result C.HttpClient
  pub rest_client_for : Config C → C.HttpClient → Result (Rest M W)
  pub discovery_client_for : Config C → C.HttpClient → Result C.DiscoveryClient
  pub discovery_client : Rest M W → C.DiscoveryClient
  pub token_bucket : C.Rate → ℤ → C.Limiter

-- `if config.UserAgent == "" { config.UserAgent = ... }`
unfoldable pub agent_or : String → String → String
agent_or default agent = if agent == "" then default else agent

unfoldable pub with_user_agent : {C : ConfigTypes} → Config C → Config C
unfolding agent_or
with_user_agent {C} config = record config {
  user_agent = agent_or C.default_kubernetes_user_agent config.user_agent;
}

-- `setConfigDefaults`, whose error is always nil.
unfoldable pub set_config_defaults : {C : ConfigTypes} → Config C → Config C
unfolding with_user_agent
set_config_defaults {C} config = with_user_agent (record config {
  group_version = some scheme_group_version;
  api_path = "/apis";
  negotiated_serializer = some C.without_conversion;
})

module _ (M : Machinery) (W : Type 0) where
  pub record KyuubiV1alpha1Client : Type 0 where
    pub rest_client : Option (Rest M W)

-- `panic(err)`
abbrev pub or_die : {A : Type 0} → Result A → Panicking A
or_die (made a) = returns a
or_die (refused e) = panics

module _ {C : ConfigTypes} {M : Machinery} {W : Type 0} (L : Makers C M W) where
  unfoldable pub new_for_config_and_client :
      Config C → C.HttpClient → Result (KyuubiV1alpha1Client M W)
  unfolding set_config_defaults
  new_for_config_and_client c h = do
    client ← L.rest_client_for (set_config_defaults c) h
    made (record { rest_client = some client })

  unfoldable pub new_for_config : Config C → Result (KyuubiV1alpha1Client M W)
  unfolding set_config_defaults new_for_config_and_client
  new_for_config c = do
    http_client ← L.http_client_for (set_config_defaults c)
    new_for_config_and_client (set_config_defaults c) http_client

  unfoldable pub new_for_config_or_die : Config C → Panicking (KyuubiV1alpha1Client M W)
  unfolding new_for_config
  new_for_config_or_die c = or_die (new_for_config c)

module _ {M : Machinery} {W : Type 0} where
  -- `New`, for any REST client.
  unfoldable pub new : Option (Rest M W) → KyuubiV1alpha1Client M W
  new c = record { rest_client = c }

  -- `RESTClient`, which is nil for a nil client.
  unfoldable pub rest_client : Option (KyuubiV1alpha1Client M W) → Option (Rest M W)
  rest_client none = none
  rest_client (some c) = c.rest_client

  -- `newKyuubiClusters`
  unfoldable pub new_kyuubi_clusters :
      Option (KyuubiV1alpha1Client M W) → String → KyuubiClusters M W
  unfolding rest_client
  new_kyuubi_clusters c namespace = record { client = rest_client c; ns = namespace }

  -- `KyuubiClusters`
  unfoldable pub kyuubi_clusters : Option (KyuubiV1alpha1Client M W) → String → KyuubiClusters M W
  unfolding new_kyuubi_clusters
  kyuubi_clusters c namespace = new_kyuubi_clusters c namespace
