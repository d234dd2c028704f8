-- ===== src/Clientset/Sets.antt =====
-- client/clientset/versioned/clientset.go: the clientset.
pub mod Limits
pub mod Made
use kyuubi_operator.Base.{
  zero, suc, Bool, true, false, not, ◌&&◌, Option, none, some, if◌then◌else◌,
}
use kyuubi_operator.K8s.Client.{Error}
use kyuubi_operator.Clientset.Machinery.{Machinery, Panicking}
use kyuubi_operator.Clientset.Rest.{Rest}
use kyuubi_operator.Clientset.Config
use kyuubi_operator.Clientset.Config.{
  ℤ, pos, negsuc, Result, made, refused, ◌>>=◌, ConfigTypes, Config, Makers, with_user_agent,
  KyuubiV1alpha1Client, or_die,
}

module _ (C : ConfigTypes) (M : Machinery) (W : Type 0) where
  pub record Clientset : Type 0 where
    pub discovery_client : C.DiscoveryClient
    pub kyuubi_v1alpha1_client : Option (KyuubiV1alpha1Client M W)

-- `Burst <= 0`
abbrev pub not_positive : ℤ → Bool
not_positive (pos zero) = true
not_positive (pos (suc n)) = false
not_positive (negsuc n) = true

abbrev pub is_none : {A : Type 0} → Option A → Bool
is_none none = true
is_none (some a) = false

abbrev pub burst_error : Error
burst_error =
    Error.other
      "burst is required to be greater than 0 when RateLimiter is not set and QPS is set to greater than 0"

module _ {C : ConfigTypes} {M : Machinery} {W : Type 0} where
  -- `KyuubiV1alpha1`, of a clientset that is not nil.
  unfoldable pub kyuubi_v1alpha1 : Clientset C M W → Option (KyuubiV1alpha1Client M W)
  kyuubi_v1alpha1 cs = cs.kyuubi_v1alpha1_client

  -- `Discovery`, which is nil for a nil clientset.
  unfoldable pub discovery : Option (Clientset C M W) → Option C.DiscoveryClient
  discovery none = none
  discovery (some cs) = some cs.discovery_client

module _ {C : ConfigTypes} {M : Machinery} {W : Type 0} (L : Makers C M W) where
  -- The rate limiter that the clients share.
  unfoldable pub with_rate_limiter : Config C → Result (Config C)
  with_rate_limiter c =
      if is_none c.rate_limiter && C.above_zero c.qps
      then if not_positive c.burst
        then refused burst_error
        else made (record c { rate_limiter = some (L.token_bucket c.qps c.burst) })
      else made c

  unfoldable pub new_for_config_and_client : Config C → C.HttpClient → Result (Clientset C M W)
  unfolding with_rate_limiter Config.new_for_config_and_client
  new_for_config_and_client c http_client = do
    copy ← with_rate_limiter c
    client ← Config.new_for_config_and_client L copy http_client
    discovery_client ← L.discovery_client_for copy http_client
    made (record { discovery_client = discovery_client; kyuubi_v1alpha1_client = some client })

  unfoldable pub new_for_config : Config C → Result (Clientset C M W)
  unfolding with_user_agent new_for_config_and_client
  new_for_config c = do
    http_client ← L.http_client_for (with_user_agent c)
    new_for_config_and_client (with_user_agent c) http_client

  unfoldable pub new_for_config_or_die : Config C → Panicking (Clientset C M W)
  unfolding new_for_config
  new_for_config_or_die c = or_die (new_for_config c)

  -- `New`
  unfoldable pub new : Rest M W → Clientset C M W
  unfolding Config.new
  new c = record {
    discovery_client = L.discovery_client c;
    kyuubi_v1alpha1_client = some (Config.new (some c));
  }
