-- ===== src/Tests/Starts.antt =====
-- The clientset of a configuration, and the start of the program on a world that counts starts.
use kyuubi_operator.Base.{
  inr, ℕ, zero, suc, String, ◌≡◌, refl, ap, ◌⊎◌, inl, true, false, Option, none, some,
  string_discrete,
}
use kyuubi_operator.K8s.Client.{Error}
use kyuubi_operator.Clientset.Machinery.{panics}
use kyuubi_operator.Clientset.Config.{
  pos, negsuc, made, refused, ◌>>=◌, ConfigTypes, Config, Makers, with_user_agent, agent_or,
}
use kyuubi_operator.Clientset.Sets.{
  Clientset, burst_error, new_for_config, new_for_config_and_client, new_for_config_or_die,
}
use kyuubi_operator.Clientset.Config.Defaults.{agent_or_idem}
use kyuubi_operator.Clientset.Sets.Made.{
  IsMadeFor, new_for_config-IsMadeFor, new_for_config_lacking_burst,
  new_for_config-new_for_config_and_client,
}
use kyuubi_operator.Main.{Runtime, program}
use kyuubi_operator.Main.Endings.{HasHalted}
use kyuubi_operator.Main.Started.{IsCode, Keeps, HasStarted, program-HasStarted}
use kyuubi_operator.Tests.Clients.{machinery, Kept, server}

abbrev config_types : ConfigTypes
config_types = record {
  Limiter = ℕ;
  Rate = ℕ;
  Serializer = Unit {0};
  Others = Unit {0};
  HttpClient = String;
  DiscoveryClient = String;
  above_zero = λ n. elim n [ zero ↦ false | suc m ↦ true ];
  default_kubernetes_user_agent = "kyuubi";
  without_conversion = tt;
}

-- The discovery client shows the user agent that it uses.
abbrev makers : Makers config_types machinery Kept
makers = record {
  http_client_for = λ c. made c.user_agent;
  rest_client_for = λ c h. made server;
  discovery_client_for = λ c h. made (agent_or "kyuubi" c.user_agent);
  discovery_client = λ r. "plain";
  token_bucket = λ r b. r;
}

abbrev config : Config config_types
config = record {
  user_agent = "";
  rate_limiter = none;
  qps = 5;
  burst = pos 10;
  group_version = none;
  api_path = "";
  negotiated_serializer = none;
  others = tt;
}

abbrev made_set : Clientset config_types machinery Kept
made_set = record {
  discovery_client = "kyuubi";
  kyuubi_v1alpha1_client = some (record { rest_client = some server });
}

new_for_config-IsMadeFor_example : IsMadeFor makers config made_set
unfolding new_for_config new_for_config_and_client agent_or string_discrete
new_for_config-IsMadeFor_example = new_for_config-IsMadeFor makers config made_set (λ e. cc e) refl

new_for_config_lacking_burst_example :
    let c : Config config_types = record config { burst = negsuc 4 } in
    (new_for_config makers c ≡ refused burst_error)
    × (new_for_config_and_client makers c "kyuubi" ≡ refused burst_error)
    × (new_for_config_or_die makers c ≡ panics)
unfolding with_user_agent agent_or string_discrete
new_for_config_lacking_burst_example =
    new_for_config_lacking_burst makers (record config { burst = negsuc 4 }) "kyuubi"
      (record { no_limiter = refl; has_rate = refl; no_burst = inr (4, refl) }) refl

new_for_config-new_for_config_and_client_example :
    new_for_config makers config
    ≡ makers.http_client_for (with_user_agent config) >>= new_for_config_and_client makers config
unfolding with_user_agent
new_for_config-new_for_config_and_client_example =
    new_for_config-new_for_config_and_client makers config
      (λ d h. ap made (agent_or_idem "kyuubi" d.user_agent))

-- The world counts the managers that have been started.
abbrev done : ℕ → Option Error × ℕ
done w = (none, w)

abbrev runtime : Runtime ℕ
runtime = record {
  Config = Unit {0};
  Manager = Unit {0};
  add_client_go_to_scheme = done;
  add_kyuubi_to_scheme = done;
  parse_flags = λ f w. (inl f, w);
  get_config_or_die = λ w. (some tt, w);
  new_manager = λ c o w. (inl tt, w);
  complete_controller = λ m. done;
  complete_webhook = λ m. done;
  add_healthz_check = λ s m. done;
  add_readyz_check = λ s m. done;
  start = λ m w. (none, suc w);
  getenv = λ s. "";
}

abbrev IsIdle : ℕ → Type 0
IsIdle w = w ≡ 0

runtime-Keeps : Keeps runtime IsIdle
runtime-Keeps = record {
  keeps_client_go = λ w p. p;
  keeps_kyuubi = λ w p. p;
  keeps_flags = λ f w p. p;
  keeps_config = λ w p. p;
  keeps_manager = λ c o w p. p;
  keeps_controller = λ m w p. p;
  keeps_webhook = λ m w p. p;
  keeps_healthz = λ s m w p. p;
  keeps_readyz = λ s m w p. p;
}

program-HasStarted_example :
    HasHalted (IsCode runtime IsIdle 0) IsIdle (program runtime 0)
    ⊎ HasStarted runtime IsIdle (program runtime 0)
program-HasStarted_example = program-HasStarted runtime IsIdle runtime-Keeps 0 refl
