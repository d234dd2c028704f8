-- ===== src/Clientset/Sets/Made.antt =====
-- What a clientset is made of.
use kyuubi_operator.Base.{
  ◌≡◌, refl, sym, ap, ap₂, ◌∙◌, subst, ◌≢◌, ◌⊎◌, inl, inr, false, none, some,
}
use kyuubi_operator.Api.Registration.{scheme_group_version}
use kyuubi_operator.Clientset.Machinery.{Machinery, panics}
use kyuubi_operator.Clientset.Rest.{Rest}
use kyuubi_operator.Clientset.Config
use kyuubi_operator.Clientset.Config.{
  Result, made, refused, ◌>>=◌, ConfigTypes, Config, Makers, with_user_agent, agent_or,
  set_config_defaults, KyuubiV1alpha1Client, or_die,
}
use kyuubi_operator.Clientset.Config.Defaults.{
  Result-cases, agent_or-ne, agent_or_kept, >>=-made, made_inj, agent_or_given,
  set_config_defaults-with_user_agent,
}
use kyuubi_operator.Clientset.Sets.Limits.{
  IsUnlimited, with_rate_limiter-refused, with_rate_limiter-cases,
  with_rate_limiter-with_user_agent,
}
use kyuubi_operator.Clientset.Sets.{
  Clientset, with_rate_limiter, burst_error, new_for_config, new_for_config_and_client,
  new_for_config_or_die,
}

module _ {C : ConfigTypes} {M : Machinery} {W : Type 0} (L : Makers C M W) where
  -- What a configuration `d` has that clients are made from, for a given configuration `c`.
  pub record IsCompleted (c d : Config C) : Type 0 where
    pub agent_given : d.user_agent ≢ ""
    pub agent_kept : (c.user_agent ≡ "") ⊎ (d.user_agent ≡ c.user_agent)
    pub limiter_kept : (c.rate_limiter ≡ none) ⊎ (d.rate_limiter ≡ c.rate_limiter)
    pub limited : (d.rate_limiter ≢ none) ⊎ (C.above_zero d.qps ≡ false)
    pub qps_kept : d.qps ≡ c.qps
    pub burst_kept : d.burst ≡ c.burst
    pub others_kept : d.others ≡ c.others

  -- Both clients of a clientset are made with one HTTP client and from one completed configuration,
  -- that of the typed client being for the API group.
  pub record IsMadeFor (c : Config C) (cs : Clientset C M W) : Type 0 where
    pub config : Config C
    pub http_client : C.HttpClient
    pub client : Rest M W
    pub http_client_made : L.http_client_for (with_user_agent c) ≡ made http_client
    pub config_completed : IsCompleted c config
    pub discovery_made : L.discovery_client_for config http_client ≡ made cs.discovery_client
    pub client_made :
        L.rest_client_for
          (record config {
            group_version = some scheme_group_version;
            api_path = "/apis";
            negotiated_serializer = some C.without_conversion;
          })
          http_client
        ≡ made client
    pub client_kept : cs.kyuubi_v1alpha1_client ≡ some (record { rest_client = some client })

  -- The clients, from a configuration with its rate limiter.
  abbrev pub finished : Config C → C.HttpClient → Result (Clientset C M W)
  finished copy h = do
    client ← Config.new_for_config_and_client L copy h
    discovery_client ← L.discovery_client_for copy h
    made (record { discovery_client = discovery_client; kyuubi_v1alpha1_client = some client })

  and_client_refused :
      (c : Config C) (h : C.HttpClient)
      → IsUnlimited L c
      → new_for_config_and_client L c h ≡ refused burst_error
  unfolding new_for_config_and_client
  and_client_refused c h u = ap (λ r. r >>= λ d. finished d h) (with_rate_limiter-refused L c u)

  -- A rate above zero without a rate limiter and with a burst that is zero or negative is refused by both
  -- functions, and NewForConfigOrDie panics, if the HTTP client can be made.
  pub new_for_config_lacking_burst :
      (c : Config C) (h : C.HttpClient)
      → IsUnlimited L c
      → L.http_client_for (with_user_agent c) ≡ made h
      → (new_for_config L c ≡ refused burst_error)
        × (new_for_config_and_client L c h ≡ refused burst_error)
        × (new_for_config_or_die L c ≡ panics)
  unfolding new_for_config_or_die new_for_config with_user_agent
  new_for_config_lacking_burst c h u e =
      let v : IsUnlimited L (with_user_agent c) = record {
        no_limiter = u.no_limiter;
        has_rate = u.has_rate;
        no_burst = u.no_burst;
      } in
      let refusal =
        ap (λ r. r >>= new_for_config_and_client L (with_user_agent c)) e
        ∙ and_client_refused (with_user_agent c) h v in
      (refusal, and_client_refused c h u, ap or_die refusal)

  finished-with_user_agent :
      (d : Config C) (h : C.HttpClient)
      → L.discovery_client_for (with_user_agent d) h ≡ L.discovery_client_for d h
      → finished (with_user_agent d) h ≡ finished d h
  unfolding Config.new_for_config_and_client
  finished-with_user_agent d h g =
      ap₂
        (λ c r. (L.rest_client_for c h >>= λ k. made (record { rest_client = some k })) >>= λ k.
          r >>= λ n. made (record { discovery_client = n; kyuubi_v1alpha1_client = some k }))
        (set_config_defaults-with_user_agent d) g

  and_client-with_user_agent :
      (c : Config C) (h : C.HttpClient)
      → ((d : Config C) (h : C.HttpClient)
          → L.discovery_client_for (with_user_agent d) h ≡ L.discovery_client_for d h)
      → new_for_config_and_client L (with_user_agent c) h ≡ new_for_config_and_client L c h
  unfolding new_for_config_and_client
  and_client-with_user_agent c h g =
      ap (λ r. r >>= λ d. finished d h) (with_rate_limiter-with_user_agent L c)
      ∙ elim (Result-cases (with_rate_limiter L c)) [
        | inl (d, e) ↦ rw e (finished-with_user_agent d h (g d h))
        | inr (x, e) ↦ rw e refl
      ]

  -- NewForConfig is NewForConfigAndClient with the HTTP client that is made for the configuration with
  -- a user agent. The discovery client gives itself a user agent where the configuration has none.
  pub new_for_config-new_for_config_and_client :
      (c : Config C)
      → ((d : Config C) (h : C.HttpClient)
          → L.discovery_client_for (with_user_agent d) h ≡ L.discovery_client_for d h)
      → new_for_config L c ≡ L.http_client_for (with_user_agent c) >>= new_for_config_and_client L c
  unfolding new_for_config
  new_for_config-new_for_config_and_client c g =
      elim (Result-cases (L.http_client_for (with_user_agent c))) [
        | inl (h, e) ↦ rw e (and_client-with_user_agent c h g)
        | inr (x, e) ↦ rw e refl
      ]

  with_rate_limiter-IsCompleted :
      (c d : Config C)
      → with_rate_limiter L (with_user_agent c) ≡ made d
      → C.default_kubernetes_user_agent ≢ ""
      → IsCompleted c d
  unfolding with_user_agent
  with_rate_limiter-IsCompleted c d e n = elim (with_rate_limiter-cases L (with_user_agent c)) [
    | inl (u, r) ↦ cc (e, r)
    | inr (inl (o, r)) ↦
        let bucket : IsCompleted c
            (record (with_user_agent c) { rate_limiter = some (L.token_bucket c.qps c.burst) }) =
          record {
            agent_given = agent_or-ne C.default_kubernetes_user_agent c.user_agent n;
            agent_kept = agent_or_kept C.default_kubernetes_user_agent c.user_agent;
            limiter_kept = inl o;
            limited = inl (λ p. cc p);
            qps_kept = refl;
            burst_kept = refl;
            others_kept = refl;
          } in
        subst (IsCompleted c) (made_inj (sym r ∙ e)) bucket
    | inr (inr (o, r)) ↦
        let kept : IsCompleted c (with_user_agent c) = record {
          agent_given = agent_or-ne C.default_kubernetes_user_agent c.user_agent n;
          agent_kept = agent_or_kept C.default_kubernetes_user_agent c.user_agent;
          limiter_kept = inr refl;
          limited = o;
          qps_kept = refl;
          burst_kept = refl;
          others_kept = refl;
        } in
        subst (IsCompleted c) (made_inj (sym r ∙ e)) kept
  ]

  -- Where NewForConfig returns a clientset, its typed client and its discovery client have been made
  -- with one HTTP client, that of the configuration with a user agent, and from one configuration,
  -- which has a user agent, that of the caller if there is one; which has a rate limiter, that of the
  -- caller if there is one, or a rate that is not above zero; and which else is that of the caller. The
  -- typed client is for the group and version kyuubi.nineinfra.tech/v1alpha1 under /apis. The default
  -- user agent is not empty.
  pub new_for_config-IsMadeFor :
      (c : Config C) (cs : Clientset C M W)
      → C.default_kubernetes_user_agent ≢ ""
      → new_for_config L c ≡ made cs
      → IsMadeFor c cs
  unfolding new_for_config new_for_config_and_client Config.new_for_config_and_client
      set_config_defaults with_user_agent
  new_for_config-IsMadeFor c cs n e =
      let (h, made_h, e1) =
        >>=-made (L.http_client_for (with_user_agent c))
          (new_for_config_and_client L (with_user_agent c)) cs e in
      let (d, made_d, e2) =
        >>=-made (with_rate_limiter L (with_user_agent c)) (λ d. finished d h) cs e1 in
      let (k, made_k, e3) = >>=-made (Config.new_for_config_and_client L d h) _ cs e2 in
      let (i, made_i, e4) = >>=-made (L.discovery_client_for d h) _ cs e3 in
      let (r, made_r, e5) = >>=-made (L.rest_client_for (set_config_defaults d) h) _ k made_k in
      let completed = with_rate_limiter-IsCompleted c d made_d n in
      record {
        config = d;
        http_client = h;
        client = r;
        http_client_made = made_h;
        config_completed = completed;
        discovery_made = made_i ∙ ap (λ s. made s.discovery_client) (made_inj e4);
        client_made =
            ap (λ a. L.rest_client_for (record (set_config_defaults d) { user_agent = a }) h)
              (sym
                (agent_or_given C.default_kubernetes_user_agent d.user_agent completed.agent_given))
            ∙ made_r;
        client_kept =
            ap (λ s. s.kyuubi_v1alpha1_client) (sym (made_inj e4)) ∙ ap some (sym (made_inj e5));
      }
