-- ===== src/Clientset/Config/Defaults.antt =====
-- The defaults of a configuration.
use kyuubi_operator.Base.{String, ◌≡◌, refl, ap, ◌≢◌, ◌⊎◌, inl, inr, some, arith, string_discrete}
use kyuubi_operator.K8s.Client.{Error}
use kyuubi_operator.Clientset.Machinery.{Machinery}
use kyuubi_operator.Clientset.Config.{
  Result, made, refused, ◌>>=◌, ConfigTypes, Config, Makers, agent_or, with_user_agent,
  set_config_defaults, new_for_config, new_for_config_and_client,
}

pub Result-cases :
    {A : Type 0} (r : Result A) → ((a : A) × (r ≡ made a)) ⊎ ((e : Error) × (r ≡ refused e))
Result-cases (made a) = inl (a, refl)
Result-cases (refused e) = inr (e, refl)

-- A chain that makes something has made each part.
pub >>=-made :
    {A B : Type 0} (r : Result A) (f : A → Result B) (b : B)
    → r >>= f ≡ made b
    → (a : A) × (r ≡ made a) × (f a ≡ made b)
>>=-made (made a) f b e = (a, refl, e)
>>=-made (refused x) f b e = cc e

pub agent_or_kept : (d a : String) → (a ≡ "") ⊎ (agent_or d a ≡ a)
unfolding agent_or
agent_or_kept d a = elim (string_discrete a "") [ yes p ↦ inl p | no n ↦ inr (ground (arith, n)) ]

pub agent_or_given : (d a : String) → a ≢ "" → agent_or d a ≡ a
unfolding agent_or
agent_or_given d a n = ground (arith, n)

pub made_inj : {A : Type 0} {a b : A} → made a ≡ made b → a ≡ b
made_inj e = cc e

pub agent_or_idem : (d a : String) → agent_or d (agent_or d a) ≡ agent_or d a
unfolding agent_or
agent_or_idem d a = ground arith

pub agent_or-ne : (d a : String) → d ≢ "" → agent_or d a ≢ ""
unfolding agent_or
agent_or-ne d a n = ground arith

module _ {C : ConfigTypes} where
  set_config_defaults_idem :
      (c : Config C) → set_config_defaults (set_config_defaults c) ≡ set_config_defaults c
  unfolding set_config_defaults with_user_agent
  set_config_defaults_idem c =
      ap (λ a. record (set_config_defaults c) { user_agent = a })
        (agent_or_idem C.default_kubernetes_user_agent c.user_agent)

  pub set_config_defaults-with_user_agent :
      (c : Config C) → set_config_defaults (with_user_agent c) ≡ set_config_defaults c
  unfolding set_config_defaults with_user_agent
  set_config_defaults-with_user_agent c =
      ap (λ a. record (set_config_defaults c) { user_agent = a })
        (agent_or_idem C.default_kubernetes_user_agent c.user_agent)

  module _ {M : Machinery} {W : Type 0} (L : Makers C M W) where
    -- For the client of the API group, NewForConfig is NewForConfigAndClient with the HTTP client that
    -- is made for the configuration with its defaults.
    pub new_for_config-new_for_config_and_client :
        (c : Config C)
        → new_for_config L c
          ≡ L.http_client_for (set_config_defaults c) >>= new_for_config_and_client L c
    unfolding new_for_config new_for_config_and_client
    new_for_config-new_for_config_and_client c =
        ap
          (λ d. L.http_client_for (set_config_defaults c) >>= λ h.
            L.rest_client_for d h >>= λ r. made (record { rest_client = some r }))
          (set_config_defaults_idem c)
