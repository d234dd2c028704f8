-- ===== src/Main/Started.antt =====
-- When the manager is started.
use kyuubi_operator.Base.{
  ℕ, String, ◌≡◌, refl, sym, ap, ◌∙◌, ◌≢◌, ◌⊎◌, inl, inr, none, string_discrete, ◌==◌,
  if◌then◌else◌, Bool-cases,
}
use kyuubi_operator.Main.Endings.{
  HasHalted, Ended, or_exit-Ended, must-Ended, exit_unless-Ended, value_or_exit-Ended,
  value_or_code-Ended, >>=-HasHalted, is_same, is_other, or_exit-none,
}
use kyuubi_operator.Main.{
  Ending, goes_on, Process, Flags, Runtime, or_exit, must, init, setup_with_manager,
  setup_webhook_with_manager, options_of, parsed, configured, managed, add_webhook, main, program,
  ◌>>◌, pass, default_flags, Options,
}

module _ {W : Type 0} (R : Runtime W) (P : W → Type 0) where
  -- No call but the start of the manager makes `P` false.
  pub record Keeps : Type 0 where
    pub keeps_client_go : (w : W) → P w → P (R.add_client_go_to_scheme w).1
    pub keeps_kyuubi : (w : W) → P w → P (R.add_kyuubi_to_scheme w).1
    pub keeps_flags : (f : Flags) (w : W) → P w → P (R.parse_flags f w).1
    pub keeps_config : (w : W) → P w → P (R.get_config_or_die w).1
    pub keeps_manager : (c : R.Config) (o : Options) (w : W) → P w → P (R.new_manager c o w).1
    pub keeps_controller : (m : R.Manager) (w : W) → P w → P (R.complete_controller m w).1
    pub keeps_webhook : (m : R.Manager) (w : W) → P w → P (R.complete_webhook m w).1
    pub keeps_healthz : (s : String) (m : R.Manager) (w : W) → P w → P (R.add_healthz_check s m w).1
    pub keeps_readyz : (s : String) (m : R.Manager) (w : W) → P w → P (R.add_readyz_check s m w).1

  -- The process ends as the start of a manager does, in a world in which the controller, the webhook,
  -- unless the environment has switched it off, and both checks have been set up in that manager,
  -- without an error, and nothing has been started before.
  pub record HasStarted (r : Ending (Unit {0}) × W) : Type 0 where
    pub manager : R.Manager
    pub w0 : W
    pub w1 : W
    pub w2 : W
    pub w3 : W
    pub w4 : W
    pub controller_set : R.complete_controller manager w0 ≡ (none, w1)
    pub webhook_set :
        ((R.getenv "ENABLE_WEBHOOKS" ≡ "false") × (w2 ≡ w1))
        ⊎ ((R.getenv "ENABLE_WEBHOOKS" ≢ "false") × (R.complete_webhook manager w1 ≡ (none, w2)))
    pub healthz_set : R.add_healthz_check "healthz" manager w2 ≡ (none, w3)
    pub readyz_set : R.add_readyz_check "readyz" manager w3 ≡ (none, w4)
    pub not_before : P w4
    pub started : r ≡ or_exit (R.start manager) w4

  -- The codes with which the process may end before the manager starts: 1, or that with which the
  -- parsing of the flags ends it.
  abbrev pub IsCode : W → ℕ → Type 0
  IsCode w n = (n ≡ 1) ⊎ ((R.parse_flags default_flags (init R w).1).0 ≡ inr n)

  module _ (K : Keeps) (start : W) where
    abbrev Code : ℕ → Type 0
    Code = IsCode start

    webhook-Ended : (m : R.Manager) (w : W) → P w → Ended Code P (add_webhook R m w)
    unfolding add_webhook setup_webhook_with_manager
    webhook-Ended m w p = elim (Bool-cases (R.getenv "ENABLE_WEBHOOKS" == "false")) [
      | inl e ↦ rw e (inr (tt, w, refl, p))
      | inr e ↦
          rw e (or_exit-Ended Code P (R.complete_webhook m) w (inl refl) (K.keeps_webhook m w p))
    ]

    webhook_lem :
        (m : R.Manager) (w w' : W) {u : Unit {0}}
        → add_webhook R m w ≡ (goes_on u, w')
        → ((R.getenv "ENABLE_WEBHOOKS" ≡ "false") × (w' ≡ w))
          ⊎ ((R.getenv "ENABLE_WEBHOOKS" ≢ "false") × (R.complete_webhook m w ≡ (none, w')))
    unfolding add_webhook setup_webhook_with_manager
    webhook_lem m w w' e = elim (string_discrete (R.getenv "ENABLE_WEBHOOKS") "false") [
      | yes q ↦ inl (
        q,
        ap (λ r. r.1)
            (sym e
              ∙ ap (λ b. (if b then pass else or_exit (R.complete_webhook m)) w)
                  (is_same (R.getenv "ENABLE_WEBHOOKS") "false" q)),
      )
      | no n ↦ inr (
        n,
        or_exit-none (R.complete_webhook m) w w' (
            ap (λ b. (if b then pass else or_exit (R.complete_webhook m)) w)
              (sym (is_other (R.getenv "ENABLE_WEBHOOKS") "false" n))
            ∙ e),
      )
    ]

    -- `main` from the manager on.
    abbrev from_manager : R.Manager → Process W (Unit {0})
    from_manager m = do
      or_exit (R.complete_controller m)
      add_webhook R m
      or_exit (R.add_healthz_check "healthz" m)
      or_exit (R.add_readyz_check "readyz" m)
      or_exit (R.start m)

    manager-HasStarted :
        (m : R.Manager) (w : W)
        → P w
        → HasHalted Code P (from_manager m w) ⊎ HasStarted (from_manager m w)
    manager-HasStarted m w0 p0 =
        >>=-HasHalted Code P HasStarted (or_exit (R.complete_controller m)) _ w0
          (or_exit-Ended Code P (R.complete_controller m) w0 (inl refl)
            (K.keeps_controller m w0 p0))
          (λ _ w1 e1 p1.
            >>=-HasHalted Code P HasStarted (add_webhook R m) _ w1 (webhook-Ended m w1 p1)
              (λ _ w2 e2 p2.
                >>=-HasHalted Code P HasStarted (or_exit (R.add_healthz_check "healthz" m)) _ w2
                  (or_exit-Ended Code P (R.add_healthz_check "healthz" m) w2 (inl refl)
                    (K.keeps_healthz "healthz" m w2 p2))
                  (λ _ w3 e3 p3.
                    >>=-HasHalted Code P HasStarted (or_exit (R.add_readyz_check "readyz" m)) _ w3
                      (or_exit-Ended Code P (R.add_readyz_check "readyz" m) w3 (inl refl)
                        (K.keeps_readyz "readyz" m w3 p3))
                      (λ _ w4 e4 p4. inr (record {
                        manager = m;
                        w0 = w0;
                        w1 = w1;
                        w2 = w2;
                        w3 = w3;
                        w4 = w4;
                        controller_set = or_exit-none (R.complete_controller m) w0 w1 e1;
                        webhook_set = webhook_lem m w1 w2 e2;
                        healthz_set = or_exit-none (R.add_healthz_check "healthz" m) w2 w3 e3;
                        readyz_set = or_exit-none (R.add_readyz_check "readyz" m) w3 w4 e4;
                        not_before = p4;
                        started = refl;
                      })))))

    init-Ended : (w : W) → P w → Ended Code P (init R w)
    unfolding init
    init-Ended w p =
        >>=-HasHalted Code P (λ r. (a : Unit {0}) × (w' : W) × (r ≡ (goes_on a, w')) × P w')
          (must R.add_client_go_to_scheme) (λ _. must R.add_kyuubi_to_scheme) w
          (must-Ended Code P R.add_client_go_to_scheme w (K.keeps_client_go w p))
          (λ _ w' e q. must-Ended Code P R.add_kyuubi_to_scheme w' (K.keeps_kyuubi w' q))

  -- Let a property of the world be kept by all calls but the start of a manager. From a world that
  -- has it, the program either ends in a panic, with exit code 1 or with the code with which the
  -- parsing of the flags has ended it, in a world that still has the property; or
  -- it sets up in one manager, in this order and without an error, the controller, the webhook unless
  -- ENABLE_WEBHOOKS is "false", the health check and the ready check, in a world that still has the
  -- property, and then starts that manager and ends with code 1 if that fails.
  pub program-HasStarted :
      Keeps → (w : W) → P w → HasHalted (IsCode w) P (program R w) ⊎ HasStarted (program R w)
  unfolding program main setup_with_manager
  program-HasStarted K w p =
      >>=-HasHalted (IsCode w) P HasStarted (init R) (λ _. main R) w (init-Ended K w w p)
        (λ _ w1 e p.
          >>=-HasHalted (IsCode w) P HasStarted (parsed R) _ w1
            (value_or_code-Ended (IsCode w) P _ _
              (λ n q. inr (ap (λ r. (R.parse_flags default_flags r.1).0) e ∙ q))
              (K.keeps_flags default_flags w1 p))
            (λ flags w2 e p.
              >>=-HasHalted (IsCode w) P HasStarted (configured R) _ w2
                (exit_unless-Ended (IsCode w) P _ _ (inl refl) (K.keeps_config w2 p))
                (λ c w3 e p.
                  >>=-HasHalted (IsCode w) P HasStarted (managed R c (options_of R flags)) _ w3
                    (value_or_exit-Ended (IsCode w) P _ _ (inl refl)
                      (K.keeps_manager c (options_of R flags) w3 p))
                    (λ m w4 e p. manager-HasStarted K w m w4 p))))
