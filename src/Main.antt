-- ===== src/Main.antt =====
-- cmd/main.go: the start of the program, with `SetupWithManager` of the controller and
-- `SetupWebhookWithManager` of the webhook. Logging is left out.
pub mod Endings
pub mod Started
use kyuubi_operator.Base.{
  ℕ, String, ◌⊎◌, inl, inr, Bool, false, Option, none, some, ◌==◌, if◌then◌else◌,
}
use kyuubi_operator.K8s.Client.{Error}

-- How a piece of the program ends: it goes on with a value, it ends the process by `os.Exit` with a
-- code, or it panics.
pub data Ending (A : Type 0) : Type 0 where
  goes_on : A → Ending A
  exits : ℕ → Ending A
  panics : Ending A

abbrev pub Process : Type 0 → Type 0 → Type 0
Process W A = W → Ending A × W

module _ {W A B : Type 0} where
  abbrev pub continue : Ending A → (A → Process W B) → Process W B
  continue (goes_on a) f w = f a w
  continue (exits n) f w = (exits n, w)
  continue panics f w = (panics, w)

  infixl 10 ◌>>=◌
  abbrev pub ◌>>=◌ : Process W A → (A → Process W B) → Process W B
  ◌>>=◌ m f w = continue (m w).0 f (m w).1

module _ {W B : Type 0} where
  infixl 10 ◌>>◌
  abbrev pub ◌>>◌ : Process W (Unit {0}) → Process W B → Process W B
  m >> n = m >>= λ _. n

-- The variables that `main` binds to flags.
pub record Flags : Type 0 where
  pub metrics_addr : String
  pub probe_addr : String
  pub enable_leader_election : Bool

abbrev pub default_flags : Flags
default_flags = record {
  metrics_addr = ":8080";
  probe_addr = ":8081";
  enable_leader_election = false;
}

-- `ctrl.Options`, with the fields that `main` sets. The scheme is always the one of `init`.
pub record Options : Type 0 where
  pub metrics : String
  pub health_probe_bind_address : String
  pub leader_election : Bool
  pub leader_election_id : String

-- The calls of the libraries, which may change the world. `get_config_or_die` answers `none` where
-- it ends the process with code 1; `parse_flags`, which is `flag.Parse` with the flags that `main` has
-- bound, answers a code where it ends the process with that; other calls answer `none` for a nil error. `complete_controller`
-- is `NewControllerManagedBy(mgr).For(&KyuubiCluster{}).Complete(r)`, for the reconciler `r` with the
-- client and the scheme of the manager, and `complete_webhook` is
-- `NewWebhookManagedBy(mgr).For(r).Complete()`.
pub record Runtime (W : Type 0) : Type 1 where
  pub Config : Type 0
  pub Manager : Type 0
  pub add_client_go_to_scheme : W → Option Error × W
  pub add_kyuubi_to_scheme : W → Option Error × W
  pub parse_flags : Flags → W → (Flags ⊎ ℕ) × W
  pub get_config_or_die : W → Option Config × W
  pub new_manager : Config → Options → W → (Manager ⊎ Error) × W
  pub complete_controller : Manager → W → Option Error × W
  pub complete_webhook : Manager → W → Option Error × W
  pub add_healthz_check : String → Manager → W → Option Error × W
  pub add_readyz_check : String → Manager → W → Option Error × W
  pub start : Manager → W → Option Error × W
  pub getenv : String → String

-- `if err != nil { ...; os.Exit(1) }`
abbrev pub exit_on : Option Error → Ending (Unit {0})
exit_on none = goes_on tt
exit_on (some e) = exits 1

abbrev pub or_exit : {W : Type 0} → (W → Option Error × W) → Process W (Unit {0})
or_exit call w = (exit_on (call w).0, (call w).1)

-- `utilruntime.Must`
abbrev pub panic_on : Option Error → Ending (Unit {0})
panic_on none = goes_on tt
panic_on (some e) = panics

abbrev pub must : {W : Type 0} → (W → Option Error × W) → Process W (Unit {0})
must call w = (panic_on (call w).0, (call w).1)

abbrev pub exit_unless : {A : Type 0} → Option A → Ending A
exit_unless none = exits 1
exit_unless (some a) = goes_on a

abbrev pub value_or_exit : {A : Type 0} → A ⊎ Error → Ending A
value_or_exit (inl a) = goes_on a
value_or_exit (inr e) = exits 1

-- `flag.Parse` on the command line, which ends the process where it cannot go on.
abbrev pub value_or_code : {A : Type 0} → A ⊎ ℕ → Ending A
value_or_code (inl a) = goes_on a
value_or_code (inr n) = exits n

abbrev pub pass : {W : Type 0} → Process W (Unit {0})
pass w = (goes_on tt, w)

module _ {W : Type 0} (R : Runtime W) where
  unfoldable pub init : Process W (Unit {0})
  init = do must R.add_client_go_to_scheme; must R.add_kyuubi_to_scheme

  unfoldable pub setup_with_manager : R.Manager → W → Option Error × W
  setup_with_manager mgr = R.complete_controller mgr

  unfoldable pub setup_webhook_with_manager : R.Manager → W → Option Error × W
  setup_webhook_with_manager mgr = R.complete_webhook mgr

  abbrev pub options_of : Flags → Options
  options_of flags = record {
    metrics = flags.metrics_addr;
    health_probe_bind_address = flags.probe_addr;
    leader_election = flags.enable_leader_election;
    leader_election_id = "4d7dcee9.nineinfra.tech";
  }

  abbrev pub parsed : Process W Flags
  parsed w = (value_or_code (R.parse_flags default_flags w).0, (R.parse_flags default_flags w).1)

  abbrev pub configured : Process W R.Config
  configured w = (exit_unless (R.get_config_or_die w).0, (R.get_config_or_die w).1)

  abbrev pub managed : R.Config → Options → Process W R.Manager
  managed c o w = (value_or_exit (R.new_manager c o w).0, (R.new_manager c o w).1)

  unfoldable pub add_webhook : R.Manager → Process W (Unit {0})
  unfolding setup_webhook_with_manager
  add_webhook mgr =
      if R.getenv "ENABLE_WEBHOOKS" == "false"
      then pass
      else or_exit (setup_webhook_with_manager mgr)

  unfoldable pub main : Process W (Unit {0})
  unfolding setup_with_manager add_webhook
  main = do
    flags ← parsed
    config ← configured
    mgr ← managed config (options_of flags)
    or_exit (setup_with_manager mgr)
    add_webhook mgr
    or_exit (R.add_healthz_check "healthz" mgr)
    or_exit (R.add_readyz_check "readyz" mgr)
    or_exit (R.start mgr)

  -- Go runs `init` before `main`.
  unfoldable pub program : Process W (Unit {0})
  unfolding init main
  program = do init; main
