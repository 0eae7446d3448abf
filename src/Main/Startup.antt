-- ===== src/Main/Startup.antt =====
-- main (cmd/deployd/main.go), from the reading of the configuration to the entry of the host; what goes
-- on from there is Shutdown. The libraries, the file system and viper are parameters.
pub mod Ends
use deployd.Prelude.{
  ℕ, String, Bool, true, false, ◌≡◌, ◌⊎◌, inl, inr, Option, none, some, List, [], ◌∷◌, ◌==◌,
  Outcome, ok, err, panic, nil_dereference, if◌then◌else◌, ◌>>=◌, ◌>>◌, continue,
}
use deployd.Entity.Host.{Host}
use deployd.ServiceSetup.{
  Environment, Clients, Secrets, not_configured, initialize_raft, inject_secret_to_viper,
}
use deployd.Main.Setup.{
  Fault, Usecase, Process, Exit, log_panic, log_fatal, still_waiting, Libraries, Start,
}
use deployd.Main.Steps.{checked, call_library}
use deployd.Main.Modules.{enable_modules}
use deployd.Main.HostInformation.{post_host}

-- What main calls besides: the environment, the file of the configuration, the secrets, the raft
-- library, and the post of a host.
pub record Surroundings (S File Settings : Type 0) : Type 0 where
  pub env : Environment
  pub open_config : String → Fault ⊎ File
  pub read_config : File → S → Option Fault × S
  pub secrets : Secrets S File Settings
  pub clients : Clients
  pub raft_init : S → Option Fault × S
  pub post : Usecase → Host → S → Option Fault × S
  pub is_not_ready : Fault → Bool

module _ {S File Settings : Type 0} (L : Libraries S) (C : Surroundings S File Settings) where
  abbrev read_file : Fault ⊎ File → Start S Unit
  read_file (inl f) p = (err (log_fatal f), p)
  read_file (inr file) p = call_library log_fatal (C.read_config file) p

  unfoldable pub init_config : Start S Unit
  init_config = read_file (C.open_config (C.env "CONFIG"))

  -- An environment without secrets is allowed.
  abbrev tolerated : Option Fault × S → Process S → Outcome Exit Unit × Process S
  tolerated (none, s) p = (ok tt, record p { world = s })
  tolerated (some f, s) p =
      if f == not_configured
      then (ok tt, record p { world = s })
      else (err (log_panic f), record p { world = s })

  unfoldable pub inject_secret : Start S Unit
  unfolding inject_secret_to_viper
  inject_secret p = tolerated (inject_secret_to_viper C.secrets C.env p.world) p

  abbrev ended : Option (Option Fault) × S → Process S → Outcome Exit (Option Fault) × Process S
  ended (none, s) p = (err still_waiting, record p { world = s })
  ended (some r, s) p = (ok r, record p { world = s })

  -- The handler's method on a nil pointer panics.
  abbrev post_to : ℕ → Host → Option Usecase → Process S → Outcome Exit (Option Fault) × Process S
  post_to fuel host none p = (panic nil_dereference, p)
  post_to fuel host (some u) p = ended (post_host (C.post u host) C.is_not_ready fuel p.world) p

  unfoldable pub init_host_information : ℕ → Host → Start S (Option Fault)
  unfolding post_host
  init_host_information fuel host p = post_to fuel host p.globals.usecases.host_config_usecase p

  -- The start, which returns the error of the host's entry: it is logged only.
  unfoldable pub start : ℕ → Host → Start S (Option Fault)
  unfolding init_config inject_secret init_host_information enable_modules initialize_raft
  start fuel host = do
    init_config
    inject_secret
    call_library log_panic (initialize_raft C.raft_init C.env C.clients)
    enable_modules L host
    init_host_information fuel host
