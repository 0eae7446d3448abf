-- ===== src/ServiceSetup.antt =====
-- The library that a deployed service calls at its start (src/deployd/raft.go and secret.go): its raft
-- replicas and its secrets. The clients of the deployd API, the raft library, the file system and viper
-- are parameters.
mod Examples
use deployd.Prelude.{
  ℕ, String, ◌<>◌, Bool, false, ◌≡◌, refl, ◌⊎◌, inl, inr, Option, none, some, List, [], ◌∷◌, ◌==◌,
  nat_beq, arith, if◌then◌else◌,
}
use deployd.Entity.Host.{Host}
use deployd.Entity.Raft.{RaftHost, RaftReplica, ReplicaConfig}

abbrev pub Fault : Type 0
Fault = String

-- os.Getenv
abbrev pub Environment : Type 0
Environment = String → String

-- The three clients of useDeployd, over a URL and an authorization: Get by namespace and id.
pub record Clients : Type 0 where
  pub get_hosts : String → String → String → String → Fault ⊎ List Host
  pub get_raft_hosts : String → String → String → String → Fault ⊎ List RaftHost
  pub get_raft_replicas : String → String → String → String → Fault ⊎ List RaftReplica

abbrev wrapped : {A : Type 0} → String → String → Fault ⊎ List A → Option Fault → Option Fault
wrapped what api (inl f) rest = some ("deployd API " <> (what <> (": " <> f)))
wrapped what api (inr []) rest = some (api <> (what <> ": empty configuration"))
wrapped what api (inr (a ∷ more)) rest = rest

-- useDeployd: three questions, and what is done with the answers is commented out.
unfoldable pub use_deployd : Clients → String → String → String → String → String → Option Fault
use_deployd clients api auth namespace host service =
    wrapped "(host config)" "deployd API  " (clients.get_hosts api auth namespace host) (
      wrapped "(raft host config)" "deployd API "
        (clients.get_raft_hosts api auth namespace service)
        (wrapped "(raft replica config)" "deployd API "
          (clients.get_raft_replicas api auth namespace service) none))

module _ {S : Type 0} (raft_init : S → Option Fault × S) where
  -- InitializeRaft
  unfoldable pub initialize_raft : Environment → Clients → S → Option Fault × S
  unfolding use_deployd
  initialize_raft env clients s =
      let api = env "DEPLOYD_API" in
      if api == "" then raft_init s else (
        use_deployd clients api (env "DEPLOYD_API_AUTH") (env "DEPLOYD_NAMESPACE")
            (env "DEPLOYD_HOST") (env "DEPLOYD_SERVICE"),
        s,
      )

  -- InitializeRaftOld, over the start from a file.
  unfoldable pub initialize_raft_old :
      (String → S → Option Fault × S) → Environment → S → Option Fault × S
  initialize_raft_old init_with_config_file env s =
      let path = env "DEPLOYD_RAFT" in
      if env "DEPLOYD_RAFT_CONFIG" == ""
      then raft_init s
      else if path == ""
      then raft_init s
      else init_with_config_file path s

-- The configuration of a replica of the raft library.
pub record DgReplicaConfig : Type 0 where
  pub shard_id : ℕ
  pub replica_id : ℕ
  pub bootstrap : Bool

-- A map by shard is a list of pairs with distinct shards, read from the front.
pub lookup_shard : {A : Type 0} → ℕ → List (ℕ × A) → Option A
lookup_shard k [] = none
lookup_shard k ((j, a) ∷ l) = let rest = lookup_shard k l in if nat_beq j k then some a else rest

abbrev dg_replica : ℕ → ReplicaConfig → DgReplicaConfig
dg_replica shard r = record { shard_id = shard; replica_id = r.replica_id; bootstrap = false }

-- convertToDGReplica
unfoldable pub convert_to_dg_replica : List (ℕ × ReplicaConfig) → List (ℕ × DgReplicaConfig)
convert_to_dg_replica [] = []
convert_to_dg_replica ((shard, r) ∷ replica) =
    (shard, dg_replica shard r) ∷ convert_to_dg_replica replica

abbrev pub converted : ℕ → Option ReplicaConfig → Option DgReplicaConfig
converted shard none = none
converted shard (some r) = some (dg_replica shard r)

-- For every shard the raft library gets a replica exactly where the configuration has one, with the
-- shard's number and the replica's, and never to bootstrap.
pub convert_to_dg_replica-lookup :
    (shard : ℕ) (replica : List (ℕ × ReplicaConfig))
    → lookup_shard shard (convert_to_dg_replica replica)
      ≡ converted shard (lookup_shard shard replica)
unfolding lookup_shard convert_to_dg_replica
convert_to_dg_replica-lookup shard [] = refl
convert_to_dg_replica-lookup shard ((k, r) ∷ replica) =
    ground (arith, convert_to_dg_replica-lookup shard replica)

abbrev empty_replica : RaftReplica
empty_replica = record {
  id = "";
  ns = "";
  service_id = "";
  replica_config = [];
  published_at = 0;
  url = "";
}

-- The client of the replicas at one URL, and the raft library.
pub record Replicas (S : Type 0) : Type 0 where
  pub get : S → String → String → Fault ⊎ List RaftReplica
  pub post : RaftReplica → S → Option Fault × S
  pub configure : List (ℕ × DgReplicaConfig) → S → S

module _ {S : Type 0} (C : Replicas S) where
  abbrev configured : List RaftReplica → List (ℕ × ReplicaConfig) → S → Option Fault × S
  configured (remote ∷ []) replica s =
      (none, C.configure (convert_to_dg_replica remote.replica_config) s)
  configured _ replica s = C.post empty_replica (C.configure (convert_to_dg_replica replica) s)

  abbrev with_remote : Fault ⊎ List RaftReplica → List (ℕ × ReplicaConfig) → S → Option Fault × S
  with_remote (inl f) replica s = (some f, s)
  with_remote (inr remote) replica s = configured remote replica s

  -- configureReplica: what is posted is an empty configuration, not the one that was used.
  pub configure_replica : String → String → List (ℕ × ReplicaConfig) → S → Option Fault × S
  unfolding convert_to_dg_replica
  configure_replica namespace service_id replica s =
      with_remote (C.get s namespace service_id) replica s

-- secret.go, over a viper `V`: the file, the parse of its YAML, and the merge of all settings.
pub record Secrets (V File Settings : Type 0) : Type 0 where
  pub open_file : String → Fault ⊎ File
  pub read_config : File → Fault ⊎ Settings
  pub merge : Settings → V → Option Fault × V

abbrev pub not_configured : Fault
not_configured = "not configured"

module _ {V File Settings : Type 0} (D : Secrets V File Settings) where
  abbrev merged : Fault ⊎ Settings → V → Option Fault × V
  merged (inl f) v = (some ("deployd read secret file: " <> f), v)
  merged (inr settings) v = D.merge settings v

  abbrev read_file : Fault ⊎ File → V → Option Fault × V
  read_file (inl f) v = (some ("deployd open secret file: " <> f), v)
  read_file (inr file) v = merged (D.read_config file) v

  -- InjectSecretToViper
  unfoldable pub inject_secret_to_viper : Environment → V → Option Fault × V
  inject_secret_to_viper env v =
      let path = env "DEPLOYD_SECRET" in
      if path == "" then (some not_configured, v) else read_file (D.open_file path) v
