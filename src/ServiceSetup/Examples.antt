-- ===== src/ServiceSetup/Examples.antt =====
-- A service with two shards, and one that the API configures.
use deployd.Prelude.{ℕ, String, ◌≡◌, refl, inl, inr, some, none, List, [], ◌∷◌, ◌==◌, if◌then◌else◌}
use deployd.Entity.Raft.{ReplicaConfig}
use deployd.ServiceSetup.{Environment, Clients, initialize_raft}

abbrev replica : String → ℕ → ReplicaConfig
replica id n = record {
  id = id;
  replica_id = n;
  alias = "";
  description = "";
  type = "";
  config = "";
}

abbrev shards : List (ℕ × ReplicaConfig)
shards = (1, replica "a" 7) ∷ (2, replica "b" 8) ∷ []

abbrev environment : Environment
environment name = if name == "DEPLOYD_API" then "http://api" else ""

abbrev clients : Clients
clients = record {
  get_hosts = λ api auth ns host. inl "refused";
  get_raft_hosts = λ api auth ns service. inr [];
  get_raft_replicas = λ api auth ns service. inr [];
}

-- With the API the raft library is not started.
initialize_raft_test :
    initialize_raft (λ (n : ℕ). (none, 1)) environment clients 0
    ≡ (some "deployd API (host config): refused", 0)
unfolding initialize_raft
initialize_raft_test = refl
