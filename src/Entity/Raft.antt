-- ===== src/Entity/Raft.antt =====
-- src/entity/deployd_raft_host.go and src/entity/deployd_raft_replica.go. Raw JSON is its text; the
-- map from shard numbers is a list of pairs.
use deployd.Prelude.{ℕ, String, none, List, [], ◌∷◌}
use deployd.Entity.Content.{Content}

pub record RaftHost : Type 0 where
  pub id : String
  pub ns : String
  pub service_id : String
  pub replica_id : ℕ
  pub raft_address : String
  pub wal_dir : String
  pub node_host_dir : String
  pub rtt_millisecond : ℕ
  pub deployment_id : ℕ
  pub published_at : ℕ
  pub url : String

abbrev pub raft_host_content : Content RaftHost
raft_host_content = record {
  created_time = λ a. a.published_at;
  id = λ a. a.id;
  namespace = λ a. a.ns;
  ref_ids = λ a. a.id ∷ [];
  url = λ a. a.url;
  validate = λ _. none;
  with_created_time = λ t a. record a { published_at = t };
  with_id = λ i a. record a { id = i };
  with_namespace = λ i a. record a { ns = i };
  with_url = λ u a. record a { url = u };
}

pub record ReplicaConfig : Type 0 where
  pub id : String
  pub replica_id : ℕ
  pub alias : String
  pub description : String
  pub type : String
  pub config : String

pub record RaftReplica : Type 0 where
  pub id : String
  pub ns : String
  pub service_id : String
  pub replica_config : List (ℕ × ReplicaConfig)
  pub published_at : ℕ
  pub url : String

abbrev pub raft_replica_content : Content RaftReplica
raft_replica_content = record {
  created_time = λ a. a.published_at;
  id = λ a. a.id;
  namespace = λ a. a.ns;
  ref_ids = λ a. a.id ∷ [];
  url = λ a. a.url;
  validate = λ _. none;
  with_created_time = λ t a. record a { published_at = t };
  with_id = λ i a. record a { id = i };
  with_namespace = λ i a. record a { ns = i };
  with_url = λ u a. record a { url = u };
}
