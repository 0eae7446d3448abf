-- ===== src/Entity/Instance.antt =====
-- src/entity/deployd_service_deployment.go
use deployd.Prelude.{ℕ, String, Option, none, [], ◌∷◌}
use deployd.Entity.Content.{Content}
use deployd.Entity.Job.{HostDeploymentJob}

pub record RaftConfig : Type 0 where
  pub raft_port : ℕ  -- uint16
  pub replica_id : ℕ
  pub raft_wal_dir : String
  pub node_host_dir : String
  pub rtt_millisecond : ℕ
  pub deployment_id : ℕ

pub record ServiceInstanceHost : Type 0 where
  pub ns : String
  pub service : String
  pub host : String
  pub raft_config : Option RaftConfig
  pub active_deployment : Option HostDeploymentJob
  pub latest_deployment : Option HostDeploymentJob
  pub published_at : ℕ
  pub url : String

abbrev pub instance_content : Content ServiceInstanceHost
instance_content = record {
  created_time = λ a. a.published_at;
  id = λ a. a.host;
  namespace = λ a. a.ns;
  ref_ids = λ a. a.service ∷ [];
  url = λ a. a.url;
  validate = λ _. none;
  with_created_time = λ t a. record a { published_at = t };
  with_id = λ i a. record a { host = i };
  with_namespace = λ i a. record a { ns = i };
  with_url = λ u a. record a { url = u };
}
