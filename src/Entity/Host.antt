-- ===== src/Entity/Host.antt =====
-- src/entity/deployd_config.go
use deployd.Prelude.{ℕ, String, none, []}
use deployd.Entity.Content.{Content}

pub record DeploydRaftConfig : Type 0 where
  pub replica_id : ℕ
  pub wal_dir : String
  pub node_host_dir : String

pub record Host : Type 0 where
  pub ns : String
  pub host : String
  pub architecture : String
  pub os : String
  pub raft_config : DeploydRaftConfig
  pub fqdn : String
  pub published_at : ℕ
  pub url : String

abbrev pub host_content : Content Host
host_content = record {
  created_time = λ a. a.published_at;
  id = λ a. a.host;
  namespace = λ a. a.ns;
  ref_ids = λ _. [];
  url = λ a. a.url;
  validate = λ _. none;
  with_created_time = λ t a. record a { published_at = t };
  with_id = λ i a. record a { host = i };
  with_namespace = λ i a. record a { ns = i };
  with_url = λ u a. record a { url = u };
}
