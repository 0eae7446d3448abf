-- ===== src/Entity/Job.antt =====
-- src/entity/deployment_job.go and src/entity/deplyoment_job_request.go
use deployd.Prelude.{ℕ, String, Bool, true, false, Option, none, List, [], ◌∷◌}
use deployd.Prelude.GoMap.{GoMap, nil}
use deployd.Entity.Content.{Content}
use deployd.Entity.Host.{Host}
use deployd.Entity.Service.{ServiceDefinition}

-- The three status types are strings with named constants; any other string may come in from JSON.
pub data DeploymentJobStatus : Type 0 where
  queued configuring configured deploying deployed success cancelled time_out failed :
      DeploymentJobStatus
  other : String → DeploymentJobStatus

pub data HostDeploymentStatus : Type 0 where
  pending starting drain_traffic restarting wait_ready routing_traffic success failed time_out :
      HostDeploymentStatus
  other : String → HostDeploymentStatus

pub data HostConfigurationStatus : Type 0 where
  pending configuring success failed cancelled time_out : HostConfigurationStatus
  other : String → HostConfigurationStatus

pub record SubmitDeploymentJobRequest : Type 0 where
  pub ns : String
  pub service : ServiceDefinition
  pub id : String
  pub build_version : ℕ
  pub secret_version : ℕ
  pub env_version : ℕ
  pub raft_config_version : ℕ
  pub raft_config_replica_version : ℕ
  pub modify_key : Option String
  pub target_hosts : List (Option Host)  -- []*Host
  pub timeout_seconds : Option ℕ
  pub is_believe : Bool
  pub url : String
  pub published_at : ℕ

-- The request that the HTTP layer publishes to cancel a job.
pub record CancelJobRequest : Type 0 where
  pub ns : String
  pub id : String
  pub service : String

pub record HostDeploymentStatusInfo : Type 0 where
  pub error_message : Option String
  pub status : HostDeploymentStatus

pub record HostConfigurationStatusInfo : Type 0 where
  pub error_message : Option String
  pub status : HostConfigurationStatus

pub record Configuration : Type 0 where
  pub status : GoMap HostConfigurationStatusInfo

-- `current_order` is a *uint.
pub record Deployment : Type 0 where
  pub confirmed_by : String
  pub current_order : Option ℕ
  pub host_order : List String
  pub status : GoMap HostDeploymentStatusInfo

pub record DeploymentJob : Type 0 where
  pub ns : String
  pub status : DeploymentJobStatus
  pub id : String
  pub request : SubmitDeploymentJobRequest
  pub deployment : Deployment
  pub configuration : Configuration
  pub url : String
  pub published_at : ℕ

pub record HostDeploymentJob : Type 0 where
  pub job : Option DeploymentJob
  pub status : HostDeploymentStatus

abbrev pub job_content : Content DeploymentJob
job_content = record {
  created_time = λ d. d.published_at;
  id = λ d. d.id;
  namespace = λ d. d.ns;
  ref_ids = λ d. d.request.service.id ∷ [];
  url = λ d. d.url;
  validate = λ _. none;
  with_created_time = λ t d. record d { published_at = t };
  with_id = λ i d. record d { id = i };
  with_namespace = λ i d. record d { ns = i };
  with_url = λ u d. record d { url = u };
}

-- The comparisons with a constant that the source makes.
abbrev pub is_cancelled : DeploymentJobStatus → Bool
is_cancelled cancelled = true
is_cancelled _ = false

abbrev pub is_finished : DeploymentJobStatus → Bool
is_finished success = true
is_finished _ = false

abbrev pub is_configured : DeploymentJobStatus → Bool
is_configured configured = true
is_configured _ = false

abbrev pub is_deploying : DeploymentJobStatus → Bool
is_deploying deploying = true
is_deploying _ = false

abbrev pub is_deployed : DeploymentJobStatus → Bool
is_deployed deployed = true
is_deployed _ = false

abbrev pub host_configured : HostConfigurationStatus → Bool
host_configured success = true
host_configured _ = false

abbrev pub host_failed : HostDeploymentStatus → Bool
host_failed failed = true
host_failed _ = false

abbrev pub host_succeeded : HostDeploymentStatus → Bool
host_succeeded success = true
host_succeeded _ = false

-- Go's zero values.
abbrev pub no_service : ServiceDefinition
no_service = record {
  ns = "";
  id = "";
  name = "";
  description = "";
  repository = record { url = ""; ns = ""; id = "" };
  executable_path = "";
  bound_addresses = [];
  published_at = 0;
  url = "";
}

abbrev pub no_request : SubmitDeploymentJobRequest
no_request = record {
  ns = "";
  service = no_service;
  id = "";
  build_version = 0;
  secret_version = 0;
  env_version = 0;
  raft_config_version = 0;
  raft_config_replica_version = 0;
  modify_key = none;
  target_hosts = [];
  timeout_seconds = none;
  is_believe = false;
  url = "";
  published_at = 0;
}

abbrev pub no_job : DeploymentJob
no_job = record {
  ns = "";
  status = other "";
  id = "";
  request = no_request;
  deployment = record { confirmed_by = ""; current_order = none; host_order = []; status = nil };
  configuration = record { status = nil };
  url = "";
  published_at = 0;
}
