-- ===== src/Examples/Fixtures.antt =====
-- Test data: a service on one host, and the requests of its deployment.
use deployd.Prelude.{ℕ, none, some, List, [], ◌∷◌}
use deployd.Prelude.GoMap.{table}
use deployd.Entity.Host.{Host}
use deployd.Entity.Service.{ServiceDefinition}
use deployd.Entity.Job.{
  DeploymentJob, DeploymentJobStatus, SubmitDeploymentJobRequest, HostConfigurationStatus,
  HostConfigurationStatusInfo, HostDeploymentStatus, HostDeploymentStatusInfo, no_job, no_request,
  no_service,
}
use deployd.RaftApp.Messages.{
  ConfigurationUpdateRequest, RestartConfirmation, HostRestartServiceUpdateRequest,
}
use deployd.RaftApp.Runtime.{Entry}
use deployd.RaftApp.Memory.{Json, submit, configuration, confirmation, progress}

abbrev pub host_a : Host
host_a = record {
  ns = "ns";
  host = "a";
  architecture = "amd64";
  os = "linux";
  raft_config = record { replica_id = 1; wal_dir = "/wal"; node_host_dir = "/node" };
  fqdn = "a.local";
  published_at = 0;
  url = "";
}

abbrev pub service : ServiceDefinition
service = record no_service { ns = "ns"; id = "svc"; executable_path = "bin/svc" }

abbrev pub request : SubmitDeploymentJobRequest
request = record no_request {
  ns = "ns";
  service = service;
  build_version = 7;
  env_version = 3;
  target_hosts = some host_a ∷ [];
}

-- A submission whose only target host is null.
abbrev pub null_request : SubmitDeploymentJobRequest
null_request = record request { target_hosts = none ∷ [] }

abbrev pub configured_report : ConfigurationUpdateRequest
configured_report = record {
  ns = "ns";
  job_id = "1";
  service = "svc";
  host_name = "a";
  status = HostConfigurationStatus.success;
  error_message = none;
  url = "";
  updated_at = 1;
}

abbrev pub go_ahead : RestartConfirmation
go_ahead = record {
  ns = "ns";
  job_id = "1";
  service = "svc";
  host = "";
  message = "LGTM";
  agent = "user";
  url = "";
  created_at = 2;
}

abbrev pub restarted_report : HostRestartServiceUpdateRequest
restarted_report = record {
  ns = "ns";
  job_id = "1";
  service = "svc";
  host_name = "a";
  status = HostDeploymentStatus.success;
  error_message = none;
  order = none;
  url = "";
  updated_at = 3;
}

-- The log of one deployment, from the submission to the report of the last host.
abbrev pub deployment_log : List (ℕ × Entry Json)
deployment_log =
    (5, record { command = "deployd.user.submit-job"; value = submit request })
    ∷ (
      1,
      record {
        command = "deployd.host.configuration-update";
        value = configuration configured_report;
      },
    )
    ∷ (2, record { command = "deployd.restart-confirmation"; value = confirmation go_ahead })
    ∷ (
      9,
      record { command = "deployd.host.restart-service-update"; value = progress restarted_report },
    )
    ∷ []

abbrev pub configured_info : HostConfigurationStatusInfo
configured_info = record { status = HostConfigurationStatus.success; error_message = none }

abbrev pub info : HostDeploymentStatus → HostDeploymentStatusInfo
info status = record { status = status; error_message = none }

-- The job that the log leaves.
abbrev pub deployed_job : DeploymentJob
deployed_job = record no_job {
  ns = "ns";
  id = "1";
  status = DeploymentJobStatus.deployed;
  request = request;
  deployment = record {
    confirmed_by = "user";
    current_order = some 1;
    host_order = "a" ∷ [];
    status = table (("a", info HostDeploymentStatus.success) ∷ []);
  };
  configuration = record { status = table (("a", configured_info) ∷ []) };
}
