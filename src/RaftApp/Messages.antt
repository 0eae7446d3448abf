-- ===== src/RaftApp/Messages.antt =====
-- internal/src/raft-app/deploy-job/interface.go, and the response of a submission (client.go).
use deployd.Prelude.{ℕ, String, Bool, Option}
use deployd.Prelude.Int.{ℤ}
use deployd.Entity.Job.{DeploymentJob, HostConfigurationStatus, HostDeploymentStatus}

pub record CancelJobRequest : Type 0 where
  pub ns : String
  pub job_id : String
  pub service : String
  pub reason : String
  pub is_believe : Bool
  pub url : String
  pub created_at : ℕ

pub record ConfigurationUpdateRequest : Type 0 where
  pub ns : String
  pub job_id : String
  pub service : String
  pub host_name : String
  pub status : HostConfigurationStatus
  pub error_message : Option String
  pub url : String
  pub updated_at : ℕ

pub record ConfigurationUpdateResponse : Type 0 where
  pub confirm_immediately : Bool
  pub trigger_host : String
  pub job : DeploymentJob

pub record RestartConfirmation : Type 0 where
  pub ns : String
  pub job_id : String
  pub service : String
  pub host : String
  pub message : String
  pub agent : String
  pub url : String
  pub created_at : ℕ

pub record HostRestartServiceUpdateResponse : Type 0 where
  pub step : ℤ
  pub target_host : String
  pub job : DeploymentJob
  pub trigger_host : String
  pub deploy_immediately : Bool
  pub failed : Bool
  pub fail_reason : Option String

pub record HostRestartConfirmationResponse : Type 0 where
  pub step : ℤ
  pub target_host : String
  pub job : DeploymentJob
  pub trigger_host : String
  pub message : String

pub record HostRestartServiceUpdateRequest : Type 0 where
  pub ns : String
  pub job_id : String
  pub service : String
  pub host_name : String
  pub status : HostDeploymentStatus
  pub error_message : Option String
  pub order : Option ℤ
  pub url : String
  pub updated_at : ℕ

pub data SubmitJobStatus : Type 0 where
  need_retry success : SubmitJobStatus

pub record SubmitJobResponse : Type 0 where
  pub submit_job_status : SubmitJobStatus
  pub job : DeploymentJob

-- What is broadcast on the job topic, by its Go type. `progress` is the response itself, which the
-- source broadcasts for a status that is neither a success nor a failure.
pub data Event : Type 0 where
  deployment_job_created : SubmitJobResponse → Event
  all_host_configured host_configured : ConfigurationUpdateResponse → Event
  service_restarted all_service_restarted deployment_failed progress :
      HostRestartServiceUpdateResponse → Event
  restart_confirmed : HostRestartConfirmationResponse → Event
  deployment_job_cancelled : DeploymentJob → Event
