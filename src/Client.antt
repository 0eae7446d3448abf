-- ===== src/Client.antt =====
-- The raft client of the job application (internal/src/raft-app/deploy-job/client.go). Publish, which
-- sends a command through raft and returns the reply, is a parameter.
pub mod Cancellation
use deployd.Prelude.{String, false, ◌⊎◌, inl, inr, List, [], ◌∷◌, ◌==◌, if◌then◌else◌}
use deployd.Entity.Job
use deployd.Entity.Job.{SubmitDeploymentJobRequest, DeploymentJob}
use deployd.RaftApp.Messages.{
  CancelJobRequest, ConfigurationUpdateRequest, ConfigurationUpdateResponse, RestartConfirmation,
  HostRestartServiceUpdateResponse, HostRestartConfirmationResponse,
  HostRestartServiceUpdateRequest, SubmitJobResponse,
}
use deployd.RaftApp.Runtime.{Fault}
use deployd.RaftApp.Update.{
  command_user_submit_job, command_user_cancel_job, command_host_configuration_update,
  command_restart_confirmation, command_host_restart_service_update,
}

-- Publish a request and parse the reply; the first error ends the call.
unfoldable pub call :
    {P Bytes A : Type 0}
    → (String → P → Fault ⊎ Bytes)
    → (Bytes → Fault ⊎ A)
    → String
    → P
    → Fault ⊎ A
call publish parse command request = elim (publish command request) [
  | inl e ↦ inl e
  | inr reply ↦ parse reply
]

-- The five methods, over what they publish with and parse with.
module _ {Bytes : Type 0} where
  pub submit_job :
      (String → SubmitDeploymentJobRequest → Fault ⊎ Bytes)
      → (Bytes → Fault ⊎ SubmitJobResponse)
      → SubmitDeploymentJobRequest
      → Fault ⊎ SubmitJobResponse
  unfolding call
  submit_job publish parse = call publish parse command_user_submit_job

  pub cancel_job :
      (String → Job.CancelJobRequest → Fault ⊎ Bytes)
      → (Bytes → Fault ⊎ DeploymentJob)
      → Job.CancelJobRequest
      → Fault ⊎ DeploymentJob
  unfolding call
  cancel_job publish parse = call publish parse command_user_cancel_job

  pub feed_host_configuration_update :
      (String → ConfigurationUpdateRequest → Fault ⊎ Bytes)
      → (Bytes → Fault ⊎ ConfigurationUpdateResponse)
      → ConfigurationUpdateRequest
      → Fault ⊎ ConfigurationUpdateResponse
  unfolding call
  feed_host_configuration_update publish parse =
      call publish parse command_host_configuration_update

  pub confirm_restart_service :
      (String → RestartConfirmation → Fault ⊎ Bytes)
      → (Bytes → Fault ⊎ HostRestartConfirmationResponse)
      → RestartConfirmation
      → Fault ⊎ HostRestartConfirmationResponse
  unfolding call
  confirm_restart_service publish parse = call publish parse command_restart_confirmation

  pub feed_host_restart_service_update :
      (String → HostRestartServiceUpdateRequest → Fault ⊎ Bytes)
      → (Bytes → Fault ⊎ HostRestartServiceUpdateResponse)
      → HostRestartServiceUpdateRequest
      → Fault ⊎ HostRestartServiceUpdateResponse
  unfolding call
  feed_host_restart_service_update publish parse =
      call publish parse command_host_restart_service_update

-- A JSON object of texts. Go's decoder takes a member whose key is the field's, upper and lower case
-- alike, and leaves a field without one at its zero value; both ends here write in lower case.
abbrev pub Object : Type 0
Object = List (String × String)

unfoldable pub text_member : String → Object → String
text_member k [] = ""
text_member k ((j, v) ∷ o) = let rest = text_member k o in if j == k then v else rest

-- How the entity that the HTTP layer publishes is written, by its JSON tags.
unfoldable pub encode_cancel : Job.CancelJobRequest → Object
encode_cancel r = ("namespace", r.ns) ∷ ("id", r.id) ∷ ("service", r.service) ∷ []

-- How app.go reads the command, by the JSON tags of its own CancelJobRequest. The members that are no
-- texts are not written, and stay zero.
unfoldable pub decode_cancel : Object → CancelJobRequest
unfolding text_member
decode_cancel o = record {
  ns = text_member "namespace" o;
  job_id = text_member "job_id" o;
  service = text_member "service" o;
  reason = text_member "reason" o;
  is_believe = false;
  url = text_member "url" o;
  created_at = 0;
}
