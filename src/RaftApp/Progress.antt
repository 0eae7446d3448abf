-- ===== src/RaftApp/Progress.antt =====
-- hostRestartServiceUpdate of app.go: a host reports on the restart of its service.
pub mod Refines
pub mod Safety
pub mod Turns
pub mod Rollout
pub mod Duplicates
use deployd.Prelude.{
  ℕ, String, Bool, true, false, not, none, some, [], ◌∷◌, get_elem?, ◌==◌, if◌then◌else◌, pure,
  guard, lift, ◌>>=◌, ◌>>◌,
}
use deployd.Prelude.GoMap.{GoMap, insert, len}
use deployd.Prelude.Int.{pos, to_int, uint_incr, lt_len}
use deployd.Entity.Job.{
  DeploymentJob, DeploymentJobStatus, HostDeploymentStatusInfo, no_job, is_deploying, host_failed,
  host_succeeded,
}
use deployd.RaftApp.Messages.{
  HostRestartServiceUpdateRequest, HostRestartServiceUpdateResponse, service_restarted,
  all_service_restarted, deployment_failed, progress,
}
use deployd.RaftApp.Runtime.{
  Runtime, invalid_state, not_on_deployment, Handler, handed_on, deref, elem_or_panic, exactly_one,
  load_jobs, store_job,
}

-- A response on a job; its step and target are never set.
abbrev response_on : DeploymentJob → String → Bool → HostRestartServiceUpdateResponse
response_on job host at_once = record {
  step = pos 0;
  target_host = "";
  job = job;
  trigger_host = host;
  deploy_immediately = at_once;
  failed = false;
  fail_reason = none;
}

-- The job with the host's deployment status written.
abbrev pub with_deployment_status : DeploymentJob → GoMap HostDeploymentStatusInfo → DeploymentJob
with_deployment_status job status = record job {
  deployment = record job.deployment { status = status };
}

-- The job with its place in the host order set.
abbrev pub with_order : DeploymentJob → ℕ → DeploymentJob
with_order job order = record job {
  deployment = record job.deployment { current_order = some order };
}

module _ (R : Runtime) where
  -- If one fails, the whole job fails.
  fail_job : HostRestartServiceUpdateRequest → DeploymentJob → Handler R
  fail_job request job = do
    job' ← store_job R (record job { status = DeploymentJobStatus.failed }) none
    let resp : HostRestartServiceUpdateResponse = record (response_on no_job "" false) {
      failed = true;
      fail_reason = request.error_message;
    }
    enc_result ← lift (handed_on (R.marshal_restart resp))
    pure (record { broadcasts = deployment_failed resp ∷ []; value = 0; payload = enc_result })

  -- A status on the way is only written.
  note_status : HostRestartServiceUpdateRequest → DeploymentJob → Handler R
  note_status request job = do
    job' ← store_job R job none
    let resp = response_on job' request.host_name false
    enc_result ← lift (handed_on (R.marshal_restart resp))
    pure (record { broadcasts = progress resp ∷ []; value = 0; payload = enc_result })

  -- All restarts are done.
  pub finish_deployment : HostRestartServiceUpdateRequest → DeploymentJob → Handler R
  finish_deployment request job = do
    job' ← store_job R (record job { status = DeploymentJobStatus.deployed }) none
    let resp = response_on job' request.host_name false
    enc_result ← lift (handed_on (R.marshal_restart resp))
    pure (record {
      broadcasts = service_restarted resp ∷ all_service_restarted resp ∷ [];
      value = 0;
      payload = enc_result;
    })

  -- The next host waits for its confirmation. The payload is the job, not the response.
  pub continue_deployment : HostRestartServiceUpdateRequest → DeploymentJob → Handler R
  continue_deployment request job = do
    job' ← store_job R job none
    let resp = response_on job' request.host_name job'.request.is_believe
    enc_result ← lift (handed_on (R.marshal_job job'))
    pure (record { broadcasts = service_restarted resp ∷ []; value = 0; payload = enc_result })

  -- What follows once the status is written; `order` is *job.Deployment.CurrentOrder.
  pub by_reported_status :
      HostRestartServiceUpdateRequest
      → ℕ
      → GoMap HostDeploymentStatusInfo
      → DeploymentJob
      → Handler R
  by_reported_status request order status job =
      if host_failed request.status
      then fail_job request job
      else if not (host_succeeded request.status)
      then note_status request job
      else if not (lt_len (to_int (uint_incr order)) (len status))
      then finish_deployment request (with_order job (uint_incr order))
      else continue_deployment request (with_order job (uint_incr order))

  unfoldable pub host_restart_service_update : HostRestartServiceUpdateRequest → Handler R
  unfolding by_reported_status fail_job note_status finish_deployment continue_deployment
  host_restart_service_update request = do
    jobs ← load_jobs R request.ns request.service request.job_id
    job ← lift (exactly_one jobs)
    guard (is_deploying job.status) invalid_state
    order ← lift (deref job.deployment.current_order)
    host_on_progress ← lift (elem_or_panic (get_elem? job.deployment.host_order order))
    guard (host_on_progress == request.host_name)
        (not_on_deployment request.host_name host_on_progress)
    status ← lift (
        insert request.host_name
          (record { status = request.status; error_message = request.error_message })
          job.deployment.status)
    by_reported_status request order status (with_deployment_status job status)
