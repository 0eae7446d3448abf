-- ===== src/RaftApp/Cancel.antt =====
-- cancelJob of app.go.
pub mod Refines
pub mod Safety
use deployd.Prelude.{none, [], pure, raise, lift, ◌>>=◌}
use deployd.Entity.Job.{DeploymentJob, DeploymentJobStatus}
use deployd.RaftApp.Messages.{CancelJobRequest}
use deployd.RaftApp.Runtime.{
  Runtime, already_finished, Handler, handed_on, first, load_jobs, store_job,
}

module _ (R : Runtime) where
  -- The reply that carries a job and broadcasts nothing.
  reply_job : DeploymentJob → Handler R
  reply_job job = do
    enc_result ← lift (handed_on (R.marshal_job job))
    pure (record { broadcasts = []; value = 0; payload = enc_result })

  -- The `switch` on the previous status, and what follows it.
  cancel_by_status : DeploymentJobStatus → DeploymentJob → Handler R
  unfolding reply_job
  cancel_by_status DeploymentJobStatus.cancelled previous_job = reply_job previous_job
  cancel_by_status DeploymentJobStatus.success previous_job = raise already_finished
  cancel_by_status _ previous_job = do
    updated_job ← store_job R (record previous_job { status = DeploymentJobStatus.cancelled }) none
    reply_job updated_job

  unfoldable pub cancel_job : CancelJobRequest → Handler R
  unfolding cancel_by_status
  cancel_job request = do
    previous_jobs ← load_jobs R request.ns request.service request.job_id
    previous_job ← lift (first previous_jobs)
    cancel_by_status previous_job.status previous_job
