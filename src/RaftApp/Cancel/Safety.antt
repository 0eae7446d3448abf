-- ===== src/RaftApp/Cancel/Safety.antt =====
-- cancelJob panics on an empty answer, and on nothing else.
use deployd.Prelude.{◌≡◌, ◌≢◌, none, inr, List, [], ◌∷◌, panic, index_out_of_range}
use deployd.Entity.Job.{DeploymentJob, DeploymentJobStatus}
use deployd.RaftApp.Messages.{CancelJobRequest}
use deployd.RaftApp.Runtime.{Runtime, handed_on, first}
use deployd.RaftApp.Safe.{
  Safe, Safe-ok, Safe-err, Safe-handed_on, Safe-continue, Safe-store_job, Safe-reply,
}
use deployd.RaftApp.Effect.Rules.{handed_on-ok}
use deployd.RaftApp.Cancel.{reply_job, cancel_by_status, cancel_job}

module _ (R : Runtime) where
  reply_job-Safe : (j : DeploymentJob) (s : R.State) → Safe (reply_job R j s).0
  unfolding reply_job
  reply_job-Safe j s = Safe-reply R (R.marshal_job j) _ s

  cancel_by_status-Safe :
      (st : DeploymentJobStatus) (j : DeploymentJob) (s : R.State)
      → Safe (cancel_by_status R st j s).0
  unfolding cancel_by_status
  cancel_by_status-Safe DeploymentJobStatus.cancelled j s = reply_job-Safe j s
  cancel_by_status-Safe DeploymentJobStatus.success j s = Safe-err _
  cancel_by_status-Safe st j s =
      Safe-store_job R (record j { status = DeploymentJobStatus.cancelled }) none _ s
        λ k t _. reply_job-Safe k t

  -- The answer to the request's query is not an empty list.
  pub cancel_job-Safe :
      (request : CancelJobRequest) (s : R.State)
      → R.get_jobs s request.ns (request.service ∷ []) request.job_id ≢ inr []
      → Safe (cancel_job R request s).0
  unfolding cancel_job
  cancel_job-Safe request s some_job =
      Safe-continue (handed_on (R.get_jobs s request.ns (request.service ∷ []) request.job_id)) _ s
        (Safe-handed_on _)
        λ js e.
          Safe-continue (first js) _ s (first-Safe js (handed_on-ok _ js e))
            λ j _. cancel_by_status-Safe j.status j s
    where
      first-Safe :
          (js : List DeploymentJob)
          → R.get_jobs s request.ns (request.service ∷ []) request.job_id ≡ inr js
          → Safe (first js)
      first-Safe [] e = absurd (some_job e)
      first-Safe (j ∷ js) e = Safe-ok j

  -- Where the answer is an empty list, the command panics.
  pub cancel_job_panics :
      (request : CancelJobRequest) (s : R.State)
      → R.get_jobs s request.ns (request.service ∷ []) request.job_id ≡ inr []
      → cancel_job R request s ≡ (panic index_out_of_range, s)
  unfolding cancel_job
  cancel_job_panics request s e = rw e
