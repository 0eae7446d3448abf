-- ===== src/RaftApp/Cancel/Refines.antt =====
-- The effect of cancelJob.
use deployd.Prelude.{◌≡◌, refl, none, [], ◌∷◌}
use deployd.Entity.Job.{DeploymentJob, DeploymentJobStatus}
use deployd.RaftApp.Messages.{CancelJobRequest}
use deployd.RaftApp.Runtime.{Runtime, handed_on, first}
use deployd.RaftApp.Lifecycle.{cancel}
use deployd.RaftApp.Effect.{Effect, Loaded, unchanged, advanced}
use deployd.RaftApp.Effect.Rules.{Effect-continue, continue-state, Loaded-first}
use deployd.RaftApp.Cancel.{reply_job, cancel_by_status, cancel_job}

module _ (R : Runtime) where
  reply_job-state : (j : DeploymentJob) (s : R.State) → (reply_job R j s).1 ≡ s
  unfolding reply_job
  reply_job-state j s = continue-state (handed_on (R.marshal_job j)) _ s (λ b. refl)

  -- The status is the job's own, taken out so that the clauses split on it.
  cancel_by_status-Effect :
      (st : DeploymentJobStatus) (j : DeploymentJob) (s : R.State)
      → Loaded R s j
      → j.status ≡ st
      → Effect R s (cancel_by_status R st j s).1
  unfolding cancel_by_status
  cancel_by_status-Effect DeploymentJobStatus.cancelled j s l e = unchanged (reply_job-state j s)
  cancel_by_status-Effect DeploymentJobStatus.success j s l e = unchanged refl
  cancel_by_status-Effect st j s l e =
      advanced j (record j { status = DeploymentJobStatus.cancelled }) l
        (cancel (λ h. cc) (λ h. cc) refl)
        (continue-state
          (handed_on (R.post_job (record j { status = DeploymentJobStatus.cancelled }) none s).0) _
          _ (λ k. reply_job-state k _))

  pub cancel_job-Effect :
      (request : CancelJobRequest) (s : R.State) → Effect R s (cancel_job R request s).1
  unfolding cancel_job
  cancel_job-Effect request s =
      Effect-continue (handed_on (R.get_jobs s request.ns (request.service ∷ []) request.job_id)) _
        λ js e. Effect-continue (first js) _ λ j g.
          cancel_by_status-Effect j.status j s
            (Loaded-first R s request.ns request.service request.job_id js j e g) refl
