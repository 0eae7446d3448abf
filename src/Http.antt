-- ===== src/Http.antt =====
-- The HTTP handlers of the job application (internal/src/deploy-job/integration_http.go). The stores that
-- they read and the raft client are parameters; the client runs on a state that it changes.
pub mod Submission
pub mod Cancelling
mod Examples
use deployd.Prelude.{
  ℕ, ◌-◌, ◌*◌, ◌^◌, String, Bool, false, ◌⊎◌, inl, inr, Option, none, some, List, [], ◌∷◌, ◌==◌,
  ltb, if◌then◌else◌, Panic, index_out_of_range, nil_dereference,
}
use deployd.Prelude.GoMap.{GoMap, index}
use deployd.Entity.Service.{ServiceDefinition}
use deployd.Entity.Job.{SubmitDeploymentJobRequest, DeploymentJob, CancelJobRequest}
use deployd.RaftApp.Messages.{SubmitJobResponse, SubmitJobStatus}

abbrev pub Fault : Type 0
Fault = String

-- What is printed, by its text; `cancelling` is printed as an error.
pub data Answer : Type 0 where
  failed_to_parse namespace_required service_id_required too_fast : Answer
  service_failed jobs_failed submit_failed job_failed cancel_failed : Fault → Answer
  submitted : String → SubmitJobStatus → Answer
  cancelling confirmed active_job_not_found nothing : Answer

-- A handler answers or panics.
pub data Ending : Type 0 where
  answered : Answer → Ending
  panicked : Panic → Ending

-- 10 seconds, in the nanoseconds of the times.
abbrev pub too_soon : ℕ
too_soon = 10 * 10 ^ 9

-- `now - published` is below zero for a job of the future, which is too soon as well.
abbrev pub is_too_fast : ℕ → List DeploymentJob → Bool
is_too_fast now [] = false
is_too_fast now (latest ∷ jobs) = ltb (now - latest.published_at) too_soon

abbrev pub secret_for_all : String
secret_for_all = "generate secret"

-- What is submitted in place of the request that came.
abbrev pub stamped : SubmitDeploymentJobRequest → ServiceDefinition → ℕ → SubmitDeploymentJobRequest
stamped dj service now = record dj {
  service = service;
  published_at = now;
  modify_key = some secret_for_all;
}

-- The stores, by namespace and id, and by namespace, service and id; the client; the time of the check
-- and that of the submission.
pub record Dependencies (S : Type 0) : Type 0 where
  pub get_services : S → String → String → Fault ⊎ List ServiceDefinition
  pub get_jobs : S → String → String → String → Fault ⊎ List DeploymentJob
  pub submit : SubmitDeploymentJobRequest → S → (Fault ⊎ SubmitJobResponse) × S
  pub cancel : CancelJobRequest → S → (Fault ⊎ DeploymentJob) × S
  pub checked_at : ℕ
  pub published_at : ℕ

module _ {S : Type 0} (deps : Dependencies S) where
  abbrev pub after_submit : (Fault ⊎ SubmitJobResponse) × S → Ending × S
  after_submit (inl e, s) = (answered (submit_failed e), s)
  after_submit (inr result, s) = (answered (submitted result.job.id result.submit_job_status), s)

  abbrev pub with_jobs :
      SubmitDeploymentJobRequest → ServiceDefinition → Fault ⊎ List DeploymentJob → S → Ending × S
  with_jobs dj service (inl e) s = (answered (jobs_failed e), s)
  with_jobs dj service (inr jobs) s =
      if is_too_fast deps.checked_at jobs
      then (answered too_fast, s)
      else after_submit (deps.submit (stamped dj service deps.published_at) s)

  -- `services[0]` panics where no service has the id.
  abbrev pub with_services :
      SubmitDeploymentJobRequest → Fault ⊎ List ServiceDefinition → S → Ending × S
  with_services dj (inl e) s = (answered (service_failed e), s)
  with_services dj (inr []) s = (panicked index_out_of_range, s)
  with_services dj (inr (service ∷ services)) s =
      with_jobs dj service (deps.get_jobs s dj.ns dj.service.id "") s

  unfoldable pub submit_parsed : SubmitDeploymentJobRequest → S → Ending × S
  submit_parsed dj s =
      if dj.ns == ""
      then (answered namespace_required, s)
      else if dj.service.id == ""
      then (answered service_id_required, s)
      else with_services dj (deps.get_services s dj.ns dj.service.id) s

  abbrev pub after_parse : Fault ⊎ SubmitDeploymentJobRequest → S → Ending × S
  after_parse (inl e) s = (answered failed_to_parse, s)
  after_parse (inr dj) s = submit_parsed dj s

  abbrev pub after_read :
      {Bytes : Type 0}
      → (Bytes → Fault ⊎ SubmitDeploymentJobRequest)
      → Fault ⊎ Bytes
      → S
      → Ending × S
  after_read parse (inl e) s = (answered failed_to_parse, s)
  after_read parse (inr payload) s = after_parse (parse payload) s

  -- SubmitJob, over the body as it was read and the JSON parser.
  unfoldable pub submit_job :
      {Bytes : Type 0}
      → (Bytes → Fault ⊎ SubmitDeploymentJobRequest)
      → Fault ⊎ Bytes
      → S
      → Ending × S
  unfolding submit_parsed
  submit_job parse body s = after_read parse body s

  abbrev pub after_cancel : (Fault ⊎ DeploymentJob) × S → Ending × S
  after_cancel (inl e, s) = (answered (cancel_failed e), s)
  after_cancel (inr job, s) = (answered cancelling, s)

  -- `*job.Request.ModifyKey != secret` is only logged; without a key the dereference panics.
  abbrev pub with_key : String → CancelJobRequest → Option String → S → Ending × S
  with_key secret r none s = (panicked nil_dereference, s)
  with_key secret r (some key) s =
      let allowed = after_cancel (deps.cancel r s) in if key == secret then allowed else allowed

  abbrev pub with_job : String → CancelJobRequest → Fault ⊎ List DeploymentJob → S → Ending × S
  with_job secret r (inl e) s = (answered (job_failed e), s)
  with_job secret r (inr []) s = (panicked index_out_of_range, s)
  with_job secret r (inr (job ∷ jobs)) s = with_key secret r job.request.modify_key s

  -- CancelJob: the namespace and the secret of the headers, and the service and the id of the path.
  unfoldable pub cancel_job : String → String → String → String → S → Ending × S
  cancel_job ns secret service id s =
      with_job secret (record { ns = ns; id = id; service = service })
        (deps.get_jobs s ns service id) s

-- ConfirmDeployment
pub confirm_deployment : Answer
confirm_deployment = confirmed

abbrev found : {Job : Type 0} → Option Job → Answer
found none = active_job_not_found
found (some job) = nothing

-- StreamLog, over the pool of the jobs controller.
pub stream_log : {Job : Type 0} → GoMap Job → String → Answer
stream_log pool active_job = found (index active_job pool)
