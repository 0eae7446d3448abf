-- ===== src/Http/Examples.antt =====
-- The handlers over a table of jobs in memory.
use deployd.Prelude.{
  ◌≡◌, refl, ◌⊎◌, inl, inr, List, [], ◌∷◌, index_out_of_range, Outcome, ok, err, panic,
}
use deployd.Entity.Job.{SubmitDeploymentJobRequest, DeploymentJob, no_job}
use deployd.RaftApp.Messages.{SubmitJobStatus}
use deployd.RaftApp.Runtime.{OnAfterApply, Error}
use deployd.RaftApp.Memory.{memory, select}
use deployd.Http.{Fault, Dependencies, panicked, stamped, submit_job, cancel_job, secret_for_all}
use deployd.Http.Submission.{Refuses, Submits, submit_job-Submits}
use deployd.Http.Cancelling.{IsKeyed, over_raft}
use deployd.Examples.Fixtures.{service, request}

abbrev job_of : SubmitDeploymentJobRequest → DeploymentJob
job_of r = record no_job { ns = r.ns; id = "1"; request = r; published_at = r.published_at }

abbrev reply_of : Outcome Error (OnAfterApply memory.Bytes) → Fault ⊎ DeploymentJob
reply_of (ok r) = inr no_job
reply_of (err e) = inl "error"
reply_of (panic p) = inl "panic"

abbrev deps : Dependencies (List DeploymentJob)
deps = record {
  get_services = λ _ ns id. inr (service ∷ []);
  get_jobs = λ jobs ns service id. memory.get_jobs jobs ns (service ∷ []) id;
  submit = λ r jobs. (
    inr (record { submit_job_status = SubmitJobStatus.success; job = job_of r }),
    job_of r ∷ jobs,
  );
  cancel = over_raft memory reply_of;
  checked_at = 0;
  published_at = 5;
}

abbrev keyed : DeploymentJob
keyed = job_of (stamped request service 5)

submit_job-Submits_example :
    Refuses deps [] (submit_job deps (λ (r : SubmitDeploymentJobRequest). inr r) (inr request) [])
    ⊎ ((payload : SubmitDeploymentJobRequest) × (dj : SubmitDeploymentJobRequest) × (◌≡◌
          {A = Fault ⊎ SubmitDeploymentJobRequest}
          (inr request)
          (inr payload))
        × (◌≡◌ {A = Fault ⊎ SubmitDeploymentJobRequest} (inr payload) (inr dj))
        × Submits deps dj []
            (submit_job deps (λ (r : SubmitDeploymentJobRequest). inr r) (inr request) []))
submit_job-Submits_example = submit_job-Submits deps (λ r. inr r) (inr request) []

keyed-IsKeyed : IsKeyed deps (keyed ∷ []) "ns" "svc" "1"
unfolding select
keyed-IsKeyed = record {
  job = keyed;
  others = [];
  key = secret_for_all;
  stored = refl;
  has_key = refl;
}

abbrev second : DeploymentJob
second = record keyed { id = "2" }

-- A cancellation of a job that is not there panics.
cancel_nothing_test : cancel_job deps "ns" "" "svc" "1" [] ≡ (panicked index_out_of_range, [])
unfolding cancel_job select
cancel_nothing_test = refl
