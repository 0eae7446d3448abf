-- ===== src/Http/Cancelling.antt =====
-- CancelJob: who may cancel, and which job is cancelled.
use deployd.Prelude.{String, ◌==◌, ◌≡◌, refl, ◌⊎◌, inl, inr, some, List, ◌∷◌, Outcome, Bool-cases}
use deployd.Entity.Job.{DeploymentJob, CancelJobRequest}
use deployd.Http.{Fault, Dependencies, after_cancel, with_key, cancel_job}
use deployd.RaftApp.Runtime.{Runtime, OnAfterApply, Error}
use deployd.RaftApp.Cancel
use deployd.Client.{encode_cancel, decode_cancel}

-- The store has a job under the id, and the first one found has a modify key.
pub record IsKeyed {S : Type 0} (deps : Dependencies S) (s : S) (ns service id : String)
    : Type 0 where
  pub job : DeploymentJob
  pub others : List DeploymentJob
  pub key : String
  pub stored : deps.get_jobs s ns service id ≡ inr (job ∷ others)
  pub has_key : job.request.modify_key ≡ some key

module _ {S : Type 0} (deps : Dependencies S) where
  with_key-allows :
      (key secret : String) (r : CancelJobRequest) (s : S)
      → with_key deps secret r (some key) s ≡ after_cancel deps (deps.cancel r s)
  with_key-allows key secret r s = elim (Bool-cases (key == secret)) [
    | inl e ↦ rw e refl
    | inr e ↦ rw e refl
  ]

  -- Where the store finds a job with a modify key, CancelJob sends the cancellation of the namespace, the
  -- service and the id, whatever secret comes with it, and the answer depends on its result only.
  pub cancel_job-allows :
      (ns secret service id : String) (s : S)
      → IsKeyed deps s ns service id
      → cancel_job deps ns secret service id s
        ≡ after_cancel deps (deps.cancel (record { ns = ns; id = id; service = service }) s)
  unfolding cancel_job
  cancel_job-allows ns secret service id s k =
      rw (k.stored, k.has_key)
        (with_key-allows k.key secret (record { ns = ns; id = id; service = service }) s)

-- The raft client on a raft application: `reply` stands for the parse of its reply, or its error.
pub over_raft :
    (R : Runtime)
    → (Outcome Error (OnAfterApply R.Bytes) → Fault ⊎ DeploymentJob)
    → CancelJobRequest
    → R.State
    → (Fault ⊎ DeploymentJob) × R.State
over_raft R reply r s =
    let done = Cancel.cancel_job R (decode_cancel (encode_cancel r)) s in (reply done.0, done.1)
