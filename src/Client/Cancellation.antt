-- ===== src/Client/Cancellation.antt =====
-- What a cancellation asks for, and what arrives.
use deployd.Prelude.{String, ◌≡◌, refl}
use deployd.Entity.Job
use deployd.RaftApp.Runtime.{Runtime}
use deployd.RaftApp.Cancel.{cancel_job}
use deployd.Client.{encode_cancel, decode_cancel}

-- On any runtime, the outcome and the new state of a cancellation that the client publishes do not
-- depend on the id that the request names.
pub cancel_job_ignores_id :
    (R : Runtime) (r : Job.CancelJobRequest) (other : String) (s : R.State)
    → cancel_job R (decode_cancel (encode_cancel r)) s
      ≡ cancel_job R (decode_cancel (encode_cancel (record r { id = other }))) s
unfolding encode_cancel decode_cancel
cancel_job_ignores_id R r other s = refl
