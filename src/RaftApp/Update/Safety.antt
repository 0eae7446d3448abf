-- ===== src/RaftApp/Update/Safety.antt =====
-- No entry of the log makes a replica panic, but for two kinds of requests.
use deployd.Prelude.{
  ℕ, ◌≡◌, ◌≢◌, Bool, true, false, ◌⊎◌, inl, inr, none, [], ◌∷◌, ok, All, ◌==◌, if◌then◌else◌,
}
use deployd.Entity.Job.{SubmitDeploymentJobRequest}
use deployd.RaftApp.Messages.{CancelJobRequest}
use deployd.RaftApp.Runtime.{Runtime, Fault, Entry, Handler, parsed}
use deployd.RaftApp.Safe.{Safe, Safe-handed_on, Safe-parsed, Safe-continue}
use deployd.RaftApp.Effect.{IsSized}
use deployd.RaftApp.Validity.{IsValid}
use deployd.RaftApp.Replay.{StoredAll, KeepsJobs}
use deployd.RaftApp.Submit.Safety.{user_submit_job-Safe}
use deployd.RaftApp.Cancel.Safety.{cancel_job-Safe}
use deployd.RaftApp.Configure.Safety.{host_configuration_update-Safe}
use deployd.RaftApp.Restart.Safety.{restart-Safe}
use deployd.RaftApp.Progress.Safety.{host_restart_service_update-Safe}
use deployd.RaftApp.Update.{
  command_user_submit_job, command_user_cancel_job, command_host_configuration_update,
  command_restart_confirmation, command_host_restart_service_update, on_update,
}

-- A submission names no null host, and the query of a cancellation is not answered by an empty list.
pub record IsAnswerable (R : Runtime) (s : R.State) (e : Entry R.Bytes) : Type 0 where
  pub hosts :
      (request : SubmitDeploymentJobRequest)
      → R.parse_submit e.value ≡ inr request
      → All (λ t. t ≢ none) request.target_hosts
  pub known :
      (request : CancelJobRequest)
      → R.parse_cancel e.value ≡ inr request
      → R.get_jobs s request.ns (request.service ∷ []) request.job_id ≢ inr []

parsed-ok : {A : Type 0} (r : Fault ⊎ A) (a : A) → parsed r ≡ ok a → r ≡ inr a
parsed-ok (inl f) a h = cc
parsed-ok (inr b) a h = cc

module _ (R : Runtime) (laws : KeepsJobs R) (s : R.State) where
  Safe-choice :
      (b : Bool) (f g : Handler R) → Safe (f s).0 → Safe (g s).0 → Safe ((if b then f else g) s).0
  Safe-choice true f g x y = x
  Safe-choice false f g x y = y

  -- On a runtime whose job table answers with what was posted to it, and on a store of valid jobs whose
  -- host orders fit an `int`: an entry makes the application panic in no case, if as a submission it
  -- names no null host, and if as a cancellation its query is not answered by an empty list.
  pub on_update-Safe :
      (draw : ℕ) (e : Entry R.Bytes)
      → StoredAll R IsValid s
      → IsSized R s
      → IsAnswerable R s e
      → Safe (on_update R draw e s).0
  unfolding on_update
  on_update-Safe draw e all sized clean =
      Safe-choice (e.command == command_user_submit_job) _ _
        (Safe-continue (parsed (R.parse_submit e.value)) _ s (Safe-parsed _)
          λ p q. user_submit_job-Safe R draw p s (clean.hosts p (parsed-ok _ p q)))
        (Safe-choice (e.command == command_user_cancel_job) _ _
          (Safe-continue (parsed (R.parse_cancel e.value)) _ s (Safe-parsed _)
            λ p q. cancel_job-Safe R p s (clean.known p (parsed-ok _ p q)))
          (Safe-choice (e.command == command_host_configuration_update) _ _
            (Safe-continue (parsed (R.parse_configuration e.value)) _ s (Safe-parsed _)
              λ p q. host_configuration_update-Safe R p s)
            (Safe-choice (e.command == command_restart_confirmation) _ _
              (Safe-continue (parsed (R.parse_confirmation e.value)) _ s (Safe-parsed _)
                λ p q. restart-Safe R laws p s all sized)
              (Safe-choice (e.command == command_host_restart_service_update) _ _
                (Safe-continue (parsed (R.parse_restart e.value)) _ s (Safe-parsed _)
                  λ p q. host_restart_service_update-Safe R p s all)
                (Safe-handed_on _)))))
