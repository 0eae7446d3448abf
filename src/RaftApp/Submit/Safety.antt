-- ===== src/RaftApp/Submit/Safety.antt =====
-- userSubmitJob panics on a null target host, and on nothing else.
use deployd.Prelude.{
  ℕ, ◌≡◌, ◌≢◌, refl, inl, inr, Option, none, some, List, [], ◌∷◌, ◌++◌, panic, nil_dereference,
  Bool-cases, All,
}
use deployd.Entity.Host.{Host}
use deployd.Entity.Job.{SubmitDeploymentJobRequest}
use deployd.Entity.Instance.{ServiceInstanceHost}
use deployd.RaftApp.Runtime.{Runtime, handed_on}
use deployd.RaftApp.Safe.{
  Safe, Safe-ok, Safe-err, Safe-handed_on, Safe-continue, Safe-store_job, Safe-reply,
}
use deployd.RaftApp.Submit.{
  has_number, new_instance, new_instances, make_instances, choose_instances, hosts_of, random_port,
  new_job, user_submit_job,
}

new_instances-Safe :
    (port : ℕ) (request : SubmitDeploymentJobRequest) (seen : List ℕ)
    (out : List ServiceInstanceHost) (targets : List (Option Host))
    → All (λ t. t ≢ none) targets
    → Safe (new_instances port request seen out targets)
unfolding new_instances
new_instances-Safe port request seen out [] all = Safe-ok out
new_instances-Safe port request seen out (none ∷ ts) all = absurd (all.0 refl)
new_instances-Safe port request seen out (some t ∷ ts) all =
    elim (Bool-cases (has_number t.raft_config.replica_id seen)) [
      | inl dup ↦ rw dup (Safe-err _)
      | inr fresh ↦ rw fresh (
          new_instances-Safe port request (t.raft_config.replica_id ∷ seen)
            (out ++ (new_instance port request t ∷ [])) ts all.1)
    ]

make_instances-Safe :
    (draw : ℕ) (request : SubmitDeploymentJobRequest) (targets : List (Option Host))
    → All (λ t. t ≢ none) targets
    → Safe (make_instances draw request targets)
unfolding make_instances
make_instances-Safe draw request [] all = Safe-err _
make_instances-Safe draw request (t ∷ ts) all =
    new_instances-Safe (random_port draw) request [] [] (t ∷ ts) all

choose_instances-Safe :
    (draw : ℕ) (request : SubmitDeploymentJobRequest) (found : List ServiceInstanceHost)
    → All (λ t. t ≢ none) request.target_hosts
    → Safe (choose_instances draw request found)
unfolding choose_instances
choose_instances-Safe draw request [] all =
    make_instances-Safe draw request request.target_hosts all
choose_instances-Safe draw request (i ∷ is) all = Safe-ok _

module _ (R : Runtime) where
  pub user_submit_job-Safe :
      (draw : ℕ) (request : SubmitDeploymentJobRequest) (s : R.State)
      → All (λ t. t ≢ none) request.target_hosts
      → Safe (user_submit_job R draw request s).0
  unfolding user_submit_job
  user_submit_job-Safe draw request s all =
      Safe-continue (handed_on (R.get_instances s request.service.ns (request.service.id ∷ []) ""))
        _ s (Safe-handed_on _)
        λ found e.
          Safe-continue (choose_instances draw request found) _ s
            (choose_instances-Safe draw request found all)
            λ is c.
              Safe-store_job R (new_job request (hosts_of is)) (some (("author", "kmg") ∷ [])) _ s
                λ k t _. Safe-reply R (R.marshal_submit _) _ t

  -- Where the service has no instances and the first target host is null, a submission panics with a
  -- nil dereference, and the store stays as it is.
  pub user_submit_job_panics :
      (draw : ℕ) (request : SubmitDeploymentJobRequest) (rest : List (Option Host)) (s : R.State)
      → R.get_instances s request.service.ns (request.service.id ∷ []) "" ≡ inr []
      → request.target_hosts ≡ none ∷ rest
      → user_submit_job R draw request s ≡ (panic nil_dereference, s)
  unfolding user_submit_job
  user_submit_job_panics draw request rest s e h = rw (e, h)
