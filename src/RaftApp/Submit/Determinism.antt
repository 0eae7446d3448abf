-- ===== src/RaftApp/Submit/Determinism.antt =====
-- Replicas draw different random ports; what they store and reply is the same.
use deployd.Prelude.{
  ℕ, String, ◌≡◌, refl, ap, inl, inr, Option, none, some, List, [], ◌∷◌, ◌++◌, Outcome, ok, err,
  panic, Action, continue, Bool-cases,
}
use deployd.Entity.Host.{Host}
use deployd.Entity.Job.{SubmitDeploymentJobRequest}
use deployd.Entity.Instance.{ServiceInstanceHost}
use deployd.RaftApp.Runtime.{Runtime, Error, handed_on}
use deployd.RaftApp.Submit.{
  has_number, new_instance, new_instances, make_instances, choose_instances, hosts_of, random_port,
  post_new_job, user_submit_job,
}
use deployd.RaftApp.Submit.Refines.{hosts_of-append}

-- What the outcome of the choice says of the hosts.
abbrev hosts_outcome : Outcome Error (List ServiceInstanceHost) → Outcome Error (List String)
hosts_outcome (ok is) = ok (hosts_of is)
hosts_outcome (err e) = err e
hosts_outcome (panic p) = panic p

new_instances-draw :
    (p q : ℕ) (request : SubmitDeploymentJobRequest) (seen : List ℕ)
    (out out' : List ServiceInstanceHost) (targets : List (Option Host))
    → hosts_of out ≡ hosts_of out'
    → hosts_outcome (new_instances p request seen out targets)
      ≡ hosts_outcome (new_instances q request seen out' targets)
unfolding new_instances new_instance
new_instances-draw p q request seen out out' [] h = ap ok h
new_instances-draw p q request seen out out' (none ∷ ts) h = refl
new_instances-draw p q request seen out out' (some t ∷ ts) h =
    elim (Bool-cases (has_number t.raft_config.replica_id seen)) [
      | inl dup ↦ rw dup
      | inr fresh ↦ rw fresh (
          new_instances-draw p q request (t.raft_config.replica_id ∷ seen) _ _ ts
            (simp hosts_of-append (ap (λ l. l ++ t.host ∷ []) h)))
    ]

make_instances-draw :
    (a b : ℕ) (request : SubmitDeploymentJobRequest) (targets : List (Option Host))
    → hosts_outcome (make_instances a request targets)
      ≡ hosts_outcome (make_instances b request targets)
unfolding make_instances
make_instances-draw a b request [] = refl
make_instances-draw a b request (t ∷ ts) =
    new_instances-draw (random_port a) (random_port b) request [] [] [] (t ∷ ts) refl

choose_instances-draw :
    (a b : ℕ) (request : SubmitDeploymentJobRequest) (found : List ServiceInstanceHost)
    → hosts_outcome (choose_instances a request found)
      ≡ hosts_outcome (choose_instances b request found)
unfolding choose_instances
choose_instances-draw a b request (i ∷ is) = refl
choose_instances-draw a b request [] = make_instances-draw a b request request.target_hosts

-- What follows uses the hosts only.
continue-hosts :
    {S B : Type 0} (o o' : Outcome Error (List ServiceInstanceHost))
    (g : List String → Action S Error B) (s : S)
    → hosts_outcome o ≡ hosts_outcome o'
    → continue o (λ is. g (hosts_of is)) s ≡ continue o' (λ is. g (hosts_of is)) s
continue-hosts (ok is) (ok js) g s h =
    let same : hosts_of is ≡ hosts_of js = cc in ap (λ hs. g hs s) same
continue-hosts (err e) (err f) g s h = let same : e ≡ f = cc in ap (λ x. (err x, s)) same
continue-hosts (panic p) (panic q) g s h = let same : p ≡ q = cc in ap (λ x. (panic x, s)) same
continue-hosts (ok is) (err e) g s h = cc
continue-hosts (ok is) (panic e) g s h = cc
continue-hosts (err is) (ok e) g s h = cc
continue-hosts (err is) (panic e) g s h = cc
continue-hosts (panic is) (ok e) g s h = cc
continue-hosts (panic is) (err e) g s h = cc

continue_cong :
    {A B S E : Type 0} (o : Outcome E A) (f g : A → Action S E B) (s : S)
    → ((a : A) → f a s ≡ g a s)
    → continue o f s ≡ continue o g s
continue_cong (ok a) f g s h = h a
continue_cong (err e) f g s h = refl
continue_cong (panic p) f g s h = refl

module _ (R : Runtime) where
  -- Whatever two replicas draw, a submission gives both the same outcome and the same state.
  pub user_submit_job-draw :
      (a b : ℕ) (request : SubmitDeploymentJobRequest) (s : R.State)
      → user_submit_job R a request s ≡ user_submit_job R b request s
  unfolding user_submit_job
  user_submit_job-draw a b request s =
      continue_cong (handed_on (R.get_instances s request.service.ns (request.service.id ∷ []) ""))
        _ _ s
        λ found.
          continue-hosts (choose_instances a request found) (choose_instances b request found)
            (post_new_job R request) s (choose_instances-draw a b request found)
