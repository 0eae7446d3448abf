-- ===== src/RaftApp/Deployment/Whole.antt =====
-- A deployment from the reports of its configuration to its end.
use deployd.Prelude.{
  String, ◌≡◌, ◌≢◌, refl, sym, ap, ◌∙◌, true, none, some, List, [], ◌∷◌, All, Distinct, elem,
  length, inr,
}
use Prim.Native.Nat.{◌≤◌}
use deployd.Prelude.GoMap.{table, keys_of}
use deployd.Prelude.Int.{max_int, to_int}
use mathlib.Core.Path.{subst}
use deployd.Entity.Job.{DeploymentJob, DeploymentJobStatus, Deployment, HostDeploymentStatusInfo}
use deployd.RaftApp.Messages.{RestartConfirmation}
use deployd.RaftApp.Runtime.{Runtime, handed_on, deref}
use deployd.RaftApp.Effect.Rules.{continue-state}
use deployd.RaftApp.Restart.{begin_deploying, target_host, restart}
use deployd.RaftApp.Progress.Rollout.{
  StoresById, IsFound, IsFound-again, IsUnderWay, rollout, rollout_from,
}
use deployd.RaftApp.Deployment.{configure_all}
use deployd.RaftApp.Deployment.Table.{Infos}
use deployd.RaftApp.Deployment.Configured.{IsReady, configure_all-IsReady}

-- The confirmation of a user.
abbrev pub confirmation_of : DeploymentJob → String → RestartConfirmation
confirmation_of j agent = record {
  ns = j.ns;
  job_id = j.id;
  service = j.request.service.id;
  host = "";
  message = "";
  agent = agent;
  url = "";
  created_at = 0;
}

-- All reports of a deployment, with the confirmation between them.
pub deployment : (R : Runtime) → DeploymentJob → String → List String → R.State → R.State
deployment R j agent hosts s =
    rollout R j j.deployment.host_order
      (restart R (confirmation_of j agent) (configure_all R j hosts s)).1

abbrev begun : String → DeploymentJob → DeploymentJob
begun agent k = record k {
  status = DeploymentJobStatus.deploying;
  deployment = record k.deployment { current_order = some 0; confirmed_by = agent };
}

-- A confirmation of a CONFIGURED job posts it as DEPLOYING at place 0.
restart_state :
    (R : Runtime) (request : RestartConfirmation) (s : R.State) (k : DeploymentJob)
    → R.get_jobs s request.ns (request.service ∷ []) request.job_id ≡ inr (k ∷ [])
    → k.status ≡ DeploymentJobStatus.configured
    → (restart R request s).1 ≡ (R.post_job (begun request.agent k) none s).1
unfolding restart begin_deploying
restart_state R request s k found configured =
    rw (found, configured)
      (continue-state (handed_on (R.post_job _ none s).0) _ _ λ m.
        continue-state (deref m.deployment.current_order) _ _ λ n.
          continue-state (target_host (to_int n) m.deployment.host_order) _ _
            λ target. continue-state (handed_on (R.marshal_confirmation _)) _ _ (λ b. refl))

-- On a runtime where a posted job with an id is found under its key: a job with an id, found under its
-- key, whatever its status, whose tables of configurations and of deployments have the hosts `known`,
-- which are distinct, and the host order, which fits an `int`. Once hosts of `known` have reported that
-- they are configured, each of them at least once, in any order and however often, a user has confirmed
-- the restart, and the hosts have reported success in their order, one job is found under the key, and
-- it is DEPLOYED.
pub deployment-deployed :
    (R : Runtime)
    → StoresById R
    → (j : DeploymentJob) (agent : String) (known : List String) (first_known : String)
      (more_known : List String) (configurations : Infos) (h : String) (rest : List String)
      (deployments : List (String × HostDeploymentStatusInfo)) (s : R.State)
    → j.id ≢ ""
    → IsFound R s j j
    → j.configuration.status ≡ table configurations
    → keys_of configurations ≡ known
    → Distinct known
    → All (λ x. elem x known ≡ true) (first_known ∷ more_known)
    → All (λ x. elem x (first_known ∷ more_known) ≡ true) known
    → j.deployment.host_order ≡ h ∷ rest
    → length j.deployment.host_order ≤ max_int
    → j.deployment.status ≡ table deployments
    → keys_of deployments ≡ j.deployment.host_order
    → (m : DeploymentJob) × IsFound R (deployment R j agent (first_known ∷ more_known) s) j m
      × (m.status ≡ DeploymentJobStatus.deployed)
unfolding deployment
deployment-deployed R laws j agent known first_known more_known configurations h rest deployments s
      named found holds exact apart members covers hosts fits statuses exact_hosts =
    let (k, ready) =
      configure_all-IsReady R laws j named known apart s configurations first_known more_known found
        holds exact members covers in
    after_confirmation k ready
  where
    at : R.State
    at = configure_all R j (first_known ∷ more_known) s

    confirmed : R.State
    confirmed = (restart R (confirmation_of j agent) at).1

    under_way :
        (k : DeploymentJob)
        → IsReady R laws j named known apart at k
        → IsUnderWay R laws j named (begun agent k) 0 deployments
    under_way k ready = record {
      same_ns = ready.same_ns;
      same_id = ready.same_id;
      same_service = ready.same_service;
      same_hosts = ap (λ (d : Deployment). d.host_order) ready.same_deployment;
      deploying = refl;
      at_order = refl;
      holds = ap (λ (d : Deployment). d.status) ready.same_deployment ∙ statuses;
      exact = exact_hosts;
    }

    begun_found :
        (k : DeploymentJob)
        → IsReady R laws j named known apart at k
        → IsFound R confirmed j (begun agent k)
    begun_found k ready =
        rw (restart_state R (confirmation_of j agent) at k ready.found ready.configured) (
          IsFound-again R laws j named (begun agent k) at ready.same_ns ready.same_id
            ready.same_service)

    after_confirmation :
        (k : DeploymentJob)
        → IsReady R laws j named known apart at k
        → (m : DeploymentJob) × IsFound R (rollout R j j.deployment.host_order confirmed) j m
          × (m.status ≡ DeploymentJobStatus.deployed)
    after_confirmation k ready =
        let (m, again, done) =
          rollout_from R laws j named rest h [] hosts fits (begun agent k) deployments confirmed
            (under_way k ready) (begun_found k ready) in
        (m, subst (λ hs. IsFound R (rollout R j hs confirmed) j m) (sym hosts) again, done)
