-- ===== src/RaftApp/Deployment.antt =====
-- A deployment as the raft application sees it: its hosts report that they are configured, the restart is
-- confirmed, and the hosts report one after another that they have restarted.
pub mod Table
pub mod Configured
pub mod Whole
use deployd.Prelude.{
  String, ◌≡◌, ◌≢◌, refl, sym, ◌∙◌, Bool, true, false, ◌||◌, ◌==◌, inl, inr, Option, none, some,
  List, [], ◌∷◌, All, Distinct, elem, arith, eq_iff, Bool-cases,
}
use deployd.Prelude.GoMap.{table, set, keys_of, keys_of-set, values_of, lookup}
use deployd.Entity.Job.{
  DeploymentJob, DeploymentJobStatus, HostConfigurationStatus, HostConfigurationStatusInfo,
}
use deployd.RaftApp.Messages.{ConfigurationUpdateRequest}
use deployd.RaftApp.Runtime.{Runtime, handed_on}
use deployd.RaftApp.Lifecycle.{AllConfigured}
use deployd.RaftApp.Effect.Rules.{continue-state}
use deployd.RaftApp.Configure.{with_configuration, host_configuration_update}
use deployd.RaftApp.Configure.Refines.{AllConfigured-all_configured}
use deployd.RaftApp.Progress.Rollout.{StoresById, IsFound, IsFound-again}
use Table.{Infos, configured_info, Reported, Reported-set}

-- The report that a host is configured.
abbrev pub configuration_of : DeploymentJob → String → ConfigurationUpdateRequest
configuration_of j host = record {
  ns = j.ns;
  job_id = j.id;
  service = j.request.service.id;
  host_name = host;
  status = HostConfigurationStatus.success;
  error_message = none;
  url = "";
  updated_at = 0;
}

-- The reports of some hosts, in order.
unfoldable pub configure_all : (R : Runtime) → DeploymentJob → List String → R.State → R.State
configure_all R j [] s = s
configure_all R j (h ∷ hs) s =
    configure_all R j hs (host_configuration_update R (configuration_of j h) s).1

lookup-of_elem :
    (h : String) (l : Infos)
    → elem h (keys_of l) ≡ true
    → (i : HostConfigurationStatusInfo) × (lookup h l ≡ some i)
unfolding lookup
lookup-of_elem h [] e = cc
lookup-of_elem h ((k, v) ∷ l) e = elim (Bool-cases (k == h)) [
  | inl same ↦ (v, rw same refl)
  | inr apart ↦ let (i, found) = lookup-of_elem h l (ground (arith)) in (i, rw apart found)
]

-- A report of success of a host that the job knows posts the job with the host's status written.
reported_state :
    (R : Runtime) (request : ConfigurationUpdateRequest) (s : R.State) (k : DeploymentJob)
    (l : Infos)
    → R.get_jobs s request.ns (request.service ∷ []) request.job_id ≡ inr (k ∷ [])
    → k.configuration.status ≡ table l
    → elem request.host_name (keys_of l) ≡ true
    → (host_configuration_update R request s).1
      ≡ (R.post_job
          (with_configuration k (
            table (
              set request.host_name
                (record { status = request.status; error_message = request.error_message })
                l)))
          none
          s).1
unfolding host_configuration_update
reported_state R request s k l found holds known =
    let (i, there) = lookup-of_elem request.host_name l known in
    rw (found, holds, there)
      (continue-state (handed_on (R.post_job _ none s).0) _ _
        λ m. continue-state (handed_on (R.marshal_configuration _)) _ _ (λ b. refl))
