-- ===== src/Controller/Restarts.antt =====
-- What a host reports about a restart, and what it did.
use deployd.Prelude.{
  ℕ, String, ◌≡◌, Bool, true, false, ◌||◌, List, [], ◌∷◌, Outcome, ok, err, panic, Bool-cases, inl,
  inr,
}
use deployd.Entity.Job.{DeploymentJob, host_succeeded}
use deployd.RaftApp.Messages.{HostRestartServiceUpdateRequest}
use deployd.HostDeploy.{DeployError, current_link, etc_env_link, config_for, deploy, execute}
use deployd.HostDeploy.Calls.{Machine, Fault, IsPosix}
use deployd.HostDeploy.Switch.{IsApart}
use deployd.HostDeploy.Ends.{Ends, IsLive, LinksBetween}
use deployd.HostDeploy.Links.{deploy-links}
use deployd.Controller.{
  start_restart_host_service_reports, restart_update, last_report, restarted_as, text_of,
  is_canceled,
}

abbrev pub reports_success : List HostRestartServiceUpdateRequest → Bool
reports_success [] = false
reports_success (r ∷ rs) = host_succeeded r.status || reports_success rs

module _ (M : Machine) (posix : IsPosix M) (host : String) (is_canceled_fault : Fault → Bool)
    (show : DeployError → String) where
  -- On a machine with POSIX links, where the two links of the job are apart: if a report of the restart
  -- is SUCCESS, the host is left with both links at the job's release and its unit active.
  pub start_restart_host_service_reports-IsLive :
      (job : DeploymentJob) (before later : ℕ) (s : M.State)
      → IsApart (current_link (config_for job)) (etc_env_link (config_for job))
      → IsApart (etc_env_link (config_for job)) (current_link (config_for job))
      → reports_success
          (start_restart_host_service_reports host is_canceled_fault M show job before later s).0
        ≡ true
      → IsLive M
          (config_for job)
          (start_restart_host_service_reports host is_canceled_fault M show job before later s).1
  unfolding start_restart_host_service_reports restart_update execute
  start_restart_host_service_reports-IsLive job before later s a b =
      go (deploy M (config_for job) s).0 (deploy-links M posix (config_for job) s a b)
    where
      clash : ¬ (false ≡ true)
      clash h = cc

      go :
          (r : Outcome DeployError Unit) {t : M.State}
          → Ends
              (IsLive M (config_for job))
              (LinksBetween M
                (config_for job)
                (M.readlink s (current_link (config_for job)))
                (M.readlink s (etc_env_link (config_for job))))
              (r, t)
          → reports_success (
              last_report host is_canceled_fault job
                (restarted_as host is_canceled_fault r)
                (text_of host is_canceled_fault show r)
                later)
            ≡ true
          → IsLive M (config_for job) t
      go (ok _) live h = live
      go (err e) live h = elim (Bool-cases (is_canceled host is_canceled_fault e)) [
        | inl c ↦ absurd (clash (rw c at h))
        | inr c ↦ absurd (clash (rw c at h))
      ]
      go (panic p) live h = cc
