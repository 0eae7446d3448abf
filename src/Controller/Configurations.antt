-- ===== src/Controller/Configurations.antt =====
-- The sub-job startConfigureHost of internal/src/deploy-job/job_deploy.go, with what it runs: the reports
-- to the raft client around configureHost.Execute. The client is left out: the sub-job goes on when the
-- first report fails, and ends after the last.
use deployd.Prelude.{
  ℕ, String, Bool, true, false, ◌≡◌, refl, ◌⊎◌, inl, inr, Option, none, some, List, [], ◌∷◌,
  Outcome, ok, err, panic, ltb, if◌then◌else◌, Bool-cases,
}
use deployd.Entity.Host.{Host}
use deployd.Entity.Job.{DeploymentJob, HostConfigurationStatus, host_configured}
use deployd.RaftApp.Messages.{ConfigurationUpdateRequest}
use deployd.HostConfigure
use deployd.HostConfigure.{ExecuteError}
use deployd.HostConfigure.Calls.{HostMachine}
use deployd.HostConfigure.Outcomes.{Finishes}
use deployd.HostConfigure.Status.{CopiesEnd, IsConfigured}
use deployd.HostConfigure.Returns.{execute-Finishes}

-- minimumTimeOutIfConfiguredSeconds of jobs_controller.go
abbrev pub minimum_timeout_if_configured_seconds : ℕ
minimum_timeout_if_configured_seconds = 30

configuration_update :
    Host → DeploymentJob → HostConfigurationStatus → Option String → ℕ → ConfigurationUpdateRequest
configuration_update host job status message now = record {
  ns = job.ns;
  job_id = job.id;
  service = job.request.service.id;
  host_name = host.host;
  status = status;
  error_message = message;
  url = "";
  updated_at = now;
}

-- A machine, `cancel_after` of time.AfterFunc, and the text of an error.
module _ (H : HostMachine) (cancel_after : ℕ → H.State → H.State)
    (show : ExecuteError → String) where
  -- A timeout that is too short is none.
  abbrev with_timeout : Option ℕ → H.State → H.State
  with_timeout none s = s
  with_timeout (some n) s =
      if ltb n minimum_timeout_if_configured_seconds then s else cancel_after n s

  -- errors.Is(err, context.Canceled): it looks through %w, not through %v.
  abbrev is_canceled_error : ExecuteError → Bool
  is_canceled_error (HostConfigure.external f) = H.is_canceled f
  is_canceled_error (HostConfigure.extract_failed f) = H.is_canceled f
  is_canceled_error (HostConfigure.connect_failed f) = H.is_canceled f
  is_canceled_error (HostConfigure.reload_failed f) = H.is_canceled f
  is_canceled_error _ = false

  abbrev configured_as : ExecuteError → HostConfigurationStatus
  configured_as e =
      if is_canceled_error e
      then HostConfigurationStatus.cancelled
      else HostConfigurationStatus.failed

  -- The last report and the sub-job's status, by what Execute returned; a panic reports nothing.
  abbrev after_execute :
      Host
      → DeploymentJob
      → ℕ
      → Outcome ExecuteError Unit × (HostConfigurationStatus × H.State)
      → List ConfigurationUpdateRequest × (HostConfigurationStatus × H.State)
  after_execute host job later (ok a, (status, s)) = (
    configuration_update host job HostConfigurationStatus.success none later ∷ [],
    (HostConfigurationStatus.success, s),
  )
  after_execute host job later (err e, (status, s)) = (
    configuration_update host job (configured_as e) (some (show e)) later ∷ [],
    (configured_as e, s),
  )
  after_execute host job later (panic p, t) = ([], t)

  -- The reports, and the status and the host at the end.
  unfoldable pub start_configure_host_reports :
      Host
      → DeploymentJob
      → ℕ
      → ℕ
      → H.State
      → List ConfigurationUpdateRequest × (HostConfigurationStatus × H.State)
  unfolding configuration_update
  start_configure_host_reports host job before later s =
      let done = after_execute host job later (
        HostConfigure.execute H job.request host
          (HostConfigurationStatus.pending, with_timeout job.request.timeout_seconds s)) in
      (
        configuration_update host job HostConfigurationStatus.configuring none before ∷ done.0,
        done.1,
      )

  module _ (C : CopiesEnd H) (host : Host) (job : DeploymentJob) where
    -- The last report is of success, and then the host is configured for the job, or of another status
    -- with the text of the error.
    abbrev pub IsTrue :
        List ConfigurationUpdateRequest × (HostConfigurationStatus × H.State) → Type 0
    IsTrue (first ∷ last ∷ [], t) =
        (first.status ≡ HostConfigurationStatus.configuring)
        × (last.status ≡ t.0)
        × (((host_configured last.status ≡ true) × IsConfigured H job.request t)
            ⊎ ((host_configured last.status ≡ false)
                × (m : String) × (last.error_message ≡ some m)))
    IsTrue _ = ⊥

    -- On readers and writers that keep to their documentation: whatever happens on the host, exactly two
    -- reports are sent. The first is CONFIGURING. The last is SUCCESS only where Execute has returned
    -- without an error, with a release of the build that was there or the service's unit loaded, and is
    -- otherwise another status with the text of the error.
    pub start_configure_host_reports-IsTrue :
        (before later : ℕ) (s : H.State)
        → IsTrue (start_configure_host_reports host job before later s)
    unfolding start_configure_host_reports
    start_configure_host_reports-IsTrue before later s =
        go
          (HostConfigure.execute H job.request host
            (HostConfigurationStatus.pending, with_timeout job.request.timeout_seconds s))
          (execute-Finishes H C job.request host HostConfigurationStatus.pending _ refl)
      where
        go :
            (r : Outcome ExecuteError Unit × (HostConfigurationStatus × H.State))
            → Finishes (IsConfigured H job.request) r
            → IsTrue (
              configuration_update host job HostConfigurationStatus.configuring none before
                  ∷ (after_execute host job later r).0,
              (after_execute host job later r).1,
            )
        go (ok a, (status, t)) h = (refl, refl, inl (refl, (refl, h.1)))
        go (err e, (status, t)) h = elim (Bool-cases (is_canceled_error e)) [
          | inl c ↦ rw c (refl, refl, inr (refl, show e, refl))
          | inr c ↦ rw c (refl, refl, inr (refl, show e, refl))
        ]
        go (panic p, t) h = elim h [ ]
