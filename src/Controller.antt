-- ===== src/Controller.antt =====
-- A host's controller: internal/src/deploy-job/jobs_controller.go, integration_event.go and
-- job_deploy.go. Topics and logs are left out, and contexts but for a mark on a cancelled job; what is
-- started is an effect.
pub mod Starts
pub mod Believe
pub mod Restarts
pub mod Configurations
pub mod JobBase
pub mod JobLogger
use deployd.Prelude.{
  ℕ, String, ◌<>◌, Bool, true, false, not, Option, none, some, List, [], ◌∷◌, ◌++◌, ◌==◌,
  if◌then◌else◌, Outcome, ok, err, panic,
}
use deployd.Prelude.GoMap.{index, lookup, set}
use deployd.Entity.Job.{
  DeploymentJob, HostConfigurationStatus, HostConfigurationStatusInfo, HostDeploymentStatus,
  is_deployed,
}
use deployd.RaftApp.Messages.{
  Event, deployment_job_created, deployment_job_cancelled, all_host_configured, service_restarted,
  restart_confirmed, ConfigurationUpdateRequest, ConfigurationUpdateResponse, RestartConfirmation,
  HostRestartServiceUpdateRequest, HostRestartServiceUpdateResponse,
  HostRestartConfirmationResponse,
}
use deployd.HostDeploy.{
  DeployError, chmod_failed, mkdir_failed, env_switch_failed, start_failed, external, execute,
}
use deployd.HostDeploy.Calls.{Machine, Fault}

-- A job in the pool, and whether its context is cancelled.
pub record PoolJob : Type 0 where
  pub job : DeploymentJob
  pub cancelled : Bool

abbrev pub Pool : Type 0
Pool = List (String × PoolJob)

-- What a handler sets off: the goroutine that configures, the restart, which runs in the loop of the
-- consumer, and a confirmation sent through the raft client.
pub data Effect : Type 0 where
  start_configure_host start_restart_host_service : DeploymentJob → Effect
  confirm_restart_service : RestartConfirmation → Effect

pub get_key : DeploymentJob → String
get_key job = job.ns <> "\\" <> job.request.service.id <> "\\" <> job.id

abbrev is_part : Option HostConfigurationStatusInfo → Bool
is_part none = false
is_part (some _) = true

-- The handlers of one host, at a time.
module _ (host : String) (now : ℕ) where
  -- A host without a configuration status is no part of the deployment.
  abbrev insert_job : DeploymentJob → Bool → Pool → List Effect × Pool
  insert_job job false pool = ([], pool)
  insert_job job true pool = (
    start_configure_host job ∷ [],
    set (get_key job) (record { job = job; cancelled = false }) pool,
  )

  abbrev by_pool : DeploymentJob → Option PoolJob → Pool → List Effect × Pool
  by_pool job (some _) pool = ([], pool)
  by_pool job none pool = insert_job job (is_part (index host job.configuration.status)) pool

  pub configure_host : DeploymentJob → Pool → List Effect × Pool
  configure_host job pool = by_pool job (lookup (get_key job) pool) pool

  abbrev cancel_found : String → Option PoolJob → Pool → Pool
  cancel_found key none pool = pool
  cancel_found key (some entry) pool = set key (record entry { cancelled = true }) pool

  pub cancel_deployment : DeploymentJob → Pool → List Effect × Pool
  cancel_deployment job pool = ([], cancel_found (get_key job) (lookup (get_key job) pool) pool)

  -- The confirmation that the host sends for the user.
  pub confirmation_for : DeploymentJob → RestartConfirmation
  confirmation_for job = record {
    ns = job.ns;
    job_id = job.id;
    service = job.request.service.id;
    host = "";
    message = "LGTM";
    agent = "saya-bot-believe:" <> host;
    url = "";
    created_at = now;
  }

  -- One node is enough: the one whose report set off the event.
  pub confirm_deployment_as_user_if_enabled : ConfigurationUpdateResponse → List Effect
  unfolding confirmation_for
  confirm_deployment_as_user_if_enabled event =
      if not event.job.request.is_believe
      then []
      else if not (event.trigger_host == host)
      then []
      else confirm_restart_service (confirmation_for event.job) ∷ []

  pub continue_restart_service_as_user_if_enabled : HostRestartServiceUpdateResponse → List Effect
  unfolding confirmation_for
  continue_restart_service_as_user_if_enabled event =
      if is_deployed event.job.status
      then []
      else if not event.job.request.is_believe
      then []
      else if not (event.trigger_host == host)
      then []
      else confirm_restart_service (confirmation_for event.job) ∷ []

  abbrev restart_found : Bool → Option PoolJob → List Effect
  restart_found is_target none = []
  restart_found is_target (some entry) =
      if is_target then start_restart_host_service entry.job ∷ [] else []

  pub restart_service : HostRestartConfirmationResponse → Pool → List Effect
  restart_service event pool =
      restart_found (event.target_host == host) (lookup (get_key event.job) pool)

  -- The switch of StartConsumer, by the type of the event.
  pub on_event : Event → Pool → List Effect × Pool
  on_event (deployment_job_created value) pool = configure_host value.job pool
  on_event (deployment_job_cancelled job) pool = cancel_deployment job pool
  on_event (restart_confirmed value) pool = (restart_service value pool, pool)
  on_event (all_host_configured value) pool = (confirm_deployment_as_user_if_enabled value, pool)
  on_event (service_restarted value) pool =
      (continue_restart_service_as_user_if_enabled value, pool)
  on_event _ pool = ([], pool)

  -- The loop over the subscription: the effects of all the events, in order.
  pub consume : List Event → Pool → List Effect
  consume [] pool = []
  consume (e ∷ es) pool = let (out, pool') = on_event e pool in out ++ consume es pool'

-- The sub-job startRestartHostService of job_deploy.go. The raft client is left out: it goes on when the
-- client fails. The other sub-job is Configurations.
module _ (host : String) (is_canceled_fault : Fault → Bool) where
  -- errors.Is(err, context.Canceled): it looks through %w, not through %v.
  abbrev pub is_canceled : DeployError → Bool
  is_canceled (chmod_failed f) = is_canceled_fault f
  is_canceled (mkdir_failed f) = is_canceled_fault f
  is_canceled (env_switch_failed f) = is_canceled_fault f
  is_canceled (start_failed f) = is_canceled_fault f
  is_canceled (external f) = is_canceled_fault f
  is_canceled _ = false

  restart_update :
      DeploymentJob → HostDeploymentStatus → Option String → ℕ → HostRestartServiceUpdateRequest
  restart_update job status message now = record {
    ns = job.ns;
    job_id = job.id;
    service = job.request.service.id;
    host_name = host;
    status = status;
    error_message = message;
    order = none;
    url = "";
    updated_at = now;
  }

  -- The status of the last report, by what Execute returned; a panic reports nothing.
  abbrev restarted_as : Outcome DeployError Unit → Option HostDeploymentStatus
  restarted_as (ok _) = some HostDeploymentStatus.success
  restarted_as (err e) =
      some (if is_canceled e then HostDeploymentStatus.time_out else HostDeploymentStatus.failed)
  restarted_as (panic _) = none

  abbrev text_of : (DeployError → String) → Outcome DeployError Unit → Option String
  text_of show (err e) = some (show e)
  text_of show _ = none

  abbrev last_report :
      DeploymentJob
      → Option HostDeploymentStatus
      → Option String
      → ℕ
      → List HostRestartServiceUpdateRequest
  last_report job none message now = []
  last_report job (some status) message now = restart_update job status message now ∷ []

  -- The reports around restartHostService.Execute, and the state it leaves the host in.
  unfoldable pub start_restart_host_service_reports :
      (M : Machine)
      → (DeployError → String)
      → DeploymentJob
      → ℕ
      → ℕ
      → M.State
      → List HostRestartServiceUpdateRequest × M.State
  unfolding restart_update
  start_restart_host_service_reports M show job before later s =
      let (r, t) = execute M job s in
      (
        restart_update job HostDeploymentStatus.restarting none before
            ∷ last_report job (restarted_as r) (text_of show r) later,
        t,
      )
