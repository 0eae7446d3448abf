-- ===== src/RaftApp/Restart.antt =====
-- restart of app.go: a restart is confirmed.
pub mod Refines
pub mod Safety
use deployd.Prelude.{
  String, ◌||◌, none, some, List, [], ◌∷◌, length, if◌then◌else◌, Outcome, ok, pure, guard, lift,
  ◌>>=◌, ◌>>◌,
}
use deployd.Prelude.Int.{ℤ, to_int, lt_len}
use deployd.Entity.Job.{DeploymentJob, DeploymentJobStatus, is_configured, is_deploying}
use deployd.RaftApp.Messages.{
  RestartConfirmation, HostRestartConfirmationResponse, restart_confirmed,
}
use deployd.RaftApp.Runtime.{
  Runtime, Error, not_confirmable, Handler, handed_on, deref, at_int, exactly_one, load_jobs,
  store_job,
}

-- The "deploying" stage begins when a CONFIGURED job is confirmed.
unfoldable pub begin_deploying : String → DeploymentJob → DeploymentJob
begin_deploying agent job =
    if is_configured job.status
    then record job {
      status = DeploymentJobStatus.deploying;
      deployment = record job.deployment { current_order = some 0; confirmed_by = agent };
    }
    else job

-- The host that restarts next; none, the empty text, behind the last one.
pub target_host : ℤ → List String → Outcome Error String
target_host step hosts = if lt_len step (length hosts) then at_int hosts step else ok ""

module _ (R : Runtime) where
  unfoldable pub restart : RestartConfirmation → Handler R
  unfolding begin_deploying target_host
  restart request = do
    jobs ← load_jobs R request.ns request.service request.job_id
    job ← lift (exactly_one jobs)
    guard (is_configured job.status || is_deploying job.status) (not_confirmable job.status)
    job' ← store_job R (begin_deploying request.agent job) none
    order ← lift (deref job'.deployment.current_order)
    target ← lift (target_host (to_int order) job'.deployment.host_order)
    let resp : HostRestartConfirmationResponse = record {
      step = to_int order;
      target_host = target;
      job = job';
      trigger_host = "";
      message = "";
    }
    enc_result ← lift (handed_on (R.marshal_confirmation resp))
    pure (record { broadcasts = restart_confirmed resp ∷ []; value = 0; payload = enc_result })
