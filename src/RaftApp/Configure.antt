-- ===== src/RaftApp/Configure.antt =====
-- hostConfigurationUpdate of app.go.
pub mod Refines
pub mod Safety
pub mod Revival
use deployd.Prelude.{
  String, Bool, true, ◌&&◌, Option, none, some, List, [], ◌∷◌, if◌then◌else◌, Outcome, ok, err,
  pure, lift, ◌>>=◌, ◌>>◌,
}
use deployd.Prelude.GoMap.{GoMap, nil, table, index, insert, values}
use deployd.Entity.Job.{
  DeploymentJob, DeploymentJobStatus, HostConfigurationStatusInfo, host_configured,
}
use deployd.RaftApp.Messages.{
  ConfigurationUpdateRequest, ConfigurationUpdateResponse, host_configured as host_configured_event,
  all_host_configured,
}
use deployd.RaftApp.Runtime.{
  Runtime, Error, invalid_job, invalid_host, Handler, handed_on, exactly_one, load_jobs, store_job,
}

-- The loop over the map: every host reports SUCCESS.
pub all_configured : List HostConfigurationStatusInfo → Bool
all_configured [] = true
all_configured (i ∷ is) = host_configured i.status && all_configured is

-- The tests of the map and of the host's key.
abbrev require_key : String → Option HostConfigurationStatusInfo → Outcome Error Unit
require_key h none = err (invalid_host h)
require_key h (some _) = ok tt

abbrev check_host : String → GoMap HostConfigurationStatusInfo → Outcome Error Unit
check_host h nil = err invalid_job
check_host h (table l) = require_key h (index h (table l))

-- The job with the host's status written, CONFIGURED if now every host is.
unfoldable pub with_configuration :
    DeploymentJob → GoMap HostConfigurationStatusInfo → DeploymentJob
unfolding all_configured
with_configuration job status = record job {
  configuration = record { status = status };
  status = if all_configured (values status) then DeploymentJobStatus.configured else job.status;
}

module _ (R : Runtime) where
  unfoldable pub host_configuration_update : ConfigurationUpdateRequest → Handler R
  unfolding with_configuration
  host_configuration_update request = do
    jobs ← load_jobs R request.ns request.service request.job_id
    job ← lift (exactly_one jobs)
    lift (check_host request.host_name job.configuration.status)
    status ← lift (
        insert request.host_name
          (record { status = request.status; error_message = request.error_message })
          job.configuration.status)
    let all_host_configured_now = all_configured (values status)
    job' ← store_job R (with_configuration job status) none
    let resp : ConfigurationUpdateResponse = record {
      job = job';
      confirm_immediately = job'.request.is_believe;
      trigger_host = request.host_name;
    }
    enc_result ← lift (handed_on (R.marshal_configuration resp))
    pure (record {
      broadcasts =
          if all_host_configured_now
          then host_configured_event resp ∷ all_host_configured resp ∷ []
          else host_configured_event resp ∷ [];
      value = 0;
      payload = enc_result;
    })
