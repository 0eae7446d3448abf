-- ===== src/RaftApp/Configure/Revival.antt =====
-- hostConfigurationUpdate does not look at the job's own status.
use deployd.Entity.Job.{HostConfigurationStatusInfo}
use deployd.RaftApp.Messages.{ConfigurationUpdateRequest}
use deployd.RaftApp.Runtime.{Runtime}

abbrev pub configuration_info : ConfigurationUpdateRequest → HostConfigurationStatusInfo
configuration_info request = record {
  status = request.status;
  error_message = request.error_message;
}
