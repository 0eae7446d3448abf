-- ===== src/RaftApp/Replay/Deployed.antt =====
-- What a client reads after any log: valid jobs, and DEPLOYED only where every host is done.
use deployd.Prelude.{String, ◌≡◌, List, All}
use deployd.Prelude.GoMap.{table}
use deployd.Entity.Job.{DeploymentJob, HostDeploymentStatusInfo}
use deployd.RaftApp.Runtime.{Runtime}
use deployd.RaftApp.Order.{IsDone}

-- Every host of the job restarted with success.
pub record IsComplete (j : DeploymentJob) : Type 0 where
  pub table_of : List (String × HostDeploymentStatusInfo)
  pub holds : j.deployment.status ≡ table table_of
  pub complete : All (λ h. IsDone h table_of) j.deployment.host_order
