-- ===== src/RaftApp/Submit.antt =====
-- userSubmitJob of app.go. The random draw of the port is an argument.
pub mod Refines
pub mod Safety
pub mod Determinism
pub mod Ports
mod Examples
use deployd.Prelude.{
  ℕ, ◌+◌, ◌%◌, ◌^◌, String, ◌<>◌, Bool, false, ◌||◌, Option, none, some, List, [], ◌∷◌, ◌++◌,
  nat_beq, if◌then◌else◌, Outcome, ok, err, panic, nil_dereference, pure, lift, ◌>>=◌,
}
use deployd.Prelude.GoMap.{table, set}
use deployd.Entity.Host.{Host}
use deployd.Entity.Job.{
  SubmitDeploymentJobRequest, DeploymentJob, HostDeploymentStatusInfo, HostConfigurationStatusInfo,
  DeploymentJobStatus, HostDeploymentStatus, HostConfigurationStatus,
}
use deployd.Entity.Instance.{ServiceInstanceHost}
use deployd.Path.{clean, join}
use deployd.RaftApp.Messages.{SubmitJobResponse, SubmitJobStatus, deployment_job_created}
use deployd.RaftApp.Runtime.{
  Runtime, Error, no_target_host, duplicate_replica_id, Handler, handed_on, store_job,
}

-- uint16(rand.UintN(16))%50000 + 14000, for a draw below 16
pub random_port : ℕ → ℕ
random_port draw = draw % 2 ^ 16 % 50000 + 14000

has_number : ℕ → List ℕ → Bool
has_number n [] = false
has_number n (m ∷ ms) = nat_beq n m || has_number n ms

-- The instance that one target host gets.
new_instance : ℕ → SubmitDeploymentJobRequest → Host → ServiceInstanceHost
new_instance port request target =
    let folder = request.service.ns <> "_" <> request.service.id in
    record {
      ns = request.service.ns;
      service = request.service.id;
      host = target.host;
      raft_config = some (record {
        raft_port = port;
        replica_id = target.raft_config.replica_id;
        raft_wal_dir = join (clean target.raft_config.wal_dir ∷ folder ∷ []);
        node_host_dir = join (clean target.raft_config.node_host_dir ∷ folder ∷ []);
        rtt_millisecond = 100;
        deployment_id = 0;
      });
      active_deployment = none;
      latest_deployment = none;
      published_at = 0;
      url = "";
    }

-- The loop over request.TargetHosts: `seen` holds the replica IDs, and a nil pointer panics.
new_instances :
    ℕ
    → SubmitDeploymentJobRequest
    → List ℕ
    → List ServiceInstanceHost
    → List (Option Host)
    → Outcome Error (List ServiceInstanceHost)
new_instances port request seen out [] = ok out
new_instances port request seen out (none ∷ targets) = panic nil_dereference
new_instances port request seen out (some target ∷ targets) =
    let replica_id = target.raft_config.replica_id in
    let rest =
      new_instances port request (replica_id ∷ seen)
        (out ++ (new_instance port request target ∷ [])) targets in
    if has_number replica_id seen then err (duplicate_replica_id replica_id) else rest

-- `if len(instances) == 0`: new instances, for one target host at least.
make_instances :
    ℕ → SubmitDeploymentJobRequest → List (Option Host) → Outcome Error (List ServiceInstanceHost)
make_instances draw request [] = err no_target_host
make_instances draw request (t ∷ ts) = new_instances (random_port draw) request [] [] (t ∷ ts)

-- The instances that are there, or new ones.
pub choose_instances :
    ℕ
    → SubmitDeploymentJobRequest
    → List ServiceInstanceHost
    → Outcome Error (List ServiceInstanceHost)
choose_instances draw request (i ∷ is) = ok (i ∷ is)
choose_instances draw request [] = make_instances draw request request.target_hosts

-- The three results of the loop over the instances.
abbrev pub hosts_of : List ServiceInstanceHost → List String
hosts_of [] = []
hosts_of (i ∷ is) = i.host ∷ hosts_of is

pending_deployment :
    List String
    → List (String × HostDeploymentStatusInfo)
    → List (String × HostDeploymentStatusInfo)
pending_deployment [] m = m
pending_deployment (h ∷ hs) m =
    pending_deployment hs
      (set h (record { error_message = none; status = HostDeploymentStatus.pending }) m)

pending_configuration :
    List String
    → List (String × HostConfigurationStatusInfo)
    → List (String × HostConfigurationStatusInfo)
pending_configuration [] m = m
pending_configuration (h ∷ hs) m =
    pending_configuration hs
      (set h (record { error_message = none; status = HostConfigurationStatus.pending }) m)

-- The job as it is first posted, for the hosts of its instances.
pub new_job : SubmitDeploymentJobRequest → List String → DeploymentJob
new_job request hosts = record {
  ns = request.ns;
  status = DeploymentJobStatus.queued;
  id = "";
  request = request;
  deployment = record {
    confirmed_by = "";
    current_order = none;
    host_order = hosts;
    status = table (pending_deployment hosts []);
  };
  configuration = record { status = table (pending_configuration hosts []) };
  url = "";
  published_at = request.published_at;
}

module _ (R : Runtime) where
  -- The job is posted, and its creation is answered and broadcast.
  post_new_job : SubmitDeploymentJobRequest → List String → Handler R
  post_new_job request hosts = do
    result ← store_job R (new_job request hosts) (some (("author", "kmg") ∷ []))
    let resp : SubmitJobResponse = record {
      submit_job_status = SubmitJobStatus.success;
      job = result;
    }
    enc_result ← lift (handed_on (R.marshal_submit resp))
    pure (record { broadcasts = deployment_job_created resp ∷ []; value = 0; payload = enc_result })

  unfoldable pub user_submit_job : ℕ → SubmitDeploymentJobRequest → Handler R
  unfolding post_new_job new_job pending_deployment pending_configuration choose_instances
      make_instances new_instances new_instance has_number random_port join clean
  user_submit_job draw request = do
    found ← λ s. (handed_on (R.get_instances s request.service.ns (request.service.id ∷ []) ""), s)
    instances ← lift (choose_instances draw request found)
    post_new_job request (hosts_of instances)
