-- ===== src/RaftApp/Submit/Examples.antt =====
-- The choice of the instances at concrete inputs.
use deployd.Prelude.{refl, ◌≡◌, some, [], ◌∷◌, ok, length, ◌<◌, String}
use deployd.Entity.Host.{Host}
use deployd.Entity.Job.{SubmitDeploymentJobRequest, no_request}
use deployd.RaftApp.Submit.{
  choose_instances, make_instances, new_instances, has_number, new_instance, random_port, hosts_of,
}
use deployd.RaftApp.Submit.Refines.{choose_instances-hosts}

abbrev host_named : String → Host
host_named name = record {
  ns = "ns";
  host = name;
  architecture = "amd64";
  os = "linux";
  raft_config = record {
    replica_id = length (name ∷ []);
    wal_dir = "/wal";
    node_host_dir = "/node";
  };
  fqdn = "";
  published_at = 0;
  url = "";
}

abbrev one_target : SubmitDeploymentJobRequest
one_target = record no_request { target_hosts = some (host_named "a") ∷ [] }

one_instance :
    choose_instances 5 one_target []
    ≡ ok (new_instance (random_port 5) one_target (host_named "a") ∷ [])
unfolding choose_instances make_instances new_instances has_number
one_instance = refl

choose_instances-hosts_example :
    (hosts_of (new_instance (random_port 5) one_target (host_named "a") ∷ []) ≡ "a" ∷ [])
    × (0 < length (hosts_of (new_instance (random_port 5) one_target (host_named "a") ∷ [])))
choose_instances-hosts_example =
    choose_instances-hosts 5 one_target []
      (new_instance (random_port 5) one_target (host_named "a") ∷ []) one_instance
