-- ===== src/Main/EntityType.antt =====
-- The entity types that the main program gives to the handlers of the common library, as the type
-- arguments of mycontent_base.New and mycontentapi.NewFromStorage (cmd/deployd/main.go).
use deployd.Prelude.{ℕ, ◌≡◌, length}
use deployd.Entity.Content.{Content}
use deployd.Entity.Host.{Host, host_content}
use deployd.Entity.Service.{ServiceDefinition, service_content}
use deployd.Entity.Job.{DeploymentJob, job_content}
use deployd.Entity.Instance.{ServiceInstanceHost, instance_content}
use deployd.Entity.KeyValue.{Secret, Env, kv_content}
use deployd.Entity.Artifact.{BuildArtifact, Repository, build_content, repository_content}
use deployd.Entity.Raft.{RaftHost, RaftReplica, raft_host_content, raft_replica_content}

pub data EntityType : Type 0 where
  host service_definition service_instance_host raft_host raft_replica repository : EntityType
  build_artifact secret env deployment_job : EntityType

module _ (File : Type 0) where
  abbrev pub Value : EntityType → Type 0
  Value host = Host
  Value service_definition = ServiceDefinition
  Value service_instance_host = ServiceInstanceHost
  Value raft_host = RaftHost
  Value raft_replica = RaftReplica
  Value repository = Repository
  Value build_artifact = BuildArtifact File
  Value secret = Secret
  Value env = Env
  Value deployment_job = DeploymentJob

  -- The methods that a value of the type has.
  abbrev pub content_of : (t : EntityType) → Content (Value t)
  content_of host = host_content
  content_of service_definition = service_content
  content_of service_instance_host = instance_content
  content_of raft_host = raft_host_content
  content_of raft_replica = raft_replica_content
  content_of repository = repository_content
  content_of build_artifact = build_content File
  content_of secret = kv_content
  content_of env = kv_content
  content_of deployment_job = job_content

  -- Every value of the type has as many reference ids.
  abbrev pub HasRefs : EntityType → ℕ → Type 0
  HasRefs t n = (v : Value t) → length ((content_of t).ref_ids v) ≡ n
