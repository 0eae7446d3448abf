-- ===== src/RaftApp/Lifecycle.antt =====
-- The life of a deployment job, as a step relation of its own: what one command may do to a job.
use Prim.Native.Nat.{◌≤◌, ◌<◌, ◌+◌, ℕ}
use deployd.Prelude.{
  String, ◌≡◌, ◌≢◌, true, some, none, List, All, Distinct, length, elem, get_elem?,
}
use deployd.Prelude.GoMap.{table, set, keys_of, values_of, lookup}
use deployd.Entity.Job.{
  DeploymentJob, DeploymentJobStatus, HostDeploymentStatus, HostDeploymentStatusInfo,
  HostConfigurationStatus, HostConfigurationStatusInfo,
}

-- Every entry of a configuration map is SUCCESS.
abbrev pub AllConfigured : List HostConfigurationStatusInfo → Type 0
AllConfigured = All (λ i. i.status ≡ HostConfigurationStatus.success)

-- `j` is deploying, `n` is its place in the host order, where `h` stands, and `l` its status table.
pub record AtHost (j : DeploymentJob) (n : ℕ) (h : String)
    (l : List (String × HostDeploymentStatusInfo)) : Type 0 where
  pub is_deploying : j.status ≡ DeploymentJobStatus.deploying
  pub at_order : j.deployment.current_order ≡ some n
  pub in_turn : get_elem? j.deployment.host_order n ≡ some h
  pub holds : j.deployment.status ≡ table l

-- `j` with the deployment table `l`.
abbrev pub with_table : DeploymentJob → List (String × HostDeploymentStatusInfo) → DeploymentJob
with_table j l = record j { deployment = record j.deployment { status = table l } }

-- `j` with the deployment table `l` and the place `n`.
abbrev pub with_table_at :
    DeploymentJob → List (String × HostDeploymentStatusInfo) → ℕ → DeploymentJob
with_table_at j l n = record j {
  deployment = record j.deployment { status = table l; current_order = some n };
}

pub data Step (j k : DeploymentJob) : Type 0 where
  cancel :
      j.status ≢ DeploymentJobStatus.cancelled
      → j.status ≢ DeploymentJobStatus.success
      → k ≡ record j { status = DeploymentJobStatus.cancelled }
      → Step j k
  host_reports :
      (l : List (String × HostConfigurationStatusInfo)) (h : String)
      (i : HostConfigurationStatusInfo)
      → j.configuration.status ≡ table l
      → elem h (keys_of l) ≡ true
      → ¬ AllConfigured (values_of (set h i l))
      → k ≡ record j { configuration = record { status = table (set h i l) } }
      → Step j k
  host_completes :
      (l : List (String × HostConfigurationStatusInfo)) (h : String)
      (i : HostConfigurationStatusInfo)
      → j.configuration.status ≡ table l
      → elem h (keys_of l) ≡ true
      → AllConfigured (values_of (set h i l))
      → k ≡ record j {
        configuration = record { status = table (set h i l) };
        status = DeploymentJobStatus.configured;
      }
      → Step j k
  begin :
      (agent : String)
      → j.status ≡ DeploymentJobStatus.configured
      → k ≡ record j {
        status = DeploymentJobStatus.deploying;
        deployment = record j.deployment { current_order = some 0; confirmed_by = agent };
      }
      → Step j k
  confirm : j.status ≡ DeploymentJobStatus.deploying → k ≡ j → Step j k
  fail :
      (n : ℕ) (h : String) (l : List (String × HostDeploymentStatusInfo))
      (i : HostDeploymentStatusInfo)
      → AtHost j n h l
      → i.status ≡ HostDeploymentStatus.failed
      → k ≡ record (with_table j (set h i l)) { status = DeploymentJobStatus.failed }
      → Step j k
  note :
      (n : ℕ) (h : String) (l : List (String × HostDeploymentStatusInfo))
      (i : HostDeploymentStatusInfo)
      → AtHost j n h l
      → i.status ≢ HostDeploymentStatus.failed
      → i.status ≢ HostDeploymentStatus.success
      → k ≡ with_table j (set h i l)
      → Step j k
  next :
      (n : ℕ) (h : String) (l : List (String × HostDeploymentStatusInfo))
      (i : HostDeploymentStatusInfo)
      → AtHost j n h l
      → i.status ≡ HostDeploymentStatus.success
      → n + 1 < length (keys_of (set h i l))
      → k ≡ with_table_at j (set h i l) (n + 1)
      → Step j k
  finish :
      (n : ℕ) (h : String) (l : List (String × HostDeploymentStatusInfo))
      (i : HostDeploymentStatusInfo)
      → AtHost j n h l
      → i.status ≡ HostDeploymentStatus.success
      → length (keys_of (set h i l)) ≤ n + 1
      → k ≡ record (with_table_at j (set h i l) (n + 1)) { status = DeploymentJobStatus.deployed }
      → Step j k

-- What a table holds for each host of a list: the status `pending` and no message.
abbrev pub AllPending : List String → List (String × HostDeploymentStatusInfo) → Type 0
AllPending hosts l =
    All
      (λ h.
        lookup h l ≡ some (record { error_message = none; status = HostDeploymentStatus.pending }))
      hosts

abbrev pub AllUnconfigured : List String → List (String × HostConfigurationStatusInfo) → Type 0
AllUnconfigured hosts l =
    All
      (λ h.
        lookup h l
        ≡ some (record { error_message = none; status = HostConfigurationStatus.pending }))
      hosts

-- A job as it is created.
pub record IsNew (j : DeploymentJob) : Type 0 where
  pub queued : j.status ≡ DeploymentJobStatus.queued
  pub unnamed : j.id ≡ ""
  pub not_started : j.deployment.current_order ≡ none
  pub has_hosts : 0 < length j.deployment.host_order
  pub table_of : List (String × HostDeploymentStatusInfo)
  pub holds : j.deployment.status ≡ table table_of
  pub pending : AllPending j.deployment.host_order table_of
  pub none_extra : length (keys_of table_of) ≤ length j.deployment.host_order
  pub in_order : Distinct j.deployment.host_order → keys_of table_of ≡ j.deployment.host_order
  pub configuration_of : List (String × HostConfigurationStatusInfo)
  pub configures : j.configuration.status ≡ table configuration_of
  pub unconfigured : AllUnconfigured j.deployment.host_order configuration_of
