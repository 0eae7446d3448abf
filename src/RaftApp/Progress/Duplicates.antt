-- ===== src/RaftApp/Progress/Duplicates.antt =====
-- A host that is named twice in the order: the end is counted by the entries of the status map, which
-- has one for both, so the job ends too early.
use Prim.Native.Nat.{◌≤◌, ◌<◌, ◌+◌}
use deployd.Prelude.{
  ℕ, String, ◌≡◌, ◌≢◌, refl, true, false, inr, none, some, List, [], ◌∷◌, length, elem, arith, ◌==◌,
  eq_iff,
}
use deployd.Prelude.GoMap.{table, set, keys_of, keys_of-set, lookup, lookup-set}
use deployd.Prelude.Int.{max_int}
use deployd.Entity.Job.{
  DeploymentJob, DeploymentJobStatus, HostDeploymentStatus, HostDeploymentStatusInfo,
}
use deployd.RaftApp.Messages.{HostRestartServiceUpdateRequest}
use deployd.RaftApp.Runtime.{Runtime}
use deployd.RaftApp.Lifecycle.{AtHost, with_table_at}
use deployd.RaftApp.Progress.{host_restart_service_update}
use deployd.RaftApp.Progress.Refines.{reported}
use deployd.RaftApp.Progress.Turns.{succeeded_last}

abbrev written :
    HostRestartServiceUpdateRequest
    → List (String × HostDeploymentStatusInfo)
    → List (String × HostDeploymentStatusInfo)
written request l = set request.host_name (reported request) l

names_differ : (a b : String) → b ≢ a → (a == b) ≡ false
names_differ a b ne = ground (arith, eq_iff a b, ne)

-- Where the request's job is found alone, and the host in turn, which the status table knows, reports
-- success at a place below the largest `int` that is the last by the number of entries, while another
-- host of the order is pending: the state is that after a post of a DEPLOYED job with the same host
-- order, in whose table that host is still pending.
pub deployed_with_pending_host :
    (R : Runtime) (request : HostRestartServiceUpdateRequest) (s : R.State) (j : DeploymentJob)
    (n : ℕ) (l : List (String × HostDeploymentStatusInfo)) (other : String)
    (i : HostDeploymentStatusInfo)
    → R.get_jobs s request.ns (request.service ∷ []) request.job_id ≡ inr (j ∷ [])
    → AtHost j n request.host_name l
    → request.status ≡ HostDeploymentStatus.success
    → n < max_int
    → elem request.host_name (keys_of l) ≡ true
    → length (keys_of l) ≤ n + 1
    → elem other j.deployment.host_order ≡ true
    → other ≢ request.host_name
    → lookup other l ≡ some i
    → i.status ≡ HostDeploymentStatus.pending
    → (k : DeploymentJob) × (t : List (String × HostDeploymentStatusInfo))
      × ((host_restart_service_update R request s).1 ≡ (R.post_job k none s).1)
      × (k.status ≡ DeploymentJobStatus.deployed)
      × (k.deployment.host_order ≡ j.deployment.host_order)
      × (k.deployment.status ≡ table t)
      × (lookup other t ≡ some i)
deployed_with_pending_host R request s j n l other i found at good fits known last member ne pending
      p =
    (
      record (with_table_at j (written request l) (n + 1)) {
        status = DeploymentJobStatus.deployed;
      },
      written request l,
      succeeded_last R request s j found n l at good fits
          (rw (keys_of-set request.host_name (reported request) l known) last),
      refl,
      refl,
      refl,
      rw
          (
            lookup-set request.host_name other (reported request) l,
            names_differ request.host_name other ne,
          )
          pending,
    )
