-- ===== src/RaftApp/Progress/Turns.antt =====
-- What a report does, host by host: only the host in turn is heard, and a rollout comes to its end.
use Prim.Native.Nat.{◌≤◌, ◌<◌, ◌+◌}
use text.Mathlib.TextPositions.{eq_refl}
use deployd.Prelude.{ℕ, String, ◌≡◌, ap, true, false, inr, none, List, [], ◌∷◌, length, arith, ltb}
use deployd.Prelude.GoMap.{table, set, keys_of}
use deployd.Prelude.Int.{max_int, to_int_small, uint_incr_small}
use deployd.Entity.Job.{
  DeploymentJob, DeploymentJobStatus, HostDeploymentStatus, HostDeploymentStatusInfo, is_deploying,
  host_failed, host_succeeded,
}
use deployd.RaftApp.Messages.{HostRestartServiceUpdateRequest}
use deployd.RaftApp.Runtime.{Runtime}
use deployd.RaftApp.Lifecycle.{AtHost, with_table, with_table_at}
use deployd.RaftApp.Progress.{by_reported_status, host_restart_service_update}
use deployd.RaftApp.Progress.Refines.{reported, finish_deployment-state, continue_deployment-state}

module _ (R : Runtime) (request : HostRestartServiceUpdateRequest) (s : R.State) (j : DeploymentJob)
    (found : R.get_jobs s request.ns (request.service ∷ []) request.job_id ≡ inr (j ∷ [])) where
  -- The report of the host in turn is written into the table.
  pub host_restart_service_update_in_turn :
      (n : ℕ) (l : List (String × HostDeploymentStatusInfo))
      → AtHost j n request.host_name l
      → host_restart_service_update R request s
        ≡ by_reported_status R request n
            (table (set request.host_name (reported request) l))
            (with_table j (set request.host_name (reported request) l))
            s
  unfolding host_restart_service_update
  host_restart_service_update_in_turn n l at = rw (
    found,
    ap is_deploying at.is_deploying,
    at.at_order,
    at.in_turn,
    eq_refl request.host_name,
    at.holds,
  )

  module _ (n : ℕ) (l : List (String × HostDeploymentStatusInfo))
      (at : AtHost j n request.host_name l) (good : request.status ≡ HostDeploymentStatus.success)
      (fits : n < max_int) where
    abbrev after : List (String × HostDeploymentStatusInfo)
    after = set request.host_name (reported request) l

    -- Success of the last one: DEPLOYED.
    pub succeeded_last :
        length (keys_of after) ≤ n + 1
        → (host_restart_service_update R request s).1
          ≡ (R.post_job
              (record (with_table_at j after (n + 1)) { status = DeploymentJobStatus.deployed })
              none
              s).1
    unfolding by_reported_status
    succeeded_last last =
        let no_more : ltb (n + 1) (length (keys_of after)) ≡ false = ground arith in
        rw (host_restart_service_update_in_turn n l at) (
          rw
            (
              ap host_failed good,
              ap host_succeeded good,
              uint_incr_small n (omega arith),
              to_int_small (n + 1) (omega arith),
              no_more,
            )
            (finish_deployment-state R request s _))

    -- Success of another one: the next place.
    pub succeeded_next :
        n + 1 < length (keys_of after)
        → (host_restart_service_update R request s).1
          ≡ (R.post_job (with_table_at j after (n + 1)) none s).1
    unfolding by_reported_status
    succeeded_next more =
        let some_more : ltb (n + 1) (length (keys_of after)) ≡ true = ground arith in
        rw (host_restart_service_update_in_turn n l at) (
          rw
            (
              ap host_failed good,
              ap host_succeeded good,
              uint_incr_small n (omega arith),
              to_int_small (n + 1) (omega arith),
              some_more,
            )
            (continue_deployment-state R request s _))
