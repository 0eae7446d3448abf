-- ===== src/RaftApp/Progress/Safety.antt =====
-- hostRestartServiceUpdate does not panic on valid jobs.
use deployd.Prelude.{
  ℕ, String, ◌≡◌, Bool, true, false, not, none, some, List, [], ◌∷◌, ok, get_elem?, get_elem?_lt,
  arith, All, ◌==◌, if◌then◌else◌,
}
use deployd.Prelude.GoMap.{GoMap, table, insert, len}
use deployd.Prelude.Int.{to_int, uint_incr, lt_len}
use deployd.Entity.Job.{
  DeploymentJob, DeploymentJobStatus, HostDeploymentStatusInfo, is_deploying, host_failed,
  host_succeeded,
}
use deployd.RaftApp.Messages.{HostRestartServiceUpdateRequest}
use deployd.RaftApp.Runtime.{
  Runtime, Error, Handler, handed_on, exactly_one, deref, elem_or_panic, invalid_state,
  not_on_deployment,
}
use deployd.RaftApp.Safe.{
  Safe, Safe-ok, Safe-handed_on, Safe-exactly_one, Safe-continue, Safe-guard, Safe-store_job,
  Safe-reply,
}
use deployd.RaftApp.Effect.Rules.{handed_on-ok, exactly_one-ok}
use deployd.RaftApp.Validity.{IsValid}
use deployd.RaftApp.Replay.{StoredAll}
use deployd.RaftApp.Restart.Safety.{Safe-deref}
use deployd.RaftApp.Progress.Refines.{is_deploying_lem, deref-ok}
use deployd.RaftApp.Progress.{
  with_deployment_status, fail_job, note_status, finish_deployment, continue_deployment,
  by_reported_status, host_restart_service_update,
}

module _ (R : Runtime) (request : HostRestartServiceUpdateRequest) where
  Safe-if :
      (b : Bool) (f g : Handler R) (s : R.State)
      → Safe (f s).0
      → Safe (g s).0
      → Safe ((if b then f else g) s).0
  Safe-if true f g s x y = x
  Safe-if false f g s x y = y

  fail_job-Safe : (k : DeploymentJob) (s : R.State) → Safe (fail_job R request k s).0
  unfolding fail_job
  fail_job-Safe k s =
      Safe-store_job R (record k { status = DeploymentJobStatus.failed }) none _ s
        λ j t _. Safe-reply R (R.marshal_restart _) _ t

  note_status-Safe : (k : DeploymentJob) (s : R.State) → Safe (note_status R request k s).0
  unfolding note_status
  note_status-Safe k s = Safe-store_job R k none _ s λ j t _. Safe-reply R (R.marshal_restart _) _ t

  finish_deployment-Safe :
      (k : DeploymentJob) (s : R.State) → Safe (finish_deployment R request k s).0
  unfolding finish_deployment
  finish_deployment-Safe k s =
      Safe-store_job R (record k { status = DeploymentJobStatus.deployed }) none _ s
        λ j t _. Safe-reply R (R.marshal_restart _) _ t

  continue_deployment-Safe :
      (k : DeploymentJob) (s : R.State) → Safe (continue_deployment R request k s).0
  unfolding continue_deployment
  continue_deployment-Safe k s =
      Safe-store_job R k none _ s λ j t _. Safe-reply R (R.marshal_job j) _ t

  by_reported_status-Safe :
      (n : ℕ) (m : GoMap HostDeploymentStatusInfo) (k : DeploymentJob) (s : R.State)
      → Safe (by_reported_status R request n m k s).0
  unfolding by_reported_status
  by_reported_status-Safe n m k s = Safe-if (host_failed request.status) _ _ s (fail_job-Safe k s) (
      Safe-if (not (host_succeeded request.status)) _ _ s (note_status-Safe k s) (
        Safe-if (not (lt_len (to_int (uint_incr n)) (len m))) _ _ s (finish_deployment-Safe _ s)
          (continue_deployment-Safe _ s)))

insert_table-Safe :
    (h : String) (i : HostDeploymentStatusInfo) (m : GoMap HostDeploymentStatusInfo)
    (l : List (String × HostDeploymentStatusInfo))
    → m ≡ table l
    → Safe (insert {E = Error} h i m)
insert_table-Safe h i m l e = rw e (Safe-ok _)

-- A deploying, valid job has a host at its place.
at_place-Safe :
    (j : DeploymentJob) (n : ℕ)
    → IsValid j
    → j.status ≡ DeploymentJobStatus.deploying
    → j.deployment.current_order ≡ some n
    → Safe (elem_or_panic (get_elem? j.deployment.host_order n))
at_place-Safe j n v d o =
    let (m, at, lt) = v.placed d in
    let same : m ≡ n = cc (at, o) in
    let (h, e) = get_elem?_lt j.deployment.host_order n (omega (arith, v.bounded, same)) in
    rw e (Safe-ok h)

module _ (R : Runtime) where
  pub host_restart_service_update-Safe :
      (request : HostRestartServiceUpdateRequest) (s : R.State)
      → StoredAll R IsValid s
      → Safe (host_restart_service_update R request s).0
  unfolding host_restart_service_update
  host_restart_service_update-Safe request s all =
      Safe-continue (handed_on (R.get_jobs s request.ns (request.service ∷ []) request.job_id)) _ s
        (Safe-handed_on _)
        λ js e. Safe-continue (exactly_one js) _ s (Safe-exactly_one js) λ j g.
          let v : IsValid j =
            valid_one js j (all request.ns request.service request.job_id js (handed_on-ok _ js e))
              g in
          Safe-guard (is_deploying j.status) invalid_state _ s λ d.
            Safe-continue (deref j.deployment.current_order) _ s
              (Safe-deref _ _ (v.placed (is_deploying_lem j.status d)).1)
              λ n o.
                Safe-continue (elem_or_panic (get_elem? j.deployment.host_order n)) _ s
                  (at_place-Safe j n v (is_deploying_lem j.status d) (deref-ok _ n o))
                  λ h t.
                    Safe-guard (h == request.host_name) (not_on_deployment request.host_name h) _ s
                      λ same.
                        Safe-continue
                          (insert request.host_name
                            (record {
                              status = request.status;
                              error_message = request.error_message;
                            })
                            j.deployment.status)
                          _ s (insert_table-Safe _ _ _ v.table_of v.holds)
                          λ new w.
                            by_reported_status-Safe R request n new (with_deployment_status j new) s
    where
      valid_one :
          (js : List DeploymentJob) (j : DeploymentJob)
          → All IsValid js
          → exactly_one js ≡ ok j
          → IsValid j
      valid_one js j vs g = (rw (exactly_one-ok js j g) at vs).0
