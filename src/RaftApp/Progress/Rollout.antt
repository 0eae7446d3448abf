-- ===== src/RaftApp/Progress/Rollout.antt =====
-- A rollout: the hosts report success one after another, and the job is DEPLOYED in the end.
use Prim.Native.Nat.{◌≤◌, ◌<◌, ◌+◌}
use deployd.Prelude.{
  ℕ, String, ◌≡◌, ◌≢◌, refl, sym, ap, ◌∙◌, inr, none, some, List, [], ◌∷◌, ◌++◌, length, get_elem?,
  elem-get_elem?, length-append, arith,
}
use mathlib.Core.Path.{subst}
use mathlib.Core.List.{append_assoc}
use deployd.Prelude.GoMap.{table, set, keys_of, keys_of-set}
use deployd.Prelude.Int.{max_int}
use deployd.Entity.Job.{
  DeploymentJob, DeploymentJobStatus, HostDeploymentStatus, HostDeploymentStatusInfo,
}
use deployd.RaftApp.Messages.{HostRestartServiceUpdateRequest}
use deployd.RaftApp.Runtime.{Runtime}
use deployd.RaftApp.Lifecycle.{AtHost, with_table_at}
use deployd.RaftApp.Progress.{host_restart_service_update}
use deployd.RaftApp.Progress.Refines.{reported}
use deployd.RaftApp.Progress.Turns.{succeeded_last, succeeded_next}

-- A post of a job that has an id is found again under its key.
pub record StoresById (R : Runtime) : Type 0 where
  pub finds :
      (k : DeploymentJob) (s : R.State)
      → k.id ≢ ""
      → R.get_jobs (R.post_job k none s).1 k.ns (k.request.service.id ∷ []) k.id ≡ inr (k ∷ [])

-- The report that a host's restart succeeded.
abbrev pub success_of : DeploymentJob → String → HostRestartServiceUpdateRequest
success_of j host = record {
  ns = j.ns;
  job_id = j.id;
  service = j.request.service.id;
  host_name = host;
  status = HostDeploymentStatus.success;
  error_message = none;
  order = none;
  url = "";
  updated_at = 0;
}

-- The reports of some hosts, in order.
unfoldable pub rollout : (R : Runtime) → DeploymentJob → List String → R.State → R.State
rollout R j [] s = s
rollout R j (h ∷ hs) s = rollout R j hs (host_restart_service_update R (success_of j h) s).1

-- The job is found under its key.
abbrev pub IsFound : (R : Runtime) → R.State → DeploymentJob → DeploymentJob → Type 0
IsFound R s j k = R.get_jobs s j.ns (j.request.service.id ∷ []) j.id ≡ inr (k ∷ [])

-- The hosts behind the first n of a list.
abbrev Remaining : List String → ℕ → List String → Type 0
Remaining all n rest = (done : List String) × (all ≡ done ++ rest) × (length done ≡ n)

get_elem?-done :
    (done : List String) (h : String) (rest : List String)
    → get_elem? (done ++ (h ∷ rest)) (length done) ≡ some h
get_elem?-done [] h rest = refl
get_elem?-done (d ∷ done) h rest = get_elem?-done done h rest

module _ (R : Runtime) (laws : StoresById R) (j : DeploymentJob) (named : j.id ≢ "") where
  -- `k` is the job under way: it has the key and the hosts of `j`.
  pub record IsUnderWay (k : DeploymentJob) (n : ℕ) (l : List (String × HostDeploymentStatusInfo))
      : Type 0 where
    pub same_ns : k.ns ≡ j.ns
    pub same_id : k.id ≡ j.id
    pub same_service : k.request.service.id ≡ j.request.service.id
    pub same_hosts : k.deployment.host_order ≡ j.deployment.host_order
    pub deploying : k.status ≡ DeploymentJobStatus.deploying
    pub at_order : k.deployment.current_order ≡ some n
    pub holds : k.deployment.status ≡ table l
    pub exact : keys_of l ≡ j.deployment.host_order

  pub IsFound-again :
      (k : DeploymentJob) (s : R.State)
      → k.ns ≡ j.ns
      → k.id ≡ j.id
      → k.request.service.id ≡ j.request.service.id
      → IsFound R (R.post_job k none s).1 j k
  IsFound-again k s a b c = rw (← a, ← b, ← c) (laws.finds k s (λ e. named (sym b ∙ e)))

  module _ (done : List String) (h : String) (rest : List String)
      (hosts : j.deployment.host_order ≡ done ++ (h ∷ rest))
      (fits : length j.deployment.host_order ≤ max_int) (k : DeploymentJob)
      (l : List (String × HostDeploymentStatusInfo)) (s : R.State)
      (u : IsUnderWay k (length done) l) (found : IsFound R s j k) where
    at_host : AtHost k (length done) h l
    at_host = record {
      is_deploying = u.deploying;
      at_order = u.at_order;
      in_turn = rw (u.same_hosts, hosts) (get_elem?-done done h rest);
      holds = u.holds;
    }

    abbrev after_success : List (String × HostDeploymentStatusInfo)
    after_success = set h (reported (success_of j h)) l

    keys_after : keys_of after_success ≡ j.deployment.host_order
    keys_after =
        keys_of-set h (reported (success_of j h)) l (
          rw (u.exact, hosts)
            (elem-get_elem? (done ++ (h ∷ rest)) (length done) h (get_elem?-done done h rest)))
        ∙ u.exact

    count_hosts : length (keys_of after_success) ≡ length done + (1 + length rest)
    count_hosts =
        omega (arith, ap length keys_after, ap length hosts, length-append done (h ∷ rest))

    last_turn :
        length rest ≡ 0
        → (m : DeploymentJob) × IsFound R (host_restart_service_update R (success_of j h) s).1 j m
          × (m.status ≡ DeploymentJobStatus.deployed)
    last_turn none_left = (
      record (with_table_at k after_success (length done + 1)) {
        status = DeploymentJobStatus.deployed;
      },
      rw
          (succeeded_last R (success_of j h) s k found (length done) l at_host refl
            (omega (arith, count_hosts, ap length keys_after)) (omega (arith, count_hosts)))
          (IsFound-again
            (record (with_table_at k after_success (length done + 1)) {
              status = DeploymentJobStatus.deployed;
            })
            s u.same_ns u.same_id u.same_service),
      refl,
    )

    abbrev job_after : DeploymentJob
    job_after = with_table_at k after_success (length done + 1)

    next_turn :
        0 < length rest → IsFound R (host_restart_service_update R (success_of j h) s).1 j job_after
    next_turn some_left =
        rw
          (succeeded_next R (success_of j h) s k found (length done) l at_host refl
            (omega (arith, count_hosts, ap length keys_after)) (omega (arith, count_hosts)))
          (IsFound-again job_after s u.same_ns u.same_id u.same_service)

    IsUnderWay-after : IsUnderWay job_after (length (done ++ (h ∷ []))) after_success
    IsUnderWay-after = record {
      same_ns = u.same_ns;
      same_id = u.same_id;
      same_service = u.same_service;
      same_hosts = u.same_hosts;
      deploying = u.deploying;
      at_order = ap some (omega (arith, length-append done (h ∷ [])));
      holds = refl;
      exact = keys_after;
    }

  pub rollout_from :
      (rest : List String) (h : String) (done : List String)
      → j.deployment.host_order ≡ done ++ (h ∷ rest)
      → length j.deployment.host_order ≤ max_int
      → (k : DeploymentJob) (l : List (String × HostDeploymentStatusInfo)) (s : R.State)
      → IsUnderWay k (length done) l
      → IsFound R s j k
      → (m : DeploymentJob) × IsFound R (rollout R j (h ∷ rest) s) j m
        × (m.status ≡ DeploymentJobStatus.deployed)
  unfolding rollout
  rollout_from [] h done hosts fits k l s u found =
      last_turn done h [] hosts fits k l s u found refl
  rollout_from (x ∷ rest) h done hosts fits k l s u found =
      rollout_from rest x (done ++ (h ∷ [])) (hosts ∙ sym (append_assoc done (h ∷ []) (x ∷ rest)))
        fits (job_after done h (x ∷ rest) hosts fits k l s u found)
        (after_success done h (x ∷ rest) hosts fits k l s u found)
        (host_restart_service_update R (success_of j h) s).1
        (IsUnderWay-after done h (x ∷ rest) hosts fits k l s u found)
        (next_turn done h (x ∷ rest) hosts fits k l s u found (omega arith))

-- On a runtime where a posted job with an id is found under its key: a job with an id and at least one
-- host, found under its key, DEPLOYING at place 0, whose host order fits an `int` and is the list of
-- the keys of its status table. Once every host, in order, has reported success, one job is found
-- under the key, and it is DEPLOYED.
pub rollout-deployed :
    (R : Runtime)
    → StoresById R
    → (j : DeploymentJob) (h : String) (rest : List String)
      (l : List (String × HostDeploymentStatusInfo)) (s : R.State)
    → j.id ≢ ""
    → IsFound R s j j
    → j.status ≡ DeploymentJobStatus.deploying
    → j.deployment.current_order ≡ some 0
    → j.deployment.host_order ≡ h ∷ rest
    → length j.deployment.host_order ≤ max_int
    → j.deployment.status ≡ table l
    → keys_of l ≡ j.deployment.host_order
    → (m : DeploymentJob) × IsFound R (rollout R j j.deployment.host_order s) j m
      × (m.status ≡ DeploymentJobStatus.deployed)
rollout-deployed R laws j h rest l s named found d o hosts fits holds exact =
    let (m, again, done) =
      rollout_from R laws j named rest h [] hosts fits j l s
        (record {
          same_ns = refl;
          same_id = refl;
          same_service = refl;
          same_hosts = refl;
          deploying = d;
          at_order = o;
          holds = holds;
          exact = exact;
        })
        found in
    (m, subst (λ hs. IsFound R (rollout R j hs s) j m) (sym hosts) again, done)
