-- ===== src/Examples/Raft.antt =====
-- The raft application on the runtime in memory.
use mathlib.Core.List.{Memᴰ}
use deployd.Prelude.{
  ℕ, String, ◌≡◌, ◌≢◌, refl, ◌⊎◌, inr, none, some, List, [], ◌∷◌, arith, true, false, All, eq_iff,
}
use deployd.Prelude.GoMap.{table, lookup}
use deployd.Entity.Job.{
  DeploymentJob, DeploymentJobStatus, HostDeploymentStatus, HostDeploymentStatusInfo,
  HostConfigurationStatus, HostConfigurationStatusInfo,
}
use deployd.RaftApp.Runtime.{Runtime, Fault}
use deployd.RaftApp.Memory.{memory, select}
use deployd.RaftApp.Memory.Laws.{memory-IsSized, memory-KeepsJobs}
use deployd.RaftApp.Replay.{Readable, readable}
use deployd.RaftApp.Validity.{IsValid}
use deployd.RaftApp.Update.{on_update}
use deployd.RaftApp.Submit.{user_submit_job}
use deployd.RaftApp.Submit.Determinism.{user_submit_job-draw}
use deployd.RaftApp.Progress.Rollout.{StoresById}
use deployd.RaftApp.Deployment.Whole.{deployment, deployment-deployed}
use deployd.RaftApp.Effect.{Effect}
use deployd.RaftApp.Safe.{Safe}
use deployd.RaftApp.Update.Refines.{on_update-Effect}
use deployd.RaftApp.Update.Safety.{IsAnswerable, on_update-Safe}
use deployd.RaftApp.Runtime.{Entry}
use deployd.RaftApp.Memory.{Json, submit}
use deployd.Entity.Job
use deployd.RaftApp.Messages.{HostRestartServiceUpdateRequest}
use deployd.Examples.Fixtures.{request, restarted_report}
use deployd.Examples.Fixtures.{deployed_job, info}

inr_same : {A : Type 0} {x y : A} (r : Fault ⊎ A) → r ≡ inr x → r ≡ inr y → x ≡ y
inr_same r h k = cc

false-true : ¬ (false ≡ true)
false-true h = cc

b_not_a : ◌≢◌ {A = String} "b" "a"
b_not_a h = false-true ((eq_iff "b" "a").1 h)

none_at_first : (j : DeploymentJob) → ¬ Readable memory [] j
unfolding select
none_at_first j (readable ns service id js e m) = no_member js (inr_same (inr []) refl e) m
  where
    no_member : (js : List DeploymentJob) → [] ≡ js → ¬ Memᴰ j js
    no_member [] h m = elim m [ ]
    no_member (k ∷ ks) h m = cc

abbrev submission : Entry Json
submission = record { command = "deployd.user.submit-job"; value = submit request }

on_update-Effect_example : Effect memory [] (on_update memory 5 submission []).1
on_update-Effect_example = on_update-Effect memory [] 5 submission (memory-IsSized [])

submission-IsAnswerable : IsAnswerable memory [] submission
submission-IsAnswerable = record {
  hosts = λ r e. named r (inr_same (inr request) refl e);
  known = λ r e. cc;
}
  where
    named : (r : Job.SubmitDeploymentJobRequest) → request ≡ r → All (λ t. t ≢ none) r.target_hosts
    named r e = rw (← e) (λ h. cc, tt)

on_update-Safe_example : Safe (on_update memory 5 submission []).0
on_update-Safe_example =
    on_update-Safe memory memory-KeepsJobs [] 5 submission
      (λ ns service id js e. readable_none ns service id js e) (memory-IsSized [])
      submission-IsAnswerable
  where
    readable_none :
        (ns service id : String) (js : List DeploymentJob)
        → memory.get_jobs [] ns (service ∷ []) id ≡ inr js
        → All IsValid js
    readable_none ns service id [] e = tt
    readable_none ns service id (j ∷ js) e =
        absurd (none_at_first j (readable ns service id (j ∷ js) e (Memᴰ.head refl)))

user_submit_job-draw_example :
    user_submit_job memory 3 request [] ≡ user_submit_job memory 11 request []
user_submit_job-draw_example = user_submit_job-draw memory 3 11 request []

-- A job of two hosts that has begun to deploy.
abbrev pending_table : List (String × HostDeploymentStatusInfo)
pending_table =
    ("a", info HostDeploymentStatus.pending) ∷ ("b", info HostDeploymentStatus.pending) ∷ []

abbrev deploying_on : List String → ℕ → DeploymentJob
deploying_on hosts n = record deployed_job {
  status = DeploymentJobStatus.deploying;
  deployment = record {
    confirmed_by = "user";
    current_order = some n;
    host_order = hosts;
    status = table pending_table;
  };
}

abbrev deploying_job : DeploymentJob
deploying_job = deploying_on ("a" ∷ "b" ∷ []) 0

-- A job table with room for one job.
abbrev single : Runtime
single = record memory { get_jobs = λ s ns refs id. inr s; post_job = λ k meta s. (inr k, k ∷ []) }

single-StoresById : StoresById single
single-StoresById = record { finds = λ k s named. refl }

-- The same job before its hosts are configured. Host b reports twice.
abbrev pending_configurations : List (String × HostConfigurationStatusInfo)
pending_configurations =
    ("a", record { error_message = none; status = HostConfigurationStatus.pending })
    ∷ ("b", record { error_message = none; status = HostConfigurationStatus.pending })
    ∷ []

abbrev queued_job : DeploymentJob
queued_job = record deploying_job {
  status = DeploymentJobStatus.queued;
  configuration = record { status = table pending_configurations };
}

deployment-deployed_example :
    (m : DeploymentJob) × (single.get_jobs
        (deployment single queued_job "user" ("b" ∷ "a" ∷ "b" ∷ []) (queued_job ∷ []))
        "ns"
        ("svc" ∷ [])
        "1"
      ≡ inr (m ∷ []))
    × (m.status ≡ DeploymentJobStatus.deployed)
deployment-deployed_example =
    deployment-deployed single single-StoresById queued_job "user" ("a" ∷ "b" ∷ []) "b"
      ("a" ∷ "b" ∷ []) pending_configurations "a" ("b" ∷ []) pending_table (queued_job ∷ [])
      (λ h. cc) refl refl refl (refl, (refl, tt)) (refl, (refl, (refl, tt))) (refl, (refl, tt)) refl
      (omega arith) refl refl

abbrev late_report : HostRestartServiceUpdateRequest
late_report = record restarted_report { host_name = "b" }

-- The host a stands twice in the order.
abbrev doubled_job : DeploymentJob
doubled_job = deploying_on ("a" ∷ "a" ∷ "b" ∷ []) 1

doubled_found : memory.get_jobs (doubled_job ∷ []) "ns" ("svc" ∷ []) "1" ≡ inr (doubled_job ∷ [])
unfolding select
doubled_found = refl

b_pending : lookup "b" pending_table ≡ some (info HostDeploymentStatus.pending)
unfolding lookup
b_pending = refl

-- A cancelled job whose only host has not reported yet.
abbrev cancelled_job : DeploymentJob
cancelled_job = record deployed_job { status = DeploymentJobStatus.cancelled }

abbrev cancellation : Job.CancelJobRequest
cancellation = record { ns = "ns"; id = "1"; service = "svc" }
