-- ===== src/Examples/Hosts.antt =====
-- A deployment on the host in memory, and the controllers of two hosts.
use deployd.Prelude.{◌≡◌, refl, true, false, List, [], ◌∷◌, ◌≤◌}
use deployd.Path.{join}
use deployd.RaftApp.Messages.{
  Event, deployment_job_created, SubmitJobStatus, ConfigurationUpdateResponse,
}
use deployd.HostDeploy.{
  DeployConfig, config_for, current_link, etc_env_link, with_base, deploy, execute, check_files,
  replace_links, switch_links, start_and_verify, switch_symlink_atomic, start_service, stop_service,
  is_active,
}
use deployd.Prelude.Decimal.{format_uint}
use deployd.HostDeploy.{rollback}
use deployd.HostDeploy.Recovery.{rollback-restores}
use deployd.Prelude.{none, eq_iff, ◌≢◌, String}
use deployd.HostDeploy.Switch.{IsApart}
use deployd.HostDeploy.Ends.{Ends, IsLive, LinksBetween}
use deployd.HostDeploy.Links.{deploy-links}
use deployd.Controller.{
  consume, get_key, confirm_restart_service, confirmation_for, start_restart_host_service_reports,
}
use deployd.Controller.Starts.{starts, consume-starts}
use deployd.Controller.Believe.{
  confirmations, confirmations-once, continuations, continuations-once,
}
use deployd.Controller.Restarts.{reports_success, start_restart_host_service_reports-IsLive}
use deployd.Prelude.Int.{pos}
use deployd.Entity.Job.{DeploymentJobStatus}
use deployd.RaftApp.Messages.{HostRestartServiceUpdateResponse}
use deployd.Examples.Fixtures.{deployed_job}
use deployd.Examples.Machines.{machine, machine-IsPosix, empty_disk}

abbrev config : DeployConfig
config = record {
  service_name = "ns_svc";
  build_id = "7";
  env_version = "3";
  base_dir = "";
  bin_path = "bin/svc";
}

current-IsApart : IsApart (current_link (with_base config)) (etc_env_link (with_base config))
unfolding join
current-IsApart = record { tmp_here = refl; tmp_there = refl; there = refl }

env-IsApart : IsApart (etc_env_link (with_base config)) (current_link (with_base config))
unfolding join
env-IsApart = record { tmp_here = refl; tmp_there = refl; there = refl }

deploy-links_example :
    Ends
      (IsLive machine (with_base config))
      (LinksBetween machine (with_base config) "" "")
      (deploy machine config empty_disk)
deploy-links_example =
    deploy-links machine machine-IsPosix config empty_disk current-IsApart env-IsApart

job_current-IsApart :
    IsApart (current_link (config_for deployed_job)) (etc_env_link (config_for deployed_job))
unfolding join
job_current-IsApart = record { tmp_here = refl; tmp_there = refl; there = refl }

job_env-IsApart :
    IsApart (etc_env_link (config_for deployed_job)) (current_link (config_for deployed_job))
unfolding join
job_env-IsApart = record { tmp_here = refl; tmp_there = refl; there = refl }

job_reported :
    reports_success
      (start_restart_host_service_reports "a"
        (λ _. false)
        machine
        (λ _. "failed")
        deployed_job
        1
        2
        empty_disk).0
    ≡ true
unfolding start_restart_host_service_reports execute deploy check_files replace_links switch_links
    start_and_verify switch_symlink_atomic start_service stop_service is_active format_uint join
job_reported = refl

start_restart_host_service_reports-IsLive_example :
    IsLive machine
      (config_for deployed_job)
      (start_restart_host_service_reports "a"
        (λ _. false)
        machine
        (λ _. "failed")
        deployed_job
        1
        2
        empty_disk).1
start_restart_host_service_reports-IsLive_example =
    start_restart_host_service_reports-IsLive machine machine-IsPosix "a" (λ _. false)
      (λ _. "failed") deployed_job 1 2 empty_disk job_current-IsApart job_env-IsApart job_reported

-- The creation of a job, delivered twice.
abbrev twice : List Event
twice =
    deployment_job_created
      (record { submit_job_status = SubmitJobStatus.success; job = deployed_job })
    ∷ deployment_job_created
        (record { submit_job_status = SubmitJobStatus.success; job = deployed_job })
    ∷ []

consume-starts_example : starts (get_key deployed_job) (consume "a" 0 twice []) ≤ 1
consume-starts_example = consume-starts (get_key deployed_job) "a" 0 twice []

abbrev believed : ConfigurationUpdateResponse
believed = record {
  confirm_immediately = true;
  trigger_host = "b";
  job = record deployed_job { request = record deployed_job.request { is_believe = true } };
}

confirmations-once_example :
    confirmations 5 ("a" ∷ "b" ∷ []) believed
    ≡ confirm_restart_service (confirmation_for "b" 5 believed.job) ∷ []
confirmations-once_example =
    confirmations-once 5 believed ("a" ∷ "b" ∷ []) (refl, (refl, tt)) refl refl

false-true : ¬ (false ≡ true)
false-true h = cc

old_a_named : ◌≢◌ {A = String} "old_a" ""
old_a_named h = false-true ((eq_iff "old_a" "").1 h)

old_b_named : ◌≢◌ {A = String} "old_b" ""
old_b_named h = false-true ((eq_iff "old_b" "").1 h)

a_switched : (switch_symlink_atomic machine "/a" "old_a" empty_disk).0 ≡ none
unfolding switch_symlink_atomic
a_switched = refl

b_switched :
    (switch_symlink_atomic machine "/b" "old_b"
      (switch_symlink_atomic machine "/a" "old_a" empty_disk).1).0
    ≡ none
unfolding switch_symlink_atomic
b_switched = refl

rollback-restores_example :
    (machine.readlink (rollback machine "/a" "old_a" "/b" "old_b" "ns_svc.service" empty_disk) "/a"
      ≡ "old_a")
    × (machine.readlink
          (rollback machine "/a" "old_a" "/b" "old_b" "ns_svc.service" empty_disk)
          "/b"
        ≡ "old_b")
rollback-restores_example =
    rollback-restores machine machine-IsPosix "/a" "/b" "old_a" "old_b" "ns_svc.service" empty_disk
      (record { tmp_here = refl; tmp_there = refl; there = refl })
      (record { tmp_here = refl; tmp_there = refl; there = refl }) old_a_named old_b_named
      a_switched b_switched

abbrev half_way : HostRestartServiceUpdateResponse
half_way = record {
  step = pos 0;
  target_host = "";
  job = record deployed_job {
    status = DeploymentJobStatus.deploying;
    request = record deployed_job.request { is_believe = true };
  };
  trigger_host = "a";
  deploy_immediately = true;
  failed = false;
  fail_reason = none;
}

continuations-once_example :
    continuations 5 ("a" ∷ "b" ∷ []) half_way
    ≡ confirm_restart_service (confirmation_for "a" 5 half_way.job) ∷ []
continuations-once_example =
    continuations-once 5 half_way ("a" ∷ "b" ∷ []) (refl, (refl, tt)) refl refl refl
