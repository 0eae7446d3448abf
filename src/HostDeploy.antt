-- ===== src/HostDeploy.antt =====
-- restartHostService.Execute and Deploy of internal/src/deploy-job/job_deploy_restart.go: stop the
-- unit, point two symbolic links to the new release, start the unit, and roll back if that fails.
pub mod Calls
pub mod Switch
pub mod Ends
pub mod Checks
pub mod Replace
pub mod Links
pub mod Recovery
use deployd.Prelude.Decimal.{format_uint}
use deployd.Prelude.{
  ℕ, String, ◌<>◌, Bool, true, false, not, ◌||◌, ◌==◌, Option, none, some, ◌⊎◌, inl, inr, List, [],
  ◌∷◌, ◌+◌, ◌/◌, ◌%◌, nat_beq, if◌then◌else◌, Outcome, ok, err, Action, pure, raise, guard, ◌>>=◌,
  ◌>>◌,
}
use deployd.Path.{join}
use deployd.Entity.Job.{DeploymentJob}
use deployd.HostDeploy.Calls.{Machine, Fault, FileInfo, Call}

pub record DeployConfig : Type 0 where
  pub service_name : String
  pub build_id : String
  pub env_version : String
  pub base_dir : String
  pub bin_path : String

-- The errors of Deploy, one for each place that makes or wraps one.
pub data DeployError : Type 0 where
  missing_name : DeployError
  no_release no_env_release no_overwrite_env no_binary : String → DeployError
  chmod_failed mkdir_failed env_switch_failed start_failed external : Fault → DeployError
  unhealthy : Option Fault → DeployError

-- The empty base directory stands for /opt.
abbrev pub with_base : DeployConfig → DeployConfig
with_base cfg = if cfg.base_dir == "" then record cfg { base_dir = "/opt" } else cfg

abbrev pub service_dir : DeployConfig → String
service_dir cfg = join (cfg.base_dir ∷ cfg.service_name ∷ [])

abbrev pub release_dir : DeployConfig → String
release_dir cfg = join (service_dir cfg ∷ "build-release" ∷ cfg.build_id ∷ [])

abbrev pub env_release_dir : DeployConfig → String
env_release_dir cfg = join (service_dir cfg ∷ "env-release" ∷ cfg.env_version ∷ [])

abbrev pub current_link : DeployConfig → String
current_link cfg = join (service_dir cfg ∷ "current" ∷ [])

abbrev pub etc_service_dir : DeployConfig → String
etc_service_dir cfg = join ("/etc" ∷ cfg.service_name ∷ [])

abbrev pub etc_env_link : DeployConfig → String
etc_env_link cfg = join (etc_service_dir cfg ∷ "env" ∷ [])

abbrev pub unit_name : DeployConfig → String
unit_name cfg = cfg.service_name <> ".service"

abbrev is_directory : Option FileInfo → Bool
is_directory none = false
is_directory (some info) = info.is_dir

abbrev exists_ : Option FileInfo → Bool
exists_ none = false
exists_ (some _) = true

-- mode & 0100
abbrev owner_executes : ℕ → Bool
owner_executes mode = nat_beq (mode / 64 % 2) 1

-- The configuration that Execute makes for a job.
abbrev pub config_for : DeploymentJob → DeployConfig
config_for job = record {
  service_name = job.ns <> "_" <> job.request.service.id;
  build_id = format_uint job.request.build_version;
  env_version = format_uint job.request.env_version;
  base_dir = "/opt";
  bin_path = job.request.service.executable_path;
}

module _ (M : Machine) where
  abbrev pub Step : Type 0
  Step = Action M.State DeployError Unit

  -- The error of a call, wrapped and returned.
  abbrev pub after : Option Fault → (Fault → DeployError) → Step
  after none wrap s = (ok tt, s)
  after (some f) wrap s = (err (wrap f), s)

  abbrev pub attempt : Call M.State → (Fault → DeployError) → Step
  attempt call wrap s = after (call s).0 wrap (call s).1

  abbrev pub then_call : Option Fault → Call M.State → Call M.State
  then_call none call s = call s
  then_call (some f) call s = (some f, s)

  -- Two calls, the second one unless the first fails.
  abbrev pub in_turn : Call M.State → Call M.State → Call M.State
  in_turn first second s = then_call (first s).0 second (first s).1

  -- The request, and the wait for its job or for the end of the context.
  unfoldable pub stop_service : String → Call M.State
  stop_service unit = in_turn (M.stop_unit unit) M.wait

  unfoldable pub start_service : String → Call M.State
  start_service unit = in_turn (M.start_unit unit) M.wait

  abbrev active_of : Fault ⊎ Option String → Fault ⊎ Bool
  active_of (inl f) = inl f
  active_of (inr none) = inl "ActiveState missing"
  active_of (inr (some state)) = inr (state == "active")

  unfoldable pub is_active : M.State → String → Fault ⊎ Bool
  is_active s unit = active_of (M.active_state s unit)

  unfoldable pub switch_symlink_atomic : String → String → Call M.State
  switch_symlink_atomic link_path new_target s =
      let tmp_link = link_path <> ".tmp" in
      in_turn (M.symlink new_target tmp_link) (M.rename tmp_link link_path) (M.remove tmp_link s)

  -- `if prev != "" { _ = switchSymlinkAtomic(link, prev) }`
  abbrev pub restore : String → String → M.State → M.State
  restore link prev s = if prev == "" then s else (switch_symlink_atomic link prev s).1

  pub rollback : String → String → String → String → String → M.State → M.State
  unfolding switch_symlink_atomic start_service
  rollback build_link prev_build env_link prev_env unit s =
      (start_service unit (restore env_link prev_env (restore build_link prev_build s))).1

  abbrev check_mode : String → Option FileInfo → Step
  check_mode path none = raise (no_binary path)
  check_mode path (some info) =
      if owner_executes info.mode
      then pure tt
      else attempt (M.chmod path (info.mode + 64)) chmod_failed

  -- Steps 1 to 4 of Deploy: the files are there, and the directory under /etc.
  unfoldable pub check_files : DeployConfig → Step
  check_files cfg s =
      (guard (is_directory (M.stat s (release_dir cfg))) (no_release (release_dir cfg))
          >> guard (is_directory (M.stat s (env_release_dir cfg)))
              (no_env_release (env_release_dir cfg))
          >> guard (exists_ (M.stat s (join (env_release_dir cfg ∷ "overwrite.env" ∷ []))))
              (no_overwrite_env (join (env_release_dir cfg ∷ "overwrite.env" ∷ [])))
          >> check_mode (join (release_dir cfg ∷ cfg.bin_path ∷ []))
              (M.stat s (join (release_dir cfg ∷ cfg.bin_path ∷ [])))
          >> attempt (M.mkdir_all (etc_service_dir cfg)) mkdir_failed)
        s

  -- What follows the switch of the second link, by its error.
  abbrev after_env : DeployConfig → String → Option Fault → Step
  after_env cfg prev_build none s = (ok tt, s)
  after_env cfg prev_build (some f) s =
      (err (env_switch_failed f), restore (current_link cfg) prev_build s)

  -- Steps 8 and 9: the two links. A failure of the second one takes back the first.
  unfoldable pub switch_links : DeployConfig → String → Step
  switch_links cfg prev_build = do
    _ ← attempt (switch_symlink_atomic (current_link cfg) (release_dir cfg)) external
    λ s.
        let (e, t) = switch_symlink_atomic (etc_env_link cfg) (env_release_dir cfg) s in
        after_env cfg prev_build e t

  abbrev roll_back : DeployConfig → String → String → DeployError → Step
  roll_back cfg prev_build prev_env e s =
      (err e, rollback (current_link cfg) prev_build (etc_env_link cfg) prev_env (unit_name cfg) s)

  abbrev verified : DeployConfig → String → String → Fault ⊎ Bool → Step
  verified cfg prev_build prev_env (inl f) = roll_back cfg prev_build prev_env (unhealthy (some f))
  verified cfg prev_build prev_env (inr false) = roll_back cfg prev_build prev_env (unhealthy none)
  verified cfg prev_build prev_env (inr true) = pure tt

  -- Steps 10 and 11, by the error of the start.
  abbrev started : DeployConfig → String → String → Option Fault → Step
  started cfg prev_build prev_env (some f) s = roll_back cfg prev_build prev_env (start_failed f) s
  started cfg prev_build prev_env none s =
      verified cfg prev_build prev_env (is_active s (unit_name cfg)) s

  unfoldable pub start_and_verify : DeployConfig → String → String → Step
  start_and_verify cfg prev_build prev_env s =
      let (e, t) = start_service (unit_name cfg) s in started cfg prev_build prev_env e t

  -- Step 7 reads the links that steps 8 to 11 replace.
  unfoldable pub replace_links : DeployConfig → Step
  replace_links cfg s =
      let prev_build = M.readlink s (current_link cfg) in
      let prev_env = M.readlink s (etc_env_link cfg) in
      (switch_links cfg prev_build >> start_and_verify cfg prev_build prev_env) s

  unfoldable pub deploy : DeployConfig → Step
  deploy config = do
    _ ← guard (not (config.service_name == "" || config.build_id == "")) missing_name
    _ ← check_files (with_base config)
    _ ← attempt M.connect external
    _ ← attempt (stop_service (unit_name config)) external
    replace_links (with_base config)

  -- restartHostService.Execute
  unfoldable pub execute : DeploymentJob → Step
  execute job = deploy (config_for job)
