-- ===== src/HostConfigure.antt =====
-- configureHost.Execute of internal/src/deploy-job/job_deploy_configure.go: the directories of a service
-- on the host, its unit file, its environment, and the release of its build.
pub mod Copy
pub mod Archive
pub mod EnvLines
pub mod Calls
pub mod Outcomes
pub mod Status
pub mod Returns
mod Examples
use deployd.Prelude.{
  ℕ, String, ◌<>◌, Bool, true, false, ◌==◌, nat_beq, ◌⊎◌, inl, inr, Option, none, some, List, [],
  ◌∷◌, if◌then◌else◌, Outcome, ok, err, Action, ◌>>=◌, ◌>>◌,
}
use deployd.Prelude.Decimal.{format_uint}
use deployd.Prelude.GoMap.{GoMap, nil, table}
use deployd.Path.{join}
use deployd.Entity.Host.{Host as HostEntity}
use deployd.Entity.KeyValue.{Env}
use deployd.Entity.Job.{SubmitDeploymentJobRequest, HostConfigurationStatus}
use deployd.HostConfigure.Copy.{Fault, copy}
use deployd.HostConfigure.Archive.{extract_tar_gz_strip}
use deployd.HostConfigure.EnvLines.{env_lines}
use deployd.HostConfigure.Calls.{
  HostMachine, Call, Names, a_name, no_name, names_failed, UnitProperties,
}

-- The errors, those of a library as they come, with the wrapped ones by their place. `still_copying` is
-- no error of the source: Copy has had all its rounds.
pub data ExecuteError : Type 0 where
  external extract_failed connect_failed reload_failed : Fault → ExecuteError
  size_mismatch : ℕ → ℕ → ExecuteError
  load_error library_error : ExecuteError
  not_loaded : String → ExecuteError
  still_copying : ExecuteError

abbrev concat : List String → String
concat [] = ""
concat (s ∷ rest) = s <> concat rest

-- BuildUnit of utility.go
unfoldable pub build_unit : String → String → String → String → String
build_unit namespace service description executable_path =
    let pair = namespace <> ("_" <> service) in
    concat (
      "[Unit]\nDescription=" ∷ description
      ∷ "\nAfter=network.target\n\n[Service]\nType=simple\nEnvironmentFile=-/etc/" ∷ pair
      ∷ "/env/overwrite.env\nEnvironment=DEPLOYD_SERVICE_NAMESPACE=" ∷ namespace
      ∷ "\nEnvironment=DEPLOYD_SERVICE=" ∷ service ∷ "\nExecStart=/opt/" ∷ pair ∷ "/current/"
      ∷ executable_path
      ∷ "\nRestart=always\nRestartSec=3\n\n[Install]\nWantedBy=multi-user.target\n" ∷ [])

-- The paths of a request; a namespace or id with a percent sign, which Sprintf would read, is left aside.
abbrev pub pair_of : SubmitDeploymentJobRequest → String
pair_of r = r.ns <> ("_" <> r.service.id)

abbrev pub base_path : SubmitDeploymentJobRequest → String
base_path r = "/opt/" <> pair_of r

abbrev pub env_path : SubmitDeploymentJobRequest → String
env_path r = base_path r <> ("/env-release/" <> format_uint r.env_version)

abbrev pub etc_path : SubmitDeploymentJobRequest → String
etc_path r = "/etc/" <> pair_of r

abbrev pub tmp_path : SubmitDeploymentJobRequest → String
tmp_path r = "/tmp/" <> (pair_of r <> ("/artifact/" <> format_uint r.build_version))

abbrev pub systemd_path : String
systemd_path = "/etc/systemd/system"

abbrev pub service_name : SubmitDeploymentJobRequest → String
service_name r = pair_of r <> ".service"

abbrev pub build_release_path : SubmitDeploymentJobRequest → String
build_release_path r = base_path r <> ("/build-release/" <> format_uint r.build_version)

abbrev pub archive_path : SubmitDeploymentJobRequest → String
archive_path r = tmp_path r <> "/release.tar.gz"

-- The pairs that the loop over the map gives.
abbrev pairs_of : GoMap String → List (String × String)
pairs_of nil = []
pairs_of (table values) = values

module _ (H : HostMachine) where
  -- `a.status`, and the host.
  abbrev pub Step : Type 0
  Step = Action (HostConfigurationStatus × H.State) ExecuteError Unit

  -- An error with a new status, and one that leaves the status.
  abbrev pub failing : HostConfigurationStatus → ExecuteError → Step
  failing status e (_, s) = (err e, (status, s))

  abbrev pub failed : ExecuteError → Step
  failed = failing HostConfigurationStatus.failed

  abbrev pub after : Option Fault → (Fault → Step) → Step
  after none on_error t = (ok tt, t)
  after (some f) on_error t = on_error f t

  -- A call; its error sets the status to failed and ends Execute.
  abbrev pub attempt : Call H.State → Step
  attempt call (status, s) =
      let done = call s in after done.0 (λ f. failed (external f)) (status, done.1)

  -- A call whose error leaves the status.
  abbrev pub attempt_as : (Fault → ExecuteError) → Call H.State → Step
  attempt_as wrap call (status, s) =
      let done = call s in after done.0 (λ f t. (err (wrap f), t)) (status, done.1)

  -- `if err := ctx.Err(); err != nil`
  abbrev pub check_ctx : Step
  check_ctx (status, s) =
      after (H.ctx_err s) (λ f. failing HostConfigurationStatus.cancelled (external f)) (status, s)

  abbrev pub ensure_dir : String → Step
  ensure_dir d = attempt (H.disk.mkdir_all d 0o755)

  -- The unit file is written beside its place, and renamed.
  unfoldable pub write_unit : SubmitDeploymentJobRequest → Step
  unfolding build_unit
  write_unit r =
      let content = build_unit r.ns r.service.id r.service.description r.service.executable_path in
      let tmp = join (systemd_path ∷ (service_name r <> ".tmp") ∷ []) in
      attempt (H.write_file tmp content)
      >> attempt (H.rename tmp (join (systemd_path ∷ service_name r ∷ [])))

  abbrev pub print : String → List String → Step
  print path lines (status, s) = (ok tt, (status, H.print_lines path lines s))

  abbrev pub write_env : SubmitDeploymentJobRequest → GoMap String → Step
  write_env r values =
      let path = env_path r <> "/overwrite.env" in
      attempt (H.create_file path) >> print path (env_lines H.to_upper H.quote (pairs_of values))

  -- Without an environment `err1` is nil: the status is failed, and Execute goes on.
  abbrev pub with_env : SubmitDeploymentJobRequest → Fault ⊎ List Env → Step
  with_env r (inl f) t = failed (external f) t
  with_env r (inr []) (status, s) = (ok tt, (HostConfigurationStatus.failed, s))
  with_env r (inr (env ∷ more)) t = write_env r env.value t

  unfoldable pub download_env : SubmitDeploymentJobRequest → Step
  download_env r (status, s) =
      with_env r (H.get_env s r.ns r.service.id (format_uint r.env_version)) (status, s)

  abbrev pub emptiness : Option Fault → Names → Fault ⊎ Bool
  emptiness (some f) names = inl f
  emptiness none a_name = inr false
  emptiness none no_name = inr true
  emptiness none (names_failed f) = inl f

  -- isEmptyDir
  abbrev pub is_empty_dir : H.State → String → Fault ⊎ Bool
  is_empty_dir s d = emptiness (H.open_dir s d) (H.read_names s d)

  abbrev pub with_total : ℕ → Option (Fault ⊎ ℕ) → Step
  with_total size none t = (err still_copying, t)
  with_total size (some (inl f)) t = failed (external f) t
  with_total size (some (inr total)) t =
      if nat_beq size total then (ok tt, t) else (err (size_mismatch size total), t)

  abbrev pub with_attachment : String → Fault ⊎ ℕ → Step
  with_attachment path (inl f) (status, s) =
      failed (external f) (status, if H.is_canceled f then H.cancel_job s else s)
  with_attachment path (inr size) (status, s) =
      let copied = copy (H.pipe path) (H.rounds path s) s in
      with_total size copied.0 (status, copied.1)

  abbrev pub get_artifact : SubmitDeploymentJobRequest → HostEntity → Step
  get_artifact r host (status, s) =
      let got =
        H.get_attachment r.ns r.service.id (format_uint r.build_version)
          (host.os <> ("/" <> host.architecture)) s in
      with_attachment (archive_path r) got.0 (status, got.1)

  unfoldable pub download : SubmitDeploymentJobRequest → HostEntity → Step
  download r host = attempt (H.create_file (archive_path r)) >> get_artifact r host

  abbrev pub extract : SubmitDeploymentJobRequest → Call H.State
  extract r s =
      let archive = archive_path r in
      extract_tar_gz_strip H.disk (H.open_archive s archive) (H.unzip s archive)
        (build_release_path r <> ".tmp") (H.entries s archive) s

  abbrev pub loaded : Option String → Step
  loaded none t = (err library_error, t)
  loaded (some state) t = if state == "loaded" then (ok tt, t) else failed (not_loaded state) t

  abbrev pub with_load_error : Option String → Option String → Step
  with_load_error none load_state t = loaded load_state t
  with_load_error (some e) load_state t =
      if e == "" then loaded load_state t else (err load_error, t)

  abbrev pub with_properties : Fault ⊎ UnitProperties → Step
  with_properties (inl f) t = failed (external f) t
  with_properties (inr p) t = with_load_error p.load_error p.load_state t

  abbrev pub check_properties : String → Step
  check_properties name (status, s) = with_properties (H.unit_properties s name) (status, s)

  unfoldable pub reload_units : SubmitDeploymentJobRequest → Step
  reload_units r =
      attempt_as connect_failed H.connect
      >> attempt_as reload_failed H.reload
      >> check_properties (service_name r)

  abbrev pub succeed : Step
  succeed (status, s) = (ok tt, (HostConfigurationStatus.success, s))

  -- The release: from the archive into a directory beside its place, which is renamed.
  unfoldable pub install : SubmitDeploymentJobRequest → HostEntity → Step
  unfolding download reload_units
  install r host = do
    check_ctx
    download r host
    ensure_dir (build_release_path r <> ".tmp")
    attempt (H.remove_all (build_release_path r <> ".tmp"))
    attempt_as extract_failed (extract r)
    attempt (H.remove_all (build_release_path r))
    attempt (H.rename (build_release_path r <> ".tmp") (build_release_path r))
    reload_units r
    succeed

  abbrev pub by_emptiness : SubmitDeploymentJobRequest → HostEntity → Fault ⊎ Bool → Step
  by_emptiness r host (inl f) t = failed (external f) t
  by_emptiness r host (inr true) t = install r host t
  by_emptiness r host (inr false) t = succeed t

  -- A release that is there is taken as it is.
  unfoldable pub release : SubmitDeploymentJobRequest → HostEntity → Step
  unfolding install
  release r host (status, s) =
      by_emptiness r host (is_empty_dir s (build_release_path r)) (status, s)

  unfoldable pub execute : SubmitDeploymentJobRequest → HostEntity → Step
  unfolding write_unit download_env release
  execute r host = do
    check_ctx
    ensure_dir (base_path r)
    ensure_dir (env_path r)
    ensure_dir (etc_path r)
    ensure_dir (tmp_path r)
    ensure_dir systemd_path
    check_ctx
    write_unit r
    check_ctx
    download_env r
    ensure_dir (build_release_path r)
    release r host
