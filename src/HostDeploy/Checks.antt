-- ===== src/HostDeploy/Checks.antt =====
-- Steps 1 to 6 of Deploy leave the links alone.
use deployd.Prelude.{
  [], ◌∷◌, ◌+◌, String, ◌≡◌, ◌∙◌, Bool, true, false, Option, none, some, ok, guard, ◌>>◌,
  if◌then◌else◌,
}
use deployd.HostDeploy.{
  DeployConfig, DeployError, release_dir, env_release_dir, current_link, etc_env_link, attempt,
  after, check_files, check_mode, chmod_failed, owner_executes,
}
use deployd.HostDeploy.Calls.{Machine, IsPosix, Fault, FileInfo, Call}
use deployd.HostDeploy.{
  Step, mkdir_failed, is_directory, exists_, no_release, no_env_release, no_overwrite_env,
  etc_service_dir,
}
use deployd.Path.{join}
use deployd.HostDeploy.Ends.{Ends, Ends-continue, LinksOld}

module _ (M : Machine) (posix : IsPosix M) (c : DeployConfig) (old_build old_env : String) where
  abbrev Old : M.State → Type 0
  Old = LinksOld M c old_build old_env

  pub attempt-Ends :
      (call : Call M.State) (wrap : Fault → DeployError) (t : M.State)
      → ((q : String) → M.readlink (call t).1 q ≡ M.readlink t q)
      → Old t
      → Ends Old Old (attempt M call wrap t)
  attempt-Ends call wrap t same (h, k) = go (call t).0
    where
      go : (e : Option Fault) → Ends Old Old (after M e wrap (call t).1)
      go none = (same (current_link c) ∙ h, same (etc_env_link c) ∙ k)
      go (some f) = (same (current_link c) ∙ h, same (etc_env_link c) ∙ k)

  pub guard-Ends : (b : Bool) (e : DeployError) (t : M.State) → Old t → Ends Old Old (guard b e t)
  guard-Ends true e t old = old
  guard-Ends false e t old = old

  check_mode-Ends :
      (path : String) (o : Option FileInfo) (t : M.State)
      → Old t
      → Ends Old Old (check_mode M path o t)
  check_mode-Ends path none t old = old
  check_mode-Ends path (some info) t old = go (owner_executes info.mode)
    where
      go :
          (b : Bool)
          → Ends Old Old (
              (if b
                  then (λ s. (ok tt, s))
                  else attempt M (M.chmod path (info.mode + 64)) chmod_failed)
                t)
      go true = old
      go false =
          attempt-Ends (M.chmod path (info.mode + 64)) chmod_failed t
            (λ q. posix.readlink-chmod path q _ t) old

  pub files_checked : (t : M.State) → Old t → Ends Old Old (check_files M c t)
  unfolding check_files
  files_checked t old =
      let release = join (release_dir c ∷ c.bin_path ∷ []) in
      let file = join (env_release_dir c ∷ "overwrite.env" ∷ []) in
      let m1 : Step M =
        guard (is_directory (M.stat t (release_dir c))) (no_release (release_dir c)) in
      let m2 : Step M =
        guard (is_directory (M.stat t (env_release_dir c))) (no_env_release (env_release_dir c)) in
      let m3 : Step M = guard (exists_ (M.stat t file)) (no_overwrite_env file) in
      let m4 : Step M = check_mode M release (M.stat t release) in
      let m5 : Step M = attempt M (M.mkdir_all (etc_service_dir c)) mkdir_failed in
      in_order (m1 >> m2 >> m3 >> m4) m5
        (in_order (m1 >> m2 >> m3) m4
          (in_order (m1 >> m2) m3
            (in_order m1 m2
              (λ u.
                guard-Ends (is_directory (M.stat t (release_dir c))) (no_release (release_dir c)) u)
              (λ u.
                guard-Ends (is_directory (M.stat t (env_release_dir c)))
                  (no_env_release (env_release_dir c)) u))
            (λ u. guard-Ends (exists_ (M.stat t file)) (no_overwrite_env file) u))
          (λ u. check_mode-Ends release (M.stat t release) u))
        (λ u.
          attempt-Ends (M.mkdir_all (etc_service_dir c)) mkdir_failed u
            (λ q. posix.readlink-mkdir_all _ q u))
        t old
    where
      in_order :
          (m n : Step M)
          → ((u : M.State) → Old u → Ends Old Old (m u))
          → ((u : M.State) → Old u → Ends Old Old (n u))
          → (u : M.State) → Old u
          → Ends Old Old ((m >> n) u)
      in_order m n h k u old = Ends-continue Old Old Old m (λ _. n) u (h u old) (λ _. k)
