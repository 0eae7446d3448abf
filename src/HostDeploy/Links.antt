-- ===== src/HostDeploy/Links.antt =====
-- How Deploy leaves the two links and the unit.
use deployd.Prelude.{refl, not, ◌||◌, inl, ◌==◌, guard, ◌>>◌}
use deployd.HostDeploy.{
  DeployConfig, with_base, current_link, etc_env_link, unit_name, attempt, check_files,
  replace_links, deploy, stop_service, external,
}
use deployd.HostDeploy.Calls.{Machine, IsPosix}
use deployd.HostDeploy.{Step, missing_name, stop_service}
use deployd.HostDeploy.Switch.{stop_service-readlink, IsApart}
use deployd.HostDeploy.Ends.{Ends, Ends-continue, Ends-imp, LinksOld, LinksBetween, IsLive}
use deployd.HostDeploy.Replace.{replaced}
use deployd.HostDeploy.Checks.{attempt-Ends, guard-Ends, files_checked}

module _ (M : Machine) (posix : IsPosix M) (config : DeployConfig) where
  -- On a machine with POSIX links, where neither of the two links, nor its temporary name, lies on the
  -- path of the other (nor the temporary name on the link's own): if Deploy returns without an error,
  -- both links are at the new release and the unit is active; if it returns one, each link has its old
  -- target or the new one.
  pub deploy-links :
      (s : M.State)
      → IsApart (current_link (with_base config)) (etc_env_link (with_base config))
      → IsApart (etc_env_link (with_base config)) (current_link (with_base config))
      → Ends
          (IsLive M (with_base config))
          (LinksBetween M
            (with_base config)
            (M.readlink s (current_link (with_base config)))
            (M.readlink s (etc_env_link (with_base config))))
          (deploy M config s)
  unfolding deploy
  deploy-links s a b =
      let c = with_base config in
      let old_build = M.readlink s (current_link c) in
      let old_env = M.readlink s (etc_env_link c) in
      let L = IsLive M c in
      let O = LinksOld M c old_build old_env in
      let B = LinksBetween M c old_build old_env in
      let m4 : Step M =
        attempt M (stop_service M (unit_name config)) external >> replace_links M c in
      let m3 : Step M = attempt M M.connect external >> m4 in
      let m2 : Step M = check_files M c >> m3 in
      let m1 : Step M =
        guard (not (config.service_name == "" || config.build_id == "")) missing_name in
      let run : (m n : Step M) (u : M.State)
          → Ends O O (m u)
          → ((t : M.State) → O t → Ends L B (n t))
          → Ends L B ((m >> n) u) =
        λ m n u h k.
          Ends-continue L O B m (λ _. n) u
            (Ends-imp O O B (m u) (λ t x. record { first_link = inl x.0; second_link = inl x.1 }) h)
            (λ _. k) in
      run m1 m2 s (guard-Ends M posix c old_build old_env _ missing_name s (refl, refl)) λ t old.
        run (check_files M c) m3 t (files_checked M posix c old_build old_env t old) λ t old.
          run (attempt M M.connect external) m4 t
            (attempt-Ends M posix c old_build old_env M.connect external t
              (λ q. posix.readlink-connect q t) old)
            λ t old.
              run (attempt M (stop_service M (unit_name config)) external) (replace_links M c) t
                (attempt-Ends M posix c old_build old_env (stop_service M (unit_name config))
                  external t (λ q. stop_service-readlink M posix (unit_name config) q t) old)
                (replaced M posix c a b old_build old_env)
