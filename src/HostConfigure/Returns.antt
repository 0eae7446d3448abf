-- ===== src/HostConfigure/Returns.antt =====
-- Where Execute ends, and what a return says of the release and the unit.
use deployd.Prelude.{String, ◌<>◌, Bool, true, false, ◌≡◌, refl, ◌⊎◌, inl, inr}
use deployd.Entity.Host.{Host as HostEntity}
use deployd.Entity.Job.{SubmitDeploymentJobRequest, HostConfigurationStatus, host_configured}
use deployd.HostConfigure.Copy.{Fault}
use deployd.HostConfigure.Calls.{HostMachine}
use deployd.HostConfigure
use deployd.HostConfigure.Outcomes.{
  Finishes, Running, Leads, Keeps, and_then, and_finally, attempt-Keeps, attempt_as-Keeps,
  check_ctx-Keeps,
}
use deployd.HostConfigure.Status.{
  CopiesEnd, IsConfigured, write_unit-Keeps, download_env-Keeps, download-Keeps, reload_units-Leads,
}

module _ (H : HostMachine) (C : CopiesEnd H) (r : SubmitDeploymentJobRequest) where
  abbrev release_path : String
  release_path = HostConfigure.build_release_path r

  dir-Keeps : (d : String) → Keeps (HostConfigure.ensure_dir H d)
  dir-Keeps d = attempt-Keeps H (H.disk.mkdir_all d 0o755)

  install-Leads : (host : HostEntity) → Leads (IsConfigured H r) (HostConfigure.install H r host)
  unfolding HostConfigure.install
  install-Leads host = and_then (check_ctx-Keeps H) (
      and_then (download-Keeps H C r host) (
        and_then (dir-Keeps (release_path <> ".tmp")) (
          and_then (attempt-Keeps H (H.remove_all (release_path <> ".tmp"))) (
            and_then
              (attempt_as-Keeps H HostConfigure.extract_failed (HostConfigure.extract H r)
                (λ f. refl))
              (and_then (attempt-Keeps H (H.remove_all release_path)) (
                and_then (attempt-Keeps H (H.rename (release_path <> ".tmp") release_path)) (
                  and_finally (HostConfigure.succeed H) (reload_units-Leads H C r)
                    (λ t h. (refl, inr h.1)))))))))

  release-Leads : (host : HostEntity) → Leads (IsConfigured H r) (HostConfigure.release H r host)
  unfolding HostConfigure.release
  release-Leads host = record {
    leads = λ t h. go t h (HostConfigure.is_empty_dir H t.1 release_path) refl;
  }
    where
      go :
          (t : HostConfigurationStatus × H.State)
          → Running t
          → (e : Fault ⊎ Bool) → HostConfigure.is_empty_dir H t.1 release_path ≡ e
          → Finishes (IsConfigured H r) (HostConfigure.by_emptiness H r host e t)
      go t h (inl f) e = (refl, refl)
      go t h (inr true) e = (install-Leads host).leads t h
      go t h (inr false) e = (refl, inl e)

  pub execute-Finishes :
      (host : HostEntity) (status : HostConfigurationStatus) (s : H.State)
      → host_configured status ≡ false
      → Finishes (IsConfigured H r) (HostConfigure.execute H r host (status, s))
  unfolding HostConfigure.execute
  execute-Finishes host status s h = whole.leads (status, s) h
    where
      whole : Leads (IsConfigured H r) (HostConfigure.execute H r host)
      whole = and_then (check_ctx-Keeps H) (
          and_then (dir-Keeps (HostConfigure.base_path r)) (
            and_then (dir-Keeps (HostConfigure.env_path r)) (
              and_then (dir-Keeps (HostConfigure.etc_path r)) (
                and_then (dir-Keeps (HostConfigure.tmp_path r)) (
                  and_then (dir-Keeps HostConfigure.systemd_path) (
                    and_then (check_ctx-Keeps H) (
                      and_then (write_unit-Keeps H C r) (
                        and_then (check_ctx-Keeps H) (
                          and_then (download_env-Keeps H C r)
                            (and_then (dir-Keeps release_path) (release-Leads host)))))))))))
