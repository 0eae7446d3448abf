-- ===== src/HostConfigure/Status.antt =====
-- The steps of Execute: where each ends.
use deployd.Prelude.{
  ℕ, suc, String, ◌<>◌, true, false, ◌≡◌, refl, ap, ◌∙◌, ◌⊎◌, inl, inr, Option, none, some, List,
  [], ◌∷◌, ◌==◌, length, nat_beq, eq_iff, arith, Bool-cases,
}
use deployd.Path.{join}
use deployd.Entity.Host.{Host as HostEntity}
use deployd.Entity.KeyValue.{Env}
use deployd.Entity.Job.{SubmitDeploymentJobRequest, HostConfigurationStatus, host_configured}
use deployd.HostConfigure.Copy.{Fault, copy, IsHonest, copy-ends}
use deployd.HostConfigure.Calls.{HostMachine, UnitProperties}
use deployd.HostConfigure
use deployd.HostConfigure.Outcomes.{
  Finishes, Running, Leads, Keeps, and_then, attempt-Keeps, attempt_as-Keeps,
}

-- Every reader and writer keeps to its documentation, and Copy gets one round more than there are bytes.
pub record CopiesEnd (H : HostMachine) : Type 0 where
  pub honest : (path : String) → IsHonest (H.pipe path)
  pub enough :
      (path : String) (s : H.State) → H.rounds path s ≡ suc (length ((honest path).unread s))

-- What Execute has seen when it returns: a release that was there, or the unit loaded.
module _ (H : HostMachine) (r : SubmitDeploymentJobRequest) where
  abbrev pub IsLoaded : HostConfigurationStatus × H.State → Type 0
  IsLoaded t =
      (p : UnitProperties) × (H.unit_properties t.1 (HostConfigure.service_name r) ≡ inr p)
      × (p.load_state ≡ some "loaded")

  abbrev pub HasRelease : HostConfigurationStatus × H.State → Type 0
  HasRelease t = HostConfigure.is_empty_dir H t.1 (HostConfigure.build_release_path r) ≡ inr false

  abbrev pub IsConfigured : HostConfigurationStatus × H.State → Type 0
  IsConfigured t = (host_configured t.0 ≡ true) × (HasRelease t ⊎ IsLoaded t)

module _ (H : HostMachine) (C : CopiesEnd H) (r : SubmitDeploymentJobRequest) where
  pub write_unit-Keeps : Keeps (HostConfigure.write_unit H r)
  unfolding HostConfigure.write_unit
  write_unit-Keeps =
      let content =
        HostConfigure.build_unit r.ns r.service.id r.service.description
          r.service.executable_path in
      let place : String → String = λ name. join (HostConfigure.systemd_path ∷ name ∷ []) in
      let tmp = place (HostConfigure.service_name r <> ".tmp") in
      and_then (attempt-Keeps H (H.write_file tmp content))
        (attempt-Keeps H (H.rename tmp (place (HostConfigure.service_name r))))

  print-Keeps : (path : String) (lines : List String) → Keeps (HostConfigure.print H path lines)
  print-Keeps path lines = record { leads = λ t h. h }

  with_env-Keeps : (e : Fault ⊎ List Env) → Keeps (HostConfigure.with_env H r e)
  with_env-Keeps (inl f) = record { leads = λ t h. (refl, refl) }
  with_env-Keeps (inr []) = record { leads = λ t h. refl }
  with_env-Keeps (inr (env ∷ more)) = and_then (attempt-Keeps H _) (print-Keeps _ _)

  pub download_env-Keeps : Keeps (HostConfigure.download_env H r)
  unfolding HostConfigure.download_env
  download_env-Keeps = record { leads = λ t h. (with_env-Keeps _).leads t h }

  with_total-Keeps :
      (size : ℕ) (o : Option (Fault ⊎ ℕ))
      → ((x : Fault ⊎ ℕ) × (o ≡ some x))
      → Keeps (HostConfigure.with_total H size o)
  with_total-Keeps size none e = absurd (cc (e.1))
  with_total-Keeps size (some (inl f)) e = record { leads = λ t h. (refl, refl) }
  with_total-Keeps size (some (inr total)) e = record {
    leads = λ t h. by_size t h (Bool-cases (nat_beq size total));
  }
    where
      by_size :
          (t : HostConfigurationStatus × H.State)
          → Running t
          → (nat_beq size total ≡ true) ⊎ (nat_beq size total ≡ false)
          → Finishes Running (HostConfigure.with_total H size (some (inr total)) t)
      by_size t h (inl g) = rw g h
      by_size t h (inr g) = rw g (refl, h)

  -- Copy has an answer.
  copied :
      (path : String) (s : H.State)
      → (x : Fault ⊎ ℕ) × ((copy (H.pipe path) (H.rounds path s) s).0 ≡ some x)
  copied path s = rw (C.enough path s) (copy-ends (H.pipe path) (C.honest path) s)

  with_attachment-Keeps :
      (path : String) (a : Fault ⊎ ℕ) → Keeps (HostConfigure.with_attachment H path a)
  with_attachment-Keeps path (inl f) = record { leads = λ t h. (refl, refl) }
  with_attachment-Keeps path (inr size) = record {
    leads = λ t h. (with_total-Keeps size _ (copied path t.1)).leads _ h;
  }

  pub download-Keeps : (host : HostEntity) → Keeps (HostConfigure.download H r host)
  unfolding HostConfigure.download
  download-Keeps host =
      and_then (attempt-Keeps H (H.create_file (HostConfigure.archive_path r))) (record {
        leads = λ t h. (with_attachment-Keeps (HostConfigure.archive_path r) _).leads _ h;
      })

  -- What the unit's properties lead to.
  abbrev pub Checked : HostConfigurationStatus × H.State → Type 0
  Checked t = Running t × IsLoaded H r t

  loaded-Finishes :
      (l : Option String) (p : UnitProperties) (t : HostConfigurationStatus × H.State)
      → H.unit_properties t.1 (HostConfigure.service_name r) ≡ inr p
      → p.load_state ≡ l
      → Running t
      → Finishes Checked (HostConfigure.loaded H l t)
  loaded-Finishes none p t e f h = (refl, h)
  loaded-Finishes (some state) p t e f h = by_state (Bool-cases (state == "loaded"))
    where
      by_state :
          (state == "loaded" ≡ true) ⊎ (state == "loaded" ≡ false)
          → Finishes Checked (HostConfigure.loaded H (some state) t)
      by_state (inl g) =
          let same : state ≡ "loaded" = ground (arith, eq_iff state "loaded") in
          rw g (h, (p, e, f ∙ ap some same))
      by_state (inr g) = rw g (refl, refl)

  load_error-Finishes :
      (l : Option String) (p : UnitProperties) (t : HostConfigurationStatus × H.State)
      → H.unit_properties t.1 (HostConfigure.service_name r) ≡ inr p
      → Running t
      → Finishes Checked (HostConfigure.with_load_error H l p.load_state t)
  load_error-Finishes none p t e h = loaded-Finishes p.load_state p t e refl h
  load_error-Finishes (some m) p t e h = by_error (Bool-cases (m == ""))
    where
      by_error :
          (m == "" ≡ true) ⊎ (m == "" ≡ false)
          → Finishes Checked (HostConfigure.with_load_error H (some m) p.load_state t)
      by_error (inl g) = rw g (loaded-Finishes p.load_state p t e refl h)
      by_error (inr g) = rw g (refl, h)

  check_properties-Leads :
      Leads Checked (HostConfigure.check_properties H (HostConfigure.service_name r))
  check_properties-Leads = record {
    leads = λ t h. go t h (H.unit_properties t.1 (HostConfigure.service_name r)) refl;
  }
    where
      go :
          (t : HostConfigurationStatus × H.State)
          → Running t
          → (a : Fault ⊎ UnitProperties) → H.unit_properties t.1 (HostConfigure.service_name r) ≡ a
          → Finishes Checked (HostConfigure.with_properties H a t)
      go t h (inl f) e = (refl, refl)
      go t h (inr p) e = load_error-Finishes p.load_error p t e h

  pub reload_units-Leads : Leads Checked (HostConfigure.reload_units H r)
  unfolding HostConfigure.reload_units
  reload_units-Leads =
      and_then
        (and_then (attempt_as-Keeps H HostConfigure.connect_failed H.connect (λ f. refl))
          (attempt_as-Keeps H HostConfigure.reload_failed H.reload (λ f. refl)))
        check_properties-Leads
