-- ===== src/Ubuntu/Unused.antt =====
-- The functions of internal/src/configurations/ubuntu.go that nothing calls: the extraction that keeps
-- the first directory, the restart of the unit, and the reading of the environment.
use deployd.Prelude.{
  String, ◌<>◌, ◌==◌, ◌≡◌, refl, Option, none, some, List, [], ◌∷◌, map, if◌then◌else◌, Outcome, ok,
  err,
}
use deployd.Path.{join}
use deployd.HostConfigure.Archive.{
  TypeFlag, type_dir, type_reg, type_other, Header, Next, entry, tar_error,
}
use deployd.Ubuntu.{Fault, Call, Ending, finished, panicked, Calls, ensure_dir, must, and_call}

-- mustEnv; the error is the text of the panic.
unfoldable pub must_env : (String → String) → String → Outcome String String
must_env getenv k = if getenv k == "" then err (k <> " missing") else ok (getenv k)

module _ {S : Type 0} (C : Calls S) where
  -- Where the directory above cannot be made, the entry is skipped.
  abbrev if_made : Option Fault × S → (S → Ending × S) → (S → Ending × S) → Ending × S
  if_made (some f, s) put rest = rest s
  if_made (none, s) put rest = put s

  -- The errors of MkdirAll and of Copy are dropped.
  abbrev keep_entry : TypeFlag → String → Header → (S → Ending × S) → S → Ending × S
  keep_entry type_dir target h rest s =
      if_made (ensure_dir C target s) (λ t. rest (C.mkdir_all target 0o755 t).1) rest
  keep_entry type_reg target h rest s =
      if_made (ensure_dir C target s)
        (must (C.create target) (λ t. rest (C.copy_entry target h.contents t).1)) rest
  keep_entry type_other target h rest s = rest s

  unfoldable pub keep_entries : String → List Next → S → Ending × S
  keep_entries dest [] s = (finished, s)
  keep_entries dest (tar_error f ∷ answers) s = (panicked f, s)
  keep_entries dest (entry h ∷ answers) s =
      keep_entry h.type_flag (join (dest ∷ h.name ∷ [])) h (keep_entries dest answers) s

  unfoldable pub extract_tar_gz : String → String → S → Ending × S
  unfolding keep_entries
  extract_tar_gz src dest =
      must (C.open_archive src) (must C.unzip (λ s. keep_entries dest (C.answers s) s))

  -- An archive whose directories cannot be made is skipped as a whole, and the extraction ends.
  pub keep_entries-skips :
      (dest : String) (headers : List Header) (s : S)
      → ((d : String) → (f : Fault) × (ensure_dir C d s ≡ (some f, s)))
      → keep_entries dest (map entry headers) s ≡ (finished, s)
  unfolding keep_entries
  keep_entries-skips dest [] s refused = refl
  keep_entries-skips dest (h ∷ headers) s refused =
      go h.type_flag (refused (join (dest ∷ h.name ∷ [])))
        (keep_entries-skips dest headers s refused)
    where
      go :
          (flag : TypeFlag)
          → (f : Fault) × (ensure_dir C (join (dest ∷ h.name ∷ [])) s ≡ (some f, s))
          → keep_entries dest (map entry headers) s ≡ (finished, s)
          → keep_entry flag (join (dest ∷ h.name ∷ [])) h (keep_entries dest (map entry headers)) s
            ≡ (finished, s)
      go type_dir (f, e) ih = rw (e) ih
      go type_reg (f, e) ih = rw (e) ih
      go type_other (f, e) ih = ih

-- The calls of the D-Bus library; `wait` takes the answer from the channel.
pub record Bus (S : Type 0) : Type 0 where
  pub connect : Call S
  pub enable_unit_files : String → Call S
  pub restart_unit : String → Call S
  pub wait : S → S

module _ {S : Type 0} (B : Bus S) where
  -- systemdReloadEnableRestart, which does not reload.
  unfoldable pub systemd_reload_enable_restart : String → Call S
  systemd_reload_enable_restart service s = and_call (B.connect s) (λ t.
      and_call (B.enable_unit_files (service <> ".service") t)
        (λ u. and_call (B.restart_unit (service <> ".service") u) (λ v. (none, B.wait v))))
