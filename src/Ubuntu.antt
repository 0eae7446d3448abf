-- ===== src/Ubuntu.antt =====
-- Configure of internal/src/configurations/ubuntu.go: an artifact is downloaded and unpacked, the unit is
-- written and the link switched. The file system and the network are parameters.
pub mod Names
pub mod Unused
mod Examples
use Prim.Native.Char.{Char, code}
use deployd.Prelude.{
  ℕ, String, ◌<>◌, Bool, true, false, ◌==◌, nat_beq, Option, none, some, List, [], ◌∷◌,
  if◌then◌else◌,
}
use deployd.Prelude.Decimal.{format_uint}
use deployd.Path.{join}
use deployd.HostConfigure.Archive.{
  dir, TypeFlag, type_dir, type_reg, type_other, Header, Next, entry, tar_error,
}

abbrev pub Fault : Type 0
Fault = String

abbrev pub Call : Type 0 → Type 0
Call S = S → Option Fault × S

-- Every error but one ends in a panic; the other one ends the program.
pub data Ending : Type 0 where
  finished : Ending
  panicked exited : Fault → Ending

-- The calls of os and net/http; `copy_body` writes the response to a file, `copy_entry` a file of the
-- archive. The tar reader's answers are a list that ends at io.EOF.
pub record Calls (S : Type 0) : Type 0 where
  pub mkdir_all : String → ℕ → Call S
  pub fetch : String → Call S
  pub create : String → Call S
  pub copy_body : String → Call S
  pub open_archive : String → Call S
  pub unzip : Call S
  pub answers : S → List Next
  pub copy_entry : String → List ℕ → Call S
  pub open_create : String → Call S
  pub close : String → Call S
  pub write_file : String → String → Call S
  pub remove : String → Call S
  pub symlink : String → String → Call S
  pub rename : String → String → Call S

-- The package's variables, which are made before Configure sets the service's name.
abbrev pub base_opt : String
base_opt = "./demo/opt/deployd"

abbrev pub base_etc : String
base_etc = "./demo/etc/deployd"

abbrev pub systemd_path : String
systemd_path = "./demo/etc/systemd/system/deployd.service"

abbrev pub tmp_file : String
tmp_file = "./demo/tmp/deployd/0"

abbrev pub binary_url : String
binary_url =
    "http://mb1:9600/artifactd/archive?repository=user-profile&build=e9e6f7c40392224d5ff2e280af5d6bf82b045fda&id=linux/amd64&data=true"

-- strings.SplitN(name, "/", 2), its first part where there are two.
unfoldable pub first_level : String → Option String
first_level String.[] = none
first_level (String.◌∷◌ c s) = longer c (nat_beq (code c) b'/') (first_level s)
  where
    longer : Char → Bool → Option String → Option String
    longer c true rest = some String.[]
    longer c false none = none
    longer c false (some p) = some (String.◌∷◌ c p)

-- The prefix is found once, at the first name with a slash.
abbrev with_level : Option String → String
with_level none = ""
with_level (some p) = p <> "/"

unfoldable pub next_prefix : String → String → String
unfolding first_level
next_prefix prefix name = if prefix == "" then with_level (first_level name) else prefix

-- strings.TrimPrefix
unfoldable pub drop_prefix : String → String → Option String
drop_prefix s String.[] = some s
drop_prefix String.[] (String.◌∷◌ d p) = none
drop_prefix (String.◌∷◌ c s) (String.◌∷◌ d p) =
    let rest = drop_prefix s p in if nat_beq (code c) (code d) then rest else none

abbrev or_text : Option String → String → String
or_text none s = s
or_text (some rest) s = rest

unfoldable pub trim_prefix : String → String → String
unfolding drop_prefix
trim_prefix s prefix = or_text (drop_prefix s prefix) s

module _ {S : Type 0} where
  abbrev pub must_then : Option Fault × S → (S → Ending × S) → Ending × S
  must_then (some f, s) rest = (panicked f, s)
  must_then (none, s) rest = rest s

  -- must(call), and what follows.
  abbrev pub must : Call S → (S → Ending × S) → S → Ending × S
  must call rest s = must_then (call s) rest

  abbrev pub then_step : Ending × S → (S → Ending × S) → Ending × S
  then_step (finished, s) rest = rest s
  then_step (panicked f, s) rest = (panicked f, s)
  then_step (exited f, s) rest = (exited f, s)

  abbrev pub and_call : Option Fault × S → Call S → Option Fault × S
  and_call (some f, s) call = (some f, s)
  and_call (none, s) call = call s

  abbrev pub finish : S → Ending × S
  finish s = (finished, s)

  abbrev wrap : String → Option Fault × S → Option Fault × S
  wrap what (none, s) = (none, s)
  wrap what (some f, s) = (some (what <> f), s)

module _ {S : Type 0} (C : Calls S) where
  -- The directory above, not the directory itself.
  abbrev pub ensure_dir : String → Call S
  ensure_dir d s = wrap ("mkdir parent " <> (dir d <> ": ")) (C.mkdir_all (dir d) 0o755 s)

  abbrev pub ensure_all : List String → Call S
  ensure_all [] s = (none, s)
  ensure_all (d ∷ dirs) s =
      and_call (wrap ("mkdir " <> (d <> ": ")) (ensure_dir d s)) (ensure_all dirs)

  abbrev pub ensure_dirs : Call S
  ensure_dirs = ensure_all (
      base_opt
      ∷ join (base_opt ∷ "releases" ∷ [])
      ∷ base_etc
      ∷ "./demo/etc/systemd/system"
      ∷ tmp_file
      ∷ [])

  abbrev pub download_file : String → String → S → Ending × S
  download_file url dest =
      must (C.mkdir_all (dir dest) 0o755)
        (must (C.fetch url) (must (C.create dest) (must (C.copy_body dest) finish)))

  abbrev put_entry : TypeFlag → String → Header → (S → Ending × S) → S → Ending × S
  put_entry type_dir target h rest = must (C.mkdir_all target 0o755) rest
  put_entry type_reg target h rest =
      must (C.mkdir_all (dir target) 0o755)
        (must (C.create target) (must (C.copy_entry target h.contents) rest))
  put_entry type_other target h rest = rest

  unfoldable pub extract_entries : String → String → List Next → S → Ending × S
  unfolding next_prefix trim_prefix
  extract_entries dest prefix [] s = (finished, s)
  extract_entries dest prefix (tar_error f ∷ answers) s = (panicked f, s)
  extract_entries dest prefix (entry h ∷ answers) s =
      let prefix' = next_prefix prefix h.name in
      let name = trim_prefix h.name prefix' in
      let rest = extract_entries dest prefix' answers in
      let put = put_entry h.type_flag (join (dest ∷ name ∷ [])) h rest s in
      let skipped = rest s in if name == "" then skipped else put

  abbrev extract_tar_gz_strip : String → String → S → Ending × S
  extract_tar_gz_strip src dest =
      must (C.open_archive src) (must C.unzip (λ s. extract_entries dest "" (C.answers s) s))

  abbrev touch_file : String → Call S
  touch_file p s = and_call (ensure_dir p s) (λ t. and_call (C.open_create p t) (C.close p))

  abbrev unit_text : String → String
  unit_text service =
      "[Unit]\nDescription="
      <> (service
          <> (" service\nAfter=network.target\n\n[Service]\nType=simple\nWorkingDirectory="
              <> (base_opt
                  <> ("/current\nExecStart="
                      <> (base_opt
                          <> ("/current/"
                              <> (service
                                  <> ("\nRestart=always\nRestartSec=3\nEnvironmentFile="
                                      <> (base_etc
                                          <> ("/overwrite.env\nEnvironment=DEPLOYD_SECRET="
                                              <> (base_etc
                                                  <> ("/secret.yaml\nEnvironment=DEPLOYD_SERVICE="
                                                      <> (service
                                                          <> "\nLimitNOFILE=1048576\n\n[Install]\nWantedBy=multi-user.target\n")))))))))))))

  abbrev write_systemd_unit : String → Call S
  write_systemd_unit service s =
      and_call (ensure_dir systemd_path s) (C.write_file systemd_path (unit_text service))

  abbrev switch_symlink : String → String → (S → Ending × S) → S → Ending × S
  switch_symlink link target rest s =
      let tmp = link <> ".tmp" in
      must (C.symlink target tmp) (must (C.rename tmp link) rest) (C.remove tmp s).1

  abbrev install : String → String → S → Ending × S
  install service release_dir = must (touch_file (join (base_etc ∷ "secret.yaml" ∷ []))) (
      must (touch_file (join (base_etc ∷ "overwrite.env" ∷ []))) (
        must (write_systemd_unit service)
          (switch_symlink (join (base_opt ∷ "current" ∷ [])) release_dir finish)))

  abbrev unpack : String → ℕ → S → Ending × S
  unpack service release s =
      let release_dir = join (base_opt ∷ "releases" ∷ format_uint release ∷ []) in
      then_step (download_file binary_url tmp_file s) (
        must (C.mkdir_all release_dir 0o755) (λ t.
          then_step (extract_tar_gz_strip tmp_file release_dir t) (install service release_dir)))

  abbrev or_exit : Option Fault × S → (S → Ending × S) → Ending × S
  or_exit (some f, s) rest = (exited f, s)
  or_exit (none, s) rest = rest s

  -- Configure; the API and the namespace are not used.
  unfoldable pub configure : String → ℕ → S → Ending × S
  unfolding extract_entries
  configure service release s = or_exit (ensure_dirs s) (unpack service release)
