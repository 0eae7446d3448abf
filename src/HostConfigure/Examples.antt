-- ===== src/HostConfigure/Examples.antt =====
-- A host in memory, with one archive, no environment and no release yet.
use deployd.Prelude.{
  false, ℕ, suc, String, ◌≡◌, refl, sym, none, some, inr, List, [], ◌∷◌, ◌++◌, length, ok,
}
use mathlib.Core.List.{append-nil, Permᴰ}
use deployd.Prelude.Decimal.{format_uint}
use deployd.Path.{join}
use deployd.Entity.Job.{DeploymentJob, HostConfigurationStatus, no_job}
use deployd.Controller.Configurations.{
  start_configure_host_reports, IsTrue, start_configure_host_reports-IsTrue,
}
use deployd.HostConfigure.{execute}
use deployd.HostConfigure.Copy.{Pipe, eof, IsHonest, copy, copy-writes}
use deployd.HostConfigure.Archive.{
  Disk, type_reg, Next, entry, strip_first_level, extract_tar_gz_strip,
}
use deployd.HostConfigure.Archive.Plan.{strip_first_level-segment, is_segment}
use deployd.HostConfigure.EnvLines.{env_lines, IsSorted, env_lines-Perm}
use deployd.HostConfigure.Calls.{HostMachine, no_name}
use deployd.HostConfigure.Status.{CopiesEnd}
use deployd.Examples.Fixtures.{request, host_a}

-- The files created, the last first; what is left to download, and what is written of it.
pub record Memory : Type 0 where
  pub created : List String
  pub source : List ℕ
  pub target : List ℕ

abbrev pipe : Pipe Memory
pipe = record {
  done = λ _. none;
  read = λ m. ((m.source, eof), record m { source = [] });
  write = λ bytes m. (none, record m { target = m.target ++ bytes });
}

abbrev pipe-IsHonest : IsHonest pipe
pipe-IsHonest = record {
  unread = λ m. m.source;
  written = λ m. m.target;
  in_order = λ m. sym (append-nil m.source);
  progress = λ m e. absurd (cc e);
  at_end = λ m e. refl;
  only_reads = λ m. refl;
  only_writes = λ bytes m. refl;
  takes = λ bytes m e. refl;
}

abbrev memory : Memory
memory = record { created = []; source = 1 ∷ 2 ∷ 3 ∷ []; target = [] }

copy-writes_example :
    ((record memory { source = []; target = 1 ∷ 2 ∷ 3 ∷ [] }).target ≡ 1 ∷ 2 ∷ 3 ∷ [])
    × (◌≡◌ {A = ℕ} 3 3)
unfolding copy
copy-writes_example =
    copy-writes pipe pipe-IsHonest 4 3 memory
      (record memory { source = []; target = 1 ∷ 2 ∷ 3 ∷ [] }) refl

abbrev disk : Disk Memory
disk = record {
  mkdir_all = λ p m s. (none, s);
  open_file = λ p m s. (none, record s { created = p ∷ s.created });
  copy_to = λ p bytes s. (none, s);
}

abbrev file : String → Next
file name = entry (record { name = name; type_flag = type_reg; mode = 0o644; contents = [] })

-- A name that climbs out of the directory is followed.
climbing_test :
    (extract_tar_gz_strip disk none none "/opt/ns_svc/build-release/7.tmp"
      (file "app/bin/svc" ∷ file "app/../../../../etc/passwd" ∷ [])
      memory).1.created
    ≡ "/etc/passwd" ∷ "/opt/ns_svc/build-release/7.tmp/bin/svc" ∷ []
unfolding extract_tar_gz_strip strip_first_level join
climbing_test = refl

strip_first_level-segment_example : strip_first_level "app/bin/svc" ≡ "bin/svc"
unfolding is_segment
strip_first_level-segment_example = strip_first_level-segment "app" "bin/svc" refl

abbrev as_it_is : String → String
as_it_is s = s

env_lines-Perm_example :
    (env_lines as_it_is as_it_is (("B", "1") ∷ ("A", "2") ∷ [])
      ≡ env_lines as_it_is as_it_is (("A", "2") ∷ ("B", "1") ∷ []))
    × IsSorted (env_lines as_it_is as_it_is (("B", "1") ∷ ("A", "2") ∷ []))
env_lines-Perm_example = env_lines-Perm as_it_is as_it_is (Permᴰ.swap refl refl)

env_lines_test :
    env_lines as_it_is as_it_is (("B", "1") ∷ ("A", "2") ∷ ("AB", "3") ∷ [])
    ≡ "A=2" ∷ "AB=3" ∷ "B=1" ∷ []
unfolding env_lines
env_lines_test = refl

abbrev host : HostMachine
host = record {
  State = Memory;
  ctx_err = λ _. none;
  disk = disk;
  write_file = λ p c s. (none, s);
  create_file = λ p s. (none, record s { created = p ∷ s.created });
  print_lines = λ p lines s. s;
  rename = λ p q s. (none, s);
  remove_all = λ p s. (none, s);
  open_dir = λ s p. none;
  read_names = λ s p. no_name;
  get_env = λ s ns service version. inr [];
  get_attachment = λ ns service build platform s. (inr 3, s);
  is_canceled = λ f. false;
  cancel_job = λ s. s;
  to_upper = as_it_is;
  quote = as_it_is;
  pipe = λ p. pipe;
  rounds = λ p s. suc (length s.source);
  open_archive = λ s p. none;
  unzip = λ s p. none;
  entries = λ s p. file "app/bin/svc" ∷ [];
  connect = λ s. (none, s);
  reload = λ s. (none, s);
  unit_properties = λ s u. inr (record { load_error = some ""; load_state = some "loaded" });
}

host-CopiesEnd : CopiesEnd host
host-CopiesEnd = record { honest = λ p. pipe-IsHonest; enough = λ p s. refl }

-- Without an environment in the store Execute succeeds, and no overwrite.env is created.
no_env_test :
    let done = execute host request host_a (HostConfigurationStatus.pending, memory) in
    (done.0 ≡ ok tt)
    × (done.1.0 ≡ HostConfigurationStatus.success)
    × (done.1.1.created
        ≡ "/opt/ns_svc/build-release/7.tmp/bin/svc" ∷ "/tmp/ns_svc/artifact/7/release.tar.gz" ∷ [])
unfolding execute copy extract_tar_gz_strip strip_first_level join format_uint
no_env_test = (refl, refl, refl)

abbrev job : DeploymentJob
job = record no_job { request = request }

start_configure_host_reports-IsTrue_example :
    IsTrue host
      (λ n s. s)
      (λ e. "error")
      host-CopiesEnd
      host_a
      job
      (start_configure_host_reports host (λ n s. s) (λ e. "error") host_a job 1 2 memory)
start_configure_host_reports-IsTrue_example =
    start_configure_host_reports-IsTrue host (λ n s. s) (λ e. "error") host-CopiesEnd host_a job 1 2
      memory
