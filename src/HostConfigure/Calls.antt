-- ===== src/HostConfigure/Calls.antt =====
-- What configureHost.Execute builds on: the file system, the stores, the context and systemd.
use deployd.Prelude.{ℕ, String, Bool, ◌⊎◌, Option, List}
use deployd.Entity.KeyValue.{Env}
use deployd.HostConfigure.Copy.{Fault, Pipe}
use deployd.HostConfigure.Archive.{Disk, Next}

-- The answer of Readdirnames(1).
pub data Names : Type 0 where
  a_name no_name : Names
  names_failed : Fault → Names

-- The two properties that are read, where they are texts.
pub record UnitProperties : Type 0 where
  pub load_error : Option String
  pub load_state : Option String

abbrev pub Call : Type 0 → Type 0
Call S = S → Option Fault × S

pub record HostMachine : Type 1 where
  pub State : Type 0
  pub ctx_err : State → Option Fault
  -- The files: writes of whole files, and the lines of Fprintln, whose errors are dropped.
  pub disk : Disk State
  pub write_file : String → String → Call State
  pub create_file : String → Call State
  pub print_lines : String → List String → State → State
  pub rename : String → String → Call State
  pub remove_all : String → Call State
  pub open_dir : State → String → Option Fault
  pub read_names : State → String → Names
  -- The stores of the environments and of the artifacts, and the text functions of the library.
  pub get_env : State → String → String → String → Fault ⊎ List Env
  pub get_attachment : String → String → String → String → State → (Fault ⊎ ℕ) × State
  -- errors.Is with context.Canceled, and the status of the whole job, which lies in the state.
  pub is_canceled : Fault → Bool
  pub cancel_job : State → State
  pub to_upper : String → String
  pub quote : String → String
  -- From the attachment's reader to the file of a path, and a bound of the rounds of Copy.
  pub pipe : String → Pipe State
  pub rounds : String → State → ℕ
  -- The archive that a path names: the errors of opening and of gzip, and the answers of the tar reader.
  pub open_archive : State → String → Option Fault
  pub unzip : State → String → Option Fault
  pub entries : State → String → List Next
  -- systemd over D-Bus
  pub connect : Call State
  pub reload : Call State
  pub unit_properties : State → String → Fault ⊎ UnitProperties
