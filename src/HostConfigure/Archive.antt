-- ===== src/HostConfigure/Archive.antt =====
-- ExtractTarGzStrip of internal/src/deploy-job/utility.go. The file system, and the gzip and tar readers,
-- are parameters.
pub mod Plan
use Prim.Native.Char.{code}
use deployd.Prelude.{
  ℕ, String, ◌<>◌, Bool, Option, none, some, List, [], ◌∷◌, ◌==◌, nat_beq, if◌then◌else◌,
}
use deployd.Path.{join, clean}
use deployd.HostConfigure.Copy.{Fault}

is_slash : ℕ → Bool
is_slash c = nat_beq c b'/'

-- strings.SplitN(path, "/", 2), its second part, or the empty text where there is none. ToSlash changes
-- nothing on a system with slashes.
unfoldable pub strip_first_level : String → String
unfolding is_slash
strip_first_level String.[] = ""
strip_first_level (String.◌∷◌ c s) =
    let rest = strip_first_level s in if is_slash (code c) then s else rest

-- What stands up to the last slash of a path that Join made, or "." or "/": filepath.Dir.
unfoldable pub before_last_slash : String → Option String
unfolding is_slash
before_last_slash String.[] = none
before_last_slash (String.◌∷◌ c s) = keep_slash (before_last_slash s)
  where
    keep_slash : Option String → Option String
    keep_slash (some d) = some (String.◌∷◌ c d)
    keep_slash none = if is_slash (code c) then some String.[] else none

unfoldable pub dir : String → String
unfolding before_last_slash
dir p = of (before_last_slash p)
  where
    of : Option String → String
    of none = "."
    of (some d) = if d == "" then "/" else clean d

-- The type flags that the switch knows; the others are passed over.
pub data TypeFlag : Type 0 where
  type_dir type_reg type_other : TypeFlag

pub record Header : Type 0 where
  pub name : String
  pub type_flag : TypeFlag
  pub mode : ℕ
  pub contents : List ℕ

-- An answer of the tar reader; the list of answers ends at io.EOF.
pub data Next : Type 0 where
  entry : Header → Next
  tar_error : Fault → Next

-- os.MkdirAll, and os.OpenFile with io.Copy, which may fail after it wrote a part.
pub record Disk (S : Type 0) : Type 0 where
  pub mkdir_all : String → ℕ → S → Option Fault × S
  pub open_file : String → ℕ → S → Option Fault × S
  pub copy_to : String → List ℕ → S → Option Fault × S

module _ {S : Type 0} where
  abbrev pub then_call : Option Fault × S → (S → Option Fault × S) → Option Fault × S
  then_call (some f, s) call = (some f, s)
  then_call (none, s) call = call s

module _ {S : Type 0} (D : Disk S) where
  abbrev pub put_entry : TypeFlag → String → Header → S → Option Fault × S
  put_entry type_dir target h s = D.mkdir_all target h.mode s
  put_entry type_reg target h s =
      then_call (D.mkdir_all (dir target) 0o755 s)
        (λ t. then_call (D.open_file target h.mode t) (D.copy_to target h.contents))
  put_entry type_other target h s = (none, s)

  -- One entry: nothing where no name is left.
  unfoldable pub put : String → Header → S → Option Fault × S
  unfolding dir
  put dest h s =
      let clean_name = strip_first_level h.name in
      let target = join (dest ∷ clean_name ∷ []) in
      if clean_name == "" then (none, s) else put_entry h.type_flag target h s

  unfoldable pub extract_entries : String → List Next → S → Option Fault × S
  unfolding put
  extract_entries dest [] s = (none, s)
  extract_entries dest (tar_error f ∷ answers) s = (some ("tar error: " <> f), s)
  extract_entries dest (entry h ∷ answers) s =
      let done = put dest h s in then_call done (extract_entries dest answers)

  -- `opened` and `unzipped` are the errors of os.Open and of gzip.NewReader.
  unfoldable pub extract_tar_gz_strip :
      Option Fault → Option Fault → String → List Next → S → Option Fault × S
  unfolding extract_entries
  extract_tar_gz_strip (some f) unzipped dest answers s = (some f, s)
  extract_tar_gz_strip none (some f) dest answers s = (some ("gzip error: " <> f), s)
  extract_tar_gz_strip none none dest answers s = extract_entries dest answers s
