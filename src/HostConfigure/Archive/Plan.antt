-- ===== src/HostConfigure/Archive/Plan.antt =====
-- The names that are stripped, and the calls that an archive leads to.
use Prim.Native.Char.{code}
use deployd.Prelude.{
  ℕ, String, ◌<>◌, Bool, true, false, not, ◌&&◌, ◌≡◌, refl, Option, none, some, List, [], ◌∷◌, ◌++◌,
  ◌==◌, arith, if◌then◌else◌,
}
use text.Mathlib.TextLemmas.{nil-append, cons-append}
use deployd.Path.{join}
use deployd.HostConfigure.Copy.{Fault}
use deployd.HostConfigure.Archive.{
  strip_first_level, dir, TypeFlag, type_dir, type_reg, type_other, Header, Next, entry, tar_error,
  Disk, then_call, is_slash,
}

-- No character is a slash.
unfoldable pub is_segment : String → Bool
unfolding is_slash
is_segment String.[] = true
is_segment (String.◌∷◌ c s) = not (is_slash (code c)) && is_segment s

-- A name below a first directory keeps what stands after the directory's slash, further slashes included.
pub strip_first_level-segment :
    (a b : String) → is_segment a ≡ true → strip_first_level (a <> ("/" <> b)) ≡ b
unfolding strip_first_level is_slash is_segment
strip_first_level-segment String.[] b h =
    rw (nil-append ("/" <> b), cons-append "/" "" b, nil-append b) refl
strip_first_level-segment (String.◌∷◌ c s) b h =
    let plain : is_slash (code c) ≡ false = ground arith in
    rw (cons-append c s ("/" <> b), plain) (strip_first_level-segment s b (ground arith))

-- A call of the file system, or the error of the reader.
pub data Act : Type 0 where
  make_dir open_to : String → ℕ → Act
  fill : String → List ℕ → Act
  stop : Fault → Act

abbrev acts_of : TypeFlag → String → Header → List Act
acts_of type_dir target h = make_dir target h.mode ∷ []
acts_of type_reg target h =
    make_dir (dir target) 0o755 ∷ open_to target h.mode ∷ fill target h.contents ∷ []
acts_of type_other target h = []

abbrev pub plan_entry : String → Header → List Act
plan_entry dest h =
    let name = strip_first_level h.name in
    if name == "" then [] else acts_of h.type_flag (join (dest ∷ name ∷ [])) h

-- The calls for an archive: a directory for each directory, and the directory above, the file and its
-- bytes for each file, in the archive's order.
pub plan : String → List Next → List Act
plan dest [] = []
plan dest (tar_error f ∷ answers) = stop ("tar error: " <> f) ∷ []
plan dest (entry h ∷ answers) = plan_entry dest h ++ plan dest answers

module _ {S : Type 0} (D : Disk S) where
  abbrev one : Act → S → Option Fault × S
  one (make_dir p m) s = D.mkdir_all p m s
  one (open_to p m) s = D.open_file p m s
  one (fill p bytes) s = D.copy_to p bytes s
  one (stop f) s = (some f, s)

  -- The calls in turn, until the first error.
  pub perform : List Act → S → Option Fault × S
  perform [] s = (none, s)
  perform (a ∷ acts) s = then_call (one a s) (perform acts)
