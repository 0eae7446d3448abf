-- ===== src/HostDeploy/Calls.antt =====
-- What Deploy calls on a host: the files of package os and the units of systemd over D-Bus. It is a
-- parameter; its documented behaviour, as far as the links depend on it, is `IsPosix`.
use Prim.Native.Char.{code}
use deployd.Prelude.{
  ℕ, String, ◌<>◌, ◌≡◌, Bool, true, false, not, ◌&&◌, ◌==◌, ◌⊎◌, Option, none, some, nat_beq,
}

-- An error of a call, by its text.
abbrev pub Fault : Type 0
Fault = String

abbrev pub Call : Type 0 → Type 0
Call S = S → Option Fault × S

pub record FileInfo : Type 0 where
  pub is_dir : Bool
  pub mode : ℕ

pub record Machine : Type 1 where
  pub State : Type 0
  pub stat : State → String → Option FileInfo
  -- the empty text where the path is no link
  pub readlink : State → String → String
  pub chmod : String → ℕ → Call State
  pub mkdir_all : String → Call State
  -- its error is dropped
  pub remove : String → State → State
  -- new target, then path
  pub symlink : String → String → Call State
  pub rename : String → String → Call State
  pub connect : Call State
  pub stop_unit : String → Call State
  pub start_unit : String → Call State
  -- the end of the requested job, or that of the context
  pub wait : Call State
  -- the property ActiveState, where it is a text
  pub active_state : State → String → Fault ⊎ Option String

-- Is the first text the start of the second one?
abbrev pub has_prefix : String → String → Bool
has_prefix String.[] t = true
has_prefix (String.◌∷◌ c s) String.[] = false
has_prefix (String.◌∷◌ c s) (String.◌∷◌ d t) = nat_beq (code c) (code d) && has_prefix s t

-- A change at `p` does not show at `q`: `q` is neither `p` nor a path through it.
abbrev pub apart : String → String → Bool
apart p q = not (p == q) && not (has_prefix (p <> "/") q)

-- Links change by remove, symlink and rename only, at the paths these name, and a call that fails
-- changes none.
pub record IsPosix (M : Machine) : Type 0 where
  pub readlink-chmod :
      (p q : String) (m : ℕ) (s : M.State) → M.readlink (M.chmod p m s).1 q ≡ M.readlink s q
  pub readlink-mkdir_all :
      (p q : String) (s : M.State) → M.readlink (M.mkdir_all p s).1 q ≡ M.readlink s q
  pub readlink-connect : (q : String) (s : M.State) → M.readlink (M.connect s).1 q ≡ M.readlink s q
  pub readlink-stop_unit :
      (u q : String) (s : M.State) → M.readlink (M.stop_unit u s).1 q ≡ M.readlink s q
  pub readlink-start_unit :
      (u q : String) (s : M.State) → M.readlink (M.start_unit u s).1 q ≡ M.readlink s q
  pub readlink-wait : (q : String) (s : M.State) → M.readlink (M.wait s).1 q ≡ M.readlink s q
  pub readlink-remove :
      (p q : String) (s : M.State) → apart p q ≡ true → M.readlink (M.remove p s) q ≡ M.readlink s q
  pub readlink-symlink :
      (t p q : String) (s : M.State)
      → apart p q ≡ true
      → M.readlink (M.symlink t p s).1 q ≡ M.readlink s q
  pub readlink-symlink_new :
      (t p : String) (s : M.State)
      → (M.symlink t p s).0 ≡ none
      → M.readlink (M.symlink t p s).1 p ≡ t
  pub readlink-rename :
      (p r q : String) (s : M.State)
      → apart p q ≡ true
      → apart r q ≡ true
      → M.readlink (M.rename p r s).1 q ≡ M.readlink s q
  pub readlink-rename_new :
      (p r : String) (s : M.State)
      → (M.rename p r s).0 ≡ none
      → M.readlink (M.rename p r s).1 r ≡ M.readlink s p
  pub readlink-rename_failed :
      (p r q : String) (f : Fault) (s : M.State)
      → (M.rename p r s).0 ≡ some f
      → M.readlink (M.rename p r s).1 q ≡ M.readlink s q
