-- ===== src/HostDeploy/Ends.antt =====
-- How an action of Deploy ends, and where it leaves the links.
use deployd.Prelude.{String, ◌≡◌, none, some, inr, Outcome, ok, err, panic, Action, continue, ◌>>=◌}
use deployd.HostDeploy.{
  DeployConfig, release_dir, env_release_dir, current_link, etc_env_link, unit_name,
}
use deployd.HostDeploy.Calls.{Machine, Fault}
use deployd.HostDeploy.Switch.{IsBetween}

-- `P` holds after a return, `Q` after an error or a panic.
abbrev pub Ends : {S E A : Type 0} → (S → Type 0) → (S → Type 0) → Outcome E A × S → Type 0
Ends P Q (ok a, s) = P s
Ends P Q (err e, s) = Q s
Ends P Q (panic p, s) = Q s

module _ {S E A B : Type 0} (P P' Q : S → Type 0) where
  pub Ends-continue :
      (m : Action S E A) (f : A → Action S E B) (s : S)
      → Ends P' Q (m s)
      → ((a : A) (t : S) → P' t → Ends P Q (f a t))
      → Ends P Q ((m >>= f) s)
  Ends-continue m f s h k = go (m s) h
    where
      go : (r : Outcome E A × S) → Ends P' Q r → Ends P Q (continue r.0 f r.1)
      go (ok a, t) h = k a t h
      go (err e, t) h = h
      go (panic p, t) h = h

pub none-some : (f : Fault) → ¬ (none ≡ some f)
none-some f h = cc

pub Ends-imp :
    {S E A : Type 0} (P Q Q' : S → Type 0) (r : Outcome E A × S)
    → ((t : S) → Q t → Q' t)
    → Ends P Q r
    → Ends P Q' r
Ends-imp P Q Q' (ok a, t) f h = h
Ends-imp P Q Q' (err e, t) f h = f t h
Ends-imp P Q Q' (panic p, t) f h = f t h

-- Where the links of a configuration may point: to their old targets, to the new release, each to
-- either; and both to the new release, with the unit active.
module _ (M : Machine) (c : DeployConfig) where
  abbrev pub LinksOld : String → String → M.State → Type 0
  LinksOld old_build old_env t =
      (M.readlink t (current_link c) ≡ old_build) × (M.readlink t (etc_env_link c) ≡ old_env)

  abbrev pub LinksNew : M.State → Type 0
  LinksNew t =
      (M.readlink t (current_link c) ≡ release_dir c)
      × (M.readlink t (etc_env_link c) ≡ env_release_dir c)

  abbrev pub LinksBetween : String → String → M.State → Type 0
  LinksBetween old_build old_env =
      IsBetween M (current_link c) (etc_env_link c) old_build (release_dir c) old_env
        (env_release_dir c)

  abbrev pub IsLive : M.State → Type 0
  IsLive t = LinksNew t × (M.active_state t (unit_name c) ≡ inr (some "active"))
