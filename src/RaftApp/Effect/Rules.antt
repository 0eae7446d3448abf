-- ===== src/RaftApp/Effect/Rules.antt =====
-- How the effect of a `do` block follows from that of its parts.
use deployd.Prelude.{
  String, Bool, true, false, guard, ◌>>=◌, ◌≡◌, refl, ap, ◌∙◌, ◌⊎◌, inl, inr, List, [], ◌∷◌, ok,
  err, panic, Outcome, Action, continue,
}
use deployd.Prelude.{length, ◌≤◌}
use deployd.Prelude.Int.{max_int}
use deployd.Entity.Job.{DeploymentJob}
use deployd.RaftApp.Runtime.{Runtime, Fault, Error, handed_on, first, exactly_one}
use deployd.RaftApp.Effect.{Effect, unchanged, Loaded, loaded, IsSized}

module _ {A B : Type 0} {R : Runtime} {s : R.State} where
  -- A step that reads or tests leaves the store as it is; the rest may use what it returned.
  pub Effect-continue :
      (o : Outcome Error A) (f : A → Action R.State Error B)
      → ((a : A) → o ≡ ok a → Effect R s (f a s).1)
      → Effect R s (continue o f s).1
  Effect-continue (ok a) f k = k a refl
  Effect-continue (err e) f k = unchanged refl
  Effect-continue (panic p) f k = unchanged refl

module _ {B : Type 0} {R : Runtime} {s : R.State} where
  pub Effect-guard :
      (b : Bool) (e : Error) (f : Unit → Action R.State Error B)
      → (b ≡ true → Effect R s (f tt s).1)
      → Effect R s ((guard b e >>= f) s).1
  Effect-guard true e f k = k refl
  Effect-guard false e f k = unchanged refl

module _ {A B S E : Type 0} where
  -- What follows a post and only replies.
  pub continue-state :
      (o : Outcome E A) (f : A → Action S E B) (t : S)
      → ((a : A) → (f a t).1 ≡ t)
      → (continue o f t).1 ≡ t
  continue-state (ok a) f t k = k a
  continue-state (err e) f t k = refl
  continue-state (panic p) f t k = refl

pub handed_on-ok : {A : Type 0} (r : Fault ⊎ A) (a : A) → handed_on r ≡ ok a → r ≡ inr a
handed_on-ok (inl f) a h = cc
handed_on-ok (inr b) a h = cc

pub first-ok :
    (js : List DeploymentJob) (j : DeploymentJob)
    → first js ≡ ok j
    → (rest : List DeploymentJob) × (js ≡ j ∷ rest)
first-ok [] j h = cc
first-ok (k ∷ rest) j h = (rest, cc)

pub exactly_one-ok :
    (js : List DeploymentJob) (j : DeploymentJob) → exactly_one js ≡ ok j → js ≡ j ∷ []
exactly_one-ok [] j h = cc
exactly_one-ok (k ∷ []) j h = cc
exactly_one-ok (k ∷ l ∷ rest) j h = cc

module _ (R : Runtime) (s : R.State) (ns service id : String) (js : List DeploymentJob)
    (j : DeploymentJob) (got : handed_on (R.get_jobs s ns (service ∷ []) id) ≡ ok js) where
  pub Loaded-first : first js ≡ ok j → Loaded R s j
  Loaded-first h =
      let (rest, e) = first-ok js j h in loaded ns service id rest (handed_on-ok _ _ got ∙ ap inr e)

  pub Loaded-exactly_one : exactly_one js ≡ ok j → Loaded R s j
  Loaded-exactly_one h =
      loaded ns service id [] (handed_on-ok _ _ got ∙ ap inr (exactly_one-ok js j h))

  pub loaded_fits : IsSized R s → exactly_one js ≡ ok j → length j.deployment.host_order ≤ max_int
  loaded_fits sized h =
      (sized.fits ns service id (j ∷ []) (handed_on-ok _ _ got ∙ ap inr (exactly_one-ok js j h))).0
