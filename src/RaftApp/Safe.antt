-- ===== src/RaftApp/Safe.antt =====
-- Outcomes that are no panic, and the rules for `do` blocks.
use deployd.Prelude.{
  ◌≡◌, ◌≢◌, refl, Bool, true, false, ◌⊎◌, inl, inr, List, [], ◌∷◌, ok, err, panic, Panic, Outcome,
  Action, continue, guard, pure, lift, ◌>>=◌,
}
use deployd.Entity.Job.{DeploymentJob}
use deployd.RaftApp.Runtime.{Runtime, Fault, Error, Meta, handed_on, parsed, exactly_one, store_job}
use deployd.RaftApp.Effect.Rules.{handed_on-ok}

abbrev pub Safe : {A : Type 0} → Outcome Error A → Type 0
Safe o = (p : Panic) → o ≢ panic p

pub Safe-ok : {A : Type 0} (a : A) → Safe (ok a)
Safe-ok a p h = cc

pub Safe-err : {A : Type 0} (e : Error) → Safe {A = A} (err e)
Safe-err e p h = cc

pub Safe-handed_on : {A : Type 0} (r : Fault ⊎ A) → Safe (handed_on r)
Safe-handed_on (inl f) p h = cc
Safe-handed_on (inr a) p h = cc

pub Safe-parsed : {A : Type 0} (r : Fault ⊎ A) → Safe (parsed r)
Safe-parsed (inl f) p h = cc
Safe-parsed (inr a) p h = cc

pub Safe-exactly_one : (js : List DeploymentJob) → Safe (exactly_one js)
Safe-exactly_one [] p h = cc
Safe-exactly_one (j ∷ []) p h = cc
Safe-exactly_one (j ∷ k ∷ js) p h = cc

module _ {S A B : Type 0} where
  pub Safe-continue :
      (o : Outcome Error A) (f : A → Action S Error B) (s : S)
      → Safe o
      → ((a : A) → o ≡ ok a → Safe (f a s).0)
      → Safe (continue o f s).0
  Safe-continue (ok a) f s h k = k a refl
  Safe-continue (err e) f s h k = Safe-err e
  Safe-continue (panic q) f s h k = absurd (h q refl)

module _ {S B : Type 0} where
  pub Safe-guard :
      (b : Bool) (e : Error) (f : Unit → Action S Error B) (s : S)
      → (b ≡ true → Safe (f tt s).0)
      → Safe ((guard b e >>= f) s).0
  Safe-guard true e f s k = k refl
  Safe-guard false e f s k = Safe-err e

module _ (R : Runtime) {B : Type 0} where
  -- A post hands its error on; the rest sees the job that it returned.
  pub Safe-store_job :
      (k : DeploymentJob) (meta : Meta) (f : DeploymentJob → Action R.State Error B) (s : R.State)
      → ((j : DeploymentJob) (t : R.State) → (R.post_job k meta s).0 ≡ inr j → Safe (f j t).0)
      → Safe ((store_job R k meta >>= f) s).0
  Safe-store_job k meta f s h =
      Safe-continue (handed_on (R.post_job k meta s).0) f (R.post_job k meta s).1 (Safe-handed_on _)
        (λ j e. h j _ (handed_on-ok _ j e))

  -- The last lines of a handler: encode, and answer.
  pub Safe-reply :
      (r : Fault ⊎ R.Bytes) (g : R.Bytes → B) (s : R.State)
      → Safe ((lift (handed_on r) >>= λ b. pure (g b)) s).0
  Safe-reply (inl e) g s = Safe-err _
  Safe-reply (inr b) g s = Safe-ok _
