-- ===== src/Prelude/Actions.antt =====
-- How a Go function ends: it returns its value, it returns an error, or it panics. Code that changes
-- shared state is an action: the state is passed on beside the outcome, errors and panics included.
use mathlib.Core.Bool.{Bool, true, false}

-- A run-time panic of Go.
pub data Panic : Type 0 where
  index_out_of_range nil_dereference nil_map_write : Panic

pub data Outcome {ℓ} (E A : Type ℓ) : Type ℓ where
  ok : A → Outcome E A
  err : E → Outcome E A
  panic : Panic → Outcome E A

abbrev pub Action : Type 0 → Type 0 → Type 0 → Type 0
Action S E A = S → Outcome E A × S

module _ {S E A : Type 0} where
  abbrev pub pure : A → Action S E A
  pure a s = (ok a, s)

  abbrev pub raise : E → Action S E A
  raise e s = (err e, s)

  abbrev pub lift : Outcome E A → Action S E A
  lift o s = (o, s)

module _ {S E A B : Type 0} where
  abbrev pub continue : Outcome E A → (A → Action S E B) → Action S E B
  continue (ok a) f s = f a s
  continue (err e) f s = (err e, s)
  continue (panic p) f s = (panic p, s)

  infixl 5 ◌>>=◌ ◌>>◌
  abbrev pub ◌>>=◌ : Action S E A → (A → Action S E B) → Action S E B
  ◌>>=◌ m f s = let (r, s') = m s in continue r f s'

  abbrev pub ◌>>◌ : Action S E A → Action S E B → Action S E B
  m >> n = m >>= λ _. n

-- `if !b { return e }`
abbrev pub guard : {S E : Type 0} → Bool → E → Action S E Unit
guard true e s = (ok tt, s)
guard false e s = (err e, s)
