-- ===== src/Prelude/GoMap.antt =====
-- Go maps with string keys: `nil`, or a table. The source never depends on a map's order, so a table
-- is a list of pairs with distinct keys in the order of insertion.
use Prim.Native.Nat.{ℕ, ◌+◌, ◌≤◌}
use Prim.Native.String.{String}
use mathlib.Core.Path.{◌≡◌, refl}
use mathlib.Core.Bool.{true, false, ◌||◌}
use mathlib.Core.List.{List, [], ◌∷◌, ◌++◌}
use mathlib.Core.Option.{Option, none, some}
use native.Mathlib.Omega.{arith}
use text.Mathlib.Text.{◌==◌}
use text.Mathlib.TextEquality.{eq_iff}
use deployd.Prelude.Lists.{length, elem}
use deployd.Prelude.Actions.{Outcome, ok, panic, nil_map_write}
use deployd.Prelude.Tests.{if◌then◌else◌}

pub data GoMap {ℓ} (V : Type ℓ) : Type ℓ where
  nil : GoMap V
  table : List (String × V) → GoMap V

module _ {ℓ} {V : Type ℓ} where
  -- The keys of a table.
  abbrev pub keys_of : List (String × V) → List String
  keys_of [] = []
  keys_of ((k, v) ∷ l) = k ∷ keys_of l

  abbrev pub values_of : List (String × V) → List V
  values_of [] = []
  values_of ((k, v) ∷ l) = v ∷ values_of l

  unfoldable pub lookup : String → List (String × V) → Option V
  lookup k [] = none
  lookup k ((j, v) ∷ l) = if j == k then some v else lookup k l

  unfoldable pub set : String → V → List (String × V) → List (String × V)
  set k v [] = (k, v) ∷ []
  set k v ((j, w) ∷ l) = if j == k then (k, v) ∷ l else (j, w) ∷ set k v l

  -- `m[k]`, with its `ok`: a nil map holds nothing.
  abbrev pub index : String → GoMap V → Option V
  index k nil = none
  index k (table l) = lookup k l

  -- `m[k] = v` panics on a nil map.
  abbrev pub insert : {E : Type ℓ} → String → V → GoMap V → Outcome E (GoMap V)
  insert k v nil = panic nil_map_write
  insert k v (table l) = ok (table (set k v l))

  abbrev pub keys : GoMap V → List String
  keys nil = []
  keys (table l) = keys_of l

  abbrev pub values : GoMap V → List V
  values nil = []
  values (table l) = values_of l

  -- `len(m)`
  abbrev pub len : GoMap V → ℕ
  len m = length (keys m)

module _ {ℓ} {V : Type ℓ} where
  pub lookup-set :
      (k j : String) (v : V) (l : List (String × V))
      → lookup j (set k v l) ≡ (if k == j then some v else lookup j l)
  unfolding lookup set
  lookup-set k j v [] = refl
  lookup-set k j v ((i, w) ∷ l) =
      ground (arith, eq_iff k j, eq_iff i k, eq_iff i j, lookup-set k j v l)

  -- A write to a key that is there leaves the keys as they were.
  pub keys_of-set :
      (k : String) (v : V) (l : List (String × V))
      → elem k (keys_of l) ≡ true
      → keys_of (set k v l) ≡ keys_of l
  unfolding set
  keys_of-set k v [] h = ground arith
  keys_of-set k v ((j, w) ∷ l) h = ground (arith, eq_iff j k, keys_of-set k v l)

  pub elem-set :
      (k j : String) (v : V) (l : List (String × V))
      → elem j (keys_of (set k v l)) ≡ (k == j || elem j (keys_of l))
  unfolding set
  elem-set k j v [] = refl
  elem-set k j v ((i, w) ∷ l) = ground (arith, eq_iff k j, eq_iff i k, eq_iff i j, elem-set k j v l)

  pub length-set_le :
      (k : String) (v : V) (l : List (String × V))
      → (length (keys_of l) ≤ length (keys_of (set k v l)))
        × (length (keys_of (set k v l)) ≤ length (keys_of l) + 1)
        × (1 ≤ length (keys_of (set k v l)))
  unfolding set
  length-set_le k v [] = ground arith
  length-set_le k v ((j, w) ∷ l) = ground (arith, length-set_le k v l)

  -- A fresh key goes to the end.
  pub keys_of-set_end :
      (k : String) (v : V) (l : List (String × V))
      → elem k (keys_of l) ≡ false
      → keys_of (set k v l) ≡ keys_of l ++ (k ∷ [])
  unfolding set
  keys_of-set_end k v [] h = refl
  keys_of-set_end k v ((j, w) ∷ l) h = ground (arith, keys_of-set_end k v l)

  pub lookup-elem :
      (k : String) (v : V) (l : List (String × V)) → lookup k l ≡ some v → elem k (keys_of l) ≡ true
  unfolding lookup
  lookup-elem k v [] h = cc
  lookup-elem k v ((j, w) ∷ l) h = ground (arith, lookup-elem k v l)
