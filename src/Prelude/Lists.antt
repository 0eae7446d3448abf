-- ===== src/Prelude/Lists.antt =====
-- Lists measured and indexed by native numbers, and predicates on every element.
use Prim.Native.Nat.{ℕ, zero, suc, ◌+◌, ◌<◌}
use Prim.Native.String.{String}
use mathlib.Core.Path.{◌≡◌, refl}
use mathlib.Core.Logic.{◌≢◌}
use mathlib.Core.Bool.{Bool, true, false, ◌||◌}
use mathlib.Core.List.{List, [], ◌∷◌, ◌++◌}
use mathlib.Core.Option.{Option, none, some}
use native.Mathlib.Omega.{arith}
use text.Mathlib.Text.{◌==◌}
use text.Mathlib.TextEquality.{eq_iff}

module _ {ℓ} {A : Type ℓ} where
  abbrev pub length : List A → ℕ
  length [] = 0
  length (x ∷ xs) = suc (length xs)

  abbrev pub get_elem? : List A → ℕ → Option A
  get_elem? [] i = none
  get_elem? (x ∷ xs) zero = some x
  get_elem? (x ∷ xs) (suc i) = get_elem? xs i

  -- A predicate that computes to a tuple, which the tactics read and build.
  abbrev pub All {κ} : (A → Type κ) → List A → Type κ
  All P [] = Unit
  All P (x ∷ xs) = P x × All P xs

  pub length-append : (xs ys : List A) → length (xs ++ ys) ≡ length xs + length ys
  length-append [] ys = omega arith
  length-append (x ∷ xs) ys = omega (arith, length-append xs ys)

  pub All_get_elem? {κ} :
      (P : A → Type κ) (xs : List A) (i : ℕ) {x : A} → All P xs → get_elem? xs i ≡ some x → P x
  All_get_elem? P [] i h e = cc
  All_get_elem? P (x ∷ xs) zero h e = ground arith
  All_get_elem? P (x ∷ xs) (suc i) h e = All_get_elem? P xs i h.1 e

  pub get_elem?_lt : (xs : List A) (i : ℕ) → i < length xs → (x : A) × (get_elem? xs i ≡ some x)
  get_elem?_lt [] i h = elim h [ ]
  get_elem?_lt (x ∷ xs) zero h = (x, refl)
  get_elem?_lt (x ∷ xs) (suc i) h = get_elem?_lt xs i (omega arith)

module _ {ℓ} {A : Type ℓ} where
  pub All-imp {κ μ} :
      {P : A → Type κ} {Q : A → Type μ} (f : (x : A) → P x → Q x) (xs : List A)
      → All P xs
      → All Q xs
  All-imp f [] h = tt
  All-imp f (x ∷ xs) h = (f x h.0, All-imp f xs h.1)

abbrev pub elem : String → List String → Bool
elem k [] = false
elem k (x ∷ xs) = x == k || elem k xs

pub lt_of_get_elem? {ℓ} :
    {A : Type ℓ} (xs : List A) (i : ℕ) (x : A) → get_elem? xs i ≡ some x → i < length xs
lt_of_get_elem? [] i x h = cc
lt_of_get_elem? (y ∷ xs) zero x h = omega arith
lt_of_get_elem? (y ∷ xs) (suc i) x h = omega (arith, lt_of_get_elem? xs i x h)

-- What holds of every text that `elem` finds holds of all.
pub All-of_elem {ℓ} :
    (P : String → Type ℓ) (xs : List String) → ((x : String) → elem x xs ≡ true → P x) → All P xs
All-of_elem P [] f = tt
All-of_elem P (x ∷ xs) f =
    (f x (ground (arith, eq_iff x x)), All-of_elem P xs (λ y h. f y (ground arith)))

-- No text stands twice.
abbrev pub Distinct : List String → Type 0
Distinct [] = Unit
Distinct (x ∷ xs) = (elem x xs ≡ false) × Distinct xs

pub elem-get_elem? :
    (xs : List String) (i : ℕ) (x : String) → get_elem? xs i ≡ some x → elem x xs ≡ true
elem-get_elem? [] i x h = cc
elem-get_elem? (y ∷ xs) zero x h = ground (arith, eq_iff y x)
elem-get_elem? (y ∷ xs) (suc i) x h = ground (arith, elem-get_elem? xs i x)

-- In a list without repetition a text stands at one place.
pub Distinct-get_elem?_lt :
    (xs : List String) (i n : ℕ) (x : String)
    → Distinct xs
    → i < n
    → get_elem? xs i ≡ some x
    → get_elem? xs n ≢ some x
Distinct-get_elem?_lt [] i n x d h p q = cc
Distinct-get_elem?_lt (y ∷ xs) i zero x d h p q = absurd (omega arith)
Distinct-get_elem?_lt (y ∷ xs) zero (suc n) x d h p q =
    let same : y ≡ x = cc in cc (d.0, rw (← same) at (elem-get_elem? xs n x q))
Distinct-get_elem?_lt (y ∷ xs) (suc i) (suc n) x d h p q =
    Distinct-get_elem?_lt xs i n x d.1 (omega arith) p q

-- What holds at every place holds of all.
pub All-of_get_elem? {ℓ} :
    {A : Type 0} (P : A → Type ℓ) (xs : List A)
    → ((i : ℕ) (x : A) → get_elem? xs i ≡ some x → P x)
    → All P xs
All-of_get_elem? P [] f = tt
All-of_get_elem? P (x ∷ xs) f = (f zero x refl, All-of_get_elem? P xs (λ i y h. f (suc i) y h))
