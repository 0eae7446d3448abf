-- ===== src/Artifactd/Index.antt =====
-- The counters of artifactd: a Go map from pairs of texts to numbers, with distinct keys.
use deployd.Prelude.{
  ℕ, String, ◌≡◌, refl, Bool, true, ◌&&◌, Option, none, some, List, [], ◌∷◌, ◌==◌, eq_iff, arith,
  if◌then◌else◌,
}

pub record Namespace : Type 0 where
  pub namespace : String
  pub name : String

abbrev pub Counters : Type 0
Counters = List (Namespace × ℕ)

-- Go's `==` on the two fields.
unfoldable pub same_key : Namespace → Namespace → Bool
same_key k j = k.namespace == j.namespace && k.name == j.name

unfoldable pub lookup_key : Namespace → Counters → Option ℕ
unfolding same_key
lookup_key k [] = none
lookup_key k ((j, n) ∷ l) = if same_key j k then some n else lookup_key k l

unfoldable pub set_key : Namespace → ℕ → Counters → Counters
unfolding same_key
set_key k n [] = (k, n) ∷ []
set_key k n ((j, m) ∷ l) = if same_key j k then (k, n) ∷ l else (j, m) ∷ set_key k n l

pub same_key_iff : (k j : Namespace) → same_key k j ≡ true → k ≡ j
unfolding same_key
same_key_iff k j h = by_fields k.namespace k.name j.namespace j.name h
  where
    by_fields :
        (a b c d : String)
        → (a == c && b == d) ≡ true
        → ◌≡◌ {A = Namespace}
            (record { namespace = a; name = b })
            (record { namespace = c; name = d })
    by_fields a b c d h =
        let e : a ≡ c = ground (arith, eq_iff a c) in
        let f : b ≡ d = ground (arith, eq_iff b d) in cc

pub same_key_self : (k : Namespace) → same_key k k ≡ true
unfolding same_key
same_key_self k = ground (arith, eq_iff k.namespace k.namespace, eq_iff k.name k.name)

pub lookup_key-set_key :
    (k j : Namespace) (n : ℕ) (l : Counters)
    → lookup_key j (set_key k n l) ≡ (if same_key k j then some n else lookup_key j l)
unfolding lookup_key set_key same_key
lookup_key-set_key k j n [] = refl
lookup_key-set_key k j n ((i, m) ∷ l) = ground (
  arith,
  eq_iff k.namespace j.namespace,
  eq_iff k.name j.name,
  eq_iff i.namespace k.namespace,
  eq_iff i.name k.name,
  eq_iff i.namespace j.namespace,
  eq_iff i.name j.name,
  lookup_key-set_key k j n l,
)
