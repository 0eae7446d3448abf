-- ===== src/Main/Router.antt =====
-- What github.com/julienschmidt/httprouter documents of its routes: a request matches one route at most,
-- so a route is refused, by a panic, where it and one of the same method agree up to a place at which both
-- end, or at which they differ and one has a parameter.
use Prim.Native.Char.{code}
use deployd.Prelude.{
  String, Bool, true, false, ◌&&◌, ◌||◌, ◌≡◌, List, [], ◌∷◌, ◌++◌, ◌==◌, All, if◌then◌else◌,
  nat_beq, arith, Bool-cases, inl, inr,
}
use deployd.Path.{split_slash}
use deployd.Main.Setup.{Method, get_method, post_method, delete_method, Route, Libraries}

is_param : String → Bool
is_param String.[] = false
is_param (String.◌∷◌ c s) = nat_beq (code c) b':' || nat_beq (code c) b'*'

same_method : Method → Method → Bool
same_method get_method get_method = true
same_method post_method post_method = true
same_method delete_method delete_method = true
same_method _ _ = false

meet : List String → List String → Bool
meet [] [] = true
meet [] (q ∷ qs) = false
meet (p ∷ ps) [] = false
meet (p ∷ ps) (q ∷ qs) = if p == q then meet ps qs else is_param p || is_param q

unfoldable pub conflicts : Route → Route → Bool
unfolding is_param same_method meet split_slash
conflicts q r = same_method q.method r.method && meet (split_slash q.path) (split_slash r.path)

-- The router takes a route that conflicts with none of those that it has.
abbrev pub IsDocumented : {S : Type 0} → Libraries S → Type 0
IsDocumented L =
    (rs : List Route) (r : Route) → All (λ q. conflicts q r ≡ false) rs → L.takes rs r ≡ true

conflicts_any : List Route → Route → Bool
conflicts_any [] r = false
conflicts_any (q ∷ rs) r = conflicts q r || conflicts_any rs r

conflicts_any_lem :
    (rs : List Route) (r : Route) → conflicts_any rs r ≡ false → All (λ q. conflicts q r ≡ false) rs
unfolding conflicts_any
conflicts_any_lem [] r h = tt
conflicts_any_lem (q ∷ rs) r h = (ground (arith), conflicts_any_lem rs r (ground (arith)))

-- The routes can be registered one after the other beside those that are there.
unfoldable pub are_free : List Route → List Route → Bool
unfolding conflicts_any conflicts
are_free old [] = true
are_free old (r ∷ rs) = if conflicts_any old r then false else are_free (old ++ r ∷ []) rs

-- A documented router takes each of them in turn.
abbrev pub TakesAll : {S : Type 0} → Libraries S → List Route → List Route → Type 0
TakesAll L old [] = Unit
TakesAll L old (r ∷ rs) = (L.takes old r ≡ true) × TakesAll L (old ++ r ∷ []) rs

are_free_cons :
    (old rs : List Route) (r : Route)
    → are_free old (r ∷ rs) ≡ true
    → (conflicts_any old r ≡ false) × (are_free (old ++ r ∷ []) rs ≡ true)
unfolding are_free
are_free_cons old rs r h = elim (Bool-cases (conflicts_any old r)) [
  | inl e ↦ absurd (cc (rw e at h))
  | inr e ↦ (e, rw e at h)
]

pub are_free-TakesAll :
    {S : Type 0} (L : Libraries S) (old rs : List Route)
    → IsDocumented L
    → are_free old rs ≡ true
    → TakesAll L old rs
are_free-TakesAll L old [] law h = tt
are_free-TakesAll L old (r ∷ rs) law h =
    let (alone, free) = are_free_cons old rs r h in
    (law old r (conflicts_any_lem old r alone), are_free-TakesAll L (old ++ r ∷ []) rs law free)
