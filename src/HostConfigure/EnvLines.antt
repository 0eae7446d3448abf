-- ===== src/HostConfigure/EnvLines.antt =====
-- The lines of overwrite.env (Execute in internal/src/deploy-job/job_deploy_configure.go): one for each
-- pair of a Go map, whose order is not fixed, sorted before they are written. strings.ToUpper and
-- strconv.Quote are parameters.
use Prim.Native.Char.{code}
use deployd.Prelude.{
  String, ◌<>◌, Bool, true, false, ◌≡◌, refl, sym, ap, ◌∙◌, List, [], ◌∷◌, map, ltb, arith, All,
  All-imp, if◌then◌else◌, Bool-cases, ◌⊎◌, inl, inr,
}
use mathlib.Core.List.{Permᴰ}
use text.Mathlib.TextEquality.{Char-path}

-- strings.Compare(a, b) <= 0: the order of the bytes of UTF-8 is that of the code points.
unfoldable pub le : String → String → Bool
le String.[] t = true
le (String.◌∷◌ c s) String.[] = false
le (String.◌∷◌ c s) (String.◌∷◌ d t) =
    let rest = le s t in
    if ltb (code c) (code d) then true else if ltb (code d) (code c) then false else rest

-- The lines are distinct where the keys are, but equal lines may come from keys that differ in case. The
-- sorted list is the same for every way to sort.
unfoldable pub insert_line : String → List String → List String
unfolding le
insert_line a [] = a ∷ []
insert_line a (b ∷ l) = let rest = insert_line a l in if le a b then a ∷ b ∷ l else b ∷ rest

unfoldable pub sort : List String → List String
unfolding insert_line
sort [] = []
sort (a ∷ l) = insert_line a (sort l)

module _ (to_upper quote : String → String) where
  abbrev pub line_of : String × String → String
  line_of p = to_upper p.0 <> ("=" <> quote p.1)

  -- `tmpEnv`
  unfoldable pub env_lines : List (String × String) → List String
  unfolding sort
  env_lines values = sort (map line_of values)

le_total : (a b : String) → le a b ≡ false → le b a ≡ true
unfolding le
le_total String.[] b h = ground (arith, h)
le_total (String.◌∷◌ c s) String.[] h = refl
le_total (String.◌∷◌ c s) (String.◌∷◌ d t) h = ground (arith, le_total s t)

le_antisym : (a b : String) → le a b ≡ true → le b a ≡ true → a ≡ b
unfolding le
le_antisym String.[] String.[] h g = refl
le_antisym String.[] (String.◌∷◌ d t) h g = ground (arith, g)
le_antisym (String.◌∷◌ c s) String.[] h g = ground (arith, h)
le_antisym (String.◌∷◌ c s) (String.◌∷◌ d t) h g =
    let same : code c ≡ code d = ground arith in
    let tails : s ≡ t = le_antisym s t (ground arith) (ground arith) in cc (Char-path c d same)

le_trans : (a b c : String) → le a b ≡ true → le b c ≡ true → le a c ≡ true
unfolding le
le_trans String.[] b c h g = refl
le_trans (String.◌∷◌ x a) String.[] c h g = ground (arith, h)
le_trans (String.◌∷◌ x a) (String.◌∷◌ y b) String.[] h g = ground (arith, g)
le_trans (String.◌∷◌ x a) (String.◌∷◌ y b) (String.◌∷◌ z c) h g = ground (arith, le_trans a b c)

-- Two lines in order may be inserted in either order.
insert_line-in_order :
    (a b : String) (l : List String)
    → le a b ≡ true
    → le b a ≡ false
    → insert_line a (insert_line b l) ≡ insert_line b (insert_line a l)
unfolding insert_line
insert_line-in_order a b [] h g = rw (h, g) refl
insert_line-in_order a b (x ∷ l) h g =
    by_head (Bool-cases (le b x)) (Bool-cases (le a x)) (insert_line-in_order a b l h g)
  where
    by_head :
        (le b x ≡ true) ⊎ (le b x ≡ false)
        → (le a x ≡ true) ⊎ (le a x ≡ false)
        → insert_line a (insert_line b l) ≡ insert_line b (insert_line a l)
        → insert_line a (insert_line b (x ∷ l)) ≡ insert_line b (insert_line a (x ∷ l))
    by_head (inl e) f rest = rw (e, le_trans a b x h e, h, g, e) refl
    by_head (inr e) (inl f) rest = rw (e, f, g, e) refl
    by_head (inr e) (inr f) rest = rw (e, f, e) (ap (λ m. x ∷ m) rest)

insert_line-swap :
    (a b : String) (l : List String)
    → insert_line a (insert_line b l) ≡ insert_line b (insert_line a l)
insert_line-swap a b l = by_order (Bool-cases (le a b)) (Bool-cases (le b a))
  where
    by_order :
        (le a b ≡ true) ⊎ (le a b ≡ false)
        → (le b a ≡ true) ⊎ (le b a ≡ false)
        → insert_line a (insert_line b l) ≡ insert_line b (insert_line a l)
    by_order (inl h) (inl g) = let same : a ≡ b = le_antisym a b h g in cc same
    by_order (inl h) (inr g) = insert_line-in_order a b l h g
    by_order (inr h) g = sym (insert_line-in_order b a l (le_total a b h) h)

sort-Perm : {l m : List String} → Permᴰ l m → sort l ≡ sort m
unfolding sort
sort-Perm Permᴰ.nil = refl
sort-Perm (Permᴰ.cons e p) = let rest = sort-Perm p in cc
sort-Perm (Permᴰ.swap {a = a} {b = b} {l = l} e f) =
    let swapped = insert_line-swap a b (sort l) in cc
sort-Perm (Permᴰ.trans p q) = sort-Perm p ∙ sort-Perm q

map-Perm : {A B : Type 0} (f : A → B) {l m : List A} → Permᴰ l m → Permᴰ (map f l) (map f m)
map-Perm f Permᴰ.nil = Permᴰ.nil
map-Perm f (Permᴰ.cons e p) = Permᴰ.cons (ap f e) (map-Perm f p)
map-Perm f (Permᴰ.swap e g) = Permᴰ.swap (ap f e) (ap f g)
map-Perm f (Permᴰ.trans p q) = Permᴰ.trans (map-Perm f p) (map-Perm f q)

-- Every line is followed by lines that are not below it.
abbrev pub IsSorted : List String → Type 0
IsSorted [] = Unit
IsSorted (a ∷ l) = All (λ b. le a b ≡ true) l × IsSorted l

All-insert_line :
    (P : String → Type 0) (a : String) (l : List String) → P a → All P l → All P (insert_line a l)
unfolding insert_line
All-insert_line P a [] p h = (p, tt)
All-insert_line P a (b ∷ l) p h = elim (Bool-cases (le a b)) [
  | inl e ↦ rw e (p, h)
  | inr e ↦ rw e (h.0, All-insert_line P a l p h.1)
]

insert_line-IsSorted : (a : String) (l : List String) → IsSorted l → IsSorted (insert_line a l)
unfolding insert_line
insert_line-IsSorted a [] h = (tt, tt)
insert_line-IsSorted a (b ∷ l) h = elim (Bool-cases (le a b)) [
  | inl e ↦ rw e ((e, All-imp (λ c g. le_trans a b c e g) l h.0), h)
  | inr e ↦
      rw e (
        All-insert_line (λ c. le b c ≡ true) a l (le_total a b e) h.0,
        insert_line-IsSorted a l h.1,
      )
]

sort-IsSorted : (l : List String) → IsSorted (sort l)
unfolding sort
sort-IsSorted [] = tt
sort-IsSorted (a ∷ l) = insert_line-IsSorted a (sort l) (sort-IsSorted l)

module _ (to_upper quote : String → String) where
  -- The lines that are written are sorted, and they are the same in whatever order the map's pairs come.
  pub env_lines-Perm :
      {values values' : List (String × String)}
      → Permᴰ values values'
      → (env_lines to_upper quote values ≡ env_lines to_upper quote values')
        × IsSorted (env_lines to_upper quote values)
  unfolding env_lines
  env_lines-Perm {values} p = (
    sort-Perm (map-Perm (line_of to_upper quote) p),
    sort-IsSorted (map (line_of to_upper quote) values),
  )
