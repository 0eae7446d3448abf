-- ===== src/Artifactd/Numbers.antt =====
-- The numbers that builds get.
use deployd.Prelude.{
  ℕ, zero, suc, ◌+◌, ◌⊎◌, inl, inr, ◌≡◌, refl, ap, ◌∙◌, Bool, true, false, Option, none, some, List,
  [], ◌∷◌, if◌then◌else◌, Bool-cases,
}
use deployd.Prelude.Int.{uint_incr}
use deployd.Entity.Artifact.{BuildArtifact}
use deployd.Artifactd.{
  App, Fault, Row, Reply, success, key_of, row_of, with_key, next_id, counted, register_artifact,
}
use deployd.Artifactd.Index.{
  Namespace, Counters, lookup_key, set_key, same_key, same_key_iff, lookup_key-set_key,
}

abbrev pub is_success : Reply → Bool
is_success success = true
is_success _ = false

abbrev accept : Bool → Bool → ℕ → List ℕ → List ℕ
accept true true n rest = n ∷ rest
accept _ _ n rest = rest

module _ {Database File : Type 0} (exec : Row → Database → Option Fault × Database) where
  -- The numbers of the builds of a key that are registered with success, over a log of builds with their
  -- times.
  unfoldable pub accepted : Namespace → List (BuildArtifact File × ℕ) → App Database → List ℕ
  accepted key [] s = []
  accepted key ((a, now) ∷ log) s =
      accept (same_key (key_of a) key) (is_success (register_artifact exec a now s).0)
        (next_id (key_of a) s.0) (accepted key log (register_artifact exec a now s).1)

next_id-with_key :
    (key k : Namespace) (index : Counters)
    → next_id key (with_key k (lookup_key k index) index) ≡ next_id key index
next_id-with_key key k index = go (lookup_key k index) refl
  where
    go :
        (o : Option ℕ)
        → lookup_key k index ≡ o
        → next_id key (with_key k o index) ≡ next_id key index
    go (some n) e = refl
    go none e = by_key (Bool-cases (same_key k key))
      where
        by_key :
            (same_key k key ≡ true) ⊎ (same_key k key ≡ false)
            → next_id key (set_key k 0 index) ≡ next_id key index
        by_key (inl h) =
            let same : k ≡ key = same_key_iff k key h in
            rw (lookup_key-set_key k key 0 index, h, ← same, e) refl
        by_key (inr h) = rw (lookup_key-set_key k key 0 index, h) refl

next_id-set_key :
    (key k : Namespace) (n : ℕ) (index : Counters)
    → next_id key (set_key k n index) ≡ (if same_key k key then n else next_id key index)
next_id-set_key key k n index = go (Bool-cases (same_key k key))
  where
    go :
        (same_key k key ≡ true) ⊎ (same_key k key ≡ false)
        → next_id key (set_key k n index) ≡ (if same_key k key then n else next_id key index)
    go (inl h) = rw (lookup_key-set_key k key n index, h) refl
    go (inr h) = rw (lookup_key-set_key k key n index, h) refl

-- The number that a reply leaves to the next build of `key`, of one for `k` whose number is `n`.
abbrev left : Bool → Bool → ℕ → ℕ
left true true n = uint_incr n
left _ _ n = n

module _ {Database : Type 0} (exec : Row → Database → Option Fault × Database) where
  counted-next_id :
      (key k : Namespace) (index : Counters) (r : Option Fault × Database)
      → next_id key (counted exec k (next_id k index) index r).1.0
        ≡ left
            (is_success (counted exec k (next_id k index) index r).0)
            (same_key k key)
            (next_id key index)
  counted-next_id key k index (some f, db) = refl
  counted-next_id key k index (none, db) = go (Bool-cases (same_key k key))
    where
      go :
          (same_key k key ≡ true) ⊎ (same_key k key ≡ false)
          → next_id key (set_key k (uint_incr (next_id k index)) index)
            ≡ left true (same_key k key) (next_id key index)
      go (inl h) =
          let same : k ≡ key = same_key_iff k key h in
          rw (next_id-set_key key k (uint_incr (next_id k index)) index, h, ← same) refl
      go (inr h) = rw (next_id-set_key key k (uint_incr (next_id k index)) index, h) refl

  module _ {File : Type 0} where
    -- A success takes the next number of its key; everything else leaves all numbers as they are.
    register_artifact-next_id :
        (key : Namespace) (a : BuildArtifact File) (now : ℕ) (s : App Database)
        → next_id key (register_artifact exec a now s).1.0
          ≡ left
              (is_success (register_artifact exec a now s).0)
              (same_key (key_of a) key)
              (next_id key s.0)
    unfolding register_artifact
    register_artifact-next_id key a now (index, db) =
        counted-next_id key (key_of a) (with_key (key_of a) (lookup_key (key_of a) index) index) _
        ∙ ap (left _ (same_key (key_of a) key)) (next_id-with_key key (key_of a) index)

abbrev pub is_none : Option Fault → Bool
is_none none = true
is_none (some f) = false

module _ {Database : Type 0} (exec : Row → Database → Option Fault × Database) where
  counted-database :
      (k : Namespace) (idx : ℕ) (index : Counters) (r : Option Fault × Database)
      → (is_success (counted exec k idx index r).0 ≡ is_none r.0)
        × ((counted exec k idx index r).1.1 ≡ r.1)
  counted-database k idx index (some f, db) = (refl, refl)
  counted-database k idx index (none, db) = (refl, refl)

module _ {Database File : Type 0} (exec : Row → Database → Option Fault × Database) where
  -- Registering a build executes the insert once, of the build's row with the number that its namespace
  -- and name have (0 where they have none); the answer is success exactly where the insert has no error,
  -- and the database is what the insert leaves. After a success the next number of that key is this one
  -- plus 1 modulo 2 ^ 64, and otherwise every key keeps its number, as all other keys do in each case.
  pub register_artifact-Effect :
      (key : Namespace) (a : BuildArtifact File) (now : ℕ) (s : App Database)
      → let answer = exec (row_of a (next_id (key_of a) s.0) now) s.1 in
        let done = register_artifact exec a now s in
        (is_success done.0 ≡ is_none answer.0)
        × (done.1.1 ≡ answer.1)
        × (next_id key done.1.0
            ≡ left (is_none answer.0) (same_key (key_of a) key) (next_id key s.0))
  unfolding register_artifact
  register_artifact-Effect key a now (index, db) =
      let k = key_of a in
      let same = next_id-with_key k k index in
      let index' = with_key k (lookup_key k index) index in
      let step =
        counted-database exec k (next_id k index') index'
          (exec (row_of a (next_id k index') now) db) in
      let replied = step.0 ∙ ap (λ m. is_none (exec (row_of a m now) db).0) same in
      (
        replied,
        step.1 ∙ ap (λ m. (exec (row_of a m now) db).1) same,
        register_artifact-next_id exec key a now (index, db)
            ∙ ap (λ b. left b (same_key k key) (next_id key index)) replied,
      )

-- n, n + 1, ... , n + k - 1
pub count_up : ℕ → ℕ → List ℕ
count_up n zero = []
count_up n (suc k) = n ∷ count_up (n + 1) k
