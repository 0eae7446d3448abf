-- ===== src/RaftApp/Memory/Laws.antt =====
-- The runtime in memory meets what is assumed of a runtime.
use mathlib.Core.List.{Memᴰ}
use Prim.Native.Nat.{◌≤◌}
use deployd.Prelude.{
  ℕ, String, ◌≡◌, refl, sym, Bool, true, ◌&&◌, ◌||◌, ◌⊎◌, inl, inr, List, [], ◌∷◌, All, Bool-cases,
  leb, arith, ◌==◌,
}
use deployd.Prelude.Int.{max_int}
use deployd.Entity.Job.{DeploymentJob}
use deployd.RaftApp.Effect.{IsSized}
use deployd.RaftApp.Replay.{Readable, readable, IsPosted, KeepsJobs}
use deployd.RaftApp.Memory.{memory, select, put_job, replace, tally, is_match, same_key}

-- What is selected stood in the list and passes the test.
All-select :
    (P Q : DeploymentJob → Type 0) (p : DeploymentJob → Bool) (js : List DeploymentJob)
    → ((j : DeploymentJob) → P j → p j ≡ true → Q j)
    → All P js
    → All Q (select p js)
unfolding select
All-select P Q p [] f a = tt
All-select P Q p (j ∷ js) f a = elim (Bool-cases (p j)) [
  | inl h ↦ rw h (f j a.0 h, All-select P Q p js f a.1)
  | inr h ↦ rw h (All-select P Q p js f a.1)
]

Mem-select :
    (p : DeploymentJob → Bool) (j : DeploymentJob) (js : List DeploymentJob)
    → Memᴰ j js
    → p j ≡ true
    → Memᴰ j (select p js)
unfolding select
Mem-select p j [] m h = elim m [ ]
Mem-select p j (k ∷ js) (Memᴰ.head e) h = let t : p k ≡ true = rw (sym e) h in rw t (Memᴰ.head e)
Mem-select p j (k ∷ js) (Memᴰ.tail m) h = elim (Bool-cases (p k)) [
  | inl t ↦ rw t (Memᴰ.tail (Mem-select p j js m h))
  | inr f ↦ rw f (Mem-select p j js m h)
]

All-of_mem :
    (P : DeploymentJob → Type 0) (js : List DeploymentJob)
    → ((j : DeploymentJob) → Memᴰ j js → P j)
    → All P js
All-of_mem P [] f = tt
All-of_mem P (j ∷ js) f = (f j (Memᴰ.head refl), All-of_mem P js (λ k m. f k (Memᴰ.tail m)))

All-replace :
    (P : DeploymentJob → Type 0) (k : DeploymentJob) (js : List DeploymentJob)
    → P k
    → All P js
    → All P (replace k js)
unfolding replace
All-replace P k [] p a = (p, tt)
All-replace P k (j ∷ js) p a = elim (Bool-cases (same_key k j)) [
  | inl h ↦ rw h (p, a.1)
  | inr h ↦ rw h (a.0, All-replace P k js p a.1)
]

-- A job that matches is short enough.
matching_fits : (a b c d : Bool) (n : ℕ) → (a && (b && (c && leb n max_int))) ≡ true → n ≤ max_int
matching_fits a b c d n h = ground arith

pub memory-IsSized : (s : List DeploymentJob) → IsSized memory s
memory-IsSized s = record {
  fits = λ ns service id js e.
      let same : select (is_match ns service id) s ≡ js = cc in
      rw (← same) (
        All-select (λ _. Unit) _ (is_match ns service id) s
          (λ j _ h.
            matching_fits (j.ns == ns) (j.request.service.id == service) (id == "" || j.id == id)
              true _ h)
          (All-of_mem _ s (λ j m. tt)));
}

-- A job is the one that was put, under some id, or was there.
put_job-All :
    (k : DeploymentJob) (s : List DeploymentJob)
    → All (λ j. IsPosted k j ⊎ Memᴰ j s) (put_job k s).1
unfolding put_job
put_job-All k s = elim (Bool-cases (k.id == "")) [
  | inl new ↦ rw new (inl (tally s, refl), All-of_mem _ s (λ j m. inr m))
  | inr old ↦ rw old (All-replace _ k s (inl (k.id, refl)) (All-of_mem _ s (λ j m. inr m)))
]

put_job-returns :
    (k j : DeploymentJob) (s : List DeploymentJob) → (put_job k s).0 ≡ inr j → IsPosted k j
unfolding put_job
put_job-returns k j s h = elim (Bool-cases (k.id == "")) [
  | inl new ↦ (tally s, cc (rw new at h))
  | inr old ↦ (k.id, cc (rw old at h))
]

pub memory-KeepsJobs : KeepsJobs memory
memory-KeepsJobs = record {
  posts = λ k meta s ns service id js e.
      let same : select (is_match ns service id) (put_job k s).1 ≡ js = cc in
      rw (← same) (
        All-select _ _ (is_match ns service id) (put_job k s).1 (kept k s ns service id)
          (put_job-All k s));
  returns = λ k j meta s h. put_job-returns k j s h;
  bases = λ e s ns service id js h.
      let same : select (is_match ns service id) s ≡ js = cc in
      rw (← same) (
        All-select _ _ (is_match ns service id) s (reads s ns service id)
          (All-of_mem _ s (λ j m. m)));
}
  where
    reads :
        (s : List DeploymentJob) (ns service id : String) (j : DeploymentJob)
        → Memᴰ j s
        → is_match ns service id j ≡ true
        → Readable memory s j
    reads s ns service id j m t =
        readable ns service id (select (is_match ns service id) s) refl
          (Mem-select (is_match ns service id) j s m t)

    kept :
        (k : DeploymentJob) (s : List DeploymentJob) (ns service id : String) (j : DeploymentJob)
        → IsPosted k j ⊎ Memᴰ j s
        → is_match ns service id j ≡ true
        → IsPosted k j ⊎ Readable memory s j
    kept k s ns service id j (inl p) t = inl p
    kept k s ns service id j (inr m) t = inr (reads s ns service id j m t)
