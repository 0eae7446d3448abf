-- ===== src/RaftApp/Replay.antt =====
-- The raft log: replicas apply its entries one after another. What holds of every new job and is kept
-- by every step of the lifecycle holds of every job that the table ever answers with.
pub mod Jobs
pub mod Deployed
use mathlib.Core.List.{Memᴰ}
use deployd.Prelude.{ℕ, String, ◌≡◌, ◌⊎◌, inr, List, [], ◌∷◌, All}
use deployd.Entity.Job.{DeploymentJob}
use deployd.RaftApp.Runtime.{Runtime, Entry, Meta}
use deployd.RaftApp.Update.{on_update}

-- Each entry with the random number that the replica draws.
unfoldable pub replay : (R : Runtime) → List (ℕ × Entry R.Bytes) → R.State → R.State
unfolding on_update
replay R [] s = s
replay R ((draw, e) ∷ log) s = replay R log (on_update R draw e s).1

-- Every job that the table answers with has the property.
abbrev pub StoredAll : (R : Runtime) → (DeploymentJob → Type 0) → R.State → Type 0
StoredAll R P s =
    (ns service id : String) (js : List DeploymentJob)
    → R.get_jobs s ns (service ∷ []) id ≡ inr js
    → All P js

pub data Readable (R : Runtime) (s : R.State) (j : DeploymentJob) : Type 0 where
  readable :
      (ns service id : String) (js : List DeploymentJob)
      → R.get_jobs s ns (service ∷ []) id ≡ inr js
      → Memᴰ j js
      → Readable R s j

-- The posted job, under the id that the table gives it.
abbrev pub IsPosted : DeploymentJob → DeploymentJob → Type 0
IsPosted k j = (i : String) × (j ≡ record k { id = i })

-- The job table answers with what was posted to it, and only app.go posts to it: the commands that
-- fall through to the base application are those of the other tables' clients.
pub record KeepsJobs (R : Runtime) : Type 0 where
  pub posts :
      (k : DeploymentJob) (meta : Meta) (s : R.State)
      → StoredAll R (λ j. IsPosted k j ⊎ Readable R s j) (R.post_job k meta s).1
  pub returns :
      (k j : DeploymentJob) (meta : Meta) (s : R.State)
      → (R.post_job k meta s).0 ≡ inr j
      → IsPosted k j
  pub bases : (e : Entry R.Bytes) (s : R.State) → StoredAll R (Readable R s) (R.base_update e s).1
