-- ===== src/RaftApp/Effect.antt =====
-- What a command does to the store: nothing, or one post that the lifecycle allows.
pub mod Rules
use deployd.Prelude.{String, ◌≡◌, none, inr, List, [], ◌∷◌, All, ◌≤◌, length}
use deployd.Prelude.Int.{max_int}
use deployd.Entity.Job.{DeploymentJob}
use deployd.RaftApp.Runtime.{Runtime, Entry, Meta}
use deployd.RaftApp.Lifecycle.{Step, IsNew}

-- `j` is the first job of some answer of the job table.
pub data Loaded (R : Runtime) (s : R.State) (j : DeploymentJob) : Type 0 where
  loaded :
      (ns service id : String) (rest : List DeploymentJob)
      → R.get_jobs s ns (service ∷ []) id ≡ inr (j ∷ rest)
      → Loaded R s j

pub data Effect (R : Runtime) (s t : R.State) : Type 0 where
  unchanged : t ≡ s → Effect R s t
  created : (j : DeploymentJob) (meta : Meta) → IsNew j → t ≡ (R.post_job j meta s).1 → Effect R s t
  advanced :
      (j k : DeploymentJob) → Loaded R s j → Step j k → t ≡ (R.post_job k none s).1 → Effect R s t
  by_base : (e : Entry R.Bytes) → t ≡ (R.base_update e s).1 → Effect R s t

-- The length of a slice is an `int`: so long are the host orders that the table answers with.
pub record IsSized (R : Runtime) (s : R.State) : Type 0 where
  pub fits :
      (ns service id : String) (js : List DeploymentJob)
      → R.get_jobs s ns (service ∷ []) id ≡ inr js
      → All (λ j. length j.deployment.host_order ≤ max_int) js
