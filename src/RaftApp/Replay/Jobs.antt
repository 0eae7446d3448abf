-- ===== src/RaftApp/Replay/Jobs.antt =====
-- Invariants of all stored jobs over a log, and the two that the lifecycle gives.
use mathlib.Core.List.{Memᴰ}
use deployd.Prelude.{
  ℕ, String, ◌≡◌, sym, none, ◌⊎◌, inl, inr, List, [], ◌∷◌, All, All-imp, Distinct,
}
use deployd.Entity.Job.{DeploymentJob}
use deployd.RaftApp.Runtime.{Runtime, Entry, Meta}
use deployd.RaftApp.Lifecycle.{
  Step, IsNew, cancel, host_reports, host_completes, begin, confirm, fail, note, next, finish,
}
use deployd.RaftApp.Effect.{Effect, Loaded, IsSized, loaded, unchanged, created, advanced, by_base}
use deployd.RaftApp.Validity.{IsValid, IsNew-IsValid, Step-IsValid}
use deployd.RaftApp.Order.{Tracks, Step-Tracks}
use deployd.RaftApp.Update.{on_update}
use deployd.RaftApp.Update.Refines.{on_update-Effect}
use deployd.RaftApp.Replay.{replay, StoredAll, Readable, readable, IsPosted, KeepsJobs}

All_mem :
    (P : DeploymentJob → Type 0) {j : DeploymentJob} {js : List DeploymentJob}
    → Memᴰ j js
    → All P js
    → P j
All_mem P (Memᴰ.head e) h = rw e h.0
All_mem P (Memᴰ.tail m) h = All_mem P m h.1

-- A property of jobs that a new job has, that every step keeps, and that does not depend on the id.
pub record IsLasting (P : DeploymentJob → Type 0) : Type 0 where
  pub at_first : (j : DeploymentJob) → IsNew j → P j
  pub at_step : (j k : DeploymentJob) → Step j k → P j → P k
  pub at_name : (j : DeploymentJob) (i : String) → P j → P (record j { id = i })

module _ (R : Runtime) (laws : KeepsJobs R) (P : DeploymentJob → Type 0)
    (lasting : IsLasting P) where
  Readable-all : {s : R.State} {j : DeploymentJob} → StoredAll R P s → Readable R s j → P j
  Readable-all all (readable ns service id js e m) = All_mem P m (all ns service id js e)

  Loaded-all : {s : R.State} {j : DeploymentJob} → StoredAll R P s → Loaded R s j → P j
  Loaded-all {j} all (loaded ns service id rest e) = (all ns service id (j ∷ rest) e).0

  post-StoredAll :
      (k : DeploymentJob) (meta : Meta) (s : R.State)
      → P k
      → StoredAll R P s
      → StoredAll R P (R.post_job k meta s).1
  post-StoredAll k meta s p all ns service id js e =
      All-imp keep js (laws.posts k meta s ns service id js e)
    where
      keep : (j : DeploymentJob) → IsPosted k j ⊎ Readable R s j → P j
      keep j (inl (i, e)) = rw e (lasting.at_name k i p)
      keep j (inr r) = Readable-all all r

  Effect-StoredAll : {s t : R.State} → Effect R s t → StoredAll R P s → StoredAll R P t
  Effect-StoredAll (unchanged e) all = rw e all
  Effect-StoredAll {s} (created j meta n e) all =
      rw e (post-StoredAll j meta s (lasting.at_first j n) all)
  Effect-StoredAll {s} (advanced j k l st e) all =
      rw e (post-StoredAll k none s (lasting.at_step j k st (Loaded-all all l)) all)
  Effect-StoredAll {s} (by_base x e) all = rw e (λ ns service id js g.
      All-imp (λ j r. Readable-all all r) js (laws.bases x s ns service id js g))

  pub replay-StoredAll :
      ((s : R.State) → IsSized R s)
      → (log : List (ℕ × Entry R.Bytes)) (s : R.State) → StoredAll R P s
      → StoredAll R P (replay R log s)
  unfolding replay
  replay-StoredAll sized [] s all = all
  replay-StoredAll sized ((draw, e) ∷ log) s all =
      replay-StoredAll sized log (on_update R draw e s).1
        (Effect-StoredAll (on_update-Effect R s draw e (sized s)) all)

pub IsValid-lasting : IsLasting IsValid
IsValid-lasting = record {
  at_first = λ j n. IsNew-IsValid n;
  at_step = λ j k st v. Step-IsValid st v;
  at_name = λ j i v. record {
    table_of = v.table_of;
    holds = v.holds;
    configuration_of = v.configuration_of;
    configures = v.configures;
    has_hosts = v.has_hosts;
    covered = v.covered;
    bounded = v.bounded;
    placed = v.placed;
  };
}

-- The host order of a job never changes.
pub Step-host_order :
    {j k : DeploymentJob} → Step j k → k.deployment.host_order ≡ j.deployment.host_order
Step-host_order (cancel p q e) = rw e
Step-host_order (host_reports l h i c m a e) = rw e
Step-host_order (host_completes l h i c m a e) = rw e
Step-host_order (begin agent c e) = rw e
Step-host_order (confirm d e) = rw e
Step-host_order (fail n h l i at f e) = rw e
Step-host_order (note n h l i at f g e) = rw e
Step-host_order (next n h l i at f more e) = rw e
Step-host_order (finish n h l i at f last e) = rw e

abbrev pub IsTracked : DeploymentJob → Type 0
IsTracked j = Distinct j.deployment.host_order → Tracks j

IsNew-Tracks : {j : DeploymentJob} → IsNew j → IsTracked j
IsNew-Tracks v d = record {
  distinct = d;
  table_of = v.table_of;
  holds = v.holds;
  exact = v.in_order d;
  done = λ e. cc (v.queued);
  all_done = λ e. cc (v.queued);
}

pub IsTracked-lasting : IsLasting IsTracked
IsTracked-lasting = record {
  at_first = λ j n. IsNew-Tracks n;
  at_step = λ j k st v d. Step-Tracks st (v (rw (sym (Step-host_order st)) d));
  at_name = λ j i v d. named (v d) i;
}
  where
    named : {j : DeploymentJob} → Tracks j → (i : String) → Tracks (record j { id = i })
    named v i = record {
      distinct = v.distinct;
      table_of = v.table_of;
      holds = v.holds;
      exact = v.exact;
      done = v.done;
      all_done = v.all_done;
    }
