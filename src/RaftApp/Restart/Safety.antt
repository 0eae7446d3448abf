-- ===== src/RaftApp/Restart/Safety.antt =====
-- restart does not panic on valid jobs, and names the host at the current place.
use Prim.Native.Nat.{◌≤◌, ◌<◌}
use deployd.Prelude.{
  ℕ, String, ◌||◌, ◌≡◌, refl, true, Option, none, some, List, [], ◌∷◌, ok, length, get_elem?,
  get_elem?_lt, arith, All,
}
use deployd.Prelude.Int.{max_int, to_int, to_int_small}
use deployd.Entity.Job.{DeploymentJob, DeploymentJobStatus, is_configured, is_deploying}
use deployd.RaftApp.Messages.{RestartConfirmation}
use deployd.RaftApp.Runtime.{Runtime, handed_on, exactly_one, deref, not_confirmable}
use deployd.RaftApp.Safe.{
  Safe, Safe-ok, Safe-handed_on, Safe-exactly_one, Safe-continue, Safe-guard, Safe-store_job,
  Safe-reply,
}
use deployd.RaftApp.Effect.{IsSized}
use deployd.RaftApp.Effect.Rules.{handed_on-ok, exactly_one-ok, loaded_fits}
use deployd.RaftApp.Validity.{IsValid, Step-IsValid}
use deployd.RaftApp.Replay.{StoredAll, KeepsJobs, IsPosted}
use deployd.RaftApp.Restart.{begin_deploying, target_host, restart}
use deployd.RaftApp.Restart.Refines.{begin_deploying-Step}
use deployd.RaftApp.Replay.Jobs.{Step-host_order, IsValid-lasting}

-- A place in the order, as an `int`, names its host.
pub target_host_lem :
    (n : ℕ) (hosts : List String)
    → n < length hosts
    → length hosts ≤ max_int
    → (h : String) × (get_elem? hosts n ≡ some h) × (target_host (to_int n) hosts ≡ ok h)
unfolding target_host
target_host_lem n hosts lt fits =
    let (h, at) = get_elem?_lt hosts n lt in
    (h, at, rw (to_int_small n (omega arith)) (ground arith))

begin_deploying-deploying :
    (st : DeploymentJobStatus) (agent : String) (j : DeploymentJob)
    → j.status ≡ st
    → (is_configured st || is_deploying st) ≡ true
    → (begin_deploying agent j).status ≡ DeploymentJobStatus.deploying
unfolding begin_deploying
begin_deploying-deploying DeploymentJobStatus.configured agent j e h = rw e refl
begin_deploying-deploying DeploymentJobStatus.deploying agent j e h = simp e refl
begin_deploying-deploying _ agent j e h = cc

-- After the post: the place is there, and names a host.
abbrev NamesTarget : DeploymentJob → Type 0
NamesTarget k =
    (n : ℕ) × (h : String) × (k.deployment.current_order ≡ some n)
    × (get_elem? k.deployment.host_order n ≡ some h)
    × (target_host (to_int n) k.deployment.host_order ≡ ok h)

valid-NamesTarget :
    (k : DeploymentJob)
    → IsValid k
    → k.status ≡ DeploymentJobStatus.deploying
    → length k.deployment.host_order ≤ max_int
    → NamesTarget k
valid-NamesTarget k v d fits =
    let (n, at, lt) = v.placed d in
    let (h, e, t) = target_host_lem n k.deployment.host_order (omega (arith, v.bounded)) fits in
    (n, h, at, e, t)

pub Safe-deref : {A : Type 0} (o : Option A) (a : A) → o ≡ some a → Safe (deref o)
Safe-deref o a e = rw e (Safe-ok a)

Safe-target :
    (k : DeploymentJob) (n order : ℕ) (h : String)
    → k.deployment.current_order ≡ some n
    → deref k.deployment.current_order ≡ ok order
    → target_host (to_int n) k.deployment.host_order ≡ ok h
    → Safe (target_host (to_int order) k.deployment.host_order)
Safe-target k n order h at o t =
    let same : n ≡ order = cc (rw at at o) in rw (← same, t) (Safe-ok h)

module _ (R : Runtime) (laws : KeepsJobs R) where
  pub restart-Safe :
      (request : RestartConfirmation) (s : R.State)
      → StoredAll R IsValid s
      → IsSized R s
      → Safe (restart R request s).0
  unfolding restart
  restart-Safe request s all sized =
      Safe-continue (handed_on (R.get_jobs s request.ns (request.service ∷ []) request.job_id)) _ s
        (Safe-handed_on _)
        λ js e. Safe-continue (exactly_one js) _ s (Safe-exactly_one js) λ j g.
          Safe-guard (is_configured j.status || is_deploying j.status) (not_confirmable j.status) _
            s
            λ c. Safe-store_job R (begin_deploying request.agent j) none _ s λ k t p.
              let (n, h, at, e', target) =
                named j k c (laws.returns _ k none s p)
                  (valid_one js j
                    (all request.ns request.service request.job_id js (handed_on-ok _ js e)) g)
                  (loaded_fits R s request.ns request.service request.job_id js j e sized g) in
              Safe-continue (deref k.deployment.current_order) _ t (Safe-deref _ n at) λ order o.
                Safe-continue (target_host (to_int order) k.deployment.host_order) _ t
                  (Safe-target k n order h at o target)
                  λ x _. Safe-reply R (R.marshal_confirmation _) _ t
    where
      valid_one :
          (js : List DeploymentJob) (j : DeploymentJob)
          → All IsValid js
          → exactly_one js ≡ ok j
          → IsValid j
      valid_one js j vs g = (rw (exactly_one-ok js j g) at vs).0

      named :
          (j k : DeploymentJob)
          → (is_configured j.status || is_deploying j.status) ≡ true
          → IsPosted (begin_deploying request.agent j) k
          → IsValid j
          → length j.deployment.host_order ≤ max_int
          → NamesTarget k
      named j k c (i, e) v fits =
          let st = begin_deploying-Step j.status request.agent j refl c in
          let w = Step-IsValid st v in
          let same : (begin_deploying request.agent j).deployment.host_order
              ≡ j.deployment.host_order =
            Step-host_order st in
          rw e (
            valid-NamesTarget (record (begin_deploying request.agent j) { id = i })
              (IsValid-lasting.at_name _ i w)
              (begin_deploying-deploying j.status request.agent j refl c) (rw same fits))
