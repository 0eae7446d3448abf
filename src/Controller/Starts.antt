-- ===== src/Controller/Starts.antt =====
-- The pool keeps a job, so its configuration starts once.
use deployd.Prelude.{
  ℕ, ◌+◌, ◌≤◌, String, ◌≡◌, refl, Bool, true, false, Option, none, some, ◌⊎◌, inl, inr, List, [],
  ◌∷◌, ◌++◌, ◌==◌, if◌then◌else◌, arith, Bool-cases, eq_iff,
}
use deployd.Prelude.GoMap.{lookup, set, index, lookup-set}
use deployd.Entity.Job.{DeploymentJob}
use deployd.RaftApp.Messages.{
  Event, deployment_job_created, deployment_job_cancelled, all_host_configured, service_restarted,
  restart_confirmed,
}
use deployd.Controller.{
  Pool, PoolJob, Effect, start_configure_host, get_key, is_part, insert_job, by_pool, cancel_found,
  on_event, consume, configure_host, cancel_deployment, restart_service,
  confirm_deployment_as_user_if_enabled, continue_restart_service_as_user_if_enabled,
  confirm_restart_service, start_restart_host_service,
}

-- How often a list of effects starts to configure the job with the key.
abbrev count_one : String → Effect → ℕ
count_one key (start_configure_host job) = if get_key job == key then 1 else 0
count_one key (start_restart_host_service job) = 0
count_one key (confirm_restart_service r) = 0

pub starts : String → List Effect → ℕ
starts key [] = 0
starts key (e ∷ es) = count_one key e + starts key es

starts-append :
    (key : String) (a b : List Effect) → starts key (a ++ b) ≡ starts key a + starts key b
unfolding starts
starts-append key [] b = omega arith
starts-append key (e ∷ a) b = rw (starts-append key a b) (omega arith)

abbrev IsKnown : String → Pool → Type 0
IsKnown key pool = (entry : PoolJob) × (lookup key pool ≡ some entry)

module _ (key host : String) (now : ℕ) where
  -- One event: a known job stays known and is not started; a start makes the job known.
  abbrev Once : Pool → List Effect × Pool → Type 0
  Once pool r =
      (IsKnown key pool → (starts key r.0 ≡ 0) × IsKnown key r.1)
      × ((starts key r.0 ≡ 0) ⊎ ((starts key r.0 ≡ 1) × IsKnown key r.1))

  quiet : (pool : Pool) (out : List Effect) → starts key out ≡ 0 → Once pool (out, pool)
  quiet pool out h = ((λ k. (h, k)), inl h)

  IsKnown-set :
      (k : String) (entry : PoolJob) (pool : Pool)
      → IsKnown key pool
      → IsKnown key (set k entry pool)
  IsKnown-set k entry pool (x, h) = elim (Bool-cases (k == key)) [
    | inl e ↦ (entry, rw (lookup-set k key entry pool, e) refl)
    | inr e ↦ (x, rw (lookup-set k key entry pool, e) h)
  ]

  created-Once : (job : DeploymentJob) (pool : Pool) → Once pool (configure_host host now job pool)
  unfolding configure_host starts
  created-Once job pool = go (lookup (get_key job) pool) refl
    where
      missing :
          lookup (get_key job) pool ≡ none → (b : Bool) → Once pool (insert_job host now job b pool)
      missing e false = quiet pool [] refl
      missing e true = elim (Bool-cases (get_key job == key)) [
        | inl same ↦
            let k : get_key job ≡ key = (eq_iff (get_key job) key).0 same in
            (
              (λ known. absurd (clash (rw k at e) known)),
              inr (
                rw same refl,
                (
                  record { job = job; cancelled = false },
                  rw (lookup-set (get_key job) key _ pool, same) refl,
                ),
              ),
            )
        | inr other ↦ (
          (λ known. (rw other refl, IsKnown-set (get_key job) _ pool known)),
          inl (rw other refl),
        )
      ]
        where
          clash : lookup key pool ≡ none → ¬ IsKnown key pool
          clash h (x, g) = cc

      go :
          (o : Option PoolJob)
          → lookup (get_key job) pool ≡ o
          → Once pool (by_pool host now job o pool)
      go (some x) e = quiet pool [] refl
      go none e = missing e (is_part (index host job.configuration.status))

  cancelled-Once :
      (job : DeploymentJob) (pool : Pool) → Once pool (cancel_deployment host now job pool)
  unfolding cancel_deployment starts
  cancelled-Once job pool = go (lookup (get_key job) pool)
    where
      go : (o : Option PoolJob) → Once pool ([], cancel_found host now (get_key job) o pool)
      go none = quiet pool [] refl
      go (some x) = ((λ known. (refl, IsKnown-set (get_key job) _ pool known)), inl refl)

  on_event-Once : (e : Event) (pool : Pool) → Once pool (on_event host now e pool)
  unfolding on_event starts restart_service confirm_deployment_as_user_if_enabled
      continue_restart_service_as_user_if_enabled
  on_event-Once (deployment_job_created value) pool = created-Once value.job pool
  on_event-Once (deployment_job_cancelled job) pool = cancelled-Once job pool
  on_event-Once (restart_confirmed value) pool = quiet pool _ (ground arith)
  on_event-Once (all_host_configured value) pool = quiet pool _ (ground arith)
  on_event-Once (service_restarted value) pool = quiet pool _ (ground arith)
  on_event-Once e pool = quiet pool [] refl

  known-consume :
      (events : List Event) (pool : Pool)
      → IsKnown key pool
      → starts key (consume host now events pool) ≡ 0
  unfolding consume starts
  known-consume [] pool k = refl
  known-consume (e ∷ es) pool k =
      let (h, k') = (on_event-Once e pool).0 k in
      let rest = known-consume es (on_event host now e pool).1 k' in rw starts-append (omega arith)

  -- Whatever the events and the pool before, a host starts to configure the job of a key
  -- at most once.
  pub consume-starts :
      (events : List Event) (pool : Pool) → starts key (consume host now events pool) ≤ 1
  unfolding consume starts
  consume-starts [] pool = omega arith
  consume-starts (e ∷ es) pool = elim (on_event-Once e pool).1 [
    | inl h ↦
        let rest = consume-starts es (on_event host now e pool).1 in rw starts-append (omega arith)
    | inr (h, k) ↦
        let rest = known-consume es (on_event host now e pool).1 k in rw starts-append (omega arith)
  ]
