-- ===== src/RaftApp/Progress/Refines.antt =====
-- The effect of hostRestartServiceUpdate.
use Prim.Native.Nat.{◌≤◌, ◌<◌, ◌+◌}
use deployd.Prelude.{
  ℕ, String, ◌≡◌, refl, ap, ◌∙◌, true, inl, inr, Option, none, some, List, [], ◌∷◌, ok, arith,
  Bool-cases, length, get_elem?, lt_of_get_elem?, ltb, ltb→lt, ◌==◌, eq_iff,
}
use deployd.Prelude.GoMap.{GoMap, nil, table, set, keys_of, insert}
use deployd.Prelude.Int.{max_int, to_int_small, uint_incr_small}
use deployd.Entity.Job.{
  DeploymentJob, DeploymentJobStatus, HostDeploymentStatus, HostDeploymentStatusInfo, is_deploying,
  host_failed, host_succeeded,
}
use deployd.RaftApp.Messages.{HostRestartServiceUpdateRequest}
use deployd.RaftApp.Runtime.{
  Runtime, Error, handed_on, exactly_one, deref, elem_or_panic, invalid_state, not_on_deployment,
}
use deployd.RaftApp.Lifecycle.{AtHost, with_table, with_table_at, fail, note, next, finish}
use deployd.RaftApp.Effect.{Effect, Loaded, IsSized, advanced}
use deployd.RaftApp.Effect.Rules.{
  Effect-continue, Effect-guard, continue-state, Loaded-exactly_one, loaded_fits,
}
use deployd.RaftApp.Progress.{
  with_deployment_status, fail_job, note_status, finish_deployment, continue_deployment,
  by_reported_status, host_restart_service_update,
}

pub is_failed :
    (st : HostDeploymentStatus) → host_failed st ≡ true → st ≡ HostDeploymentStatus.failed
is_failed HostDeploymentStatus.failed h = refl
is_failed _ h = cc

is_success :
    (st : HostDeploymentStatus) → host_succeeded st ≡ true → st ≡ HostDeploymentStatus.success
is_success HostDeploymentStatus.success h = refl
is_success _ h = cc

pub is_deploying_lem :
    (st : DeploymentJobStatus) → is_deploying st ≡ true → st ≡ DeploymentJobStatus.deploying
is_deploying_lem DeploymentJobStatus.deploying h = refl
is_deploying_lem _ h = cc

elem_or_panic-ok : {A : Type 0} (o : Option A) (a : A) → elem_or_panic o ≡ ok a → o ≡ some a
elem_or_panic-ok none a h = cc
elem_or_panic-ok (some b) a h = cc

pub deref-ok : {A : Type 0} (o : Option A) (a : A) → deref o ≡ ok a → o ≡ some a
deref-ok none a h = cc
deref-ok (some b) a h = cc

abbrev pub reported : HostRestartServiceUpdateRequest → HostDeploymentStatusInfo
reported request = record { status = request.status; error_message = request.error_message }

module _ (R : Runtime) (request : HostRestartServiceUpdateRequest) (s : R.State) where
  -- The four ends post their job and reply.
  fail_job-state :
      (k : DeploymentJob)
      → (fail_job R request k s).1
        ≡ (R.post_job (record k { status = DeploymentJobStatus.failed }) none s).1
  unfolding fail_job
  fail_job-state k =
      continue-state
        (handed_on (R.post_job (record k { status = DeploymentJobStatus.failed }) none s).0) _ _
        λ j. continue-state (handed_on (R.marshal_restart _)) _ _ λ b. refl

  note_status-state : (k : DeploymentJob) → (note_status R request k s).1 ≡ (R.post_job k none s).1
  unfolding note_status
  note_status-state k =
      continue-state (handed_on (R.post_job k none s).0) _ _
        λ j. continue-state (handed_on (R.marshal_restart _)) _ _ λ b. refl

  pub finish_deployment-state :
      (k : DeploymentJob)
      → (finish_deployment R request k s).1
        ≡ (R.post_job (record k { status = DeploymentJobStatus.deployed }) none s).1
  unfolding finish_deployment
  finish_deployment-state k =
      continue-state
        (handed_on (R.post_job (record k { status = DeploymentJobStatus.deployed }) none s).0) _ _
        λ j. continue-state (handed_on (R.marshal_restart _)) _ _ λ b. refl

  pub continue_deployment-state :
      (k : DeploymentJob) → (continue_deployment R request k s).1 ≡ (R.post_job k none s).1
  unfolding continue_deployment
  continue_deployment-state k =
      continue-state (handed_on (R.post_job k none s).0) _ _
        λ j. continue-state (handed_on (R.marshal_job j)) _ _ λ b. refl

  module _ (j : DeploymentJob) (n : ℕ) (h : String) (l : List (String × HostDeploymentStatusInfo))
      (from : Loaded R s j) (at : AtHost j n h l) (fits : n < max_int) where
    abbrev written : List (String × HostDeploymentStatusInfo)
    written = set h (reported request) l

    succeeded-Effect :
        request.status ≡ HostDeploymentStatus.success
        → Effect R s (by_reported_status R request n (table written) (with_table j written) s).1
    unfolding by_reported_status
    succeeded-Effect e =
        rw
          (
            ap host_failed e,
            ap host_succeeded e,
            uint_incr_small n (omega arith),
            to_int_small (n + 1) (omega arith),
          )
          (elim (Bool-cases (ltb (n + 1) (length (keys_of written)))) [
            | inl more ↦ rw more (
                advanced j (with_table_at j written (n + 1)) from
                  (next n h l (reported request) at e (ltb→lt _ _ more) refl)
                  (continue_deployment-state _))
            | inr last ↦ rw last (
                advanced j
                  (record (with_table_at j written (n + 1)) {
                    status = DeploymentJobStatus.deployed;
                  })
                  from (finish n h l (reported request) at e (ground arith) refl)
                  (finish_deployment-state _))
          ])

    by_reported_status-Effect :
        Effect R s (by_reported_status R request n (table written) (with_table j written) s).1
    unfolding by_reported_status
    by_reported_status-Effect = elim (Bool-cases (host_failed request.status)) [
      | inl f ↦ rw f (
          advanced j (record (with_table j written) { status = DeploymentJobStatus.failed }) from
            (fail n h l (reported request) at (is_failed request.status f) refl) (fail_job-state _))
      | inr g ↦ elim (Bool-cases (host_succeeded request.status)) [
        | inl t ↦ succeeded-Effect (is_success request.status t)
        | inr u ↦
            rw (g, u)
              (advanced j (with_table j written) from
                (note n h l (reported request) at (λ e. cc) (λ e. cc) refl) (note_status-state _))
      ]
    ]

module _ (R : Runtime) where
  -- The reported host is the one in turn, and its status is written into the job's table.
  in_turn-Effect :
      (request : HostRestartServiceUpdateRequest) (s : R.State) (j : DeploymentJob) (n : ℕ)
      (h : String) (old new : GoMap HostDeploymentStatusInfo)
      → Loaded R s j
      → length j.deployment.host_order ≤ max_int
      → j.status ≡ DeploymentJobStatus.deploying
      → j.deployment.current_order ≡ some n
      → get_elem? j.deployment.host_order n ≡ some h
      → h ≡ request.host_name
      → j.deployment.status ≡ old
      → insert {E = Error} request.host_name (reported request) old ≡ ok new
      → Effect R s (by_reported_status R request n new (with_deployment_status j new) s).1
  in_turn-Effect request s j n h nil new from fits d o t e p w = cc
  in_turn-Effect request s j n h (table l) new from fits d o t e p w =
      let same : table (set request.host_name (reported request) l) ≡ new = cc in
      let at : AtHost j n request.host_name l = record {
        is_deploying = d;
        at_order = o;
        in_turn = t ∙ ap some e;
        holds = p;
      } in
      rw (← same) (
        by_reported_status-Effect R request s j n request.host_name l from at
          (omega (arith, lt_of_get_elem? j.deployment.host_order n h t)))

  pub host_restart_service_update-Effect :
      (request : HostRestartServiceUpdateRequest) (s : R.State)
      → IsSized R s
      → Effect R s (host_restart_service_update R request s).1
  unfolding host_restart_service_update
  host_restart_service_update-Effect request s sized =
      Effect-continue (handed_on (R.get_jobs s request.ns (request.service ∷ []) request.job_id)) _
        λ js e. Effect-continue (exactly_one js) _ λ j g.
          Effect-guard (is_deploying j.status) invalid_state _ λ d.
            Effect-continue (deref j.deployment.current_order) _ λ n o.
              Effect-continue (elem_or_panic (get_elem? j.deployment.host_order n)) _ λ h t.
                Effect-guard (h == request.host_name) (not_on_deployment request.host_name h) _
                  λ same.
                    Effect-continue
                      (insert request.host_name (reported request) j.deployment.status) _
                      λ new w.
                        in_turn-Effect request s j n h j.deployment.status new
                          (Loaded-exactly_one R s request.ns request.service request.job_id js j e
                            g)
                          (loaded_fits R s request.ns request.service request.job_id js j e sized g)
                          (is_deploying_lem j.status d) (deref-ok _ n o) (elem_or_panic-ok _ h t)
                          ((eq_iff h request.host_name).0 same) refl w
