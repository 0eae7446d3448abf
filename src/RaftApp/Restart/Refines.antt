-- ===== src/RaftApp/Restart/Refines.antt =====
-- The effect of restart.
use deployd.Prelude.{String, ◌≡◌, refl, true, ◌||◌, none, [], ◌∷◌}
use deployd.Prelude.Int.{to_int}
use deployd.Entity.Job.{DeploymentJob, DeploymentJobStatus, is_configured, is_deploying}
use deployd.RaftApp.Messages.{RestartConfirmation}
use deployd.RaftApp.Runtime.{Runtime, handed_on, exactly_one, deref, not_confirmable}
use deployd.RaftApp.Lifecycle.{Step, begin, confirm}
use deployd.RaftApp.Effect.{Effect, advanced}
use deployd.RaftApp.Effect.Rules.{Effect-continue, Effect-guard, continue-state, Loaded-exactly_one}
use deployd.RaftApp.Restart.{begin_deploying, target_host, restart}

pub begin_deploying-Step :
    (st : DeploymentJobStatus) (agent : String) (j : DeploymentJob)
    → j.status ≡ st
    → (is_configured st || is_deploying st) ≡ true
    → Step j (begin_deploying agent j)
unfolding begin_deploying
begin_deploying-Step DeploymentJobStatus.configured agent j e h = simp e (begin agent e refl)
begin_deploying-Step DeploymentJobStatus.deploying agent j e h = simp e (confirm e refl)
begin_deploying-Step _ agent j e h = cc

module _ (R : Runtime) where
  pub restart-Effect :
      (request : RestartConfirmation) (s : R.State) → Effect R s (restart R request s).1
  unfolding restart
  restart-Effect request s =
      Effect-continue (handed_on (R.get_jobs s request.ns (request.service ∷ []) request.job_id)) _
        λ js e. Effect-continue (exactly_one js) _ λ j g.
          Effect-guard (is_configured j.status || is_deploying j.status) (not_confirmable j.status)
            _
            λ c.
              advanced j (begin_deploying request.agent j)
                (Loaded-exactly_one R s request.ns request.service request.job_id js j e g)
                (begin_deploying-Step j.status request.agent j refl c)
                (continue-state (handed_on (R.post_job (begin_deploying request.agent j) none s).0)
                  _ _
                  λ k. continue-state (deref k.deployment.current_order) _ _ λ order.
                    continue-state (target_host (to_int order) k.deployment.host_order) _ _
                      λ target. continue-state (handed_on (R.marshal_confirmation _)) _ _ λ b. refl)
