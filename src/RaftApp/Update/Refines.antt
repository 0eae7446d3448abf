-- ===== src/RaftApp/Update/Refines.antt =====
-- Every entry of the raft log keeps to the lifecycle.
use deployd.Prelude.{ℕ, refl, Bool, true, false, ◌==◌, if◌then◌else◌}
use deployd.RaftApp.Runtime.{Runtime, Entry, Handler, parsed}
use deployd.RaftApp.Effect.{Effect, IsSized, by_base}
use deployd.RaftApp.Effect.Rules.{Effect-continue}
use deployd.RaftApp.Submit.Refines.{user_submit_job-Effect}
use deployd.RaftApp.Cancel.Refines.{cancel_job-Effect}
use deployd.RaftApp.Configure.Refines.{host_configuration_update-Effect}
use deployd.RaftApp.Restart.Refines.{restart-Effect}
use deployd.RaftApp.Progress.Refines.{host_restart_service_update-Effect}
use deployd.RaftApp.Update.{
  command_user_submit_job, command_user_cancel_job, command_host_configuration_update,
  command_restart_confirmation, command_host_restart_service_update, on_update,
}

module _ (R : Runtime) (s : R.State) where
  -- A test chooses one of two handlers.
  Effect-if :
      (b : Bool) (f g : Handler R)
      → Effect R s (f s).1
      → Effect R s (g s).1
      → Effect R s ((if b then f else g) s).1
  Effect-if true f g x y = x
  Effect-if false f g x y = y

  -- Where the host orders of the stored jobs fit an `int`: whatever the entry, and also where its handler
  -- fails or panics, the state that it leaves is the old one, or that of one post, of a new job or of
  -- the first job of an answer after a step of the lifecycle, or that of the base application.
  pub on_update-Effect :
      (draw : ℕ) (e : Entry R.Bytes) → IsSized R s → Effect R s (on_update R draw e s).1
  unfolding on_update
  on_update-Effect draw e sized =
      Effect-if (e.command == command_user_submit_job) _ _
        (Effect-continue (parsed (R.parse_submit e.value)) _
          λ p _. user_submit_job-Effect R draw p s)
        (Effect-if (e.command == command_user_cancel_job) _ _
          (Effect-continue (parsed (R.parse_cancel e.value)) _ λ p _. cancel_job-Effect R p s)
          (Effect-if (e.command == command_host_configuration_update) _ _
            (Effect-continue (parsed (R.parse_configuration e.value)) _
              λ p _. host_configuration_update-Effect R p s)
            (Effect-if (e.command == command_restart_confirmation) _ _
              (Effect-continue (parsed (R.parse_confirmation e.value)) _
                λ p _. restart-Effect R p s)
              (Effect-if (e.command == command_host_restart_service_update) _ _
                (Effect-continue (parsed (R.parse_restart e.value)) _
                  λ p _. host_restart_service_update-Effect R p s sized)
                (by_base e refl)))))
