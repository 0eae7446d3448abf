-- ===== src/RaftApp/Update.antt =====
-- OnUpdate of app.go: the dispatch on the command.
pub mod Refines
pub mod Safety
use deployd.Prelude.{ℕ, String, lift, ◌==◌, if◌then◌else◌, ◌>>=◌}
use deployd.RaftApp.Runtime.{Runtime, Entry, Handler, handed_on, parsed}
use deployd.RaftApp.Submit.{user_submit_job}
use deployd.RaftApp.Cancel.{cancel_job}
use deployd.RaftApp.Configure.{host_configuration_update}
use deployd.RaftApp.Restart.{restart}
use deployd.RaftApp.Progress.{host_restart_service_update}

abbrev pub command_user_submit_job : String
command_user_submit_job = "deployd.user.submit-job"

abbrev pub command_user_cancel_job : String
command_user_cancel_job = "deployd.user.cancel-job"

abbrev pub command_host_configuration_update : String
command_host_configuration_update = "deployd.host.configuration-update"

abbrev pub command_restart_confirmation : String
command_restart_confirmation = "deployd.restart-confirmation"

abbrev pub command_host_restart_service_update : String
command_host_restart_service_update = "deployd.host.restart-service-update"

module _ (R : Runtime) where
  base_update : Entry R.Bytes → Handler R
  base_update e s = let (r, s') = R.base_update e s in (handed_on r, s')

  -- `draw` is the random number that this replica draws while it applies the entry.
  unfoldable pub on_update : ℕ → Entry R.Bytes → Handler R
  unfolding base_update
  on_update draw e =
      if e.command == command_user_submit_job
      then (do payload ← lift (parsed (R.parse_submit e.value)); user_submit_job R draw payload)
      else if e.command == command_user_cancel_job
      then (do payload ← lift (parsed (R.parse_cancel e.value)); cancel_job R payload)
      else if e.command == command_host_configuration_update
      then (do
        payload ← lift (parsed (R.parse_configuration e.value))
        host_configuration_update R payload)
      else if e.command == command_restart_confirmation
      then (do payload ← lift (parsed (R.parse_confirmation e.value)); restart R payload)
      else if e.command == command_host_restart_service_update
      then (do
        payload ← lift (parsed (R.parse_restart e.value))
        host_restart_service_update R payload)
      else base_update e
