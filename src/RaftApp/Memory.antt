-- ===== src/RaftApp/Memory.antt =====
-- A runtime in memory: the job table is a list, newest first, and JSON text is the value itself. It
-- shows that what is assumed of a runtime can be met, and runs the handlers.
pub mod Laws
use deployd.Prelude.{
  ℕ, zero, suc, String, ◌<>◌, Bool, true, false, ◌&&◌, ◌||◌, ◌⊎◌, inl, inr, Option, none, some,
  List, [], ◌∷◌, length, leb, ◌==◌, if◌then◌else◌,
}
use deployd.Prelude.Int.{max_int}
use deployd.Entity.Job.{DeploymentJob, SubmitDeploymentJobRequest}
use deployd.RaftApp.Messages.{
  CancelJobRequest, ConfigurationUpdateRequest, ConfigurationUpdateResponse, RestartConfirmation,
  HostRestartServiceUpdateResponse, HostRestartConfirmationResponse,
  HostRestartServiceUpdateRequest, SubmitJobResponse,
}
use deployd.RaftApp.Runtime.{Runtime, Fault, Entry, OnAfterApply, Meta}

pub data Json : Type 0 where
  submit : SubmitDeploymentJobRequest → Json
  cancel : CancelJobRequest → Json
  configuration : ConfigurationUpdateRequest → Json
  confirmation : RestartConfirmation → Json
  progress : HostRestartServiceUpdateRequest → Json
  submitted : SubmitJobResponse → Json
  job : DeploymentJob → Json
  configured : ConfigurationUpdateResponse → Json
  confirmed : HostRestartConfirmationResponse → Json
  progressed : HostRestartServiceUpdateResponse → Json

-- A job answers a query by namespace, service and, if one is given, id.
abbrev is_match : String → String → String → DeploymentJob → Bool
is_match ns service id j =
    j.ns == ns
    && (j.request.service.id == service
        && ((id == "" || j.id == id) && leb (length j.deployment.host_order) max_int))

unfoldable pub select : (DeploymentJob → Bool) → List DeploymentJob → List DeploymentJob
select p [] = []
select p (j ∷ js) = let rest = select p js in if p j then j ∷ rest else rest

abbrev find_jobs : List DeploymentJob → String → List String → String → Fault ⊎ List DeploymentJob
find_jobs js ns (service ∷ []) id = inr (select (is_match ns service id) js)
find_jobs js ns _ id = inl "one reference expected"

-- The next id: one stroke more than there are jobs.
unfoldable pub tally : List DeploymentJob → String
tally [] = "1"
tally (j ∷ js) = "1" <> tally js

abbrev same_key : DeploymentJob → DeploymentJob → Bool
same_key k j = j.ns == k.ns && (j.request.service.id == k.request.service.id && j.id == k.id)

unfoldable pub replace : DeploymentJob → List DeploymentJob → List DeploymentJob
replace k [] = k ∷ []
replace k (j ∷ js) = let rest = replace k js in if same_key k j then k ∷ js else j ∷ rest

unfoldable pub put_job :
    DeploymentJob → List DeploymentJob → (Fault ⊎ DeploymentJob) × List DeploymentJob
unfolding replace tally
put_job k js =
    if k.id == ""
    then (let named = record k { id = tally js } in (inr named, named ∷ js))
    else (inr k, replace k js)

abbrev parse_submit : Json → Fault ⊎ SubmitDeploymentJobRequest
parse_submit (submit r) = inr r
parse_submit _ = inl "not a submission"

abbrev parse_cancel : Json → Fault ⊎ CancelJobRequest
parse_cancel (cancel r) = inr r
parse_cancel _ = inl "not a cancellation"

abbrev parse_configuration : Json → Fault ⊎ ConfigurationUpdateRequest
parse_configuration (configuration r) = inr r
parse_configuration _ = inl "not a configuration update"

abbrev parse_confirmation : Json → Fault ⊎ RestartConfirmation
parse_confirmation (confirmation r) = inr r
parse_confirmation _ = inl "not a confirmation"

abbrev parse_progress : Json → Fault ⊎ HostRestartServiceUpdateRequest
parse_progress (progress r) = inr r
parse_progress _ = inl "not a restart update"

abbrev pub memory : Runtime
memory = record {
  State = List DeploymentJob;
  Bytes = Json;
  get_jobs = find_jobs;
  get_instances = λ s ns refs id. inr [];
  post_job = λ k meta s. put_job k s;
  base_update = λ e s. (inl "unsupported command", s);
  marshal_submit = λ r. inr (submitted r);
  marshal_job = λ r. inr (job r);
  marshal_configuration = λ r. inr (configured r);
  marshal_confirmation = λ r. inr (confirmed r);
  marshal_restart = λ r. inr (progressed r);
  parse_submit = parse_submit;
  parse_cancel = parse_cancel;
  parse_configuration = parse_configuration;
  parse_confirmation = parse_confirmation;
  parse_restart = parse_progress;
}
