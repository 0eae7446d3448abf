-- ===== src/RaftApp/Runtime.antt =====
-- What app.go builds on and does not implement: the content app of the common library with its two
-- tables, and JSON. All of it is a parameter, `Runtime`.
use deployd.Prelude.{
  ℕ, String, ◌⊎◌, inl, inr, Option, none, some, List, [], ◌∷◌, get_elem?, Outcome, ok, err, panic,
  index_out_of_range, nil_dereference, Action,
}
use deployd.Prelude.Int.{ℤ, pos, negsuc}
use deployd.Entity.Job.{DeploymentJob, DeploymentJobStatus, SubmitDeploymentJobRequest}
use deployd.Entity.Instance.{ServiceInstanceHost}
use deployd.RaftApp.Messages.{
  CancelJobRequest, ConfigurationUpdateRequest, ConfigurationUpdateResponse, RestartConfirmation,
  HostRestartServiceUpdateResponse, HostRestartConfirmationResponse,
  HostRestartServiceUpdateRequest, SubmitJobResponse, Event,
}

-- An error of the libraries, by its text.
abbrev pub Fault : Type 0
Fault = String

-- The errors that app.go makes, one for each place, and those that it hands on.
pub data Error : Type 0 where
  external bad_json : Fault → Error
  no_target_host already_finished job_not_found invalid_job invalid_state : Error
  duplicate_replica_id : ℕ → Error
  invalid_host : String → Error
  not_confirmable : DeploymentJobStatus → Error
  not_on_deployment : String → String → Error

-- map[string]any with texts, as the source passes it: `none` is nil.
abbrev pub Meta : Type 0
Meta = Option (List (String × String))

-- raft.Result, and the closure that runs after the commit: its broadcasts, then its result.
pub record OnAfterApply (Bytes : Type 0) : Type 0 where
  pub broadcasts : List Event
  pub value : ℕ
  pub payload : Bytes

pub record Entry (Bytes : Type 0) : Type 0 where
  pub command : String
  pub value : Bytes

pub record Runtime : Type 1 where
  pub State : Type 0
  pub Bytes : Type 0
  -- jobUsecase and serviceHost: Get by namespace, references and id
  pub get_jobs : State → String → List String → String → Fault ⊎ List DeploymentJob
  pub get_instances : State → String → List String → String → Fault ⊎ List ServiceInstanceHost
  pub post_job : DeploymentJob → Meta → State → (Fault ⊎ DeploymentJob) × State
  -- ContentApp.OnUpdate
  pub base_update : Entry Bytes → State → (Fault ⊎ OnAfterApply Bytes) × State
  pub marshal_submit : SubmitJobResponse → Fault ⊎ Bytes
  pub marshal_job : DeploymentJob → Fault ⊎ Bytes
  pub marshal_configuration : ConfigurationUpdateResponse → Fault ⊎ Bytes
  pub marshal_confirmation : HostRestartConfirmationResponse → Fault ⊎ Bytes
  pub marshal_restart : HostRestartServiceUpdateResponse → Fault ⊎ Bytes
  pub parse_submit : Bytes → Fault ⊎ SubmitDeploymentJobRequest
  pub parse_cancel : Bytes → Fault ⊎ CancelJobRequest
  pub parse_configuration : Bytes → Fault ⊎ ConfigurationUpdateRequest
  pub parse_confirmation : Bytes → Fault ⊎ RestartConfirmation
  pub parse_restart : Bytes → Fault ⊎ HostRestartServiceUpdateRequest

-- `if err != nil { return nil, err }`
abbrev pub handed_on : {A : Type 0} → Fault ⊎ A → Outcome Error A
handed_on (inl e) = err (external e)
handed_on (inr a) = ok a

-- parseAs, whose error OnUpdate wraps
abbrev pub parsed : {A : Type 0} → Fault ⊎ A → Outcome Error A
parsed (inl e) = err (bad_json e)
parsed (inr a) = ok a

-- `*p`
abbrev pub deref : {A : Type 0} → Option A → Outcome Error A
deref none = panic nil_dereference
deref (some a) = ok a

abbrev pub elem_or_panic : {A : Type 0} → Option A → Outcome Error A
elem_or_panic none = panic index_out_of_range
elem_or_panic (some a) = ok a

-- `xs[i]` for an `int`
abbrev pub at_int : {A : Type 0} → List A → ℤ → Outcome Error A
at_int xs (pos i) = elem_or_panic (get_elem? xs i)
at_int xs (negsuc i) = panic index_out_of_range

-- `xs[0]`
abbrev pub first : {A : Type 0} → List A → Outcome Error A
first [] = panic index_out_of_range
first (x ∷ xs) = ok x

-- `if len(jobs) != 1 { return error }`, then `jobs[0]`
abbrev pub exactly_one : List DeploymentJob → Outcome Error DeploymentJob
exactly_one (job ∷ []) = ok job
exactly_one _ = err job_not_found

module _ (R : Runtime) where
  abbrev pub Handler : Type 0
  Handler = Action R.State Error (OnAfterApply R.Bytes)

  -- m.jobUsecase.Get(ctx, ns, []string{service}, id)
  abbrev pub load_jobs : String → String → String → Action R.State Error (List DeploymentJob)
  load_jobs ns service id s = (handed_on (R.get_jobs s ns (service ∷ []) id), s)

  -- m.jobUsecase.Post(ctx, job, meta)
  abbrev pub store_job : DeploymentJob → Meta → Action R.State Error DeploymentJob
  store_job job meta s = let (r, s') = R.post_job job meta s in (handed_on r, s')
