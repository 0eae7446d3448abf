-- ===== src/Main/Setup.antt =====
-- What the main program hands to the libraries at its start: the tables of the replicas, the stores over
-- them, the handlers and the routes (cmd/deployd/main.go). A context that carries a replica is the
-- replica's id.
use deployd.Prelude.{ℕ, String, Bool, false, Option, List, [], Action}
use deployd.Entity.Host.{Host}
use deployd.Controller.{Pool}
use deployd.Main.EntityType.{EntityType}

abbrev pub Fault : Type 0
Fault = String

-- content_chraft.TableConfig
pub record TableConfig : Type 0 where
  pub name : String
  pub ref_size : ℕ
  pub incremental_id : Bool
  pub incremental_id_get_limit : ℕ

abbrev pub table : String → ℕ → TableConfig
table name ref_size = record {
  name = name;
  ref_size = ref_size;
  incremental_id = false;
  incremental_id_get_limit = 0;
}

-- content_chraft.NewStorageClient
pub record Store : Type 0 where
  pub replica : String
  pub table : String

-- mycontent_base.New of an entity type
pub record Usecase : Type 0 where
  pub entity : EntityType
  pub store : Store
  pub ref_size : ℕ

-- mycontent_base.NewAttachment
pub record AttachmentUsecase : Type 0 where
  pub store : Store
  pub ref_size : ℕ
  pub hide_url : Bool
  pub path_prefix : String

-- mycontentapi.New, and mycontentapi.NewFromStorage, which makes the usecase itself.
pub record ContentHandler : Type 0 where
  pub usecase : Usecase
  pub url : String
  pub ref_params : List String

-- mycontentapi.NewAttachment
pub record AttachmentHandler : Type 0 where
  pub usecase : AttachmentUsecase
  pub url : String
  pub ref_params : List String
  pub cache_control : String

-- deployjobintegration.Dependencies: a nil pointer is `none`. The raft client is its replica's id.
pub record Dependencies : Type 0 where
  pub host_config_usecase : Option Usecase
  pub service_definition_usecase : Option Usecase
  pub service_deployment_usecase : Option Usecase
  pub repository_usecase : Option Usecase
  pub env_usecase : Option Usecase
  pub secret_usecase : Option Usecase
  pub job_usecase : Option Usecase
  pub build_artifact_usecase : Option AttachmentUsecase
  pub raft_job_usecase : Option String

-- deployjobintegration.New: the jobs controller with an empty pool, and the two handlers around it.
pub record JobsController : Type 0 where
  pub dependencies : Dependencies
  pub host : Host
  pub deployment_job_pool : Pool

pub record Integration : Type 0 where
  pub http_controller : JobsController
  pub http_dependencies : Dependencies
  pub event_controller : JobsController
  pub event_dependencies : Dependencies

abbrev pub new_integration : Dependencies → Host → Integration
new_integration deps host =
    let jobs_controller : JobsController = record {
      dependencies = deps;
      host = host;
      deployment_job_pool = [];
    } in
    record {
      http_controller = jobs_controller;
      http_dependencies = deps;
      event_controller = jobs_controller;
      event_dependencies = deps;
    }

pub data Endpoint : Type 0 where
  get post delete : ContentHandler → Endpoint
  get_attachment upload delete_attachment : AttachmentHandler → Endpoint
  submit_job cancel_job confirm_deployment : Integration → Endpoint
  tail_topic topic_metrics : Endpoint
  serve_files : String → Endpoint

pub data Method : Type 0 where
  get_method post_method delete_method : Method

pub record Route : Type 0 where
  pub method : Method
  pub path : String
  pub endpoint : Endpoint

abbrev pub on_get : String → Endpoint → Route
on_get path e = record { method = get_method; path = path; endpoint = e }

abbrev pub on_post : String → Endpoint → Route
on_post path e = record { method = post_method; path = path; endpoint = e }

abbrev pub on_delete : String → Endpoint → Route
on_delete path e = record { method = delete_method; path = path; endpoint = e }

-- The package's variables, which the modules assign: a `Dependencies` of them, and publicBaseURL.
pub record Globals : Type 0 where
  pub public_base_url : String
  pub usecases : Dependencies

-- The process: the variables, the replicas that run with their tables, the router's routes, the
-- dependencies of the replica_started consumer, and the world outside.
pub record Process (S : Type 0) : Type 0 where
  pub globals : Globals
  pub replicas : List (String × List TableConfig)
  pub routes : List Route
  pub consumer : Option Integration
  pub world : S

-- How the start can fail: log.Panic, log.Fatal, the panic of the router at a route that conflicts with
-- one that it has, and a loop that has not ended yet.
pub data Exit : Type 0 where
  log_panic log_fatal : Fault → Exit
  route_conflict : Route → Exit
  still_waiting : Exit

-- The libraries, on a state: whether raft_runner.RunReplica, the blob storage, the subscription to the
-- topic and the raft client give an error; GetStorage of a content application; viper's GetString; and
-- whether the router takes a route beside those that it has.
pub record Libraries (S : Type 0) : Type 0 where
  pub run_replica : String → List TableConfig → S → Option Fault × S
  pub open_blob : List String → Bool → S → Option Fault × S
  pub subscribe : S → Option Fault × S
  pub start_subscription : S → S
  pub new_raft_client : String → S → Option Fault × S
  pub get_storage : List TableConfig → String → Option Fault
  pub get_string : String → String
  pub get_bool : String → Bool
  pub takes : List Route → Route → Bool

abbrev pub Start : Type 0 → Type 0 → Type 0
Start S A = Action (Process S) Exit A
