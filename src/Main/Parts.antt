-- ===== src/Main/Parts.antt =====
-- The parts of the modules of the main program (cmd/deployd/main.go): the tables of each replica, the
-- usecases over them, and the routes of their handlers.
use deployd.Prelude.{ℕ, String, ◌<>◌, true, false, List, [], ◌∷◌}
use deployd.Main.EntityType.{EntityType}
use deployd.Main.Setup.{
  TableConfig, table, Usecase, AttachmentUsecase, ContentHandler, AttachmentHandler, Integration,
  get, post, delete, get_attachment, upload, delete_attachment, submit_job, cancel_job,
  confirm_deployment, Route, on_get, on_post, on_delete,
}

abbrev pub usecase : EntityType → String → String → ℕ → Usecase
usecase t replica name ref_size = record {
  entity = t;
  store = record { replica = replica; table = name };
  ref_size = ref_size;
}

abbrev pub content : Usecase → String → List String → ContentHandler
content u url ref_params = record { usecase = u; url = url; ref_params = ref_params }

abbrev pub repository_usecase : Usecase
repository_usecase = usecase EntityType.repository "artifactd-v1" "artifactd_repository" 0

abbrev pub build_usecase : Usecase
build_usecase = usecase EntityType.build_artifact "artifactd-v1" "artifactd_build" 1

abbrev pub build_artifact_usecase : AttachmentUsecase
build_artifact_usecase = record {
  store = record { replica = "artifactd-v1"; table = "artifactd_archive" };
  ref_size = 2;
  hide_url = false;
  path_prefix = "artifactd/archive";
}

abbrev pub archive_handler : String → AttachmentHandler
archive_handler base = record {
  usecase = build_artifact_usecase;
  url = base <> "/artifactd/archive";
  ref_params = "repository" ∷ "build" ∷ [];
  cache_control = "";
}

abbrev pub artifactd_tables : List TableConfig
artifactd_tables =
    table "artifactd_repository" 0
    ∷ record (table "artifactd_build" 1) { incremental_id = true }
    ∷ table "artifactd_archive" 2
    ∷ []

abbrev pub artifactd_routes : String → List Route
artifactd_routes base =
    on_post "/artifactd/repository" (post repository_handler)
    ∷ on_get "/artifactd/repository" (get repository_handler)
    ∷ on_delete "/artifactd/repository" (delete repository_handler)
    ∷ on_post "/artifactd/build" (post build_handler)
    ∷ on_get "/artifactd/build" (get build_handler)
    ∷ on_delete "/artifactd/build" (delete build_handler)
    ∷ on_post "/artifactd/archive" (upload (archive_handler base))
    ∷ on_get "/artifactd/archive" (get_attachment (archive_handler base))
    ∷ on_delete "/artifactd/archive" (delete_attachment (archive_handler base))
    ∷ []
  where
    repository_handler : ContentHandler
    repository_handler = content repository_usecase (base <> "/artifactd/repository") []

    build_handler : ContentHandler
    build_handler = content build_usecase (base <> "/artifactd/build") ("repository" ∷ [])

abbrev pub host_config_usecase : Usecase
host_config_usecase = usecase EntityType.host "deployd-v1" "deployd_host" 0

abbrev pub service_definition_usecase : Usecase
service_definition_usecase = usecase EntityType.service_definition "deployd-v1" "deployd_service" 0

abbrev pub service_deployment_usecase : Usecase
service_deployment_usecase =
    usecase EntityType.service_instance_host "deployd-v1" "deployd_service_deployment" 2

abbrev pub raft_host_usecase : Usecase
raft_host_usecase = usecase EntityType.raft_host "deployd-v1" "deployd_raft_host" 1

abbrev pub raft_replica_usecase : Usecase
raft_replica_usecase = usecase EntityType.raft_replica "deployd-v1" "deployd_raft_replica" 1

abbrev pub deployd_tables : List TableConfig
deployd_tables =
    table "deployd_host" 0
    ∷ table "deployd_service" 0
    ∷ table "deployd_raft_host" 1
    ∷ table "deployd_raft_replica" 1
    ∷ []

abbrev pub deployd_routes : String → List Route
deployd_routes base =
    on_get "/deployd/host" (get (content host_config_usecase (base <> "/deployd/host") []))
    ∷ on_get "/deployd/service" (get service_handler)
    ∷ on_post "/deployd/service" (post service_handler)
    ∷ on_delete "/deployd/service" (delete service_handler)
    ∷ on_post "/deployd/raft/replica" (post replica_handler)
    ∷ on_get "/deployd/raft/replica" (get replica_handler)
    ∷ on_delete "/deployd/raft/replica" (delete replica_handler)
    ∷ on_post "/deployd/raft/host" (post raft_host_handler)
    ∷ on_get "/deployd/raft/host" (get raft_host_handler)
    ∷ on_delete "/deployd/raft/host" (delete raft_host_handler)
    ∷ []
  where
    service_handler : ContentHandler
    service_handler = content service_definition_usecase (base <> "/deployd/service") []

    replica_handler : ContentHandler
    replica_handler =
        content raft_replica_usecase (base <> "/deployd/raft/replica") ("service" ∷ [])

    raft_host_handler : ContentHandler
    raft_host_handler = content raft_host_usecase (base <> "/deployd/raft/host") ("service" ∷ [])

abbrev pub secret_usecase : Usecase
secret_usecase = usecase EntityType.secret "secretd-v1" "secretd_secret" 1

abbrev pub env_usecase : Usecase
env_usecase = usecase EntityType.env "secretd-v1" "secretd_env" 1

abbrev pub latest_five : TableConfig → TableConfig
latest_five t = record t { incremental_id = true; incremental_id_get_limit = 5 }

abbrev pub secretd_tables : List TableConfig
secretd_tables = latest_five (table "secretd_secret" 1) ∷ latest_five (table "secretd_env" 1) ∷ []

abbrev pub secretd_routes : String → List Route
secretd_routes base =
    on_post "/secretd/secret" (post secret_handler)
    ∷ on_get "/secretd/secret" (get secret_handler)
    ∷ on_delete "/secretd/secret" (delete secret_handler)
    ∷ on_post "/secretd/env" (post env_handler)
    ∷ on_get "/secretd/env" (get env_handler)
    ∷ on_delete "/secretd/env" (delete env_handler)
    ∷ []
  where
    secret_handler : ContentHandler
    secret_handler = content secret_usecase (base <> "/secretd/secret") ("service" ∷ [])

    env_handler : ContentHandler
    env_handler = content env_usecase (base <> "/secretd/env") ("service" ∷ [])

abbrev pub job_usecase : Usecase
job_usecase = usecase EntityType.deployment_job "deploy-job-v1" "deployment_job" 1

-- The content application under the job application (internal/src/raft-app/deploy-job/app.go).
abbrev pub job_tables : List TableConfig
job_tables =
    record (table "deployment_job" 1) { incremental_id = true; incremental_id_get_limit = 10 }
    ∷ table "service_instance_host" 1
    ∷ []

abbrev pub job_routes : String → Integration → List Route
job_routes base i =
    on_post "/deployd/job/submit" (submit_job i)
    ∷ on_post "/deployd/job/cancel/:service/:id" (cancel_job i)
    ∷ on_post "/deployd/job/confirm-deployment" (confirm_deployment i)
    ∷ on_get "/deployd/job" (get (content job_usecase (base <> "/deployd/job") ("service" ∷ [])))
    ∷ []
