-- ===== src/Main/Modules.antt =====
-- The modules that the main program enables (cmd/deployd/main.go): the replicas, the usecases and the
-- routes of artifactd, deployd, secretd and the deployment jobs, and the user interface.
use deployd.Prelude.{String, some, List, [], ◌∷◌, ◌>>◌}
use deployd.Entity.Host.{Host}
use deployd.Main.Setup.{
  Dependencies, new_integration, tail_topic, topic_metrics, serve_files, on_get, log_panic,
  log_fatal, Libraries, Start,
}
use deployd.Main.Steps.{
  call_library, effect, require, assign, register_all, run_replica, with_base_url, with_usecases,
  start_consumer,
}
use deployd.Main.Parts.{
  repository_usecase, build_artifact_usecase, artifactd_tables, artifactd_routes,
  host_config_usecase, service_definition_usecase, service_deployment_usecase, deployd_tables,
  deployd_routes, secret_usecase, env_usecase, secretd_tables, secretd_routes, job_usecase,
  job_tables, job_routes,
}

module _ {S : Type 0} (L : Libraries S) where
  abbrev pub artifactd_usecases : Dependencies → Dependencies
  artifactd_usecases d = record d {
    repository_usecase = some repository_usecase;
    build_artifact_usecase = some build_artifact_usecase;
  }

  abbrev pub blob_options : List String
  blob_options =
      L.get_string "storage.s3.blob.endpoint"
      ∷ L.get_string "storage.s3.blob.key_id"
      ∷ L.get_string "storage.s3.blob.key_secret"
      ∷ L.get_string "storage.s3.blob.bucket_name"
      ∷ L.get_string "storage.s3.blob.base_public_url"
      ∷ []

  unfoldable pub enable_artifactd_module : Start S Unit
  unfolding register_all
  enable_artifactd_module = do
    run_replica L log_panic "artifactd-v1" artifactd_tables
    call_library log_fatal (L.open_blob blob_options (L.get_bool "storage.s3.blob.use_ssl"))
    assign artifactd_usecases
    with_base_url (λ base. register_all L (artifactd_routes base))

  abbrev pub deployd_usecases : Dependencies → Dependencies
  deployd_usecases d = record d {
    host_config_usecase = some host_config_usecase;
    service_definition_usecase = some service_definition_usecase;
    service_deployment_usecase = some service_deployment_usecase;
  }

  unfoldable pub enable_deployd_module : Start S Unit
  unfolding register_all
  enable_deployd_module = do
    run_replica L log_panic "deployd-v1" deployd_tables
    assign deployd_usecases
    with_base_url (λ base. register_all L (deployd_routes base))

  abbrev pub secretd_usecases : Dependencies → Dependencies
  secretd_usecases d = record d {
    secret_usecase = some secret_usecase;
    env_usecase = some env_usecase;
  }

  unfoldable pub enable_secretd_module : Start S Unit
  unfolding register_all
  enable_secretd_module = do
    run_replica L log_panic "secretd-v1" secretd_tables
    assign secretd_usecases
    with_base_url (λ base. register_all L (secretd_routes base))

  -- deployjob.New: the two tables of the application must have a storage.
  abbrev pub new_job_app : Start S Unit
  new_job_app = do
    require log_fatal (L.get_storage job_tables "deployment_job")
    require log_fatal (L.get_storage job_tables "service_instance_host")

  -- The integration gets the values that the variables have at this point.
  abbrev pub integrate : Host → Dependencies → Start S Unit
  integrate host d = do
    with_base_url (λ base. register_all L (job_routes base (new_integration d host)))
    start_consumer (new_integration d host)
    register_all L
        (on_get "/deployd/job/tail" tail_topic ∷ on_get "/deployd/job/stat" topic_metrics ∷ [])

  unfoldable pub enable_job_module : Host → Start S Unit
  unfolding register_all
  enable_job_module host = do
    call_library log_fatal L.subscribe
    effect L.start_subscription
    new_job_app
    run_replica L log_fatal "deploy-job-v1" job_tables
    assign (λ d. record d { job_usecase = some job_usecase })
    call_library log_fatal (L.new_raft_client "deploy-job-v1")
    assign (λ d. record d { raft_job_usecase = some "deploy-job-v1" })
    with_usecases (integrate host)

  unfoldable pub enable_ui : Start S Unit
  unfolding register_all
  enable_ui = register_all L (on_get "/ui/*filepath" (serve_files (L.get_string "ui.dir")) ∷ [])

  unfoldable pub enable_modules : Host → Start S Unit
  unfolding enable_artifactd_module enable_deployd_module enable_secretd_module enable_job_module
      enable_ui
  enable_modules host = do
    enable_artifactd_module
    enable_deployd_module
    enable_secretd_module
    enable_job_module host
    enable_ui
