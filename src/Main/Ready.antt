-- ===== src/Main/Ready.antt =====
-- What the main program has set up when its modules are enabled.
use deployd.Prelude.{String, refl, none, some, List, [], ◌∷◌, ◌++◌}
use deployd.Entity.Host.{Host}
use deployd.Main.Setup.{
  TableConfig, Dependencies, Integration, new_integration, Route, Libraries, log_panic, log_fatal,
  on_get, tail_topic, topic_metrics, serve_files,
}
use deployd.Main.Modules.{
  artifactd_usecases, blob_options, deployd_usecases, secretd_usecases, enable_artifactd_module,
  enable_deployd_module, enable_secretd_module, enable_job_module, enable_ui, enable_modules,
  integrate,
}
use deployd.Main.Parts.{
  artifactd_tables, artifactd_routes, deployd_tables, deployd_routes, secretd_tables,
  secretd_routes, job_tables, job_routes, job_usecase,
}
use deployd.Main.Router.{IsDocumented, are_free, are_free-TakesAll}
use deployd.Main.Ensures.{
  Layout, Leads, seq, call_library-Leads, require-Leads, run_replica-Leads, effect-Leads,
  assign-Leads, start_consumer-Leads, with_usecases-Leads, register_all-Leads, serve-Leads,
}

abbrev no_usecases : Dependencies
no_usecases = record {
  host_config_usecase = none;
  service_definition_usecase = none;
  service_deployment_usecase = none;
  repository_usecase = none;
  env_usecase = none;
  secret_usecase = none;
  job_usecase = none;
  build_artifact_usecase = none;
  raft_job_usecase = none;
}

abbrev pub at_start : Layout
at_start = record {
  globals = record { public_base_url = ""; usecases = no_usecases };
  replicas = [];
  routes = [];
  consumer = none;
}

-- The layout with more usecases, one more replica and more routes.
abbrev grown :
    (Dependencies → Dependencies) → String → List TableConfig → List Route → Layout → Layout
grown f id tables routes l = record l {
  globals = record l.globals { usecases = f l.globals.usecases };
  replicas = (id, tables) ∷ l.replicas;
  routes = l.routes ++ routes;
}

module _ {S : Type 0} (L : Libraries S) (host : Host) where
  abbrev after_artifactd : Layout
  after_artifactd =
      grown (artifactd_usecases L) "artifactd-v1" artifactd_tables (artifactd_routes "") at_start

  abbrev after_deployd : Layout
  after_deployd =
      grown (deployd_usecases L) "deployd-v1" deployd_tables (deployd_routes "") after_artifactd

  abbrev after_secretd : Layout
  after_secretd =
      grown (secretd_usecases L) "secretd-v1" secretd_tables (secretd_routes "") after_deployd

  -- All the usecases are there: what the integration of the jobs gets.
  abbrev all_usecases : Dependencies
  all_usecases = record after_secretd.globals.usecases {
    job_usecase = some job_usecase;
    raft_job_usecase = some "deploy-job-v1";
  }

  abbrev integration : Integration
  integration = new_integration all_usecases host

  abbrev topic_routes : List Route
  topic_routes =
      on_get "/deployd/job/tail" tail_topic ∷ on_get "/deployd/job/stat" topic_metrics ∷ []

  abbrev ui_routes : List Route
  ui_routes = on_get "/ui/*filepath" (serve_files (L.get_string "ui.dir")) ∷ []

  abbrev after_job : Layout
  after_job = record {
    globals = record { public_base_url = ""; usecases = all_usecases };
    replicas = ("deploy-job-v1", job_tables) ∷ after_secretd.replicas;
    routes = (after_secretd.routes ++ job_routes "" integration) ++ topic_routes;
    consumer = some integration;
  }

  abbrev pub at_ready : Layout
  at_ready = record after_job { routes = after_job.routes ++ ui_routes }

  module _ (law : IsDocumented L) where
    enable_artifactd_module-Leads : Leads at_start (enable_artifactd_module L) after_artifactd
    unfolding enable_artifactd_module are_free
    enable_artifactd_module-Leads =
        seq (run_replica-Leads log_panic (λ _. tt) L "artifactd-v1" artifactd_tables) (
          seq
            (call_library-Leads log_fatal (λ _. tt)
              (L.open_blob (blob_options L) (L.get_bool "storage.s3.blob.use_ssl")))
            (seq (assign-Leads (artifactd_usecases L)) (serve-Leads L artifactd_routes law refl)))

    enable_deployd_module-Leads : Leads after_artifactd (enable_deployd_module L) after_deployd
    unfolding enable_deployd_module are_free
    enable_deployd_module-Leads =
        seq (run_replica-Leads log_panic (λ _. tt) L "deployd-v1" deployd_tables)
          (seq (assign-Leads (deployd_usecases L)) (serve-Leads L deployd_routes law refl))

    enable_secretd_module-Leads : Leads after_deployd (enable_secretd_module L) after_secretd
    unfolding enable_secretd_module are_free
    enable_secretd_module-Leads =
        seq (run_replica-Leads log_panic (λ _. tt) L "secretd-v1" secretd_tables)
          (seq (assign-Leads (secretd_usecases L)) (serve-Leads L secretd_routes law refl))

    enable_job_module-Leads : Leads after_secretd (enable_job_module L host) after_job
    unfolding enable_job_module are_free
    enable_job_module-Leads = seq (call_library-Leads log_fatal (λ _. tt) L.subscribe) (
        seq (effect-Leads L.start_subscription) (
          seq
            (seq (require-Leads log_fatal (λ _. tt) (L.get_storage job_tables "deployment_job")) (
              require-Leads log_fatal (λ _. tt) (L.get_storage job_tables "service_instance_host")))
            (seq (run_replica-Leads log_fatal (λ _. tt) L "deploy-job-v1" job_tables) (
              seq (assign-Leads (λ d. record d { job_usecase = some job_usecase })) (
                seq (call_library-Leads log_fatal (λ _. tt) (L.new_raft_client "deploy-job-v1")) (
                  seq (assign-Leads (λ d. record d { raft_job_usecase = some "deploy-job-v1" })) (
                    with_usecases-Leads (integrate L host) (
                      seq (serve-Leads L (λ base. job_routes base integration) law refl) (
                        seq (start_consumer-Leads integration) (
                          register_all-Leads L topic_routes
                            (are_free-TakesAll L _ topic_routes law refl)))))))))))

    enable_ui-Leads : Leads after_job (enable_ui L) at_ready
    unfolding enable_ui are_free
    enable_ui-Leads = register_all-Leads L ui_routes (are_free-TakesAll L _ ui_routes law refl)

    pub enable_modules-Leads : Leads at_start (enable_modules L host) at_ready
    unfolding enable_modules
    enable_modules-Leads = seq enable_artifactd_module-Leads (
        seq enable_deployd_module-Leads
          (seq enable_secretd_module-Leads (seq enable_job_module-Leads enable_ui-Leads)))
