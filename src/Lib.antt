-- ===== src/Lib.antt =====
-- deployd: the coordination of deployments, and what a host does for one.
--
-- A user submits a deployment job over HTTP. The raft application of the jobs applies it and every
-- later command, on each replica, and broadcasts events; each host's controller hears them, configures
-- the host, restarts the service when its turn has come, and reports back through the raft client.
--
-- Parts, and the files that model them (paths from the repository's root):
--   Entity         src/entity/*.go: the stored structs, one record each, with their mycontent.Data
--                  methods as a `Content` of getters and setters.
--   RaftApp        internal/src/raft-app/deploy-job/app.go and interface.go. Messages has the requests
--                  and responses; Update is OnUpdate; Submit, Cancel, Configure, Restart and Progress are
--                  userSubmitJob, cancelJob, hostConfigurationUpdate, restart and
--                  hostRestartServiceUpdate. A handler is an action: from the state to an outcome (a
--                  value, an error or a panic) and a state. Its closure for after the commit is the
--                  value: the broadcasts and the reply.
--   RaftApp/Runtime, Memory
--                  what app.go builds on, as a record of parameters: the two tables of the content app,
--                  the base application and JSON; and an instance of it in memory.
--   RaftApp/Lifecycle, Effect, Validity, Order, Replay, Deployment
--                  the specification: the step relation of a job, what a command may do to the store,
--                  what stays true of a job, the log that replicas apply, and the reports of a whole
--                  deployment.
--   Client         internal/src/raft-app/deploy-job/client.go, over a parameter for Publish.
--   HostDeploy     internal/src/deploy-job/job_deploy_restart.go: Execute and Deploy, over a record of
--                  the calls of os and systemd (HostDeploy/Calls) with its laws for symbolic links.
--   Controller     internal/src/deploy-job/jobs_controller.go, integration_event.go, job_deploy.go.
--                  A goroutine that is started is an effect; a sub-job is the list of its reports, with
--                  what it runs: Restarts over HostDeploy, Configurations over HostConfigure. JobBase is
--                  job_base.go and job.go, JobLogger is utility_job_logger.go.
--   HostConfigure  internal/src/deploy-job/job_deploy_configure.go and utility.go: Execute of the
--                  configuration, over a record of the calls of the host (HostConfigure/Calls). Copy,
--                  Archive and EnvLines are the download, the extraction and the environment file;
--                  Outcomes, Status and Returns say how the steps end.
--   Http           internal/src/deploy-job/integration_http.go, over the stores and the raft client.
--   Systemd        internal/src/systemd: the table of services and its listener; Stream and Reader are
--                  systemd_http.go, and Interleave runs the listener and a client step by step.
--   Artifactd      internal/src/artifactd: the raft application that numbers builds, its metadata,
--                  and its HTTP handlers.
--   Ubuntu         internal/src/configurations/ubuntu.go: Configure over the calls of the host; Unused
--                  has the functions that nothing calls.
--   Storage        cmd/deployd/config.go: retry and the table of connections (initConfig is in Main).
--   Main           cmd/deployd/main.go. Setup has what the libraries are handed, EntityType the types of
--                  the usecases, Steps the actions of the start, Parts the tables, usecases and routes,
--                  and Modules the enableXModule functions with deployjob.New and the New of
--                  integration.go. Startup is main up to the server, with HostInformation for
--                  initHostInformation and ReplicaId for currentHost; Answers is the CORS headers;
--                  Shutdown is the rest of main and startRouter, as steps of goroutines. Router is what
--                  httprouter documents; Ensures, Ready and Serves say what is set up.
--   ServiceSetup   src/deployd/raft.go and secret.go: what a deployed service calls at its start.
--   Path           Clean and Join of Go's path packages. Prelude: Go maps, `int` and `uint` of 64 bits,
--                  outcomes, decimal text, and lemmas on lists.
--   Examples       the theorems at concrete inputs (and Examples below the parts).
--
-- Numbers are natural numbers; `uint` wraps at 2 ^ 64 and its conversion to `int` is two's complement.
-- Times are numbers. A nil map is apart from an empty one, and a write to it panics. The random number
-- of a submission is an argument. The recursion of format_uint is on fuel one above the number, which
-- has fewer digits than that. The loop of Copy is on fuel; one round more than there are bytes is enough
-- on a reader that gives a byte or an end at each read.
--
-- The loop that posts the host has the posts as fuel, and is shown to end where one of them is answered
-- with something other than ErrNotReady. parse_uint reads a text character by character.
--
-- Not modelled: the example programs main.go and cmd/test, the systemd module of the main program, which
-- nothing enables, and the script deploy_ubuntu.go; and, in what is modelled, contexts (a wait may fail),
-- the texts of logs and of SQL statements, and how goroutines interleave, but for the listener of systemd
-- with its client and for the shutdown of the main program.
pub mod Prelude
pub mod Main
pub mod Path
pub mod Entity
pub mod RaftApp
pub mod Systemd
pub mod Storage
pub mod ServiceSetup
pub mod Client
pub mod Http
pub mod HostConfigure
pub mod Ubuntu
pub mod HostDeploy
pub mod Controller
pub mod Artifactd
pub mod Examples
