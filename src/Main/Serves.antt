-- ===== src/Main/Serves.antt =====
-- The parts that the modules set up fit together: entities, stores, tables, routes and usecases.
use mathlib.Core.Path.{subst}
use deployd.Prelude.{
  ℕ, String, ◌≡◌, refl, sym, Option, none, some, List, [], ◌∷◌, ◌==◌, All, map, length,
  if◌then◌else◌, Outcome, ok, err, panic,
}
use deployd.Entity.Host.{Host}
use deployd.Main.EntityType.{EntityType, HasRefs}
use deployd.Main.Setup.{
  TableConfig, Store, Usecase, AttachmentUsecase, Integration, new_integration, ContentHandler,
  AttachmentHandler, Dependencies, Endpoint, Method, get_method, post_method, delete_method, get,
  post, delete, get_attachment, upload, delete_attachment, submit_job, cancel_job,
  confirm_deployment, tail_topic, topic_metrics, serve_files, Route, Process, Exit, Libraries,
}
use deployd.Main.Modules.{enable_modules}
use deployd.Main.Router.{IsDocumented}
use deployd.Main.Ensures.{At, Ensures}
use deployd.Main.Ready.{at_start, at_ready, enable_modules-Leads}

abbrev size_in : List TableConfig → String → Option ℕ
size_in [] name = none
size_in (t ∷ ts) name =
    let rest = size_in ts name in if t.name == name then some t.ref_size else rest

-- The number of reference ids of the store's table in the replica that the store is a client of.
abbrev table_size : List (String × List TableConfig) → Store → Option ℕ
table_size [] store = none
table_size ((id, tables) ∷ replicas) store =
    let rest = table_size replicas store in
    if id == store.replica then size_in tables store.table else rest

-- The program's API: what is served, whatever the handlers are.
abbrev pub api : List (Method × String)
api =
    (post_method, "/artifactd/repository")
    ∷ (get_method, "/artifactd/repository")
    ∷ (delete_method, "/artifactd/repository")
    ∷ (post_method, "/artifactd/build")
    ∷ (get_method, "/artifactd/build")
    ∷ (delete_method, "/artifactd/build")
    ∷ (post_method, "/artifactd/archive")
    ∷ (get_method, "/artifactd/archive")
    ∷ (delete_method, "/artifactd/archive")
    ∷ (get_method, "/deployd/host")
    ∷ (get_method, "/deployd/service")
    ∷ (post_method, "/deployd/service")
    ∷ (delete_method, "/deployd/service")
    ∷ (post_method, "/deployd/raft/replica")
    ∷ (get_method, "/deployd/raft/replica")
    ∷ (delete_method, "/deployd/raft/replica")
    ∷ (post_method, "/deployd/raft/host")
    ∷ (get_method, "/deployd/raft/host")
    ∷ (delete_method, "/deployd/raft/host")
    ∷ (post_method, "/secretd/secret")
    ∷ (get_method, "/secretd/secret")
    ∷ (delete_method, "/secretd/secret")
    ∷ (post_method, "/secretd/env")
    ∷ (get_method, "/secretd/env")
    ∷ (delete_method, "/secretd/env")
    ∷ (post_method, "/deployd/job/submit")
    ∷ (post_method, "/deployd/job/cancel/:service/:id")
    ∷ (post_method, "/deployd/job/confirm-deployment")
    ∷ (get_method, "/deployd/job")
    ∷ (get_method, "/deployd/job/tail")
    ∷ (get_method, "/deployd/job/stat")
    ∷ (get_method, "/ui/*filepath")
    ∷ []

module _ (File : Type 0) (replicas : List (String × List TableConfig)) where
  -- The usecase's number of reference ids is that of its table and of each value of its type.
  abbrev pub FitsUsecase : Usecase → Type 0
  FitsUsecase u = (table_size replicas u.store ≡ some u.ref_size) × HasRefs File u.entity u.ref_size

  abbrev pub FitsAttachment : AttachmentUsecase → Type 0
  FitsAttachment u = table_size replicas u.store ≡ some u.ref_size

  -- A request names as many reference ids as the usecase takes.
  abbrev pub FitsContent : ContentHandler → Type 0
  FitsContent h = FitsUsecase h.usecase × (length h.ref_params ≡ h.usecase.ref_size)

  abbrev pub FitsArchive : AttachmentHandler → Type 0
  FitsArchive h = FitsAttachment h.usecase × (length h.ref_params ≡ h.usecase.ref_size)

  abbrev Given : Option Usecase → EntityType → Type 0
  Given none t = ⊥
  Given (some u) t = (u.entity ≡ t) × FitsUsecase u

  abbrev GivenAttachment : Option AttachmentUsecase → Type 0
  GivenAttachment none = ⊥
  GivenAttachment (some u) = FitsAttachment u

  -- The usecase is there, and no replica has its table.
  abbrev HasNoTable : Option Usecase → Type 0
  HasNoTable none = ⊥
  HasNoTable (some u) = table_size replicas u.store ≡ none

  -- All dependencies are there, and fit but for the service deployments.
  abbrev pub AllGiven : Dependencies → Type 0
  AllGiven d =
      Given d.host_config_usecase EntityType.host
      × Given d.service_definition_usecase EntityType.service_definition
      × HasNoTable d.service_deployment_usecase
      × Given d.repository_usecase EntityType.repository
      × Given d.env_usecase EntityType.env
      × Given d.secret_usecase EntityType.secret
      × Given d.job_usecase EntityType.deployment_job
      × GivenAttachment d.build_artifact_usecase
      × (d.raft_job_usecase ≡ some "deploy-job-v1")

  -- The handlers and the consumer share one controller of this host, whose pool is empty.
  abbrev pub IsIntegrated : Host → Integration → Type 0
  IsIntegrated host i =
      AllGiven i.http_dependencies
      × AllGiven i.event_dependencies
      × AllGiven i.http_controller.dependencies
      × (i.http_controller ≡ i.event_controller)
      × (i.http_controller.host ≡ host)
      × (i.http_controller.deployment_job_pool ≡ [])

  abbrev pub Fits : Host → Endpoint → Type 0
  Fits host (get h) = FitsContent h
  Fits host (post h) = FitsContent h
  Fits host (delete h) = FitsContent h
  Fits host (get_attachment h) = FitsArchive h
  Fits host (upload h) = FitsArchive h
  Fits host (delete_attachment h) = FitsArchive h
  Fits host (submit_job i) = IsIntegrated host i
  Fits host (cancel_job i) = IsIntegrated host i
  Fits host (confirm_deployment i) = IsIntegrated host i
  Fits host tail_topic = Unit
  Fits host topic_metrics = Unit
  Fits host (serve_files dir) = Unit

  abbrev pub ConsumerFits : Host → Option Integration → Type 0
  ConsumerFits host none = ⊥
  ConsumerFits host (some i) = IsIntegrated host i

  -- Every route and the consumer fit the replicas, and the routes are those of the API.
  abbrev pub IsFit : Host → List Route → Option Integration → Type 0
  IsFit host routes consumer =
      All (λ (r : Route). Fits host r.endpoint) routes
      × ConsumerFits host consumer
      × (map (λ (r : Route). (r.method, r.path)) routes ≡ api)

module _ (File : Type 0) {S : Type 0} (L : Libraries S) (host : Host) where
  given : AllGiven File (at_ready L host).replicas (at_ready L host).globals.usecases
  given = (
    (refl, (refl, λ v. refl)),
    (refl, (refl, λ v. refl)),
    refl,
    (refl, (refl, λ v. refl)),
    (refl, (refl, λ v. refl)),
    (refl, (refl, λ v. refl)),
    (refl, (refl, λ v. refl)),
    refl,
    refl,
  )

  integrated :
      IsIntegrated File
        (at_ready L host).replicas
        host
        (new_integration (at_ready L host).globals.usecases host)
  integrated = (given, given, given, refl, refl, refl)

  at_ready-IsFit :
      IsFit File (at_ready L host).replicas host (at_ready L host).routes (at_ready L host).consumer
  at_ready-IsFit = (search integrated, integrated, refl)

  at-IsFit :
      (q : Process S) → At (at_ready L host) q → IsFit File q.replicas host q.routes q.consumer
  at-IsFit q h =
      subst (λ t. IsFit File t host q.routes q.consumer) (sym h.1)
        (subst (λ t. IsFit File (at_ready L host).replicas host t q.consumer) (sym h.2)
          (subst (λ t. IsFit File (at_ready L host).replicas host (at_ready L host).routes t)
            (sym h.3) at_ready-IsFit))

  ensures-IsFit :
      (r : Outcome Exit Unit × Process S)
      → Ensures (At (at_ready L host)) r
      → Ensures (λ q. IsFit File q.replicas host q.routes q.consumer) r
  ensures-IsFit (ok a, q) h = at-IsFit q h
  ensures-IsFit (err e, q) h = h
  ensures-IsFit (panic x, q) h = h

  -- On a documented router, where nothing is set up yet: the modules either fail with an error
  -- that a library gave, or return with a process that serves exactly the methods and paths of
  -- `api`, and fits. Every route of a content handler stands for a usecase whose number of
  -- reference ids is that of its table, of every value of its entity type and of the parameters
  -- that its requests name; every attachment likewise, but for its values. The job endpoints and
  -- the consumer share one controller of this host with an empty pool, and have got all nine
  -- dependencies, of the right entity types, which fit in the same way, except the service
  -- deployments, which are there but whose table no replica has.
  pub enable_modules-IsFit :
      IsDocumented L
      → (p : Process S) → At at_start p
      → Ensures (λ q. IsFit File q.replicas host q.routes q.consumer) (enable_modules L host p)
  enable_modules-IsFit law p h =
      ensures-IsFit (enable_modules L host p) ((enable_modules-Leads L host law).apply p h)
