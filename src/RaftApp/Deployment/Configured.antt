-- ===== src/RaftApp/Deployment/Configured.antt =====
-- The hosts report success in any order, and the job is CONFIGURED.
use deployd.Prelude.{
  String, ◌≡◌, ◌≢◌, refl, ◌∙◌, true, ◌||◌, none, List, [], ◌∷◌, All, All-imp, Distinct, elem, arith,
}
use deployd.Prelude.GoMap.{table, set, keys_of, keys_of-set, values_of}
use deployd.Entity.Job.{DeploymentJob, DeploymentJobStatus}
use deployd.RaftApp.Runtime.{Runtime}
use deployd.RaftApp.Lifecycle.{AllConfigured}
use deployd.RaftApp.Configure.{with_configuration, host_configuration_update}
use deployd.RaftApp.Configure.Refines.{AllConfigured-all_configured}
use deployd.RaftApp.Progress.Rollout.{StoresById, IsFound, IsFound-again}
use deployd.RaftApp.Deployment.{configuration_of, configure_all, reported_state}
use deployd.RaftApp.Deployment.Table.{
  Infos, configured_info, Reported, Reported-none, Reported-set, Reported-AllConfigured,
}

-- The hosts, the last one first.
onto : List String → List String → List String
onto [] done = done
onto (h ∷ hs) done = onto hs (h ∷ done)

elem-onto :
    (k : String) (hs done : List String) → elem k (onto hs done) ≡ (elem k hs || elem k done)
unfolding onto
elem-onto k [] done = refl
elem-onto k (h ∷ hs) done = ground (arith, elem-onto k hs (h ∷ done))

module _ (R : Runtime) (laws : StoresById R) (j : DeploymentJob) (named : j.id ≢ "")
    (known : List String) (apart : Distinct known) where
  -- The job that is found under the key of `j` has its key and its deployment, and these hosts have
  -- reported success.
  record IsConfiguring (s : R.State) (k : DeploymentJob) (l : Infos) (done : List String)
      : Type 0 where
    found : IsFound R s j k
    same_ns : k.ns ≡ j.ns
    same_id : k.id ≡ j.id
    same_service : k.request.service.id ≡ j.request.service.id
    same_deployment : k.deployment ≡ j.deployment
    holds : k.configuration.status ≡ table l
    exact : keys_of l ≡ known
    reported : Reported done l

  -- Once all have, the job is CONFIGURED.
  abbrev Settled : DeploymentJob → Infos → Type 0
  Settled k l = AllConfigured (values_of l) → k.status ≡ DeploymentJobStatus.configured

  module _ (s : R.State) (k : DeploymentJob) (l : Infos) (done : List String) (h : String)
      (c : IsConfiguring s k l done) (member : elem h known ≡ true) where
    abbrev infos_after : Infos
    infos_after = set h configured_info l

    abbrev job_after : DeploymentJob
    job_after = with_configuration k (table infos_after)

    posted :
        (host_configuration_update R (configuration_of j h) s).1 ≡ (R.post_job job_after none s).1
    posted = reported_state R (configuration_of j h) s k l c.found c.holds (rw (c.exact) member)

    IsConfiguring-after :
        IsConfiguring
          (host_configuration_update R (configuration_of j h) s).1
          job_after
          infos_after
          (h ∷ done)
    unfolding with_configuration
    IsConfiguring-after = record {
      found =
          rw posted (IsFound-again R laws j named job_after s c.same_ns c.same_id c.same_service);
      same_ns = c.same_ns;
      same_id = c.same_id;
      same_service = c.same_service;
      same_deployment = c.same_deployment;
      holds = refl;
      exact = keys_of-set h configured_info l (rw (c.exact) member) ∙ c.exact;
      reported = Reported-set h done l (rw (c.exact) apart) c.reported;
    }

    Settled-after : Settled job_after infos_after
    unfolding with_configuration
    Settled-after all = rw (AllConfigured-all_configured (values_of infos_after) all) refl

  record ConfiguredBy (s : R.State) (done : List String) : Type 0 where
    job : DeploymentJob
    infos : Infos
    configuring : IsConfiguring s job infos done
    settled : Settled job infos

  configure_from :
      (hs done : List String) (s : R.State)
      → ConfiguredBy s done
      → All (λ h. elem h known ≡ true) hs
      → ConfiguredBy (configure_all R j hs s) (onto hs done)
  unfolding configure_all onto
  configure_from [] done s c a = c
  configure_from (h ∷ hs) done s c a =
      configure_from hs (h ∷ done) (host_configuration_update R (configuration_of j h) s).1
        (record {
          job = job_after s c.job c.infos done h c.configuring a.0;
          infos = infos_after s c.job c.infos done h c.configuring a.0;
          configuring = IsConfiguring-after s c.job c.infos done h c.configuring a.0;
          settled = Settled-after s c.job c.infos done h c.configuring a.0;
        })
        a.1

  -- One job is found under the key, CONFIGURED and with its deployment as it was.
  pub record IsReady (s : R.State) (k : DeploymentJob) : Type 0 where
    pub found : IsFound R s j k
    pub same_ns : k.ns ≡ j.ns
    pub same_id : k.id ≡ j.id
    pub same_service : k.request.service.id ≡ j.request.service.id
    pub same_deployment : k.deployment ≡ j.deployment
    pub configured : k.status ≡ DeploymentJobStatus.configured

  IsReady-by_reports :
      (s : R.State) (hs : List String)
      → ConfiguredBy s (onto hs [])
      → All (λ k. elem k hs ≡ true) known
      → (k : DeploymentJob) × IsReady s k
  IsReady-by_reports s hs c a =
      let seen : All (λ k. elem k (onto hs []) ≡ true) known =
        All-imp (λ k e. ground (arith, elem-onto k hs [])) known a in
      (
        c.job,
        record {
          found = c.configuring.found;
          same_ns = c.configuring.same_ns;
          same_id = c.configuring.same_id;
          same_service = c.configuring.same_service;
          same_deployment = c.configuring.same_deployment;
          configured = c.settled (
              Reported-AllConfigured (onto hs []) c.infos c.configuring.reported
                (rw (c.configuring.exact) seen));
        },
      )

  start-IsConfiguring :
      (s : R.State) (l : Infos)
      → IsFound R s j j
      → j.configuration.status ≡ table l
      → keys_of l ≡ known
      → IsConfiguring s j l []
  start-IsConfiguring s l found holds exact = record {
    found = found;
    same_ns = refl;
    same_id = refl;
    same_service = refl;
    same_deployment = refl;
    holds = holds;
    exact = exact;
    reported = Reported-none l;
  }

  -- The first report settles the job.
  pub configure_all-IsReady :
      (s : R.State) (l : Infos) (h : String) (hs : List String)
      → IsFound R s j j
      → j.configuration.status ≡ table l
      → keys_of l ≡ known
      → All (λ x. elem x known ≡ true) (h ∷ hs)
      → All (λ x. elem x (h ∷ hs) ≡ true) known
      → (k : DeploymentJob) × IsReady (configure_all R j (h ∷ hs) s) k
  unfolding configure_all onto
  configure_all-IsReady s l h hs found holds exact members covers =
      let c : IsConfiguring s j l [] = start-IsConfiguring s l found holds exact in
      IsReady-by_reports _ (h ∷ hs)
        (configure_from hs (h ∷ []) (host_configuration_update R (configuration_of j h) s).1
          (record {
            job = job_after s j l [] h c members.0;
            infos = infos_after s j l [] h c members.0;
            configuring = IsConfiguring-after s j l [] h c members.0;
            settled = Settled-after s j l [] h c members.0;
          })
          members.1)
        covers
