-- ===== src/Http/Submission.antt =====
-- What SubmitJob submits, and when.
use deployd.Prelude.{
  Bool, true, false, ◌≡◌, ◌≢◌, refl, ◌⊎◌, inl, inr, List, [], ◌∷◌, ◌==◌, eq_iff, arith, Bool-cases,
}
use deployd.Entity.Service.{ServiceDefinition}
use deployd.Entity.Job.{SubmitDeploymentJobRequest, DeploymentJob}
use deployd.Http.{
  Fault, submitted, Ending, answered, Dependencies, is_too_fast, stamped, after_submit, with_jobs,
  with_services, submit_parsed, after_parse, submit_job,
}

abbrev pub is_submitted : Ending → Bool
is_submitted (answered (submitted id status)) = true
is_submitted _ = false

module _ {S : Type 0} (deps : Dependencies S) where
  -- The request may be submitted in state `s`, for the first service that is found.
  pub record IsAdmissible (dj : SubmitDeploymentJobRequest) (s : S) (service : ServiceDefinition)
      : Type 0 where
    pub named : dj.ns ≢ ""
    pub for_service : dj.service.id ≢ ""
    pub others : List ServiceDefinition
    pub defined : deps.get_services s dj.ns dj.service.id ≡ inr (service ∷ others)
    pub jobs : List DeploymentJob
    pub known : deps.get_jobs s dj.ns dj.service.id "" ≡ inr jobs
    pub calm : is_too_fast deps.checked_at jobs ≡ false

  abbrev pub Submits : SubmitDeploymentJobRequest → S → Ending × S → Type 0
  Submits dj s o =
      (service : ServiceDefinition) × IsAdmissible dj s service
      × (o ≡ after_submit deps (deps.submit (stamped dj service deps.published_at) s))

  abbrev pub Refuses : S → Ending × S → Type 0
  Refuses s o = (o.1 ≡ s) × (is_submitted o.0 ≡ false)

  with_jobs-Submits :
      (dj : SubmitDeploymentJobRequest) (s : S) (service : ServiceDefinition)
      (others : List ServiceDefinition) (r : Fault ⊎ List DeploymentJob)
      → dj.ns ≢ ""
      → dj.service.id ≢ ""
      → deps.get_services s dj.ns dj.service.id ≡ inr (service ∷ others)
      → deps.get_jobs s dj.ns dj.service.id "" ≡ r
      → Refuses s (with_jobs deps dj service r s) ⊎ Submits dj s (with_jobs deps dj service r s)
  with_jobs-Submits dj s service others (inl e) n i d k = inl (refl, refl)
  with_jobs-Submits dj s service others (inr jobs) n i d k =
      by_time (Bool-cases (is_too_fast deps.checked_at jobs))
    where
      by_time :
          (is_too_fast deps.checked_at jobs ≡ true) ⊎ (is_too_fast deps.checked_at jobs ≡ false)
          → Refuses s (with_jobs deps dj service (inr jobs) s)
            ⊎ Submits dj s (with_jobs deps dj service (inr jobs) s)
      by_time (inl e) = rw e (inl (refl, refl))
      by_time (inr e) = inr (
        service,
        record {
          named = n;
          for_service = i;
          others = others;
          defined = d;
          jobs = jobs;
          known = k;
          calm = e;
        },
        rw e refl,
      )

  with_services-Submits :
      (dj : SubmitDeploymentJobRequest) (s : S) (r : Fault ⊎ List ServiceDefinition)
      → dj.ns ≢ ""
      → dj.service.id ≢ ""
      → deps.get_services s dj.ns dj.service.id ≡ r
      → Refuses s (with_services deps dj r s) ⊎ Submits dj s (with_services deps dj r s)
  with_services-Submits dj s (inl e) n i d = inl (refl, refl)
  with_services-Submits dj s (inr []) n i d = inl (refl, refl)
  with_services-Submits dj s (inr (service ∷ others)) n i d =
      with_jobs-Submits dj s service others _ n i d refl

  submit_parsed-Submits :
      (dj : SubmitDeploymentJobRequest) (s : S)
      → Refuses s (submit_parsed deps dj s) ⊎ Submits dj s (submit_parsed deps dj s)
  unfolding submit_parsed
  submit_parsed-Submits dj s =
      by_names (Bool-cases (dj.ns == "")) (Bool-cases (dj.service.id == ""))
    where
      by_names :
          (dj.ns == "" ≡ true) ⊎ (dj.ns == "" ≡ false)
          → (dj.service.id == "" ≡ true) ⊎ (dj.service.id == "" ≡ false)
          → Refuses s (submit_parsed deps dj s) ⊎ Submits dj s (submit_parsed deps dj s)
      by_names (inl e) _ = rw e (inl (refl, refl))
      by_names (inr e) (inl f) = rw (e, f) (inl (refl, refl))
      by_names (inr e) (inr f) =
          rw (e, f)
            (with_services-Submits dj s _ (ground (arith, eq_iff dj.ns ""))
              (ground (arith, eq_iff dj.service.id "")) refl)

  module _ {Bytes : Type 0} (parse : Bytes → Fault ⊎ SubmitDeploymentJobRequest) where
    -- SubmitJob either leaves the state as it is and does not answer that a job is submitted, or the body
    -- is a request with a namespace and a service id, the service is defined, the latest job of the
    -- service is not younger than 10 seconds, and the one thing that is done is to submit the request
    -- with the first definition found, the time of submission and the secret that is the same for all.
    pub submit_job-Submits :
        (body : Fault ⊎ Bytes) (s : S)
        → Refuses s (submit_job deps parse body s)
          ⊎ ((payload : Bytes) × (dj : SubmitDeploymentJobRequest) × (body ≡ inr payload)
              × (parse payload ≡ inr dj)
              × Submits dj s (submit_job deps parse body s))
    unfolding submit_job
    submit_job-Submits (inl e) s = inl (refl, refl)
    submit_job-Submits (inr payload) s = parsed (parse payload) refl
      where
        parsed :
            (r : Fault ⊎ SubmitDeploymentJobRequest)
            → parse payload ≡ r
            → Refuses s (after_parse deps r s)
              ⊎ ((p : Bytes) × (dj : SubmitDeploymentJobRequest) × (◌≡◌ {A = Fault ⊎ Bytes}
                    (inr payload)
                    (inr p))
                  × (parse p ≡ inr dj)
                  × Submits dj s (after_parse deps r s))
        parsed (inl e) h = inl (refl, refl)
        parsed (inr dj) h = elim (submit_parsed-Submits dj s) [
          | inl refused ↦ inl refused
          | inr done ↦ inr (payload, dj, refl, h, done)
        ]
