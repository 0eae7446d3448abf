-- ===== src/RaftApp/Configure/Refines.antt =====
-- The effect of hostConfigurationUpdate.
use deployd.Prelude.{
  String, elem, ◌≡◌, refl, true, inl, inr, Option, none, some, List, [], ◌∷◌, ok, arith, Bool-cases,
}
use deployd.Prelude.GoMap.{GoMap, nil, table, set, keys_of, values_of, insert, lookup, lookup-elem}
use deployd.Entity.Job.{DeploymentJob, HostConfigurationStatusInfo}
use deployd.RaftApp.Messages.{ConfigurationUpdateRequest}
use deployd.RaftApp.Runtime.{Runtime, Error, handed_on, exactly_one}
use deployd.RaftApp.Lifecycle.{Step, AllConfigured, host_reports, host_completes}
use deployd.RaftApp.Effect.{Effect, advanced}
use deployd.RaftApp.Effect.Rules.{Effect-continue, continue-state, Loaded-exactly_one}
use deployd.RaftApp.Configure.{
  all_configured, require_key, check_host, with_configuration, host_configuration_update,
}

-- The loop's flag says that every entry is SUCCESS.
pub all_configured-AllConfigured :
    (is : List HostConfigurationStatusInfo) → all_configured is ≡ true → AllConfigured is
unfolding all_configured
all_configured-AllConfigured [] h = tt
all_configured-AllConfigured (i ∷ is) h = ground (arith, all_configured-AllConfigured is)

pub AllConfigured-all_configured :
    (is : List HostConfigurationStatusInfo) → AllConfigured is → all_configured is ≡ true
unfolding all_configured
AllConfigured-all_configured [] h = refl
AllConfigured-all_configured (i ∷ is) h = ground (arith, AllConfigured-all_configured is)

require_key-ok :
    (h : String) (o : Option HostConfigurationStatusInfo)
    → require_key h o ≡ ok tt
    → (i : HostConfigurationStatusInfo) × (o ≡ some i)
require_key-ok h none e = cc
require_key-ok h (some i) e = (i, refl)

written-Step :
    (j : DeploymentJob) (l : List (String × HostConfigurationStatusInfo)) (h : String)
    (i : HostConfigurationStatusInfo)
    → j.configuration.status ≡ table l
    → elem h (keys_of l) ≡ true
    → Step j (with_configuration j (table (set h i l)))
unfolding with_configuration
written-Step j l h i e k = elim (Bool-cases (all_configured (values_of (set h i l)))) [
  | inl all ↦ rw all (host_completes l h i e k (all_configured-AllConfigured _ all) refl)
  | inr some_not ↦
      rw some_not (host_reports l h i e k (λ a. cc (AllConfigured-all_configured _ a)) refl)
]

with_configuration-Step :
    (m : GoMap HostConfigurationStatusInfo) (j : DeploymentJob) (h : String)
    (i : HostConfigurationStatusInfo) (m' : GoMap HostConfigurationStatusInfo)
    → j.configuration.status ≡ m
    → check_host h m ≡ ok tt
    → insert {E = Error} h i m ≡ ok m'
    → Step j (with_configuration j m')
with_configuration-Step nil j h i m' e c n = cc
with_configuration-Step (table l) j h i m' e c n =
    let written : table (set h i l) ≡ m' = cc in
    let (w, found) = require_key-ok h (lookup h l) c in
    rw (← written) (written-Step j l h i e (lookup-elem h w l found))

module _ (R : Runtime) where
  pub host_configuration_update-Effect :
      (request : ConfigurationUpdateRequest) (s : R.State)
      → Effect R s (host_configuration_update R request s).1
  unfolding host_configuration_update
  host_configuration_update-Effect request s =
      Effect-continue (handed_on (R.get_jobs s request.ns (request.service ∷ []) request.job_id)) _
        λ js e. Effect-continue (exactly_one js) _ λ j g.
          Effect-continue (check_host request.host_name j.configuration.status) _ λ u c.
            Effect-continue
              (insert request.host_name
                (record { status = request.status; error_message = request.error_message })
                j.configuration.status)
              _
              λ m n.
                advanced j (with_configuration j m)
                  (Loaded-exactly_one R s request.ns request.service request.job_id js j e g)
                  (with_configuration-Step j.configuration.status j _ _ m refl c n)
                  (continue-state (handed_on (R.post_job (with_configuration j m) none s).0) _ _
                    (λ k. continue-state (handed_on (R.marshal_configuration _)) _ _ (λ b. refl)))
