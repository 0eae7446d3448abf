-- ===== src/RaftApp/Configure/Safety.antt =====
-- hostConfigurationUpdate never panics: its own test guards the write to the map.
use deployd.Prelude.{String, ◌≡◌, Option, none, some, [], ◌∷◌, ok}
use deployd.Prelude.GoMap.{GoMap, nil, table, insert}
use deployd.Entity.Job.{HostConfigurationStatusInfo}
use deployd.RaftApp.Messages.{ConfigurationUpdateRequest}
use deployd.RaftApp.Runtime.{Runtime, Error, handed_on, exactly_one}
use deployd.RaftApp.Safe.{
  Safe, Safe-ok, Safe-err, Safe-handed_on, Safe-exactly_one, Safe-continue, Safe-store_job,
  Safe-reply,
}
use deployd.RaftApp.Configure.{
  require_key, check_host, with_configuration, host_configuration_update,
}

require_key-Safe : (h : String) (o : Option HostConfigurationStatusInfo) → Safe (require_key h o)
require_key-Safe h none = Safe-err _
require_key-Safe h (some i) = Safe-ok _

check_host-Safe : (h : String) (m : GoMap HostConfigurationStatusInfo) → Safe (check_host h m)
check_host-Safe h nil = Safe-err _
check_host-Safe h (table l) = require_key-Safe h _

insert-Safe :
    (h : String) (i : HostConfigurationStatusInfo) (m : GoMap HostConfigurationStatusInfo)
    → check_host h m ≡ ok tt
    → Safe (insert {E = Error} h i m)
insert-Safe h i nil e = cc
insert-Safe h i (table l) e = Safe-ok _

module _ (R : Runtime) where
  pub host_configuration_update-Safe :
      (request : ConfigurationUpdateRequest) (s : R.State)
      → Safe (host_configuration_update R request s).0
  unfolding host_configuration_update
  host_configuration_update-Safe request s =
      Safe-continue (handed_on (R.get_jobs s request.ns (request.service ∷ []) request.job_id)) _ s
        (Safe-handed_on _)
        λ js e. Safe-continue (exactly_one js) _ s (Safe-exactly_one js) λ j g.
          Safe-continue (check_host request.host_name j.configuration.status) _ s
            (check_host-Safe _ _)
            λ u c.
              Safe-continue
                (insert request.host_name
                  (record { status = request.status; error_message = request.error_message })
                  j.configuration.status)
                _ s (insert-Safe _ _ _ c)
                λ m n.
                  Safe-store_job R (with_configuration j m) none _ s
                    λ k t _. Safe-reply R (R.marshal_configuration _) _ t
