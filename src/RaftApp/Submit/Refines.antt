-- ===== src/RaftApp/Submit/Refines.antt =====
-- The effect of userSubmitJob: the job that it posts is a new one.
use Prim.Native.Nat.{◌≤◌, ◌<◌, ◌+◌}
use mathlib.Core.List.{append_assoc, append-nil}
use deployd.Prelude.{
  ℕ, String, ◌≡◌, refl, sym, ap, ◌∙◌, true, false, inl, inr, Option, none, some, List, [], ◌∷◌,
  ◌++◌, ok, arith, length, elem, All-of_elem, Distinct, eq_iff, Bool-cases, if◌then◌else◌,
}
use deployd.Prelude.GoMap.{
  set, keys_of, keys_of-set_end, elem-set, lookup, lookup-set, length-set_le,
}
use deployd.Entity.Host.{Host}
use deployd.Entity.Job.{
  SubmitDeploymentJobRequest, HostDeploymentStatusInfo, HostDeploymentStatus,
  HostConfigurationStatus, HostConfigurationStatusInfo,
}
use deployd.Entity.Instance.{ServiceInstanceHost}
use deployd.RaftApp.Runtime.{Runtime, handed_on}
use deployd.RaftApp.Lifecycle.{IsNew}
use deployd.RaftApp.Effect.{Effect, created}
use deployd.RaftApp.Effect.Rules.{Effect-continue, continue-state}
use deployd.RaftApp.Submit.{
  random_port, has_number, new_instance, new_instances, make_instances, choose_instances, hosts_of,
  pending_deployment, pending_configuration, new_job, user_submit_job,
}

abbrev pending_info : HostDeploymentStatusInfo
pending_info = record { error_message = none; status = HostDeploymentStatus.pending }

abbrev unconfigured_info : HostConfigurationStatusInfo
unconfigured_info = record { error_message = none; status = HostConfigurationStatus.pending }

-- Every host gets the entry, and the other entries stay.
lookup-pending_deployment :
    (h : String) (hosts : List String) (m : List (String × HostDeploymentStatusInfo))
    → lookup h (pending_deployment hosts m)
      ≡ (if elem h hosts then some pending_info else lookup h m)
unfolding pending_deployment
lookup-pending_deployment h [] m = refl
lookup-pending_deployment h (x ∷ hosts) m =
    ground (
      arith,
      lookup-pending_deployment h hosts (set x pending_info m),
      lookup-set x h pending_info m,
    )

lookup-pending_configuration :
    (h : String) (hosts : List String) (m : List (String × HostConfigurationStatusInfo))
    → lookup h (pending_configuration hosts m)
      ≡ (if elem h hosts then some unconfigured_info else lookup h m)
unfolding pending_configuration
lookup-pending_configuration h [] m = refl
lookup-pending_configuration h (x ∷ hosts) m = ground (
  arith,
  lookup-pending_configuration h hosts (set x unconfigured_info m),
  lookup-set x h unconfigured_info m,
)

length-pending_deployment :
    (hosts : List String) (m : List (String × HostDeploymentStatusInfo))
    → length (keys_of (pending_deployment hosts m)) ≤ length (keys_of m) + length hosts
unfolding pending_deployment
length-pending_deployment [] m = omega arith
length-pending_deployment (x ∷ hosts) m =
    omega (
      arith,
      length-pending_deployment hosts (set x pending_info m),
      length-set_le x pending_info m,
    )

-- Distinct hosts go behind the keys that are there, in their order.
keys_of-pending_deployment :
    (hosts : List String) (m : List (String × HostDeploymentStatusInfo))
    → Distinct hosts
    → ((h : String) → elem h hosts ≡ true → elem h (keys_of m) ≡ false)
    → keys_of (pending_deployment hosts m) ≡ keys_of m ++ hosts
unfolding pending_deployment
keys_of-pending_deployment [] m d f = sym (append-nil (keys_of m))
keys_of-pending_deployment (x ∷ hosts) m d f =
    let at_end : keys_of (set x pending_info m) ≡ keys_of m ++ (x ∷ []) =
      keys_of-set_end x pending_info m (f x (ground (arith, eq_iff x x))) in
    keys_of-pending_deployment hosts (set x pending_info m) d.1
      (λ h e. rw elem-set (ground (arith, eq_iff x h, f h, d.0, e)))
    ∙ rw at_end (append_assoc (keys_of m) (x ∷ []) hosts)

-- The job that is posted is new, whatever its hosts.
pub new_job-IsNew :
    (request : SubmitDeploymentJobRequest) (hosts : List String)
    → 0 < length hosts
    → IsNew (new_job request hosts)
unfolding new_job
new_job-IsNew request hosts some_host = record {
  queued = refl;
  unnamed = refl;
  not_started = refl;
  has_hosts = some_host;
  table_of = pending_deployment hosts [];
  holds = refl;
  pending = All-of_elem _ hosts λ h e. rw (lookup-pending_deployment h hosts [], e) refl;
  none_extra = omega (arith, length-pending_deployment hosts []);
  in_order = λ d. keys_of-pending_deployment hosts [] d (λ h e. refl);
  configuration_of = pending_configuration hosts [];
  configures = refl;
  unconfigured = All-of_elem _ hosts λ h e. rw (lookup-pending_configuration h hosts [], e) refl;
}

-- The names of the target hosts, in their order.
abbrev pub target_names : List (Option Host) → List String
target_names [] = []
target_names (none ∷ ts) = target_names ts
target_names (some t ∷ ts) = t.host ∷ target_names ts

pub hosts_of-append :
    (xs ys : List ServiceInstanceHost) → hosts_of (xs ++ ys) ≡ hosts_of xs ++ hosts_of ys
hosts_of-append [] ys = refl
hosts_of-append (x ∷ xs) ys = ap (λ l. x.host ∷ l) (hosts_of-append xs ys)

-- The loop keeps the order of the targets.
new_instances-hosts :
    (port : ℕ) (request : SubmitDeploymentJobRequest) (seen : List ℕ)
    (out : List ServiceInstanceHost) (targets : List (Option Host)) (is : List ServiceInstanceHost)
    → new_instances port request seen out targets ≡ ok is
    → hosts_of is ≡ hosts_of out ++ target_names targets
unfolding new_instances new_instance
new_instances-hosts port request seen out [] is h = rw append-nil (ap hosts_of (cc))
new_instances-hosts port request seen out (none ∷ ts) is h = cc
new_instances-hosts port request seen out (some t ∷ ts) is h =
    elim (Bool-cases (has_number t.raft_config.replica_id seen)) [
      | inl dup ↦ cc (rw dup at h)
      | inr fresh ↦
          new_instances-hosts port request (t.raft_config.replica_id ∷ seen)
            (out ++ (new_instance port request t ∷ [])) ts is (rw fresh at h)
          ∙ rw hosts_of-append (append_assoc (hosts_of out) _ (target_names ts))
    ]

make_instances-hosts :
    (draw : ℕ) (request : SubmitDeploymentJobRequest) (targets : List (Option Host))
    (is : List ServiceInstanceHost)
    → make_instances draw request targets ≡ ok is
    → (hosts_of is ≡ target_names targets) × (0 < length (target_names targets))
unfolding make_instances new_instances
make_instances-hosts draw request [] is h = cc
make_instances-hosts draw request (some t ∷ ts) is h =
    (new_instances-hosts (random_port draw) request [] [] (some t ∷ ts) is h, omega arith)
make_instances-hosts draw request (none ∷ ts) is h = cc

-- The hosts of the instances that are there, or else the targets in their order.
abbrev pub chosen_hosts : List ServiceInstanceHost → List (Option Host) → List String
chosen_hosts [] targets = target_names targets
chosen_hosts (i ∷ is) targets = hosts_of (i ∷ is)

-- If instances are chosen, their hosts are those of the instances that were there, or else the names of
-- the targets that are not null, in their order; and there is at least one.
pub choose_instances-hosts :
    (draw : ℕ) (request : SubmitDeploymentJobRequest) (found is : List ServiceInstanceHost)
    → choose_instances draw request found ≡ ok is
    → (hosts_of is ≡ chosen_hosts found request.target_hosts) × (0 < length (hosts_of is))
unfolding choose_instances
choose_instances-hosts draw request [] is h =
    let (same, some_host) = make_instances-hosts draw request request.target_hosts is h in
    (same, rw same some_host)
choose_instances-hosts draw request (i ∷ found) is h =
    let same : i ∷ found ≡ is = cc in rw (← same) (refl, omega arith)

module _ (R : Runtime) where
  pub user_submit_job-Effect :
      (draw : ℕ) (request : SubmitDeploymentJobRequest) (s : R.State)
      → Effect R s (user_submit_job R draw request s).1
  unfolding user_submit_job
  user_submit_job-Effect draw request s =
      Effect-continue
        (handed_on (R.get_instances s request.service.ns (request.service.id ∷ []) "")) _
        λ found e. Effect-continue (choose_instances draw request found) _ λ is c.
          created (new_job request (hosts_of is)) (some (("author", "kmg") ∷ []))
            (new_job-IsNew request (hosts_of is) (choose_instances-hosts draw request found is c).1)
            (continue-state (handed_on (R.post_job (new_job request (hosts_of is)) _ s).0) _ _
              λ k. continue-state (handed_on (R.marshal_submit _)) _ _ λ b. refl)
