-- ===== src/RaftApp/Validity.antt =====
-- What holds of every stored job, and is enough for no handler to panic on it.
use Prim.Native.Nat.{◌≤◌, ◌<◌, ◌+◌}
use deployd.Prelude.{
  ℕ, String, ◌≡◌, refl, sym, ap, ◌∙◌, true, some, List, [], ◌∷◌, arith, All, All-imp, All_get_elem?,
  length, elem,
}
use deployd.Prelude.GoMap.{table, set, keys_of, keys_of-set, lookup-elem}
use deployd.Entity.Job.{
  DeploymentJob, DeploymentJobStatus, HostDeploymentStatusInfo, HostConfigurationStatusInfo,
}
use deployd.RaftApp.Lifecycle.{
  Step, AtHost, IsNew, cancel, host_reports, host_completes, begin, confirm, fail, note, next,
  finish,
}

pub record IsValid (j : DeploymentJob) : Type 0 where
  pub table_of : List (String × HostDeploymentStatusInfo)
  pub holds : j.deployment.status ≡ table table_of
  pub configuration_of : List (String × HostConfigurationStatusInfo)
  pub configures : j.configuration.status ≡ table configuration_of
  pub has_hosts : 0 < length j.deployment.host_order
  pub covered : All (λ h. elem h (keys_of table_of) ≡ true) j.deployment.host_order
  pub bounded : length (keys_of table_of) ≤ length j.deployment.host_order
  pub placed :
      j.status ≡ DeploymentJobStatus.deploying
      → (n : ℕ) × (j.deployment.current_order ≡ some n) × (n < length (keys_of table_of))

pub IsNew-IsValid : {j : DeploymentJob} → IsNew j → IsValid j
IsNew-IsValid {j} v = record {
  table_of = v.table_of;
  holds = v.holds;
  configuration_of = v.configuration_of;
  configures = v.configures;
  has_hosts = v.has_hosts;
  covered = All-imp (λ h e. lookup-elem h _ v.table_of e) j.deployment.host_order v.pending;
  bounded = v.none_extra;
  placed = λ e. cc (v.queued);
}

nonempty :
    (hosts ks : List String) → 0 < length hosts → All (λ h. elem h ks ≡ true) hosts → 0 < length ks
nonempty [] ks p c = elim p [ ]
nonempty (h ∷ hosts) [] p c = cc (c.0)
nonempty (h ∷ hosts) (k ∷ ks) p c = omega arith

-- The table after the write of a host in turn: its keys are those of before.
module _ {j : DeploymentJob} (v : IsValid j) {n : ℕ} {h : String}
    {l : List (String × HostDeploymentStatusInfo)} (at : AtHost j n h l) where
  same_table : v.table_of ≡ l
  same_table = cc (v.holds, at.holds)

  pub keys_written : (i : HostDeploymentStatusInfo) → keys_of (set h i l) ≡ keys_of v.table_of
  keys_written i =
      keys_of-set h i l
        (rw same_table at (All_get_elem? _ j.deployment.host_order n v.covered at.in_turn))
      ∙ ap keys_of (sym same_table)

pub Step-IsValid : {j k : DeploymentJob} → Step j k → IsValid j → IsValid k
Step-IsValid {j} (cancel p q e) v = rw e (record {
  table_of = v.table_of;
  holds = v.holds;
  configuration_of = v.configuration_of;
  configures = v.configures;
  has_hosts = v.has_hosts;
  covered = v.covered;
  bounded = v.bounded;
  placed = λ d. cc (d);
})
Step-IsValid {j} (host_reports l h i c m a e) v = rw e (record {
  table_of = v.table_of;
  holds = v.holds;
  configuration_of = set h i l;
  configures = refl;
  has_hosts = v.has_hosts;
  covered = v.covered;
  bounded = v.bounded;
  placed = v.placed;
})
Step-IsValid {j} (host_completes l h i c m a e) v = rw e (record {
  table_of = v.table_of;
  holds = v.holds;
  configuration_of = set h i l;
  configures = refl;
  has_hosts = v.has_hosts;
  covered = v.covered;
  bounded = v.bounded;
  placed = λ d. cc (d);
})
Step-IsValid {j} (begin agent c e) v = rw e (record {
  table_of = v.table_of;
  holds = v.holds;
  configuration_of = v.configuration_of;
  configures = v.configures;
  has_hosts = v.has_hosts;
  covered = v.covered;
  bounded = v.bounded;
  placed = λ d. (0, refl, nonempty j.deployment.host_order _ v.has_hosts v.covered);
})
Step-IsValid {j} (confirm d e) v = rw e v
Step-IsValid {j} (fail n h l i at f e) v = rw e (record {
  table_of = set h i l;
  holds = refl;
  configuration_of = v.configuration_of;
  configures = v.configures;
  has_hosts = v.has_hosts;
  covered = rw (keys_written v at i) v.covered;
  bounded = rw (keys_written v at i) v.bounded;
  placed = λ d. cc (d);
})
Step-IsValid {j} (note n h l i at f g e) v = rw e (record {
  table_of = set h i l;
  holds = refl;
  configuration_of = v.configuration_of;
  configures = v.configures;
  has_hosts = v.has_hosts;
  covered = rw (keys_written v at i) v.covered;
  bounded = rw (keys_written v at i) v.bounded;
  placed = rw (keys_written v at i) v.placed;
})
Step-IsValid {j} (next n h l i at f more e) v = rw e (record {
  table_of = set h i l;
  holds = refl;
  configuration_of = v.configuration_of;
  configures = v.configures;
  has_hosts = v.has_hosts;
  covered = rw (keys_written v at i) v.covered;
  bounded = rw (keys_written v at i) v.bounded;
  placed = λ d. (n + 1, refl, more);
})
Step-IsValid {j} (finish n h l i at f last e) v = rw e (record {
  table_of = set h i l;
  holds = refl;
  configuration_of = v.configuration_of;
  configures = v.configures;
  has_hosts = v.has_hosts;
  covered = rw (keys_written v at i) v.covered;
  bounded = rw (keys_written v at i) v.bounded;
  placed = λ d. cc (d);
})
