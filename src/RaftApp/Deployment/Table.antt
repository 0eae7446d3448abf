-- ===== src/RaftApp/Deployment/Table.antt =====
-- A table of the hosts' configurations, of which some have reported success.
use deployd.Prelude.{
  String, ◌≡◌, refl, true, false, ◌==◌, inl, inr, List, [], ◌∷◌, All, Distinct, elem, arith, eq_iff,
  Bool-cases, none,
}
use deployd.Prelude.GoMap.{set, keys_of, values_of}
use deployd.Entity.Job.{HostConfigurationStatus, HostConfigurationStatusInfo}
use deployd.RaftApp.Lifecycle.{AllConfigured}

abbrev pub Infos : Type 0
Infos = List (String × HostConfigurationStatusInfo)

abbrev pub configured_info : HostConfigurationStatusInfo
configured_info = record { error_message = none; status = HostConfigurationStatus.success }

-- The entries of these hosts say success.
abbrev pub Reported : List String → Infos → Type 0
Reported hosts [] = Unit
Reported hosts ((k, v) ∷ l) =
    (elem k hosts ≡ true → v.status ≡ HostConfigurationStatus.success) × Reported hosts l

pub Reported-none : (l : Infos) → Reported [] l
Reported-none [] = tt
Reported-none ((k, v) ∷ l) = ((λ h. cc), Reported-none l)

one_more :
    (h k : String) (hosts : List String) (v : HostConfigurationStatusInfo)
    → (k == h) ≡ false
    → (elem k hosts ≡ true → v.status ≡ HostConfigurationStatus.success)
    → elem k (h ∷ hosts) ≡ true
    → v.status ≡ HostConfigurationStatus.success
one_more h k hosts v apart f e = f (ground (arith, eq_iff k h, eq_iff h k))

Reported-apart :
    (h : String) (hosts : List String) (l : Infos)
    → elem h (keys_of l) ≡ false
    → Reported hosts l
    → Reported (h ∷ hosts) l
Reported-apart h hosts [] e r = tt
Reported-apart h hosts ((k, v) ∷ l) e r =
    (one_more h k hosts v (ground arith) r.0, Reported-apart h hosts l (ground arith) r.1)

-- One more host reports success.
pub Reported-set :
    (h : String) (hosts : List String) (l : Infos)
    → Distinct (keys_of l)
    → Reported hosts l
    → Reported (h ∷ hosts) (set h configured_info l)
unfolding set
Reported-set h hosts [] d r = ((λ e. refl), tt)
Reported-set h hosts ((k, v) ∷ l) d r = elim (Bool-cases (k == h)) [
  | inl same ↦
      let e : k ≡ h = (eq_iff k h).0 same in
      rw same ((λ x. refl), Reported-apart h hosts l (rw e at d.0) r.1)
  | inr apart ↦ rw apart (one_more h k hosts v apart r.0, Reported-set h hosts l d.1 r.1)
]

-- All hosts have.
pub Reported-AllConfigured :
    (hosts : List String) (l : Infos)
    → Reported hosts l
    → All (λ k. elem k hosts ≡ true) (keys_of l)
    → AllConfigured (values_of l)
Reported-AllConfigured hosts [] r a = tt
Reported-AllConfigured hosts ((k, v) ∷ l) r a = (r.0 a.0, Reported-AllConfigured hosts l r.1 a.1)
