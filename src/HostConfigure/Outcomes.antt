-- ===== src/HostConfigure/Outcomes.antt =====
-- How Execute ends: with which status, and what a return without an error says of the host.
use deployd.Prelude.{
  Bool, true, false, ◌≡◌, refl, Option, none, some, Outcome, ok, err, panic, Action, continue, ◌>>◌,
}
use deployd.Entity.Job.{HostConfigurationStatus, host_configured}
use deployd.HostConfigure.Copy.{Fault}
use deployd.HostConfigure.Calls.{HostMachine, Call}
use deployd.HostConfigure

abbrev pub is_still_copying : HostConfigure.ExecuteError → Bool
is_still_copying HostConfigure.still_copying = true
is_still_copying _ = false

-- `P` holds after a return; with an error the status is not success, Copy had its rounds, and nothing
-- panics.
abbrev pub Finishes :
    {S : Type 0}
    → (HostConfigurationStatus × S → Type 0)
    → Outcome HostConfigure.ExecuteError Unit × (HostConfigurationStatus × S)
    → Type 0
Finishes P (ok a, t) = P t
Finishes P (err e, t) = (is_still_copying e ≡ false) × (host_configured t.0 ≡ false)
Finishes P (panic p, t) = ⊥

abbrev pub Running : {S : Type 0} → HostConfigurationStatus × S → Type 0
Running t = host_configured t.0 ≡ false

abbrev pub StepOn : Type 0 → Type 0
StepOn S = Action (HostConfigurationStatus × S) HostConfigure.ExecuteError Unit

module _ {S : Type 0} where
  -- From a status that is not success on, the step finishes with `P`.
  pub record Leads (P : HostConfigurationStatus × S → Type 0) (m : StepOn S) : Type 0 where
    pub leads : (t : HostConfigurationStatus × S) → Running t → Finishes P (m t)

  abbrev pub Keeps : StepOn S → Type 0
  Keeps m = Leads Running m

  -- A step that runs on, and what follows.
  pub and_then :
      {P : HostConfigurationStatus × S → Type 0} {m n : StepOn S}
      → Keeps m
      → Leads P n
      → Leads P (m >> n)
  and_then {P} {m} {n} a b = record { leads = λ t h. go (m t) (a.leads t h) }
    where
      go :
          (r : Outcome HostConfigure.ExecuteError Unit × (HostConfigurationStatus × S))
          → Finishes Running r
          → Finishes P (continue r.0 (λ _. n) r.1)
      go (ok a, u) h = b.leads u h
      go (err e, u) h = h
      go (panic p, u) h = h

  -- The same after a step that leads to more than a status.
  pub and_finally :
      {Q P : HostConfigurationStatus × S → Type 0} {m : StepOn S} (n : StepOn S)
      → Leads Q m
      → ((t : HostConfigurationStatus × S) → Q t → Finishes P (n t))
      → Leads P (m >> n)
  and_finally {Q} {P} {m} n a b = record { leads = λ t h. go (m t) (a.leads t h) }
    where
      go :
          (r : Outcome HostConfigure.ExecuteError Unit × (HostConfigurationStatus × S))
          → Finishes Q r
          → Finishes P (continue r.0 (λ _. n) r.1)
      go (ok a, u) h = b u h
      go (err e, u) h = h
      go (panic p, u) h = h

module _ (H : HostMachine) where
  pub attempt-Keeps : (call : Call H.State) → Keeps (HostConfigure.attempt H call)
  attempt-Keeps call = record { leads = λ t h. go t.0 (call t.1) h }
    where
      go :
          (status : HostConfigurationStatus) (d : Option Fault × H.State)
          → host_configured status ≡ false
          → Finishes Running (
              HostConfigure.after H d.0
                (λ f. HostConfigure.failed H (HostConfigure.external f))
                (status, d.1))
      go status (none, s) h = h
      go status (some f, s) h = (refl, refl)

  pub attempt_as-Keeps :
      (wrap : Fault → HostConfigure.ExecuteError) (call : Call H.State)
      → ((f : Fault) → is_still_copying (wrap f) ≡ false)
      → Keeps (HostConfigure.attempt_as H wrap call)
  attempt_as-Keeps wrap call w = record { leads = λ t h. go t.0 (call t.1) h }
    where
      go :
          (status : HostConfigurationStatus) (d : Option Fault × H.State)
          → host_configured status ≡ false
          → Finishes Running (HostConfigure.after H d.0 (λ f t. (err (wrap f), t)) (status, d.1))
      go status (none, s) h = h
      go status (some f, s) h = (w f, h)

  pub check_ctx-Keeps : Keeps (HostConfigure.check_ctx H)
  check_ctx-Keeps = record { leads = λ t h. go t.0 t.1 (H.ctx_err t.1) h }
    where
      go :
          (status : HostConfigurationStatus) (s : H.State) (d : Option Fault)
          → host_configured status ≡ false
          → Finishes Running (
              HostConfigure.after H d
                (λ f.
                  HostConfigure.failing H HostConfigurationStatus.cancelled
                    (HostConfigure.external f))
                (status, s))
      go status s none h = h
      go status s (some f) h = (refl, refl)
