-- ===== src/Controller/Believe.antt =====
-- Who confirms a deployment for the user, and who goes on with it.
use deployd.Prelude.{
  ℕ, String, ◌≡◌, refl, sym, ap, ◌∙◌, Bool, true, false, not, List, [], ◌∷◌, ◌++◌, ◌==◌, eq_iff,
  elem, Distinct, Bool-cases, if◌then◌else◌, inl, inr, arith,
}
use text.Mathlib.TextPositions.{eq_refl}
use deployd.Entity.Job.{is_deployed}
use deployd.RaftApp.Messages.{ConfigurationUpdateResponse, HostRestartServiceUpdateResponse}
use deployd.Controller.{
  Effect, confirm_restart_service, confirmation_for, confirm_deployment_as_user_if_enabled,
  continue_restart_service_as_user_if_enabled,
}

-- What all hosts together set off, host by host.
abbrev pub gather : (String → List Effect) → List String → List Effect
gather f [] = []
gather f (h ∷ hs) = f h ++ gather f hs

-- All hosts hear that every host is configured.
abbrev pub confirmations : ℕ → List String → ConfigurationUpdateResponse → List Effect
confirmations now hosts event =
    gather (λ h. confirm_deployment_as_user_if_enabled h now event) hosts

-- All hosts hear that a service has been restarted.
abbrev pub continuations : ℕ → List String → HostRestartServiceUpdateResponse → List Effect
continuations now hosts event =
    gather (λ h. continue_restart_service_as_user_if_enabled h now event) hosts

-- The two tests of a host, and what it sends if both pass.
abbrev two_tests : Bool → Bool → List Effect → List Effect
two_tests b t c = if not b then [] else if not t then [] else c

two_tests_pass : (b t : Bool) (c : List Effect) → b ≡ true → t ≡ true → two_tests b t c ≡ c
two_tests_pass true true c h k = refl
two_tests_pass true false c h k = cc
two_tests_pass false t c h k = cc

two_tests_fail : (b t : Bool) (c : List Effect) → t ≡ false → two_tests b t c ≡ []
two_tests_fail true true c h = cc
two_tests_fail true false c h = refl
two_tests_fail false t c h = refl

-- A first test that fails leaves the rest.
first_test_fails : (d : Bool) (x : List Effect) → d ≡ false → (if d then [] else x) ≡ x
first_test_fails false x h = refl
first_test_fails true x h = cc

elem-head :
    (x y : String) (ys : List String)
    → elem x (y ∷ ys) ≡ false
    → ((x == y) ≡ false) × (elem x ys ≡ false)
elem-head x y ys h = (ground (arith, eq_iff x y, eq_iff y x), ground arith)

-- One host sends, and the others send nothing.
module _ (f : String → List Effect) (trigger : String)
    (miss : (h : String) → (trigger == h) ≡ false → f h ≡ []) where
  gather-none : (hosts : List String) → elem trigger hosts ≡ false → gather f hosts ≡ []
  gather-none [] h = refl
  gather-none (x ∷ hs) h =
      let (other, rest) = elem-head trigger x hs h in
      ap (λ l. l ++ gather f hs) (miss x other) ∙ gather-none hs rest

  gather-once :
      (e : Effect) (hosts : List String)
      → f trigger ≡ e ∷ []
      → Distinct hosts
      → elem trigger hosts ≡ true
      → gather f hosts ≡ e ∷ []
  gather-once e [] hit d m = cc
  gather-once e (x ∷ hs) hit d m = elim (Bool-cases (trigger == x)) [
    | inl h ↦
        let same : trigger ≡ x = (eq_iff trigger x).0 h in
        ap (λ l. l ++ gather f hs) (ap f (sym same) ∙ hit)
        ∙ ap (λ l. e ∷ l) (gather-none hs (rw same d.0))
    | inr h ↦
        let there : elem trigger hs ≡ true = ground (arith, eq_iff trigger x, eq_iff x trigger) in
        ap (λ l. l ++ gather f hs) (miss x h) ∙ gather-once e hs hit d.1 there
  ]

module _ (now : ℕ) (event : ConfigurationUpdateResponse) where
  -- Among distinct hosts, the one that set off the event being one of them, a job that is believed in
  -- is confirmed once, by that host and for that job.
  pub confirmations-once :
      (hosts : List String)
      → Distinct hosts
      → elem event.trigger_host hosts ≡ true
      → event.job.request.is_believe ≡ true
      → confirmations now hosts event
        ≡ confirm_restart_service (confirmation_for event.trigger_host now event.job) ∷ []
  unfolding confirm_deployment_as_user_if_enabled
  confirmations-once hosts d m b =
      gather-once (λ h. confirm_deployment_as_user_if_enabled h now event) event.trigger_host
        (λ h e. two_tests_fail event.job.request.is_believe _ _ e)
        (confirm_restart_service (confirmation_for event.trigger_host now event.job)) hosts
        (two_tests_pass event.job.request.is_believe _ _ b (eq_refl event.trigger_host)) d m

module _ (now : ℕ) (event : HostRestartServiceUpdateResponse) where
  -- Among distinct hosts, the one that set off the event being one of them, a job that is believed in
  -- and not yet DEPLOYED is confirmed once more, by that host and for that job.
  pub continuations-once :
      (hosts : List String)
      → Distinct hosts
      → elem event.trigger_host hosts ≡ true
      → event.job.request.is_believe ≡ true
      → is_deployed event.job.status ≡ false
      → continuations now hosts event
        ≡ confirm_restart_service (confirmation_for event.trigger_host now event.job) ∷ []
  unfolding continue_restart_service_as_user_if_enabled
  continuations-once hosts d m b going =
      gather-once (λ h. continue_restart_service_as_user_if_enabled h now event) event.trigger_host
        (λ h e. first_test_fails _ _ going ∙ two_tests_fail event.job.request.is_believe _ _ e)
        (confirm_restart_service (confirmation_for event.trigger_host now event.job)) hosts
        (first_test_fails _ _ going
          ∙ two_tests_pass event.job.request.is_believe _ _ b (eq_refl event.trigger_host))
        d m
