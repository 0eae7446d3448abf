-- ===== src/HostDeploy/Replace.antt =====
-- Steps 7 to 11 of Deploy: each link goes from its old target to the new one, or back.
use deployd.Prelude.{
  String, ◌≡◌, refl, ◌∙◌, sym, ap, Bool, true, false, Option, none, some, ◌⊎◌, inl, inr, ◌==◌,
  eq_iff, ◌>>=◌, ◌>>◌,
}
use deployd.HostDeploy.{
  DeployConfig, release_dir, env_release_dir, current_link, etc_env_link, unit_name, after,
  switch_symlink_atomic, switch_links, after_env, start_and_verify, started, verified, is_active,
  active_of, replace_links, restore, rollback, start_service, external,
}
use deployd.HostDeploy.Calls.{Machine, IsPosix, Fault}
use deployd.HostDeploy.Switch.{
  start_service-readlink, switch-other, switch-link, IsApart, IsBetween-restore, IsBetween-rollback,
}
use deployd.HostDeploy.Ends.{
  Ends, Ends-continue, none-some, LinksOld, LinksNew, LinksBetween, IsLive,
}

module _ (M : Machine) (posix : IsPosix M) (c : DeployConfig)
    (l_apart : IsApart (current_link c) (etc_env_link c))
    (m_apart : IsApart (etc_env_link c) (current_link c)) (old_build old_env : String) where
  abbrev Between : M.State → Type 0
  Between = LinksBetween M c old_build old_env

  abbrev Old : M.State → Type 0
  Old = LinksOld M c old_build old_env

  abbrev New : M.State → Type 0
  New = LinksNew M c

  abbrev Live : M.State → Type 0
  Live = IsLive M c

  env_switched :
      (t : M.State)
      → M.readlink t (current_link c) ≡ release_dir c
      → M.readlink t (etc_env_link c) ≡ old_env
      → let r = switch_symlink_atomic M (etc_env_link c) (env_release_dir c) t in
        Ends New Between (after_env M c old_build r.0 r.1)
  env_switched t is_new is_old =
      let r = switch_symlink_atomic M (etc_env_link c) (env_release_dir c) t in
      let kept =
        switch-other M posix (etc_env_link c) (env_release_dir c) (current_link c) t
          m_apart.tmp_there m_apart.there
        ∙ is_new in
      elim (switch-link M posix (etc_env_link c) (env_release_dir c) t m_apart.tmp_here) [
        | inl (e, h) ↦ by_error r.0 (λ _. (kept, h)) (λ f e'. absurd (none-some f (sym e ∙ e')))
        | inr (f, e, h) ↦
            by_error r.0 (λ e'. absurd (none-some f (sym e' ∙ e)))
              (λ _ _.
                IsBetween-restore M posix _ _ _ _ _ _ r.1 l_apart
                  (record { first_link = inr kept; second_link = inl (h ∙ is_old) }))
      ]
    where
      by_error :
          (e : Option Fault) {u : M.State}
          → (e ≡ none → New u)
          → ((f : Fault) → e ≡ some f → Between (restore M (current_link c) old_build u))
          → Ends New Between (after_env M c old_build e u)
      by_error none h k = h refl
      by_error (some f) h k = k f refl

  Old-Between : (t : M.State) → Old t → Between t
  Old-Between t (h, k) = record { first_link = inl h; second_link = inl k }

  New-Between : (t : M.State) → New t → Between t
  New-Between t (h, k) = record { first_link = inr h; second_link = inr k }

  first_switched : (t : M.State) → Old t → Ends New Between (switch_links M c old_build t)
  unfolding switch_links
  first_switched t (h, k) =
      let r = switch_symlink_atomic M (current_link c) (release_dir c) t in
      let kept =
        switch-other M posix (current_link c) (release_dir c) (etc_env_link c) t l_apart.tmp_there
          l_apart.there
        ∙ k in
      elim (switch-link M posix (current_link c) (release_dir c) t l_apart.tmp_here) [
        | inl (e, x) ↦ by_error r.0 (λ _. (x, kept)) (λ f e'. absurd (none-some f (sym e ∙ e')))
        | inr (f, e, x) ↦
            by_error r.0 (λ e'. absurd (none-some f (sym e' ∙ e))) (λ _ _. (x ∙ h, kept))
      ]
    where
      by_error :
          (e : Option Fault) {u : M.State}
          → (e ≡ none
              → (M.readlink u (current_link c) ≡ release_dir c)
                × (M.readlink u (etc_env_link c) ≡ old_env))
          → ((f : Fault) → e ≡ some f → Old u)
          → Ends New Between (
              (after M e external >>= λ _ s.
              let (e, t) = switch_symlink_atomic M (etc_env_link c) (env_release_dir c) s in
              after_env M c old_build e t)
                u)
      by_error none {u} h k = let (x, y) = h refl in env_switched u x y
      by_error (some f) {u} h k = Old-Between u (k f refl)

  verified-Ends :
      (t : M.State)
      → New t
      → Ends Live Between (verified M c old_build old_env (is_active M t (unit_name c)) t)
  unfolding is_active
  verified-Ends t new = go (M.active_state t (unit_name c)) refl
    where
      back :
          Between (rollback M (current_link c) old_build (etc_env_link c) old_env (unit_name c) t)
      back = IsBetween-rollback M posix (unit_name c) t l_apart m_apart (New-Between t new)

      judged :
          (state : String) (b : Bool)
          → (b ≡ true → state ≡ "active")
          → M.active_state t (unit_name c) ≡ inr (some state)
          → Ends Live Between (verified M c old_build old_env (inr b) t)
      judged state true is e = (new, e ∙ ap (λ x. inr (some x)) (is refl))
      judged state false is e = back

      go :
          (r : Fault ⊎ Option String)
          → M.active_state t (unit_name c) ≡ r
          → Ends Live Between (verified M c old_build old_env (active_of M r) t)
      go (inl f) e = back
      go (inr none) e = back
      go (inr (some state)) e =
          judged state (state == "active") (λ h. (eq_iff state "active").0 h) e

  started-Ends :
      (t : M.State) → New t → Ends Live Between (start_and_verify M c old_build old_env t)
  unfolding start_and_verify
  started-Ends t (h, k) =
      let r = start_service M (unit_name c) t in
      by_error r.0 r.1 (
        start_service-readlink M posix (unit_name c) (current_link c) t ∙ h,
        start_service-readlink M posix (unit_name c) (etc_env_link c) t ∙ k,
      )
    where
      by_error :
          (e : Option Fault) (u : M.State)
          → New u
          → Ends Live Between (started M c old_build old_env e u)
      by_error none u new = verified-Ends u new
      by_error (some f) u new =
          IsBetween-rollback M posix (unit_name c) u l_apart m_apart (New-Between u new)

  links_replaced :
      (t : M.State)
      → Old t
      → Ends Live Between ((switch_links M c old_build >> start_and_verify M c old_build old_env) t)
  links_replaced t old =
      Ends-continue Live New Between (switch_links M c old_build)
        (λ _. start_and_verify M c old_build old_env) t (first_switched t old)
        (λ _ u new. started-Ends u new)

  pub replaced : (t : M.State) → Old t → Ends Live Between (replace_links M c t)
  unfolding replace_links
  replaced t old = rw (old.0, old.1) (links_replaced t old)
