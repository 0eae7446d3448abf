-- ===== src/HostDeploy/Recovery.antt =====
-- What rollback reaches when its calls succeed.
use deployd.Prelude.{
  String, ◌≡◌, ◌≢◌, refl, sym, ap, ◌∙◌, Option, none, some, inl, inr, ◌==◌, eq_iff, Bool-cases,
}
use deployd.HostDeploy.{switch_symlink_atomic, restore, rollback, start_service}
use deployd.HostDeploy.Calls.{Machine, IsPosix, Fault}
use deployd.HostDeploy.Switch.{IsApart, Switched, switch-link, switch-other, start_service-readlink}

module _ (M : Machine) (posix : IsPosix M) where
  -- A previous target that is not empty is switched to.
  restore-switch :
      (link prev : String) (s : M.State)
      → prev ≢ ""
      → restore M link prev s ≡ (switch_symlink_atomic M link prev s).1
  restore-switch link prev s some_target = elim (Bool-cases (prev == "")) [
    | inl e ↦ absurd (some_target ((eq_iff prev "").0 e))
    | inr e ↦ rw e refl
  ]

  to_target :
      (link target old : String) (r : Option Fault × M.State)
      → Switched M posix link target r old
      → r.0 ≡ none
      → M.readlink r.1 link ≡ target
  to_target link target old r (inl (_, h)) e = h
  to_target link target old r (inr (f, g, h)) e = absurd (clash f (sym e ∙ g))
    where
      clash : (f : Fault) → ¬ (none ≡ some f)
      clash f h = cc

  -- On a machine with POSIX links, where the two links are apart and had targets: if both switches of
  -- rollback succeed, both links are at their previous targets in the end.
  pub rollback-restores :
      (l m old_l old_m unit : String) (s : M.State)
      → IsApart l m
      → IsApart m l
      → old_l ≢ ""
      → old_m ≢ ""
      → (switch_symlink_atomic M l old_l s).0 ≡ none
      → (switch_symlink_atomic M m old_m (switch_symlink_atomic M l old_l s).1).0 ≡ none
      → (M.readlink (rollback M l old_l m old_m unit s) l ≡ old_l)
        × (M.readlink (rollback M l old_l m old_m unit s) m ≡ old_m)
  unfolding rollback
  rollback-restores l m old_l old_m unit s a b p q e f =
      let t = (switch_symlink_atomic M l old_l s).1 in
      let u = (switch_symlink_atomic M m old_m t).1 in
      let same : restore M m old_m (restore M l old_l s) ≡ u =
        ap (λ x. restore M m old_m x) (restore-switch l old_l s p) ∙ restore-switch m old_m t q in
      (
        ap (λ x. M.readlink (start_service M unit x).1 l) same
            ∙ start_service-readlink M posix unit l u
            ∙ switch-other M posix m old_m l t b.tmp_there b.there
            ∙ to_target l old_l _ (switch_symlink_atomic M l old_l s)
                (switch-link M posix l old_l s a.tmp_here) e,
        ap (λ x. M.readlink (start_service M unit x).1 m) same
            ∙ start_service-readlink M posix unit m u
            ∙ to_target m old_m _ (switch_symlink_atomic M m old_m t)
                (switch-link M posix m old_m t b.tmp_here) f,
      )
