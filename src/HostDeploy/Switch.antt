-- ===== src/HostDeploy/Switch.antt =====
-- What switchSymlinkAtomic, the restart of the unit and rollback do to the links.
use deployd.Prelude.{
  if◌then◌else◌, String, ◌<>◌, ◌≡◌, refl, ◌∙◌, Bool, true, false, Option, none, some, ◌⊎◌, inl, inr,
  ◌==◌, Option-cases,
}
use deployd.HostDeploy.{
  switch_symlink_atomic, then_call, start_service, stop_service, restore, rollback,
}
use deployd.HostDeploy.Calls.{Machine, IsPosix, Fault, Call, apart}

-- Neither the link `l` nor its temporary name lies on the path of the link `m`.
pub record IsApart (l m : String) : Type 0 where
  pub tmp_here : apart (l <> ".tmp") l ≡ true
  pub tmp_there : apart (l <> ".tmp") m ≡ true
  pub there : apart l m ≡ true

module _ (M : Machine) (posix : IsPosix M) where
  -- A rename on a failed symlink is not tried.
  then_call-readlink :
      (e : Option Fault) (call : Call M.State) (q : String) (s : M.State)
      → M.readlink (call s).1 q ≡ M.readlink s q
      → M.readlink (then_call M e call s).1 q ≡ M.readlink s q
  then_call-readlink none call q s h = h
  then_call-readlink (some f) call q s h = refl

  pub start_service-readlink :
      (unit q : String) (s : M.State) → M.readlink (start_service M unit s).1 q ≡ M.readlink s q
  unfolding start_service
  start_service-readlink unit q s =
      then_call-readlink (M.start_unit unit s).0 M.wait q (M.start_unit unit s).1
        (posix.readlink-wait q _)
      ∙ posix.readlink-start_unit unit q s

  pub stop_service-readlink :
      (unit q : String) (s : M.State) → M.readlink (stop_service M unit s).1 q ≡ M.readlink s q
  unfolding stop_service
  stop_service-readlink unit q s =
      then_call-readlink (M.stop_unit unit s).0 M.wait q (M.stop_unit unit s).1
        (posix.readlink-wait q _)
      ∙ posix.readlink-stop_unit unit q s

  -- Links apart from the one switched stay.
  pub switch-other :
      (link target q : String) (s : M.State)
      → apart (link <> ".tmp") q ≡ true
      → apart link q ≡ true
      → M.readlink (switch_symlink_atomic M link target s).1 q ≡ M.readlink s q
  unfolding switch_symlink_atomic
  switch-other link target q s from_tmp from_link =
      let tmp = link <> ".tmp" in
      let t = M.remove tmp s in
      then_call-readlink (M.symlink target tmp t).0 (M.rename tmp link) q (M.symlink target tmp t).1
        (posix.readlink-rename tmp link q _ from_tmp from_link)
      ∙ posix.readlink-symlink target tmp q t from_tmp
      ∙ posix.readlink-remove tmp q s from_tmp

  abbrev pub Switched : String → String → Option Fault × M.State → String → Type 0
  Switched link target r old =
      ((r.0 ≡ none) × (M.readlink r.1 link ≡ target))
      ⊎ ((f : Fault) × (r.0 ≡ some f) × (M.readlink r.1 link ≡ old))

  renamed :
      (e : Option Fault) (link target : String) (s : M.State)
      → (e ≡ none → M.readlink s (link <> ".tmp") ≡ target)
      → Switched link target (then_call M e (M.rename (link <> ".tmp") link) s) (M.readlink s link)
  renamed (some f) link target s h = inr (f, refl, refl)
  renamed none link target s h = elim (Option-cases (M.rename (link <> ".tmp") link s).0) [
    | inl e ↦ inl (e, posix.readlink-rename_new (link <> ".tmp") link s e ∙ h refl)
    | inr (f, e) ↦ inr (f, e, posix.readlink-rename_failed (link <> ".tmp") link link f s e)
  ]

  -- The link is switched, or a failure left it as it was: there is no state in between.
  pub switch-link :
      (link target : String) (s : M.State)
      → apart (link <> ".tmp") link ≡ true
      → Switched link target (switch_symlink_atomic M link target s) (M.readlink s link)
  unfolding switch_symlink_atomic
  switch-link link target s from_tmp =
      let tmp = link <> ".tmp" in
      let t = M.remove tmp s in
      let old =
        posix.readlink-symlink target tmp link t from_tmp
        ∙ posix.readlink-remove tmp link s from_tmp in
      elim (renamed (M.symlink target tmp t).0 link target (M.symlink target tmp t).1
        (posix.readlink-symlink_new target tmp t)) [
          | inl (e, new) ↦ inl (e, new)
          | inr (f, e, same) ↦ inr (f, e, same ∙ old)
        ]

if_cases : {A : Type 0} (P : A → Type 0) (b : Bool) {x y : A} → P x → P y → P (if b then x else y)
if_cases P true px py = px
if_cases P false px py = py

-- The two links that Deploy switches, with the targets that each may have.
module _ (M : Machine) (l m old_l new_l old_m new_m : String) where
  pub record IsBetween (s : M.State) : Type 0 where
    pub first_link : (M.readlink s l ≡ old_l) ⊎ (M.readlink s l ≡ new_l)
    pub second_link : (M.readlink s m ≡ old_m) ⊎ (M.readlink s m ≡ new_m)

module _ (M : Machine) (posix : IsPosix M) (l m old_l new_l old_m new_m : String) where
  along : {q a b c : String} → q ≡ c → (c ≡ a) ⊎ (c ≡ b) → (q ≡ a) ⊎ (q ≡ b)
  along e (inl h) = inl (e ∙ h)
  along e (inr h) = inr (e ∙ h)

  pub IsBetween-same :
      (s t : M.State)
      → M.readlink t l ≡ M.readlink s l
      → M.readlink t m ≡ M.readlink s m
      → IsBetween M l m old_l new_l old_m new_m s
      → IsBetween M l m old_l new_l old_m new_m t
  IsBetween-same s t e f h = record {
    first_link = along e h.first_link;
    second_link = along f h.second_link;
  }

  pub IsBetween-restore :
      (s : M.State)
      → IsApart l m
      → IsBetween M l m old_l new_l old_m new_m s
      → IsBetween M l m old_l new_l old_m new_m (restore M l old_l s)
  IsBetween-restore s a h =
      if_cases (IsBetween M l m old_l new_l old_m new_m) (old_l == "") h (record {
        first_link = elim (switch-link M posix l old_l s a.tmp_here) [
          | inl (_, x) ↦ inl x
          | inr (_, _, x) ↦ along x h.first_link
        ];
        second_link = along (switch-other M posix l old_l m s a.tmp_there a.there) h.second_link;
      })

-- The links may be named in either order.
module _ (M : Machine) {l m old_l new_l old_m new_m : String} where
  pub IsBetween-swap :
      (s : M.State)
      → IsBetween M l m old_l new_l old_m new_m s
      → IsBetween M m l old_m new_m old_l new_l s
  IsBetween-swap s h = record { first_link = h.second_link; second_link = h.first_link }

module _ (M : Machine) {l m old_l new_l old_m new_m : String} where
  pub IsBetween-rollback :
      (posix : IsPosix M) (unit : String) (s : M.State)
      → IsApart l m
      → IsApart m l
      → IsBetween M l m old_l new_l old_m new_m s
      → IsBetween M l m old_l new_l old_m new_m (rollback M l old_l m old_m unit s)
  unfolding rollback
  IsBetween-rollback posix unit s a b h =
      let t = restore M l old_l s in
      let u = restore M m old_m t in
      let after_l = IsBetween-restore M posix l m old_l new_l old_m new_m s a h in
      let after_m =
        IsBetween-restore M posix m l old_m new_m old_l new_l t b (IsBetween-swap M t after_l) in
      IsBetween-same M posix l m old_l new_l old_m new_m u _
        (start_service-readlink M posix unit l u) (start_service-readlink M posix unit m u)
        (IsBetween-swap M u after_m)
