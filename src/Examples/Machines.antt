-- ===== src/Examples/Machines.antt =====
-- A host in memory that meets what is assumed of a machine: every file is there, links are a function
-- from paths, and a started unit is active.
use text.Mathlib.TextPositions.{eq_refl}
use deployd.Prelude.{
  String, ◌<>◌, ◌≡◌, refl, Bool, true, false, not, ◌&&◌, ◌==◌, inr, none, some, if◌then◌else◌,
}
use deployd.HostDeploy.Calls.{Machine, IsPosix, apart, has_prefix}

pub record Disk : Type 0 where
  pub links : String → String
  pub active : Bool

abbrev pub put_link : String → String → Disk → Disk
put_link p t d = record d { links = λ q. if p == q then t else d.links q }

abbrev pub machine : Machine
machine = record {
  State = Disk;
  stat = λ d p. some (record { is_dir = true; mode = 64 });
  readlink = λ d p. d.links p;
  chmod = λ p m d. (none, d);
  mkdir_all = λ p d. (none, d);
  remove = λ p d. put_link p "" d;
  symlink = λ t p d. (none, put_link p t d);
  rename = λ p q d. (none, put_link q (d.links p) (put_link p "" d));
  connect = λ d. (none, d);
  stop_unit = λ u d. (none, record d { active = false });
  start_unit = λ u d. (none, record d { active = true });
  wait = λ d. (none, d);
  active_state = λ d u. inr (some (if d.active then "active" else "inactive"));
}

apart_ne : (p q : String) → apart p q ≡ true → (p == q) ≡ false
apart_ne p q h = by_both (p == q) (has_prefix (p <> "/") q) h
  where
    by_both : (a b : Bool) → (not a && not b) ≡ true → a ≡ false
    by_both false b h = refl
    by_both true b h = cc

pub machine-IsPosix : IsPosix machine
machine-IsPosix = record {
  readlink-chmod = λ p q m s. refl;
  readlink-mkdir_all = λ p q s. refl;
  readlink-connect = λ q s. refl;
  readlink-stop_unit = λ u q s. refl;
  readlink-start_unit = λ u q s. refl;
  readlink-wait = λ q s. refl;
  readlink-remove = λ p q s h. rw (apart_ne p q h) refl;
  readlink-symlink = λ t p q s h. rw (apart_ne p q h) refl;
  readlink-symlink_new = λ t p s h. rw (eq_refl p) refl;
  readlink-rename = λ p r q s h k. rw (apart_ne r q k, apart_ne p q h) refl;
  readlink-rename_new = λ p r s h. rw (eq_refl r) refl;
  readlink-rename_failed = λ p r q f s h. cc;
}

-- Nothing is deployed yet.
abbrev pub empty_disk : Disk
empty_disk = record { links = λ _. ""; active = false }
