-- ===== src/Systemd/Table.antt =====
-- What the table holds and what was broadcast, against the units that systemd reported.
use deployd.Prelude.{
  String, Bool, true, false, ◌≡◌, refl, sym, ap, ◌∙◌, Option, none, some, List, [], ◌∷◌, ◌++◌, ◌==◌,
  arith, map, if◌then◌else◌,
}
use deployd.Prelude.GoMap.{lookup, set, lookup-set}
use deployd.Systemd.{
  DbusUnitStatus, UnitFields, Status, Outcome, Event, changes, error, done, row_for, to_model,
  zero_status, clear_conflict, is_service, list_units, changed_units, watch, initialize_listener,
  and_broadcast, then_rows,
}

abbrev pub or_else : Option DbusUnitStatus → Option DbusUnitStatus → Option DbusUnitStatus
or_else none o = o
or_else (some m) o = some m

-- The last status of a name in a list of statuses.
unfoldable pub latest : String → List DbusUnitStatus → Option DbusUnitStatus
latest k [] = none
latest k (m ∷ ms) = or_else (latest k ms) (if m.name == k then some m else none)

pub or_else-none : (o : Option DbusUnitStatus) → or_else o none ≡ o
or_else-none none = refl
or_else-none (some m) = refl

pub or_else_assoc :
    (a b c : Option DbusUnitStatus) → or_else (or_else a b) c ≡ or_else a (or_else b c)
or_else_assoc none b c = refl
or_else_assoc (some m) b c = refl

pub latest-append :
    (k : String) (ms ns : List DbusUnitStatus)
    → latest k (ms ++ ns) ≡ or_else (latest k ns) (latest k ms)
unfolding latest
latest-append k [] ns = sym (or_else-none (latest k ns))
latest-append k (m ∷ ms) ns =
    rw (latest-append k ms ns) (or_else_assoc (latest k ns) (latest k ms) _)

module _ {U : Type 0} (fields : UnitFields U) where
  -- The services among the units, as they are stored.
  unfoldable pub services : List U → List DbusUnitStatus
  services [] = []
  services (u ∷ us) = if is_service fields u then to_model fields u ∷ services us else services us

  -- The units that a channel's message holds.
  unfoldable pub present : List (Option U) → List U
  present [] = []
  present (none ∷ us) = present us
  present (some u ∷ us) = u ∷ present us

  -- Every unit reported after the listing, until the context is done.
  unfoldable pub reported : List (Event U) → List U
  unfolding present
  reported [] = []
  reported (changes us ∷ events) = present us ++ reported events
  reported (error e ∷ events) = reported events
  reported (done ∷ events) = []

-- What a loop leaves of `status` after it has seen the statuses `ms`.
abbrev pub Follows : List DbusUnitStatus → Status → Outcome → Type 0
Follows ms status o =
    ((k : String) → lookup k o.0 ≡ or_else (latest k ms) (lookup k status)) × (o.1 ≡ map row_for ms)

clear_conflict-set :
    (k j : String) (m : DbusUnitStatus) (o : Option DbusUnitStatus) (status : Status)
    → lookup j (set k m (clear_conflict k o status)) ≡ (if k == j then some m else lookup j status)
clear_conflict-set k j m none status = lookup-set k j m status
clear_conflict-set k j m (some n) status =
    ground (arith, lookup-set k j m (set k zero_status status), lookup-set k j zero_status status)

pub fold_if :
    (m : DbusUnitStatus) (b : Bool) (a c : Option DbusUnitStatus)
    → or_else a (if b then some m else c) ≡ or_else (or_else a (if b then some m else none)) c
fold_if m true none c = refl
fold_if m false none c = refl
fold_if m b (some n) c = refl

saved-Follows :
    (m : DbusUnitStatus) (ms : List DbusUnitStatus) (status saved : Status) (o : Outcome)
    → ((k : String) → lookup k saved ≡ (if m.name == k then some m else lookup k status))
    → Follows ms saved o
    → Follows (m ∷ ms) status (and_broadcast m o)
unfolding latest
saved-Follows m ms status saved o e f = ((λ k. found k), ap (λ rows. row_for m ∷ rows) f.1)
  where
    found :
        (k : String)
        → lookup k o.0
          ≡ or_else (or_else (latest k ms) (if m.name == k then some m else none)) (lookup k status)
    found k =
        f.0 k
        ∙ ap (or_else (latest k ms)) (e k)
        ∙ fold_if m (m.name == k) (latest k ms) (lookup k status)

if_Follows :
    (b : Bool) (ms ns : List DbusUnitStatus) (status : Status) (o p : Outcome)
    → Follows ms status o
    → Follows ns status p
    → Follows (if b then ms else ns) status (if b then o else p)
if_Follows true ms ns status o p f g = f
if_Follows false ms ns status o p f g = g

module _ {U : Type 0} (fields : UnitFields U) where
  list_units-Follows :
      (us : List U) (status : Status)
      → Follows (services fields us) status (list_units fields us status)
  unfolding list_units services latest
  list_units-Follows [] status = ((λ k. refl), refl)
  list_units-Follows (u ∷ us) status =
      let m = to_model fields u in
      if_Follows (is_service fields u) _ _ status _ _
        (saved-Follows m (services fields us) status _ _
          (λ k. clear_conflict-set m.name k m (lookup m.name status) status)
          (list_units-Follows us _))
        (list_units-Follows us status)

  changed_units-Follows :
      (us : List (Option U)) (status : Status)
      → Follows (services fields (present fields us)) status (changed_units fields us status)
  unfolding changed_units services present latest
  changed_units-Follows [] status = ((λ k. refl), refl)
  changed_units-Follows (none ∷ us) status = changed_units-Follows us status
  changed_units-Follows (some u ∷ us) status =
      let m = to_model fields u in
      if_Follows (is_service fields u) _ _ status _ _
        (saved-Follows m (services fields (present fields us)) status _ _
          (λ k. lookup-set m.name k m status) (changed_units-Follows us _))
        (changed_units-Follows us status)

  services-append :
      (us vs : List U) → services fields (us ++ vs) ≡ services fields us ++ services fields vs
  unfolding services
  services-append [] vs = refl
  services-append (u ∷ us) vs = ground (arith, services-append us vs)

map-append :
    (ms ns : List DbusUnitStatus) → map row_for (ms ++ ns) ≡ map row_for ms ++ map row_for ns
map-append [] ns = refl
map-append (m ∷ ms) ns = ap (λ rows. row_for m ∷ rows) (map-append ms ns)

then-Follows :
    (ms ns : List DbusUnitStatus) (status : Status) (o p : Outcome)
    → Follows ms status o
    → Follows ns o.0 p
    → Follows (ms ++ ns) status (then_rows o.1 p)
then-Follows ms ns status o p f g = ((λ k. found k), rw (map-append ms ns, f.1, g.1) refl)
  where
    found : (k : String) → lookup k p.0 ≡ or_else (latest k (ms ++ ns)) (lookup k status)
    found k =
        g.0 k
        ∙ ap (or_else (latest k ns)) (f.0 k)
        ∙ sym (
            ap (λ a. or_else a (lookup k status)) (latest-append k ms ns)
            ∙ or_else_assoc (latest k ns) (latest k ms) _)

module _ {U : Type 0} (fields : UnitFields U) where
  watch-Follows :
      (events : List (Event U)) (status : Status)
      → Follows (services fields (reported fields events)) status (watch fields events status)
  unfolding watch reported services latest
  watch-Follows [] status = ((λ k. refl), refl)
  watch-Follows (changes us ∷ events) status =
      rw (services-append fields (present fields us) (reported fields events)) (
        then-Follows _ _ status _ _ (changed_units-Follows fields us status)
          (watch-Follows events _))
  watch-Follows (error e ∷ events) status = watch-Follows events status
  watch-Follows (done ∷ events) status = ((λ k. refl), refl)

  -- The table holds under each name the last status that systemd reported of a service of that name, of
  -- the listed units and the changes until the context is done, and nothing under any other name. Each
  -- report of a service is broadcast once, in the order of the reports.
  pub initialize_listener-Follows :
      (units : List U) (events : List (Event U)) (k : String)
      → let seen = services fields (units ++ reported fields events) in
        (lookup k (initialize_listener fields units events).0 ≡ latest k seen)
        × ((initialize_listener fields units events).1 ≡ map row_for seen)
  unfolding initialize_listener lookup
  initialize_listener-Follows units events k =
      let all =
        then-Follows _ _ [] (list_units fields units []) _ (list_units-Follows fields units [])
          (watch-Follows events _) in
      rw (services-append fields units (reported fields events)) (all.0 k ∙ or_else-none _, all.1)
