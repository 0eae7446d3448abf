-- ===== src/Main/Ensures.antt =====
-- Rules for the actions of the start: from which layout to which an action leads, and how it may fail.
use mathlib.Core.Path.{subst}
use mathlib.Core.List.{append-nil, append_assoc}
use deployd.Prelude.{
  String, ◌≡◌, refl, sym, ap, Option, none, some, List, [], ◌∷◌, ◌++◌, true, Outcome, ok, err,
  panic, ◌>>◌, continue,
}
use deployd.Main.Setup.{
  Fault, TableConfig, Dependencies, Integration, Globals, Route, Process, Exit, log_panic,
  log_fatal, route_conflict, still_waiting, Libraries, Start,
}
use deployd.Main.Steps.{
  call_library, effect, require, assign, register_all, run_replica, checked, replica_started,
  with_base_url, with_usecases, start_consumer,
}
use deployd.Main.Router.{IsDocumented, TakesAll, are_free, are_free-TakesAll}

-- A failure that is an error of a library, reported by the program itself.
abbrev pub IsExternal : Exit → Type 0
IsExternal (log_panic f) = Unit
IsExternal (log_fatal f) = Unit
IsExternal (route_conflict r) = ⊥
IsExternal still_waiting = ⊥

-- What a process has set up.
pub record Layout : Type 0 where
  pub globals : Globals
  pub replicas : List (String × List TableConfig)
  pub routes : List Route
  pub consumer : Option Integration

abbrev pub At : {S : Type 0} → Layout → Process S → Type 0
At l p =
    (p.globals ≡ l.globals)
    × (p.replicas ≡ l.replicas)
    × (p.routes ≡ l.routes)
    × (p.consumer ≡ l.consumer)

-- Where the action returns, the state is as wanted; otherwise it has failed at a library.
abbrev pub Ensures : {S : Type 0} → (Process S → Type 0) → Outcome Exit Unit × Process S → Type 0
Ensures Q (ok a, p) = Q p
Ensures Q (err e, p) = IsExternal e
Ensures Q (panic x, p) = ⊥

pub record Leads {S : Type 0} (l : Layout) (m : Start S Unit) (k : Layout) : Type 0 where
  pub apply : (p : Process S) → At l p → Ensures (At k) (m p)

module _ {S : Type 0} {l k j : Layout} {m n : Start S Unit} where
  pub seq : Leads l m k → Leads k n j → Leads l (m >> n) j
  seq f g = record { apply = λ p h. go (m p) (f.apply p h) }
    where
      go :
          (r : Outcome Exit Unit × Process S)
          → Ensures (At k) r
          → Ensures (At j) (continue r.0 (λ _. n) r.1)
      go (ok a, q) h = g.apply q h
      go (err e, q) h = h
      go (panic x, q) h = h

module _ {S : Type 0} {l : Layout} (exit : Fault → Exit)
    (ext : (f : Fault) → IsExternal (exit f)) where
  pub call_library-Leads : (f : S → Option Fault × S) → Leads l (call_library exit f) l
  call_library-Leads f = record { apply = λ p h. go p h (f p.world) }
    where
      go : (p : Process S) → At l p → (r : Option Fault × S) → Ensures (At l) (checked exit r p)
      go p h (none, s) = h
      go p h (some x, s) = ext x

  pub require-Leads : (o : Option Fault) → Leads {S = S} l (require exit o) l
  require-Leads none = record { apply = λ p h. h }
  require-Leads (some x) = record { apply = λ p h. ext x }

  pub run_replica-Leads :
      (L : Libraries S) (id : String) (tables : List TableConfig)
      → Leads l (run_replica L exit id tables) (record l { replicas = (id, tables) ∷ l.replicas })
  run_replica-Leads L id tables = record { apply = λ p h. go p h (L.run_replica id tables p.world) }
    where
      go :
          (p : Process S)
          → At l p
          → (r : Option Fault × S)
          → Ensures
              (At (record l { replicas = (id, tables) ∷ l.replicas }))
              (replica_started exit id tables r p)
      go p h (none, s) = (h.0, ap (λ t. (id, tables) ∷ t) h.1, h.2, h.3)
      go p h (some x, s) = ext x

module _ {S : Type 0} {l : Layout} where
  pub effect-Leads : (f : S → S) → Leads l (effect f) l
  effect-Leads f = record { apply = λ p h. h }

  pub assign-Leads :
      (f : Dependencies → Dependencies)
      → Leads {S = S} l
          (assign f)
          (record l { globals = record l.globals { usecases = f l.globals.usecases } })
  assign-Leads f = record {
    apply = λ p h. (ap (λ (v : Globals). record v { usecases = f v.usecases }) h.0, h.1, h.2, h.3);
  }

  pub start_consumer-Leads :
      (i : Integration) → Leads {S = S} l (start_consumer i) (record l { consumer = some i })
  start_consumer-Leads i = record { apply = λ p h. (h.0, h.1, h.2, refl) }

  pub with_base_url-Leads :
      {k : Layout} (f : String → Start S Unit)
      → Leads l (f l.globals.public_base_url) k
      → Leads l (with_base_url f) k
  with_base_url-Leads {k} f g = record {
    apply = λ p h.
        subst (λ b. Ensures (At k) (f b p)) (ap (λ (v : Globals). v.public_base_url) (sym h.0))
          (g.apply p h);
  }

  pub with_usecases-Leads :
      {k : Layout} (f : Dependencies → Start S Unit)
      → Leads l (f l.globals.usecases) k
      → Leads l (with_usecases f) k
  with_usecases-Leads {k} f g = record {
    apply = λ p h.
        subst (λ b. Ensures (At k) (f b p)) (ap (λ (v : Globals). v.usecases) (sym h.0))
          (g.apply p h);
  }

module _ {S : Type 0} (L : Libraries S) where
  registered :
      (l : Layout) (new : List Route) (p : Process S)
      → At l p
      → TakesAll L l.routes new
      → Ensures (At (record l { routes = l.routes ++ new })) (register_all L new p)
  unfolding register_all
  registered l [] p h t = (h.0, h.1, rw (append-nil l.routes) h.2, h.3)
  registered l (r ∷ new) p h t =
      let accepted : L.takes p.routes r ≡ true = rw (h.2) t.0 in
      let q : Process S = record p { routes = p.routes ++ r ∷ [] } in
      let next : Ensures (At (record l { routes = (l.routes ++ r ∷ []) ++ new }))
          (register_all L new q) =
        registered (record l { routes = l.routes ++ r ∷ [] }) new q
          (h.0, h.1, ap (λ t. t ++ r ∷ []) h.2, h.3) t.1 in
      let moved : Ensures (At (record l { routes = l.routes ++ r ∷ new })) (register_all L new q) =
        subst (λ t. Ensures (At (record l { routes = t })) (register_all L new q))
          (append_assoc l.routes (r ∷ []) new) next in
      rw accepted moved

  pub register_all-Leads :
      {l : Layout} (new : List Route)
      → TakesAll L l.routes new
      → Leads l (register_all L new) (record l { routes = l.routes ++ new })
  register_all-Leads {l} new t = record { apply = λ p h. registered l new p h t }

  pub serve-Leads :
      {l : Layout} (routes : String → List Route)
      → IsDocumented L
      → are_free l.routes (routes l.globals.public_base_url) ≡ true
      → Leads l
          (with_base_url (λ base. register_all L (routes base)))
          (record l { routes = l.routes ++ routes l.globals.public_base_url })
  serve-Leads {l} routes law free =
      let new : List Route = routes l.globals.public_base_url in
      with_base_url-Leads (λ base. register_all L (routes base))
        (register_all-Leads new (are_free-TakesAll L l.routes new law free))
