-- ===== src/Main/Steps.antt =====
-- The actions of the start (cmd/deployd/main.go): a call of a library with the way to end at its error, an
-- assignment of the package's variables, and the registration of routes.
use deployd.Prelude.{
  String, Bool, true, false, Option, none, some, List, [], ◌∷◌, ◌++◌, Outcome, ok, err, panic,
}
use deployd.Main.Setup.{
  Fault, TableConfig, Dependencies, Integration, Route, Process, Exit, route_conflict, Libraries,
  Start,
}

module _ {S : Type 0} where
  -- A call of a library, and the way to end where it gives an error.
  abbrev pub checked : (Fault → Exit) → Option Fault × S → Process S → Outcome Exit Unit × Process S
  checked exit (none, s) p = (ok tt, record p { world = s })
  checked exit (some f, s) p = (err (exit f), record p { world = s })

  abbrev pub call_library : (Fault → Exit) → (S → Option Fault × S) → Start S Unit
  call_library exit f p = checked exit (f p.world) p

  abbrev pub effect : (S → S) → Start S Unit
  effect f p = (ok tt, record p { world = f p.world })

  abbrev pub require : (Fault → Exit) → Option Fault → Start S Unit
  require exit none p = (ok tt, p)
  require exit (some f) p = (err (exit f), p)

  -- An assignment of variables.
  abbrev pub assign : (Dependencies → Dependencies) → Start S Unit
  assign f p = (ok tt, record p { globals = record p.globals { usecases = f p.globals.usecases } })

  -- What is registered on the router; a conflict panics.
  abbrev pub taken : Bool → Route → Process S → Outcome Exit Unit × Process S
  taken true r p = (ok tt, record p { routes = p.routes ++ r ∷ [] })
  taken false r p = (err (route_conflict r), p)

  abbrev pub register : Libraries S → Route → Start S Unit
  register L r p = taken (L.takes p.routes r) r p

  abbrev pub then_register :
      Outcome Exit Unit
      → (Process S → Outcome Exit Unit × Process S)
      → Process S
      → Outcome Exit Unit × Process S
  then_register (ok a) f p = f p
  then_register (err e) f p = (err e, p)
  then_register (panic e) f p = (panic e, p)

  unfoldable pub register_all : Libraries S → List Route → Start S Unit
  register_all L [] p = (ok tt, p)
  register_all L (r ∷ rs) p = let q = register L r p in then_register q.0 (register_all L rs) q.1

  -- raft_runner.RunReplica with a content application of the tables.
  abbrev pub replica_started :
      (Fault → Exit)
      → String
      → List TableConfig
      → Option Fault × S
      → Process S
      → Outcome Exit Unit × Process S
  replica_started exit id tables (none, s) p =
      (ok tt, record p { world = s; replicas = (id, tables) ∷ p.replicas })
  replica_started exit id tables (some f, s) p = (err (exit f), record p { world = s })

  abbrev pub run_replica : Libraries S → (Fault → Exit) → String → List TableConfig → Start S Unit
  run_replica L exit id tables p =
      replica_started exit id tables (L.run_replica id tables p.world) p

  abbrev pub with_base_url : (String → Start S Unit) → Start S Unit
  with_base_url f p = f p.globals.public_base_url p

  abbrev pub with_usecases : (Dependencies → Start S Unit) → Start S Unit
  with_usecases f p = f p.globals.usecases p

  abbrev pub start_consumer : Integration → Start S Unit
  start_consumer i p = (ok tt, record p { consumer = some i })
