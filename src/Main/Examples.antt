-- ===== src/Main/Examples.antt =====
-- A start on libraries that all answer, with a store that is ready at the third post; and a shutdown with
-- one websocket.
use deployd.Prelude.{
  ℕ, zero, suc, ◌+◌, ◌≤◌, Bool, true, false, ◌≡◌, refl, ◌⊎◌, inl, inr, ok, Option, none, some, List,
  [], ◌∷◌, All, arith, ltb, if◌then◌else◌, ◌==◌,
}
use deployd.Prelude.Decimal.{format_uint}
use deployd.Entity.Host.{Host}
use deployd.ServiceSetup.{Environment}
use deployd.Main.Setup.{Fault, Route, Process, Libraries}
use deployd.Main.Modules.{enable_modules}
use deployd.Main.Router.{conflicts}
use deployd.Main.Ensures.{Ensures}
use deployd.Main.Ready.{at_start}
use deployd.Main.HostInformation.{post_host, ReadyWithin, EndedAfter, post_host-EndedAfter}
use deployd.Main.Serves.{IsFit, enable_modules-IsFit}
use deployd.Main.ReplicaId.{get_replica_id, current_host}
use deployd.Main.ReplicaId.RoundTrip.{get_replica_id-format_uint}
use deployd.Main.ReplicaId.Named.{IsNamed, current_host-IsNamed}
use deployd.Main.Shutdown.{
  State, begin, unstarted, ended, done, absent, Reach, here, next, interrupt, group_done, register,
  listen, take_over, count, leave, shutdown, shutdown_returns, sockets_done,
}
use deployd.Main.Shutdown.Invariant.{Reach-IsClosed}
use deployd.Main.Shutdown.Progress.{CanEnd, Reach-CanEnd}
use deployd.Main.Startup.{Surroundings}

-- A router that refuses what conflicts.
takes_free : List Route → Route → Bool
takes_free [] r = true
takes_free (q ∷ rs) r = if conflicts q r then false else takes_free rs r

takes_free_lem :
    (rs : List Route) (r : Route) → All (λ q. conflicts q r ≡ false) rs → takes_free rs r ≡ true
unfolding takes_free
takes_free_lem [] r h = refl
takes_free_lem (q ∷ rs) r h = rw (h.0) (takes_free_lem rs r h.1)

-- The state counts the posts.
abbrev libraries : Libraries ℕ
libraries = record {
  run_replica = λ id tables n. (none, n);
  open_blob = λ options ssl n. (none, n);
  subscribe = λ n. (none, n);
  start_subscription = λ n. n;
  new_raft_client = λ id n. (none, n);
  get_storage = λ tables name. none;
  get_string = λ key. "";
  get_bool = λ key. false;
  takes = takes_free;
}

abbrev environment : Environment
environment name =
    if name == "DEPLOYD_REPLICA_ID" then "3" else if name == "DEPLOYD_SECRET" then "" else "a"

abbrev not_ready : Fault
not_ready = "not ready"

abbrev post_once : ℕ → Option Fault × ℕ
post_once n = (if ltb n 2 then some not_ready else none, n + 1)

abbrev surroundings : Surroundings ℕ Unit Unit
surroundings = record {
  env = environment;
  open_config = λ path. inr tt;
  read_config = λ file n. (none, n);
  secrets = record {
    open_file = λ path. inr tt;
    read_config = λ file. inr tt;
    merge = λ settings n. (none, n);
  };
  clients = record {
    get_hosts = λ api auth ns host. inr [];
    get_raft_hosts = λ api auth ns service. inr [];
    get_raft_replicas = λ api auth ns service. inr [];
  };
  raft_init = λ n. (none, n);
  post = λ u h n. post_once n;
  is_not_ready = λ f. f == not_ready;
}

abbrev host : Host
host = record {
  ns = "deployd";
  host = "a";
  architecture = "a";
  os = "a";
  raft_config = record { replica_id = 3; wal_dir = ""; node_host_dir = "" };
  fqdn = "com.deployd";
  published_at = 0;
  url = "";
}

abbrev process : Process ℕ
process = record {
  globals = at_start.globals;
  replicas = [];
  routes = [];
  consumer = none;
  world = 0;
}

enable_modules-IsFit_example :
    Ensures
      (λ q. IsFit Unit q.replicas host q.routes q.consumer)
      (enable_modules libraries host process)
enable_modules-IsFit_example =
    enable_modules-IsFit Unit libraries host takes_free_lem process (refl, refl, refl, refl)

ready : (n : ℕ) → ReadyWithin post_once (λ f. f == not_ready) 3 n
unfolding ReadyWithin
ready zero = inr (inr (inl tt))
ready (suc zero) = inr (inl tt)
ready (suc (suc n)) = let late : ltb (suc (suc n)) 2 ≡ false = ground arith in inl (rw late tt)

post_host-EndedAfter_example :
    EndedAfter post_once (λ f. f == not_ready) 3 0 (post_host post_once (λ f. f == not_ready) 3 0)
post_host-EndedAfter_example = post_host-EndedAfter post_once (λ f. f == not_ready) 3 0 (ready 0)

abbrev third : Environment
third name = if name == "DEPLOYD_REPLICA_ID" then format_uint 1203 else ""

get_replica_id-format_uint_example : get_replica_id third ≡ ok 1203
get_replica_id-format_uint_example = get_replica_id-format_uint third 1203 (omega arith) refl

current_host-IsNamed_example : IsNamed environment 0 (current_host environment 0)
current_host-IsNamed_example = current_host-IsNamed environment 0

-- A client connects, the interrupt comes, and the client is waited for.
connected : (s : State) × Reach begin s × (s.ws_wg ≡ 1)
connected = (
  _,
  next
      (next (next (next here (register begin tt refl)) (listen _ tt refl refl))
        (take_over _ tt refl refl))
      (count _ 0 tt refl),
  refl,
)

closed : (s : State) × Reach begin s × (s.main ≡ ended) × (s.closer ≡ done)
unfolding connected
closed = (
  _,
  next
      (next
        (next
          (next (next (next connected.1 (interrupt _ refl)) (shutdown _ tt refl refl))
            (shutdown_returns _ tt refl))
          (leave _ 0 tt refl))
        (sockets_done _ tt refl refl))
      (group_done _ refl refl),
  refl,
  refl,
)

Reach-IsClosed_example :
    (closed.0.router ≡ unstarted)
    ⊎ ((closed.0.closer ≡ done)
        × (closed.0.shut ≡ true)
        × (closed.0.cancelled ≡ true)
        × (closed.0.ws_wg + closed.0.uncounted ≤ closed.0.left))
Reach-IsClosed_example = Reach-IsClosed closed.1 closed.2

Reach-CanEnd_example : CanEnd connected.0
unfolding connected
Reach-CanEnd_example = Reach-CanEnd connected.1 tt

-- An interrupt that comes before the router's goroutine has registered itself: nothing is closed.
early_interrupt :
    (s : State) × Reach begin s × (s.main ≡ ended) × (s.closer ≡ absent) × (s.shut ≡ false)
early_interrupt =
    (_, next (next here (interrupt begin refl)) (group_done _ refl refl), refl, refl, refl)
