-- ===== src/Main/ReplicaId.antt =====
-- The host as its environment names it: getReplicaID, mustEnv and currentHost (cmd/deployd/main.go), with
-- strconv.ParseUint in base 10 for 64 bits.
pub mod RoundTrip
pub mod Named
use Prim.Native.Char.{code}
use deployd.Prelude.{
  ℕ, ◌+◌, ◌-◌, ◌*◌, ◌^◌, ◌<◌, String, Bool, true, false, ◌&&◌, ◌≡◌, refl, Option, none, some,
  Outcome, ok, err, panic, ltb, leb, if◌then◌else◌, ◌==◌, arith,
}
use deployd.Entity.Host.{Host}
use deployd.ServiceSetup.{Environment}
use deployd.Main.Setup.{Exit, log_fatal}

abbrev pub uint_limit : ℕ
uint_limit = 2 ^ 64

abbrev is_digit : ℕ → Bool
is_digit c = leb b'0' c && leb c b'9'

-- The digits behind the number `n`: an error at another character, and where 64 bits are too few.
scan : String → ℕ → Option ℕ
scan String.[] n = some n
scan (String.◌∷◌ c s) n =
    let m = n * 10 + (code c - b'0') in
    let rest = scan s m in
    if is_digit (code c) then if ltb m uint_limit then rest else none else none

unfoldable pub parse_uint : String → Option ℕ
unfolding scan
parse_uint s = if s == "" then none else scan s 0

abbrev replica_of : Option ℕ → Outcome Exit ℕ
replica_of none = err (log_fatal "invalid DEPLOYD_REPLICA_ID env value")
replica_of (some n) = ok n

unfoldable pub get_replica_id : Environment → Outcome Exit ℕ
unfolding parse_uint
get_replica_id env = replica_of (parse_uint (env "DEPLOYD_REPLICA_ID"))

unfoldable pub must_env : Environment → String → Outcome Exit String
must_env env name = if env name == "" then err (log_fatal "invalid env value") else ok (env name)

abbrev host_of : String → String → String → ℕ → ℕ → Host
host_of host os architecture n now = record {
  ns = "deployd";
  host = host;
  architecture = architecture;
  os = os;
  raft_config = record { replica_id = n; wal_dir = ""; node_host_dir = "" };
  fqdn = "com.deployd";
  published_at = now;
  url = "";
}

abbrev then_ : {A : Type 0} → Outcome Exit A → (A → Outcome Exit Host) → Outcome Exit Host
then_ (ok a) f = f a
then_ (err e) f = err e
then_ (panic p) f = panic p

-- currentHost, whose variable is set before the program runs.
unfoldable pub current_host : Environment → ℕ → Outcome Exit Host
current_host env now = then_ (must_env env "DEPLOYD_HOSTNAME") λ host.
    then_ (must_env env "DEPLOYD_OS") λ os.
      then_ (must_env env "DEPLOYD_ARCH")
        λ architecture. then_ (get_replica_id env) λ n. ok (host_of host os architecture n now)

parse_uint_test : parse_uint "18446744073709551615" ≡ some 18446744073709551615
unfolding parse_uint
parse_uint_test = refl

parse_uint_refuses : parse_uint "18446744073709551616" ≡ none
unfolding parse_uint
parse_uint_refuses = refl

parse_uint_sign : parse_uint "-1" ≡ none
unfolding parse_uint
parse_uint_sign = refl
