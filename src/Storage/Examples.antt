-- ===== src/Storage/Examples.antt =====
-- A database that answers at the third attempt.
use deployd.Prelude.{
  ℕ, ◌+◌, String, true, ◌≡◌, refl, inl, inr, Option, none, some, [], leb, if◌then◌else◌,
}
use deployd.Prelude.GoMap.{lookup}
use deployd.Storage.{Fault, retry, Ended, retry-Ended}
use deployd.Storage.Connections.{nil_connection, Driver, get_clickhouse_conn}

abbrev third : ℕ → Option Fault × ℕ
third n = (if leb 2 n then none else some "refused", n + 1)

retry_test : retry third 3 0 ≡ (none, 3)
unfolding retry
retry_test = refl

retry-Ended_example : Ended third 3 0 (retry third 3 0)
retry-Ended_example = retry-Ended third 2 0

-- The connection is its name; a ping never succeeds, which nobody learns.
abbrev driver : Driver String ℕ
driver = record {
  configured = λ name. true;
  open_conn = λ name n. if leb 3 n then (inr name, n + 1) else (inl "refused", n + 1);
  ping = λ c n. (some "no answer", n + 1);
}

-- Three refusals leave no connection, and its ping panics.
refused_test : (get_clickhouse_conn driver "main" ([], 0)).0 ≡ nil_connection
unfolding get_clickhouse_conn lookup
refused_test = refl
