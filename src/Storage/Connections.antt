-- ===== src/Storage/Connections.antt =====
-- getClickhouseConn: the table of connections. The reading of the options is left out, but for its end of
-- the program where there are none.
use deployd.Prelude.{
  String, Bool, true, false, ◌≡◌, refl, ◌⊎◌, inl, inr, Option, none, some, List, arith, eq_iff,
  if◌then◌else◌,
}
use deployd.Prelude.GoMap.{lookup, set, lookup-set}
use deployd.Storage.{Fault, retry}

-- What the function returns, whose error is always nil, or how it ends without.
pub data Ending (Conn : Type 0) : Type 0 where
  connection : Conn → Ending Conn
  nil_connection exits : Ending Conn

-- The database library, on a state; `configured` says that the options of a name are there.
pub record Driver (Conn S : Type 0) : Type 0 where
  pub configured : String → Bool
  pub open_conn : String → S → (Fault ⊎ Conn) × S
  pub ping : Conn → S → Option Fault × S

module _ {Conn S : Type 0} (D : Driver Conn S) where
  abbrev assigned : (Fault ⊎ Conn) × S → Option Fault × (Option Conn × S)
  assigned (inl f, s) = (some f, (none, s))
  assigned (inr c, s) = (none, (some c, s))

  -- `conn, err = clickhouse.Open(opts)`
  abbrev open_once : String → Option Conn × S → Option Fault × (Option Conn × S)
  open_once name (c, s) = assigned (D.open_conn name s)

  -- The errors of both retries are dropped; a method of a nil connection panics.
  abbrev pinged :
      String → List (String × Conn) → Option Conn × S → Ending Conn × (List (String × Conn) × S)
  pinged name conns (none, s) = (nil_connection, (conns, s))
  pinged name conns (some c, s) = (connection c, (set name c conns, (retry (D.ping c) 3 s).1))

  abbrev dial : String → List (String × Conn) → S → Ending Conn × (List (String × Conn) × S)
  dial name conns s =
      let opened = pinged name conns (retry (open_once name) 3 (none, s)).1 in
      if D.configured name then opened else (exits, (conns, s))

  abbrev by_known :
      String → Option Conn → List (String × Conn) → S → Ending Conn × (List (String × Conn) × S)
  by_known name (some c) conns s = (connection c, (conns, s))
  by_known name none conns s = dial name conns s

  unfoldable pub get_clickhouse_conn :
      String → List (String × Conn) × S → Ending Conn × (List (String × Conn) × S)
  unfolding retry
  get_clickhouse_conn name (conns, s) = by_known name (lookup name conns) conns s

  -- The connection that is returned is kept under its name.
  abbrev Keeps : String → Ending Conn × (List (String × Conn) × S) → Type 0
  Keeps name (connection c, t) = lookup name t.0 ≡ some c
  Keeps name (nil_connection, t) = Unit
  Keeps name (exits, t) = Unit

  lookup-set_self :
      (name : String) (c : Conn) (conns : List (String × Conn))
      → lookup name (set name c conns) ≡ some c
  lookup-set_self name c conns = rw (lookup-set name name c conns) ground (arith, eq_iff name name)

  pinged-Keeps :
      (name : String) (conns : List (String × Conn)) (o : Option Conn × S)
      → Keeps name (pinged name conns o)
  pinged-Keeps name conns (none, s) = tt
  pinged-Keeps name conns (some c, s) = lookup-set_self name c conns

  dial-Keeps :
      (name : String) (conns : List (String × Conn)) (s : S) → Keeps name (dial name conns s)
  dial-Keeps name conns s = go (D.configured name)
    where
      go :
          (b : Bool)
          → Keeps name (
              if b
              then pinged name conns (retry (open_once name) 3 (none, s)).1
              else (exits, (conns, s)))
      go true = pinged-Keeps name conns _
      go false = tt

  get_clickhouse_conn-Keeps :
      (name : String) (st : List (String × Conn) × S) → Keeps name (get_clickhouse_conn name st)
  unfolding get_clickhouse_conn
  get_clickhouse_conn-Keeps name (conns, s) = go (lookup name conns) refl
    where
      go : (o : Option Conn) → lookup name conns ≡ o → Keeps name (by_known name o conns s)
      go (some c) e = e
      go none e = dial-Keeps name conns s

  -- A connection that was returned is returned again from then on, without a call of the database.
  pub get_clickhouse_conn-again :
      (name : String) (st : List (String × Conn) × S) (c : Conn) (t : List (String × Conn) × S)
      → get_clickhouse_conn name st ≡ (connection c, t)
      → get_clickhouse_conn name t ≡ (connection c, t)
  unfolding get_clickhouse_conn
  get_clickhouse_conn-again name st c (conns, s) e =
      let kept : lookup name conns ≡ some c = rw e at (get_clickhouse_conn-Keeps name st) in
      rw kept refl
