-- ===== src/Systemd.antt =====
-- The systemd component (internal/src/systemd/systemd.go and types.go): a table of the host's services
-- that follows systemd over D-Bus, and the rows that it broadcasts. The unit type of the D-Bus library is
-- a parameter, with the fields that the source reads.
pub mod Stream
pub mod Reader
pub mod Table
pub mod Follow
pub mod Interleave
mod Examples
use deployd.Prelude.{
  ℕ, String, Bool, ◌||◌, Option, none, some, List, [], ◌∷◌, ◌++◌, ◌==◌, if◌then◌else◌,
}
use deployd.Prelude.GoMap.{lookup, set}

-- types.go
pub record DbusUnitStatus : Type 0 where
  pub name : String
  pub description : String
  pub load_state : String
  pub active_state : String
  pub sub_state : String
  pub followed : String
  pub path : String
  pub job_id : ℕ
  pub job_type : String
  pub job_path : String

pub record Row (T : Type 0) : Type 0 where
  pub name : String
  pub key : String
  pub row_data : T

-- The fields of the library's unit.
pub record UnitFields (U : Type 0) : Type 0 where
  pub name : U → String
  pub description : U → String
  pub load_state : U → String
  pub active_state : U → String
  pub sub_state : U → String
  pub followed : U → String
  pub path : U → String
  pub job_id : U → ℕ
  pub job_type : U → String
  pub job_path : U → String

-- strings.HasSuffix
abbrev pub has_suffix : String → String → Bool
has_suffix String.[] x = x == ""
has_suffix (String.◌∷◌ c s) x = let rest = has_suffix s x in String.◌∷◌ c s == x || rest

-- `status`, a map that New makes.
abbrev pub Status : Type 0
Status = List (String × DbusUnitStatus)

abbrev pub row_for : DbusUnitStatus → Row DbusUnitStatus
row_for m = record { name = "unit"; key = m.name; row_data = m }

-- What a pass of one of the loops leaves: the table, and the rows broadcast, in their order.
abbrev pub Outcome : Type 0
Outcome = Status × List (Row DbusUnitStatus)

abbrev pub zero_status : DbusUnitStatus
zero_status = record {
  name = "";
  description = "";
  load_state = "";
  active_state = "";
  sub_state = "";
  followed = "";
  path = "";
  job_id = 0;
  job_type = "";
  job_path = "";
}

-- A name that is there is set to an empty unit first.
abbrev pub clear_conflict : String → Option DbusUnitStatus → Status → Status
clear_conflict k none status = status
clear_conflict k (some m) status = set k zero_status status

abbrev pub and_broadcast : DbusUnitStatus → Outcome → Outcome
and_broadcast m (status, rows) = (status, row_for m ∷ rows)

abbrev pub then_rows : List (Row DbusUnitStatus) → Outcome → Outcome
then_rows rows (status, later) = (status, rows ++ later)

-- What the loop selects from.
pub data Event (U : Type 0) : Type 0 where
  changes : List (Option U) → Event U
  error : String → Event U
  done : Event U

module _ {U : Type 0} (fields : UnitFields U) where
  abbrev pub to_model : U → DbusUnitStatus
  to_model u = record {
    name = fields.name u;
    description = fields.description u;
    load_state = fields.load_state u;
    active_state = fields.active_state u;
    sub_state = fields.sub_state u;
    followed = fields.followed u;
    path = fields.path u;
    job_id = fields.job_id u;
    job_type = fields.job_type u;
    job_path = fields.job_path u;
  }

  -- The negation of the guard that both loops skip a unit by.
  unfoldable pub is_service : U → Bool
  is_service u = has_suffix (fields.name u) ".service" || fields.job_type u == "service"

  -- The loop over ListUnits.
  unfoldable pub list_units : List U → Status → Outcome
  unfolding is_service
  list_units [] status = (status, [])
  list_units (u ∷ units) status =
      let m = to_model u in
      let cleared = clear_conflict m.name (lookup m.name status) status in
      let listed = list_units units (set m.name m cleared) in
      let skipped = list_units units status in
      if is_service u then and_broadcast m listed else skipped

  -- One receive from the channel of changes: a unit that is gone is nil, and skipped.
  unfoldable pub changed_units : List (Option U) → Status → Outcome
  unfolding is_service
  changed_units [] status = (status, [])
  changed_units (none ∷ units) status = changed_units units status
  changed_units (some u ∷ units) status =
      let m = to_model u in
      let saved = changed_units units (set m.name m status) in
      let skipped = changed_units units status in
      if is_service u then and_broadcast m saved else skipped

  -- The endless loop, over what it receives; it ends when the context is done.
  unfoldable pub watch : List (Event U) → Status → Outcome
  unfolding changed_units
  watch [] status = (status, [])
  watch (changes units ∷ events) status =
      let step = changed_units units status in then_rows step.1 (watch events step.0)
  watch (error e ∷ events) status = watch events status
  watch (done ∷ events) status = (status, [])

  -- initializeListener, once connected: the list of units, then the changes.
  unfoldable pub initialize_listener : List U → List (Event U) → Outcome
  unfolding list_units watch
  initialize_listener units events =
      let step = list_units units [] in then_rows step.1 (watch events step.0)
