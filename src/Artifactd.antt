-- ===== src/Artifactd.antt =====
-- The raft application of artifactd (internal/src/artifactd/app_raft.go, command.go, dxl.go): it numbers
-- the builds of each namespace and name, and inserts one row for each. The ClickHouse connection is a
-- parameter.
pub mod Index
pub mod Numbers
pub mod Restart
pub mod Handlers
mod Examples
use deployd.Prelude.{
  ℕ, String, Option, none, some, ◌⊎◌, inl, inr, List, [], ◌∷◌, ◌==◌, if◌then◌else◌,
}
use deployd.Prelude.Int.{uint_incr}
use deployd.Entity.Artifact.{BuildArtifact}
use deployd.Artifactd.Index.{Namespace, Counters, lookup_key, set_key}

-- An error of a library, by its text.
abbrev pub Fault : Type 0
Fault = String

-- The command of a log entry, and its payload as it stands there.
pub record Command (Bytes : Type 0) : Type 0 where
  pub command : String
  pub payload : Bytes

-- The answers, each by the format that it is printed with.
pub data Reply : Type 0 where
  invalid_json invalid_input success : Reply
  unsupported : String → Reply
  failed : Fault → Reply

-- An argument of the insert statement. `data.Namespace` is written without a call, so the method itself
-- is passed, not the namespace.
pub data Argument : Type 0 where
  text : String → Argument
  number : ℕ → Argument
  texts : List String → Argument
  method : Argument

-- The row, in the order of the statement's columns.
pub record Row : Type 0 where
  pub namespace : Argument
  pub name : Argument
  pub id : Argument
  pub commit_id : Argument
  pub branch : Argument
  pub tag : Argument
  pub actor : Argument
  pub raw : Argument
  pub published_at : Argument
  pub source : Argument
  pub os_arch : Argument

-- The counters, and the database.
abbrev pub App : Type 0 → Type 0
App Database = Counters × Database

module _ {File : Type 0} where
  abbrev pub key_of : BuildArtifact File → Namespace
  key_of a = record { namespace = a.ns; name = a.name }

  abbrev pub row_of : BuildArtifact File → ℕ → ℕ → Row
  row_of a idx now = record {
    namespace = method;
    name = text a.name;
    id = number idx;
    commit_id = text a.commit_id;
    branch = text a.branch;
    tag = text a.tag;
    actor = text a.actor;
    raw = text a.raw_data;
    published_at = number now;
    source = text a.source;
    os_arch = texts a.os_arch;
  }

-- `if _, ok := index[key]; !ok { index[key] = new(uint64) }`
abbrev pub with_key : Namespace → Option ℕ → Counters → Counters
with_key key none index = set_key key 0 index
with_key key (some n) index = index

abbrev pub value_or_zero : Option ℕ → ℕ
value_or_zero none = 0
value_or_zero (some n) = n

-- The pointer is there after with_key.
abbrev pub next_id : Namespace → Counters → ℕ
next_id key index = value_or_zero (lookup_key key index)

module _ {Database : Type 0} (exec : Row → Database → Option Fault × Database) where
  -- What follows the insert: a failure keeps the number for the next build.
  abbrev counted : Namespace → ℕ → Counters → Option Fault × Database → Reply × App Database
  counted key idx index (some f, db) = (failed f, (index, db))
  counted key idx index (none, db) = (success, (set_key key (uint_incr idx) index, db))

  module _ {File : Type 0} where
    unfoldable pub register_artifact : BuildArtifact File → ℕ → App Database → Reply × App Database
    register_artifact a now (index, db) =
        let key = key_of a in
        let index' = with_key key (lookup_key key index) index in
        let idx = next_id key index' in counted key idx index' (exec (row_of a idx now) db)

    abbrev registered : Fault ⊎ BuildArtifact File → ℕ → App Database → Reply × App Database
    registered (inl f) now s = (invalid_input, s)
    registered (inr a) now s = register_artifact a now s

    module _ {Bytes : Type 0} where
      abbrev dispatched :
          (Bytes → Fault ⊎ BuildArtifact File)
          → Fault ⊎ Command Bytes
          → ℕ
          → App Database
          → Reply × App Database
      dispatched parse (inl f) now s = (invalid_json, s)
      dispatched parse (inr cmd) now s =
          if cmd.command == "register-artifact"
          then registered (parse cmd.payload) now s
          else (unsupported cmd.command, s)

      -- OnUpdate, over the two parsers of JSON.
      unfoldable pub on_update :
          (Bytes → Fault ⊎ Command Bytes)
          → (Bytes → Fault ⊎ BuildArtifact File)
          → Bytes
          → ℕ
          → App Database
          → Reply × App Database
      unfolding register_artifact
      on_update parse_command parse entry now s = dispatched parse (parse_command entry) now s

-- json.Marshal of the state: a map whose keys are structs is of no supported type.
pub marshal_state : Counters → Fault ⊎ List ℕ
marshal_state index = inl "json: unsupported type: map[artifactd.Namespace]*uint64"

-- `payload, _ := json.Marshal(a.state)`: the error is dropped, and the payload is nil.
abbrev pub payload_of : Fault ⊎ List ℕ → List ℕ
payload_of (inl f) = []
payload_of (inr payload) = payload

-- Apply hands this to SetMetadata.
unfoldable pub apply_payload : Counters → List ℕ
unfolding marshal_state
apply_payload index = payload_of (marshal_state index)

abbrev load_state : (List ℕ → Fault ⊎ Counters) → List ℕ → Fault ⊎ Counters
load_state parse [] = inr []
load_state parse (b ∷ meta) = parse (b ∷ meta)

abbrev load_meta : (List ℕ → Fault ⊎ Counters) → Fault ⊎ List ℕ → Fault ⊎ Counters
load_meta parse (inl f) = inl f
load_meta parse (inr meta) = load_state parse meta

-- Init, after the table is made: the counters from the metadata, none where it is empty. `parse` is
-- json.Unmarshal, and GetMetadata's answer is an argument.
unfoldable pub init : (List ℕ → Fault ⊎ Counters) → Fault ⊎ List ℕ → Fault ⊎ Counters
init parse meta = load_meta parse meta

-- A query of Lookup, the type of its key being another one, and what it answers: the text "bad", or the
-- channel's artifacts in the order of the rows.
pub data Key : Type 0 where
  query_artifact : String → String → ℕ → Key
  other_key : Key

pub data Answer (File : Type 0) : Type 0 where
  bad : Answer File
  artifacts : List (BuildArtifact File) → Answer File

module _ {File : Type 0} where
  -- The goroutine: a row that cannot be scanned is passed over.
  abbrev scanned : List (Fault ⊎ BuildArtifact File) → List (BuildArtifact File)
  scanned [] = []
  scanned (inl f ∷ rows) = scanned rows
  scanned (inr a ∷ rows) = a ∷ scanned rows

  abbrev rows_answer : Fault ⊎ List (Fault ⊎ BuildArtifact File) → Fault ⊎ Answer File
  rows_answer (inl f) = inl f
  rows_answer (inr rows) = inr (artifacts (scanned rows))

  -- Lookup, over the query of the database with each row's scan.
  pub lookup :
      (String → String → ℕ → Fault ⊎ List (Fault ⊎ BuildArtifact File)) → Key → Fault ⊎ Answer File
  lookup query (query_artifact namespace name from) = rows_answer (query namespace name from)
  lookup query other_key = inr bad
