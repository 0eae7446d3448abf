-- ===== src/Artifactd/Handlers.antt =====
-- The HTTP handlers of artifactd (internal/src/artifactd/http.go). JSON and the raft host are parameters:
-- a proposal runs the state machine, a read its Lookup.
use deployd.Prelude.{
  ℕ, ◌-◌, ◌*◌, String, ◌≡◌, refl, ◌⊎◌, inl, inr, Option, none, some, List, ◌==◌, if◌then◌else◌,
}
use deployd.Entity.Artifact.{BuildArtifact}
use deployd.Artifactd.{
  Fault, Command, Reply, Row, App, Key, query_artifact, Answer, bad, artifacts, register_artifact,
  on_update,
}

-- What is printed: the reply, an error, the line for a value of another type, or a line for each artifact.
pub data Printed (File : Type 0) : Type 0 where
  reply : Reply → Printed File
  error : Fault → Printed File
  unexpected : Printed File
  lines : List (BuildArtifact File) → Printed File

module _ {File S : Type 0} where
  abbrev proposed : (Fault ⊎ Reply) × S → Printed File × S
  proposed (inl f, s) = (error f, s)
  proposed (inr r, s) = (reply r, s)

module _ {Bytes File S : Type 0} where
  abbrev after_marshal : (Bytes → S → (Fault ⊎ Reply) × S) → Fault ⊎ Bytes → S → Printed File × S
  after_marshal propose (inl f) s = (error f, s)
  after_marshal propose (inr entry) s = proposed (propose entry s)

  abbrev after_parse :
      (Command Bytes → Fault ⊎ Bytes)
      → (Bytes → S → (Fault ⊎ Reply) × S)
      → Bytes
      → Fault ⊎ BuildArtifact File
      → S
      → Printed File × S
  after_parse marshal propose payload (inl f) s = (error f, s)
  after_parse marshal propose payload (inr a) s =
      after_marshal propose (marshal (record { command = "register-artifact"; payload = payload }))
        s

  abbrev after_read :
      (Bytes → Fault ⊎ BuildArtifact File)
      → (Command Bytes → Fault ⊎ Bytes)
      → (Bytes → S → (Fault ⊎ Reply) × S)
      → Fault ⊎ Bytes
      → S
      → Printed File × S
  after_read parse marshal propose (inl f) s = (error f, s)
  after_read parse marshal propose (inr payload) s =
      after_parse marshal propose payload (parse payload) s

  -- RegisterArtifact
  unfoldable pub post_artifact :
      (Bytes → Fault ⊎ BuildArtifact File)
      → (Command Bytes → Fault ⊎ Bytes)
      → (Bytes → S → (Fault ⊎ Reply) × S)
      → Fault ⊎ Bytes
      → S
      → Printed File × S
  post_artifact parse marshal propose body s = after_read parse marshal propose body s

-- `time.Now().AddDate(0, 0, -7)`, in seconds.
abbrev week_before : ℕ → ℕ
week_before now = now - 7 * 86400

module _ {File : Type 0} where
  abbrev printed : Fault ⊎ Answer File → Printed File
  printed (inl f) = error f
  printed (inr bad) = unexpected
  printed (inr (artifacts l)) = lines l

  -- DiscoverArtifact, over the read of the raft host.
  unfoldable pub discover_artifact :
      (Key → Fault ⊎ Answer File) → String → String → ℕ → Printed File
  discover_artifact sync_read namespace name now =
      printed (sync_read (query_artifact namespace name (week_before now)))

-- A handler on a raft host that applies a proposal to the state machine at once.
module _ {Database Bytes File : Type 0} (exec : Row → Database → Option Fault × Database)
    (parse_command : Bytes → Fault ⊎ Command Bytes)
    (parse : Bytes → Fault ⊎ BuildArtifact File) where
  abbrev pub propose_at : ℕ → Bytes → App Database → (Fault ⊎ Reply) × App Database
  propose_at now entry s =
      let done = on_update exec parse_command parse entry now s in (inr done.0, done.1)

  -- Where JSON reads a command back as it was written and the raft host applies the proposal, posting a
  -- body that is an artifact registers this artifact, once, and prints the state machine's reply.
  pub post_artifact-registers :
      (marshal : Command Bytes → Fault ⊎ Bytes) (now : ℕ) (payload entry : Bytes)
      (a : BuildArtifact File) (s : App Database)
      → parse payload ≡ inr a
      → marshal (record { command = "register-artifact"; payload = payload }) ≡ inr entry
      → parse_command entry ≡ inr (record { command = "register-artifact"; payload = payload })
      → post_artifact parse marshal (propose_at now) (inr payload) s
        ≡ (reply (register_artifact exec a now s).0, (register_artifact exec a now s).1)
  unfolding post_artifact on_update
  post_artifact-registers marshal now payload entry a s e f g = rw (e, f, g, e) refl

-- Discover gives a handler a context with the query as "filter", and Query reads what a context has
-- under a key; a context is a function from keys.
abbrev pub Context : Type 0
Context = String → Option Key

abbrev with_value : String → Key → Context → Context
with_value name value ctx key = if name == key then some value else ctx key

unfoldable pub discover : {A : Type 0} → (Context → A) → String → String → ℕ → Context → A
discover handler namespace name now ctx =
    handler (with_value "filter" (query_artifact namespace name (week_before now)) ctx)

module _ {File : Type 0} where
  abbrev streamed : Fault ⊎ Answer File → Fault ⊎ List (BuildArtifact File)
  streamed (inl f) = inl f
  streamed (inr bad) = inl "not expected data type"
  streamed (inr (artifacts l)) = inr l

  -- Query; a key that the context does not have is asked for as nil.
  unfoldable pub query :
      (Option Key → Fault ⊎ Answer File) → String → Context → Fault ⊎ List (BuildArtifact File)
  query sync_read key ctx = streamed (sync_read (ctx key))

  abbrev printed_stream : Fault ⊎ List (BuildArtifact File) → Option (List (BuildArtifact File))
  printed_stream (inl f) = none
  printed_stream (inr l) = some l

  abbrev printed_lines : Printed File → Option (List (BuildArtifact File))
  printed_lines (lines l) = some l
  printed_lines _ = none

  -- Behind Discover, Query gives the artifacts that DiscoverArtifact prints, and none where it prints
  -- none, whatever the context was.
  pub discover-query :
      (sync_read : Option Key → Fault ⊎ Answer File) (namespace name : String) (now : ℕ)
      (ctx : Context)
      → printed_stream (discover (query sync_read "filter") namespace name now ctx)
        ≡ printed_lines (discover_artifact (λ k. sync_read (some k)) namespace name now)
  unfolding discover query discover_artifact
  discover-query sync_read namespace name now ctx =
      go (sync_read (some (query_artifact namespace name (week_before now))))
    where
      go : (a : Fault ⊎ Answer File) → printed_stream (streamed a) ≡ printed_lines (printed a)
      go (inl f) = refl
      go (inr bad) = refl
      go (inr (artifacts l)) = refl
