-- ===== src/Artifactd/Examples.antt =====
-- Builds of two names on a database that refuses one commit.
use deployd.Prelude.{
  ◌⊎◌, ℕ, String, Bool, true, false, ◌≡◌, refl, none, some, Option, List, [], ◌∷◌, ◌==◌, inr, inl,
  if◌then◌else◌,
}
use deployd.Entity.Artifact.{BuildArtifact}
use deployd.Artifactd.{Command, Fault, Row, Argument, text, register_artifact, row_of, next_id}
use deployd.Artifactd.Index.{Namespace, same_key, lookup_key, set_key}
use deployd.Artifactd.Numbers.{accepted, register_artifact-Effect, is_success}

abbrev refuses : Argument → Bool
refuses (text c) = c == "broken"
refuses _ = false

-- The rows, the last first.
abbrev exec : Row → List Row → Option Fault × List Row
exec row db = if refuses row.commit_id then (some "insert refused", db) else (none, row ∷ db)

abbrev build : String → String → BuildArtifact String
build name commit = record {
  ns = "ns";
  id = "";
  name = name;
  commit_id = commit;
  branch = "main";
  actor = "dev";
  tag = "";
  raw_data = "";
  published_at = 0;
  source = "github";
  repository_id = "svc";
  url = "";
  os_arch = [];
  archive = [];
}

abbrev key : Namespace
key = record { namespace = "ns"; name = "svc" }

abbrev builds : List (BuildArtifact String × ℕ)
builds =
    (build "svc" "a", 1)
    ∷ (build "other" "b", 2)
    ∷ (build "svc" "broken", 3)
    ∷ (build "svc" "c", 4)
    ∷ []

accepted_two : accepted exec key builds ([], []) ≡ 0 ∷ 1 ∷ []
unfolding accepted register_artifact same_key lookup_key set_key
accepted_two = refl

register_artifact-Effect_example :
    (is_success (register_artifact exec (build "svc" "a") 1 ((key, 7) ∷ [], [])).0 ≡ true)
    × ((register_artifact exec (build "svc" "a") 1 ((key, 7) ∷ [], [])).1.1
        ≡ row_of (build "svc" "a") 7 1 ∷ [])
    × (next_id key (register_artifact exec (build "svc" "a") 1 ((key, 7) ∷ [], [])).1.0 ≡ 8)
unfolding lookup_key same_key
register_artifact-Effect_example =
    register_artifact-Effect exec key (build "svc" "a") 1 ((key, 7) ∷ [], [])

-- JSON as the value itself: a body, or a command around one.
pub data Json : Type 0 where
  artifact : BuildArtifact String → Json
  command : String → Json → Json

abbrev parse_command : Json → Fault ⊎ Command Json
parse_command (artifact a) = inl "no command"
parse_command (command name payload) = inr (record { command = name; payload = payload })

abbrev parse_artifact : Json → Fault ⊎ BuildArtifact String
parse_artifact (artifact a) = inr a
parse_artifact (command name payload) = inl "no artifact"
