-- ===== src/Entity/Artifact.antt =====
-- src/entity/artifactd_build.go and src/entity/artifactd_repository.go. `File` is the file entity of
-- the common library. Raw JSON is its text.
use deployd.Prelude.{ℕ, String, none, List, [], ◌∷◌}
use deployd.Entity.Content.{Content}

pub record BuildArtifact (File : Type 0) : Type 0 where
  pub ns : String
  pub id : String
  pub name : String
  pub commit_id : String
  pub branch : String
  pub actor : String
  pub tag : String
  pub raw_data : String
  pub published_at : ℕ
  pub source : String
  pub repository_id : String
  pub url : String
  pub os_arch : List String
  pub archive : List File

abbrev pub build_content : (File : Type 0) → Content (BuildArtifact File)
build_content File = record {
  created_time = λ a. a.published_at;
  id = λ a. a.id;
  namespace = λ a. a.ns;
  ref_ids = λ a. a.repository_id ∷ [];
  url = λ a. a.url;
  validate = λ _. none;
  with_created_time = λ t a. record a { published_at = t };
  with_id = λ i a. record a { id = i };
  with_namespace = λ i a. record a { ns = i };
  with_url = λ u a. record a { url = u };
}

abbrev pub with_event_id : {File : Type 0} → ℕ → BuildArtifact File → BuildArtifact File
with_event_id _ a = a

pub record Repository : Type 0 where
  pub id : String
  pub ns : String
  pub name : String
  pub source : String
  pub published_at : ℕ
  pub url : String

abbrev pub repository_content : Content Repository
repository_content = record {
  created_time = λ r. r.published_at;
  id = λ r. r.id;
  namespace = λ r. r.ns;
  ref_ids = λ _. [];
  url = λ r. r.url;
  validate = λ _. none;
  with_created_time = λ t r. record r { published_at = t };
  with_id = λ i r. record r { id = i };
  with_namespace = λ i r. record r { ns = i };
  with_url = λ u r. record r { url = u };
}
