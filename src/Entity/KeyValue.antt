-- ===== src/Entity/KeyValue.antt =====
-- src/entity/secretd_kv.go. Secret and Env embed KV and add nothing.
use deployd.Prelude.{ℕ, String, none, [], ◌∷◌}
use deployd.Prelude.GoMap.{GoMap}
use deployd.Entity.Content.{Content}

pub record Kv : Type 0 where
  pub ns : String
  pub service : String
  pub version : String
  pub value : GoMap String
  pub published_at : ℕ
  pub url : String

abbrev pub Secret : Type 0
Secret = Kv

abbrev pub Env : Type 0
Env = Kv

abbrev pub kv_content : Content Kv
kv_content = record {
  created_time = λ a. a.published_at;
  id = λ a. a.version;
  namespace = λ a. a.ns;
  ref_ids = λ a. a.service ∷ [];
  url = λ a. a.url;
  validate = λ _. none;
  with_created_time = λ t a. record a { published_at = t };
  with_id = λ i a. record a { version = i };
  with_namespace = λ n a. record a { ns = n };
  with_url = λ u a. record a { url = u };
}
