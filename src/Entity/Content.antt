-- ===== src/Entity/Content.antt =====
-- The interface mycontent.Data as the entities implement it. A method with a pointer receiver that
-- sets a field and returns the receiver is a function to the new value. Times are ℕ.
use deployd.Prelude.{ℕ, String, Option, List}

-- The errors that Validate can join.
pub data ValidationError : Type 0 where
  outer_space inner_space too_long not_alphanumeric : ValidationError

pub record Content (A : Type 0) : Type 0 where
  pub created_time : A → ℕ
  pub id : A → String
  pub namespace : A → String
  pub ref_ids : A → List String
  pub url : A → String
  pub validate : A → Option ValidationError
  pub with_created_time : ℕ → A → A
  pub with_id : String → A → A
  pub with_namespace : String → A → A
  pub with_url : String → A → A
