-- ===== src/Controller/JobBase.antt =====
-- The common part of the sub-jobs: internal/src/deploy-job/job_base.go and job.go.
use deployd.Prelude.{ℕ, String, ◌≡◌, refl, Option, none, some, List, []}

pub data Status : Type 0 where
  pending in_progress retrying failed cancelled success invalid : Status

-- The vertices are jobs, of which there are none here; the edges are pairs of their places.
pub record Dag (Job : Type 0) : Type 0 where
  pub vertices : List Job
  pub edges : List ℕ

-- The three numbers are below 2 ^ 8.
pub record JobBase : Type 0 where
  pub name : String
  pub status : Status
  pub retry_count : ℕ
  pub current_step : ℕ
  pub total_steps : ℕ
  pub url : String
  pub error_message : Option String

-- The interface Job, as the base implements it.
pub record JobMethods (Job : Type 0) : Type 0 where
  pub get_name : Job → String
  pub get_retry_count : Job → ℕ
  pub get_status : Job → Status
  pub get_dag : Job → Dag Job
  pub get_current_steps : Job → ℕ
  pub get_total_steps : Job → ℕ
  pub get_url : Job → String
  pub execute : Job → Option String

pub job_base : JobMethods JobBase
job_base = record {
  get_name = λ c. c.name;
  get_retry_count = λ c. c.retry_count;
  get_status = λ c. c.status;
  get_dag = λ c. record { vertices = []; edges = [] };
  get_current_steps = λ c. c.current_step;
  get_total_steps = λ c. c.total_steps;
  get_url = λ c. c.url;
  execute = λ c. some "not implemented";
}

pub set_error_message : String → JobBase → JobBase
set_error_message msg c = record c { error_message = some msg }

abbrev text_or_empty : Option String → String
text_or_empty none = ""
text_or_empty (some msg) = msg

pub get_error_message : JobBase → String
get_error_message c = text_or_empty c.error_message

get_error_message-set_error_message :
    (msg : String) (c : JobBase) → get_error_message (set_error_message msg c) ≡ msg
unfolding get_error_message set_error_message
get_error_message-set_error_message msg c = refl
