-- ===== src/Model/Job.antt =====
-- Job and its requests of models/job.rs, with the checks that the `Validate` derive generates.
use Prim.Native.String.{count}
use serverust_less.Prelude.{
  ℕ, Bool, true, false, ◌&&◌, String, Option, none, some, ℤ, pos, negsuc, leb, leb_ℤ, ◌==◌,
  if◌then◌else◌,
}
use serverust_less.Model.Clock.{Clock}

pub record Job : Type 0 where
  pub id : String
  pub name : String
  pub description : Option String
  pub python_code : String
  pub timeout_seconds : ℤ
  pub memory_limit_mb : ℤ
  pub use_custom_venv : Bool
  pub venv_id : Option String
  pub priority : ℤ
  pub max_retries : ℤ
  pub created_at : String
  pub updated_at : String
  pub enabled : Bool

pub record CreateJobRequest : Type 0 where
  pub name : String
  pub description : Option String
  pub python_code : String
  pub timeout_seconds : ℤ
  pub memory_limit_mb : ℤ
  pub use_custom_venv : Bool
  pub venv_id : Option String
  pub priority : ℤ
  pub max_retries : ℤ

pub record UpdateJobRequest : Type 0 where
  pub name : Option String
  pub description : Option String
  pub python_code : Option String
  pub timeout_seconds : Option ℤ
  pub memory_limit_mb : Option ℤ
  pub use_custom_venv : Option Bool
  pub venv_id : Option String
  pub priority : Option ℤ
  pub max_retries : Option ℤ
  pub enabled : Option Bool

-- `#[validate(length(min, max))]` counts characters; `#[validate(range(min, max))]` is inclusive.
abbrev has_length : ℕ → ℕ → String → Bool
has_length lo hi s = leb lo (count s) && leb (count s) hi

abbrev in_range : ℤ → ℤ → ℤ → Bool
in_range lo hi n = leb_ℤ lo n && leb_ℤ n hi

-- The checks on an optional field hold where it is absent.
abbrev optional {ℓ} : {A : Type ℓ} → (A → Bool) → Option A → Bool
optional p none = true
optional p (some a) = p a

abbrev valid_name : String → Bool
valid_name = has_length 1 100

abbrev valid_description : String → Bool
valid_description = has_length 0 1000

abbrev valid_code : String → Bool
valid_code = has_length 1 102400

abbrev valid_timeout : ℤ → Bool
valid_timeout = in_range (pos 1) (pos 3600)

abbrev valid_memory : ℤ → Bool
valid_memory = in_range (pos 16) (pos 4096)

abbrev valid_priority : ℤ → Bool
valid_priority = in_range (negsuc 99) (pos 100)

abbrev valid_retries : ℤ → Bool
valid_retries = in_range (pos 0) (pos 10)

abbrev pub validate_create : CreateJobRequest → Bool
validate_create r =
    valid_name r.name
    && optional valid_description r.description
    && valid_code r.python_code
    && valid_timeout r.timeout_seconds
    && valid_memory r.memory_limit_mb
    && valid_priority r.priority
    && valid_retries r.max_retries

abbrev pub validate_update : UpdateJobRequest → Bool
validate_update r =
    optional valid_name r.name
    && optional valid_description r.description
    && optional valid_code r.python_code
    && optional valid_timeout r.timeout_seconds
    && optional valid_memory r.memory_limit_mb
    && optional valid_priority r.priority
    && optional valid_retries r.max_retries

-- A new job is disabled.
abbrev pub new : Clock → String → CreateJobRequest → Job
new clock id req = record {
  id = id;
  name = req.name;
  description = req.description;
  python_code = req.python_code;
  timeout_seconds = req.timeout_seconds;
  memory_limit_mb = req.memory_limit_mb;
  use_custom_venv = req.use_custom_venv;
  venv_id = req.venv_id;
  priority = req.priority;
  max_retries = req.max_retries;
  created_at = clock.rfc3339;
  updated_at = clock.rfc3339;
  enabled = false;
}

abbrev or_keep {ℓ} : {A : Type ℓ} → Option A → A → A
or_keep none old = old
or_keep (some a) old = a

abbrev or_keep_some {ℓ} : {A : Type ℓ} → Option A → Option A → Option A
or_keep_some none old = old
or_keep_some (some a) old = some a

-- An empty text clears the selection.
abbrev venv_choice : Option String → Option String → Option String
venv_choice none old = old
venv_choice (some v) old = if v == "" then none else some v

unfoldable pub apply_update : Clock → UpdateJobRequest → Job → Job
apply_update clock req job = record job {
  name = or_keep req.name job.name;
  description = or_keep_some req.description job.description;
  python_code = or_keep req.python_code job.python_code;
  timeout_seconds = or_keep req.timeout_seconds job.timeout_seconds;
  memory_limit_mb = or_keep req.memory_limit_mb job.memory_limit_mb;
  use_custom_venv = or_keep req.use_custom_venv job.use_custom_venv;
  venv_id = venv_choice req.venv_id job.venv_id;
  priority = or_keep req.priority job.priority;
  max_retries = or_keep req.max_retries job.max_retries;
  enabled = or_keep req.enabled job.enabled;
  updated_at = clock.rfc3339;
}
