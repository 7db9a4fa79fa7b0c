-- ===== src/Model/Package.antt =====
-- PythonPackage, JobDependency and PackageCache of models/package.rs. Fresh identifiers are
-- arguments.
use serverust_less.Prelude.{
  String, Option, none, some, ℤ, pos, ◌+ℤ◌, str_append, Bool, ◌&&◌, ◌||◌, ℕ, nat_eq, true, false,
}
use Prim.Native.Char.{code}
use serverust_less.Model.Clock.{Clock}
use serverust_less.Model.PackageStatus.{as_str}
use serverust_less.Model.PackageStatus.{PackageStatus}

pub record PythonPackage : Type 0 where
  pub id : String
  pub name : String
  pub version : String
  pub description : Option String
  pub pypi_url : Option String
  pub created_at : String

abbrev pub new_package : Clock → String → String → String → Option String → PythonPackage
new_package clock id name version description = record {
  id = id;
  name = name;
  version = version;
  description = description;
  pypi_url = some (str_append "https://pypi.org/project/" (str_append name "/"));
  created_at = clock.rfc3339;
}

pub record JobDependency : Type 0 where
  pub id : String
  pub job_id : String
  pub package_name : String
  pub version_constraint : String
  pub created_at : String

abbrev pub any_version : Option String → String
any_version none = "*"
any_version (some c) = c

abbrev pub new_dependency : Clock → String → String → String → Option String → JobDependency
new_dependency clock id job_id package_name version_constraint = record {
  id = id;
  job_id = job_id;
  package_name = package_name;
  version_constraint = any_version version_constraint;
  created_at = clock.rfc3339;
}

pub record PackageCache : Type 0 where
  pub id : String
  pub venv_type : String
  pub venv_id : Option String
  pub package_name : String
  pub version : String
  pub installation_path : String
  pub size_bytes : Option ℤ
  pub status : String
  pub error_message : Option String
  pub installed_at : String
  pub last_used_at : Option String
  pub use_count : ℤ

abbrev pub new_cache :
    Clock → String → String → Option String → String → String → String → PackageCache
new_cache clock id venv_type venv_id package_name version installation_path = record {
  id = id;
  venv_type = venv_type;
  venv_id = venv_id;
  package_name = package_name;
  version = version;
  installation_path = installation_path;
  size_bytes = none;
  status = as_str PackageStatus.installing;
  error_message = none;
  installed_at = clock.rfc3339;
  last_used_at = none;
  use_count = pos 0;
}

abbrev pub mark_ready : Option ℤ → PackageCache → PackageCache
mark_ready size_bytes cache = record cache {
  status = as_str PackageStatus.ready;
  size_bytes = size_bytes;
}

abbrev pub mark_failed : String → PackageCache → PackageCache
mark_failed error cache = record cache {
  status = as_str PackageStatus.failed;
  error_message = some error;
}

abbrev pub record_usage : Clock → PackageCache → PackageCache
record_usage clock cache = record cache {
  use_count = cache.use_count +ℤ pos 1;
  last_used_at = some clock.rfc3339;
}

-- `is_alphanumeric` is the table of Unicode.
module _ (is_alphanumeric : ℕ → Bool) where
  abbrev pub is_name_char : ℕ → Bool
  is_name_char c = is_alphanumeric c || nat_eq c b'_' || nat_eq c b'-' || nat_eq c b'.'

  unfoldable pub all_name_chars : String → Bool
  all_name_chars String.[] = true
  all_name_chars (String.◌∷◌ c s) = is_name_char (code c) && all_name_chars s

  unfoldable pub validate_package_name : String → Bool
  unfolding all_name_chars
  validate_package_name String.[] = false
  validate_package_name (String.◌∷◌ c s) =
      is_alphanumeric (code c) && all_name_chars (String.◌∷◌ c s)
