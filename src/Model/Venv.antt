-- ===== src/Model/Venv.antt =====
-- Venv of models/venv.rs, its constructors and its transitions.
use serverust_less.Prelude.{Bool, String, Option, none, some, ℤ, pos, ◌==◌}
use serverust_less.Model.Clock.{Clock}
use serverust_less.Model.VenvStatus
use serverust_less.Model.VenvStatus.{VenvStatus}
use serverust_less.Model.VenvType
use serverust_less.Model.VenvType.{VenvType}

pub record Venv : Type 0 where
  pub id : String
  pub venv_type : String
  pub job_id : Option String
  pub path : String
  pub python_version : Option String
  pub status : String
  pub size_bytes : Option ℤ
  pub package_count : ℤ
  pub error_message : Option String
  pub created_at : String
  pub updated_at : String
  pub last_used_at : Option String

-- What the three constructors share.
abbrev new_venv : Clock → String → VenvType → Option String → String → Option String → Venv
new_venv clock id venv_type job_id path python_version = record {
  id = id;
  venv_type = VenvType.as_str venv_type;
  job_id = job_id;
  path = path;
  python_version = python_version;
  status = VenvStatus.as_str VenvStatus.creating;
  size_bytes = none;
  package_count = pos 0;
  error_message = none;
  created_at = clock.rfc3339;
  updated_at = clock.rfc3339;
  last_used_at = none;
}

abbrev pub new_main : Clock → String → Option String → Venv
new_main clock path python_version =
    new_venv clock "main-venv" VenvType.main none path python_version

-- The fresh identifier is an argument.
abbrev pub new_custom : Clock → String → String → String → Option String → Venv
new_custom clock id job_id path python_version =
    new_venv clock id VenvType.custom (some job_id) path python_version

-- The name is not kept.
abbrev pub new_standalone : Clock → String → String → String → Option String → Venv
new_standalone clock id name path python_version =
    new_venv clock id VenvType.custom none path python_version

abbrev pub mark_ready : Clock → Venv → Venv
mark_ready clock v = record v {
  status = VenvStatus.as_str VenvStatus.ready;
  updated_at = clock.rfc3339;
}

abbrev pub mark_updating : Clock → Venv → Venv
mark_updating clock v = record v {
  status = VenvStatus.as_str VenvStatus.updating;
  updated_at = clock.rfc3339;
}

abbrev pub mark_failed : Clock → String → Venv → Venv
mark_failed clock error v = record v {
  status = VenvStatus.as_str VenvStatus.failed;
  error_message = some error;
  updated_at = clock.rfc3339;
}

abbrev pub record_usage : Clock → Venv → Venv
record_usage clock v = record v { last_used_at = some clock.rfc3339 }

abbrev pub set_package_count : Clock → ℤ → Venv → Venv
set_package_count clock count v = record v { package_count = count; updated_at = clock.rfc3339 }

abbrev pub is_ready : Venv → Bool
is_ready v = v.status == VenvStatus.as_str VenvStatus.ready
