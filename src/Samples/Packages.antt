-- ===== src/Samples/Packages.antt =====
-- The theorems on packages, at an environment with one package.
use serverust_less.Prelude.{
  String, ◌≡◌, refl, none, some, true, false, List, [], ◌∷◌, map, pos, str_append,
}
use serverust_less.Action.{ok}
use serverust_less.Model.Package.{PackageCache, JobDependency}
use serverust_less.Model.Text.{starts_with}
use serverust_less.Db.{System}
use serverust_less.Db.PackageRepository.{cached_in, dependencies_of}
use serverust_less.Pip
use serverust_less.Pip.{
  PipOutput, PackageManager, exited, not_run, succeeded, install_args, package_spec, has_operator,
  installed, get_installed_version, shown_version, version_of,
}
use serverust_less.Pip.Versions.{install_package-version}
use serverust_less.Packages.{
  Workers, PackageService, install_package, get_dependency_status, install_status,
}
use serverust_less.Packages.Changes.{installs, change, Unique, change-Unique}
use serverust_less.Packages.Status.{summary, get_dependency_status-summary}
use serverust_less.Api.Packages.{clear_main_venv}
use serverust_less.Api.Packages.Clear.{Cleared, clear_main_venv-Cleared}
use serverust_less.Samples.{noon, waiting}

abbrev package_manager : PackageManager
package_manager = record { use_cache = false; cache_dir = none }

-- pip installs what it is asked for, and shows version 2.0.
abbrev answers : List String → PipOutput
answers [] = not_run ""
answers (command ∷ rest) = exited true ("Name: requests" ∷ str_append "Version: " "2.0" ∷ []) ""

abbrev workers : Workers
workers = record {
  main_venv_path = "/data/main";
  main_venv_exists = true;
  create_error = none;
  package_manager = package_manager;
  pip = answers;
}

abbrev service : PackageService
service = record { workers = some workers; conflict_strategy = "force_upgrade" }

abbrev old_entry : PackageCache
old_entry = record {
  id = "c1";
  venv_type = "main";
  venv_id = none;
  package_name = "requests";
  version = "1.0";
  installation_path = "/data/main";
  size_bytes = none;
  status = "ready";
  error_message = none;
  installed_at = "";
  last_used_at = none;
  use_count = pos 0;
}

abbrev needs : JobDependency
needs = record {
  id = "d1";
  job_id = "j1";
  package_name = "requests";
  version_constraint = "*";
  created_at = "";
}

abbrev with_requests : System
with_requests = record waiting {
  db = record waiting.db { package_cache = old_entry ∷ []; job_dependencies = needs ∷ [] };
}

install_package-version_example :
    Pip.install_package answers package_manager "requests" (some "2.0")
    ≡ succeeded "requests" (some "2.0")
unfolding starts_with install_args
install_package-version_example =
    install_package-version answers package_manager "requests" (some "2.0")
      ("Name: requests" ∷ str_append "Version: " "2.0" ∷ []) ("Name: requests" ∷ []) [] "" "" "2.0"
      (refl, (refl, (refl, tt))) (refl, tt) refl refl

change-Unique_example :
    Unique (change (installs service noon "c2" "requests" (some "2.0")) with_requests)
change-Unique_example =
    change-Unique (installs service noon "c2" "requests" (some "2.0")) with_requests (refl, tt)

get_dependency_status-summary_example :
    (get_dependency_status "j1" "main" none with_requests).0
    ≡ ok (
      summary
          (cached_in "main" none with_requests.package_cache)
          (dependencies_of "j1" with_requests.job_dependencies),
      map
          (install_status (cached_in "main" none with_requests.package_cache))
          (dependencies_of "j1" with_requests.job_dependencies),
    )
get_dependency_status-summary_example = get_dependency_status-summary "j1" "main" none with_requests

clear_main_venv-Cleared_example : Cleared with_requests (clear_main_venv with_requests)
clear_main_venv-Cleared_example = clear_main_venv-Cleared with_requests
