-- ===== src/Packages.antt =====
-- services/package_service.rs: PackageService. Fresh ids are arguments. The main venv on disk and
-- pip are in `Workers`: whether the venv exists, how its creation fails, what pip answers.
pub mod Cache
pub mod Changes
pub mod Status
pub mod Conflicts
use serverust_less.Prelude.{
  Bool, true, false, not, ◌&&◌, String, Option, none, some, List, [], ◌∷◌, find, filter, ◌==◌,
  str_append, if◌then◌else◌, pos,
}
use serverust_less.Action.{Action, validation, internal, pure, throw, ◌>>=◌, ◌>>◌, try_or, for_each}
use serverust_less.Model.Clock.{Clock}
use serverust_less.Model.Text.{is_blank, same_lowercase}
use serverust_less.Model.PackageStatus.{as_str}
use serverust_less.Model.PackageStatus.{PackageStatus}
use serverust_less.Model.Package.{JobDependency, PackageCache, new_dependency}
use serverust_less.Db.{System}
use serverust_less.Db.PackageRepository
use serverust_less.Pip
use serverust_less.Pip.{InstallResult, PackageManager, PipOutput}

pub record Workers : Type 0 where
  pub main_venv_path : String
  pub main_venv_exists : Bool
  pub create_error : Option String
  pub package_manager : PackageManager
  pub pip : List String → PipOutput

pub record PackageService : Type 0 where
  pub workers : Option Workers
  pub conflict_strategy : String

abbrev pub requested : Option String → String
requested none = "latest"
requested (some version) = version

-- The entry before pip runs.
abbrev pub installing_entry : Clock → String → String → String → Option String → PackageCache
installing_entry clock id path name version = record {
  id = id;
  venv_type = "main";
  venv_id = none;
  package_name = name;
  version = requested version;
  installation_path = path;
  size_bytes = none;
  status = as_str PackageStatus.installing;
  error_message = none;
  installed_at = clock.rfc3339;
  last_used_at = some clock.rfc3339;
  use_count = pos 0;
}

abbrev pub is_conflict : PackageCache → String → Bool
is_conflict existing version =
    existing.status == as_str PackageStatus.ready
    && not (existing.version == version)
    && not (version == "*")

abbrev pub conflict_text : String → String → String → String
conflict_text name installed version = str_append "Package conflict: " (
    str_append name (
      str_append " v" (
        str_append installed (
          str_append " is already installed in main-venv. Requested v" (
            str_append version
              ". Use a custom venv or change the conflict resolution strategy.")))))

-- Every strategy but "fail" goes on; an error of the lookup is ignored.
unfoldable pub check_conflict : String → String → Option String → Action System Unit
unfolding PackageRepository.get_cached_package
check_conflict strategy name none = pure tt
check_conflict strategy name (some version) =
    PackageRepository.get_cached_package "main" none name >>= λ found. elim found [
      | none ↦ pure tt
      | some existing ↦
          if is_conflict existing version && strategy == "fail"
          then throw (validation (conflict_text name existing.version version))
          else pure tt
    ]

abbrev pub as_ready : Option String → PackageCache → PackageCache
as_ready none cache = record cache { status = as_str PackageStatus.ready; error_message = none }
as_ready (some version) cache = record cache {
  version = version;
  status = as_str PackageStatus.ready;
  error_message = none;
}

abbrev pub as_failed : String → PackageCache → PackageCache
as_failed error cache = record cache {
  status = as_str PackageStatus.failed;
  error_message = some error;
}

abbrev pub failed_with : Option String → String
failed_with none = "Package installation failed"
failed_with (some e) = str_append "Package installation failed: " e

abbrev pub error_or : String → Option String → String
error_or default none = default
error_or default (some e) = e

-- The entry is written once, with the outcome.
unfoldable pub store_result : InstallResult → PackageCache → Action System PackageCache
unfolding PackageRepository.upsert_cache
store_result r cache =
    if r.success
    then PackageRepository.upsert_cache (as_ready r.version cache)
    else PackageRepository.upsert_cache
        (as_failed (error_or "Unknown installation error" r.error) cache)
      >> throw (internal (failed_with r.error))

abbrev pub ensure_main_venv : Workers → Action System Unit
ensure_main_venv w =
    if not w.main_venv_exists
    then (elim w.create_error [
      | none ↦ pure tt
      | some e ↦ throw (internal (str_append "Failed to create main venv: " e))
    ])
    else pure tt

unfoldable pub install_package :
    PackageService → Clock → String → String → Option String → Action System PackageCache
unfolding check_conflict store_result Pip.install_package is_blank
install_package service clock id name version =
    if is_blank name
    then throw (validation "Package name cannot be empty")
    else elim service.workers [
      | none ↦ throw (internal "Package installation service not available")
      | some w ↦
          check_conflict service.conflict_strategy name version
          >> ensure_main_venv w
          >> store_result (Pip.install_package w.pip w.package_manager name version)
              (installing_entry clock id w.main_venv_path name version)
    ]

unfoldable pub is_package_installed : String → Action System Bool
unfolding PackageRepository.get_cached_package
is_package_installed name = PackageRepository.get_cached_package "main" none name >>= λ found.
    elim found [ none ↦ pure false | some _ ↦ pure true ]

-- `let _ = delete_cache(...)`, for an entry of the main venv.
abbrev pub forget_entry : PackageCache → Action System Unit
forget_entry entry =
    try_or (PackageRepository.delete_cache "main" none entry.package_name entry.version)
      (λ _. pure tt) (λ _. pure tt)

unfoldable pub uninstall_package : PackageService → String → Action System Unit
unfolding Pip.uninstall_package is_blank same_lowercase for_each PackageRepository.get_cache_by_venv
    PackageRepository.delete_cache
uninstall_package service name =
    if is_blank name
    then throw (validation "Package name cannot be empty")
    else elim service.workers [
      | none ↦ throw (internal "Package uninstall service not available")
      | some w ↦
          let r = Pip.uninstall_package w.pip w.package_manager name in
          if not r.success
          then throw (
              internal (str_append "Package uninstall failed: " (error_or "Unknown error" r.error)))
          else PackageRepository.get_cache_by_venv "main" none >>= λ cached.
              for_each forget_entry (filter (λ e. same_lowercase e.package_name name) cached)
    ]

unfoldable pub remove_package : String → String → Action System Unit
unfolding PackageRepository.delete_cache
remove_package name version = PackageRepository.delete_cache "main" none name version

unfoldable pub add_dependency :
    Clock → String → String → String → Option String → Action System JobDependency
unfolding PackageRepository.add_dependency is_blank
add_dependency clock id job_id name version_constraint =
    if is_blank name
    then throw (validation "Package name cannot be empty")
    else PackageRepository.add_dependency (new_dependency clock id job_id name version_constraint)

-- The old row is deleted, if there is one, and a new one created.
unfoldable pub update_dependency :
    Clock → String → String → String → String → Action System JobDependency
unfolding PackageRepository.delete_dependency PackageRepository.add_dependency
update_dependency clock id job_id name version_constraint =
    let add =
      PackageRepository.add_dependency
        (new_dependency clock id job_id name (some version_constraint)) in
    try_or (PackageRepository.delete_dependency job_id name) (λ _. add) (λ _. add)

unfoldable pub remove_dependency : String → String → Action System Unit
unfolding PackageRepository.delete_dependency
remove_dependency job_id name = PackageRepository.delete_dependency job_id name

pub record PackageInstallStatus : Type 0 where
  pub name : String
  pub required : String
  pub installed : Option String
  pub status : String

-- The status of a dependency by the first entry of its name.
abbrev pub status_of : Option PackageCache → String × Option String
status_of none = ("not_installed", none)
status_of (some c) =
    if c.status == as_str PackageStatus.ready
    then ("ready", some c.version)
    else if c.status == as_str PackageStatus.installing
    then ("installing", none)
    else if c.status == as_str PackageStatus.failed
    then ("failed", none)
    else ("not_installed", none)

abbrev pub entry_for : List PackageCache → JobDependency → Option PackageCache
entry_for cached d = find (λ c. c.package_name == d.package_name) cached

abbrev pub install_status : List PackageCache → JobDependency → PackageInstallStatus
install_status cached d = record {
  name = d.package_name;
  required = d.version_constraint;
  installed = (status_of (entry_for cached d)).1;
  status = (status_of (entry_for cached d)).0;
}

-- The loop over the dependencies: the statuses, and whether all are ready.
unfoldable pub statuses :
    List PackageCache → List JobDependency → Bool → List PackageInstallStatus × Bool
statuses cached [] all_ready = ([], all_ready)
statuses cached (d ∷ dependencies) all_ready =
    let rest =
      statuses cached dependencies (all_ready && (status_of (entry_for cached d)).0 == "ready") in
    (install_status cached d ∷ rest.0, rest.1)

abbrev pub overall : List PackageInstallStatus × Bool → String
overall ([], all_ready) = "no_dependencies"
overall (p ∷ packages, true) = "ready"
overall (p ∷ packages, false) = "pending"

unfoldable pub get_dependency_status :
    String → String → Option String → Action System (String × List PackageInstallStatus)
unfolding statuses PackageRepository.get_dependencies PackageRepository.get_cache_by_venv
get_dependency_status job_id venv_type venv_id = do
  dependencies ← PackageRepository.get_dependencies job_id
  cached ← PackageRepository.get_cache_by_venv venv_type venv_id
  let r = statuses cached dependencies true
  pure (overall r, r.0)
