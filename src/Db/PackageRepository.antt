-- ===== src/Db/PackageRepository.antt =====
-- db/packages.rs: the tables `python_packages`, `job_dependencies` and `package_cache`. An upsert
-- looks for the row of its key first; ids are fresh.
use serverust_less.Prelude.{
  ℕ, Bool, true, false, not, ◌&&◌, String, Option, none, some, List, [], ◌∷◌, ◌++◌, map, find, any,
  filter, length, ◌==◌, str_append, if◌then◌else◌, order_by, compare_text, then_with,
}
use serverust_less.Action.{Action, ok, err, not_found, db_error}
use serverust_less.Model.PackageStatus.{as_str}
use serverust_less.Model.PackageStatus.{PackageStatus}
use serverust_less.Model.Package.{PythonPackage, JobDependency, PackageCache}
use serverust_less.Db.State.{System}

-- The tables with their rows replaced.
abbrev pub with_packages : List PythonPackage → System → System
with_packages rows s = record s { db = record s.db { python_packages = rows } }

abbrev pub with_dependencies : List JobDependency → System → System
with_dependencies rows s = record s { db = record s.db { job_dependencies = rows } }

abbrev pub with_cache : List PackageCache → System → System
with_cache rows s = record s { db = record s.db { package_cache = rows } }

abbrev pub same_package : PythonPackage → PythonPackage → Bool
same_package p row = row.name == p.name && row.version == p.version

abbrev describe : PythonPackage → PythonPackage → PythonPackage
describe p row =
    if same_package p row
    then record row { description = p.description; pypi_url = p.pypi_url }
    else row

unfoldable pub upsert_package : PythonPackage → Action System PythonPackage
upsert_package p s =
    if any (same_package p) s.python_packages
    then (ok p, with_packages (map (describe p) s.python_packages) s)
    else if any (λ row. row.id == p.id) s.python_packages
    then (err (db_error "UNIQUE constraint failed: python_packages.id"), s)
    else (ok p, with_packages (s.python_packages ++ p ∷ []) s)

unfoldable pub get_package : String → String → Action System (Option PythonPackage)
get_package name version s =
    (ok (find (λ row. row.name == name && row.version == version) s.python_packages), s)

unfoldable pub list_packages : Action System (List PythonPackage)
list_packages s = (
  ok (
      order_by (λ a b. then_with (compare_text a.name b.name) (compare_text a.version b.version))
        s.python_packages),
  s,
)

abbrev pub same_dependency : String → String → JobDependency → Bool
same_dependency job_id package_name row = row.job_id == job_id && row.package_name == package_name

abbrev constrain : JobDependency → JobDependency → JobDependency
constrain d row =
    if same_dependency d.job_id d.package_name row
    then record row { version_constraint = d.version_constraint }
    else row

-- The value returned is the argument, also where a row of another id was changed.
unfoldable pub add_dependency : JobDependency → Action System JobDependency
add_dependency d s =
    if any (same_dependency d.job_id d.package_name) s.job_dependencies
    then (ok d, with_dependencies (map (constrain d) s.job_dependencies) s)
    else if any (λ row. row.id == d.id) s.job_dependencies
    then (err (db_error "UNIQUE constraint failed: job_dependencies.id"), s)
    else if any (λ job. job.id == d.job_id) s.jobs
    then (ok d, with_dependencies (s.job_dependencies ++ d ∷ []) s)
    else (err (db_error "FOREIGN KEY constraint failed"), s)

abbrev pub dependencies_of : String → List JobDependency → List JobDependency
dependencies_of job_id rows =
    order_by (λ a b. compare_text a.package_name b.package_name)
      (filter (λ d. d.job_id == job_id) rows)

unfoldable pub get_dependencies : String → Action System (List JobDependency)
get_dependencies job_id s = (ok (dependencies_of job_id s.job_dependencies), s)

abbrev pub dependency_not_found : String → String → String
dependency_not_found job_id package_name =
    str_append "Dependency " (str_append package_name (str_append " not found for job " job_id))

unfoldable pub delete_dependency : String → String → Action System Unit
delete_dependency job_id package_name s =
    if any (same_dependency job_id package_name) s.job_dependencies
    then (
      ok tt,
      with_dependencies
          (filter (λ d. not (same_dependency job_id package_name d)) s.job_dependencies) s,
    )
    else (err (not_found (dependency_not_found job_id package_name)), s)

unfoldable pub delete_job_dependencies : String → Action System ℕ
delete_job_dependencies job_id s = (
  ok (length (filter (λ d. d.job_id == job_id) s.job_dependencies)),
  with_dependencies (filter (λ d. not (d.job_id == job_id)) s.job_dependencies) s,
)

-- `venv_id = ?`, or `venv_id IS NULL` for `none`.
abbrev pub in_venv : Option String → Option String → Bool
in_venv none none = true
in_venv none (some b) = false
in_venv (some a) none = false
in_venv (some a) (some b) = b == a

abbrev pub of_venv : String → Option String → PackageCache → Bool
of_venv venv_type venv_id row = row.venv_type == venv_type && in_venv venv_id row.venv_id

-- The row of a package at a version in a venv.
abbrev pub cache_row : String → Option String → String → String → PackageCache → Bool
cache_row venv_type venv_id package_name version row =
    of_venv venv_type venv_id row && row.package_name == package_name && row.version == version

abbrev pub same_cache : PackageCache → PackageCache → Bool
same_cache c row = cache_row c.venv_type c.venv_id c.package_name c.version row

-- Only the statement for the main venv writes the path.
abbrev pub refresh_main : PackageCache → PackageCache → PackageCache
refresh_main c row =
    if same_cache c row
    then record row {
      status = c.status;
      error_message = c.error_message;
      size_bytes = c.size_bytes;
      last_used_at = c.last_used_at;
      use_count = c.use_count;
      installation_path = c.installation_path;
    }
    else row

abbrev pub refresh_custom : PackageCache → PackageCache → PackageCache
refresh_custom c row =
    if same_cache c row
    then record row {
      status = c.status;
      error_message = c.error_message;
      size_bytes = c.size_bytes;
      last_used_at = c.last_used_at;
      use_count = c.use_count;
    }
    else row

abbrev pub refresh : PackageCache → PackageCache → PackageCache
refresh c row = elim c.venv_id [ none ↦ refresh_main c row | some id ↦ refresh_custom c row ]

unfoldable pub upsert_cache : PackageCache → Action System PackageCache
upsert_cache c s =
    if any (same_cache c) s.package_cache
    then (ok c, with_cache (map (refresh c) s.package_cache) s)
    else if any (λ row. row.id == c.id) s.package_cache
    then (err (db_error "UNIQUE constraint failed: package_cache.id"), s)
    else (ok c, with_cache (s.package_cache ++ c ∷ []) s)

abbrev pub cached_in : String → Option String → List PackageCache → List PackageCache
cached_in venv_type venv_id rows =
    order_by (λ a b. compare_text a.package_name b.package_name)
      (filter (of_venv venv_type venv_id) rows)

unfoldable pub get_cache_by_venv : String → Option String → Action System (List PackageCache)
get_cache_by_venv venv_type venv_id s = (ok (cached_in venv_type venv_id s.package_cache), s)

-- The first row, whatever its version.
unfoldable pub get_cached_package :
    String → Option String → String → Action System (Option PackageCache)
get_cached_package venv_type venv_id package_name s = (
  ok (
      find (λ row. of_venv venv_type venv_id row && row.package_name == package_name)
        s.package_cache),
  s,
)

unfoldable pub delete_cache : String → Option String → String → String → Action System Unit
delete_cache venv_type venv_id package_name version s = (
  ok tt,
  with_cache
      (filter (λ row. not (cache_row venv_type venv_id package_name version row)) s.package_cache)
      s,
)

-- The total beside the rows is their number.
unfoldable pub list_all_cached : Action System (List PackageCache)
list_all_cached s = (
  ok (
      order_by
        (λ a b.
          then_with (compare_text a.package_name b.package_name) (compare_text a.version b.version))
        (filter (λ row. row.status == as_str PackageStatus.ready) s.package_cache)),
  s,
)
