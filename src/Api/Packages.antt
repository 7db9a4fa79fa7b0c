-- ===== src/Api/Packages.antt =====
-- The handlers of api/packages.rs that combine calls of the services. `message` is the `Display` of
-- an error, `ids` the fresh id for a package's name.
pub mod Clear
use serverust_less.Prelude.{
  ℕ, ◌+◌, String, Option, none, some, List, [], ◌∷◌, ◌==◌, str_append, if◌then◌else◌, map, length,
  suc,
}
use serverust_less.Action.{Action, AppError, pure, ◌>>=◌, ◌>>◌, try_or, for_each}
use serverust_less.Model.Bulk.{BulkOperationResponse}
use serverust_less.Model.Clock.{Clock}
use serverust_less.Model.Package.{JobDependency, PackageCache}
use serverust_less.Db.{System}
use serverust_less.Db.JobRepository
use serverust_less.Db.PackageRepository
use serverust_less.Packages
use serverust_less.Packages.{PackageService, install_package, remove_package}

abbrev pub nothing : BulkOperationResponse
nothing = record { success_count = 0; failure_count = 0; errors = [] }

-- The job is looked up first, so that a missing job is "not found".
unfoldable pub add_job_dependency :
    Clock → String → String → String → Option String → Action System JobDependency
unfolding JobRepository.get_by_id Packages.add_dependency
add_job_dependency clock id job_id name version_constraint = do
  JobRepository.get_by_id job_id
  Packages.add_dependency clock id job_id name version_constraint

abbrev pub wanted : JobDependency → String × Option String
wanted d = (d.package_name, if d.version_constraint == "*" then none else some d.version_constraint)

-- `let _ = remove_package(...)`
abbrev pub forget_package : PackageCache → Action System Unit
forget_package p = try_or (remove_package p.package_name p.version) (λ _. pure tt) (λ _. pure tt)

-- The entries of the main venv are deleted; the venv itself is left alone. The value is their
-- number.
unfoldable pub clear_main_venv : Action System ℕ
unfolding PackageRepository.get_cache_by_venv remove_package for_each
clear_main_venv = do
  packages ← PackageRepository.get_cache_by_venv "main" none
  for_each forget_package packages
  pure (length packages)

abbrev pub and_succeeded : BulkOperationResponse → BulkOperationResponse
and_succeeded r = record r { success_count = suc r.success_count }

-- The error's text is put before those of the later packages.
abbrev pub and_failed : String → BulkOperationResponse → BulkOperationResponse
and_failed text r = record r { failure_count = suc r.failure_count; errors = text ∷ r.errors }

module _ (message : AppError → String) (service : PackageService) (clock : Clock)
    (ids : String → String) where
  -- The loop over the packages: the counts add up from the last one, the errors are in order.
  unfoldable pub install_each : List (String × Option String) → Action System BulkOperationResponse
  unfolding install_package
  install_each [] = pure nothing
  install_each (p ∷ packages) =
      let rest = install_each packages in
      try_or (install_package service clock (ids p.0) p.0 p.1)
        (λ _. rest >>= λ r. pure (and_succeeded r))
        (λ e. rest >>= λ r. pure (and_failed (str_append p.0 (str_append ": " (message e))) r))

  unfoldable pub update_main_venv_packages : Action System BulkOperationResponse
  unfolding install_each PackageRepository.get_cache_by_venv
  update_main_venv_packages = do
    packages ← PackageRepository.get_cache_by_venv "main" none
    install_each (map (λ p. (p.package_name, none)) packages)

  -- Without dependencies the job is not looked up.
  unfoldable pub install_job_dependencies : String → Action System BulkOperationResponse
  unfolding install_each PackageRepository.get_dependencies JobRepository.get_by_id
  install_job_dependencies job_id = PackageRepository.get_dependencies job_id >>= λ dependencies.
      elim dependencies [
        | [] ↦ pure nothing
        | d ∷ rest ↦ JobRepository.get_by_id job_id >> install_each (map wanted (d ∷ rest))
      ]
