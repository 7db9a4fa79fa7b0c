-- ===== src/Packages/Status.antt =====
-- PackageService::get_dependency_status: the loop over the dependencies, without the loop.
use serverust_less.Prelude.{
  ◌≡◌, refl, ap, ◌∙◌, Bool, true, false, ◌&&◌, String, Option, none, some, List, [], ◌∷◌, map, all,
  find, ◌==◌, arith, Bool-cases, inl, inr, if◌then◌else◌,
}
use serverust_less.Action.{ok}
use serverust_less.Model.Package.{JobDependency, PackageCache}
use serverust_less.Db.{System}
use serverust_less.Db.PackageRepository.{
  cached_in, dependencies_of, get_dependencies, get_cache_by_venv,
}
use serverust_less.Packages.{
  get_dependency_status, statuses, overall, install_status, status_of, entry_for,
}

abbrev pub entry_ready : Option PackageCache → Bool
entry_ready none = false
entry_ready (some c) = c.status == "ready"

-- The first entry of the dependency's name is ready.
abbrev pub satisfied : List PackageCache → JobDependency → Bool
satisfied cached d = entry_ready (find (λ c. c.package_name == d.package_name) cached)

abbrev pub summary : List PackageCache → List JobDependency → String
summary cached [] = "no_dependencies"
summary cached (d ∷ dependencies) =
    if all (satisfied cached) (d ∷ dependencies) then "ready" else "pending"

status_of-ready : (o : Option PackageCache) → ((status_of o).0 == "ready") ≡ entry_ready o
status_of-ready none = refl
status_of-ready (some c) = elim (Bool-cases (c.status == "ready")) [
  | inl ready ↦ rw ready refl
  | inr unready ↦ elim (Bool-cases (c.status == "installing")) [
    | inl installing ↦ rw unready (rw installing refl)
    | inr settled ↦ elim (Bool-cases (c.status == "failed")) [
      | inl failed ↦ rw unready (rw settled (rw failed refl))
      | inr unknown ↦ rw unready (rw settled (rw unknown refl))
    ]
  ]
]

overall-summary :
    (cached : List PackageCache) (dependencies : List JobDependency)
    → overall
        (map (install_status cached) dependencies, true && all (satisfied cached) dependencies)
      ≡ summary cached dependencies
overall-summary cached [] = refl
overall-summary cached (d ∷ dependencies) = ground arith

statuses-map :
    (cached : List PackageCache) (dependencies : List JobDependency) (b : Bool)
    → statuses cached dependencies b
      ≡ (map (install_status cached) dependencies, b && all (satisfied cached) dependencies)
unfolding statuses
statuses-map cached [] b = ground arith
statuses-map cached (d ∷ dependencies) b = ground (
  arith,
  status_of-ready (entry_for cached d),
  statuses-map cached dependencies (b && (status_of (entry_for cached d)).0 == "ready"),
)

-- The status of a job's dependencies lists each of them in order, and the overall status is
-- "no_dependencies" if there are none, "ready" if the first entry of each of them in the environment
-- is ready, and "pending" otherwise.
pub get_dependency_status-summary :
    (job_id venv_type : String) (venv_id : Option String) (s : System)
    → (get_dependency_status job_id venv_type venv_id s).0
      ≡ ok (
        summary
            (cached_in venv_type venv_id s.package_cache)
            (dependencies_of job_id s.job_dependencies),
        map
            (install_status (cached_in venv_type venv_id s.package_cache))
            (dependencies_of job_id s.job_dependencies),
      )
unfolding get_dependency_status get_dependencies get_cache_by_venv
get_dependency_status-summary job_id venv_type venv_id s =
    ap (λ r. ok (overall r, r.0))
      (statuses-map (cached_in venv_type venv_id s.package_cache)
        (dependencies_of job_id s.job_dependencies) true)
    ∙ ap
        (λ t. ok (
          t,
          map (install_status (cached_in venv_type venv_id s.package_cache))
              (dependencies_of job_id s.job_dependencies),
        ))
        (overall-summary (cached_in venv_type venv_id s.package_cache)
          (dependencies_of job_id s.job_dependencies))
