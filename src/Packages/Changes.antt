-- ===== src/Packages/Changes.antt =====
-- What the package service keeps of the table of installed packages.
use serverust_less.Prelude.{
  ◌≡◌, refl, sym, subst, inl, inr, String, Option, none, some, filter, arith, Bool-cases,
  Option-cases,
}
use serverust_less.Action.{pure, throw, internal, ◌>>◌}
use serverust_less.Action.Keeps.{bind-Keeps, try_or-Keeps, for_each-Keeps}
use serverust_less.Model.Clock.{Clock}
use serverust_less.Model.Text.{is_blank, same_lowercase}
use serverust_less.Model.Package.{PackageCache}
use serverust_less.Db.{System}
use serverust_less.Db.PackageRepository.{
  upsert_cache, delete_cache, get_cache_by_venv, get_cached_package, cached_in,
}
use serverust_less.Pip
use serverust_less.Pip.{InstallResult}
use serverust_less.Packages.{
  PackageService, Workers, install_package, uninstall_package, remove_package, check_conflict,
  ensure_main_venv, store_result, forget_entry, as_ready, as_failed, error_or, failed_with,
  installing_entry,
}
use serverust_less.Packages.Cache.{IsUnique, upsert_cache-IsUnique, delete_cache-IsUnique}

abbrev pub Unique : System → Type 0
Unique s = IsUnique s.package_cache

-- The two checks before the installation change nothing.
check_conflict-state :
    (strategy name : String) (version : Option String) (s : System)
    → (check_conflict strategy name version s).1 ≡ s
unfolding check_conflict get_cached_package
check_conflict-state strategy name none s = refl
check_conflict-state strategy name (some v) s = ground arith

ensure_main_venv-state : (w : Workers) (s : System) → (ensure_main_venv w s).1 ≡ s
ensure_main_venv-state w s = ground arith

check_conflict-Unique :
    (strategy name : String) (version : Option String) (s : System)
    → Unique s
    → Unique (check_conflict strategy name version s).1
check_conflict-Unique strategy name version s u =
    subst Unique (sym (check_conflict-state strategy name version s)) u

ensure_main_venv-Unique : (w : Workers) (s : System) → Unique s → Unique (ensure_main_venv w s).1
ensure_main_venv-Unique w s u = subst Unique (sym (ensure_main_venv-state w s)) u

store_result-Unique :
    (r : InstallResult) (cache : PackageCache) (s : System)
    → Unique s
    → Unique (store_result r cache s).1
unfolding store_result
store_result-Unique r cache s u = elim (Bool-cases r.success) [
  | inl done ↦ rw done (upsert_cache-IsUnique (as_ready r.version cache) s u)
  | inr failed ↦
      let entry = as_failed (error_or "Unknown installation error" r.error) cache in
      rw failed (
        bind-Keeps Unique (upsert_cache entry) (λ _. throw (internal (failed_with r.error)))
          (upsert_cache-IsUnique entry) (λ a t q. q) s u)
]

pub install_package-Unique :
    (service : PackageService) (clock : Clock) (id name : String) (version : Option String)
    (s : System)
    → Unique s
    → Unique (install_package service clock id name version s).1
unfolding install_package
install_package-Unique service clock id name version s u = elim (Bool-cases (is_blank name)) [
  | inl blank ↦ rw blank u
  | inr given ↦ elim (Option-cases service.workers) [
    | inl missing ↦ rw given (rw missing u)
    | inr (w, there) ↦ rw given (
        rw there (
          bind-Keeps Unique
            (check_conflict service.conflict_strategy name version >> ensure_main_venv w)
            (λ _.
              store_result (Pip.install_package w.pip w.package_manager name version)
                (installing_entry clock id w.main_venv_path name version))
            (bind-Keeps Unique (check_conflict service.conflict_strategy name version)
              (λ _. ensure_main_venv w)
              (check_conflict-Unique service.conflict_strategy name version)
              (λ _ t q. ensure_main_venv-Unique w t q))
            (λ _ t q.
              store_result-Unique (Pip.install_package w.pip w.package_manager name version)
                (installing_entry clock id w.main_venv_path name version) t q)
            s u))
  ]
]

forget_entry-Unique : (e : PackageCache) (s : System) → Unique s → Unique (forget_entry e s).1
forget_entry-Unique e =
    try_or-Keeps Unique (delete_cache "main" none e.package_name e.version) (λ _. pure tt)
      (λ _. pure tt) (delete_cache-IsUnique "main" none e.package_name e.version) (λ _ t q. q)
      (λ _ t q. q)

uninstall_package-Unique :
    (service : PackageService) (name : String) (s : System)
    → Unique s
    → Unique (uninstall_package service name s).1
unfolding uninstall_package get_cache_by_venv
uninstall_package-Unique service name s u = elim (Bool-cases (is_blank name)) [
  | inl blank ↦ rw blank u
  | inr given ↦ elim (Option-cases service.workers) [
    | inl missing ↦ rw given (rw missing u)
    | inr (w, there) ↦
        elim (Bool-cases (Pip.uninstall_package w.pip w.package_manager name).success) [
          | inl done ↦ rw given (
              rw there (
                rw done (
                  for_each-Keeps Unique forget_entry forget_entry-Unique
                    (filter (λ e. same_lowercase e.package_name name)
                      (cached_in "main" none s.package_cache))
                    s u)))
          | inr failed ↦ rw given (rw there (rw failed u))
        ]
  ]
]

-- What changes the table of installed packages, with what each operation needs from outside.
pub data Change : Type 0 where
  installs : PackageService → Clock → String → String → Option String → Change
  uninstalls : PackageService → String → Change
  removes : String → String → Change
  records : PackageCache → Change

unfoldable pub change : Change → System → System
unfolding install_package uninstall_package remove_package upsert_cache
change (installs service clock id name version) s =
    (install_package service clock id name version s).1
change (uninstalls service name) s = (uninstall_package service name s).1
change (removes name version) s = (remove_package name version s).1
change (records cache) s = (upsert_cache cache s).1

-- Whatever is done to the installed packages, one operation after the other, whatever pip answers:
-- no two rows are of one package at one version in one venv, be it the main venv or another.
pub change-Unique : (c : Change) (s : System) → Unique s → Unique (change c s)
unfolding change remove_package
change-Unique (installs service clock id name version) s u =
    install_package-Unique service clock id name version s u
change-Unique (uninstalls service name) s u = uninstall_package-Unique service name s u
change-Unique (removes name version) s u = delete_cache-IsUnique "main" none name version s u
change-Unique (records cache) s u = upsert_cache-IsUnique cache s u
