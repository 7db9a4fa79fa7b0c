-- ===== src/Packages/Conflicts.antt =====
-- Several versions of one package in the table: PackageService::install_package of another version.
use serverust_less.Prelude.{
  ◌≡◌, refl, Bool, false, ◌&&◌, String, none, some, [], ◌∷◌, ◌++◌, find, ◌==◌, arith, eq_iff,
}
use serverust_less.Action.{err, validation}
use serverust_less.Model.Clock.{Clock}
use serverust_less.Model.Text.{is_blank}
use serverust_less.Model.Package.{PackageCache}
use serverust_less.Db.{System}
use serverust_less.Db.PackageRepository.{get_cached_package, of_venv, with_cache}
use serverust_less.Pip
use serverust_less.Packages.{
  PackageService, Workers, install_package, check_conflict, installing_entry, as_ready,
  conflict_text,
}

-- The rows of a package in the main venv.
abbrev pub in_main : String → PackageCache → Bool
in_main name row = of_venv "main" none row && row.package_name == name

-- The entry of an installation that succeeded with version v, and the table with it.
abbrev pub new_entry : Workers → Clock → String → String → String → String → PackageCache
new_entry w clock id name version v =
    as_ready (some v) (installing_entry clock id w.main_venv_path name (some version))

abbrev pub upgraded : Workers → Clock → String → String → String → String → System → System
upgraded w clock id name version v s =
    with_cache (s.package_cache ++ new_entry w clock id name version v ∷ []) s

check_conflict-err :
    (strategy name version : String) (s : System) {old : PackageCache}
    → find (in_main name) s.package_cache ≡ some old
    → old.status ≡ "ready"
    → strategy ≡ "fail"
    → (old.version == version) ≡ false
    → (version == "*") ≡ false
    → check_conflict strategy name (some version) s
      ≡ (err (validation (conflict_text name old.version version)), s)
unfolding check_conflict get_cached_package
check_conflict-err strategy name version s {old} first ready fails other given =
    rw (first, get_cached_package)
      (ground (
        arith,
        (eq_iff old.status "ready").1 ready,
        (eq_iff strategy "fail").1 fails,
        other,
        given,
      ))

module _ (service : PackageService) (w : Workers) (clock : Clock) (id name : String) (s : System)
    {old : PackageCache} (named : is_blank name ≡ false) (works : service.workers ≡ some w)
    (first : find (in_main name) s.package_cache ≡ some old) (ready : old.status ≡ "ready") where
  -- If the strategy is "fail", and the first row of a package in the main venv is ready at some
  -- version, then a request for any other version text is refused with a validation error, and
  -- nothing changes: also for a constraint that the installed version meets, such as ">=2.0", since
  -- the texts are compared.
  pub install_package-Refused :
      (version : String)
      → service.conflict_strategy ≡ "fail"
      → (old.version == version) ≡ false
      → (version == "*") ≡ false
      → install_package service clock id name (some version) s
        ≡ (err (validation (conflict_text name old.version version)), s)
  unfolding install_package
  install_package-Refused version strategy other given =
      rw (named, install_package)
        (rw (works) (
          rw
            (check_conflict-err service.conflict_strategy name version s first ready strategy other
              given)
            refl))
