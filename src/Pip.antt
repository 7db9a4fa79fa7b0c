-- ===== src/Pip.antt =====
-- worker/package_manager.rs: PackageManager, on Unix. What pip answers to its arguments is a
-- parameter; the lock of the main venv orders the calls and changes nothing else.
pub mod Versions
use serverust_less.Prelude.{
  Bool, true, false, not, ◌||◌, String, Option, none, some, List, [], ◌∷◌, ◌++◌, ◌==◌, str_append,
  if◌then◌else◌, map,
}
use serverust_less.Action.{Result}
use serverust_less.Model.Text.{starts_with, remove_from, trim}

pub record InstallResult : Type 0 where
  pub success : Bool
  pub package_name : String
  pub version : Option String
  pub error : Option String

pub record PackageManager : Type 0 where
  pub use_cache : Bool
  pub cache_dir : Option String

-- What running pip gives: its success, the lines of its output and its error text; or that it
-- could not be run, or ran out of time.
pub data PipOutput : Type 0 where
  exited : Bool → List String → String → PipOutput
  not_run : String → PipOutput
  timed_out : PipOutput

unfoldable pub has_operator : String → Bool
unfolding starts_with
has_operator c =
    starts_with c "=="
    || starts_with c ">="
    || starts_with c "<="
    || starts_with c ">"
    || starts_with c "<"
    || starts_with c "~="
    || starts_with c "!="

unfoldable pub package_spec : String → Option String → String
unfolding has_operator
package_spec name none = name
package_spec name (some constraint) =
    if not (constraint == "*")
    then if has_operator constraint
      then str_append name constraint
      else str_append name (str_append "==" constraint)
    else name

abbrev pub cache_args : Bool → Option String → List String
cache_args true none = []
cache_args true (some dir) = str_append "--cache-dir=" dir ∷ []
cache_args false dir = "--no-cache-dir" ∷ []

unfoldable pub install_args : PackageManager → String → Option String → List String
unfolding package_spec
install_args pm name constraint =
    "install" ∷ package_spec name constraint ∷ "--no-input" ∷ cache_args pm.use_cache pm.cache_dir

abbrev pub failure : String → String → InstallResult
failure name e = record { success = false; package_name = name; version = none; error = some e }

abbrev pub succeeded : String → Option String → InstallResult
succeeded name version = record {
  success = true;
  package_name = name;
  version = version;
  error = none;
}

-- The first line with a version; `line.replace("Version:", "").trim()`.
unfoldable pub version_of : List String → Option String
unfolding starts_with remove_from
version_of [] = none
version_of (line ∷ lines) =
    let rest = version_of lines in
    if starts_with line "Version:" then some (trim (remove_from 7 "Version:" 0 line)) else rest

unfoldable pub shown_version : PipOutput → Option String
unfolding version_of
shown_version (exited true lines stderr) = version_of lines
shown_version _ = none

module _ (pip : List String → PipOutput) (pm : PackageManager) where
  unfoldable pub get_installed_version : String → Option String
  unfolding shown_version
  get_installed_version name = shown_version (pip ("show" ∷ name ∷ []))

  unfoldable pub installed : String → PipOutput → InstallResult
  unfolding get_installed_version
  installed name (exited true lines stderr) = succeeded name (get_installed_version name)
  installed name (exited false lines stderr) = failure name stderr
  installed name (not_run e) = failure name (str_append "Failed to run pip: " e)
  installed name timed_out = failure name "Installation timed out"

  unfoldable pub install_package : String → Option String → InstallResult
  unfolding installed install_args
  install_package name constraint = installed name (pip (install_args pm name constraint))

  -- No time limit is set for this call.
  unfoldable pub uninstalled : String → PipOutput → InstallResult
  uninstalled name (exited true lines stderr) = succeeded name none
  uninstalled name (exited false lines stderr) = failure name stderr
  uninstalled name (not_run e) = failure name (str_append "Failed to run pip: " e)
  uninstalled name timed_out = failure name ""

  unfoldable pub uninstall_package : String → InstallResult
  unfolding uninstalled
  uninstall_package name = uninstalled name (pip ("uninstall" ∷ name ∷ "-y" ∷ []))

  unfoldable pub is_installed : String → Bool
  unfolding get_installed_version
  is_installed name = elim (get_installed_version name) [ none ↦ false | some v ↦ true ]

  unfoldable pub install_packages : List (String × Option String) → List InstallResult
  unfolding install_package
  install_packages packages = map (λ p. install_package p.0 p.1) packages
