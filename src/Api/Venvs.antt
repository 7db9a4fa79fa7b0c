-- ===== src/Api/Venvs.antt =====
-- The handlers of api/venvs.rs that combine calls. What the disk and the executables tell is in
-- `Disk`; fresh ids are arguments.
pub mod Invariant
use serverust_less.Prelude.{
  Bool, not, ◌||◌, String, Option, none, some, ◌==◌, str_append, if◌then◌else◌,
}
use serverust_less.Action.{
  Action, Result, ok, err, bad_request, not_found, internal, pure, throw, lift, ◌>>=◌, ◌>>◌,
}
use serverust_less.Model.Clock.{Clock}
use serverust_less.Model.Text.{trim, contains_char}
use serverust_less.Model.Job.{Job}
use serverust_less.Model.Venv.{Venv, new_standalone}
use serverust_less.Model.Venv
use serverust_less.Db.{System}
use serverust_less.Db.JobRepository
use serverust_less.Db.VenvRepository
use serverust_less.Jobs.{update_job, only_custom_venv}
use serverust_less.Venvs
use serverust_less.Venvs.{create_standalone_venv}
use serverust_less.Venvs.Python.{resolve_python_for_version}

-- `create_named` is the error of a creation, by name and executable.
pub record Disk : Type 0 where
  pub named_venv_exists : String → Bool
  pub named_venv_path : String → String
  pub python_executable : String
  pub runs : String → Bool
  pub create_named : String → String → Option String
  pub get_python_version : String → Option String

pub record CreateVenvRequest : Type 0 where
  pub name : String
  pub python_version : Option String

abbrev pub quoted : String → String → String → String
quoted before text after = str_append before (str_append text after)

-- The checks of the trimmed name.
abbrev pub refuse_name : Disk → String → Result (Unit {0})
refuse_name disk name =
    if name == ""
    then err (bad_request "Venv name cannot be empty")
    else if name == "main"
    then err (bad_request "'main' is a reserved name")
    else if contains_char b'/' name || contains_char b'\\' name || contains_char b'.' name
    then err (bad_request "Venv name must not contain path separators or dots")
    else if disk.named_venv_exists name
    then err (bad_request (quoted "Virtual environment '" name "' already exists on disk"))
    else ok tt

abbrev pub resolved : String → Option String → Result String
resolved hint none = err (bad_request (quoted "No Python executable found for version '" hint "'"))
resolved hint (some executable) = ok executable

-- The executable for the version that is asked for, or the configured one.
abbrev pub choose_python : Disk → Option String → Result String
choose_python disk none = ok disk.python_executable
choose_python disk (some hint) = resolved hint (resolve_python_for_version disk.runs hint)

abbrev pub created_on : Disk → String → String → Result (Unit {0})
created_on disk name executable = elim (disk.create_named name executable) [
  | none ↦ ok tt
  | some e ↦ err (internal e)
]

abbrev pub detected : Option String → Option String → Option String
detected none asked = asked
detected (some version) asked = some version

unfoldable pub create_venv : Disk → Clock → String → CreateVenvRequest → Action System Venv
unfolding create_standalone_venv resolve_python_for_version
create_venv disk clock id req =
    let name = trim req.name in
    let path = disk.named_venv_path name in
    (do
      lift (refuse_name disk name)
      executable ← lift (choose_python disk req.python_version)
      lift (created_on disk name executable)
      create_standalone_venv (
          Venv.mark_ready clock (
            new_standalone clock id name path
              (detected (disk.get_python_version path) req.python_version))))

pub record JobVenvInfo : Type 0 where
  pub job_id : String
  pub use_custom_venv : Bool
  pub venv : Option Venv
  pub main_venv : Option Venv

-- What the answer tells of a job, with its environment and the main one.
abbrev pub venv_info : Job → String → Action System JobVenvInfo
venv_info job job_id = do
  custom ← VenvRepository.get_by_job job_id
  main ← VenvRepository.get_main
  pure (record {
    job_id = job_id;
    use_custom_venv = job.use_custom_venv;
    venv = if job.use_custom_venv then custom else none;
    main_venv = main;
  })

unfoldable pub get_job_venv_info : String → Action System JobVenvInfo
unfolding JobRepository.get_by_id VenvRepository.get_by_job VenvRepository.get_main
get_job_venv_info job_id = do job ← JobRepository.get_by_id job_id; venv_info job job_id

unfoldable pub toggle_job_venv : String → Clock → String → Action System JobVenvInfo
unfolding JobRepository.get_by_id update_job VenvRepository.get_by_job VenvRepository.get_main
toggle_job_venv invalid clock job_id = do
  job ← JobRepository.get_by_id job_id
  updated ← update_job invalid clock job_id (only_custom_venv (not job.use_custom_venv))
  venv_info updated job_id

-- The directory of the environment is left on the disk.
unfoldable pub delete_job_venv : String → Action System Unit
unfolding JobRepository.get_by_id VenvRepository.get_by_job Venvs.delete_venv
delete_job_venv job_id = do
  JobRepository.get_by_id job_id
  VenvRepository.get_by_job job_id >>= λ found. elim found [
    | none ↦ throw (not_found (str_append "No custom venv found for job " job_id))
    | some venv ↦ Venvs.delete_venv venv.id
  ]
