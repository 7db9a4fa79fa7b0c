-- ===== src/Venvs.antt =====
-- services/venv_service.rs: VenvService.
pub mod Rows
pub mod Invariant
pub mod Python
use serverust_less.Prelude.{
  ℕ, Bool, String, Option, none, some, List, ◌==◌, if◌then◌else◌, false, true,
}
use serverust_less.Action.{Action, bad_request, pure, throw, ◌>>=◌, ◌>>◌}
use serverust_less.Model.Clock.{Clock}
use serverust_less.Model.Venv.{Venv, new_main, new_custom}
use serverust_less.Model.Venv
use serverust_less.Db.{System}
use serverust_less.Db.VenvRepository

unfoldable pub ensure_main_venv : Clock → String → Option String → Action System Venv
unfolding VenvRepository.get_main VenvRepository.create
ensure_main_venv clock path python_version = VenvRepository.get_main >>= λ found. elim found [
  | some venv ↦ pure venv
  | none ↦ VenvRepository.create (Venv.mark_ready clock (new_main clock path python_version))
]

unfoldable pub create_custom_venv :
    Clock → String → String → String → Option String → Action System Venv
unfolding VenvRepository.get_by_job VenvRepository.create
create_custom_venv clock id job_id path python_version =
    VenvRepository.get_by_job job_id >>= λ found. elim found [
      | some existing ↦ pure existing
      | none ↦ VenvRepository.create (new_custom clock id job_id path python_version)
    ]

-- The read, change and write of one environment.
unfoldable pub change_venv : (Venv → Venv) → String → Action System Venv
unfolding VenvRepository.get_by_id VenvRepository.update
change_venv f id = do venv ← VenvRepository.get_by_id id; VenvRepository.update (f venv)

unfoldable pub mark_ready : Clock → String → Action System Venv
unfolding change_venv
mark_ready clock id = change_venv (Venv.mark_ready clock) id

unfoldable pub mark_failed : Clock → String → String → Action System Venv
unfolding change_venv
mark_failed clock id error = change_venv (Venv.mark_failed clock error) id

unfoldable pub record_usage : Clock → String → Action System Unit
unfolding change_venv
record_usage clock id = change_venv (Venv.record_usage clock) id >> pure tt

unfoldable pub delete_venv : String → Action System Unit
unfolding VenvRepository.get_by_id VenvRepository.delete
delete_venv id = do
  venv ← VenvRepository.get_by_id id
  if venv.venv_type == "main"
      then throw (bad_request "Cannot delete main venv through this endpoint")
      else VenvRepository.delete id

unfoldable pub create_standalone_venv : Venv → Action System Venv
unfolding VenvRepository.create
create_standalone_venv venv = VenvRepository.create venv

unfoldable pub is_ready : String → Action System Bool
unfolding VenvRepository.get_by_id
is_ready id = do venv ← VenvRepository.get_by_id id; pure (Venv.is_ready venv)
