-- ===== src/Db/VenvRepository.antt =====
-- db/venvs.rs: the table `venvs`.
use serverust_less.Prelude.{
  ℕ, Bool, true, false, not, ◌&&◌, String, Option, none, some, List, [], ◌∷◌, ◌++◌, map, find, any,
  filter, length, ◌==◌, str_append, if◌then◌else◌, order_by, compare_text, then_with, Ordering,
  zero, suc,
}
use serverust_less.Action.{Action, ok, err, ok_or, not_found, db_error}
use serverust_less.Model.VenvStatus
use serverust_less.Model.VenvStatus.{VenvStatus}
use serverust_less.Model.VenvType
use serverust_less.Model.VenvType.{VenvType}
use serverust_less.Model.Venv.{Venv}
use serverust_less.Db.State.{System}
use serverust_less.Db.JobRepository.{unset_venv}

abbrev pub venv_named : String → Venv → Bool
venv_named id v = v.id == id

abbrev pub is_main : Venv → Bool
is_main v = v.venv_type == VenvType.as_str VenvType.main

abbrev pub is_custom : Venv → Bool
is_custom v = v.venv_type == VenvType.as_str VenvType.custom

-- `job_id = ?`
abbrev pub venv_for : String → Venv → Bool
venv_for job_id v = elim v.job_id [ none ↦ false | some j ↦ j == job_id ]

-- The table with its rows replaced.
abbrev pub with_venvs : List Venv → System → System
with_venvs rows s = record s { db = record s.db { venvs = rows } }

abbrev pub venv_not_found : String → String
venv_not_found id = str_append "Venv not found: " id

unfoldable pub get_by_id : String → Action System Venv
get_by_id id s = (ok_or (find (venv_named id) s.venvs) (not_found (venv_not_found id)), s)

unfoldable pub get_main : Action System (Option Venv)
get_main s = (ok (find is_main s.venvs), s)

unfoldable pub get_by_job : String → Action System (Option Venv)
get_by_job job_id s = (ok (find (venv_for job_id) s.venvs), s)

-- The job must exist, where there is one.
abbrev pub job_known : Option String → System → Bool
job_known none s = true
job_known (some id) s = any (λ job. job.id == id) s.jobs

unfoldable pub create : Venv → Action System Venv
unfolding get_by_id
create venv s =
    if any (venv_named venv.id) s.venvs
    then (err (db_error "UNIQUE constraint failed: venvs.id"), s)
    else if job_known venv.job_id s
    then get_by_id venv.id (with_venvs (s.venvs ++ venv ∷ []) s)
    else (err (db_error "FOREIGN KEY constraint failed"), s)

-- The statement leaves what identifies the environment alone.
abbrev pub write_venv : Venv → Venv → Venv
write_venv venv row =
    if row.id == venv.id
    then record row {
      status = venv.status;
      size_bytes = venv.size_bytes;
      package_count = venv.package_count;
      error_message = venv.error_message;
      updated_at = venv.updated_at;
      last_used_at = venv.last_used_at;
    }
    else row

unfoldable pub update : Venv → Action System Venv
unfolding get_by_id
update venv s =
    if any (venv_named venv.id) s.venvs
    then get_by_id venv.id (with_venvs (map (write_venv venv) s.venvs) s)
    else (err (not_found (venv_not_found venv.id)), s)

-- A job that refers to the environment refers to none afterwards (ON DELETE SET NULL).
unfoldable pub delete : String → Action System Unit
delete id s =
    if any (venv_named id) s.venvs
    then (
      ok tt,
      record s {
        db = record s.db {
          venvs = filter (λ v. not (v.id == id)) s.venvs;
          jobs = map (unset_venv (λ v. v == id)) s.jobs;
        };
      },
    )
    else (err (not_found (venv_not_found id)), s)

-- The total beside the rows is their number.
unfoldable pub list : Action System (List Venv)
list s = (
  ok (
      order_by
        (λ a b.
          then_with (compare_text a.venv_type b.venv_type) (compare_text b.created_at a.created_at))
        s.venvs),
  s,
)

unfoldable pub count_custom : Action System ℕ
count_custom s = (ok (length (filter is_custom s.venvs)), s)

-- ORDER BY last_used_at ASC NULLS FIRST, created_at ASC
abbrev compare_used : Option String → Option String → Ordering
compare_used none none = Ordering.eq
compare_used none (some b) = Ordering.lt
compare_used (some a) none = Ordering.gt
compare_used (some a) (some b) = compare_text a b

abbrev first_rows : ℕ → List Venv → List Venv
first_rows zero rows = []
first_rows (suc n) [] = []
first_rows (suc n) (v ∷ rows) = v ∷ first_rows n rows

unfoldable pub get_lru_custom : ℕ → Action System (List Venv)
get_lru_custom limit s = (
  ok (
      first_rows limit (
        order_by
          (λ a b.
            then_with (compare_used a.last_used_at b.last_used_at)
              (compare_text a.created_at b.created_at))
          (filter (λ v. is_custom v && v.status == VenvStatus.as_str VenvStatus.ready) s.venvs))),
  s,
)
