-- ===== src/Schedules.antt =====
-- services/schedule_service.rs: ScheduleService. The `cron` crate is the argument `upcoming`: the
-- expression's next time, `valid none` where there is no further time, `invalid` with the message
-- where it does not parse.
pub mod Rows
pub mod Invariant
use serverust_less.Prelude.{
  Bool, true, false, not, ◌&&◌, String, Option, none, some, List, str_append, if◌then◌else◌,
}
use serverust_less.Action.{
  Action, Result, ok, err, validation, conflict, not_found, pure, throw, lift, ok_or, ◌>>=◌, ◌>>◌,
}
use serverust_less.Model.Clock.{Clock}
use serverust_less.Model.Schedule.{JobSchedule, UpdateScheduleRequest}
use serverust_less.Model.Schedule
use serverust_less.Db.{System}
use serverust_less.Db.ScheduleRepository

pub data Cron : Type 0 where
  valid : Option String → Cron
  invalid : String → Cron

abbrev pub validate_cron : Cron → Result (Unit {0})
validate_cron (valid next) = ok tt
validate_cron (invalid e) = err (validation (str_append "Invalid cron expression: " e))

abbrev pub calculate_next_run : Cron → Result String
calculate_next_run (valid (some next)) = ok next
calculate_next_run (valid none) = err (validation "Cron expression has no upcoming occurrences")
calculate_next_run (invalid e) = err (validation (str_append "Invalid cron expression: " e))

abbrev pub exists_already : String → String
exists_already job_id =
    str_append "Schedule already exists for job "
      (str_append job_id ". Delete it first or update it.")

unfoldable pub get_schedule_by_job_id : String → Action System JobSchedule
unfolding ScheduleRepository.get_by_job_id
get_schedule_by_job_id job_id = ScheduleRepository.get_by_job_id job_id >>= λ found.
    lift (ok_or found (not_found (str_append "No schedule found for job " job_id)))

abbrev pub is_none {ℓ} : {A : Type ℓ} → Option A → Bool
is_none none = true
is_none (some a) = false

module _ (upcoming : String → Cron) where
  unfoldable pub create_schedule : Clock → String → String → String → Action System JobSchedule
  unfolding ScheduleRepository.get_by_job_id ScheduleRepository.create
  create_schedule clock id job_id cron_expression = do
    lift (validate_cron (upcoming cron_expression))
    existing ← ScheduleRepository.get_by_job_id job_id
    elim existing [
      | some _ ↦ throw (conflict (exists_already job_id))
      | none ↦ do
        next_run ← lift (calculate_next_run (upcoming cron_expression))
        ScheduleRepository.create (Schedule.new clock id job_id cron_expression (some next_run))
    ]

  -- The two changes of an update, each with its errors.
  abbrev pub change_cron : Option String → JobSchedule → Result JobSchedule
  change_cron none schedule = ok schedule
  change_cron (some cron_expr) schedule = elim (validate_cron (upcoming cron_expr)) [
    | err e ↦ err e
    | ok _ ↦ elim (calculate_next_run (upcoming cron_expr)) [
      | err e ↦ err e
      | ok next ↦ ok (record schedule { cron_expression = cron_expr; next_run_at = some next })
    ]
  ]

  abbrev pub change_enabled : Option Bool → JobSchedule → Result JobSchedule
  change_enabled none schedule = ok schedule
  change_enabled (some enabled) schedule =
      if enabled && is_none schedule.next_run_at
      then (elim (calculate_next_run (upcoming schedule.cron_expression)) [
        | err e ↦ err e
        | ok next ↦ ok (record schedule { enabled = enabled; next_run_at = some next })
      ])
      else ok (record schedule { enabled = enabled })

  unfoldable pub update_schedule :
      Clock → String → UpdateScheduleRequest → Action System JobSchedule
  unfolding get_schedule_by_job_id ScheduleRepository.update
  update_schedule clock job_id req = do
    schedule ← get_schedule_by_job_id job_id
    timed ← lift (change_cron req.cron_expression schedule)
    switched ← lift (change_enabled req.enabled timed)
    ScheduleRepository.update (record switched { updated_at = clock.rfc3339 })

  abbrev pub toggled : JobSchedule → Result JobSchedule
  toggled schedule =
      if not schedule.enabled
      then (elim (calculate_next_run (upcoming schedule.cron_expression)) [
        | err e ↦ err e
        | ok next ↦ ok (record schedule { enabled = true; next_run_at = some next })
      ])
      else ok (record schedule { enabled = false })

  unfoldable pub toggle_schedule : Clock → String → Action System JobSchedule
  unfolding get_schedule_by_job_id ScheduleRepository.update
  toggle_schedule clock job_id = do
    schedule ← get_schedule_by_job_id job_id
    switched ← lift (toggled schedule)
    ScheduleRepository.update (record switched { updated_at = clock.rfc3339 })

unfoldable pub delete_schedule : String → Action System Unit
unfolding get_schedule_by_job_id ScheduleRepository.delete
delete_schedule job_id = do
  schedule ← get_schedule_by_job_id job_id
  ScheduleRepository.delete schedule.id
