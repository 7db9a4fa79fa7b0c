-- ===== src/Db/ScheduleRepository.antt =====
-- db/schedules.rs: the table `job_schedules`.
use serverust_less.Prelude.{
  Bool, true, false, not, ◌&&◌, String, Option, none, some, List, [], ◌∷◌, ◌++◌, map, find, any,
  filter, ◌==◌, str_append, if◌then◌else◌, order_by, compare_text, Ordering,
}
use serverust_less.Action.{Action, ok, err, ok_or, not_found, db_error}
use serverust_less.Model.Schedule.{JobSchedule}
use serverust_less.Db.State.{System}

abbrev pub schedule_named : String → JobSchedule → Bool
schedule_named id x = x.id == id

abbrev pub schedule_for : String → JobSchedule → Bool
schedule_for job_id x = x.job_id == job_id

abbrev pub schedule_not_found : String → String
schedule_not_found id = str_append "Schedule not found: " id

-- The table with its rows replaced.
abbrev pub with_schedules : List JobSchedule → System → System
with_schedules rows s = record s { db = record s.db { job_schedules = rows } }

unfoldable pub get_by_id : String → Action System JobSchedule
get_by_id id s =
    (ok_or (find (schedule_named id) s.job_schedules) (not_found (schedule_not_found id)), s)

unfoldable pub get_by_job_id : String → Action System (Option JobSchedule)
get_by_job_id job_id s = (ok (find (schedule_for job_id) s.job_schedules), s)

-- The job must exist; nothing makes `job_id` unique.
unfoldable pub create : JobSchedule → Action System JobSchedule
unfolding get_by_id
create schedule s =
    if any (schedule_named schedule.id) s.job_schedules
    then (err (db_error "UNIQUE constraint failed: job_schedules.id"), s)
    else if any (λ job. job.id == schedule.job_id) s.jobs
    then get_by_id schedule.id (with_schedules (s.job_schedules ++ schedule ∷ []) s)
    else (err (db_error "FOREIGN KEY constraint failed"), s)

-- The statement leaves `id`, `job_id` and `created_at` alone.
abbrev pub write_schedule : JobSchedule → JobSchedule → JobSchedule
write_schedule schedule row =
    if row.id == schedule.id
    then record row {
      cron_expression = schedule.cron_expression;
      next_run_at = schedule.next_run_at;
      last_run_at = schedule.last_run_at;
      enabled = schedule.enabled;
      updated_at = schedule.updated_at;
    }
    else row

unfoldable pub update : JobSchedule → Action System JobSchedule
unfolding get_by_id
update schedule s =
    get_by_id schedule.id (with_schedules (map (write_schedule schedule) s.job_schedules) s)

unfoldable pub delete : String → Action System Unit
delete id s =
    if any (schedule_named id) s.job_schedules
    then (ok tt, with_schedules (filter (λ x. not (x.id == id)) s.job_schedules) s)
    else (err (not_found (schedule_not_found id)), s)

unfoldable pub delete_by_job_id : String → Action System Unit
delete_by_job_id job_id s =
    (ok tt, with_schedules (filter (λ x. not (x.job_id == job_id)) s.job_schedules) s)

-- The total beside the rows is their number.
unfoldable pub list_all : Action System (List JobSchedule)
list_all s = (ok (order_by (λ a b. compare_text b.created_at a.created_at) s.job_schedules), s)

abbrev pub is_gt : Ordering → Bool
is_gt Ordering.gt = true
is_gt _ = false

-- `next_run_at IS NOT NULL AND next_run_at <= datetime('now')`, a comparison of texts.
abbrev pub reached : String → Option String → Bool
reached datetime none = false
reached datetime (some next) = not (is_gt (compare_text next datetime))

abbrev pub is_due : String → JobSchedule → Bool
is_due datetime x = x.enabled && reached datetime x.next_run_at

abbrev compare_next : Option String → Option String → Ordering
compare_next none none = Ordering.eq
compare_next none (some b) = Ordering.lt
compare_next (some a) none = Ordering.gt
compare_next (some a) (some b) = compare_text a b

unfoldable pub get_due_schedules : String → Action System (List JobSchedule)
get_due_schedules datetime s = (
  ok (
      order_by (λ a b. compare_next a.next_run_at b.next_run_at)
        (filter (is_due datetime) s.job_schedules)),
  s,
)

-- `updated_at` is set to `datetime('now')`.
abbrev pub triggered : String → String → String → String → JobSchedule → JobSchedule
triggered datetime id last_run_at next_run_at x =
    if x.id == id
    then record x {
      last_run_at = some last_run_at;
      next_run_at = some next_run_at;
      updated_at = datetime;
    }
    else x

unfoldable pub mark_triggered : String → String → String → String → Action System Unit
mark_triggered datetime id last_run_at next_run_at s =
    (ok tt, with_schedules (map (triggered datetime id last_run_at next_run_at) s.job_schedules) s)
